-- ===== src/Memory/Consolidate/Promote.antt =====
-- What verbatim promotion of packages/edge-memory-server/src/consolidate.ts leaves.
use mathlib.Core.List.{append_assoc, append-nil}
use agentx_platform.Prelude.{
  length, Text, insert-absent, ℕ, ◌+◌, ◌≡◌, sym, ap, ◌∙◌, none, some, List, [], ◌∷◌, ◌++◌, arith,
}
use agentx_platform.Memory.{rule, MemoryEntry, MemoryStore, memory_id, put}
use agentx_platform.Memory.Ids.{IsValid, has-memory_id, put-IsValid}
use agentx_platform.Memory.Consolidate.{
  ConsolidateInput, ConsolidateResult, count_promoted, promote_input, promote,
}

module _ {V : Type 0} (clock : ℕ → Text) (input : ConsolidateInput) (at' : Text) where
  -- The promoted copy of an entry, put with the given number.
  abbrev pub copy : ℕ → MemoryEntry V → MemoryEntry V
  copy n e = record {
    id = memory_id n;
    created_at = clock n;
    key = e.key;
    value = e.value;
    scope = input.to_scope;
    provenance = record {
      originating_job_id = none;
      originating_product_id = none;
      consolidated_from = some (input.from_scope, e.id ∷ []);
      consolidated_by = some rule;
      consolidated_at = some at';
      feedback = e.provenance.feedback;
      feedback_source = e.provenance.feedback_source;
      feedback_at = e.provenance.feedback_at;
    };
  }

  -- The copies of a list of entries, put one after the other.
  abbrev pub copies : ℕ → List (MemoryEntry V) → List (Text × MemoryEntry V)
  copies n [] = []
  copies n (e ∷ es) = (memory_id n, copy n e) ∷ copies (n + 1) es

  put-copy :
      (e : MemoryEntry V) (s : MemoryStore V)
      → IsValid s
      → put (clock s.next_id) (promote_input input rule at' e) s ≡ (
        record {
          entries = s.entries ++ (memory_id s.next_id, copy s.next_id e) ∷ [];
          next_id = s.next_id + 1;
        },
        copy s.next_id e,
      )
  unfolding put promote_input
  put-copy e s h =
      ap (λ m. (record { entries = m; next_id = s.next_id + 1 }, copy s.next_id e))
        (insert-absent (memory_id s.next_id) (copy s.next_id e) s.entries
          (has-memory_id s.next_id s.entries h.1))

  pub promote-copies :
      (es : List (MemoryEntry V)) (s : MemoryStore V) (r : ConsolidateResult)
      → IsValid s
      → let x = promote clock input at' es s r in
        IsValid x.0
        × (x.0.entries ≡ s.entries ++ copies s.next_id es)
        × (x.1.promoted ≡ r.promoted + length es)
  unfolding promote
  promote-copies [] s r h = (h, sym (append-nil s.entries), omega arith)
  promote-copies (e ∷ es) s r h =
      let put_now = put (clock s.next_id) (promote_input input rule at' e) s in
      let (v, p, q) =
        promote-copies es put_now.0 (count_promoted e.provenance.feedback put_now.1.id r)
          (put-IsValid (clock s.next_id) (promote_input input rule at' e) s h) in
      (
        v,
        p
            ∙ ap (λ (x : MemoryStore V × MemoryEntry V). x.0.entries ++ copies (s.next_id + 1) es)
                (put-copy e s h)
            ∙ append_assoc s.entries ((memory_id s.next_id, copy s.next_id e) ∷ [])
                (copies (s.next_id + 1) es),
        q ∙ omega arith,
      )
