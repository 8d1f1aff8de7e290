-- ===== src/Memory/Consolidate/IncludeAll.antt =====
-- What the strategy include-all of packages/edge-memory-server/src/consolidate.ts leaves.
use mathlib.Core.List.{append-nil}
use agentx_platform.Prelude.{
  ltb, if◌then◌else◌, length, take, keep-append, Text, keys, Result, ok, ℕ, ◌+◌, ◌≡◌, refl, ap, ◌∙◌,
  true, false, Option, none, some, List, [], ◌∷◌, ◌++◌, arith,
}
use agentx_platform.Memory.{
  MemoryScope, Feedback, MemoryEntry, MemoryStore, scope_matches, has_field, ForgetResult,
  forget_matches, is_empty_predicate, sample_size, recent, found, forget, query,
}
use agentx_platform.Memory.Ids.{IsValid}
use agentx_platform.Memory.Forget.{hits, leaves, forget-exact}
use agentx_platform.Memory.Consolidate.{
  include_all, ConsolidateInput, ConsolidateResult, AuditEntry, source_limit, validate_input,
  is_include_all, scope_predicate, select, promote, clean_up, write_promoted, found_entries,
  consolidate,
}
use agentx_platform.Memory.Consolidate.Promote.{copy, copies, promote-copies}

-- The scope that is forgotten is not an empty predicate.
not_empty :
    (scope : MemoryScope)
    → has_field scope ≡ true
    → is_empty_predicate (scope_predicate scope) ≡ false
unfolding is_empty_predicate
not_empty scope h = rw h refl

module _ {V : Type 0} where
  select-include_all :
      (filter : List Feedback) (only_topic : Option Text) (es : List (MemoryEntry V))
      → select include_all filter only_topic es ≡ ok (es, 0)
  unfolding select
  select-include_all filter only_topic [] = refl
  select-include_all filter only_topic (e ∷ es) =
      rw (select-include_all filter only_topic es, select) refl

  scope-hit :
      (scope : MemoryScope) (e : MemoryEntry V)
      → scope_matches e.scope (some scope) ≡ true
      → forget_matches e (scope_predicate scope) ≡ true
  unfolding forget_matches
  scope-hit scope e h = rw h refl

  leaves-copies :
      (clock : ℕ → Text) (input : ConsolidateInput) (at' : Text) (n : ℕ)
      → (es : List (MemoryEntry V)) → scope_matches input.to_scope (some input.from_scope) ≡ true
      → leaves (scope_predicate input.from_scope) (copies clock input at' n es) ≡ []
  leaves-copies clock input at' n [] h = refl
  leaves-copies clock input at' n (e ∷ es) h =
      rw (scope-hit input.from_scope (copy clock input at' n e) h)
        (leaves-copies clock input at' (n + 1) es h)

  forget-scope :
      (scope : MemoryScope) (s : MemoryStore V)
      → IsValid s
      → has_field scope ≡ true
      → (r : ForgetResult) × (forget (scope_predicate scope) s
          ≡ ok (record s { entries = leaves (scope_predicate scope) s.entries }, r))
  forget-scope scope s v field = (
    record {
      deleted = length (hits (scope_predicate scope) s.entries);
      deleted_ids = take sample_size (keys (hits (scope_predicate scope) s.entries));
    },
    forget-exact (scope_predicate scope) s v ∙ rw (not_empty scope field) refl,
  )

  -- When the target scope itself lies in the source scope, consolidating with include-all, and
  -- without keeping the source, reports every source entry as promoted and leaves none of them nor
  -- of their copies: of the store only what was outside of the source scope is left.
  pub consolidate-loses :
      (arrange : List (MemoryEntry V) → List (MemoryEntry V))
      → (summarize : Feedback → List (MemoryEntry V) → Result (Text × V)) (clock : ℕ → Text)
      → (at' : Text) (input : ConsolidateInput) (s : MemoryStore V) (log : List AuditEntry)
      → (e : MemoryEntry V) (es : List (MemoryEntry V)) → IsValid s
      → validate_input input ≡ ok tt
      → has_field input.from_scope ≡ true
      → input.strategy ≡ some include_all
      → input.keep_source ≡ false
      → query arrange (recent (some input.from_scope) (some source_limit)) s ≡ found (e ∷ es)
      → scope_matches input.to_scope (some input.from_scope) ≡ true
      → (t : MemoryStore V) × (after : List AuditEntry) × (r : ConsolidateResult) × (consolidate
            arrange summarize clock at' input
            (s, log)
          ≡ ok (t, after, r))
        × (r.promoted ≡ length (e ∷ es))
        × (t.entries ≡ leaves (scope_predicate input.from_scope) s.entries)
  unfolding consolidate found_entries write_promoted clean_up is_include_all
  consolidate-loses arrange summarize clock at' input s log e es v valid field every drop' q lies =
      let r0 : ConsolidateResult = record {
        promoted = 0;
        skipped = 0;
        summarized_from = none;
        lineage_ids = [];
        positives = 0;
        negatives = 0;
      } in
      let x = promote clock input at' (e ∷ es) s r0 in
      let (v', p, n) = promote-copies clock input at' (e ∷ es) s r0 v in
      let (f, gone) = forget-scope input.from_scope x.0 v' field in
      (
        record x.0 { entries = leaves (scope_predicate input.from_scope) x.0.entries },
        if ltb 0 x.1.promoted
            then log
              ++ (record {
                count = x.1.promoted;
                audited_ids = x.1.lineage_ids;
                audited_scope = input.to_scope;
              }
                  ∷ [])
            else log,
        x.1,
        rw (valid, every, q, select-include_all, drop', gone, consolidate) refl,
        n ∙ omega arith,
        ap (leaves (scope_predicate input.from_scope)) p
            ∙ keep-append _ s.entries (copies clock input at' s.next_id (e ∷ es))
            ∙ ap (λ m. leaves (scope_predicate input.from_scope) s.entries ++ m)
                (leaves-copies clock input at' s.next_id (e ∷ es) lies)
            ∙ append-nil _,
      )
