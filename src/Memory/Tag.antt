-- ===== src/Memory/Tag.antt =====
-- What `tag` of packages/edge-memory-server/src/store.ts labels.
use mathlib.Core.List.{append_assoc}
use agentx_platform.Prelude.{
  if◌then◌else◌, Bool-cases, insert, none, some, Bool, ◌||◌, length, take, keep, Text, Distinct,
  keys, insert-middle, Distinct-middle, ok, throws, ℕ, ◌+◌, ◌≡◌, refl, sym, ap, ap₂, subst, ◌∙◌,
  inl, inr, not, ◌&&◌, List, [], ◌∷◌, ◌++◌, map, arith,
}
use agentx_platform.Memory.{
  same_feedback, unconfirmed, MemoryEntry, MemoryStore, sample_size, sampled, TagInput, TagResult,
  empty_tag_input, is_empty_tag_input, tag_matches, retag, skips, tag_loop, tag,
}
use agentx_platform.Memory.Ids.{IsValid}
use agentx_platform.Memory.Forget.{sampled_all, sampled_all-take}

module _ {V : Type 0} where
  -- The entry is unconfirmed, or labels are to be overwritten.
  abbrev pub may_label : TagInput → MemoryEntry V → Bool
  may_label t e = t.overwrite || same_feedback e.provenance.feedback unconfirmed

  -- The entries that a tag labels, and those that it passes over because of a label.
  abbrev pub to_label : TagInput → List (Text × MemoryEntry V) → List (Text × MemoryEntry V)
  to_label t = keep λ e. tag_matches t e.0 e.1 && may_label t e.1

  abbrev pub passed_over : TagInput → List (Text × MemoryEntry V) → List (Text × MemoryEntry V)
  passed_over t = keep λ e. tag_matches t e.0 e.1 && not (may_label t e.1)

  -- The entry with the label of the input, its source if it names one, and the time.
  abbrev pub with_label : Text → TagInput → MemoryEntry V → MemoryEntry V
  with_label now t e = record e {
    provenance = record e.provenance {
      feedback = t.label;
      feedback_source = elim t.label_source [
        | none ↦ e.provenance.feedback_source
        | some source ↦ some source
      ];
      feedback_at = some now;
    };
  }

  abbrev pub relabel : Text → TagInput → Text × MemoryEntry V → Text × MemoryEntry V
  relabel now t e =
      (e.0, if tag_matches t e.0 e.1 && may_label t e.1 then with_label now t e.1 else e.1)

  retag-with_label :
      (now : Text) (t : TagInput) (e : MemoryEntry V) → retag now t e ≡ with_label now t e
  unfolding retag
  retag-with_label now t e = refl

  skips-may_label : (t : TagInput) (e : MemoryEntry V) → skips t e ≡ not (may_label t e)
  unfolding skips
  skips-may_label t e = ground arith

  keys-middle :
      (id : Text) (e v : MemoryEntry V) (pre todo : List (Text × MemoryEntry V))
      → keys (pre ++ (id, e) ∷ todo) ≡ keys (pre ++ (id, v) ∷ todo)
  keys-middle id e v [] todo = refl
  keys-middle id e v (p ∷ pre) todo = ap (◌∷◌ p.0) (keys-middle id e v pre todo)

  tag_outcome :
      List (Text × MemoryEntry V) → ℕ → ℕ → List Text → List (Text × MemoryEntry V) × TagResult
  tag_outcome m n k ids = (m, record { tagged = n; already_tagged = k; tagged_ids = ids })

  tag_loop-exact :
      (now : Text) (t : TagInput) (pre todo : List (Text × MemoryEntry V)) (r : TagResult)
      → Distinct (keys (pre ++ todo))
      → tag_loop now t todo (pre ++ todo) r
        ≡ tag_outcome
            (pre ++ map (relabel now t) todo)
            (r.tagged + length (to_label t todo))
            (r.already_tagged + length (passed_over t todo))
            (sampled_all r.tagged_ids (keys (to_label t todo)))
  unfolding tag_loop tag_outcome
  tag_loop-exact now t pre [] r d =
      ap₂ (λ n k. tag_outcome (pre ++ []) n k r.tagged_ids) (omega arith) (omega arith)
  tag_loop-exact now t pre ((id, e) ∷ todo) r d =
      let next : (v : MemoryEntry V) (q : TagResult)
          → tag_loop now t todo (pre ++ (id, v) ∷ todo) q
            ≡ tag_outcome (pre ++ (id, v) ∷ map (relabel now t) todo)
                (q.tagged + length (to_label t todo))
                (q.already_tagged + length (passed_over t todo))
                (sampled_all q.tagged_ids (keys (to_label t todo))) =
        λ v q.
          ap (λ m. tag_loop now t todo m q) (sym (append_assoc pre ((id, v) ∷ []) todo))
          ∙ tag_loop-exact now t (pre ++ ((id, v) ∷ [])) todo q (
              subst Distinct
                (keys-middle id e v pre todo ∙ ap keys (sym (append_assoc pre ((id, v) ∷ []) todo)))
                d)
          ∙ ap
              (λ m.
                tag_outcome m (q.tagged + length (to_label t todo))
                  (q.already_tagged + length (passed_over t todo))
                  (sampled_all q.tagged_ids (keys (to_label t todo))))
              (append_assoc pre ((id, v) ∷ []) (map (relabel now t) todo)) in
      elim (Bool-cases (tag_matches t id e)) [
        | inr miss ↦ rw (miss, tag_loop) (next e r)
        | inl hit ↦ elim (Bool-cases (may_label t e)) [
          | inr skip ↦
              rw (hit, skips-may_label t e, skip, tag_loop)
                (next e (record r { already_tagged = r.already_tagged + 1 })
                  ∙ ap
                      (λ n.
                        tag_outcome (pre ++ (id, e) ∷ map (relabel now t) todo)
                          (r.tagged + length (to_label t todo)) n
                          (sampled_all r.tagged_ids (keys (to_label t todo))))
                      (omega arith))
          | inl done ↦
              let r' : TagResult = record r {
                tagged = r.tagged + 1;
                tagged_ids = sampled r.tagged_ids id;
              } in
              rw (hit, skips-may_label t e, done, tag_loop)
                (ap (λ m. tag_loop now t todo m r')
                    (ap (λ v. insert id v (pre ++ (id, e) ∷ todo)) (retag-with_label now t e)
                      ∙ insert-middle id (with_label now t e) e pre todo
                          (Distinct-middle id e pre todo d).0)
                  ∙ next (with_label now t e) r'
                  ∙ ap
                      (λ n.
                        tag_outcome (pre ++ (id, with_label now t e) ∷ map (relabel now t) todo) n
                          (r.already_tagged + length (passed_over t todo))
                          (sampled_all (sampled r.tagged_ids id) (keys (to_label t todo))))
                      (omega arith))
        ]
      ]

  -- Input that names no entries and sets no field is refused. Any other gives its label, with the
  -- time, and with its source if it names one, to exactly the entries that match it and are
  -- unconfirmed, or to all that match it if it is to overwrite labels; of these nothing else changes.
  -- It leaves all others as they are, counts the matches that it labels and those that it passes
  -- over, and names the first hundred that it labels.
  pub tag-exact :
      (now : Text) (t : TagInput) (s : MemoryStore V)
      → IsValid s
      → tag now t s ≡ (
          if is_empty_tag_input t
          then throws empty_tag_input
          else ok (
            record s { entries = map (relabel now t) s.entries },
            record {
              tagged = length (to_label t s.entries);
              already_tagged = length (passed_over t s.entries);
              tagged_ids = take sample_size (keys (to_label t s.entries));
            },
          ))
  unfolding tag tag_outcome
  tag-exact now t s h = elim (Bool-cases (is_empty_tag_input t)) [
    | inl e ↦ rw e refl
    | inr e ↦ rw e (
        ap (λ (x : List (Text × MemoryEntry V) × TagResult). ok (record s { entries = x.0 }, x.1))
          (tag_loop-exact now t [] s.entries
              (record { tagged = 0; already_tagged = 0; tagged_ids = [] }) h.0
            ∙ tag_result (omega arith) (omega arith)
                (sampled_all-take [] (keys (to_label t s.entries)))))
  ]
    where
      tag_result :
          {a b c d : ℕ} {k l : List Text}
          → a ≡ b
          → c ≡ d
          → k ≡ l
          → tag_outcome (map (relabel now t) s.entries) a c k
            ≡ tag_outcome (map (relabel now t) s.entries) b d l
      tag_result p q r = cc
