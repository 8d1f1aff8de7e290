-- ===== src/Memory/Consolidate/Moves.antt =====
-- Consolidation with the default strategy is a move (packages/edge-memory-server/src/consolidate.ts).
use agentx_platform.Prelude.{
  ltb, if◌then◌else◌, Bool-cases, or_default, length, take, keep, All, keep-append, Text, same,
  same→eq, same_comm, has, keys, Result, ok, throws, ℕ, ◌+◌, ◌≤◌, ◌≡◌, refl, sym, ap, subst, ◌∙◌,
  inl, inr, Bool, true, false, not, ◌&&◌, Option, none, some, List, [], ◌∷◌, ◌++◌, map, arith,
}
use agentx_platform.Memory.{
  Feedback, MemoryEntry, MemoryStore, ForgetResult, forget_matches, is_empty_predicate, sample_size,
  recent, found, memory_id, forget, query,
}
use agentx_platform.Memory.Ids.{
  Issued, memory_id-injective, IsEntry, IsValid, forgets, operate, operate-IsValid,
}
use agentx_platform.Memory.Forget.{hits, forget-exact}
use agentx_platform.Memory.Queries.{keep-All, OnlyGiven, Finds, query-Finds}
use agentx_platform.Memory.Consolidate.{
  feedback_required, ConsolidateInput, ConsolidateResult, AuditEntry, source_limit, labelled,
  validate_input, default_filter, is_by_topic, is_include_all, id_predicate, is_eligible, select,
  promote, forget_each, clean_up, write_promoted, found_entries, consolidate,
}
use agentx_platform.Memory.Consolidate.Promote.{copy, copies, promote-copies}

keep-keep :
    {A : Type 0} (p q : A → Bool) (xs : List A) → keep p (keep q xs) ≡ keep (λ x. q x && p x) xs
keep-keep p q [] = refl
keep-keep p q (x ∷ xs) = ground (arith, keep-keep p q xs)

keep-same :
    {A : Type 0} (p q : A → Bool) (xs : List A) → ((x : A) → p x ≡ q x) → keep p xs ≡ keep q xs
keep-same p q [] h = refl
keep-same p q (x ∷ xs) h = ground (arith, h x, keep-same p q xs h)

keep_every : {A : Type 0} (xs : List A) → keep (λ x. true) xs ≡ xs
keep_every [] = refl
keep_every (x ∷ xs) = ap (◌∷◌ x) (keep_every xs)

unissued : (n m : ℕ) (ids : List Text) → All (Issued n) ids → n ≤ m → has (memory_id m) ids ≡ false
unfolding has
unissued n m [] h l = refl
unissued n m (k ∷ ids) ((i, b, e), h) l = elim (Bool-cases (same k (memory_id m))) [
  | inr miss ↦ rw (miss, unissued n m ids h l) refl
  | inl hit ↦
      absurd (omega (arith, b, l, memory_id-injective i m (sym e ∙ same→eq k (memory_id m) hit)))
]

module _ {V : Type 0} where
  abbrev pub ids_of : List (MemoryEntry V) → List Text
  ids_of = map λ e. e.id

  -- The entries of a store that are not among the given ones.
  abbrev pub others : List Text → List (Text × MemoryEntry V) → List (Text × MemoryEntry V)
  others ids = keep λ e. not (has e.1.id ids)

  select-feedback_required :
      (filter : List Feedback) (only_topic : Option Text) (es : List (MemoryEntry V))
      → (n : ℕ) × (select feedback_required filter only_topic es
          ≡ ok (keep (λ e. labelled filter e.provenance.feedback) es, n))
  unfolding select is_eligible is_include_all is_by_topic
  select-feedback_required filter only_topic [] = (0, refl)
  select-feedback_required filter only_topic (e ∷ es) =
      let (n, h) = select-feedback_required filter only_topic es in
      elim (Bool-cases (labelled filter e.provenance.feedback)) [
        | inl b ↦ (n, rw (b, h, select) refl)
        | inr b ↦ (n + 1, rw (b, h, select) refl)
      ]

  forget-id :
      (id : Text) (s : MemoryStore V)
      → IsValid s
      → (r : ForgetResult) × (forget (id_predicate id) s
          ≡ ok (record s { entries = others (id ∷ []) s.entries }, r))
  unfolding forget_matches is_empty_predicate has
  forget-id id s v = (
    record {
      deleted = length (hits (id_predicate id) s.entries);
      deleted_ids = take sample_size (keys (hits (id_predicate id) s.entries));
    },
    forget-exact (id_predicate id) s v
        ∙ (ap
            (λ m. ok (
              record s { entries = m },
              record {
                deleted = length (hits (id_predicate id) s.entries);
                deleted_ids = take sample_size (keys (hits (id_predicate id) s.entries));
              },
            ))
            (keep-same _ _ s.entries (λ x. ground (arith, same_comm x.1.id id)))),
  )

  forget_each-others :
      (es : List (MemoryEntry V)) (s : MemoryStore V)
      → IsValid s
      → (t : MemoryStore V) × (forget_each es s ≡ ok t) × (t.entries ≡ others (ids_of es) s.entries)
  unfolding forget_each has
  forget_each-others [] s v = (s, refl, sym (keep_every s.entries))
  forget_each-others (e ∷ es) s v =
      let (r, h) = forget-id e.id s v in
      let s' = record s { entries = others (e.id ∷ []) s.entries } in
      let (t, k, q) = forget_each-others es s' (kept e.id s r h v) in
      (
        t,
        rw (h, forget_each) k,
        q
            ∙ keep-keep _ _ s.entries
            ∙ keep-same (λ x. not (has x.1.id (e.id ∷ [])) && not (has x.1.id (ids_of es)))
                (λ x. not (has x.1.id (ids_of (e ∷ es)))) s.entries (λ x. ground arith),
      )
    where
      kept :
          (id : Text) (s : MemoryStore V) (r : ForgetResult)
          → forget (id_predicate id) s ≡ ok (record s { entries = others (id ∷ []) s.entries }, r)
          → IsValid s
          → IsValid (record s { entries = others (id ∷ []) s.entries })
      kept id s r h v =
          subst IsValid (ap (λ x. elim x [ ok y ↦ y.0 | throws m ↦ s ]) h)
            (unfold operate in operate-IsValid (forgets (id_predicate id)) s v)

  others-copies :
      (clock : ℕ → Text) (input : ConsolidateInput) (at' : Text) (n m : ℕ) (ids : List Text)
      → (es : List (MemoryEntry V)) → All (Issued n) ids
      → n ≤ m
      → others ids (copies clock input at' m es) ≡ copies clock input at' m es
  others-copies clock input at' n m ids [] h l = refl
  others-copies clock input at' n m ids (e ∷ es) h l = rw (unissued n m ids h l) (
      ap (◌∷◌ (memory_id m, copy clock input at' m e))
        (others-copies clock input at' n (m + 1) ids es h (omega (arith, l))))

  ids-Issued :
      (n : ℕ) (es : List (MemoryEntry V)) → All (λ e. Issued n e.id) es → All (Issued n) (ids_of es)
  ids-Issued n [] h = tt
  ids-Issued n (e ∷ es) h = (h.0, ids-Issued n es h.1)

  entries-Issued :
      (n : ℕ) (m : List (Text × MemoryEntry V))
      → All (IsEntry n) m
      → All (λ e. Issued n e.id) (map (λ e. e.1) m)
  entries-Issued n [] h = tt
  entries-Issued n (e ∷ m) h = (subst (Issued n) h.0.0 h.0.1, entries-Issued n m h.1)

  clean_up-forget_each :
      (input : ConsolidateInput) (es : List (MemoryEntry V)) (s : MemoryStore V)
      → input.keep_source ≡ false
      → clean_up input feedback_required es s ≡ forget_each es s
  unfolding clean_up is_include_all
  clean_up-forget_each input [] s h = unfold forget_each in refl
  clean_up-forget_each input (e ∷ es) s h = rw h refl

  -- With the default strategy, and without keeping the source, consolidation moves exactly the
  -- labelled entries that the filter admits: their copies stand behind all entries, in the order of
  -- the query, they themselves are gone, and every other entry stays as it is.
  pub consolidate-moves :
      (arrange : List (MemoryEntry V) → List (MemoryEntry V))
      → (summarize : Feedback → List (MemoryEntry V) → Result (Text × V)) (clock : ℕ → Text)
      → (at' : Text) (input : ConsolidateInput) (s : MemoryStore V) (log : List AuditEntry)
      → (source : List (MemoryEntry V)) → OnlyGiven arrange
      → IsValid s
      → validate_input input ≡ ok tt
      → or_default input.strategy feedback_required ≡ feedback_required
      → input.keep_source ≡ false
      → query arrange (recent (some input.from_scope) (some source_limit)) s ≡ found source
      → let filter = or_default input.feedback_filter default_filter in
        let moved = keep (λ e. labelled filter e.provenance.feedback) source in
        (t : MemoryStore V) × (after : List AuditEntry) × (r : ConsolidateResult) × (consolidate
            arrange summarize clock at' input
            (s, log)
          ≡ ok (t, after, r))
        × (r.promoted ≡ length moved)
        × (t.entries ≡ others (ids_of moved) s.entries ++ copies clock input at' s.next_id moved)
  unfolding consolidate found_entries write_promoted
  consolidate-moves arrange summarize clock at' input s log source g v valid default drop' q =
      let filter = or_default input.feedback_filter default_filter in
      let moved = keep (λ e. labelled filter e.provenance.feedback) source in
      let (n, sel) = select-feedback_required filter input.only_topic source in
      let r0 : ConsolidateResult = record {
        promoted = 0;
        skipped = n;
        summarized_from = none;
        lineage_ids = [];
        positives = 0;
        negatives = 0;
      } in
      let x = promote clock input at' moved s r0 in
      let (v', p, c) = promote-copies clock input at' moved s r0 v in
      let (t, gone, left) = forget_each-others moved x.0 v' in
      let issued : All (λ e. Issued s.next_id e.id) source =
        subst (Finds (λ e. Issued s.next_id e.id)) q (
          query-Finds arrange (recent (some input.from_scope) (some source_limit))
            (λ e. Issued s.next_id e.id) s g (entries-Issued s.next_id s.entries v.1)) in
      (
        t,
        if ltb 0 x.1.promoted
            then log
              ++ (record {
                count = x.1.promoted;
                audited_ids = x.1.lineage_ids;
                audited_scope = input.to_scope;
              }
                  ∷ [])
            else log,
        x.1,
        rw (valid, q, default, sel, clean_up-forget_each input moved x.0 drop', gone, consolidate)
            refl,
        c ∙ omega arith,
        left
            ∙ ap (others (ids_of moved)) p
            ∙ keep-append _ s.entries (copies clock input at' s.next_id moved)
            ∙ ap (λ m. others (ids_of moved) s.entries ++ m)
                (others-copies clock input at' s.next_id s.next_id (ids_of moved) moved
                  (ids-Issued s.next_id moved (keep-All _ _ source issued)) (omega arith)),
      )
