-- ===== src/Memory/Ids.antt =====
-- The ids that the store of packages/edge-memory-server/src/store.ts gives out, and what its
-- operations keep.
use mathlib.Core.Bool.{false≢true}
use agentx_platform.Prelude.{
  Bool-cases, Option-cases, or_default, is_some, drop, All, Text, same, same→eq, decimal-injective,
  lookup, insert, remove, has, Distinct, keys, insert-Distinct, remove-Distinct, insert-All,
  remove-All, ok, throws, ℕ, ◌+◌, ◌<◌, ◌≡◌, refl, sym, ap, subst, ◌∙◌, inl, inr, false, some, List,
  [], ◌∷◌, arith,
}
use agentx_platform.Memory.{
  MemoryProvenance, MemoryEntry, MemoryPutInput, MemoryStore, empty_store, ForgetPredicate,
  ForgetResult, forget_matches, is_empty_predicate, sampled, TagInput, TagResult,
  is_empty_tag_input, memory_id, put, set_provenance, forget_loop, forget, tag_matches, retag,
  skips, tag_loop, tag,
}

-- Given out before the next number.
abbrev pub Issued : ℕ → Text → Type 0
Issued n k = (i : ℕ) × (i < n) × (k ≡ memory_id i)

pub memory_id-injective : (m n : ℕ) → memory_id m ≡ memory_id n → m ≡ n
unfolding memory_id
memory_id-injective m n h = decimal-injective m n (ap (drop 4) h)

module _ {V : Type 0} where
  -- What holds of each entry of a store: it stands under its own id, which was given out.
  abbrev pub IsEntry : ℕ → Text × MemoryEntry V → Type 0
  IsEntry n e = (e.0 ≡ e.1.id) × Issued n e.0

  -- Each entry stands once, under its own id, which was given out.
  abbrev pub IsValid : MemoryStore V → Type 0
  IsValid s = Distinct (keys s.entries) × All (IsEntry s.next_id) s.entries

  pub IsEntry-grow :
      (n : ℕ) (m : List (Text × MemoryEntry V)) → All (IsEntry n) m → All (IsEntry (n + 1)) m
  IsEntry-grow n [] h = tt
  IsEntry-grow n (e ∷ m) ((a, (i, l, q)), h) = ((a, (i, omega arith, q)), IsEntry-grow n m h)

  -- The next id is new.
  pub has-memory_id :
      (n : ℕ) (m : List (Text × MemoryEntry V))
      → All (IsEntry n) m
      → has (memory_id n) (keys m) ≡ false
  unfolding has
  has-memory_id n [] h = refl
  has-memory_id n (e ∷ m) ((a, (i, l, q)), h) = elim (Bool-cases (same e.0 (memory_id n))) [
    | inr miss ↦ rw (miss, has-memory_id n m h) refl
    | inl hit ↦
        absurd (omega (arith, memory_id-injective i n (sym q ∙ same→eq e.0 (memory_id n) hit)))
  ]

  pub put-IsValid :
      (now : Text) (input : MemoryPutInput V) (s : MemoryStore V)
      → IsValid s
      → IsValid (put now input s).0
  unfolding put
  put-IsValid now input s (d, h) = (
    insert-Distinct (memory_id s.next_id) _ s.entries d,
    insert-All (IsEntry (s.next_id + 1)) (memory_id s.next_id) _ s.entries
        (refl, (s.next_id, omega arith, refl)) (IsEntry-grow s.next_id s.entries h),
  )

  forget_loop-IsValid :
      (n : ℕ) (p : ForgetPredicate) (todo m : List (Text × MemoryEntry V)) (r : ForgetResult)
      → Distinct (keys m) × All (IsEntry n) m
      → Distinct (keys (forget_loop p todo m r).0) × All (IsEntry n) (forget_loop p todo m r).0
  unfolding forget_loop
  forget_loop-IsValid n p [] m r h = h
  forget_loop-IsValid n p ((id, e) ∷ todo) m r h = elim (Bool-cases (forget_matches e p)) [
    | inl hit ↦
        rw (hit, forget_loop)
          (forget_loop-IsValid n p todo (remove id m)
            (record { deleted = r.deleted + 1; deleted_ids = sampled r.deleted_ids id })
            (remove-Distinct id m h.0, remove-All (IsEntry n) id m h.1))
    | inr miss ↦ rw (miss, forget_loop) (forget_loop-IsValid n p todo m r h)
  ]

  retag-IsEntry :
      (now : Text) (t : TagInput) (n : ℕ) (id : Text) (e : MemoryEntry V)
      → IsEntry n (id, e)
      → IsEntry n (id, retag now t e)
  unfolding retag
  retag-IsEntry now t n id e h = h

  tag_loop-IsValid :
      (now : Text) (t : TagInput) (n : ℕ) (todo m : List (Text × MemoryEntry V)) (r : TagResult)
      → All (IsEntry n) todo
      → Distinct (keys m) × All (IsEntry n) m
      → Distinct (keys (tag_loop now t todo m r).0) × All (IsEntry n) (tag_loop now t todo m r).0
  unfolding tag_loop
  tag_loop-IsValid now t n [] m r k h = h
  tag_loop-IsValid now t n ((id, e) ∷ todo) m r (k, ks) h = elim (Bool-cases (tag_matches t id e)) [
    | inr miss ↦ rw (miss, tag_loop) (tag_loop-IsValid now t n todo m r ks h)
    | inl hit ↦ elim (Bool-cases (skips t e)) [
      | inl skip ↦
          rw (hit, skip, tag_loop)
            (tag_loop-IsValid now t n todo m (record r { already_tagged = r.already_tagged + 1 }) ks
              h)
      | inr done ↦
          rw (hit, done, tag_loop)
            (tag_loop-IsValid now t n todo (insert id (retag now t e) m)
              (record r { tagged = r.tagged + 1; tagged_ids = sampled r.tagged_ids id }) ks
              (
                insert-Distinct id (retag now t e) m h.0,
                insert-All (IsEntry n) id (retag now t e) m (retag-IsEntry now t n id e k) h.1,
              ))
    ]
  ]

-- The operations that change a store.
pub data Operation (V : Type 0) : Type 0 where
  puts : Text → MemoryPutInput V → Operation V
  forgets : ForgetPredicate → Operation V
  tags : Text → TagInput → Operation V
  sets : Text → MemoryProvenance → Operation V

module _ {V : Type 0} where
  -- What an operation makes of a store; one that throws leaves it as it is.
  unfoldable pub operate : MemoryStore V → Operation V → MemoryStore V
  unfolding put forget tag set_provenance
  operate s (puts now input) = (put now input s).0
  operate s (forgets p) = elim (forget p s) [ ok r ↦ r.0 | throws m ↦ s ]
  operate s (sets id p) = (set_provenance id p s).0
  operate s (tags now t) = elim (tag now t s) [ ok r ↦ r.0 | throws m ↦ s ]

  unfoldable pub history : List (Operation V) → MemoryStore V → MemoryStore V
  unfolding operate
  history [] s = s
  history (o ∷ os) s = history os (operate s o)

  lookup-IsEntry :
      (n : ℕ) (id : Text) (e : MemoryEntry V) (m : List (Text × MemoryEntry V))
      → All (IsEntry n) m
      → lookup id m ≡ some e
      → IsEntry n (id, e)
  unfolding lookup
  lookup-IsEntry n id e [] h k = absurd (false≢true (ap is_some k))
  lookup-IsEntry n id e (x ∷ m) h k = elim (Bool-cases (same x.0 id)) [
    | inl hit ↦
        subst (λ v. IsEntry n (id, v)) (ap (λ o. or_default o e) (rw hit at k))
          (subst (λ j. IsEntry n (j, x.1)) (same→eq x.0 id hit) h.0)
    | inr miss ↦ lookup-IsEntry n id e m h.1 (rw miss at k)
  ]

  pub operate-IsValid : (o : Operation V) (s : MemoryStore V) → IsValid s → IsValid (operate s o)
  unfolding operate
  operate-IsValid (puts now input) s h = put-IsValid now input s h
  operate-IsValid (forgets p) s h = elim (Bool-cases (is_empty_predicate p)) [
    | inl e ↦ rw (e, operate) h
    | inr e ↦
        rw (e, operate)
          (forget_loop-IsValid s.next_id p s.entries s.entries
            (record { deleted = 0; deleted_ids = [] }) h)
  ]
  operate-IsValid (sets id p) s h = elim (Option-cases (lookup id s.entries)) [
    | inl e ↦ rw (e, operate) h
    | inr (entry, e) ↦
        rw (e, operate)
          (
            insert-Distinct id (record entry { provenance = p }) s.entries h.0,
            insert-All (IsEntry s.next_id) id (record entry { provenance = p }) s.entries
                (lookup-IsEntry s.next_id id entry s.entries h.1 e) h.1,
          )
  ]
  operate-IsValid (tags now t) s h = elim (Bool-cases (is_empty_tag_input t)) [
    | inl e ↦ rw (e, operate) h
    | inr e ↦
        rw (e, operate)
          (tag_loop-IsValid now t s.next_id s.entries s.entries
            (record { tagged = 0; already_tagged = 0; tagged_ids = [] }) h.1 h)
  ]

  history-step : (os : List (Operation V)) (s : MemoryStore V) → IsValid s → IsValid (history os s)
  unfolding history
  history-step [] s h = h
  history-step (o ∷ os) s h = history-step os (operate s o) (operate-IsValid o s h)

  -- After any puts, forgets, tags and changes of provenance, the ones that throw included, every
  -- entry of the store stands once, under its own id, and that id was given out before.
  pub history-IsValid : (os : List (Operation V)) → IsValid (history os empty_store)
  history-IsValid os = history-step os empty_store (tt, tt)
