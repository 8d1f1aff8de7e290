-- ===== src/Memory/Queries.antt =====
-- What the queries of packages/edge-memory-server/src/store.ts find after a deletion.
use agentx_platform.Prelude.{
  Bool-cases, or_default, take, keep, All, Text, Result, ok, throws, ℕ, zero, suc, ◌≡◌, refl, sym,
  ap, subst, ◌∙◌, inl, inr, Bool, false, List, [], ◌∷◌, map,
}
use agentx_platform.Memory.{
  MemoryEntry, MemoryStore, ForgetPredicate, ForgetResult, forget_matches, is_empty_predicate,
  MemoryQuery, structured, recent, similarity, graph, MemoryQueryResult, found, unsupported,
  default_limit, forget, query,
}
use agentx_platform.Memory.Ids.{IsValid}
use agentx_platform.Memory.Forget.{leaves, forget-exact}

All-take {ℓ} : {A : Type 0} (P : A → Type ℓ) (n : ℕ) (xs : List A) → All P xs → All P (take n xs)
All-take P zero xs h = tt
All-take P (suc n) [] h = tt
All-take P (suc n) (x ∷ xs) h = (h.0, All-take P n xs h.1)

pub keep-All {ℓ} :
    {A : Type 0} (P : A → Type ℓ) (p : A → Bool) (xs : List A) → All P xs → All P (keep p xs)
keep-All P p [] h = tt
keep-All P p (x ∷ xs) h = elim (Bool-cases (p x)) [
  | inl e ↦ rw e (h.0, keep-All P p xs h.1)
  | inr e ↦ rw e (keep-All P p xs h.1)
]

module _ {V : Type 0} where
  abbrev pub Missed : ForgetPredicate → MemoryEntry V → Type 0
  Missed p e = forget_matches e p ≡ false

  leaves-Missed :
      (p : ForgetPredicate) (m : List (Text × MemoryEntry V))
      → All (Missed p) (map (λ e. e.1) (leaves p m))
  leaves-Missed p [] = tt
  leaves-Missed p (e ∷ m) = elim (Bool-cases (forget_matches e.1 p)) [
    | inl hit ↦ rw hit (leaves-Missed p m)
    | inr miss ↦ rw miss (miss, leaves-Missed p m)
  ]

  -- The sort gives back only entries that it was given.
  abbrev pub OnlyGiven : (List (MemoryEntry V) → List (MemoryEntry V)) → Type 1
  OnlyGiven arrange =
      (P : MemoryEntry V → Type 0) (l : List (MemoryEntry V)) → All P l → All P (arrange l)

  abbrev pub Finds : (MemoryEntry V → Type 0) → MemoryQueryResult V → Type 0
  Finds P (found es) = All P es
  Finds P (unsupported reason) = Unit

  pub query-Finds :
      (arrange : List (MemoryEntry V) → List (MemoryEntry V)) (q : MemoryQuery)
      → (P : MemoryEntry V → Type 0) (s : MemoryStore V) → OnlyGiven arrange
      → All P (map (λ e. e.1) s.entries)
      → Finds P (query arrange q s)
  unfolding query
  query-Finds arrange (structured key scope) P s g h = g P _ (keep-All P _ _ h)
  query-Finds arrange (recent scope limit) P s g h =
      All-take P (or_default limit default_limit) _ (g P _ (keep-All P _ _ h))
  query-Finds arrange similarity P s g h = tt
  query-Finds arrange graph P s g h = tt

  entries_of :
      List (Text × MemoryEntry V)
      → Result (MemoryStore V × ForgetResult)
      → List (Text × MemoryEntry V)
  entries_of m (ok x) = x.0.entries
  entries_of m (throws reason) = m

  entries-forget :
      (p : ForgetPredicate) (s t : MemoryStore V) (r : ForgetResult)
      → IsValid s
      → forget p s ≡ ok (t, r)
      → t.entries ≡ leaves p s.entries
  unfolding entries_of
  entries-forget p s t r h e =
      ap (entries_of (leaves p s.entries)) (sym e ∙ forget-exact p s h)
      ∙ elim (Bool-cases (is_empty_predicate p)) [ inl b ↦ rw b refl | inr b ↦ rw b refl ]

  -- Once a predicate has been forgotten, no query finds an entry that matches it.
  pub query-forget :
      (arrange : List (MemoryEntry V) → List (MemoryEntry V)) (p : ForgetPredicate)
      → (s t : MemoryStore V) (r : ForgetResult) (q : MemoryQuery) → OnlyGiven arrange
      → IsValid s
      → forget p s ≡ ok (t, r)
      → Finds (Missed p) (query arrange q t)
  query-forget arrange p s t r q g h e = query-Finds arrange q (Missed p) t g (
      subst (λ m. All (Missed p) (map (λ x. x.1) m)) (sym (entries-forget p s t r h e))
        (leaves-Missed p s.entries))
