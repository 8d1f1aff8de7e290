-- ===== src/Memory/Forget.antt =====
-- What `forget` of packages/edge-memory-server/src/store.ts deletes.
use mathlib.Core.List.{append_assoc, append-nil}
use agentx_platform.Prelude.{
  ltb, if◌then◌else◌, Bool-cases, length, take, keep, length-append, length-take, Text, Distinct,
  keys, remove-middle, Distinct-middle, ok, throws, ℕ, zero, suc, ◌+◌, ◌≤◌, min, ◌≡◌, refl, sym, ap,
  ap₂, subst, ◌∙◌, inl, inr, true, false, not, List, [], ◌∷◌, ◌++◌, arith,
}
use agentx_platform.Memory.{
  MemoryEntry, MemoryStore, ForgetPredicate, ForgetResult, forget_matches, empty_predicate,
  is_empty_predicate, sample_size, sampled, forget_loop, forget,
}
use agentx_platform.Memory.Ids.{IsValid}

-- The sample of ids, after more ids.
abbrev pub sampled_all : List Text → List Text → List Text
sampled_all ids [] = ids
sampled_all ids (k ∷ ks) = sampled_all (sampled ids k) ks

take-short : {A : Type 0} (n : ℕ) (xs : List A) → length xs ≤ n → take n xs ≡ xs
take-short zero [] h = refl
take-short zero (x ∷ xs) h = absurd (omega (arith, h))
take-short (suc n) [] h = refl
take-short (suc n) (x ∷ xs) h = ap (◌∷◌ x) (take-short n xs (omega (arith, h)))

take-full : {A : Type 0} (n : ℕ) (xs ys : List A) → n ≤ length xs → take n (xs ++ ys) ≡ take n xs
take-full zero xs ys h = refl
take-full (suc n) [] ys h = absurd (omega (arith, h))
take-full (suc n) (x ∷ xs) ys h = ap (◌∷◌ x) (take-full n xs ys (omega (arith, h)))

sampled-take :
    (ids : List Text) (k : Text)
    → sampled (take sample_size ids) k ≡ take sample_size (ids ++ (k ∷ []))
sampled-take ids k = elim (Bool-cases (ltb (length (take sample_size ids)) sample_size)) [
  | inl room ↦ rw room (
      ap (λ l. l ++ (k ∷ []))
        (take-short sample_size ids
          (fits (length ids) (length (take sample_size ids)) room (length-take sample_size ids)))
      ∙ sym (
          take-short sample_size (ids ++ (k ∷ [])) (
            grows (length ids) (length (take sample_size ids)) (length (ids ++ (k ∷ []))) room
              (length-take sample_size ids) (length-append ids (k ∷ [])))))
  | inr full ↦ rw full (
      sym (
        take-full sample_size ids (k ∷ [])
          (spilt (length ids) (length (take sample_size ids)) full (length-take sample_size ids))))
]
  where
    fits : (a b : ℕ) → ltb b sample_size ≡ true → b ≡ min sample_size a → a ≤ sample_size
    fits a b h e = ground arith

    grows :
        (a b c : ℕ) → ltb b sample_size ≡ true → b ≡ min sample_size a → c ≡ a + 1 → c ≤ sample_size
    grows a b c h e g = ground arith

    spilt : (a b : ℕ) → ltb b sample_size ≡ false → b ≡ min sample_size a → sample_size ≤ a
    spilt a b h e = ground arith

pub sampled_all-take :
    (ids ks : List Text) → sampled_all (take sample_size ids) ks ≡ take sample_size (ids ++ ks)
sampled_all-take ids [] = ap (take sample_size) (sym (append-nil ids))
sampled_all-take ids (k ∷ ks) =
    ap (λ l. sampled_all l ks) (sampled-take ids k)
    ∙ sampled_all-take (ids ++ (k ∷ [])) ks
    ∙ ap (take sample_size) (append_assoc ids (k ∷ []) ks)

module _ {V : Type 0} where
  -- What a predicate hits, and what it leaves.
  abbrev pub hits : ForgetPredicate → List (Text × MemoryEntry V) → List (Text × MemoryEntry V)
  hits p = keep λ e. forget_matches e.1 p

  abbrev pub leaves : ForgetPredicate → List (Text × MemoryEntry V) → List (Text × MemoryEntry V)
  leaves p = keep λ e. not (forget_matches e.1 p)

  outcome : List (Text × MemoryEntry V) → ℕ → List Text → List (Text × MemoryEntry V) × ForgetResult
  outcome m n ids = (m, record { deleted = n; deleted_ids = ids })

  forget_loop-exact :
      (p : ForgetPredicate) (pre todo : List (Text × MemoryEntry V)) (r : ForgetResult)
      → Distinct (keys (pre ++ todo))
      → forget_loop p todo (pre ++ todo) r
        ≡ outcome
            (pre ++ leaves p todo)
            (r.deleted + length (hits p todo))
            (sampled_all r.deleted_ids (keys (hits p todo)))
  unfolding forget_loop outcome
  forget_loop-exact p pre [] r d = ap (λ n. outcome (pre ++ []) n r.deleted_ids) (omega arith)
  forget_loop-exact p pre ((id, e) ∷ todo) r d = elim (Bool-cases (forget_matches e p)) [
    | inl hit ↦
        let (a, b, c) = Distinct-middle id e pre todo d in
        let r' : ForgetResult = record {
          deleted = r.deleted + 1;
          deleted_ids = sampled r.deleted_ids id;
        } in
        rw (hit, forget_loop)
          (ap (λ m. forget_loop p todo m r') (remove-middle id e pre todo a b)
            ∙ forget_loop-exact p pre todo r' c
            ∙ ap
                (λ n.
                  outcome (pre ++ leaves p todo) n
                    (sampled_all (sampled r.deleted_ids id) (keys (hits p todo))))
                (omega arith))
    | inr miss ↦
        rw (miss, forget_loop)
          (ap (λ m. forget_loop p todo m r) (sym (append_assoc pre ((id, e) ∷ []) todo))
            ∙ forget_loop-exact p (pre ++ ((id, e) ∷ [])) todo r
                (subst (λ l. Distinct (keys l)) (sym (append_assoc pre ((id, e) ∷ []) todo)) d)
            ∙ ap
                (λ m.
                  outcome m (r.deleted + length (hits p todo))
                    (sampled_all r.deleted_ids (keys (hits p todo))))
                (append_assoc pre ((id, e) ∷ []) (leaves p todo)))
  ]

  -- A predicate that sets no field is refused. Any other deletes exactly the entries that match it,
  -- keeps the others in their order, counts what it deletes, and names the first hundred.
  pub forget-exact :
      (p : ForgetPredicate) (s : MemoryStore V)
      → IsValid s
      → forget p s ≡ (
          if is_empty_predicate p
          then throws empty_predicate
          else ok (
            record s { entries = leaves p s.entries },
            record {
              deleted = length (hits p s.entries);
              deleted_ids = take sample_size (keys (hits p s.entries));
            },
          ))
  unfolding forget outcome
  forget-exact p s h = elim (Bool-cases (is_empty_predicate p)) [
    | inl e ↦ rw e refl
    | inr e ↦ rw e (
        ap
          (λ (x : List (Text × MemoryEntry V) × ForgetResult). ok (record s { entries = x.0 }, x.1))
          (forget_loop-exact p [] s.entries (record { deleted = 0; deleted_ids = [] }) h.0
            ∙ ap₂ (outcome (leaves p s.entries)) (omega arith)
                (sampled_all-take [] (keys (hits p s.entries)))))
  ]
