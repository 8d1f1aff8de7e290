-- ===== src/Catalog/Agents/Accepts.antt =====
-- What an accepted list of models holds (packages/harness-core/src/catalog.ts), as the lookup of
-- packages/agent-auth-lib/src/provider-registry.ts cuts its entries.
use mathlib.Core.Bool.{true≢false, false≢true}
use agentx_platform.Prelude.{
  ◌==◌, Bool-cases, or_default, Text, codes, same, Result, ok, throws, ℕ, ◌+◌, ◌≡◌, refl, sym, ap,
  subst, ◌⊎◌, inl, inr, Bool, true, false, Option, none, some, [], ◌∷◌, ◌++◌, arith,
}
use agentx_platform.Catalog.Agents.{
  is_blank, lacks_model, lacks_half, accepts_entry, validate_accepts_list, accepts_sets,
  validate_accepts_field, or_else, resolve_accepts,
}
use agentx_platform.Bindings.{cut}
use agentx_platform.Flow.Values.{
  Value, undefined, null, bool, num, text, func, arr, obj, Items, nil, cons, Fields, end, field,
  Host, truthy, field_of, object_get,
}
use agentx_platform.Catalog.Shapes.{own_field, is_array, items_of, text_of, each_item, value_or}
use agentx_platform.Catalog.Flows.Links.{AllItems}

-- A text with a first colon, and something before and behind it.
abbrev pub HasHalves : Text → Type 0
HasHalves s =
    (p : Text × Text) × (cut b':' s ≡ some p) × (is_blank p.0 ≡ false) × (is_blank p.1 ≡ false)

-- From a text that begins after the first code unit, the part before the colon may be empty.
model-halves :
    (s : Text)
    → lacks_model s ≡ false
    → (p : Text × Text) × (cut b':' s ≡ some p) × (is_blank p.1 ≡ false)
unfolding lacks_model cut
model-halves [] h = cc
model-halves (d ∷ r) h = elim (Bool-cases (d == b':')) [
  | inl t ↦ (([], r), rw (t, cut) refl, rw t at h)
  | inr t ↦ let (p, e, m) = model-halves r (rw t at h) in ((d ∷ p.0, p.1), rw (t, e, cut) refl, m)
]

lacks_half-HasHalves : (s : Text) → lacks_half s ≡ false → HasHalves s
unfolding lacks_half cut
lacks_half-HasHalves [] h = cc
lacks_half-HasHalves (c ∷ s) h = elim (Bool-cases (c == b':')) [
  | inl t ↦ absurd (true≢false (rw t at h))
  | inr t ↦
      let (p, e, m) = model-halves s (rw t at h) in ((c ∷ p.0, p.1), rw (t, e, cut) refl, refl, m)
]

module _ {N : Type 0} where
  abbrev pub AllHalves : Items N → Type 0
  AllHalves = AllItems λ entry. HasHalves (text_of entry)

  accepts_entries :
      (xs : Items N) (k : ℕ) (place : Text)
      → each_item (accepts_entry place) k xs ≡ ok tt
      → AllHalves xs
  unfolding each_item
  accepts_entries nil k place h = tt
  accepts_entries (cons x xs) k place h = (
    lacks_half-HasHalves (text_of x) (ground arith),
    accepts_entries xs (k + 1) place (ground arith),
  )

  pub accepts_list-AllHalves :
      (xs : Items N) (place : Text) → validate_accepts_list xs place ≡ ok tt → AllHalves xs
  unfolding validate_accepts_list
  accepts_list-AllHalves xs place h = accepts_entries xs 0 place h

  -- A named set, when there is one of that name.
  abbrev pub IsGood : Value N → Type 0
  IsGood list = (is_array list ≡ true) × AllHalves (items_of list)

  abbrev pub WhenSet : Option (Value N) → Type 0
  WhenSet none = Unit {0}
  WhenSet (some list) = IsGood list

  accepts_sets-passed :
      (key : Text) (list : Value N) (rest : Fields N) (place : Text)
      → accepts_sets (field key list rest) place ≡ ok tt
      → (is_array list ≡ true)
        × (validate_accepts_list (items_of list) (place ++ codes "[\"" ++ key ++ codes "\"]")
            ≡ ok tt)
        × (accepts_sets rest place ≡ ok tt)
  unfolding accepts_sets
  accepts_sets-passed key list rest place h = ground arith

  accepts_sets-WhenSet :
      (name : Text) (fs : Fields N) (place : Text)
      → accepts_sets fs place ≡ ok tt
      → WhenSet (own_field name fs)
  unfolding own_field
  accepts_sets-WhenSet name end place h = tt
  accepts_sets-WhenSet name (field key list rest) place h =
      let (a, l, r) = accepts_sets-passed key list rest place h in
      elim (Bool-cases (same key name)) [
        | inl t ↦ rw t (a, accepts_list-AllHalves (items_of list) _ l)
        | inr t ↦ rw t (accepts_sets-WhenSet name rest place r)
      ]

  accepts_field-sets :
      (r : ℕ) (fs : Fields N) (place : Text)
      → validate_accepts_field (obj r fs) place ≡ ok tt
      → accepts_sets fs place ≡ ok tt
  unfolding validate_accepts_field
  accepts_field-sets r end place h = unfold accepts_sets in refl
  accepts_field-sets r (field name list rest) place h = h

module _ (H : Host) where
  open H use {Num, object_member}

  own : (key : Text) (fs : Fields Num) → own_field key fs ≡ field_of H key fs
  unfolding own_field field_of
  own key end = refl
  own key (field k v fs) = ground (arith, own key fs)

  -- A set's list, or nothing where no set has the name.
  GoodOrNone : Value Num → Type 0
  GoodOrNone v = (v ≡ undefined) ⊎ IsGood v

  get-GoodOrNone :
      (name : Text) (fs : Fields Num) (place : Text)
      → object_member name ≡ undefined
      → accepts_sets fs place ≡ ok tt
      → GoodOrNone (object_get H name fs)
  unfolding object_get GoodOrNone
  get-GoodOrNone name fs place e h =
      rw (sym (own name fs), e) (pass (own_field name fs) (accepts_sets-WhenSet name fs place h))
    where
      pass : (o : Option (Value Num)) → WhenSet o → GoodOrNone (or_default o undefined)
      pass none w = inl refl
      pass (some v) w = inr w

  or_else-GoodOrNone : (a b : Value Num) → GoodOrNone a → GoodOrNone b → GoodOrNone (or_else H a b)
  unfolding GoodOrNone
  or_else-GoodOrNone undefined b g h = h
  or_else-GoodOrNone null b (inl e) h = h
  or_else-GoodOrNone null b (inr g) h = h
  or_else-GoodOrNone (bool x) b g h = g
  or_else-GoodOrNone (num x) b g h = g
  or_else-GoodOrNone (text x) b g h = g
  or_else-GoodOrNone (func x) b g h = g
  or_else-GoodOrNone (arr r x) b g h = g
  or_else-GoodOrNone (obj r x) b g h = g

  chosen-IsGood : (a : Value Num) → GoodOrNone a → truthy H a ≡ true → IsGood a
  unfolding GoodOrNone
  chosen-IsGood a (inl e) t = absurd (false≢true (unfold truthy in (rw e at t)))
  chosen-IsGood a (inr g) t = g

  -- Where named sets of models were accepted and neither the asked name nor "default" is inherited
  -- by every object, what is resolved is the list of a set, and each of its entries is cut at a
  -- colon into two parts that are not empty.
  pub resolve_accepts-IsGood :
      (agent_id : Text) (r : ℕ) (fs : Fields Num) (set_name place : Text) (picked : Value Num)
      → object_member set_name ≡ undefined
      → object_member (codes "default") ≡ undefined
      → validate_accepts_field (obj r fs) place ≡ ok tt
      → resolve_accepts H agent_id (obj r fs) set_name ≡ ok picked
      → IsGood picked
  unfolding resolve_accepts
  resolve_accepts-IsGood agent_id r fs set_name place picked e d v h =
      let sets = accepts_field-sets r fs place v in
      let found : Value Num =
        or_else H (object_get H set_name fs) (object_get H (codes "default") fs) in
      let good =
        or_else-GoodOrNone (object_get H set_name fs) (object_get H (codes "default") fs)
          (get-GoodOrNone set_name fs place e sets)
          (get-GoodOrNone (codes "default") fs place d sets) in
      elim (Bool-cases (truthy H found)) [
        | inl t ↦ subst IsGood (ap (value_or found) (rw t at h)) (chosen-IsGood found good t)
        | inr t ↦ absurd (false≢true (ap (λ x. is_fine x) (rw t at h)))
      ]
    where
      is_fine : Result (Value Num) → Bool
      is_fine (ok x) = true
      is_fine (throws m) = false
