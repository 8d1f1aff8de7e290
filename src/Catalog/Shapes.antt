-- ===== src/Catalog/Shapes.antt =====
-- The tests on parsed values that the checks of packages/harness-core/src/catalog.ts share. No name
-- that they read is inherited from the prototype of objects or arrays, so a member is an own one.
use agentx_platform.Prelude.{
  if◌then◌else◌, or_default, Text, codes, same, decimal, has, Result, ok, throws, ◌>>=◌, ◌>>◌, ℕ,
  ◌+◌, ◌≡◌, refl, Bool, true, false, not, Option, none, some, List, [], ◌∷◌, ◌++◌,
}
use agentx_platform.Flow.Values.{
  Value, undefined, bool, num, text, arr, obj, Items, nil, cons, Fields, end, field, Host,
}

-- `if (test) throw new CatalogError(message)`.
abbrev pub reject_if : Bool → Text → Result (Unit {0})
reject_if true message = throws message
reject_if false message = ok tt

-- `if (test) check()`.
abbrev pub only_if : Bool → Result (Unit {0}) → Result (Unit {0})
only_if true check = check
only_if false check = ok tt

module _ {N : Type 0} where
  unfoldable pub own_field : Text → Fields N → Option (Value N)
  own_field key end = none
  own_field key (field k v fs) = if same k key then some v else own_field key fs

  abbrev pub fields_of : Value N → Fields N
  fields_of (obj r fs) = fs
  fields_of _ = end

  -- `value[key]`.
  abbrev pub member : Text → Value N → Value N
  member key v = or_default (own_field key (fields_of v)) undefined

  -- `!value || typeof value !== 'object'` is its negation.
  abbrev pub is_object : Value N → Bool
  is_object (arr r xs) = true
  is_object (obj r fs) = true
  is_object _ = false

  abbrev pub is_array : Value N → Bool
  is_array (arr r xs) = true
  is_array _ = false

  abbrev pub items_of : Value N → Items N
  items_of (arr r xs) = xs
  items_of _ = nil

  abbrev pub is_absent : Value N → Bool
  is_absent undefined = true
  is_absent _ = false

  -- `typeof value === 'string' && value`.
  abbrev pub is_non_empty_text : Value N → Bool
  is_non_empty_text (text (c ∷ s)) = true
  is_non_empty_text _ = false

  abbrev pub is_text : Value N → Bool
  is_text (text s) = true
  is_text _ = false

  abbrev pub is_bool : Value N → Bool
  is_bool (bool b) = true
  is_bool _ = false

  abbrev pub text_of : Value N → Text
  text_of (text s) = s
  text_of _ = []

  -- `value === 'word'`.
  abbrev pub is_word : Text → Value N → Bool
  is_word w (text s) = same s w
  is_word w _ = false

  -- `typeof value === 'string' && words.has(value)`.
  abbrev pub is_one_of : List Text → Value N → Bool
  is_one_of ws (text s) = has s ws
  is_one_of ws _ = false

module _ (H : Host) where
  open H use {Num, num_lt, num_le, of_nat, stringify}

  -- `typeof value === 'number' && !(value <= 0)`.
  abbrev pub is_positive : Value Num → Bool
  is_positive (num n) = not (num_le n (of_nat 0))
  is_positive _ = false

  -- `typeof value === 'number' && !(value < 0)`.
  abbrev pub is_non_negative : Value Num → Bool
  is_non_negative (num n) = not (num_lt n (of_nat 0))
  is_non_negative _ = false

  -- `${JSON.stringify(value)}`.
  abbrev pub shown : Value Num → Text
  shown v = or_default (stringify v) (codes "undefined")

-- `for (const [i, item] of items.entries()) check(i, item)`, from index `i` on.
unfoldable pub each_item :
    {N : Type 0} → (ℕ → Value N → Result (Unit {0})) → ℕ → Items N → Result (Unit {0})
each_item check i nil = ok tt
each_item check i (cons x xs) = check i x >> each_item check (i + 1) xs

-- `${place}[${i}]`.
abbrev pub at_index : Text → ℕ → Text
at_index place i = place ++ codes "[" ++ decimal i ++ codes "]"

abbrev pub is_nil : {N : Type 0} → Items N → Bool
is_nil nil = true
is_nil (cons x xs) = false

abbrev pub value_or : {A : Type 0} → A → Result A → A
value_or a (ok b) = b
value_or a (throws m) = a

-- What a check that has passed says of its tests.
pub reject_if-passed : (b : Bool) (m : Text) → reject_if b m ≡ ok tt → b ≡ false
reject_if-passed true m h = cc
reject_if-passed false m h = refl

pub only_if-passed :
    (b : Bool) (check : Result (Unit {0})) → only_if b check ≡ ok tt → b ≡ true → check ≡ ok tt
only_if-passed true check h e = h
only_if-passed false check h e = cc

pub >>-passed :
    {A : Type 0} (m : Result (Unit {0})) (k : Result A) {a : A}
    → (m >> k) ≡ ok a
    → (m ≡ ok tt) × (k ≡ ok a)
>>-passed (ok tt) k h = (refl, h)
>>-passed (throws e) k h = cc

pub >>=-passed :
    {A B : Type 0} (check : Result A) (later : A → Result B) {last : B}
    → (check >>= later) ≡ ok last
    → (found : A) × (check ≡ ok found) × (later found ≡ ok last)
>>=-passed (throws message) later passed = cc
>>=-passed (ok found) later passed = (found, refl, passed)
