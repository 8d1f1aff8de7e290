-- ===== src/Flow/Values.antt =====
-- The dynamic values that expressions of packages/harness-core/src/flow-graph.ts range over.
-- Arrays and objects carry the reference by which `===` compares them.
use agentx_platform.Prelude.{
  Result, ok, ◌==◌, if◌then◌else◌, or_default, Text, codes, same, decimal, split, ℕ, suc, ◌+◌, Bool,
  true, false, not, ◌&&◌, ◌||◌, Option, none, some, List, [], ◌∷◌,
}

mutual
  pub data Value (N : Type 0) : Type 0 where
    undefined null : Value N
    bool : Bool → Value N
    num : N → Value N
    text : Text → Value N
    func : Text → Value N
    arr : ℕ → Items N → Value N
    obj : ℕ → Fields N → Value N

  pub data Items (N : Type 0) : Type 0 where
    nil : Items N
    cons : Value N → Items N → Items N

  pub data Fields (N : Type 0) : Type 0 where
    end : Fields N
    field : Text → Value N → Fields N → Fields N

-- What the JavaScript engine gives: its numbers, the coercions to a number, the inherited members of
-- objects and arrays, and JSON. Nothing is assumed of it here.
pub record Host : Type 1 where
  pub Num : Type 0
  pub num_eq : Num → Num → Bool
  pub num_lt : Num → Num → Bool
  pub num_le : Num → Num → Bool
  pub is_nan : Num → Bool
  pub of_nat : ℕ → Num
  pub nan : Num
  pub num_of_text : Text → Num
  pub num_of_object : Value Num → Result Num
  pub object_member : Text → Value Num
  pub array_member : Text → Value Num
  pub stringify : Value Num → Option Text
  pub parse_json : Text → Option (Value Num)

module _ (H : Host) where
  open H use {
    Num, num_eq, is_nan, of_nat, nan, num_of_text, num_of_object, object_member, array_member,
  }

  -- `Boolean(v)`.
  unfoldable pub truthy : Value Num → Bool
  truthy undefined = false
  truthy null = false
  truthy (bool b) = b
  truthy (num n) = not (is_nan n || num_eq n (of_nat 0))
  truthy (text []) = false
  truthy (text (c ∷ s)) = true
  truthy (func f) = true
  truthy (arr r xs) = true
  truthy (obj r fs) = true

  -- `a === b`.
  unfoldable pub strict_eq : Value Num → Value Num → Bool
  strict_eq undefined undefined = true
  strict_eq null null = true
  strict_eq (bool true) (bool b) = b
  strict_eq (bool false) (bool b) = not b
  strict_eq (num a) (num b) = num_eq a b
  strict_eq (text s) (text t) = same s t
  strict_eq (func f) (func g) = same f g
  strict_eq (arr r xs) (arr q ys) = r == q
  strict_eq (obj r fs) (obj q gs) = r == q
  strict_eq _ _ = false

  -- The comparison of `Array.prototype.includes`, which differs from `===` at NaN only.
  unfoldable pub same_value_zero : Value Num → Value Num → Bool
  unfolding strict_eq
  same_value_zero (num a) (num b) = num_eq a b || (is_nan a && is_nan b)
  same_value_zero a b = strict_eq a b

  unfoldable pub includes : Items Num → Value Num → Bool
  unfolding same_value_zero
  includes nil v = false
  includes (cons x xs) v = same_value_zero x v || includes xs v

  -- `Number(v)`. On objects, arrays and functions it calls their methods, and may throw.
  unfoldable pub number_of : Value Num → Result Num
  number_of undefined = ok nan
  number_of null = ok (of_nat 0)
  number_of (bool true) = ok (of_nat 1)
  number_of (bool false) = ok (of_nat 0)
  number_of (num n) = ok n
  number_of (text s) = ok (num_of_text s)
  number_of v = num_of_object v

  unfoldable pub items_length : Items Num → ℕ
  items_length nil = 0
  items_length (cons x xs) = suc (items_length xs)

  -- The element whose index is written `key`.
  unfoldable pub item_at : Text → ℕ → Items Num → Option (Value Num)
  item_at key i nil = none
  item_at key i (cons x xs) = if same key (decimal i) then some x else item_at key (i + 1) xs

  unfoldable pub field_of : Text → Fields Num → Option (Value Num)
  field_of key end = none
  field_of key (field k v fs) = if same k key then some v else field_of key fs

  -- `cur[key]` of an array and of an object: its own members first.
  unfoldable pub array_get : Text → Items Num → Value Num
  unfolding items_length item_at
  array_get key xs =
      if same key (codes "length")
      then num (of_nat (items_length xs))
      else or_default (item_at key 0 xs) (array_member key)

  unfoldable pub object_get : Text → Fields Num → Value Num
  unfolding field_of
  object_get key fs = or_default (field_of key fs) (object_member key)

  -- The loop of `resolveJsonPath`: `typeof null` is excluded, a function is no object.
  unfoldable pub walk_path : List Text → Value Num → Value Num
  unfolding array_get object_get
  walk_path [] cur = cur
  walk_path (p ∷ ps) (arr r xs) = walk_path ps (array_get p xs)
  walk_path (p ∷ ps) (obj r fs) = walk_path ps (object_get p fs)
  walk_path (p ∷ ps) cur = undefined

unfoldable pub resolve_json_path : (H : Host) → Text → Value H.Num → Value H.Num
unfolding split walk_path same
resolve_json_path H (d ∷ []) state = if d == b'$' then state else undefined
resolve_json_path H (d ∷ e ∷ path) state =
    if (d == b'$') && (e == b'.') then walk_path H (split b'.' path) state else undefined
resolve_json_path H [] state = undefined
