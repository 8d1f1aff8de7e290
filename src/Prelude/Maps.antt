-- ===== src/Prelude/Maps.antt =====
-- A JavaScript `Map` keyed by texts, as the list of its entries in insertion order; a `Set` as the
-- list of its elements.
use mathlib.Core.Path.{◌≡◌, refl, sym, subst}
use mathlib.Core.Logic.{inl, inr}
use mathlib.Core.Bool.{Bool, true, false, ◌||◌}
use mathlib.Core.List.{List, [], ◌∷◌, ◌++◌, map}
use mathlib.Core.Option.{Option, none, some}
use native.Mathlib.Omega.{arith}
use Prim.Native.Nat.{◌+◌}
use agentx_platform.Prelude.Lists.{length, All}
use agentx_platform.Prelude.Tests.{if◌then◌else◌, Bool-cases}
use agentx_platform.Prelude.Texts.{Text, same, same_iff, same_refl, same→eq}

module _ {ℓ} {V : Type ℓ} where
  unfoldable pub lookup : Text → List (Text × V) → Option V
  lookup k [] = none
  lookup k ((j, v) ∷ m) = if same j k then some v else lookup k m

  -- `Map.prototype.set`: a present key keeps its place.
  unfoldable pub insert : Text → V → List (Text × V) → List (Text × V)
  insert k v [] = (k, v) ∷ []
  insert k v ((j, w) ∷ m) = if same j k then (j, v) ∷ m else (j, w) ∷ insert k v m

  unfoldable pub remove : Text → List (Text × V) → List (Text × V)
  remove k [] = []
  remove k ((j, w) ∷ m) = if same j k then remove k m else (j, w) ∷ remove k m

  pub lookup-insert :
      (k j : Text) (v : V) (m : List (Text × V))
      → lookup j (insert k v m) ≡ (if same k j then some v else lookup j m)
  unfolding lookup insert
  lookup-insert k j v [] = refl
  lookup-insert k j v ((i, w) ∷ m) =
      ground (arith, same_iff k j, same_iff i k, same_iff i j, lookup-insert k j v m)

  pub lookup-remove :
      (k j : Text) (m : List (Text × V))
      → lookup j (remove k m) ≡ (if same k j then none else lookup j m)
  unfolding lookup remove
  lookup-remove k j [] = ground arith
  lookup-remove k j ((i, w) ∷ m) =
      ground (arith, same_iff k j, same_iff i k, same_iff i j, lookup-remove k j m)

-- `Set.prototype.has`, `add` and `delete` on a set of texts.
unfoldable pub has : Text → List Text → Bool
has k [] = false
has k (j ∷ s) = same j k || has k s

unfoldable pub add : Text → List Text → List Text
unfolding has
add k s = if has k s then s else s ++ k ∷ []

unfoldable pub delete : Text → List Text → List Text
delete k [] = []
delete k (j ∷ s) = if same j k then s else j ∷ delete k s

-- No element twice.
abbrev pub Distinct : List Text → Type 0
Distinct [] = Unit {0}
Distinct (x ∷ xs) = (has x xs ≡ false) × Distinct xs

pub has-append : (k : Text) (s t : List Text) → has k (s ++ t) ≡ has k s || has k t
unfolding has
has-append k [] t = refl
has-append k (j ∷ s) t = ground (arith, has-append k s t)

-- A new element goes to the end.
pub add-fresh : (k : Text) (s : List Text) → has k s ≡ false → add k s ≡ s ++ k ∷ []
unfolding add
add-fresh k s h = rw h

pub has-delete_absent : (k j : Text) (s : List Text) → has k s ≡ false → has k (delete j s) ≡ false
unfolding has delete
has-delete_absent k j [] h = refl
has-delete_absent k j (i ∷ s) h = ground (arith, has-delete_absent k j s)

pub delete-Distinct : (k : Text) (s : List Text) → Distinct s → Distinct (delete k s)
unfolding delete
delete-Distinct k [] d = tt
delete-Distinct k (i ∷ s) d = ground (arith, has-delete_absent i k s, delete-Distinct k s d.1)

-- Of distinct elements none is left over.
pub has-delete_self : (k : Text) (s : List Text) → Distinct s → has k (delete k s) ≡ false
unfolding has delete
has-delete_self k [] d = refl
has-delete_self k (i ∷ s) d = ground (arith, same_iff i k, d.0, has-delete_self k s d.1)

pub length-delete : (k : Text) (s : List Text) → has k s ≡ true → length (delete k s) + 1 ≡ length s
unfolding has delete
length-delete k [] h = cc
length-delete k (i ∷ s) h = ground (arith, length-delete k s)

pub delete-append_left :
    (k : Text) (s t : List Text) → has k s ≡ true → delete k (s ++ t) ≡ delete k s ++ t
unfolding has delete
delete-append_left k [] t h = cc
delete-append_left k (i ∷ s) t h = ground (arith, delete-append_left k s t)

pub Distinct-append_left : (s t : List Text) → Distinct (s ++ t) → Distinct s
Distinct-append_left [] t d = tt
Distinct-append_left (x ∷ s) t d = ground (arith, has-append x s t, Distinct-append_left s t d.1)

pub Distinct-drop_middle :
    (s : List Text) (x : Text) (t : List Text) → Distinct (s ++ x ∷ t) → Distinct (s ++ t)
unfolding has
Distinct-drop_middle [] x t d = d.1
Distinct-drop_middle (y ∷ s) x t d =
    ground (arith, has-append y s (x ∷ t), has-append y s t, Distinct-drop_middle s x t d.1)

-- What stands in the middle is not in the front.
pub has-middle :
    (s : List Text) (x : Text) (t : List Text) → Distinct (s ++ x ∷ t) → has x s ≡ false
unfolding has
has-middle [] x t d = refl
has-middle (y ∷ s) x t d =
    ground (arith, has-append y s (x ∷ t), same_iff y x, same_iff x y, has-middle s x t d.1)

pub has-append_left : (k : Text) (s t : List Text) → has k (s ++ t) ≡ false → has k s ≡ false
has-append_left k s t h = ground (arith, has-append k s t)

pub has-append_intro : (k : Text) (s t : List Text) → has k s ≡ true → has k (s ++ t) ≡ true
has-append_intro k s t h = ground (arith, has-append k s t)

-- The keys of a map, and what its operations do to them.
abbrev pub keys {ℓ} : {V : Type ℓ} → List (Text × V) → List Text
keys = map λ e. e.0

module _ {ℓ} {V : Type ℓ} where
  pub has-keys :
      (k : Text) (m n : List (Text × V))
      → has k (keys (m ++ n)) ≡ (has k (keys m) || has k (keys n))
  unfolding has
  has-keys k [] n = refl
  has-keys k ((i, w) ∷ m) n = ground (arith, has-keys k m n)

  pub has-insert :
      (k j : Text) (v : V) (m : List (Text × V))
      → has j (keys (insert k v m)) ≡ (same k j || has j (keys m))
  unfolding insert has
  has-insert k j v [] = refl
  has-insert k j v ((i, w) ∷ m) =
      ground (arith, has-insert k j v m, same_iff i k, same_iff i j, same_iff k j)

  pub insert-Distinct :
      (k : Text) (v : V) (m : List (Text × V)) → Distinct (keys m) → Distinct (keys (insert k v m))
  unfolding insert has
  insert-Distinct k v [] d = (refl, tt)
  insert-Distinct k v ((i, w) ∷ m) d =
      ground (arith, has-insert k i v m, same_iff i k, same_iff k i, insert-Distinct k v m d.1)

  pub insert-absent :
      (k : Text) (v : V) (m : List (Text × V))
      → has k (keys m) ≡ false
      → insert k v m ≡ m ++ (k, v) ∷ []
  unfolding insert has
  insert-absent k v [] h = refl
  insert-absent k v ((i, w) ∷ m) h = ground (arith, insert-absent k v m)

  -- A key that stands in the middle keeps its place.
  pub insert-middle :
      (k : Text) (v w : V) (m n : List (Text × V))
      → has k (keys m) ≡ false
      → insert k v (m ++ (k, w) ∷ n) ≡ m ++ (k, v) ∷ n
  unfolding insert has
  insert-middle k v w [] n h = rw (same_refl k) refl
  insert-middle k v w ((i, u) ∷ m) n h = ground (arith, insert-middle k v w m n)

  pub has-remove :
      (k j : Text) (m : List (Text × V))
      → has j (keys m) ≡ false
      → has j (keys (remove k m)) ≡ false
  unfolding remove has
  has-remove k j [] h = refl
  has-remove k j ((i, w) ∷ m) h = ground (arith, has-remove k j m)

  pub remove-Distinct :
      (k : Text) (m : List (Text × V)) → Distinct (keys m) → Distinct (keys (remove k m))
  unfolding remove
  remove-Distinct k [] d = tt
  remove-Distinct k ((i, w) ∷ m) d = ground (arith, has-remove k i m d.0, remove-Distinct k m d.1)

  pub remove-absent : (k : Text) (m : List (Text × V)) → has k (keys m) ≡ false → remove k m ≡ m
  unfolding remove has
  remove-absent k [] h = refl
  remove-absent k ((i, w) ∷ m) h = ground (arith, remove-absent k m)

  pub remove-middle :
      (k : Text) (w : V) (m n : List (Text × V))
      → has k (keys m) ≡ false
      → has k (keys n) ≡ false
      → remove k (m ++ (k, w) ∷ n) ≡ m ++ n
  unfolding remove has
  remove-middle k w [] n h g = rw (same_refl k) (remove-absent k n g)
  remove-middle k w ((i, u) ∷ m) n h g = ground (arith, remove-middle k w m n)

  -- What a key that stands in the middle of different keys says of the others.
  pub Distinct-middle :
      (k : Text) (w : V) (m n : List (Text × V))
      → Distinct (keys (m ++ (k, w) ∷ n))
      → (has k (keys m) ≡ false) × (has k (keys n) ≡ false) × Distinct (keys (m ++ n))
  unfolding has
  Distinct-middle k w [] n d = (refl, d.0, d.1)
  Distinct-middle k w ((i, u) ∷ m) n (a, d) =
      let (x, y, z) = Distinct-middle k w m n d in
      (
        ground (arith, x, a, has-keys i m ((k, w) ∷ n), same_iff i k, same_iff k i),
        y,
        (ground (arith, a, has-keys i m ((k, w) ∷ n), has-keys i m n), z),
      )

  pub insert-All {κ} :
      (P : Text × V → Type κ) (k : Text) (v : V) (m : List (Text × V))
      → P (k, v)
      → All P m
      → All P (insert k v m)
  unfolding insert
  insert-All P k v [] p h = (p, tt)
  insert-All P k v ((i, w) ∷ m) p h = elim (Bool-cases (same i k)) [
    | inl e ↦ rw e (subst (λ j. P (j, v)) (sym (same→eq i k e)) p, h.1)
    | inr e ↦ rw e (h.0, insert-All P k v m p h.1)
  ]

  pub remove-All {κ} :
      (P : Text × V → Type κ) (k : Text) (m : List (Text × V)) → All P m → All P (remove k m)
  unfolding remove
  remove-All P k [] h = tt
  remove-All P k ((i, w) ∷ m) h = elim (Bool-cases (same i k)) [
    | inl e ↦ rw e (remove-All P k m h.1)
    | inr e ↦ rw e (h.0, remove-All P k m h.1)
  ]
