-- ===== src/Catalog/Colors.antt =====
-- What the colors of the search of packages/harness-core/src/catalog.ts say of the graph.
use mathlib.Core.Bool.{false≢true}
use agentx_platform.Prelude.{
  if◌then◌else◌, Bool-cases, All, Text, same, same→eq, insert, lookup-insert, has, ◌≡◌, refl, sym,
  ap, subst, ◌∙◌, inl, inr, Bool, true, false, ◌||◌, Option, none, some, List, [], ◌∷◌,
}
use agentx_platform.Catalog.{Color, white, gray, black, Adjacency, Colors, nexts, color_of}

abbrev pub as_gray : Color → Bool
as_gray white = false
as_gray gray = true
as_gray black = false

abbrev pub as_black : Color → Bool
as_black white = false
as_black gray = false
as_black black = true

abbrev pub is_gray : Text → Colors → Bool
is_gray x c = as_gray (color_of x c)

abbrev pub is_black : Text → Colors → Bool
is_black x c = as_black (color_of x c)

pub color_of-insert :
    (k j : Text) (v : Color) (c : Colors)
    → color_of j (insert k v c) ≡ (if same k j then v else color_of j c)
color_of-insert k j v c =
    rw (lookup-insert k j v c)
      (elim (Bool-cases (same k j)) [ inl e ↦ rw e refl | inr e ↦ rw e refl ])

pub as-insert :
    (as_color : Color → Bool) (k j : Text) (v : Color) (c : Colors)
    → as_color (color_of j (insert k v c))
      ≡ (if same k j then as_color v else as_color (color_of j c))
as-insert as_color k j v c = ap as_color (color_of-insert k j v c) ∙ pass (same k j)
  where
    pass :
        (b : Bool)
        → as_color (if b then v else color_of j c)
          ≡ (if b then as_color v else as_color (color_of j c))
    pass true = refl
    pass false = refl

pub insert-here :
    (as_color : Color → Bool) (k j : Text) (v : Color) (c : Colors)
    → same k j ≡ true
    → as_color (color_of j (insert k v c)) ≡ as_color v
insert-here as_color k j v c h = rw h at (as-insert as_color k j v c)

pub insert-elsewhere :
    (as_color : Color → Bool) (k j : Text) (v : Color) (c : Colors)
    → same k j ≡ false
    → as_color (color_of j (insert k v c)) ≡ as_color (color_of j c)
insert-elsewhere as_color k j v c h = rw h at (as-insert as_color k j v c)

module _ (adj : Adjacency) where
  -- A way along one edge or more.
  pub data Chain : Text → Text → Type 0 where
    edge : {x y : Text} → has y (nexts adj x) ≡ true → Chain x y
    chain : {x y z : Text} → Chain x y → has z (nexts adj y) ≡ true → Chain x z

  -- The finished nodes, the last one first: each edge leads to a node that was finished before.
  abbrev pub Finished : List Text → Type 0
  Finished [] = Unit {0}
  Finished (x ∷ xs) = (has x xs ≡ false) × All (λ y. has y xs ≡ true) (nexts adj x) × Finished xs

  pub All-has : (P : Text → Type 0) (y : Text) (xs : List Text) → All P xs → has y xs ≡ true → P y
  unfolding has
  All-has P y [] h e = absurd (false≢true e)
  All-has P y (x ∷ xs) h e = elim (Bool-cases (same x y)) [
    | inl t ↦ subst P (same→eq x y t) h.0
    | inr t ↦ All-has P y xs h.1 (rw t at e)
  ]

  -- An edge from a finished node leads to one.
  pub Finished-edge :
      (xs : List Text) (x y : Text)
      → Finished xs
      → has x xs ≡ true
      → has y (nexts adj x) ≡ true
      → has y xs ≡ true
  unfolding has
  Finished-edge [] x y f h e = h
  Finished-edge (z ∷ zs) x y f h e = elim (Bool-cases (same z x)) [
    | inl t ↦
        rw
          (All-has (λ y. has y zs ≡ true) y (nexts adj x)
            (subst (λ k. All (λ y. has y zs ≡ true) (nexts adj k)) (same→eq z x t) f.1) e)
          (or_true (same z y))
    | inr t ↦ rw (Finished-edge zs x y f.2 (rw t at h) e) (or_true (same z y))
  ]
    where
      or_true : (b : Bool) → (b || true) ≡ true
      or_true true = refl
      or_true false = refl

  pub Finished-Chain :
      {x y : Text} (xs : List Text)
      → Finished xs
      → All (λ z. has z xs ≡ true) (nexts adj x)
      → Chain x y
      → has y xs ≡ true
  Finished-Chain {x} {y} xs f h (edge e) = All-has (λ z. has z xs ≡ true) y (nexts adj x) h e
  Finished-Chain xs f h (chain {y = m} {z = z} c e) =
      Finished-edge xs m z f (Finished-Chain xs f h c) e

  -- No finished node lies on a cycle.
  pub Finished-acyclic : (x : Text) (xs : List Text) → Finished xs → has x xs ≡ true → Chain x x → ⊥
  unfolding has
  Finished-acyclic x [] f h c = false≢true h
  Finished-acyclic x (z ∷ zs) f h c = elim (Bool-cases (same z x)) [
    | inl t ↦
        let e = same→eq z x t in
        false≢true (
          sym (subst (λ k. has k zs ≡ false) e f.0)
          ∙ Finished-Chain zs f.2 (subst (λ k. All (λ y. has y zs ≡ true) (nexts adj k)) e f.1) c)
    | inr t ↦ Finished-acyclic x zs f.2 (rw t at h) c
  ]

  -- The black nodes are those that are finished.
  abbrev pub State : Colors → Type 0
  State c = (order : List Text) × Finished order × ((k : Text) → is_black k c ≡ has k order)

  -- What a search that finds nothing leaves as it was.
  abbrev pub Kept : Colors → Colors → Type 0
  Kept c d =
      ((k : Text) → is_gray k d ≡ is_gray k c)
      × ((k : Text) → is_black k c ≡ true → is_black k d ≡ true)

  abbrev pub Cycle : Type 0
  Cycle = (x : Text) × Chain x x

  -- The result of visiting nodes: a cycle, or all of them are black.
  abbrev pub Visited : List Text → Colors → Option (Bool × Colors) → Type 0
  Visited xs c none = Unit {0}
  Visited xs c (some (true, d)) = Cycle
  Visited xs c (some (false, d)) = Kept c d × All (λ y. is_black y d ≡ true) xs × State d
