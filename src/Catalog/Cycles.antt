-- ===== src/Catalog/Cycles.antt =====
-- The check of packages/harness-core/src/catalog.ts finds a cycle if and only if there is one.
use mathlib.Core.Bool.{false≢true}
use agentx_platform.Prelude.{
  Bool-cases, length, All, length-keep-le, length-map, Text, same, lookup, insert, has, keys, ℕ,
  suc, ◌<◌, ◌≡◌, refl, sym, ap, ◌∙◌, inl, inr, Bool, true, false, Option, none, some, List, [], ◌∷◌,
  arith,
}
use agentx_platform.Catalog.{
  Color, white, gray, black, Adjacency, Colors, color_of, dfs_cycle, visit_roots, all_white,
  has_cycle,
}
use agentx_platform.Catalog.Colors.{
  as_gray, as_black, is_gray, is_black, color_of-insert, Chain, edge, chain, All-has,
  Finished-acyclic, State, Cycle, Visited,
}
use agentx_platform.Catalog.Search.{dfs_cycle-Visited}
use agentx_platform.Catalog.Fuel.{as_white, white_among, nexts-absent, Ran, dfs_cycle-Ran}

module _ (adj : Adjacency) where
  -- What the search from several nodes, when none is gray, says.
  abbrev Rooted : List Text → Colors → Option Bool → Type 0
  Rooted xs c none = ⊥
  Rooted xs c (some true) = Cycle adj
  Rooted xs c (some false) =
      (d : Colors) × ((k : Text) → is_black k c ≡ true → is_black k d ≡ true)
      × All (λ y. is_black y d ≡ true) xs
      × State adj d

  Rooted-cons :
      (x : Text) (xs : List Text) (c d : Colors) (r : Option Bool)
      → ((k : Text) → is_black k c ≡ true → is_black k d ≡ true)
      → is_black x d ≡ true
      → Rooted xs d r
      → Rooted (x ∷ xs) c r
  Rooted-cons x xs c d none m b h = h
  Rooted-cons x xs c d (some true) m b h = h
  Rooted-cons x xs c d (some false) m b (e, n, bs, s) = (e, (λ k p. n k (m k p)), (n x b, bs), s)

  abbrev NoGray : Colors → Type 0
  NoGray c = (k : Text) → is_gray k c ≡ false

  visit_roots-Rooted :
      (fuel : ℕ) (xs : List Text) (c : Colors)
      → white_among (keys adj) c < fuel
      → State adj c
      → NoGray c
      → Rooted xs c (visit_roots fuel adj xs c)
  unfolding visit_roots
  visit_roots-Rooted fuel [] c l s g = (c, (λ k h. h), tt, s)
  visit_roots-Rooted fuel (x ∷ xs) c l s g =
      pass c l s g (color_of x c) refl (λ d m t h. visit_roots-Rooted fuel xs d m t h)
    where
      Rest : Type 0
      Rest =
          (d : Colors)
          → white_among (keys adj) d < fuel
          → State adj d
          → NoGray d
          → Rooted xs d (visit_roots fuel adj xs d)

      found :
          (c : Colors)
          → white_among (keys adj) c < fuel
          → NoGray c
          → (r : Option (Bool × Colors)) → Ran (keys adj) (white_among (keys adj) c) r
          → Visited adj (x ∷ []) c r
          → Rest
          → Rooted (x ∷ xs) c (elim r [
            | none ↦ none
            | some (true, _) ↦ some true
            | some (false, c') ↦ visit_roots fuel adj xs c'
          ])
      found c l g none q v rec = q
      found c l g (some (true, d)) q v rec = v
      found c l g (some (false, d)) q (k, b, s) rec =
          Rooted-cons x xs c d (visit_roots fuel adj xs d) k.1 b.0
            (rec d (omega arith) s (λ j. k.0 j ∙ g j))

      pass :
          (c : Colors)
          → white_among (keys adj) c < fuel
          → State adj c
          → NoGray c
          → (v : Color) → color_of x c ≡ v
          → Rest
          → Rooted (x ∷ xs) c (elim v [
            | gray ↦ visit_roots fuel adj xs c
            | black ↦ visit_roots fuel adj xs c
            | white ↦ elim (dfs_cycle fuel adj x c) [
              | none ↦ none
              | some (true, _) ↦ some true
              | some (false, c') ↦ visit_roots fuel adj xs c'
            ]
          ])
      pass c l s g gray q rec = absurd (false≢true (sym (g x) ∙ ap as_gray q))
      pass c l s g black q rec =
          Rooted-cons x xs c c (visit_roots fuel adj xs c) (λ k h. h) (ap as_black q) (rec c l s g)
      pass c l s g white q rec =
          found c l g (dfs_cycle fuel adj x c) (dfs_cycle-Ran adj fuel x c q l)
            (dfs_cycle-Visited adj fuel x c q s (λ k h. absurd (false≢true (sym (g k) ∙ h)))) rec

  -- A node with an edge is a key.
  Chain-key : {x y : Text} → Chain adj x y → has x (keys adj) ≡ true
  unfolding has
  Chain-key {x} {y} (edge e) = elim (Bool-cases (has x (keys adj))) [
    | inl k ↦ k
    | inr k ↦ absurd (false≢true (ap (has y) (sym (nexts-absent adj x k)) ∙ e))
  ]
  Chain-key (chain c e) = Chain-key c

  -- The search decides: that there is a node on a cycle, or that no node is on one.
  abbrev pub Decides : Option Bool → Type 0
  Decides none = ⊥
  Decides (some true) = Cycle adj
  Decides (some false) = (x : Text) → ¬ Chain adj x x

all_white-white :
    (xs : List Text) (c : Colors)
    → ((k : Text) → color_of k c ≡ white)
    → (k : Text) → color_of k (all_white xs c) ≡ white
all_white-white [] c h k = h k
all_white-white (x ∷ xs) c h k = all_white-white xs (insert x white c) turned k
  where
    turned : (j : Text) → color_of j (insert x white c) ≡ white
    turned j =
        color_of-insert x j white c
        ∙ (elim (Bool-cases (same x j)) [ inl t ↦ rw t refl | inr t ↦ rw t (h j) ])

-- The check of the edges for cycles always answers, and the answer is right: when it is yes, some
-- node is reached from itself along one edge or more; when it is no, none is.
pub has_cycle-Decides : (adj : Adjacency) → Decides adj (has_cycle adj)
unfolding has_cycle
has_cycle-Decides adj = decide (visit_roots (suc (length adj)) adj (keys adj) start) (
    visit_roots-Rooted adj (suc (length adj)) (keys adj) start enough started
      (λ k. ap as_gray (fresh k)))
  where
    start : Colors
    start = all_white (keys adj) []

    fresh : (k : Text) → color_of k start ≡ white
    fresh = all_white-white (keys adj) [] (λ k. unfold lookup in refl)

    started : State adj start
    started = ([], tt, λ k. ap as_black (fresh k) ∙ (unfold has in refl))

    enough : white_among (keys adj) start < suc (length adj)
    enough = omega (
      arith,
      length-keep-le (λ k. as_white (color_of k start)) (keys adj),
      length-map (λ e. e.0) adj,
    )

    decide : (r : Option Bool) → Rooted adj (keys adj) start r → Decides adj r
    decide none h = h
    decide (some true) h = h
    decide (some false) (d, m, bs, (order, f, b)) = λ x c.
        Finished-acyclic adj x order f
          (sym (b x) ∙ All-has adj (λ y. is_black y d ≡ true) x (keys adj) bs (Chain-key adj c)) c
