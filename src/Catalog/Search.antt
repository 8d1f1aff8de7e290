-- ===== src/Catalog/Search.antt =====
-- The depth-first search of packages/harness-core/src/catalog.ts: it finds a cycle or finishes nodes.
use agentx_platform.Prelude.{
  Bool-cases, All, Text, same, same_refl, same→eq, insert, has, ℕ, zero, suc, ◌≡◌, refl, sym, ap,
  subst, ◌∙◌, ◌⊎◌, inl, inr, Bool, true, false, Option, none, some, List, [], ◌∷◌,
}
use agentx_platform.Catalog.{
  Color, white, gray, black, Adjacency, Colors, nexts, color_of, visit_nexts, dfs_cycle,
}
use agentx_platform.Catalog.Colors.{
  as_gray, as_black, is_gray, is_black, color_of-insert, insert-here, insert-elsewhere, Chain, edge,
  chain, State, Kept, Visited,
}

module _ (adj : Adjacency) where
  Kept-trans : (c d e : Colors) → Kept adj c d → Kept adj d e → Kept adj c e
  Kept-trans c d e (g, b) (g', b') = (λ k. g' k ∙ g k, λ k h. b' k (b k h))

  abbrev Finds : (Text → Colors → Option (Bool × Colors)) → Type 0
  Finds dfs =
      (x : Text) (c : Colors)
      → color_of x c ≡ white
      → State adj c
      → ((k : Text) → is_gray k c ≡ true → Chain adj k x)
      → Visited adj (x ∷ []) c (dfs x c)

  -- The gray nodes are the one that is being searched from and those on the way to it.
  abbrev PathTo : Text → Colors → Type 0
  PathTo node c = (k : Text) → is_gray k c ≡ true → (k ≡ node) ⊎ Chain adj k node

  extend :
      (node x k : Text)
      → has x (nexts adj node) ≡ true
      → (k ≡ node) ⊎ Chain adj k node
      → Chain adj k x
  extend node x k e (inl p) = subst (λ j. Chain adj j x) (sym p) (edge e)
  extend node x k e (inr p) = chain p e

  visit_nexts-Visited :
      (dfs : Text → Colors → Option (Bool × Colors)) (node : Text) (xs : List Text) (c : Colors)
      → Finds dfs
      → All (λ y. has y (nexts adj node) ≡ true) xs
      → State adj c
      → PathTo node c
      → Visited adj xs c (visit_nexts dfs xs c)
  unfolding visit_nexts
  visit_nexts-Visited dfs node [] c finds e st path = ((λ k. refl, λ k h. h), tt, st)
  visit_nexts-Visited dfs node (x ∷ xs) c finds (e, es) st path =
      pass x xs c e st path (color_of x c) refl
        (λ d s p. visit_nexts-Visited dfs node xs d finds es s p)
    where
      add_black :
          (x : Text) (xs : List Text) (c d : Colors) (r : Option (Bool × Colors))
          → Kept adj c d
          → is_black x d ≡ true
          → Visited adj xs d r
          → Visited adj (x ∷ xs) c r
      add_black x xs c d none k b v = tt
      add_black x xs c d (some (true, f)) k b v = v
      add_black x xs c d (some (false, f)) k b (k', bs, s) =
          (Kept-trans c d f k k', (k'.1 x b, bs), s)

      found :
          (x : Text) (xs : List Text) (c : Colors)
          → PathTo node c
          → (r : Option (Bool × Colors))
          → ((d : Colors) → State adj d → PathTo node d → Visited adj xs d (visit_nexts dfs xs d))
          → Visited adj (x ∷ []) c r
          → Visited adj (x ∷ xs) c (elim r [
            | none ↦ none
            | some (true, c') ↦ some (true, c')
            | some (false, c') ↦ visit_nexts dfs xs c'
          ])
      found x xs c path none rec v = tt
      found x xs c path (some (true, d)) rec v = v
      found x xs c path (some (false, d)) rec (k, b, s) =
          add_black x xs c d (visit_nexts dfs xs d) k b.0
            (rec d s (λ j g. path j (sym (k.0 j) ∙ g)))

      pass :
          (x : Text) (xs : List Text) (c : Colors)
          → has x (nexts adj node) ≡ true
          → State adj c
          → PathTo node c
          → (v : Color) → color_of x c ≡ v
          → ((d : Colors) → State adj d → PathTo node d → Visited adj xs d (visit_nexts dfs xs d))
          → Visited adj (x ∷ xs) c (elim v [
            | gray ↦ some (true, c)
            | black ↦ visit_nexts dfs xs c
            | white ↦ elim (dfs x c) [
              | none ↦ none
              | some (true, c') ↦ some (true, c')
              | some (false, c') ↦ visit_nexts dfs xs c'
            ]
          ])
      pass x xs c e st path gray q rec = (x, extend node x x e (path x (ap as_gray q)))
      pass x xs c e st path black q rec =
          add_black x xs c c (visit_nexts dfs xs c) (λ k. refl, λ k h. h) (ap as_black q)
            (rec c st path)
      pass x xs c e st path white q rec =
          found x xs c path (dfs x c) rec (finds x c q st (λ k g. extend node x k e (path k g)))

  -- A node that turns gray was not finished.
  gray-State :
      (node : Text) (c : Colors)
      → color_of node c ≡ white
      → State adj c
      → State adj (insert node gray c)
  gray-State node c w (order, f, b) = (order, f, turned)
    where
      turned : (k : Text) → is_black k (insert node gray c) ≡ has k order
      turned k = elim (Bool-cases (same node k)) [
        | inl t ↦
            insert-here as_black node k gray c t
            ∙ sym (ap as_black w)
            ∙ ap (λ j. is_black j c) (same→eq node k t)
            ∙ b k
        | inr t ↦ insert-elsewhere as_black node k gray c t ∙ b k
      ]

  black-State :
      (node : Text) (c : Colors)
      → is_gray node c ≡ true
      → All (λ y. is_black y c ≡ true) (nexts adj node)
      → State adj c
      → State adj (insert node black c)
  black-State node c g bs (order, f, b) = (
    node ∷ order,
    (sym (b node) ∙ not_both (color_of node c) g, all_has (nexts adj node) bs, f),
    turned,
  )
    where
      not_both : (v : Color) → as_gray v ≡ true → as_black v ≡ false
      not_both white h = refl
      not_both gray h = refl
      not_both black h = sym h

      all_has :
          (xs : List Text) → All (λ y. is_black y c ≡ true) xs → All (λ y. has y order ≡ true) xs
      all_has [] h = tt
      all_has (x ∷ xs) h = (sym (b x) ∙ h.0, all_has xs h.1)

      turned : (k : Text) → is_black k (insert node black c) ≡ has k (node ∷ order)
      turned k =
          unfold has in
          rw (color_of-insert node k black c)
            (elim (Bool-cases (same node k)) [ inl t ↦ rw t refl | inr t ↦ rw t (b k) ])

  -- The node that was searched from is finished, and nothing else has changed.
  closed-Kept :
      (node : Text) (c d : Colors)
      → color_of node c ≡ white
      → Kept adj (insert node gray c) d
      → Kept adj c (insert node black d)
  closed-Kept node c d w (g, b) = (same_gray, same_black)
    where
      same_gray : (k : Text) → is_gray k (insert node black d) ≡ is_gray k c
      same_gray k = elim (Bool-cases (same node k)) [
        | inl t ↦
            insert-here as_gray node k black d t
            ∙ sym (ap as_gray w)
            ∙ ap (λ j. is_gray j c) (same→eq node k t)
        | inr t ↦
            insert-elsewhere as_gray node k black d t
            ∙ g k
            ∙ insert-elsewhere as_gray node k gray c t
      ]

      same_black : (k : Text) → is_black k c ≡ true → is_black k (insert node black d) ≡ true
      same_black k h = elim (Bool-cases (same node k)) [
        | inl t ↦ insert-here as_black node k black d t
        | inr t ↦
            insert-elsewhere as_black node k black d t
            ∙ b k (insert-elsewhere as_black node k gray c t ∙ h)
      ]

  All-self : (xs : List Text) → All (λ y. has y xs ≡ true) xs
  All-self [] = tt
  All-self (x ∷ xs) = (unfold has in rw (same_refl x) refl, widen x xs xs (All-self xs))
    where
      widen :
          (x : Text) (ys xs : List Text)
          → All (λ y. has y ys ≡ true) xs
          → All (λ y. has y (x ∷ ys) ≡ true) xs
      widen x ys [] h = tt
      widen x ys (y ∷ xs) h = (
        unfold has in (elim (Bool-cases (same x y)) [ inl t ↦ rw t refl | inr t ↦ rw t h.0 ]),
        widen x ys xs h.1,
      )

  pub dfs_cycle-Visited :
      (n : ℕ) (x : Text) (c : Colors)
      → color_of x c ≡ white
      → State adj c
      → ((k : Text) → is_gray k c ≡ true → Chain adj k x)
      → Visited adj (x ∷ []) c (dfs_cycle n adj x c)
  unfolding dfs_cycle
  dfs_cycle-Visited zero x c w st path = tt
  dfs_cycle-Visited (suc n) x c w st path =
      close (visit_nexts (dfs_cycle n adj) (nexts adj x) (insert x gray c)) (
        visit_nexts-Visited (dfs_cycle n adj) x (nexts adj x) (insert x gray c)
          (λ y d v s p. dfs_cycle-Visited n y d v s p) (All-self (nexts adj x))
          (gray-State x c w st) here)
    where
      is_gray-here : is_gray x (insert x gray c) ≡ true
      is_gray-here = insert-here as_gray x x gray c (same_refl x)

      here : PathTo x (insert x gray c)
      here k g = elim (Bool-cases (same x k)) [
        | inl t ↦ inl (sym (same→eq x k t))
        | inr t ↦ inr (path k (sym (insert-elsewhere as_gray x k gray c t) ∙ g))
      ]

      close :
          (r : Option (Bool × Colors))
          → Visited adj (nexts adj x) (insert x gray c) r
          → Visited adj (x ∷ []) c (elim r [
            | none ↦ none
            | some (true, c') ↦ some (true, c')
            | some (false, c') ↦ some (false, insert x black c')
          ])
      close none v = tt
      close (some (true, d)) v = v
      close (some (false, d)) (k, bs, s) = (
        closed-Kept x c d w k,
        (insert-here as_black x x black d (same_refl x), tt),
        black-State x d (k.0 x ∙ is_gray-here) bs s,
      )
