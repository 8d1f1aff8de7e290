-- ===== src/Catalog/Fuel.antt =====
-- The depth of the search of packages/harness-core/src/catalog.ts: it never exceeds the number of
-- white nodes that have edges by more than one.
use agentx_platform.Prelude.{
  Bool-cases, length, keep, Text, same_iff, lookup, insert, has, keys, ℕ, zero, suc, ◌≤◌, ◌<◌, ◌≡◌,
  refl, ap, ◌⊎◌, inl, inr, Bool, true, false, Option, none, some, List, [], ◌∷◌, arith,
}
use agentx_platform.Catalog.{
  Color, white, gray, black, Adjacency, Colors, nexts, color_of, visit_nexts, dfs_cycle,
}
use agentx_platform.Catalog.Colors.{as-insert}

abbrev pub as_white : Color → Bool
as_white white = true
as_white gray = false
as_white black = false

abbrev pub white_among : List Text → Colors → ℕ
white_among ks c = length (keep (λ k. as_white (color_of k c)) ks)

white_among-insert :
    (ks : List Text) (k : Text) (v : Color) (c : Colors)
    → as_white v ≡ false
    → white_among ks (insert k v c) ≤ white_among ks c
white_among-insert [] k v c h = omega arith
white_among-insert (j ∷ ks) k v c h =
    ground (arith, as-insert as_white k j v c, white_among-insert ks k v c h)

white_among-taken :
    (ks : List Text) (k : Text) (v : Color) (c : Colors)
    → as_white v ≡ false
    → as_white (color_of k c) ≡ true
    → has k ks ≡ true
    → white_among ks (insert k v c) < white_among ks c
unfolding has
white_among-taken [] k v c h w e = cc
white_among-taken (j ∷ ks) k v c h w e = ground (
  arith,
  as-insert as_white k j v c,
  same_iff j k,
  same_iff k j,
  white_among-insert ks k v c h,
  white_among-taken ks k v c h w,
)

pub nexts-absent : (adj : Adjacency) (x : Text) → has x (keys adj) ≡ false → nexts adj x ≡ []
unfolding has lookup
nexts-absent [] x h = refl
nexts-absent ((i, w) ∷ adj) x h = ground (arith, nexts-absent adj x)

module _ (ks : List Text) where
  -- There was fuel enough, and no node turned white.
  abbrev pub Ran : ℕ → Option (Bool × Colors) → Type 0
  Ran w none = ⊥
  Ran w (some (b, d)) = white_among ks d ≤ w

  Ran-le : (v w : ℕ) (r : Option (Bool × Colors)) → v ≤ w → Ran v r → Ran w r
  Ran-le v w none l h = h
  Ran-le v w (some (b, d)) l h = omega arith

  visit_nexts-Ran :
      (dfs : Text → Colors → Option (Bool × Colors)) (n : ℕ)
      → ((x : Text) (c : Colors)
          → color_of x c ≡ white
          → white_among ks c < n
          → Ran (white_among ks c) (dfs x c))
      → (xs : List Text) (c : Colors) → white_among ks c < n
      → Ran (white_among ks c) (visit_nexts dfs xs c)
  unfolding visit_nexts
  visit_nexts-Ran dfs n h [] c l = omega arith
  visit_nexts-Ran dfs n h (x ∷ xs) c l =
      pass c l (color_of x c) refl (λ d m. visit_nexts-Ran dfs n h xs d m)
    where
      found :
          (c : Colors)
          → white_among ks c < n
          → (r : Option (Bool × Colors)) → Ran (white_among ks c) r
          → ((d : Colors) → white_among ks d < n → Ran (white_among ks d) (visit_nexts dfs xs d))
          → Ran (white_among ks c) (elim r [
            | none ↦ none
            | some (true, c') ↦ some (true, c')
            | some (false, c') ↦ visit_nexts dfs xs c'
          ])
      found c l none q rec = q
      found c l (some (true, d)) q rec = q
      found c l (some (false, d)) q rec =
          Ran-le (white_among ks d) (white_among ks c) (visit_nexts dfs xs d) q
            (rec d (omega arith))

      pass :
          (c : Colors)
          → white_among ks c < n
          → (v : Color) → color_of x c ≡ v
          → ((d : Colors) → white_among ks d < n → Ran (white_among ks d) (visit_nexts dfs xs d))
          → Ran (white_among ks c) (elim v [
            | gray ↦ some (true, c)
            | black ↦ visit_nexts dfs xs c
            | white ↦ elim (dfs x c) [
              | none ↦ none
              | some (true, c') ↦ some (true, c')
              | some (false, c') ↦ visit_nexts dfs xs c'
            ]
          ])
      pass c l gray q rec = omega arith
      pass c l black q rec = rec c l
      pass c l white q rec = found c l (dfs x c) (h x c q l) rec

pub dfs_cycle-Ran :
    (adj : Adjacency) (n : ℕ) (x : Text) (c : Colors)
    → color_of x c ≡ white
    → white_among (keys adj) c < n
    → Ran (keys adj) (white_among (keys adj) c) (dfs_cycle n adj x c)
unfolding dfs_cycle
dfs_cycle-Ran adj zero x c w l = omega arith
dfs_cycle-Ran adj (suc n) x c w l =
    close (visit_nexts (dfs_cycle n adj) (nexts adj x) (insert x gray c))
      (ran (λ y d v m. dfs_cycle-Ran adj n y d v m) (Bool-cases (has x (keys adj))))
  where
    ks : List Text
    ks = keys adj

    ran :
        ((y : Text) (d : Colors)
          → color_of y d ≡ white
          → white_among ks d < n
          → Ran ks (white_among ks d) (dfs_cycle n adj y d))
        → ((has x ks ≡ true) ⊎ (has x ks ≡ false))
        → Ran ks (white_among ks c) (visit_nexts (dfs_cycle n adj) (nexts adj x) (insert x gray c))
    ran rec (inl k) =
        let t = white_among-taken ks x gray c refl (ap as_white w) k in
        Ran-le ks (white_among ks (insert x gray c)) (white_among ks c) _ (omega arith)
          (visit_nexts-Ran ks (dfs_cycle n adj) n rec (nexts adj x) (insert x gray c) (omega arith))
    ran rec (inr k) =
        rw (nexts-absent adj x k) (unfold visit_nexts in white_among-insert ks x gray c refl)

    close :
        (r : Option (Bool × Colors))
        → Ran ks (white_among ks c) r
        → Ran ks (white_among ks c) (elim r [
          | none ↦ none
          | some (true, c') ↦ some (true, c')
          | some (false, c') ↦ some (false, insert x black c')
        ])
    close none h = h
    close (some (true, d)) h = h
    close (some (false, d)) h = let t = white_among-insert ks x black d refl in omega arith
