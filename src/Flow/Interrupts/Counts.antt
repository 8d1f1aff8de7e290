-- ===== src/Flow/Interrupts/Counts.antt =====
-- The summary of changes that a reviewer sees (packages/harness-core/src/flow-graph.ts).
use agentx_platform.Prelude.{
  if◌then◌else◌, or_default, length, Text, same, same_iff, lookup, insert, lookup-insert, ℕ, suc,
  ◌+◌, ◌≡◌, refl, List, [], ◌∷◌, arith,
}
use agentx_platform.Changes.{ChangedFile}
use agentx_platform.Flow.Interrupts.{kind_name, count_kinds}

unfoldable pub total : List (Text × ℕ) → ℕ
total [] = 0
total ((k, n) ∷ m) = n + total m

-- How many changes are of the kind with the given name.
unfoldable pub of_kind : Text → List ChangedFile → ℕ
of_kind k [] = 0
of_kind k (c ∷ cs) = if same (kind_name c.change_kind) k then suc (of_kind k cs) else of_kind k cs

total-insert :
    (k : Text) (m : List (Text × ℕ))
    → total (insert k (or_default (lookup k m) 0 + 1) m) ≡ suc (total m)
unfolding total insert lookup
total-insert k [] = refl
total-insert k ((j, n) ∷ m) = ground (arith, total-insert k m)

total-count_kinds :
    (m : List (Text × ℕ)) (cs : List ChangedFile) → total (count_kinds m cs) ≡ total m + length cs
unfolding count_kinds
total-count_kinds m [] = omega arith
total-count_kinds m (c ∷ cs) =
    let k = kind_name c.change_kind in
    omega
      (arith, total-count_kinds (insert k (or_default (lookup k m) 0 + 1) m) cs, total-insert k m)

lookup-count_kinds :
    (k : Text) (m : List (Text × ℕ)) (cs : List ChangedFile)
    → or_default (lookup k (count_kinds m cs)) 0 ≡ or_default (lookup k m) 0 + of_kind k cs
unfolding count_kinds of_kind
lookup-count_kinds k m [] = omega arith
lookup-count_kinds k m (c ∷ cs) =
    let j = kind_name c.change_kind in
    let n = or_default (lookup j m) 0 + 1 in
    ground (arith, lookup-count_kinds k (insert j n m) cs, lookup-insert j k n m, same_iff j k)

-- The counts of the summary are exact: under the name of each kind stands the number of the changes
-- of that kind, and all counts together make the number of changes.
pub count_kinds-exact :
    (cs : List ChangedFile)
    → ((k : Text) → or_default (lookup k (count_kinds [] cs)) 0 ≡ of_kind k cs)
      × (total (count_kinds [] cs) ≡ length cs)
unfolding lookup total
count_kinds-exact cs =
    (λ k. omega (arith, lookup-count_kinds k [] cs), omega (arith, total-count_kinds [] cs))
