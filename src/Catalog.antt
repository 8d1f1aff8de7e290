-- ===== src/Catalog.antt =====
-- The check of packages/harness-core/src/catalog.ts that the edges of a flow, but for those of
-- rejections, form no cycle: a depth-first search that colors the nodes.
pub mod Shapes
pub mod Expressions
pub mod Flows
pub mod Products
pub mod Agents
pub mod Steps
pub mod Colors
pub mod Cycles
pub mod Edges
pub mod Fuel
pub mod Search
mod Tests
mod FlowTests
use agentx_platform.Prelude.{
  if◌then◌else◌, or_default, length, Text, lookup, insert, keys, ℕ, zero, suc, Bool, true, false,
  Option, none, some, List, [], ◌∷◌, ◌++◌,
}
use agentx_platform.Flow.Edges.{EdgeKind, on_reject, Edge}

pub data Color : Type 0 where
  white gray black : Color

abbrev pub Adjacency : Type 0
Adjacency = List (Text × List Text)

abbrev pub Colors : Type 0
Colors = List (Text × Color)

abbrev pub nexts : Adjacency → Text → List Text
nexts adj x = or_default (lookup x adj) []

abbrev pub color_of : Text → Colors → Color
color_of x c = or_default (lookup x c) white

-- The loop over the neighbours of a node; `dfs` searches from a white one. `none` when it ran out
-- of fuel.
unfoldable pub visit_nexts :
    (Text → Colors → Option (Bool × Colors)) → List Text → Colors → Option (Bool × Colors)
visit_nexts dfs [] c = some (false, c)
visit_nexts dfs (x ∷ xs) c = elim (color_of x c) [
  | gray ↦ some (true, c)
  | black ↦ visit_nexts dfs xs c
  | white ↦ elim (dfs x c) [
    | none ↦ none
    | some (true, c') ↦ some (true, c')
    | some (false, c') ↦ visit_nexts dfs xs c'
  ]
]

-- On fuel, for the depth of the search.
unfoldable pub dfs_cycle : ℕ → Adjacency → Text → Colors → Option (Bool × Colors)
dfs_cycle zero adj node c = none
dfs_cycle (suc n) adj node c =
    elim (visit_nexts (dfs_cycle n adj) (nexts adj node) (insert node gray c)) [
      | none ↦ none
      | some (true, c') ↦ some (true, c')
      | some (false, c') ↦ some (false, insert node black c')
    ]

unfoldable pub visit_roots : ℕ → Adjacency → List Text → Colors → Option Bool
visit_roots fuel adj [] c = some false
visit_roots fuel adj (x ∷ xs) c = elim (color_of x c) [
  | gray ↦ visit_roots fuel adj xs c
  | black ↦ visit_roots fuel adj xs c
  | white ↦ elim (dfs_cycle fuel adj x c) [
    | none ↦ none
    | some (true, _) ↦ some true
    | some (false, c') ↦ visit_roots fuel adj xs c'
  ]
]

abbrev pub all_white : List Text → Colors → Colors
all_white [] c = c
all_white (x ∷ xs) c = all_white xs (insert x white c)

unfoldable pub has_cycle : Adjacency → Option Bool
has_cycle adj = visit_roots (suc (length adj)) adj (keys adj) (all_white (keys adj) [])

abbrev pub is_reject : {N : Type 0} → EdgeKind N → Bool
is_reject (on_reject _ _) = true
is_reject _ = false

unfoldable pub dag_adjacency : {N : Type 0} → List (Edge N) → Adjacency → Adjacency
dag_adjacency [] adj = adj
dag_adjacency (e ∷ es) adj =
    dag_adjacency es
      (if is_reject e.kind then adj else insert e.source (nexts adj e.source ++ e.target ∷ []) adj)
