-- ===== src/Catalog/Tests.antt =====
-- The check for cycles of packages/harness-core/src/catalog.ts on small flows.
use Prim.Native.String.{String}
use agentx_platform.Prelude.{
  codes, same, lookup, insert, ℕ, ◌≡◌, refl, true, false, none, some, List, [], ◌∷◌, ◌++◌,
}
use agentx_platform.Flow.Edges.{EdgeKind, sequence, on_reject, Edge}
use agentx_platform.Catalog.{visit_nexts, dfs_cycle, visit_roots, has_cycle, dag_adjacency}
use agentx_platform.Catalog.Edges.{Settles, has_cycle-Settles}

abbrev step : String → String → Edge ℕ
step from to = record { source = codes from; target = codes to; kind = sequence }

-- Two ways lead to d.
abbrev diamond : List (Edge ℕ)
diamond = step "a" "b" ∷ step "a" "c" ∷ step "b" "d" ∷ step "c" "d" ∷ []

abbrev back : EdgeKind ℕ → Edge ℕ
back k = record { source = codes "d"; target = codes "b"; kind = k }

diamond_test : has_cycle (dag_adjacency diamond []) ≡ some false
unfolding has_cycle visit_roots dfs_cycle visit_nexts dag_adjacency lookup insert same
diamond_test = refl

retry_test : has_cycle (dag_adjacency (diamond ++ back (on_reject none none) ∷ []) []) ≡ some false
unfolding has_cycle visit_roots dfs_cycle visit_nexts dag_adjacency lookup insert same
retry_test = refl

back_test : has_cycle (dag_adjacency (diamond ++ back sequence ∷ []) []) ≡ some true
unfolding has_cycle visit_roots dfs_cycle visit_nexts dag_adjacency lookup insert same
back_test = refl

has_cycle-Settles_example :
    Settles
      (diamond ++ back sequence ∷ [])
      (has_cycle (dag_adjacency (diamond ++ back sequence ∷ []) []))
has_cycle-Settles_example = has_cycle-Settles (diamond ++ back sequence ∷ [])
