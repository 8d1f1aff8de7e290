-- ===== src/Flow/Rewrite.antt =====
-- `rewriteFlowForInterruptTags` of packages/harness-core/src/flow-graph.ts: every node with an
-- approval or suspend tag gets a node of its own for the interrupt.
pub mod Isolation
pub mod Edges
use agentx_platform.Prelude.{
  if◌then◌else◌, or_default, is_some, any, Text, codes, lookup, insert, Option, none, some, List,
  [], ◌∷◌, ◌++◌, map,
}
use agentx_platform.Flow.Edges.{
  sequence, Edge, ApprovalTag, SuspendTag, LoopTag, agent, Synthetic, approval_node, suspend_node,
  TaskStep, FlowDef,
}

abbrev pub approval_suffix : Text
approval_suffix = codes "__approval"

abbrev pub suspend_suffix : Text
suspend_suffix = codes "__suspend"

module _ {N : Type 0} where
  abbrev pub approval_of : TaskStep N → Option (ApprovalTag N)
  approval_of n = elim n.tags [ none ↦ none | some t ↦ t.approval ]

  abbrev pub suspend_of : TaskStep N → Option (SuspendTag N)
  suspend_of n = elim n.tags [ none ↦ none | some t ↦ t.suspend ]

  abbrev pub loop_of : TaskStep N → Option (LoopTag N)
  loop_of n = elim n.tags [ none ↦ none | some t ↦ t.loop ]

  interrupt_node : Text → Synthetic N → TaskStep N
  interrupt_node id tag = record { id = id; step_kind = agent; tags = none; synthetic = some tag }

  -- The node that is put behind a tagged node.
  unfoldable pub synthetic_of : TaskStep N → Option (TaskStep N)
  unfolding interrupt_node
  synthetic_of n = elim (approval_of n) [
    | some tag ↦ some (interrupt_node (n.id ++ approval_suffix) (approval_node tag))
    | none ↦ elim (suspend_of n) [
      | some tag ↦ some (interrupt_node (n.id ++ suspend_suffix) (suspend_node tag))
      | none ↦ none
    ]
  ]

  unfoldable pub new_nodes : List (TaskStep N) → List (TaskStep N)
  new_nodes [] = []
  new_nodes (n ∷ ns) = elim (synthetic_of n) [
    | some i ↦ record n { tags = none } ∷ i ∷ new_nodes ns
    | none ↦ n ∷ new_nodes ns
  ]

  -- The map `renames`, filled in the order of the nodes.
  unfoldable pub renames : List (Text × Text) → List (TaskStep N) → List (Text × Text)
  unfolding insert
  renames m [] = m
  renames m (n ∷ ns) = elim (synthetic_of n) [
    | some i ↦ renames (insert n.id i.id m) ns
    | none ↦ renames m ns
  ]

  -- The edges from each tagged node to the node behind it.
  unfoldable pub interrupt_edges : List (Text × Text) → List (TaskStep N) → List (Edge N)
  unfolding lookup
  interrupt_edges m [] = []
  interrupt_edges m (n ∷ ns) = elim (synthetic_of n) [
    | none ↦ interrupt_edges m ns
    | some i ↦ elim (lookup n.id m) [
      | none ↦ interrupt_edges m ns
      | some to ↦ record { source = n.id; target = to; kind = sequence } ∷ interrupt_edges m ns
    ]
  ]

  unfoldable pub redirect : List (Text × Text) → Edge N → Edge N
  unfolding lookup
  redirect m e = record e { source = or_default (lookup e.source m) e.source }

  unfoldable pub rewrite_flow : FlowDef N → FlowDef N
  unfolding new_nodes renames interrupt_edges redirect
  rewrite_flow f =
      let m = renames [] f.nodes in
      if any (λ n. is_some (synthetic_of n)) f.nodes
      then record f {
        nodes = new_nodes f.nodes;
        edges = interrupt_edges m f.nodes ++ map (redirect m) f.edges;
      }
      else f

  -- `wrapWithTags`: only the loop tag changes how a node runs.
  unfoldable pub wrap_with_tags {ℓ} :
      {Executor : Type ℓ}
      → (Text → LoopTag N → Executor → Executor)
      → TaskStep N
      → Executor
      → Executor
  wrap_with_tags loop_wrapper n exec = elim (loop_of n) [
    | none ↦ exec
    | some tag ↦ loop_wrapper n.id tag exec
  ]
