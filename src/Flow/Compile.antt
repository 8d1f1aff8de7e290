-- ===== src/Flow/Compile.antt =====
-- `compileFlow` and `linearFlowFromAgents` of packages/harness-core/src/flow-graph.ts: the graph that
-- is built from a flow. The graph engine that runs it is not part of the source.
pub mod Groups
pub mod Linear
use agentx_platform.Prelude.{
  or_default, keep, find, Text, codes, same, lookup, insert, has, Result, ok, throws, Bool, true,
  false, not, ◌||◌, Option, none, some, List, [], ◌∷◌, ◌++◌, map,
}
use agentx_platform.Flow.Expressions.{Expression}
use agentx_platform.Flow.Edges.{
  sequence, Edge, ApprovalTag, SuspendTag, LoopTag, StepKind, agent, trigger, transform, gate,
  approval_node, suspend_node, TaskStep, FlowDef,
}
use agentx_platform.Flow.Rewrite.{rewrite_flow, wrap_with_tags}

-- How the executors of the kinds of nodes are made, and how a loop is put around one.
pub record Makers (N : Type 0) (Executor : Type 0) : Type 0 where
  pub make_approval : Text → ApprovalTag N → Executor
  pub make_suspend : Text → SuspendTag N → Executor
  pub make_gate : Text → List (Text × Expression N) → Executor
  pub make_transform : Text → Expression N → Executor
  pub make_default : Text → Executor
  pub make_loop : Text → LoopTag N → Executor → Executor

-- A node of the graph: its executor, and the edges that its router reads.
pub record GraphNode (N : Type 0) (Executor : Type 0) : Type 0 where
  pub node_id : Text
  pub run : Executor
  pub out : List (Edge N)

pub record Graph (N : Type 0) (Executor : Type 0) : Type 0 where
  pub entry : Text
  pub graph_nodes : List (GraphNode N Executor)

module _ {N : Type 0} where
  -- `groupEdgesBySource`.
  unfoldable pub group_edges :
      List (Text × List (Edge N)) → List (Edge N) → List (Text × List (Edge N))
  unfolding lookup insert
  group_edges m [] = m
  group_edges m (e ∷ es) =
      group_edges (insert e.source (or_default (lookup e.source m) [] ++ (e ∷ [])) m) es

  unfoldable pub is_trigger : TaskStep N → Bool
  is_trigger n = elim n.step_kind [ trigger ↦ true | _ ↦ false ]

module _ {N Executor : Type 0} (makers : Makers N Executor) where
  unfoldable pub builtin_executor : TaskStep N → Option Executor
  builtin_executor n = elim n.step_kind [
    | gate assertions ↦ some (makers.make_gate n.id assertions)
    | transform e ↦ some (makers.make_transform n.id e)
    | _ ↦ none
  ]

  unfoldable pub base_executor : (Text → Option Executor) → TaskStep N → Executor
  unfolding builtin_executor
  base_executor executors n = elim n.synthetic [
    | some (approval_node tag) ↦ makers.make_approval n.id tag
    | some (suspend_node tag) ↦ makers.make_suspend n.id tag
    | none ↦
        or_default (executors n.id) (or_default (builtin_executor n) (makers.make_default n.id))
  ]

  unfoldable pub graph_node :
      (Text → Option Executor) → List (Text × List (Edge N)) → TaskStep N → GraphNode N Executor
  unfolding base_executor wrap_with_tags lookup
  graph_node executors groups n = record {
    node_id = n.id;
    run = wrap_with_tags makers.make_loop n (base_executor executors n);
    out = or_default (lookup n.id groups) [];
  }

  unfoldable pub compile_flow : (Text → Option Executor) → FlowDef N → Result (Graph N Executor)
  unfolding rewrite_flow is_trigger group_edges graph_node
  compile_flow executors f =
      let g = rewrite_flow f in
      elim (find is_trigger g.nodes) [
        | none ↦ throws (codes "flow \"" ++ (g.flow_id ++ codes "\" has no trigger node"))
        | some t ↦ ok (record {
          entry = t.id;
          graph_nodes = map (graph_node executors (group_edges [] g.edges)) g.nodes;
        })
      ]

abbrev pub trigger_id : Text
trigger_id = codes "__trigger"

unfoldable pub is_coordinator : Text → Bool
unfolding same
is_coordinator id = same id (codes "coordinator") || same id (codes "checkout-coordinator")

module _ {N : Type 0} where
  unfoldable pub step_of : Text → StepKind N → TaskStep N
  step_of id kind = record { id = id; step_kind = kind; tags = none; synthetic = none }

  -- The loop that chains the agents.
  unfoldable pub chain_edges : Text → List Text → List (Edge N)
  chain_edges prev [] = []
  chain_edges prev (a ∷ as') =
      record { source = prev; target = a; kind = sequence } ∷ chain_edges a as'

  unfoldable pub linear_flow_from_agents : Text → List Text → FlowDef N
  unfolding is_coordinator step_of chain_edges
  linear_flow_from_agents id agents =
      let real = keep (λ a. not (is_coordinator a)) agents in
      record {
        flow_id = id;
        nodes = step_of trigger_id trigger ∷ map (λ a. step_of a agent) real;
        edges = chain_edges trigger_id real;
      }
