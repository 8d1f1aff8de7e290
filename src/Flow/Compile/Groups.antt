-- ===== src/Flow/Compile/Groups.antt =====
-- The edges by their source (`groupEdgesBySource` of packages/harness-core/src/flow-graph.ts).
use mathlib.Core.List.{append_assoc, append-nil}
use agentx_platform.Prelude.{
  if◌then◌else◌, Bool-cases, or_default, find, All, Text, codes, same, same→eq, lookup, insert,
  lookup-insert, ok, throws, ◌≡◌, refl, sym, ap, subst, ◌∙◌, inl, inr, Option, none, some, List, [],
  ◌∷◌, ◌++◌, map, arith,
}
use agentx_platform.Flow.Edges.{Edge, TaskStep, FlowDef}
use agentx_platform.Flow.Rewrite.{rewrite_flow}
use agentx_platform.Flow.Rewrite.Isolation.{ids, outgoing}
use agentx_platform.Flow.Compile.{
  Makers, GraphNode, Graph, group_edges, is_trigger, graph_node, compile_flow,
}

module _ {N : Type 0} where
  abbrev out_of : Text → List (Text × List (Edge N)) → List (Edge N)
  out_of k m = or_default (lookup k m) []

  out_of-insert :
      (j k : Text) (v : List (Edge N)) (m : List (Text × List (Edge N)))
      → out_of k (insert j v m) ≡ (if same j k then v else out_of k m)
  out_of-insert j k v m = ap (λ o. or_default o []) (lookup-insert j k v m) ∙ ground arith

  outgoing-step :
      (k : Text) (e : Edge N) (es : List (Edge N))
      → outgoing k (e ∷ es) ≡ (if same e.source k then e ∷ outgoing k es else outgoing k es)
  unfolding outgoing
  outgoing-step k e es = refl

  lookup-group_edges :
      (k : Text) (m : List (Text × List (Edge N))) (es : List (Edge N))
      → out_of k (group_edges m es) ≡ out_of k m ++ outgoing k es
  unfolding group_edges
  lookup-group_edges k m [] = unfold outgoing in sym (append-nil (out_of k m))
  lookup-group_edges k m (e ∷ es) =
      lookup-group_edges k (insert e.source (out_of e.source m ++ (e ∷ [])) m) es
      ∙ elim (Bool-cases (same e.source k)) [
        | inl q ↦
            rw (out_of-insert, outgoing-step, q, append_assoc)
              (ap (λ j. out_of j m ++ (e ∷ outgoing k es)) (same→eq e.source k q))
        | inr q ↦ rw (out_of-insert, outgoing-step, q) refl
      ]

  -- The group of a node is exactly the list of its outgoing edges, in the order of the flow.
  pub group_edges-outgoing :
      (k : Text) (es : List (Edge N)) → or_default (lookup k (group_edges [] es)) [] ≡ outgoing k es
  unfolding lookup
  group_edges-outgoing k es = lookup-group_edges k [] es

module _ {N Executor : Type 0} (makers : Makers N Executor) where
  abbrev RoutesOn : List (Edge N) → GraphNode N Executor → Type 0
  RoutesOn es g = g.out ≡ outgoing g.node_id es

  nodes-RouteOn :
      (executors : Text → Option Executor) (es : List (Edge N)) (ns : List (TaskStep N))
      → All (RoutesOn es) (map (graph_node makers executors (group_edges [] es)) ns)
  nodes-RouteOn executors es [] = tt
  nodes-RouteOn executors es (n ∷ ns) =
      (unfold graph_node in group_edges-outgoing n.id es, nodes-RouteOn executors es ns)

  node_ids :
      (groups : List (Text × List (Edge N))) (executors : Text → Option Executor)
      → (ns : List (TaskStep N))
      → map (λ n. n.node_id) (map (graph_node makers executors groups) ns) ≡ ids ns
  unfolding graph_node
  node_ids groups executors [] = refl
  node_ids groups executors (n ∷ ns) = ap (◌∷◌ n.id) (node_ids groups executors ns)

  -- When a flow compiles, its entry is the trigger, and the nodes of the graph are those of the
  -- rewritten flow, in order, each with a router over exactly its outgoing edges.
  pub compile_flow-graph :
      (executors : Text → Option Executor) (f : FlowDef N) (g : Graph N Executor)
      → compile_flow makers executors f ≡ ok g
      → ((t : TaskStep N) × (find is_trigger (rewrite_flow f).nodes ≡ some t) × (g.entry ≡ t.id))
        × (map (λ n. n.node_id) g.graph_nodes ≡ ids (rewrite_flow f).nodes)
        × All (λ n. n.out ≡ outgoing n.node_id (rewrite_flow f).edges) g.graph_nodes
  unfolding compile_flow
  compile_flow-graph executors f g h = found (find is_trigger (rewrite_flow f).nodes) refl h
    where
      built : TaskStep N → Graph N Executor
      built t = record {
        entry = t.id;
        graph_nodes =
            map (graph_node makers executors (group_edges [] (rewrite_flow f).edges))
              (rewrite_flow f).nodes;
      }

      Described : Graph N Executor → Type 0
      Described d =
          ((t : TaskStep N) × (find is_trigger (rewrite_flow f).nodes ≡ some t) × (d.entry ≡ t.id))
          × (map (λ n. n.node_id) d.graph_nodes ≡ ids (rewrite_flow f).nodes)
          × All (λ n. n.out ≡ outgoing n.node_id (rewrite_flow f).edges) d.graph_nodes

      found :
          (o : Option (TaskStep N))
          → find is_trigger (rewrite_flow f).nodes ≡ o
          → elim o [
            | none ↦
                throws
                  (codes "flow \"" ++ ((rewrite_flow f).flow_id ++ codes "\" has no trigger node"))
            | some t ↦ ok (built t)
          ]
            ≡ ok g
          → Described g
      found none e h' = cc
      found (some t) e h' = subst Described (ap (λ r. elim r [ ok d ↦ d | throws m ↦ g ]) h') (
        (t, e, refl),
        node_ids (group_edges [] (rewrite_flow f).edges) executors (rewrite_flow f).nodes,
        nodes-RouteOn executors (rewrite_flow f).edges (rewrite_flow f).nodes,
      )
