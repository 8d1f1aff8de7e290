-- ===== src/Catalog/FlowTests.antt =====
-- A catalog with one flow, as packages/harness-core/src/catalog.ts checks it.
use Prim.Native.String.{String}
use agentx_platform.Prelude.{
  is_some, codes, same, lookup, insert, has, add, ok, throws, ℕ, ◌≡◌, refl, true, List, [], ◌∷◌,
}
use agentx_platform.Flow.Values.{
  Value, bool, text, arr, obj, Items, nil, cons, Fields, end, field, truthy, object_get,
}
use agentx_platform.Flow.Samples.{host}
use agentx_platform.Catalog.{visit_nexts, dfs_cycle, visit_roots, has_cycle, dag_adjacency}
use agentx_platform.Catalog.Shapes.{own_field, each_item}
use agentx_platform.Catalog.Expressions.{kind_of, validate_expression}
use agentx_platform.Catalog.Expressions.Reads.{is_ok, read_expression, validate_expression-reads}
use agentx_platform.Catalog.Agents.{
  lacks_half, validate_accepts_list, accepts_sets, validate_accepts_field, validate_agent_def,
  resolve_accepts,
}
use agentx_platform.Catalog.Agents.Accepts.{IsGood, resolve_accepts-IsGood}
use agentx_platform.Catalog.Steps.{validate_trigger_config, validate_node_config, validate_node}
use agentx_platform.Catalog.Flows.{
  collect, count_edge, links, validate_edge, nodes_loop, check_reject, check_edge, edges_loop,
  triggers_loop, check_acyclic, check_head, after_edges, after_nodes, check_graph, validate_flow,
  flows_loop, validate_flow_catalog,
}
use agentx_platform.Catalog.Flows.Sound.{IsSound, validate_flow-IsSound}
use agentx_platform.Catalog.Products.{products_loop, validate_unified_catalog}
use agentx_platform.Catalog.Products.Sound.{IsSoundCatalog, validate_unified_catalog-IsSoundCatalog}

abbrev word : String → Value ℕ
word s = text (codes s)

abbrev members : List (String × Value ℕ) → Fields ℕ
members [] = end
members ((k, v) ∷ m) = field (codes k) v (members m)

abbrev object : List (String × Value ℕ) → Value ℕ
object m = obj 0 (members m)

abbrev items : List (Value ℕ) → Items ℕ
items [] = nil
items (v ∷ vs) = cons v (items vs)

abbrev array : List (Value ℕ) → Value ℕ
array vs = arr 0 (items vs)

-- $.ok == true
abbrev is_fine : Value ℕ
is_fine = object (
    ("kind", word "compare")
    ∷ ("op", word "==")
    ∷ ("lhs", object (("kind", word "jsonpath") ∷ ("path", word "$.ok") ∷ []))
    ∷ ("rhs", object (("kind", word "literal") ∷ ("value", bool true) ∷ []))
    ∷ [])

abbrev start_node : Value ℕ
start_node = object (
    ("id", word "start")
    ∷ ("kind", word "trigger")
    ∷ ("config", object (("kind", word "manual") ∷ []))
    ∷ [])

abbrev sets : Fields ℕ
sets = members (("default", array (word "anthropic:opus" ∷ word "tool:openai:gpt" ∷ [])) ∷ [])

abbrev writer : Value ℕ
writer = object (
    ("id", word "write")
    ∷ ("kind", word "agent")
    ∷ (
      "config",
      object (
          (
            "agent",
            object (
                ("id", word "writer")
                ∷ ("role", word "writer")
                ∷ ("adapter", word "claude-sdk")
                ∷ ("accepts", obj 0 sets)
                ∷ []),
          )
          ∷ []),
    )
    ∷ [])

abbrev review : Value ℕ
review = object (
    ("id", word "review")
    ∷ ("kind", word "gate")
    ∷ (
      "config",
      object (
          (
            "assertions",
            array (object (("expression", is_fine) ∷ ("message", word "not fine") ∷ []) ∷ []),
          )
          ∷ []),
    )
    ∷ [])

abbrev edge_of : String → String → String → Value ℕ
edge_of from to type = object (("from", word from) ∷ ("to", word to) ∷ ("type", word type) ∷ [])

abbrev flow_with : List (Value ℕ) → Value ℕ
flow_with edges = object (
    ("id", word "f")
    ∷ ("nodes", array (start_node ∷ writer ∷ review ∷ []))
    ∷ ("edges", array edges)
    ∷ [])

-- The gate sends back what it rejects.
abbrev ways : List (Value ℕ)
ways =
    edge_of "start" "write" "sequence"
    ∷ edge_of "write" "review" "sequence"
    ∷ edge_of "review" "write" "reject"
    ∷ []

flow_accepted : validate_flow host (flow_with ways) (codes "flows[0]") ≡ ok tt
unfolding validate_flow check_head check_graph after_nodes after_edges nodes_loop edges_loop
    triggers_loop check_edge check_reject check_acyclic validate_edge validate_node
    validate_node_config validate_trigger_config validate_agent_def validate_accepts_field
    accepts_sets validate_accepts_list each_item lacks_half validate_expression kind_of collect
    count_edge links has_cycle visit_roots dfs_cycle visit_nexts dag_adjacency own_field lookup
    insert has add same
flow_accepted = refl

-- Going back along a sequence edge is a cycle.
flow_refused :
    validate_flow host (flow_with (edge_of "review" "write" "sequence" ∷ ways)) (codes "f")
    ≡ throws (
        codes
          "f: cycle detected on non-reject edges (only reject edges may form cycles for retry-with-context loops)")
unfolding validate_flow check_head check_graph after_nodes after_edges nodes_loop edges_loop
    triggers_loop check_edge check_reject check_acyclic validate_edge validate_node
    validate_node_config validate_trigger_config validate_agent_def validate_accepts_field
    accepts_sets validate_accepts_list each_item lacks_half validate_expression kind_of collect
    count_edge links has_cycle visit_roots dfs_cycle visit_nexts dag_adjacency own_field lookup
    insert has add same
flow_refused = refl

abbrev whole_catalog : Value ℕ
whole_catalog = object (
    ("flows", array (flow_with ways ∷ []))
    ∷ ("products", array (object (("id", word "p") ∷ []) ∷ []))
    ∷ [])

catalog_accepted : validate_unified_catalog host whole_catalog (codes "c") ≡ ok tt
unfolding validate_unified_catalog validate_flow_catalog flows_loop products_loop validate_flow
    check_head check_graph after_nodes after_edges nodes_loop edges_loop triggers_loop check_edge
    check_reject check_acyclic validate_edge validate_node validate_node_config
    validate_trigger_config validate_agent_def validate_accepts_field accepts_sets
    validate_accepts_list each_item lacks_half validate_expression kind_of collect count_edge links
    has_cycle visit_roots dfs_cycle visit_nexts dag_adjacency own_field lookup insert has add same
catalog_accepted = refl

validate_expression-reads_example :
    is_ok (validate_expression host is_fine (codes "e")) ≡ is_some (read_expression is_fine)
validate_expression-reads_example = validate_expression-reads host is_fine (codes "e")

validate_flow-IsSound_example :
    IsSound host (items (start_node ∷ writer ∷ review ∷ [])) (items ways)
unfolding own_field same
validate_flow-IsSound_example =
    validate_flow-IsSound host (flow_with ways) (codes "flows[0]") flow_accepted

validate_unified_catalog-IsSoundCatalog_example : IsSoundCatalog host whole_catalog
validate_unified_catalog-IsSoundCatalog_example =
    validate_unified_catalog-IsSoundCatalog host whole_catalog (codes "c") catalog_accepted

sets_accepted : validate_accepts_field (obj 0 sets) (codes "a") ≡ ok tt
unfolding validate_accepts_field accepts_sets validate_accepts_list each_item lacks_half
sets_accepted = refl

sets_resolved :
    resolve_accepts host (codes "writer") (obj 0 sets) (codes "fast")
    ≡ ok (array (word "anthropic:opus" ∷ word "tool:openai:gpt" ∷ []))
unfolding resolve_accepts object_get truthy same
sets_resolved = refl

resolve_accepts-IsGood_example :
    IsGood (array (word "anthropic:opus" ∷ word "tool:openai:gpt" ∷ []))
resolve_accepts-IsGood_example =
    resolve_accepts-IsGood host (codes "writer") 0
      (members (("default", array (word "anthropic:opus" ∷ word "tool:openai:gpt" ∷ [])) ∷ []))
      (codes "fast") (codes "a") (array (word "anthropic:opus" ∷ word "tool:openai:gpt" ∷ [])) refl
      refl sets_accepted sets_resolved
