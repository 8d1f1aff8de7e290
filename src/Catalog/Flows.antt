-- ===== src/Catalog/Flows.antt =====
-- The checks of flows in packages/harness-core/src/catalog.ts (validateFlow, validateEdge,
-- validateFlowOutputContract) and of a catalog of flows.
pub mod Checked
pub mod Links
pub mod Nodes
pub mod Sound
use agentx_platform.Prelude.{
  ltb, ◌==◌, if◌then◌else◌, or_default, Text, codes, same, decimal, lookup, insert, has, add,
  Result, ok, throws, ◌>>=◌, ◌>>◌, ℕ, ◌+◌, min, max, Bool, false, not, ◌&&◌, ◌||◌, Option, none,
  some, List, [], ◌∷◌, ◌++◌,
}
use agentx_platform.Flow.Values.{Value, undefined, Items, nil, cons, Host, truthy}
use agentx_platform.Flow.Edges.{sequence, fallback, conditional, on_reject, Edge, trigger}
use agentx_platform.Catalog.{has_cycle, dag_adjacency}
use agentx_platform.Catalog.Shapes.{
  reject_if, only_if, member, is_object, is_array, items_of, is_absent, is_text, text_of, is_word,
  is_one_of, is_non_negative, shown, at_index, is_nil,
}
use agentx_platform.Catalog.Expressions.{validate_expression}
use agentx_platform.Catalog.Steps.{present_but_not, need_text, positive_when_present, validate_node}

abbrev pub edge_types : List Text
edge_types =
    codes "sequence" ∷ codes "conditional" ∷ codes "fallback" ∷ codes "error" ∷ codes "reject" ∷ []

abbrev pub output_kinds : List Text
output_kinds =
    codes "agent-text"
    ∷ codes "job-intent"
    ∷ codes "job-intents"
    ∷ codes "flow-spec"
    ∷ codes "structured"
    ∷ []

abbrev pub flow_kinds : List Text
flow_kinds = codes "work" ∷ codes "job-definition" ∷ codes "post-job" ∷ []

-- What the loop over the nodes collects.
pub record FlowIndex (N : Type 0) : Type 0 where
  pub node_ids : List Text
  pub node_kinds : List (Text × Value N)
  pub node_tags : List (Text × Value N)
  pub trigger_count : ℕ

-- What the loop over the edges counts: by source and type, and by target.
pub record EdgeCounts : Type 0 where
  pub outgoing_by_type : List (Text × List (Text × ℕ))
  pub incoming_count : List (Text × ℕ)

abbrev pub count_at : Text → List (Text × ℕ) → ℕ
count_at key m = or_default (lookup key m) 0

abbrev pub outgoing : Text → Text → EdgeCounts → ℕ
outgoing id kind s = count_at kind (or_default (lookup id s.outgoing_by_type) [])

abbrev pub sum_values : List (Text × ℕ) → ℕ
sum_values [] = 0
sum_values (e ∷ m) = e.1 + sum_values m

module _ {N : Type 0} where
  abbrev pub id_of : Value N → Text
  id_of n = text_of (member (codes "id") n)

  abbrev pub is_trigger : Value N → Bool
  is_trigger n = is_word (codes "trigger") (member (codes "kind") n)

  abbrev pub source_of : Value N → Text
  source_of e = text_of (member (codes "from") e)

  abbrev pub target_of : Value N → Text
  target_of e = text_of (member (codes "to") e)

  abbrev pub type_of_edge : Value N → Text
  type_of_edge e = text_of (member (codes "type") e)

  -- A node that passed its check is taken into the collections.
  unfoldable pub collect : Value N → FlowIndex N → FlowIndex N
  collect n s = record {
    node_ids = add (id_of n) s.node_ids;
    node_kinds = insert (id_of n) (member (codes "kind") n) s.node_kinds;
    node_tags = insert (id_of n) (member (codes "tags") n) s.node_tags;
    trigger_count = s.trigger_count + (if is_trigger n then 1 else 0);
  }

  unfoldable pub count_edge : Value N → EdgeCounts → EdgeCounts
  count_edge e s =
      let from_map = or_default (lookup (source_of e) s.outgoing_by_type) [] in
      record {
        outgoing_by_type =
            insert (source_of e)
              (insert (type_of_edge e) (count_at (type_of_edge e) from_map + 1) from_map)
              s.outgoing_by_type;
        incoming_count =
            insert (target_of e) (count_at (target_of e) s.incoming_count + 1) s.incoming_count;
      }

  -- An edge as the search for cycles reads it: its ends, and whether it is of a rejection.
  unfoldable pub link : Value N → Edge N
  link e = record {
    source = source_of e;
    target = target_of e;
    kind = if same (type_of_edge e) (codes "reject") then on_reject none none else sequence;
  }

  unfoldable pub links : Items N → List (Edge N)
  unfolding link
  links nil = []
  links (cons e es) = link e ∷ links es

module _ (H : Host) where
  open H use {Num}

  unfoldable pub validate_edge : Value Num → Text → Result (Unit {0})
  validate_edge edge place =
      let type = member (codes "type") edge in
      let oma = member (codes "onMaxAttempts") edge in
      reject_if (not (is_object edge)) (place ++ codes " must be an object")
      >> need_text H edge place (codes "from")
      >> need_text H edge place (codes "to")
      >> reject_if (not (is_one_of edge_types type)) (
          place
          ++ codes ".type must be one of: sequence, conditional, fallback, error, reject (got "
          ++ shown H type
          ++ codes ")")
      >> only_if (is_word (codes "conditional") type)
          (validate_expression H (member (codes "condition") edge) (place ++ codes ".condition"))
      >> only_if (is_word (codes "reject") type) (
          positive_when_present H edge place (codes "maxAttempts")
          >> only_if (not (is_absent oma)) (
              reject_if (not (is_object oma))
                (place ++ codes ".onMaxAttempts must be an object when present")
              >> (if is_word (codes "fail") (member (codes "kind") oma)
                  then ok tt
                  else if is_word (codes "escalate") (member (codes "kind") oma)
                  then need_text H oma (place ++ codes ".onMaxAttempts") (codes "to")
                  else throws (
                      place
                      ++ codes ".onMaxAttempts.kind must be 'fail' or 'escalate' (got "
                      ++ shown H (member (codes "kind") oma)
                      ++ codes ")"))))

  unfoldable pub validate_flow_output_contract : Value Num → Text → Result (Unit {0})
  validate_flow_output_contract o place =
      let kind = member (codes "kind") o in
      reject_if (not (is_object o)) (place ++ codes " must be an object")
      >> reject_if (not (is_one_of output_kinds kind)) (
          place
          ++ codes
              ".kind must be one of: agent-text, job-intent, job-intents, flow-spec, structured (got "
          ++ shown H kind
          ++ codes ")")
      >> only_if (is_word (codes "job-intents") kind) (
          reject_if (present_but_not (is_non_negative H) (member (codes "min") o))
            (place ++ codes ".min must be a non-negative number")
          >> reject_if (present_but_not (is_non_negative H) (member (codes "max") o))
              (place ++ codes ".max must be a non-negative number"))
      >> reject_if (is_word (codes "structured") kind && is_absent (member (codes "schema") o))
          (place ++ codes ".schema is required")

  unfoldable pub nodes_loop : Items Num → ℕ → Text → FlowIndex Num → Result (FlowIndex Num)
  nodes_loop nil j place s = ok s
  nodes_loop (cons n ns) j place s =
      validate_node H n (at_index (place ++ codes ".nodes") j)
      >> reject_if (has (id_of n) s.node_ids)
          (place ++ codes " has duplicate node id \"" ++ id_of n ++ codes "\"")
      >> nodes_loop ns (j + 1) place (collect n s)

  abbrev pub too_many : Text → Value Num → EdgeCounts → Text → Result (Unit {0})
  too_many kind e s place =
      reject_if (same (type_of_edge e) kind && ltb 1 (outgoing (source_of e) kind s))
        (place ++ codes ": at most one '" ++ kind ++ codes "' edge allowed per source node")

  -- `kind` and `tags` are those of the source of the edge.
  abbrev pub may_reject : Value Num → Value Num → Bool
  may_reject kind tags = is_word (codes "gate") kind || truthy H (member (codes "approval") tags)

  unfoldable pub check_reject : Value Num → FlowIndex Num → Text → Result (Unit {0})
  check_reject e ix place =
      let kind = or_default (lookup (source_of e) ix.node_kinds) undefined in
      let tags = or_default (lookup (source_of e) ix.node_tags) undefined in
      let oma = member (codes "onMaxAttempts") e in
      let to = member (codes "to") oma in
      reject_if (not (may_reject kind tags)) (
        place
        ++ codes
            ": reject edges may only originate from kind:'gate' nodes or Approval-tagged nodes (source \""
        ++ source_of e
        ++ codes "\" is kind:'"
        ++ text_of kind
        ++ codes "' without approval tag)")
      >> reject_if
          (not (is_absent oma)
            && (is_word (codes "escalate") (member (codes "kind") oma)
                && (is_text to && not (has (text_of to) ix.node_ids))))
          (place
            ++ codes ".onMaxAttempts.to references unknown node \""
            ++ text_of to
            ++ codes "\"")

  -- The checks of one edge, `s` being the counts with this edge in them.
  unfoldable pub check_edge : Value Num → FlowIndex Num → EdgeCounts → Text → Result (Unit {0})
  check_edge e ix s place =
      reject_if (not (has (source_of e) ix.node_ids))
        (place ++ codes ".from references unknown node \"" ++ source_of e ++ codes "\"")
      >> reject_if (not (has (target_of e) ix.node_ids))
          (place ++ codes ".to references unknown node \"" ++ target_of e ++ codes "\"")
      >> too_many (codes "error") e s place
      >> too_many (codes "fallback") e s place
      >> too_many (codes "reject") e s place
      >> only_if (same (type_of_edge e) (codes "reject")) (check_reject e ix place)

  unfoldable pub edges_loop : Items Num → ℕ → Text → FlowIndex Num → EdgeCounts → Result EdgeCounts
  edges_loop nil j place ix s = ok s
  edges_loop (cons e es) j place ix s =
      let spot = at_index (place ++ codes ".edges") j in
      validate_edge e spot
      >> check_edge e ix (count_edge e s) spot
      >> edges_loop es (j + 1) place ix (count_edge e s)

  unfoldable pub triggers_loop : Items Num → Text → EdgeCounts → Result (Unit {0})
  triggers_loop nil place s = ok tt
  triggers_loop (cons n ns) place s =
      only_if (is_trigger n) (
        reject_if (ltb 0 (count_at (id_of n) s.incoming_count))
          (place ++ codes ": trigger node \"" ++ id_of n ++ codes "\" must have no incoming edges")
        >> reject_if (sum_values (or_default (lookup (id_of n) s.outgoing_by_type) []) == 0) (
            place
            ++ codes ": trigger node \""
            ++ id_of n
            ++ codes "\" must have at least one outgoing edge"))
      >> triggers_loop ns place s

  -- The search for cycles always answers.
  abbrev pub cycle_verdict : Text → Option Bool → Result (Unit {0})
  cycle_verdict place (some false) = ok tt
  cycle_verdict place _ = throws (
      place
      ++ codes
          ": cycle detected on non-reject edges (only reject edges may form cycles for retry-with-context loops)")

  unfoldable pub check_acyclic : Items Num → Text → Result (Unit {0})
  check_acyclic edges place = cycle_verdict place (has_cycle (dag_adjacency (links edges) []))

  unfoldable pub check_head : Value Num → Text → Result (Unit {0})
  check_head flow place =
      let kind = member (codes "kind") flow in
      let output = member (codes "output") flow in
      reject_if (not (is_object flow)) (place ++ codes " must be an object")
      >> need_text H flow place (codes "id")
      >> reject_if (present_but_not (is_one_of flow_kinds) kind) (
          place
          ++ codes ".kind must be one of: work, job-definition, post-job (got "
          ++ shown H kind
          ++ codes ")")
      >> only_if (not (is_absent output))
          (validate_flow_output_contract output (place ++ codes ".output"))
      >> reject_if
          (is_word (codes "job-definition") kind
            && not (is_word (codes "job-intent") (member (codes "kind") output)))
          (place ++ codes ": kind 'job-definition' requires output.kind 'job-intent'")
      >> reject_if
          (not (is_array (member (codes "nodes") flow))
            || is_nil (items_of (member (codes "nodes") flow)))
          (place ++ codes ".nodes must be a non-empty array")
      >> reject_if (not (is_array (member (codes "edges") flow)))
          (place ++ codes ".edges must be an array (may be empty)")

  abbrev pub no_nodes : FlowIndex Num
  no_nodes = record { node_ids = []; node_kinds = []; node_tags = []; trigger_count = 0 }

  abbrev pub no_edges : EdgeCounts
  no_edges = record { outgoing_by_type = []; incoming_count = [] }

  -- The checks on the graph, once the members of the flow have their shapes: what follows the loop
  -- over the edges, what follows that over the nodes, and all of them.
  unfoldable pub after_edges : Items Num → Items Num → Text → EdgeCounts → Result (Unit {0})
  after_edges nodes edges place s = triggers_loop nodes place s >> check_acyclic edges place

  unfoldable pub after_nodes : Items Num → Items Num → Text → FlowIndex Num → Result (Unit {0})
  after_nodes nodes edges place ix = do
    reject_if (ix.trigger_count == 0)
        (place ++ codes ": exactly one node must have kind 'trigger' (got 0)")
    reject_if (ltb 1 ix.trigger_count) (
        place
        ++ codes ": exactly one node must have kind 'trigger' (got "
        ++ decimal ix.trigger_count
        ++ codes ")")
    edges_loop edges 0 place ix no_edges >>= after_edges nodes edges place

  unfoldable pub check_graph : Items Num → Items Num → Text → Result (Unit {0})
  check_graph nodes edges place =
      nodes_loop nodes 0 place no_nodes >>= after_nodes nodes edges place

  unfoldable pub validate_flow : Value Num → Text → Result (Unit {0})
  validate_flow flow place =
      check_head flow place
      >> check_graph (items_of (member (codes "nodes") flow))
          (items_of (member (codes "edges") flow)) place

  unfoldable pub flows_loop : Items Num → ℕ → Text → List Text → Result (Unit {0})
  flows_loop nil i path ids = ok tt
  flows_loop (cons f fs) i path ids =
      validate_flow f (at_index (path ++ codes ": flows") i)
      >> reject_if (has (id_of f) ids)
          (path ++ codes ": duplicate flow id \"" ++ id_of f ++ codes "\"")
      >> flows_loop fs (i + 1) path (add (id_of f) ids)

  unfoldable pub validate_flow_catalog : Value Num → Text → Result (Unit {0})
  validate_flow_catalog value path =
      reject_if (not (is_object value)) (path ++ codes ": top-level must be an object")
      >> reject_if (not (is_array (member (codes "flows") value)))
          (path ++ codes ": missing \"flows\" array")
      >> flows_loop (items_of (member (codes "flows") value)) 0 path []
