-- ===== src/Catalog/Flows/Sound.antt =====
-- A flow that validateFlow of packages/harness-core/src/catalog.ts accepts is a graph that can be
-- run.
use agentx_platform.Prelude.{
  or_default, Text, codes, lookup, has, Distinct, ok, ◌>>=◌, ◌≤◌, ◌≡◌, subst, Bool, true, false,
  Option, none, some, [], arith,
}
use agentx_platform.Flow.Values.{Value, undefined, Items, nil, cons, Host, truthy}
use agentx_platform.Catalog.{has_cycle, dag_adjacency}
use agentx_platform.Catalog.Edges.{Way, Settles, has_cycle-Settles}
use agentx_platform.Catalog.Shapes.{
  own_field, member, items_of, is_text, text_of, is_word, >>-passed, >>=-passed,
}
use agentx_platform.Catalog.Flows.{
  FlowIndex, EdgeCounts, count_at, id_of, is_trigger, source_of, target_of, links, nodes_loop,
  may_reject, edges_loop, triggers_loop, cycle_verdict, check_acyclic, check_head, no_nodes,
  no_edges, after_edges, after_nodes, check_graph, validate_flow,
}
use agentx_platform.Catalog.Flows.Nodes.{
  ids_of, node_at, triggers, member_at, Collected, nodes_loop-Collected,
}
use agentx_platform.Catalog.Flows.Links.{tally, AllItems, goes_out, leaves, enters, leaving}
use agentx_platform.Catalog.Flows.Checked.{
  single_types, is_rejection, Checked, Tallied, edges_loop-Tallied,
}

module _ (H : Host) where
  open H use {Num}

  -- Whether the node, if there is one, may have an edge of a rejection.
  abbrev pub rejects : Option (Value Num) → Bool
  rejects none = false
  rejects (some n) = may_reject H (member (codes "kind") n) (member (codes "tags") n)

  -- Its ends are nodes, also that of an escalation; a rejection comes from a gate or an approval.
  abbrev pub Fits : Items Num → Value Num → Type 0
  Fits nodes e =
      (has (source_of e) (ids_of nodes) ≡ true)
      × (has (target_of e) (ids_of nodes) ≡ true)
      × (is_rejection H e ≡ true → rejects (node_at (source_of e) nodes) ≡ true)
      × (is_rejection H e ≡ true
          → is_word (codes "escalate") (member (codes "kind") (member (codes "onMaxAttempts") e))
            ≡ true
          → is_text (member (codes "to") (member (codes "onMaxAttempts") e)) ≡ true
          → has (text_of (member (codes "to") (member (codes "onMaxAttempts") e))) (ids_of nodes)
            ≡ true)

  pub record IsSound (nodes edges : Items Num) : Type 0 where
    pub distinct : Distinct (ids_of nodes)
    pub one_trigger : triggers nodes ≡ 1
    pub fitting : AllItems (Fits nodes) edges
    pub single :
        (id kind : Text) → has kind single_types ≡ true → tally (goes_out id kind) edges ≤ 1
    pub entry :
        AllItems
          (λ n.
            is_trigger n ≡ true
            → (tally (enters (id_of n)) edges ≡ 0) × (1 ≤ tally (leaves (id_of n)) edges))
          nodes
    pub acyclic : (x : Text) → ¬ Way (links edges) x x

  triggers_loop-passed :
      (ns : Items Num) (place : Text) (s : EdgeCounts)
      → triggers_loop H ns place s ≡ ok tt
      → AllItems
          (λ n.
            is_trigger n ≡ true
            → (count_at (id_of n) s.incoming_count ≡ 0) × (1 ≤ leaving (id_of n) s))
          ns
  unfolding triggers_loop
  triggers_loop-passed nil place s h = tt
  triggers_loop-passed (cons n ns) place s h =
      ((λ t. (ground arith, ground arith)), triggers_loop-passed ns place s (ground arith))

  check_acyclic-passed :
      (edges : Items Num) (place : Text)
      → check_acyclic H edges place ≡ ok tt
      → (x : Text) → ¬ Way (links edges) x x
  unfolding check_acyclic
  check_acyclic-passed edges place h =
      pass (has_cycle (dag_adjacency (links edges) [])) (has_cycle-Settles (links edges)) h
    where
      pass :
          (r : Option Bool)
          → Settles (links edges) r
          → cycle_verdict H place r ≡ ok tt
          → (x : Text) → ¬ Way (links edges) x x
      pass none s h = absurd s
      pass (some true) s h = cc
      pass (some false) s h = s

  AllItems-map :
      (P Q : Value Num → Type 0) (xs : Items Num)
      → ((x : Value Num) → P x → Q x)
      → AllItems P xs
      → AllItems Q xs
  AllItems-map P Q nil f h = tt
  AllItems-map P Q (cons x xs) f (h, hs) = (f x h, AllItems-map P Q xs f hs)

  -- A node that is known is found, and what the collections say of it is what it says.
  Checked-Fits :
      (nodes : Items Num) (ix : FlowIndex Num) (e : Value Num)
      → Collected nodes (no_nodes H) ix
      → Checked H ix e
      → Fits nodes e
  Checked-Fits nodes ix e c k = (
    subst (λ l. has (source_of e) l ≡ true) c.all_ids k.source_known,
    subst (λ l. has (target_of e) l ≡ true) c.all_ids k.target_known,
    λ r.
        read (node_at (source_of e) nodes) (c.kinds (source_of e)) (c.tags (source_of e))
          (k.allowed r),
    λ r w t.
        subst (λ l. has (text_of (member (codes "to") (member (codes "onMaxAttempts") e))) l ≡ true)
          c.all_ids (k.escalation r w t),
  )
    where
      read :
          (o : Option (Value Num))
          → lookup (source_of e) ix.node_kinds
            ≡ member_at (codes "kind") o (lookup (source_of e) (no_nodes H).node_kinds)
          → lookup (source_of e) ix.node_tags
            ≡ member_at (codes "tags") o (lookup (source_of e) (no_nodes H).node_tags)
          → may_reject H
              (or_default (lookup (source_of e) ix.node_kinds) undefined)
              (or_default (lookup (source_of e) ix.node_tags) undefined)
            ≡ true
          → rejects o ≡ true
      read none p q m = unfold lookup truthy own_field in (rw (p, q) at m)
      read (some n) p q m = rw (p, q) at m

  tally-single :
      (edges : Items Num) (ix : FlowIndex Num) (s : EdgeCounts) (id kind : Text)
      → Tallied H ix edges (no_edges H) s
      → has kind single_types ≡ true
      → tally (goes_out id kind) edges ≤ 1
  unfolding lookup
  tally-single edges ix s id kind t k =
      omega (arith, t.by_type id kind, t.single id kind k (omega arith))

  tally-entry :
      (edges : Items Num) (ix : FlowIndex Num) (s : EdgeCounts) (id : Text)
      → Tallied H ix edges (no_edges H) s
      → (count_at id s.incoming_count ≡ 0) × (1 ≤ leaving id s)
      → (tally (enters id) edges ≡ 0) × (1 ≤ tally (leaves id) edges)
  unfolding lookup
  tally-entry edges ix s id t h = omega (arith, t.into id, t.out id)

  after_edges-IsSound :
      (nodes edges : Items Num) (place : Text) (ix : FlowIndex Num) (s : EdgeCounts)
      → Collected nodes (no_nodes H) ix
      → Tallied H ix edges (no_edges H) s
      → ix.trigger_count ≡ 1
      → after_edges H nodes edges place s ≡ ok tt
      → IsSound nodes edges
  unfolding after_edges
  after_edges-IsSound nodes edges place ix s c t unique h =
      let (entered, acyclic) =
        >>-passed (triggers_loop H nodes place s) (check_acyclic H edges place) h in
      record {
        distinct = subst Distinct c.all_ids c.distinct;
        one_trigger = omega (arith, c.counted, unique);
        fitting =
            AllItems-map (Checked H ix) (Fits nodes) edges (λ e k. Checked-Fits nodes ix e c k)
              t.checked;
        single = λ id kind k. tally-single edges ix s id kind t k;
        entry =
            AllItems-map _ _ nodes (λ n f i. tally-entry edges ix s (id_of n) t (f i))
              (triggers_loop-passed nodes place s entered);
        acyclic = check_acyclic-passed edges place acyclic;
      }

  after_nodes-passed :
      (nodes edges : Items Num) (place : Text) (ix : FlowIndex Num)
      → after_nodes H nodes edges place ix ≡ ok tt
      → (ix.trigger_count ≡ 1)
        × ((edges_loop H edges 0 place ix (no_edges H) >>= after_edges H nodes edges place) ≡ ok tt)
  unfolding after_nodes
  after_nodes-passed nodes edges place ix h = ground arith

  check_graph-IsSound :
      (nodes edges : Items Num) (place : Text)
      → check_graph H nodes edges place ≡ ok tt
      → IsSound nodes edges
  unfolding check_graph
  check_graph-IsSound nodes edges place h =
      let (ix, collected, beyond) =
        >>=-passed (nodes_loop H nodes 0 place (no_nodes H)) (after_nodes H nodes edges place) h in
      let (unique, rest) = after_nodes-passed nodes edges place ix beyond in
      let (s, tallied, last) =
        >>=-passed (edges_loop H edges 0 place ix (no_edges H)) (after_edges H nodes edges place)
          rest in
      after_edges-IsSound nodes edges place ix s
        (nodes_loop-Collected H nodes 0 place (no_nodes H) ix tt collected)
        (edges_loop-Tallied H edges 0 place ix (no_edges H) s tallied) unique last

  -- A flow that is accepted is a graph that can be run: no two nodes share an id; just one is a
  -- trigger, with no edge into it and one out of it at least; each edge joins two of the nodes; no
  -- node has two error, two fallback or two reject edges; an edge of a rejection comes from a gate
  -- or from a node that is tagged for approval; and no node is reached from itself along edges that
  -- are not of rejections.
  pub validate_flow-IsSound :
      (flow : Value Num) (place : Text)
      → validate_flow H flow place ≡ ok tt
      → IsSound (items_of (member (codes "nodes") flow)) (items_of (member (codes "edges") flow))
  unfolding validate_flow
  validate_flow-IsSound flow place h =
      check_graph-IsSound (items_of (member (codes "nodes") flow))
        (items_of (member (codes "edges") flow)) place
        (>>-passed (check_head H flow place)
          (check_graph H (items_of (member (codes "nodes") flow))
            (items_of (member (codes "edges") flow)) place)
          h).1
