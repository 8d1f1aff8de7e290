-- ===== src/Flow/Compile/Linear.antt =====
-- The flow made of a list of agents (`linearFlowFromAgents` of
-- packages/harness-core/src/flow-graph.ts).
use agentx_platform.Prelude.{
  is_some, keep, any, Text, same, same_refl, same_comm, has, Distinct, ok, ◌≡◌, refl, ap, ◌∙◌,
  false, not, Option, none, some, List, [], ◌∷◌, map, arith,
}
use agentx_platform.Flow.Values.{Value, Host}
use agentx_platform.Flow.State.{success, NodeExit, FlowState}
use agentx_platform.Flow.Edges.{sequence, Edge, agent, FlowDef}
use agentx_platform.Flow.Router.{
  goto, route_default, first_condition, route_success, route_exit, build_router,
}
use agentx_platform.Flow.Rewrite.{synthetic_of, rewrite_flow}
use agentx_platform.Flow.Rewrite.Isolation.{ids, outgoing}
use agentx_platform.Flow.Compile.{
  trigger_id, is_coordinator, step_of, chain_edges, linear_flow_from_agents,
}

module _ {N : Type 0} where
  -- The only edge that leaves each node leads to the next one; none leaves the last.
  abbrev Chained : List (Edge N) → Text → List Text → Type 0
  Chained es p [] = outgoing p es ≡ []
  Chained es p (a ∷ as') =
      (outgoing p es ≡ record { source = p; target = a; kind = sequence } ∷ []) × Chained es a as'

  outgoing-chain_edges :
      (k p : Text) (as' : List Text)
      → has k (p ∷ as') ≡ false
      → outgoing {N = N} k (chain_edges p as') ≡ []
  unfolding outgoing chain_edges has
  outgoing-chain_edges k p [] h = refl
  outgoing-chain_edges k p (a ∷ as') h = ground (arith, outgoing-chain_edges k a as')

  outgoing-other :
      (k p a : Text) (es : List (Edge N))
      → same p k ≡ false
      → outgoing k (record { source = p; target = a; kind = sequence } ∷ es) ≡ outgoing k es
  unfolding outgoing
  outgoing-other k p a es h = rw h refl

  outgoing-own :
      (p a : Text) (es : List (Edge N))
      → outgoing p es ≡ []
      → outgoing p (record { source = p; target = a; kind = sequence } ∷ es)
        ≡ record { source = p; target = a; kind = sequence } ∷ []
  unfolding outgoing
  outgoing-own p a es h = rw (same_refl p, h) refl

  Chained-more :
      (p a q : Text) (es : List (Edge N)) (as' : List Text)
      → has p (q ∷ as') ≡ false
      → Chained es q as'
      → Chained (record { source = p; target = a; kind = sequence } ∷ es) q as'
  unfolding has
  Chained-more p a q es [] h c = outgoing-other q p a es (ground (arith, h, same_comm p q)) ∙ c
  Chained-more p a q es (b ∷ as') h (c, d) = (
    outgoing-other q p a es (ground (arith, h, same_comm p q)) ∙ c,
    Chained-more p a b es as' (ground (arith, h)) d,
  )

chain_edges-Chained :
    (N : Type 0) (p : Text) (as' : List Text)
    → Distinct (p ∷ as')
    → Chained (chain_edges {N = N} p as') p as'
unfolding chain_edges
chain_edges-Chained N p [] d = unfold outgoing in refl
chain_edges-Chained N p (a ∷ as') (d, e) = (
  outgoing-own p a (chain_edges a as') (outgoing-chain_edges p a as' d),
  Chained-more p a a (chain_edges a as') as' d (chain_edges-Chained N a as' e),
)

no_tags :
    (N : Type 0) (as' : List Text)
    → any (λ n. is_some (synthetic_of {N = N} n)) (map (λ a. step_of a agent) as') ≡ false
unfolding synthetic_of step_of
no_tags N [] = refl
no_tags N (a ∷ as') = no_tags N as'

ids-agents : (N : Type 0) (as' : List Text) → ids {N = N} (map (λ a. step_of a agent) as') ≡ as'
unfolding step_of
ids-agents N [] = refl
ids-agents N (a ∷ as') = ap (◌∷◌ a) (ids-agents N as')

module _ {N : Type 0} where
  untouched :
      (f : FlowDef N) → any (λ n. is_some (synthetic_of n)) f.nodes ≡ false → rewrite_flow f ≡ f
  unfolding rewrite_flow
  untouched f h = rw h refl

-- The last node did not fail: there is no exit yet, or it is a success.
abbrev pub Succeeded : Option NodeExit → Type 0
Succeeded none = Unit
Succeeded (some e) = e.kind ≡ success

module _ (H : Host) (view : FlowState H.Num → Value H.Num) (s : FlowState H.Num) where
  open H use {Num}

  -- The routers, each over the outgoing edges of its node, visit the ids one after the other, and
  -- no edge leaves the last.
  abbrev pub Visits : List (Edge Num) → List Text → Type 0
  Visits es [] = Unit
  Visits es (p ∷ []) = outgoing p es ≡ []
  Visits es (p ∷ a ∷ as') =
      (build_router H view p (outgoing p es) s ≡ ok (goto a)) × Visits es (a ∷ as')

  route_sequence :
      (p a : Text)
      → Succeeded s.last_exit
      → build_router H view p (record { source = p; target = a; kind = sequence } ∷ []) s
        ≡ ok (goto a)
  unfolding build_router route_exit route_success first_condition route_default
  route_sequence p a h = routed s.last_exit h
    where
      way : List (Edge Num)
      way = record { source = p; target = a; kind = sequence } ∷ []

      routed :
          (o : Option NodeExit)
          → Succeeded o
          → elim o [
            | none ↦ route_success H view s way
            | some e ↦ route_exit H view p way s e e.kind
          ]
            ≡ ok (goto a)
      routed none k = refl
      routed (some e) k = ap (route_exit H view p way s e) k

  Chained-Visits :
      (es : List (Edge Num)) (p : Text) (as' : List Text)
      → Succeeded s.last_exit
      → Chained es p as'
      → Visits es (p ∷ as')
  Chained-Visits es p [] h c = c
  Chained-Visits es p (a ∷ as') h (c, d) = (
    ap (λ out. build_router H view p out s) c ∙ route_sequence p a h,
    Chained-Visits es a as' h d,
  )

  -- The flow of a list of agents, whose ids differ from each other and from the trigger's, has no
  -- tags to rewrite, and while no node fails its routers lead from the trigger through all agents
  -- but the coordinators, in order, and no edge leaves the last one.
  pub linear_flow_from_agents-Visits :
      (id : Text) (agents : List Text)
      → let real = keep (λ a. not (is_coordinator a)) agents in
        let f = linear_flow_from_agents id agents in
        Distinct (trigger_id ∷ real)
        → Succeeded s.last_exit
        → (rewrite_flow f ≡ f)
          × (ids f.nodes ≡ trigger_id ∷ real)
          × Visits f.edges (trigger_id ∷ real)
  unfolding linear_flow_from_agents
  linear_flow_from_agents-Visits id agents d h =
      let real = keep (λ a. not (is_coordinator a)) agents in
      (
        untouched (linear_flow_from_agents id agents)
            (unfold synthetic_of step_of in no_tags Num real),
        unfold step_of in ap (◌∷◌ trigger_id) (ids-agents Num real),
        Chained-Visits (chain_edges trigger_id real) trigger_id real h
            (chain_edges-Chained Num trigger_id real d),
      )
