-- ===== src/Flow/Router/Targets.antt =====
-- Where the routers of packages/harness-core/src/flow-graph.ts can lead, and when they lead on.
use agentx_platform.Prelude.{
  ltb, Bool-cases, Option-cases, or_default, find, Text, Result, ok, Result-cases, ℕ, max, ◌≡◌,
  refl, ap, subst, ◌⊎◌, inl, inr, Bool, Option, none, some, List, [], ◌∷◌, arith,
}
use agentx_platform.Flow.Values.{Value, Host}
use agentx_platform.Flow.State.{
  ExitKind, success, error, rejected, NodeExit, FlowState, attempts_of,
}
use agentx_platform.Flow.Edges.{OnMaxAttempts, fail, escalate, EdgeKind, on_reject, Edge}
use agentx_platform.Flow.Router.{
  Next, goto, is_sequence, is_fallback, is_on_error, as_reject, find_reject, default_max_attempts,
  route_reject, route_error, route_default, first_condition, route_success, route_exit,
  build_router,
}

module _ {N : Type 0} where
  -- `t` is the target of one of the edges, or the node to which one of them escalates.
  abbrev Escalates : EdgeKind N → Text → Type 0
  Escalates (on_reject max (some (escalate to))) t = to ≡ t
  Escalates _ t = ⊥

  abbrev pub LeadsTo : Text → List (Edge N) → Type 0
  LeadsTo t [] = ⊥
  LeadsTo t (e ∷ es) = (e.target ≡ t) ⊎ (Escalates e.kind t ⊎ LeadsTo t es)

  find-LeadsTo :
      (p : Edge N → Bool) (out : List (Edge N)) (d : Edge N)
      → find p out ≡ some d
      → LeadsTo d.target out
  find-LeadsTo p [] d h = cc
  find-LeadsTo p (e ∷ es) d h = elim (Bool-cases (p e)) [
    | inl hit ↦ inl (ap (λ (o : Option (Edge N)). (or_default o d).target) (rw hit at h))
    | inr miss ↦ inr (inr (find-LeadsTo p es d (rw miss at h)))
  ]

  -- A reject edge leads to its target, and to its node of escalation.
  abbrev RejectLeads : Option OnMaxAttempts → List (Edge N) → Type 0
  RejectLeads (some (escalate to)) out = LeadsTo to out
  RejectLeads _ out = Unit {0}

  find_reject-LeadsTo :
      (out : List (Edge N)) (to : Text) (max : Option ℕ) (on_max : Option OnMaxAttempts)
      → find_reject out ≡ some (to, max, on_max)
      → LeadsTo to out × RejectLeads on_max out
  unfolding find_reject as_reject
  find_reject-LeadsTo [] to max on_max h = cc
  find_reject-LeadsTo (e ∷ es) to max none h = ground (arith, find_reject-LeadsTo es to max none)
  find_reject-LeadsTo (e ∷ es) to max (some fail) h =
      ground (arith, find_reject-LeadsTo es to max (some fail))
  find_reject-LeadsTo (e ∷ es) to max (some (escalate t)) h =
      ground (arith, find_reject-LeadsTo es to max (some (escalate t)))

  -- An answer of a router, if it is a node, is a node to which an edge leads.
  abbrev pub Follows : List (Edge N) → Result Next → Type 0
  Follows out (ok (goto t)) = LeadsTo t out
  Follows out _ = Unit {0}

  route_error-Follows :
      (node_id : Text) (e : NodeExit) (out : List (Edge N))
      → Follows out (route_error node_id e out)
  unfolding route_error
  route_error-Follows node_id e out = elim (Option-cases (find (λ d. is_on_error d.kind) out)) [
    | inl none' ↦ rw (none', route_error) tt
    | inr (d, hit) ↦ rw (hit, route_error) (find-LeadsTo _ out d hit)
  ]

  route_reject-Follows :
      (node_id : Text) (attempts : ℕ) (out : List (Edge N))
      → (to : Text) (max : Option ℕ) (on_max : Option OnMaxAttempts) → LeadsTo to out
      → RejectLeads on_max out
      → Follows out (route_reject node_id attempts (to, max, on_max))
  unfolding route_reject
  route_reject-Follows node_id attempts out to max none h k =
      elim (Bool-cases (ltb attempts (or_default max default_max_attempts))) [
        | inl below ↦ rw below h
        | inr limit ↦ rw limit tt
      ]
  route_reject-Follows node_id attempts out to max (some fail) h k =
      elim (Bool-cases (ltb attempts (or_default max default_max_attempts))) [
        | inl below ↦ rw below h
        | inr limit ↦ rw limit tt
      ]
  route_reject-Follows node_id attempts out to max (some (escalate t)) h k =
      elim (Bool-cases (ltb attempts (or_default max default_max_attempts))) [
        | inl below ↦ rw below h
        | inr limit ↦ rw limit k
      ]

route_default-Follows : {N : Type 0} (out : List (Edge N)) → Follows out (ok (route_default out))
unfolding route_default
route_default-Follows out = elim (Option-cases (find (λ d. is_sequence d.kind) out)) [
  | inr (d, hit) ↦ rw (hit, route_default) (find-LeadsTo _ out d hit)
  | inl miss ↦ elim (Option-cases (find (λ d. is_fallback d.kind) out)) [
    | inr (d, hit) ↦ rw (miss, hit, route_default) (find-LeadsTo _ out d hit)
    | inl gone ↦ rw (miss, gone, route_default) tt
  ]
]

module _ (H : Host) (view : FlowState H.Num → Value H.Num) where
  open H use {Num}

  first_condition-LeadsTo :
      (s : FlowState Num) (out : List (Edge Num)) (t : Text)
      → first_condition H view s out ≡ ok (some t)
      → LeadsTo t out
  unfolding first_condition
  first_condition-LeadsTo s [] t h = cc
  first_condition-LeadsTo s (e ∷ es) t h = ground (arith, first_condition-LeadsTo s es t)

  route_success-Follows :
      (s : FlowState Num) (out : List (Edge Num)) → Follows out (route_success H view s out)
  unfolding route_success
  route_success-Follows s out = elim (Result-cases (first_condition H view s out)) [
    | inl (m, e) ↦ rw (e, route_success) tt
    | inr (some t, e) ↦ rw (e, route_success) (first_condition-LeadsTo s out t e)
    | inr (none, e) ↦ rw (e, route_success) (route_default-Follows out)
  ]

  route_exit-Follows :
      (node_id : Text) (out : List (Edge Num)) (s : FlowState Num) (e : NodeExit) (k : ExitKind)
      → Follows out (route_exit H view node_id out s e k)
  unfolding route_exit
  route_exit-Follows node_id out s e success = route_success-Follows s out
  route_exit-Follows node_id out s e error = route_error-Follows node_id e out
  route_exit-Follows node_id out s e rejected = elim (Option-cases (find_reject out)) [
    | inl miss ↦ rw (miss, route_exit) (route_success-Follows s out)
    | inr ((to, max, on_max), hit) ↦
        let (a, b) = find_reject-LeadsTo out to max on_max hit in
        rw (hit, route_exit)
          (route_reject-Follows node_id (attempts_of node_id s) out to max on_max a b)
  ]

  -- A router never leaves the drawn graph: the node that it names is the target of an outgoing edge
  -- of its node, or the node to which an outgoing reject edge escalates.
  pub build_router-LeadsTo :
      (node_id : Text) (out : List (Edge Num)) (s : FlowState Num) (t : Text)
      → build_router H view node_id out s ≡ ok (goto t)
      → LeadsTo t out
  build_router-LeadsTo node_id out s t h = subst (Follows out) h (routed s.last_exit refl)
    where
      routed :
          (o : Option NodeExit) → s.last_exit ≡ o → Follows out (build_router H view node_id out s)
      routed none e = unfold build_router in rw (e, build_router) (route_success-Follows s out)
      routed (some x) e =
          unfold build_router in rw (e, build_router) (route_exit-Follows node_id out s x x.kind)
