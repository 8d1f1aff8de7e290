-- ===== src/Flow/Router/Total.antt =====
-- When the routers of packages/harness-core/src/flow-graph.ts do not throw.
use agentx_platform.Prelude.{
  ltb, if◌then◌else◌, lt→ltb, Option-cases, &&-eq_true, or_default, is_some, find, Text, ok,
  Returns, ℕ, ◌<◌, max, ◌≡◌, refl, subst, inl, inr, Bool, true, ◌&&◌, Option, none, some, List, [],
  ◌∷◌, arith,
}
use agentx_platform.Flow.Values.{Value, Host}
use agentx_platform.Flow.Expressions.Laws.{is_safe, expressions_return}
use agentx_platform.Flow.State.{
  ExitKind, success, error, rejected, NodeExit, FlowState, attempts_of,
}
use agentx_platform.Flow.Edges.{
  OnMaxAttempts, fail, escalate, EdgeKind, sequence, fallback, on_error, conditional, on_reject,
  Edge,
}
use agentx_platform.Flow.Router.{
  goto, is_on_error, find_reject, default_max_attempts, route_reject, route_error, route_default,
  first_condition, route_success, route_exit, build_router,
}

module _ (H : Host) (state : Value H.Num) where
  abbrev condition_safe : EdgeKind H.Num → Bool
  condition_safe (conditional c) = is_safe H state c
  condition_safe _ = true

  -- No condition has a part of kind `js`, or an order comparison of objects, arrays or functions.
  abbrev pub conditions_safe : List (Edge H.Num) → Bool
  conditions_safe [] = true
  conditions_safe (e ∷ es) = condition_safe e.kind && conditions_safe es

-- The reject edge, if there is one, has an attempt left or a node to escalate to.
abbrev pub HasWay : ℕ → Option (Text × Option ℕ × Option OnMaxAttempts) → Type 0
HasWay attempts none = Unit {0}
HasWay attempts (some (to, max, some (escalate t))) = Unit {0}
HasWay attempts (some (to, max, on_max)) = attempts < or_default max default_max_attempts

-- The exit has an edge: an error needs an error edge, a rejection an attempt.
abbrev pub Handled : {N : Type 0} → Text → List (Edge N) → FlowState N → ExitKind → Type 0
Handled node_id out s success = Unit {0}
Handled node_id out s error = is_some (find (λ d. is_on_error d.kind) out) ≡ true
Handled node_id out s rejected = HasWay (attempts_of node_id s) (find_reject out)

abbrev pub LastHandled :
    {N : Type 0} → Text → List (Edge N) → FlowState N → Option NodeExit → Type 0
LastHandled node_id out s none = Unit {0}
LastHandled node_id out s (some e) = Handled node_id out s e.kind

route_reject-Returns :
    (node_id : Text) (attempts : ℕ) (r : Text × Option ℕ × Option OnMaxAttempts)
    → HasWay attempts (some r)
    → Returns (route_reject node_id attempts r)
unfolding route_reject
route_reject-Returns node_id attempts (to, max, none) h =
    (goto to, rw (lt→ltb attempts (or_default max 3) h) refl)
route_reject-Returns node_id attempts (to, max, some fail) h =
    (goto to, rw (lt→ltb attempts (or_default max 3) h) refl)
route_reject-Returns node_id attempts (to, max, some (escalate t)) h =
    (goto (if ltb attempts (or_default max 3) then to else t), ground arith)

module _ (H : Host) (view : FlowState H.Num → Value H.Num) where
  open H use {Num}

  first_condition-Returns :
      (s : FlowState Num) (out : List (Edge Num))
      → conditions_safe H (view s) out ≡ true
      → Returns (first_condition H view s out)
  unfolding first_condition
  first_condition-Returns s [] h = (none, refl)
  first_condition-Returns s (e ∷ es) h =
      let (a, b) =
        &&-eq_true (condition_safe H (view s) e.kind) (conditions_safe H (view s) es) h in
      step e.kind refl a (first_condition-Returns s es b)
    where
      step :
          (k : EdgeKind Num)
          → e.kind ≡ k
          → condition_safe H (view s) e.kind ≡ true
          → Returns (first_condition H view s es)
          → Returns (first_condition H view s (e ∷ es))
      step sequence p a r = rw (p, first_condition) r
      step fallback p a r = rw (p, first_condition) r
      step on_error p a r = rw (p, first_condition) r
      step (on_reject m o) p a r = rw (p, first_condition) r
      step (conditional c) p a (m, r) =
          let (v, q) = (expressions_return H (view s) c (rw p at a)).0 in
          (if v then some e.target else m, ground (arith, p, q, r))

  route_success-Returns :
      (s : FlowState Num) (out : List (Edge Num))
      → conditions_safe H (view s) out ≡ true
      → Returns (route_success H view s out)
  unfolding route_success
  route_success-Returns s out h =
      (elim (first_condition-Returns s out h).0
          as (λ m. first_condition H view s out ≡ ok m → Returns (route_success H view s out)) [
            | some t ↦ λ e. (goto t, rw e refl)
            | none ↦ λ e. (route_default out, rw e refl)
          ])
        (first_condition-Returns s out h).1

  route_exit-Returns :
      (node_id : Text) (out : List (Edge Num)) (s : FlowState Num) (e : NodeExit) (k : ExitKind)
      → conditions_safe H (view s) out ≡ true
      → Handled node_id out s k
      → Returns (route_exit H view node_id out s e k)
  unfolding route_exit
  route_exit-Returns node_id out s e success h w = route_success-Returns s out h
  route_exit-Returns node_id out s e error h w =
      elim (Option-cases (find (λ d. is_on_error d.kind) out)) [
        | inl miss ↦ absurd (ground (arith, w, miss))
        | inr (d, hit) ↦ (goto d.target, rw (hit, route_error) refl)
      ]
  route_exit-Returns node_id out s e rejected h w = elim (Option-cases (find_reject out)) [
    | inl miss ↦ rw (miss, route_exit) (route_success-Returns s out h)
    | inr (r, hit) ↦
        rw (hit, route_exit)
          (route_reject-Returns node_id (attempts_of node_id s) r
            (subst (HasWay (attempts_of node_id s)) hit w))
  ]

  -- The router of a node names a way to go on when its conditions have no part of kind `js` and
  -- compare the order of no objects, arrays and functions, an error exit meets an error edge, and a
  -- rejection that meets a reject edge has an attempt left or a node to escalate to.
  pub build_router-Returns :
      (node_id : Text) (out : List (Edge Num)) (s : FlowState Num)
      → conditions_safe H (view s) out ≡ true
      → LastHandled node_id out s s.last_exit
      → Returns (build_router H view node_id out s)
  build_router-Returns node_id out s h w = routed s.last_exit refl
    where
      routed : (o : Option NodeExit) → s.last_exit ≡ o → Returns (build_router H view node_id out s)
      routed none e = unfold build_router in rw (e, build_router) (route_success-Returns s out h)
      routed (some x) e =
          unfold build_router in
          rw (e, build_router)
            (route_exit-Returns node_id out s x x.kind h (subst (LastHandled node_id out s) e w))
