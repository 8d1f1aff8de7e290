-- ===== src/Flow/Gate/Cycle.antt =====
-- The cycle of a gate that rejects: executor, reducers and router of
-- packages/harness-core/src/flow-graph.ts together.
use agentx_platform.Prelude.{
  lt→ltb, le→not_ltb, or_default, All, Text, codes, same_refl, join, lookup-insert, Result, ok,
  throws, ◌>>=◌, ℕ, ◌+◌, ◌≤◌, ◌<◌, max, ◌≡◌, refl, sym, ap, subst, ◌∙◌, ◌↔◌, ◌⊎◌, inl, inr, true,
  false, Option, none, some, List, [], ◌∷◌, map, arith,
}
use agentx_platform.Flow.Values.{Value, Host}
use agentx_platform.Flow.Expressions.{Expression, eval_expression}
use agentx_platform.Flow.State.{
  NodeExit, success_exit, reject_exit, failed_assertions, FlowState, Delta, no_delta,
  merge_attempts, apply_delta, attempts_of,
}
use agentx_platform.Flow.Edges.{OnMaxAttempts, fail, escalate, Edge}
use agentx_platform.Flow.Router.{
  Next, goto, find_reject, default_max_attempts, limit_message, route_reject, route_exit,
  build_router,
}
use agentx_platform.Flow.Gate.{failures, rejection_of, gate_delta, gate_executor}

pub attempts_of-apply :
    {N : Type 0} (node_id : Text) (n : ℕ) (s : FlowState N) (d : Delta N)
    → d.attempts_to ≡ some ((node_id, n) ∷ [])
    → attempts_of node_id (apply_delta s d) ≡ n
unfolding attempts_of apply_delta merge_attempts
attempts_of-apply node_id n s d e =
    rw e (rw (lookup-insert node_id node_id n s.attempts, same_refl node_id) refl)

module _ (H : Host) (view : FlowState H.Num → Value H.Num) where
  open H use {Num}

  -- The assertions that evaluate to false.
  abbrev pub FailsAll : FlowState Num → List (Text × Expression Num) → Type 0
  FailsAll s = All λ f. eval_expression H (view s) f.1 ≡ ok false

  -- Every assertion holds.
  abbrev pub HoldsAll : FlowState Num → List (Text × Expression Num) → Type 0
  HoldsAll s = All λ f. eval_expression H (view s) f.1 ≡ ok true

  failures-HoldsAll :
      (s : FlowState Num) (as' : List (Text × Expression Num))
      → failures H view s as' ≡ ok []
      → HoldsAll s as'
  unfolding failures
  failures-HoldsAll s [] h = tt
  failures-HoldsAll s ((m, e) ∷ more) h = ground (arith, failures-HoldsAll s more)

  HoldsAll-failures :
      (s : FlowState Num) (as' : List (Text × Expression Num))
      → HoldsAll s as'
      → failures H view s as' ≡ ok []
  unfolding failures
  HoldsAll-failures s [] h = refl
  HoldsAll-failures s ((m, e) ∷ more) h = rw (h.0, HoldsAll-failures s more h.1) refl

  gate_delta-success :
      (node_id : Text) (s : FlowState Num) (failed : List (Text × Expression Num))
      → (gate_delta H view node_id s failed).exit_to ≡ some (success_exit node_id)
      → failed ≡ []
  unfolding gate_delta
  gate_delta-success node_id s [] h = refl
  gate_delta-success node_id s (f ∷ fs) h = ground arith

  success_only :
      (node_id : Text) (s : FlowState Num) (r : Result (List (Text × Expression Num)))
      → (r >>= λ failed. ok (gate_delta H view node_id s failed))
        ≡ ok (record no_delta { exit_to = some (success_exit node_id) })
      → r ≡ ok []
  success_only node_id s (throws m) h = cc
  success_only node_id s (ok fs) h = ap ok (gate_delta-success node_id s fs (ap (λ r. exit_of r) h))
    where
      exit_of : Result (Delta Num) → Option NodeExit
      exit_of (ok d) = d.exit_to
      exit_of (throws m) = none

  -- A gate lets the flow pass exactly when every assertion holds, and then it writes nothing but its
  -- exit.
  pub gate_executor-success :
      (node_id : Text) (as' : List (Text × Expression Num)) (s : FlowState Num)
      → (gate_executor H view node_id as' s
          ≡ ok (record no_delta { exit_to = some (success_exit node_id) }))
        ↔ HoldsAll s as'
  unfolding gate_executor gate_delta
  gate_executor-success node_id as' s = (
    λ h. failures-HoldsAll s as' (success_only node_id s (failures H view s as') h),
    λ h. rw (HoldsAll-failures s as' h) refl,
  )

  -- How a router answers when the attempts are used up.
  abbrev pub UsedUp : Option OnMaxAttempts → Result Next → Type 0
  UsedUp (some (escalate t)) r = r ≡ ok (goto t)
  UsedUp _ r = (m : Text) × (r ≡ throws m)

  pub route_reject-limit :
      (node_id : Text) (k : ℕ) (to : Text) (max : Option ℕ) (on_max : Option OnMaxAttempts)
      → or_default max default_max_attempts ≤ k
      → UsedUp on_max (route_reject node_id k (to, max, on_max))
  unfolding route_reject limit_message
  route_reject-limit node_id k to max none h =
      (limit_message node_id k (or_default max 3), rw (le→not_ltb _ k h) refl)
  route_reject-limit node_id k to max (some fail) h =
      (limit_message node_id k (or_default max 3), rw (le→not_ltb _ k h) refl)
  route_reject-limit node_id k to max (some (escalate t)) h = rw (le→not_ltb _ k h) refl

  pub routes-rejected :
      (node_id : Text) (out : List (Edge Num)) (s : FlowState Num) (d : Delta Num)
      → (r : Text × Option ℕ × Option OnMaxAttempts) (k : ℕ) → find_reject out ≡ some r
      → d.exit_to ≡ some (reject_exit node_id)
      → attempts_of node_id (apply_delta s d) ≡ k
      → build_router H view node_id out (apply_delta s d) ≡ route_reject node_id k r
  routes-rejected node_id out s d r k edge e c =
      unfold build_router in
      rw (last, build_router, route_exit, edge) (ap (λ n. route_reject node_id n r) c)
    where
      last : (apply_delta s d).last_exit ≡ some (reject_exit node_id)
      last = unfold apply_delta in rw e refl

  -- These, in order, are the assertions that evaluate to false; the others evaluate to true.
  abbrev pub Failing :
      FlowState Num → List (Text × Expression Num) → List (Text × Expression Num) → Type 0
  Failing s [] [] = Unit
  Failing s [] (f ∷ fs) = ⊥
  Failing s (a ∷ as') [] = (eval_expression H (view s) a.1 ≡ ok true) × Failing s as' []
  Failing s (a ∷ as') (f ∷ fs) =
      ((eval_expression H (view s) a.1 ≡ ok true) × Failing s as' (f ∷ fs))
      ⊎ ((eval_expression H (view s) a.1 ≡ ok false) × (a ≡ f) × Failing s as' fs)

  failures-Failing :
      (s : FlowState Num) (as' fs : List (Text × Expression Num))
      → Failing s as' fs
      → failures H view s as' ≡ ok fs
  unfolding failures
  failures-Failing s [] [] h = refl
  failures-Failing s [] (f ∷ fs) h = absurd h
  failures-Failing s (a ∷ as') [] (e, h) = rw (e, failures-Failing s as' [] h) refl
  failures-Failing s (a ∷ as') (f ∷ fs) (inl (e, h)) =
      rw (e, failures-Failing s as' (f ∷ fs) h) refl
  failures-Failing s (a ∷ as') (f ∷ fs) (inr (e, same_one, h)) =
      rw (e, failures-Failing s as' fs h) (ap (λ x. ok (x ∷ fs)) same_one)

  -- A gate of which assertions fail, and none throws, rejects: it counts the attempt, and the
  -- rejection has the messages of the failed assertions, joined, as its reason, those assertions, in
  -- order, as its findings, no steering text, and the number of the attempt. The router then goes
  -- back along the reject edge exactly while the attempts counted so far stay below the edge's limit
  -- (3 if it states none), and from then on escalates or throws.
  pub gate_cycle :
      (node_id : Text) (as' : List (Text × Expression Num)) (s : FlowState Num)
      → (out : List (Edge Num)) (to : Text) (max : Option ℕ) (on_max : Option OnMaxAttempts)
      → (f : Text × Expression Num) (fs : List (Text × Expression Num)) → Failing s as' (f ∷ fs)
      → find_reject out ≡ some (to, max, on_max)
      → let k = attempts_of node_id s + 1 in
        let d : Delta Num = record no_delta {
          attempts_to = some ((node_id, k) ∷ []);
          exit_to = some (reject_exit node_id);
          rejection_to = some (record {
            reason = join (codes "; ") (f.0 ∷ map (λ g. g.0) fs);
            steering_text = none;
            findings = some (failed_assertions (f ∷ fs));
            attempt = k;
          });
        } in
        let s' = apply_delta s d in
        let limit = or_default max default_max_attempts in
        (gate_executor H view node_id as' s ≡ ok d)
        × (attempts_of node_id s' ≡ k)
        × (k < limit → build_router H view node_id out s' ≡ ok (goto to))
        × (limit ≤ k → UsedUp on_max (build_router H view node_id out s'))
  gate_cycle node_id as' s out to max on_max f fs bad edge =
      let d : Delta Num = record no_delta {
        attempts_to = some ((node_id, attempts_of node_id s + 1) ∷ []);
        exit_to = some (reject_exit node_id);
        rejection_to = some (record {
          reason = join (codes "; ") (f.0 ∷ map (λ g. g.0) fs);
          steering_text = none;
          findings = some (failed_assertions (f ∷ fs));
          attempt = attempts_of node_id s + 1;
        });
      } in
      let s' = apply_delta s d in
      let k = attempts_of node_id s + 1 in
      let counted : attempts_of node_id s' ≡ k = attempts_of-apply node_id k s d refl in
      let routed : build_router H view node_id out s' ≡ route_reject node_id k (to, max, on_max) =
        routes-rejected node_id out s d (to, max, on_max) k edge refl counted in
      (
        unfold gate_executor gate_delta rejection_of in
            rw (failures-Failing s as' (f ∷ fs) bad) refl,
        counted,
        λ below. routed ∙ (unfold route_reject in rw (lt→ltb k _ below) refl),
        λ above.
            subst (UsedUp on_max) (sym routed) (route_reject-limit node_id k to max on_max above),
      )
