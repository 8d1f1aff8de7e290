-- ===== src/Flow/Interrupts/Decisions.antt =====
-- What the decision of a reviewer does to a flow of packages/harness-core/src/flow-graph.ts.
use agentx_platform.Prelude.{
  lt→ltb, Bool-cases, or_default, length, length-append, Text, codes, same, same_refl, same→eq,
  Result, ok, ℕ, ◌+◌, ◌≤◌, ◌<◌, max, ◌≡◌, refl, sym, ap, subst, ◌∙◌, inl, inr, false, Option, none,
  some, List, [], ◌∷◌, ◌++◌, arith,
}
use agentx_platform.Flow.Values.{Value, Host}
use agentx_platform.Flow.State.{
  NodeExit, success_exit, reject_exit, RejectionPayload, FlowState, Delta, no_delta, rejections,
  apply_delta, attempts_of,
}
use agentx_platform.Flow.Edges.{OnMaxAttempts, Edge, ApprovalTag, approval_node, TaskStep}
use agentx_platform.Flow.Rewrite.{approval_suffix, approval_of, synthetic_of}
use agentx_platform.Flow.Router.{
  Next, goto, find_reject, default_max_attempts, route_reject, route_success, route_exit,
  build_router,
}
use agentx_platform.Flow.Gate.Cycle.{attempts_of-apply, UsedUp, route_reject-limit, routes-rejected}
use agentx_platform.Flow.Interrupts.{
  approve, reject, ApprovalResume, ApprovalRequest, asks_approval, strip_suffix, if_not_empty,
  as_text, as_findings, approval_request, approval_delta, approval_executor,
}

too_long : (c : ℕ) (s suffix : Text) → same (c ∷ (s ++ suffix)) suffix ≡ false
too_long c s suffix = elim (Bool-cases (same (c ∷ (s ++ suffix)) suffix)) [
  | inr e ↦ e
  | inl e ↦
      absurd
        (omega (arith, ap length (same→eq (c ∷ (s ++ suffix)) suffix e), length-append s suffix))
]

-- The suffix that was put behind an id is what is taken off.
strip_suffix-append :
    (suffix id : Text) → 0 < length suffix → strip_suffix suffix (id ++ suffix) ≡ id
unfolding strip_suffix
strip_suffix-append [] [] h = refl
strip_suffix-append (c ∷ s) [] h = rw (same_refl (c ∷ s)) refl
strip_suffix-append suffix (c ∷ s) h =
    rw (too_long c s suffix) (ap (◌∷◌ c) (strip_suffix-append suffix s h))

synthetic-approval :
    {N : Type 0} (n i : TaskStep N) (tag : ApprovalTag N)
    → approval_of n ≡ some tag
    → synthetic_of n ≡ some i
    → (i.id ≡ n.id ++ approval_suffix) × (i.synthetic ≡ some (approval_node tag))
unfolding synthetic_of
synthetic-approval n i tag e h = ground arith

-- What an approved or rejected steering adds to the steering of the agents that follow.
abbrev pub forwarded : {N : Type 0} → Value N → List Text
forwarded v = elim (if_not_empty (as_text v)) [ none ↦ [] | some t ↦ t ∷ [] ]

module _ (H : Host) where
  open H use {Num}

  -- The node behind a node with an approval tag interrupts when it is first run, and asks under the
  -- id of the tagged node, with the output and all changes so far, for the attempt after those
  -- counted.
  pub approval_executor-asks :
      (n i : TaskStep Num) (tag : ApprovalTag Num) (s : FlowState Num)
      → approval_of n ≡ some tag
      → synthetic_of n ≡ some i
      → (i.synthetic ≡ some (approval_node tag))
        × ((q : ApprovalRequest Num) × (approval_executor H i.id tag s none ≡ asks_approval q)
            × (q.node_id ≡ n.id)
            × (q.content ≡ s.output)
            × (q.changes ≡ s.changed_files)
            × (q.attempt ≡ attempts_of i.id s + 1))
  unfolding approval_executor approval_request
  approval_executor-asks n i tag s e h =
      let (a, b) = synthetic-approval n i tag e h in
      (
        b,
        (
          approval_request H i.id tag s,
          refl,
          ap (strip_suffix approval_suffix) a
              ∙ strip_suffix-append approval_suffix n.id (omega arith),
          refl,
          refl,
          refl,
        ),
      )

module _ (H : Host) (view : FlowState H.Num → Value H.Num) where
  open H use {Num}

  abbrev approved_delta : Text → FlowState Num → Value Num → Delta Num
  approved_delta node_id s steering = record no_delta {
    attempts_to = some ((node_id, attempts_of node_id s + 1) ∷ []);
    exit_to = some (success_exit node_id);
    steering_to = elim (if_not_empty (as_text steering)) [ none ↦ none | some t ↦ some (t ∷ []) ];
  }

  approval_delta-approved :
      (node_id : Text) (s : FlowState Num) (r : ApprovalResume Num)
      → r.decision ≡ approve
      → approval_delta H node_id s r ≡ approved_delta node_id s r.steering
  unfolding approval_delta
  approval_delta-approved node_id s r h = rw h refl

  abbrev rejection : Text → FlowState Num → Value Num → RejectionPayload Num
  rejection node_id s steering = record {
    reason = codes "rejected by reviewer";
    steering_text = as_text steering;
    findings = as_findings steering;
    attempt = attempts_of node_id s + 1;
  }

  approval_delta-rejected :
      (node_id : Text) (s : FlowState Num) (r : ApprovalResume Num)
      → r.decision ≡ reject
      → approval_delta H node_id s r ≡ record no_delta {
        attempts_to = some ((node_id, attempts_of node_id s + 1) ∷ []);
        exit_to = some (reject_exit node_id);
        rejection_to = some (rejection node_id s r.steering);
      }
  unfolding approval_delta
  approval_delta-rejected node_id s r h = rw h refl

  handed_on :
      (old : List Text) (o : Option Text)
      → old ++ or_default (elim o [ none ↦ none | some t ↦ some (t ∷ []) ]) []
        ≡ old ++ elim o [ none ↦ [] | some t ↦ t ∷ [] ]
  handed_on old none = refl
  handed_on old (some t) = refl

  success_route :
      (node_id : Text) (s : FlowState Num) (out : List (Edge Num))
      → s.last_exit ≡ some (success_exit node_id)
      → build_router H view node_id out s ≡ route_success H view s out
  unfolding build_router route_exit
  success_route node_id s out e =
      ap {A = Option NodeExit} {B = Result Next}
        (λ o. elim o [
          | none ↦ route_success H view s out
          | some x ↦ route_exit H view node_id out s x x.kind
        ])
        e

  -- After an approval the router takes the success way, never the reject or the error edge; the
  -- attempt is counted, a steering text that is not empty is handed on, and the output and the last
  -- rejection stay as they were.
  pub approval_delta-approve :
      (node_id : Text) (s : FlowState Num) (r : ApprovalResume Num) (out : List (Edge Num))
      → r.decision ≡ approve
      → let s' = apply_delta s (approval_delta H node_id s r) in
        (build_router H view node_id out s' ≡ route_success H view s' out)
        × (attempts_of node_id s' ≡ attempts_of node_id s + 1)
        × (s'.steering ≡ s.steering ++ forwarded r.steering)
        × (s'.output ≡ s.output)
        × (s'.rejection_payload ≡ s.rejection_payload)
  approval_delta-approve node_id s r out h =
      let d = approved_delta node_id s r.steering in
      rw (approval_delta-approved node_id s r h) (
        success_route node_id (apply_delta s d) out (unfold apply_delta in refl),
        attempts_of-apply node_id (attempts_of node_id s + 1) s d refl,
        unfold apply_delta in handed_on s.steering (if_not_empty (as_text r.steering)),
        unfold apply_delta in refl,
        unfold apply_delta in refl,
      )

  -- After a rejection the attempt is counted and the reviewer's text stands in the rejection; the
  -- router goes back along the reject edge exactly while the attempts counted so far stay below the
  -- edge's limit (3 if it states none), and from then on escalates or throws.
  pub approval_delta-reject :
      (node_id : Text) (s : FlowState Num) (r : ApprovalResume Num) (out : List (Edge Num))
      → (to : Text) (max : Option ℕ) (on_max : Option OnMaxAttempts) → r.decision ≡ reject
      → find_reject out ≡ some (to, max, on_max)
      → let s' = apply_delta s (approval_delta H node_id s r) in
        let k = attempts_of node_id s + 1 in
        let limit = or_default max default_max_attempts in
        (attempts_of node_id s' ≡ k)
        × ((p : RejectionPayload Num) × (s'.rejection_payload ≡ some p)
            × (p.attempt ≡ k)
            × (p.steering_text ≡ as_text r.steering))
        × (k < limit → build_router H view node_id out s' ≡ ok (goto to))
        × (limit ≤ k → UsedUp H view on_max (build_router H view node_id out s'))
  approval_delta-reject node_id s r out to max on_max h edge =
      let d = approval_delta H node_id s r in
      let s' = apply_delta s d in
      let k = attempts_of node_id s + 1 in
      let e = approval_delta-rejected node_id s r h in
      let counted : attempts_of node_id s' ≡ k =
        attempts_of-apply node_id k s d (ap (λ (t : Delta Num). t.attempts_to) e) in
      let routed : build_router H view node_id out s' ≡ route_reject node_id k (to, max, on_max) =
        routes-rejected H view node_id out s d (to, max, on_max) k edge
          (ap (λ (t : Delta Num). t.exit_to) e) counted in
      (
        counted,
        (
          rejection node_id s r.steering,
          unfold apply_delta in
              ap (λ o. rejections o s.rejection_payload) (ap (λ (t : Delta Num). t.rejection_to) e),
          refl,
          refl,
        ),
        λ below. routed ∙ (unfold route_reject in rw (lt→ltb k _ below) refl),
        λ above.
            subst (UsedUp H view on_max) (sym routed)
              (route_reject-limit H view node_id k to max on_max above),
      )
