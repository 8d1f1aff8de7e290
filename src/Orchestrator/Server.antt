-- ===== src/Orchestrator/Server.antt =====
-- packages/harness-server/src/index.ts: what the server does with one job, from the call that starts
-- it (`fire` in handleCreateJob) on, and handleResumeJob. The control plane and the clean-up of the
-- job's memory, which are told too, are left out.
pub mod Slots
pub mod Pending
use agentx_platform.Prelude.{
  if◌then◌else◌, length, drop, Text, codes, lookup, insert, remove, Result, Bool, true, false, ◌||◌,
  Option, none, some, List, [], ◌∷◌, ◌++◌,
}
use agentx_platform.Dispatcher.{DispatcherState, on_job_terminal}
use agentx_platform.Tokens.Bus.{Attached, attach, detach}
use agentx_platform.Flow.Values.{Value}
use agentx_platform.Orchestrator.{
  Status, pending, running, awaiting_approval, suspended, completed, failed, cancelled, Notice,
  about_agent, about_job, Job,
}
use agentx_platform.Orchestrator.Jobs.{
  Invocation, Request, on_awaiting_approval, on_suspend, World, run_job, resume_job,
}

-- The part of the server's context that these handlers change.
pub record ServerCtx (N : Type 0) : Type 0 where
  pub dispatcher : DispatcherState
  pub tokens : Attached
  pub pending_approvals : List (Text × Value N)
  pub pending_suspends : List (Text × Value N)

pub data ResumeAnswer : Type 0 where
  not_found : ResumeAnswer
  not_paused : Status → ResumeAnswer
  no_broker : ResumeAnswer
  accepts : Bool → ResumeAnswer

unfoldable pub completed_or_failed : Status → Bool
completed_or_failed st = elim st [ completed ↦ true | failed ↦ true | _ ↦ false ]

unfoldable pub is_terminal : Status → Bool
unfolding completed_or_failed
is_terminal st = completed_or_failed st || elim st [ cancelled ↦ true | _ ↦ false ]

module _ {N : Type 0} where
  unfoldable pub clear_pending : Text → ServerCtx N → ServerCtx N
  unfolding remove
  clear_pending job_id ctx = record ctx {
    pending_approvals = remove job_id ctx.pending_approvals;
    pending_suspends = remove job_id ctx.pending_suspends;
  }

  -- The closure `onJobTerminal` of both handlers.
  unfoldable pub job_terminal : Text → Notice → ServerCtx N → ServerCtx N
  unfolding completed_or_failed clear_pending
  job_terminal job_id (about_agent _ _) ctx = ctx
  job_terminal job_id (about_job st) ctx =
      if completed_or_failed st
      then clear_pending job_id (record ctx { tokens = detach job_id ctx.tokens })
      else ctx

  -- The slot of the job is freed. The jobs that start are returned.
  unfoldable pub free_slot : Text → Notice → ServerCtx N → ServerCtx N × List Text
  unfolding is_terminal on_job_terminal
  free_slot job_id (about_agent _ _) ctx = (ctx, [])
  free_slot job_id (about_job st) ctx =
      if is_terminal st
      then (
        record ctx { dispatcher = (on_job_terminal ctx.dispatcher job_id).0 },
        (on_job_terminal ctx.dispatcher job_id).1,
      )
      else (ctx, [])

  -- `onStatusChange` of a run, for each notice in order.
  unfoldable pub watch_run : Text → List Notice → ServerCtx N → ServerCtx N × List Text
  unfolding job_terminal free_slot
  watch_run job_id [] ctx = (ctx, [])
  watch_run job_id (n ∷ ns) ctx =
      let (ctx', started) = free_slot job_id n (job_terminal job_id n ctx) in
      let (ctx'', later) = watch_run job_id ns ctx' in (ctx'', started ++ later)

  -- `onStatusChange` of a resumption.
  unfoldable pub watch_resume : Text → List Notice → ServerCtx N → ServerCtx N
  unfolding job_terminal
  watch_resume job_id [] ctx = ctx
  watch_resume job_id (n ∷ ns) ctx = watch_resume job_id ns (job_terminal job_id n ctx)

  -- `onAwaitingApproval` and `onSuspend`.
  unfoldable pub keep_requests : Text → List (Request N) → ServerCtx N → ServerCtx N
  unfolding insert
  keep_requests job_id [] ctx = ctx
  keep_requests job_id (on_awaiting_approval v ∷ rs) ctx =
      keep_requests job_id rs
        (record ctx { pending_approvals = insert job_id v ctx.pending_approvals })
  keep_requests job_id (on_suspend v ∷ rs) ctx =
      keep_requests job_id rs
        (record ctx { pending_suspends = insert job_id v ctx.pending_suspends })

  abbrev pub told_of : World N → List Notice
  told_of w = elim w.job [ none ↦ [] | some j ↦ j.told ]

  -- What a call has told since `before`, and the requests that it has made since.
  abbrev pub told_since : World N → World N → List Notice
  told_since before after = drop (length (told_of before)) (told_of after)

  abbrev pub asked_since : World N → World N → List (Request N)
  asked_since before after = drop (length before.requests) after.requests

  -- The closure `fire`: it runs the job, and lets a promise that is rejected be. A request is made
  -- after all that is told in the same call.
  unfoldable pub fire :
      Text
      → Result (Unit {0})
      → Invocation N
      → World N × ServerCtx N
      → (World N × ServerCtx N) × List Text
  unfolding run_job watch_run keep_requests
  fire job_id compiled i (w, ctx) =
      let after = (run_job compiled i w).0 in
      let (ctx', started) = watch_run job_id (told_since w after) ctx in
      ((after, keep_requests job_id (asked_since w after) ctx'), started)

  -- The body after the guards. `h` is the closure that subscribes to the bus, if one is made.
  unfoldable pub resume : Text → Text → Invocation N → World N × ServerCtx N → World N × ServerCtx N
  unfolding resume_job watch_resume keep_requests clear_pending
  resume job_id h i (w, ctx) =
      let cleared = clear_pending job_id ctx in
      let attached = record cleared { tokens = attach job_id h ctx.tokens } in
      let after = (resume_job job_id i w).0 in
      (
        after,
        keep_requests job_id (asked_since w after)
            (watch_resume job_id (told_since w after) attached),
      )

  unfoldable pub resume_paused :
      Text
      → Bool
      → Text
      → Invocation N
      → Bool
      → World N × ServerCtx N
      → (World N × ServerCtx N) × ResumeAnswer
  unfolding resume
  resume_paused job_id true h i was_approval s = (resume job_id h i s, accepts was_approval)
  resume_paused job_id false h i was_approval s = (s, no_broker)

  unfoldable pub resume_found :
      Text
      → Bool
      → Text
      → Invocation N
      → Option Status
      → World N × ServerCtx N
      → (World N × ServerCtx N) × ResumeAnswer
  unfolding resume_paused
  resume_found job_id broker h i none s = (s, not_found)
  resume_found job_id broker h i (some awaiting_approval) s = resume_paused job_id broker h i true s
  resume_found job_id broker h i (some suspended) s = resume_paused job_id broker h i false s
  resume_found job_id broker h i (some other) s = (s, not_paused other)

  abbrev pub status_of : World N → Option Status
  status_of w = elim w.job [ none ↦ none | some j ↦ some j.status ]

  -- `broker` tells whether the server has one.
  unfoldable pub handle_resume_job :
      Text
      → Bool
      → Text
      → Invocation N
      → World N × ServerCtx N
      → (World N × ServerCtx N) × ResumeAnswer
  unfolding resume_found
  handle_resume_job job_id broker h i s = resume_found job_id broker h i (status_of s.0) s

  -- A sequence of requests to resume the job, each with its own closure and call of the graph.
  unfoldable pub handle_resumes :
      Text → List (Bool × Text × Invocation N) → World N × ServerCtx N → World N × ServerCtx N
  unfolding handle_resume_job
  handle_resumes job_id [] s = s
  handle_resumes job_id ((broker, h, i) ∷ rs) s =
      handle_resumes job_id rs ((handle_resume_job job_id broker h i s).0)
