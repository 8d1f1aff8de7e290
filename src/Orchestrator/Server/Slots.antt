-- ===== src/Orchestrator/Server/Slots.antt =====
-- When a job gives back its slot: the hooks of packages/harness-server/src/index.ts on its dispatcher.
use agentx_platform.Prelude.{
  if◌then◌else◌, Bool-cases, Text, has, has-delete_self, has-append_left, Result, ◌≡◌, refl, ap,
  ◌∙◌, inl, inr, Bool, true, false, not, ◌||◌, Option, none, some, List, [], ◌∷◌,
}
use agentx_platform.Dispatcher.{DispatcherState, on_job_terminal, queue_ids}
use agentx_platform.Dispatcher.Bounds.{held, IsValid}
use agentx_platform.Dispatcher.Held.{held-on_job_terminal}
use agentx_platform.Tokens.Bus.{attach}
use agentx_platform.Orchestrator.{
  Status, pending, received, running, awaiting_approval, suspended, completed, failed, cancelled,
  Notice, about_agent, about_job,
}
use agentx_platform.Orchestrator.Jobs.{
  Invocation, Request, on_awaiting_approval, on_suspend, World, run_job, resume_job,
}
use agentx_platform.Orchestrator.Server.{
  ServerCtx, completed_or_failed, is_terminal, clear_pending, job_terminal, free_slot, watch_run,
  watch_resume, keep_requests, told_since, asked_since, fire, resume, resume_paused, resume_found,
  status_of, handle_resume_job, handle_resumes,
}
use agentx_platform.Orchestrator.Live.{if-Has}

-- Whether the end of the job is among the notices.
abbrev pub tells_end : List Notice → Bool
tells_end [] = false
tells_end (about_agent _ _ ∷ ns) = tells_end ns
tells_end (about_job st ∷ ns) = is_terminal st || tells_end ns

-- What a notice does to the dispatcher in a run.
abbrev noticed : Text → Notice → DispatcherState → DispatcherState
noticed job_id (about_agent _ _) d = d
noticed job_id (about_job st) d = if is_terminal st then (on_job_terminal d job_id).0 else d

abbrev all_noticed : Text → List Notice → DispatcherState → DispatcherState
all_noticed job_id [] d = d
all_noticed job_id (n ∷ ns) d = all_noticed job_id ns (noticed job_id n d)

on_job_terminal-frees :
    (job_id : Text) (d : DispatcherState)
    → IsValid d
    → has job_id (on_job_terminal d job_id).0.in_flight ≡ false
unfolding on_job_terminal
on_job_terminal-frees job_id d v = elim (Bool-cases (has job_id d.in_flight)) [
  | inl runs ↦
      has-append_left job_id ((on_job_terminal d job_id).0.in_flight)
        (queue_ids (on_job_terminal d job_id).0)
        (ap (has job_id) (held-on_job_terminal d job_id v)
          ∙ rw runs (has-delete_self job_id (held d) v.distinct))
  | inr gone ↦ rw gone gone
]

on_job_terminal-gone :
    (job_id : Text) (d : DispatcherState)
    → has job_id d.in_flight ≡ false
    → has job_id (on_job_terminal d job_id).0.in_flight ≡ false
unfolding on_job_terminal
on_job_terminal-gone job_id d gone = rw gone gone

-- With no slot none is given back, so none is taken.
all_noticed-gone :
    (job_id : Text) (ns : List Notice) (d : DispatcherState)
    → has job_id d.in_flight ≡ false
    → has job_id (all_noticed job_id ns d).in_flight ≡ false
all_noticed-gone job_id [] d g = g
all_noticed-gone job_id (about_agent _ _ ∷ ns) d g = all_noticed-gone job_id ns d g
all_noticed-gone job_id (about_job st ∷ ns) d g =
    all_noticed-gone job_id ns (noticed job_id (about_job st) d) (
      if-Has (λ (e : DispatcherState). has job_id e.in_flight ≡ false) (is_terminal st)
        (λ _. on_job_terminal-gone job_id d g) (λ _. g))

all_noticed-slot :
    (job_id : Text) (ns : List Notice) (d : DispatcherState)
    → IsValid d
    → has job_id d.in_flight ≡ true
    → has job_id (all_noticed job_id ns d).in_flight ≡ not (tells_end ns)
all_noticed-slot job_id [] d v h = h
all_noticed-slot job_id (about_agent _ _ ∷ ns) d v h = all_noticed-slot job_id ns d v h
all_noticed-slot job_id (about_job st ∷ ns) d v h =
    pass (is_terminal st) (all_noticed-slot job_id ns d v h)
  where
    pass :
        (b : Bool)
        → has job_id (all_noticed job_id ns d).in_flight ≡ not (tells_end ns)
        → has job_id
            (all_noticed job_id ns (if b then (on_job_terminal d job_id).0 else d)).in_flight
          ≡ not (b || tells_end ns)
    pass true ih =
        all_noticed-gone job_id ns ((on_job_terminal d job_id).0) (on_job_terminal-frees job_id d v)
    pass false ih = ih

module _ {N : Type 0} where
  abbrev pub has_slot : Text → ServerCtx N → Bool
  has_slot job_id ctx = has job_id ctx.dispatcher.in_flight

  job_terminal-dispatcher :
      (job_id : Text) (n : Notice) (ctx : ServerCtx N)
      → (job_terminal job_id n ctx).dispatcher ≡ ctx.dispatcher
  unfolding job_terminal clear_pending
  job_terminal-dispatcher job_id (about_agent _ _) ctx = refl
  job_terminal-dispatcher job_id (about_job st) ctx =
      if-Has (λ (c : ServerCtx N). c.dispatcher ≡ ctx.dispatcher) (completed_or_failed st)
        (λ _. refl) (λ _. refl)

  keep_requests-dispatcher :
      (job_id : Text) (rs : List (Request N)) (ctx : ServerCtx N)
      → (keep_requests job_id rs ctx).dispatcher ≡ ctx.dispatcher
  unfolding keep_requests
  keep_requests-dispatcher job_id [] ctx = refl
  keep_requests-dispatcher job_id (on_awaiting_approval v ∷ rs) ctx =
      keep_requests-dispatcher job_id rs _
  keep_requests-dispatcher job_id (on_suspend v ∷ rs) ctx = keep_requests-dispatcher job_id rs _

  watch_resume-dispatcher :
      (job_id : Text) (ns : List Notice) (ctx : ServerCtx N)
      → (watch_resume job_id ns ctx).dispatcher ≡ ctx.dispatcher
  unfolding watch_resume
  watch_resume-dispatcher job_id [] ctx = refl
  watch_resume-dispatcher job_id (n ∷ ns) ctx =
      watch_resume-dispatcher job_id ns (job_terminal job_id n ctx)
      ∙ job_terminal-dispatcher job_id n ctx

  resume-dispatcher :
      (job_id h : Text) (i : Invocation N) (w : World N) (ctx : ServerCtx N)
      → (resume job_id h i (w, ctx)).1.dispatcher ≡ ctx.dispatcher
  unfolding resume clear_pending
  resume-dispatcher job_id h i w ctx =
      let after = (resume_job job_id i w).0 in
      let attached : ServerCtx N = record (clear_pending job_id ctx) {
        tokens = attach job_id h ctx.tokens;
      } in
      keep_requests-dispatcher job_id (asked_since w after)
        (watch_resume job_id (told_since w after) attached)
      ∙ watch_resume-dispatcher job_id (told_since w after) attached

  resume_paused-dispatcher :
      (job_id : Text) (broker : Bool) (h : Text) (i : Invocation N) (b : Bool) (w : World N)
      (ctx : ServerCtx N)
      → (resume_paused job_id broker h i b (w, ctx)).0.1.dispatcher ≡ ctx.dispatcher
  unfolding resume_paused
  resume_paused-dispatcher job_id true h i b w ctx = resume-dispatcher job_id h i w ctx
  resume_paused-dispatcher job_id false h i b w ctx = refl

  resume_found-dispatcher :
      (job_id : Text) (broker : Bool) (h : Text) (i : Invocation N) (o : Option Status)
      (w : World N) (ctx : ServerCtx N)
      → (resume_found job_id broker h i o (w, ctx)).0.1.dispatcher ≡ ctx.dispatcher
  unfolding resume_found
  resume_found-dispatcher job_id broker h i none w ctx = refl
  resume_found-dispatcher job_id broker h i (some awaiting_approval) w ctx =
      resume_paused-dispatcher job_id broker h i true w ctx
  resume_found-dispatcher job_id broker h i (some suspended) w ctx =
      resume_paused-dispatcher job_id broker h i false w ctx
  resume_found-dispatcher job_id broker h i (some pending) w ctx = refl
  resume_found-dispatcher job_id broker h i (some received) w ctx = refl
  resume_found-dispatcher job_id broker h i (some running) w ctx = refl
  resume_found-dispatcher job_id broker h i (some completed) w ctx = refl
  resume_found-dispatcher job_id broker h i (some failed) w ctx = refl
  resume_found-dispatcher job_id broker h i (some cancelled) w ctx = refl

  handle_resumes-dispatcher :
      (job_id : Text) (rs : List (Bool × Text × Invocation N)) (w : World N) (ctx : ServerCtx N)
      → (handle_resumes job_id rs (w, ctx)).1.dispatcher ≡ ctx.dispatcher
  unfolding handle_resumes handle_resume_job
  handle_resumes-dispatcher job_id [] w ctx = refl
  handle_resumes-dispatcher job_id ((broker, h, i) ∷ rs) w ctx =
      let next = (handle_resume_job job_id broker h i (w, ctx)).0 in
      handle_resumes-dispatcher job_id rs next.0 next.1
      ∙ resume_found-dispatcher job_id broker h i (status_of w) w ctx

  free_slot-dispatcher :
      (job_id : Text) (n : Notice) (ctx : ServerCtx N)
      → (free_slot job_id n ctx).0.dispatcher ≡ noticed job_id n ctx.dispatcher
  unfolding free_slot
  free_slot-dispatcher job_id (about_agent _ _) ctx = refl
  free_slot-dispatcher job_id (about_job st) ctx = elim (Bool-cases (is_terminal st)) [
    | inl e ↦ rw (free_slot, e) refl
    | inr e ↦ rw (free_slot, e) refl
  ]

  watch_run-dispatcher :
      (job_id : Text) (ns : List Notice) (ctx : ServerCtx N)
      → (watch_run job_id ns ctx).0.dispatcher ≡ all_noticed job_id ns ctx.dispatcher
  unfolding watch_run
  watch_run-dispatcher job_id [] ctx = refl
  watch_run-dispatcher job_id (n ∷ ns) ctx =
      watch_run-dispatcher job_id ns ((free_slot job_id n (job_terminal job_id n ctx)).0)
      ∙ ap (all_noticed job_id ns) (
          free_slot-dispatcher job_id n (job_terminal job_id n ctx)
          ∙ ap (noticed job_id n) (job_terminal-dispatcher job_id n ctx))

  fire-dispatcher :
      (job_id : Text) (compiled : Result (Unit {0})) (i : Invocation N) (w : World N)
      (ctx : ServerCtx N)
      → (fire job_id compiled i (w, ctx)).0.1.dispatcher
        ≡ all_noticed job_id (told_since w ((run_job compiled i w).0)) ctx.dispatcher
  unfolding fire
  fire-dispatcher job_id compiled i w ctx =
      let after = (run_job compiled i w).0 in
      keep_requests-dispatcher job_id (asked_since w after)
        ((watch_run job_id (told_since w after) ctx).0)
      ∙ watch_run-dispatcher job_id (told_since w after) ctx

  -- When a job that holds a slot of a valid dispatcher is started and then resumed any number of
  -- times, it holds a slot afterwards exactly if its start has told of no end: none of completed,
  -- failed and cancelled. How the later calls end does not matter.
  pub slot-kept :
      (job_id : Text) (compiled : Result (Unit {0})) (i : Invocation N)
      (rs : List (Bool × Text × Invocation N)) (w : World N) (ctx : ServerCtx N)
      → IsValid ctx.dispatcher
      → has_slot job_id ctx ≡ true
      → has_slot job_id (handle_resumes job_id rs (fire job_id compiled i (w, ctx)).0).1
        ≡ not (tells_end (told_since w ((run_job compiled i w).0)))
  slot-kept job_id compiled i rs w ctx v h =
      let fired = (fire job_id compiled i (w, ctx)).0 in
      ap (λ (d : DispatcherState). has job_id d.in_flight)
        (handle_resumes-dispatcher job_id rs fired.0 fired.1
          ∙ fire-dispatcher job_id compiled i w ctx)
      ∙ all_noticed-slot job_id (told_since w ((run_job compiled i w).0)) ctx.dispatcher v h
