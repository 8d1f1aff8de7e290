-- ===== src/Orchestrator/Jobs.antt =====
-- packages/harness-core/src/orchestrator.ts: the life of a job (runJob, resumeJob, finalizeOrPause,
-- extractInterrupts, cancelJob, steerJob). The graph engine is a library: a call of it is the steps
-- of agents that it runs, in order, and what it then returns or that it throws.
use agentx_platform.Prelude.{
  Text, codes, Result, ok, throws, Bool, true, false, ◌||◌, if◌then◌else◌, Option, none, some, List,
  [], ◌∷◌, ◌++◌,
}
use agentx_platform.Changes.{ChangedFile}
use agentx_platform.Flow.Values.{Value, Items, nil, cons}
use agentx_platform.Flow.State.{FlowState}
use agentx_platform.Catalog.Shapes.{member, is_word, items_of}
use agentx_platform.Orchestrator.{
  Status, running, awaiting_approval, suspended, completed, failed, cancelled, Job, Deps, mark_job,
  agent_executor,
}

-- A call of the executor of an agent step.
pub record Tick (N : Type 0) : Type 0 where
  pub deps : Deps
  pub agent_id : Text
  pub state : FlowState N
  pub staged : List ChangedFile

-- A call of the graph: the steps of agents, and what it returns, if it does not throw.
pub record Invocation (N : Type 0) : Type 0 where
  pub ticks : List (Tick N)
  pub result : Option (Value N)

-- The request that a hook is called with.
pub data Request (N : Type 0) : Type 0 where
  on_awaiting_approval on_suspend : Value N → Request N

-- What is written to the channels of the stored state.
pub data Write : Type 0 where
  steers : Text → Write
  cancels : Option Text → Write

-- What the maps of jobs and graphs hold for one job, the calls of the two hooks, and the writes.
pub record World (N : Type 0) : Type 0 where
  pub job : Option Job
  pub cached : Bool
  pub requests : List (Request N)
  pub writes : List Write

unfoldable pub is_ended : Status → Bool
is_ended st = elim st [ failed ↦ true | cancelled ↦ true | _ ↦ false ]

module _ {N : Type 0} where
  -- `value && typeof value === 'object' && 'kind' in value && …`; a text or a number has no own
  -- fields here.
  abbrev pub is_request : Value N → Bool
  is_request v =
      let kind = member (codes "kind") v in
      is_word (codes "approval") kind || is_word (codes "suspend") kind

  unfoldable pub interrupts_of : Items N → List (Value N)
  interrupts_of nil = []
  interrupts_of (cons entry xs) =
      let rest = interrupts_of xs in
      let v = member (codes "value") entry in if is_request v then v ∷ rest else rest

  unfoldable pub extract_interrupts : Value N → List (Value N)
  unfolding interrupts_of
  extract_interrupts result = interrupts_of (items_of (member (codes "__interrupt__") result))

  unfoldable pub run_ticks : List (Tick N) → Job → Job
  unfolding agent_executor
  run_ticks [] j = j
  run_ticks (t ∷ ts) j = run_ticks ts ((agent_executor t.deps t.agent_id t.state t.staged j).0)

  unfoldable pub set_job : Job → World N → World N
  set_job j w = record w { job = some j }

  -- The job ends: with `st`, unless it has failed or was cancelled. The graph is dropped.
  unfoldable pub end_job : Status → Job → World N → World N
  unfolding is_ended set_job mark_job
  end_job st j w = record (set_job (if is_ended j.status then j else mark_job st j) w) {
    cached = false;
  }

  -- The job pauses, and a hook is called.
  unfoldable pub pause_job : Status → List (Request N) → Job → World N → World N
  unfolding set_job mark_job
  pause_job st asked j w = record (set_job (mark_job st j) w) { requests = w.requests ++ asked }

  unfoldable pub pause_or_end : List (Value N) → Job → World N → World N
  unfolding pause_job end_job
  pause_or_end [] j w = end_job completed j w
  pause_or_end (first ∷ _) j w =
      if is_word (codes "approval") (member (codes "kind") first)
      then pause_job awaiting_approval (on_awaiting_approval first ∷ []) j w
      else if is_word (codes "suspend") (member (codes "kind") first)
      then pause_job suspended (on_suspend first ∷ []) j w
      else pause_job awaiting_approval [] j w

  unfoldable pub finalize_or_pause : Value N → Job → World N → World N
  unfolding extract_interrupts pause_or_end
  finalize_or_pause result = pause_or_end (extract_interrupts result)

  -- What follows the call of the graph, which has returned or thrown.
  unfoldable pub after_invoke : Option (Value N) → Job → World N → World N
  unfolding finalize_or_pause end_job
  after_invoke none j w = end_job failed j w
  after_invoke (some result) j w = finalize_or_pause result j w

  unfoldable pub invoke : Invocation N → Job → World N → World N
  unfolding run_ticks after_invoke
  invoke i j w = after_invoke i.result (run_ticks i.ticks j) w

  -- The world after a call, and whether the call returns or throws. `compiled` is what the
  -- preparation of the job's flow comes to.
  unfoldable pub run_job : Result (Unit {0}) → Invocation N → World N → World N × Result (Unit {0})
  unfolding invoke set_job mark_job
  run_job compiled i w = elim w.job [
    | none ↦ (w, ok tt)
    | some job ↦
        let started = mark_job running job in
        elim compiled [
          | throws m ↦ (set_job started w, throws m)
          | ok _ ↦ (invoke i started (record (set_job started w) { cached = true }), ok tt)
        ]
  ]

  unfoldable pub resume_job : Text → Invocation N → World N → World N × Result (Unit {0})
  unfolding invoke mark_job
  resume_job job_id i w = elim w.job [
    | none ↦ (w, ok tt)
    | some job ↦ if w.cached then (invoke i (mark_job running job) w, ok tt) else (
      w,
      throws (
          codes "resumeJob: no cached graph for jobId \""
          ++ job_id
          ++ codes "\" — runJob may not have run yet, or the graph was already cleared."),
    )
  ]

  -- What steerJob and cancelJob do: they write to the state of a job whose graph is cached.
  unfoldable pub update_state : Text → Text → Write → World N → World N × Result (Unit {0})
  update_state name job_id write w =
      if w.cached then (record w { writes = w.writes ++ write ∷ [] }, ok tt) else (
        w,
        throws (
            name
            ++ codes ": no cached graph for jobId \""
            ++ job_id
            ++ codes "\" — runJob must be in flight or paused."),
      )

  unfoldable pub steer_job : Text → Text → World N → World N × Result (Unit {0})
  unfolding update_state
  steer_job job_id message = update_state (codes "steerJob") job_id (steers message)

  unfoldable pub cancel_job : Text → Option Text → World N → World N × Result (Unit {0})
  unfolding update_state
  cancel_job job_id reason = update_state (codes "cancelJob") job_id (cancels reason)
