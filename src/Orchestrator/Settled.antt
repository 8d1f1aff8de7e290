-- ===== src/Orchestrator/Settled.antt =====
-- The status of a job between the operations of packages/harness-core/src/orchestrator.ts.
use agentx_platform.Prelude.{
  if◌then◌else◌, All, Text, codes, Result, ok, ◌≡◌, refl, sym, subst, ◌∙◌, Bool, true, false,
  Option, none, some, List, [], ◌∷◌,
}
use agentx_platform.Flow.Values.{Value}
use agentx_platform.Catalog.Shapes.{member, is_word}
use agentx_platform.Orchestrator.{
  Status, pending, received, running, awaiting_approval, suspended, completed, failed, cancelled,
  Job, mark_job,
}
use agentx_platform.Orchestrator.Jobs.{
  Invocation, Request, on_awaiting_approval, on_suspend, Write, steers, cancels, World, is_ended,
  extract_interrupts, run_ticks, set_job, end_job, pause_job, pause_or_end, finalize_or_pause,
  after_invoke, invoke, run_job, resume_job, update_state, steer_job, cancel_job,
}
use agentx_platform.Orchestrator.Live.{
  if-Has, is_paused, Told, Live, mark_job-Told, mark_job-Live, run_ticks-Live,
}

abbrev pub is_running : Status → Bool
is_running st = elim st [ running ↦ true | _ ↦ false ]

-- The listeners know the status; the graph is kept exactly while the job is paused; and no call of
-- the graph is under way.
pub record JobIsSettled (cached : Bool) (j : Job) : Type 0 where
  pub told : Told j
  pub paused : is_paused j.status ≡ cached
  pub at_rest : is_running j.status ≡ false

abbrev pub IsSettled : {N : Type 0} → World N → Type 0
IsSettled w = elim w.job [ none ↦ w.cached ≡ false | some j ↦ JobIsSettled w.cached j ]

ended-at_rest : (s : Status) → is_ended s ≡ true → (is_paused s ≡ false) × (is_running s ≡ false)
unfolding is_ended
ended-at_rest failed e = (refl, refl)
ended-at_rest cancelled e = (refl, refl)
ended-at_rest pending e = cc
ended-at_rest received e = cc
ended-at_rest running e = cc
ended-at_rest awaiting_approval e = cc
ended-at_rest suspended e = cc
ended-at_rest completed e = cc

pub ended_or_marked :
    (b : Bool) (st : Status) (j : Job)
    → is_paused st ≡ false
    → is_running st ≡ false
    → Told j
    → is_ended j.status ≡ b
    → JobIsSettled false (if b then j else mark_job st j)
unfolding mark_job
ended_or_marked true st j p r h e = record {
  told = h;
  paused = (ended-at_rest j.status e).0;
  at_rest = (ended-at_rest j.status e).1;
}
ended_or_marked false st j p r h e = record { told = mark_job-Told st j; paused = p; at_rest = r }

module _ {N : Type 0} where
  end_job-IsSettled :
      (st : Status) (j : Job) (w : World N)
      → is_paused st ≡ false
      → is_running st ≡ false
      → Live j
      → IsSettled (end_job st j w)
  unfolding end_job set_job
  end_job-IsSettled st j w p r l = ended_or_marked (is_ended j.status) st j p r l.told refl

  pause_job-IsSettled :
      (st : Status) (asked : List (Request N)) (j : Job) (w : World N)
      → is_paused st ≡ true
      → is_running st ≡ false
      → w.cached ≡ true
      → IsSettled (pause_job st asked j w)
  unfolding pause_job set_job mark_job
  pause_job-IsSettled st asked j w p r c = record {
    told = mark_job-Told st j;
    paused = p ∙ sym c;
    at_rest = r;
  }

  pause_or_end-IsSettled :
      (is : List (Value N)) (j : Job) (w : World N)
      → w.cached ≡ true
      → Live j
      → IsSettled (pause_or_end is j w)
  unfolding pause_or_end
  pause_or_end-IsSettled [] j w c l = end_job-IsSettled completed j w refl refl l
  pause_or_end-IsSettled (first ∷ _) j w c l =
      if-Has IsSettled (is_word (codes "approval") (member (codes "kind") first))
        (λ _.
          pause_job-IsSettled awaiting_approval (on_awaiting_approval first ∷ []) j w refl refl c)
        (λ _.
          if-Has IsSettled (is_word (codes "suspend") (member (codes "kind") first))
            (λ _. pause_job-IsSettled suspended (on_suspend first ∷ []) j w refl refl c)
            (λ _. pause_job-IsSettled awaiting_approval [] j w refl refl c))

  after_invoke-IsSettled :
      (r : Option (Value N)) (j : Job) (w : World N)
      → w.cached ≡ true
      → Live j
      → IsSettled (after_invoke r j w)
  unfolding after_invoke finalize_or_pause
  after_invoke-IsSettled none j w c l = end_job-IsSettled failed j w refl refl l
  after_invoke-IsSettled (some v) j w c l = pause_or_end-IsSettled (extract_interrupts v) j w c l

  invoke-IsSettled :
      (i : Invocation N) (j : Job) (w : World N)
      → w.cached ≡ true
      → Live j
      → IsSettled (invoke i j w)
  unfolding invoke
  invoke-IsSettled i j w c l =
      after_invoke-IsSettled i.result (run_ticks i.ticks j) w c (run_ticks-Live i.ticks j l)

-- An operation on a job.
pub data Operation (N : Type 0) : Type 0 where
  op_run : Result (Unit {0}) → Invocation N → Operation N
  op_resume : Invocation N → Operation N
  op_steer : Text → Operation N
  op_cancel : Option Text → Operation N

module _ {N : Type 0} where
  unfoldable pub apply : Text → Operation N → World N → World N × Result (Unit {0})
  unfolding run_job resume_job steer_job cancel_job
  apply job_id (op_run compiled i) w = run_job compiled i w
  apply job_id (op_resume i) w = resume_job job_id i w
  apply job_id (op_steer message) w = steer_job job_id message w
  apply job_id (op_cancel reason) w = cancel_job job_id reason w

  -- What an operation throws reaches its caller, and the world stays as it left it.
  unfoldable pub history : Text → List (Operation N) → World N → World N
  unfolding apply
  history job_id [] w = w
  history job_id (o ∷ os) w = history job_id os ((apply job_id o w).0)

  abbrev pub Prepares : Operation N → Type 0
  Prepares (op_run compiled i) = compiled ≡ ok tt
  Prepares _ = Unit

  run_job-IsSettled :
      (i : Invocation N) (w : World N) → IsSettled w → IsSettled ((run_job (ok tt) i w).0)
  unfolding run_job set_job
  run_job-IsSettled i w s = pass w.job refl
    where
      pass : (o : Option Job) → w.job ≡ o → IsSettled ((run_job (ok tt) i w).0)
      pass none e = rw (run_job, e) s
      pass (some j) e =
          rw (run_job, e)
            (invoke-IsSettled i (mark_job running j)
              (record (set_job (mark_job running j) w) { cached = true }) refl
              (mark_job-Live running j refl))

  resume_job-IsSettled :
      (job_id : Text) (i : Invocation N) (w : World N)
      → IsSettled w
      → IsSettled ((resume_job job_id i w).0)
  unfolding resume_job
  resume_job-IsSettled job_id i w s = pass w.job refl
    where
      pass : (o : Option Job) → w.job ≡ o → IsSettled ((resume_job job_id i w).0)
      pass none e = rw (resume_job, e) s
      pass (some j) e =
          rw (resume_job, e)
            (if-Has (λ (r : World N × Result (Unit {0})). IsSettled r.0) w.cached
              (λ c. invoke-IsSettled i (mark_job running j) w c (mark_job-Live running j refl))
              (λ _. s))

  update_state-IsSettled :
      (name job_id : Text) (write : Write) (w : World N)
      → IsSettled w
      → IsSettled ((update_state name job_id write w).0)
  unfolding update_state
  update_state-IsSettled name job_id write w s =
      if-Has (λ (r : World N × Result (Unit {0})). IsSettled r.0) w.cached (λ _. s) (λ _. s)

  apply-IsSettled :
      (job_id : Text) (o : Operation N) (w : World N)
      → Prepares o
      → IsSettled w
      → IsSettled ((apply job_id o w).0)
  unfolding apply steer_job cancel_job
  apply-IsSettled job_id (op_run compiled i) w p s =
      subst (λ c. IsSettled ((run_job c i w).0)) (sym p) (run_job-IsSettled i w s)
  apply-IsSettled job_id (op_resume i) w p s = resume_job-IsSettled job_id i w s
  apply-IsSettled job_id (op_steer message) w p s =
      update_state-IsSettled (codes "steerJob") job_id (steers message) w s
  apply-IsSettled job_id (op_cancel reason) w p s =
      update_state-IsSettled (codes "cancelJob") job_id (cancels reason) w s

  -- A job is settled when its listeners were last told the status that it has, its graph is kept
  -- exactly while it waits for an approval or a wake-up, and it is not left as running. A settled
  -- job stays settled under any sequence of runs, resumes, steerings and cancellations, whatever
  -- the agents, the graph and its interrupts do, and the ones that throw included, when each run
  -- of the sequence could prepare its flow.
  pub history-IsSettled :
      (job_id : Text) (os : List (Operation N)) (w : World N)
      → All Prepares os
      → IsSettled w
      → IsSettled (history job_id os w)
  unfolding history
  history-IsSettled job_id [] w p s = s
  history-IsSettled job_id (o ∷ os) w (p, ps) s =
      history-IsSettled job_id os ((apply job_id o w).0) ps (apply-IsSettled job_id o w p s)
