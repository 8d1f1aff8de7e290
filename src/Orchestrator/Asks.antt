-- ===== src/Orchestrator/Asks.antt =====
-- What a call of the graph in packages/harness-core/src/orchestrator.ts leaves of requests.
use agentx_platform.Prelude.{
  Text, codes, Result, ok, throws, ◌≡◌, refl, ap, ◌∙◌, Bool, true, false, ◌||◌, Option, none, some,
  List, [], ◌∷◌, ◌++◌, arith,
}
use agentx_platform.Flow.Values.{Value, Items, nil, cons}
use agentx_platform.Catalog.Shapes.{member, items_of, is_word}
use agentx_platform.Orchestrator.{
  Status, pending, received, running, awaiting_approval, suspended, completed, failed, cancelled,
  Job, mark_job,
}
use agentx_platform.Orchestrator.Jobs.{
  Invocation, Request, on_awaiting_approval, on_suspend, World, is_ended, is_request, interrupts_of,
  extract_interrupts, run_ticks, set_job, end_job, pause_job, pause_or_end, finalize_or_pause,
  after_invoke, invoke, run_job, resume_job,
}
use agentx_platform.Orchestrator.Settled.{is_running, ended_or_marked}
use agentx_platform.Orchestrator.Live.{if-Has, is_paused, Live, mark_job-Live, run_ticks-Live}

abbrev pub is_awaiting : Status → Bool
is_awaiting st = elim st [ awaiting_approval ↦ true | _ ↦ false ]

abbrev pub is_suspended : Status → Bool
is_suspended st = elim st [ suspended ↦ true | _ ↦ false ]

not_awaiting :
    (st : Status) → is_paused st ≡ false → (is_awaiting st ≡ false) × (is_suspended st ≡ false)
not_awaiting awaiting_approval h = cc
not_awaiting suspended h = cc
not_awaiting pending h = (refl, refl)
not_awaiting received h = (refl, refl)
not_awaiting running h = (refl, refl)
not_awaiting completed h = (refl, refl)
not_awaiting failed h = (refl, refl)
not_awaiting cancelled h = (refl, refl)

module _ {N : Type 0} where
  -- What the first of the interrupts is, if there is one.
  abbrev FirstIsRequest : List (Value N) → Type 0
  FirstIsRequest [] = Unit
  FirstIsRequest (v ∷ _) = is_request v ≡ true

  interrupts_of-Requests : (xs : Items N) → FirstIsRequest (interrupts_of xs)
  unfolding interrupts_of
  interrupts_of-Requests nil = tt
  interrupts_of-Requests (cons entry xs) =
      if-Has FirstIsRequest (is_request (member (codes "value") entry)) (λ h. h)
        (λ _. interrupts_of-Requests xs)

  abbrev pub status_is : (Status → Bool) → World N → Bool
  status_is test w = elim w.job [ none ↦ false | some j ↦ test j.status ]

  -- What a call of the graph leaves: it waits for an approval or a wake-up and has asked for it, or
  -- it does not wait and has asked nothing.
  pub data Asks (before : List (Request N)) (after : World N) : Type 0 where
    for_approval :
        (j : Job) (v : Value N)
        → after.job ≡ some j
        → j.status ≡ awaiting_approval
        → after.cached ≡ true
        → after.requests ≡ before ++ on_awaiting_approval v ∷ []
        → Asks before after
    for_wake_up :
        (j : Job) (v : Value N)
        → after.job ≡ some j
        → j.status ≡ suspended
        → after.cached ≡ true
        → after.requests ≡ before ++ on_suspend v ∷ []
        → Asks before after
    for_nothing : status_is is_paused after ≡ false → after.requests ≡ before → Asks before after

  end_job-Asks :
      (st : Status) (j : Job) (w : World N)
      → is_paused st ≡ false
      → is_running st ≡ false
      → Live j
      → Asks w.requests (end_job st j w)
  unfolding end_job set_job
  end_job-Asks st j w p r l =
      for_nothing ((ended_or_marked (is_ended j.status) st j p r l.told refl).paused) refl

  pause_or_end-Asks :
      (is : List (Value N)) (j : Job) (w : World N)
      → w.cached ≡ true
      → Live j
      → FirstIsRequest is
      → Asks w.requests (pause_or_end is j w)
  unfolding pause_or_end pause_job set_job mark_job
  pause_or_end-Asks [] j w c l h = end_job-Asks completed j w refl refl l
  pause_or_end-Asks (first ∷ _) j w c l h =
      if-Has (Asks w.requests) (is_word (codes "approval") (member (codes "kind") first))
        (λ a. for_approval (mark_job awaiting_approval j) first refl refl c refl)
        (λ a.
          if-Has (Asks w.requests) (is_word (codes "suspend") (member (codes "kind") first))
            (λ b. for_wake_up (mark_job suspended j) first refl refl c refl)
            (λ b. absurd (neither a b h)))
    where
      neither : {a b : Bool} → a ≡ false → b ≡ false → (a || b) ≡ true → ⊥
      neither p q r = ground arith

  after_invoke-Asks :
      (r : Option (Value N)) (j : Job) (w : World N)
      → w.cached ≡ true
      → Live j
      → Asks w.requests (after_invoke r j w)
  unfolding after_invoke finalize_or_pause extract_interrupts
  after_invoke-Asks none j w c l = end_job-Asks failed j w refl refl l
  after_invoke-Asks (some v) j w c l =
      pause_or_end-Asks (extract_interrupts v) j w c l
        (interrupts_of-Requests (items_of (member (codes "__interrupt__") v)))

  invoke-Asks :
      (i : Invocation N) (j : Job) (w : World N)
      → w.cached ≡ true
      → Live j
      → Asks w.requests (invoke i j w)
  unfolding invoke
  invoke-Asks i j w c l =
      after_invoke-Asks i.result (run_ticks i.ticks j) w c (run_ticks-Live i.ticks j l)

  pub run_job-Asks :
      (compiled : Result (Unit {0})) (i : Invocation N) (w : World N)
      → Asks w.requests ((run_job compiled i w).0)
  unfolding run_job set_job mark_job
  run_job-Asks compiled i w = pass w.job refl compiled
    where
      pass :
          (o : Option Job)
          → w.job ≡ o
          → (c : Result (Unit {0})) → Asks w.requests ((run_job c i w).0)
      pass none e c = rw (run_job, e) (for_nothing (rw e refl) refl)
      pass (some j) e (throws m) = rw (run_job, e) (for_nothing refl refl)
      pass (some j) e (ok u) =
          rw (run_job, e)
            (invoke-Asks i (mark_job running j)
              (record (set_job (mark_job running j) w) { cached = true }) refl
              (mark_job-Live running j refl))

  pub resume_job-Asks :
      (job_id : Text) (i : Invocation N) (w : World N) (j : Job)
      → w.job ≡ some j
      → w.cached ≡ true
      → Asks w.requests ((resume_job job_id i w).0)
  unfolding resume_job
  resume_job-Asks job_id i w j e cached =
      rw (resume_job, e)
        (if-Has (λ (r : World N × Result (Unit {0})). Asks w.requests r.0) w.cached
          (λ c. invoke-Asks i (mark_job running j) w c (mark_job-Live running j refl)) (λ c. cc))

  pub waits :
      (test : Status → Bool) (after : World N) {j : Job} {st : Status}
      → after.job ≡ some j
      → j.status ≡ st
      → status_is test after ≡ test st
  waits test after {j = j} e h =
      ap (λ (o : Option Job). elim o as (λ _. Bool) [ none ↦ false | some k ↦ test k.status ]) e
      ∙ ap test h

  pub idle :
      (after : World N)
      → status_is is_paused after ≡ false
      → (status_is is_awaiting after ≡ false) × (status_is is_suspended after ≡ false)
  idle after h = pass after.job h
    where
      pass :
          (o : Option Job)
          → (elim o as (λ _. Bool) [ none ↦ false | some j ↦ is_paused j.status ]) ≡ false
          → ((elim o as (λ _. Bool) [ none ↦ false | some j ↦ is_awaiting j.status ]) ≡ false)
            × ((elim o as (λ _. Bool) [ none ↦ false | some j ↦ is_suspended j.status ]) ≡ false)
      pass none e = (refl, refl)
      pass (some j) e = not_awaiting j.status e
