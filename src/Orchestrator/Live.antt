-- ===== src/Orchestrator/Live.antt =====
-- The status of a job while its graph runs (the agent executor of
-- packages/harness-core/src/orchestrator.ts), and what its listeners are told of it.
use agentx_platform.Prelude.{
  if◌then◌else◌, or_default, Text, codes, Result, ok, throws, ◌≡◌, refl, ap, ◌∙◌, Bool, true, false,
  Option, none, some, List, [], ◌∷◌, ◌++◌,
}
use agentx_platform.Candidates.{
  AgentCandidate, CandidateOutcome, success, construction_failure, invoke_failure, run_candidates,
}
use agentx_platform.Changes.{ChangedFile}
use agentx_platform.Flow.State.{FlowState, Delta}
use agentx_platform.Orchestrator.{
  Status, received, running, awaiting_approval, suspended, completed, failed, cancelled, Agent,
  Notice, about_agent, about_job, Job, Deps, build_candidates, compose_system_prompt_with_steering,
  mark_agent, mark_job, publish_messages, mark_both, fail_agent, undefined_error, after_candidates,
  after_build, run_agent, run_found, agent_executor,
}
use agentx_platform.Orchestrator.Jobs.{Tick, run_ticks}
use agentx_platform.Flow.Compile.{is_coordinator}

pub if-Has {ℓ κ} :
    {A : Type ℓ} (P : A → Type κ) (b : Bool) {x y : A}
    → (b ≡ true → P x)
    → (b ≡ false → P y)
    → P (if b then x else y)
if-Has P true h k = h refl
if-Has P false h k = k refl

-- The status that the listeners were told last.
abbrev pub last_told : List Notice → Option Status
last_told [] = none
last_told (about_job st ∷ ns) = some (or_default (last_told ns) st)
last_told (about_agent _ _ ∷ ns) = last_told ns

abbrev pub is_paused : Status → Bool
is_paused st = elim st [ awaiting_approval ↦ true | suspended ↦ true | _ ↦ false ]

-- While the graph runs.
abbrev pub in_run : Status → Bool
in_run st = elim st [ running ↦ true | failed ↦ true | cancelled ↦ true | _ ↦ false ]

abbrev pub Told : Job → Type 0
Told j = or_default (last_told j.told) received ≡ j.status

pub record Live (j : Job) : Type 0 where
  pub told : Told j
  pub in_run : in_run j.status ≡ true

last_told-agent :
    (ns : List Notice) (id : Text) (st : Status)
    → last_told (ns ++ about_agent id st ∷ []) ≡ last_told ns
last_told-agent [] id st = refl
last_told-agent (about_job s ∷ ns) id st =
    ap (λ (o : Option Status). some (or_default o s)) (last_told-agent ns id st)
last_told-agent (about_agent _ _ ∷ ns) id st = last_told-agent ns id st

last_told-job : (ns : List Notice) (st : Status) → last_told (ns ++ about_job st ∷ []) ≡ some st
last_told-job [] st = refl
last_told-job (about_job s ∷ ns) st =
    ap (λ (o : Option Status). some (or_default o s)) (last_told-job ns st)
last_told-job (about_agent _ _ ∷ ns) st = last_told-job ns st

mark_agent-Live : (id : Text) (st : Status) (j : Job) → Live j → Live (mark_agent id st j)
unfolding mark_agent
mark_agent-Live id st j l = record {
  told = ap (λ (o : Option Status). or_default o received) (last_told-agent j.told id st) ∙ l.told;
  in_run = l.in_run;
}

pub mark_job-Told : (st : Status) (j : Job) → Told (mark_job st j)
unfolding mark_job
mark_job-Told st j = ap (λ (o : Option Status). or_default o received) (last_told-job j.told st)

pub mark_job-Live : (st : Status) (j : Job) → in_run st ≡ true → Live (mark_job st j)
unfolding mark_job
mark_job-Live st j h = record { told = mark_job-Told st j; in_run = h }

mark_both-Live : (id : Text) (st : Status) (j : Job) → in_run st ≡ true → Live (mark_both id st j)
unfolding mark_both
mark_both-Live id st j h = mark_job-Live st (mark_agent id st j) h

publish_messages-Live :
    (id : Text) (ms : List Text) (j : Job) → Live j → Live (publish_messages id ms j)
unfolding publish_messages
publish_messages-Live id ms j l = record { told = l.told; in_run = l.in_run }

fail_agent-Live : (id : Text) (m : Text) (j : Job) → Live (fail_agent id m j)
unfolding fail_agent
fail_agent-Live id m j = publish_messages-Live id (m ∷ []) _ (mark_both-Live id failed j refl)

after_candidates-Live :
    (N : Type 0) (id : Text) (staged : List ChangedFile) (o : CandidateOutcome × List Text)
    (j : Job)
    → Live j
    → Live ((after_candidates {N = N} id staged o j).0)
unfolding after_candidates
after_candidates-Live N id staged (success result, events) j l =
    mark_agent-Live id completed _ (publish_messages-Live id events j l)
after_candidates-Live N id staged (construction_failure err, events) j l =
    mark_both-Live id failed
      (publish_messages id (events ++ (codes "adapter construction failed: " ++ err.message) ∷ [])
        j)
      refl
after_candidates-Live N id staged (invoke_failure err, events) j l =
    mark_both-Live id failed (publish_messages id events j) refl

after_build-Live :
    (N : Type 0) (agent : Agent) (staged : List ChangedFile) (r : Result (List AgentCandidate))
    (j : Job)
    → Live j
    → Live ((after_build {N = N} agent staged r j).0)
unfolding after_build
after_build-Live N agent staged (throws m) j l = fail_agent-Live agent.id _ j
after_build-Live N agent staged (ok candidates) j l =
    after_candidates-Live N agent.id staged
      (run_candidates agent.fallback_on candidates undefined_error false) j l

module _ {N : Type 0} where
  run_found-Live :
      (deps : Deps) (id : Text) (state : FlowState N) (staged : List ChangedFile) (j : Job)
      (o : Option Agent)
      → Live j
      → Live ((run_found deps id state staged j o).0)
  unfolding run_found run_agent
  run_found-Live deps id state staged j none l = l
  run_found-Live deps id state staged j (some agent) l =
      if-Has (λ (r : Job × Delta N). Live r.0) (is_coordinator agent.id) (λ _. l)
        (λ _.
          if-Has (λ (r : Job × Delta N). Live r.0) state.cancel_requested
            (λ _. mark_both-Live id cancelled j refl)
            (λ _.
              after_build-Live N agent staged
                (build_candidates deps agent
                  (compose_system_prompt_with_steering agent.system_prompt state.steering)
                  state.output)
                _ (mark_agent-Live id running j l)))

  pub run_ticks-Live : (ts : List (Tick N)) (j : Job) → Live j → Live (run_ticks ts j)
  unfolding run_ticks agent_executor
  run_ticks-Live [] j l = l
  run_ticks-Live (t ∷ ts) j l =
      run_ticks-Live ts _ (run_found-Live t.deps t.agent_id t.state t.staged j _ l)
