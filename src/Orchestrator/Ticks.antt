-- ===== src/Orchestrator/Ticks.antt =====
-- What one run of an agent step does to the job and to the state of the flow (makeAgentExecutor of
-- packages/harness-core/src/orchestrator.ts).
use mathlib.Core.List.{append_assoc}
use agentx_platform.Prelude.{
  or_default, find, Text, codes, same, same→eq, Result, ok, throws, ◌≡◌, refl, sym, subst, ◌∙◌,
  Bool, true, false, Option, none, some, List, [], ◌∷◌, ◌++◌, arith,
}
use agentx_platform.Candidates.{
  AgentCandidate, CandidateOutcome, success, construction_failure, invoke_failure, run_candidates,
}
use agentx_platform.Changes.{ChangedFile}
use agentx_platform.Flow.State.{success_exit, error_exit, FlowState, Delta}
use agentx_platform.Orchestrator.{
  Status, running, completed, failed, cancelled, Agent, about_agent, about_job, Job, Deps,
  build_candidates, compose_system_prompt_with_steering, set_agent_status, mark_agent, mark_job,
  publish_messages, mark_both, fail_agent, undefined_error, exit_delta, after_candidates,
  after_build, run_agent, run_found, agent_executor,
}
use agentx_platform.Orchestrator.Live.{if-Has}
use agentx_platform.Flow.Compile.{is_coordinator}

abbrev pub named : Text → List Agent → Option Agent
named id as' = find (λ a. same a.id id) as'

-- The three ways in which the step of an agent can end, with the statuses of the agent and of the
-- job, what the listeners are told, and what is written to the state of the flow.
pub data Ticked {N : Type 0} (agent : Agent) (cancel : Bool) (j : Job) (r : Job × Delta N)
    : Type 0 where
  passes :
      (result : Text)
      → cancel ≡ false
      → r.0.status ≡ j.status
      → named agent.id r.0.agents ≡ some (record agent { status = completed })
      → r.0.told ≡ j.told ++ about_agent agent.id running ∷ about_agent agent.id completed ∷ []
      → r.1.exit_to ≡ some (success_exit agent.id)
      → r.1.output_to ≡ some result
      → Ticked agent cancel j r
  fails :
      (name message : Text)
      → cancel ≡ false
      → r.0.status ≡ failed
      → named agent.id r.0.agents ≡ some (record agent { status = failed })
      → r.0.told
        ≡ j.told
          ++ about_agent agent.id running ∷ about_agent agent.id failed ∷ about_job failed ∷ []
      → r.1.exit_to ≡ some (error_exit agent.id name message)
      → r.1.output_to ≡ none
      → Ticked agent cancel j r
  stops :
      (reason : Text)
      → cancel ≡ true
      → r.0.status ≡ cancelled
      → named agent.id r.0.agents ≡ some (record agent { status = cancelled })
      → r.0.told ≡ j.told ++ about_agent agent.id cancelled ∷ about_job cancelled ∷ []
      → r.0.bus ≡ j.bus
      → r.1.exit_to ≡ some (error_exit agent.id (codes "Cancelled") reason)
      → r.1.output_to ≡ none
      → Ticked agent cancel j r

named-set_agent_status :
    (id : Text) (st : Status) (as' : List Agent) (a : Agent)
    → named id as' ≡ some a
    → named id (set_agent_status id st as') ≡ some (record a { status = st })
unfolding set_agent_status
named-set_agent_status id st [] a h = cc
named-set_agent_status id st (b ∷ bs) a h = ground (arith, named-set_agent_status id st bs a)

named_id : (id : Text) (as' : List Agent) (a : Agent) → named id as' ≡ some a → a.id ≡ id
named_id id [] a h = cc
named_id id (b ∷ bs) a h = ground (arith, same→eq b.id id, named_id id bs a)

module _ {N : Type 0} where
  fails_after :
      (agent : Agent) (cancel : Bool) (j : Job) (messages : List Text) (name message : Text)
      → cancel ≡ false
      → named agent.id j.agents ≡ some agent
      → Ticked {N = N} agent cancel j (
        mark_both agent.id failed
            (publish_messages agent.id messages (mark_agent agent.id running j)),
        exit_delta (error_exit agent.id name message),
      )
  unfolding mark_both mark_job mark_agent publish_messages
  fails_after agent cancel j messages name message c h =
      fails name message c refl
        (named-set_agent_status agent.id failed _ (record agent { status = running })
          (named-set_agent_status agent.id running j.agents agent h))
        (append_assoc (j.told ++ about_agent agent.id running ∷ [])
            (about_agent agent.id failed ∷ []) (about_job failed ∷ [])
          ∙ append_assoc j.told (about_agent agent.id running ∷ [])
              (about_agent agent.id failed ∷ about_job failed ∷ []))
        refl refl

  -- The same, with the messages published at the end.
  fails_before :
      (agent : Agent) (cancel : Bool) (j : Job) (messages : List Text) (name message : Text)
      → cancel ≡ false
      → named agent.id j.agents ≡ some agent
      → Ticked {N = N} agent cancel j (
        publish_messages agent.id messages
            (mark_both agent.id failed (mark_agent agent.id running j)),
        exit_delta (error_exit agent.id name message),
      )
  unfolding mark_both mark_job mark_agent publish_messages
  fails_before agent cancel j messages name message c h =
      fails_after agent cancel j messages name message c h

  after_candidates-Ticked :
      (agent : Agent) (cancel : Bool) (j : Job) (staged : List ChangedFile)
      (o : CandidateOutcome × List Text)
      → cancel ≡ false
      → named agent.id j.agents ≡ some agent
      → Ticked {N = N} agent cancel j
          (after_candidates agent.id staged o (mark_agent agent.id running j))
  unfolding after_candidates mark_agent publish_messages
  after_candidates-Ticked agent cancel j staged (success result, events) c h =
      passes result c refl
        (named-set_agent_status agent.id completed _ (record agent { status = running })
          (named-set_agent_status agent.id running j.agents agent h))
        (append_assoc j.told (about_agent agent.id running ∷ [])
          (about_agent agent.id completed ∷ []))
        refl refl
  after_candidates-Ticked agent cancel j staged (construction_failure err, events) c h =
      fails_after agent cancel j _ err.name err.message c h
  after_candidates-Ticked agent cancel j staged (invoke_failure err, events) c h =
      fails_after agent cancel j events err.name err.message c h

  after_build-Ticked :
      (agent : Agent) (cancel : Bool) (j : Job) (staged : List ChangedFile)
      (r : Result (List AgentCandidate))
      → cancel ≡ false
      → named agent.id j.agents ≡ some agent
      → Ticked {N = N} agent cancel j (after_build agent staged r (mark_agent agent.id running j))
  unfolding after_build fail_agent
  after_build-Ticked agent cancel j staged (throws m) c h =
      fails_before agent cancel j ((codes "adapter construction failed: " ++ m) ∷ [])
        (codes "ConstructionFailure") m c h
  after_build-Ticked agent cancel j staged (ok cs) c h =
      after_candidates-Ticked agent cancel j staged
        (run_candidates agent.fallback_on cs undefined_error false) c h

  -- One run of the step of an agent that is registered with the job and is no coordinator ends in
  -- one of three ways. If no cancellation was requested it passes or fails: it passes with a
  -- success exit and an output, leaves the status of the job as it was, and the agent is told to
  -- run and to be completed; or it fails with an error exit and no output, and the agent, and
  -- after it the job, are set to failed and told so. If one was requested nothing is published,
  -- the exit is the error Cancelled, and agent and job are set to cancelled and told so.
  pub agent_executor-Ticked :
      (deps : Deps) (id : Text) (agent : Agent) (state : FlowState N) (staged : List ChangedFile)
      (j : Job)
      → named id j.agents ≡ some agent
      → is_coordinator agent.id ≡ false
      → Ticked agent state.cancel_requested j (agent_executor deps id state staged j)
  unfolding agent_executor run_found run_agent
  agent_executor-Ticked deps id agent state staged j h nc =
      let same_id = named_id id j.agents agent h in
      subst (λ i. Ticked agent state.cancel_requested j (agent_executor deps i state staged j))
        same_id (own (subst (λ i. named i j.agents ≡ some agent) (sym same_id) h))
    where
      own :
          named agent.id j.agents ≡ some agent
          → Ticked agent state.cancel_requested j (agent_executor deps agent.id state staged j)
      own g =
          rw (agent_executor, g, run_found, nc)
            (if-Has (λ (r : Job × Delta N). Ticked agent state.cancel_requested j r)
              state.cancel_requested
              (λ c.
                stops (or_default state.cancel_reason (codes "cancelled by operator")) c refl
                  (named-set_agent_status agent.id cancelled j.agents agent g)
                  (append_assoc j.told (about_agent agent.id cancelled ∷ [])
                    (about_job cancelled ∷ []))
                  refl refl refl)
              (λ c.
                after_build-Ticked agent state.cancel_requested j staged
                  (build_candidates deps agent
                    (compose_system_prompt_with_steering agent.system_prompt state.steering)
                    state.output)
                  c g))
