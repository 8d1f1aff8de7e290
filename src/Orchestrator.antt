-- ===== src/Orchestrator.antt =====
-- packages/harness-core/src/orchestrator.ts: the executor of agent steps (makeAgentExecutor,
-- buildCandidates, failAgent) and its effects on the record of its job.
pub mod Asks
pub mod Choices
pub mod Jobs
pub mod Live
pub mod Server
pub mod Settled
mod Tests
pub mod Ticks
use agentx_platform.Prelude.{
  ltb, if◌then◌else◌, or_default, length, find, Text, codes, same, join, lookup, Result, ok, throws,
  Bool, false, ◌||◌, Option, none, some, List, [], ◌∷◌, ◌++◌, map,
}
use agentx_platform.Changes.{ChangedFile}
use agentx_platform.Flow.State.{NodeExit, success_exit, error_exit, FlowState, Delta, no_delta}
use agentx_platform.Flow.Compile.{is_coordinator}
use agentx_platform.Candidates.{
  Failure, Attempt, not_built, AgentCandidate, CandidateOutcome, success, construction_failure,
  invoke_failure, run_candidates,
}

-- The status of an agent or a job. A job is received, an agent pending at first.
pub data Status : Type 0 where
  pending received running awaiting_approval suspended completed failed cancelled : Status

pub record Agent : Type 0 where
  pub id : Text
  pub status : Status
  pub adapter : Text
  pub accepts : Option (List Text)
  pub system_prompt : Option Text
  pub fallback_on : Option (List Text)

-- A call of `onStatusChange`, about an agent or about the job.
pub data Notice : Type 0 where
  about_agent : Text → Status → Notice
  about_job : Status → Notice

-- The job's record, the calls of `onStatusChange` in order, and the messages on the bus with the
-- agent that they are from.
pub record Job : Type 0 where
  pub status : Status
  pub agents : List Agent
  pub told : List Notice
  pub bus : List (Text × Text)

pub record Binding : Type 0 where
  pub tool : Option Text
  pub provider_id : Text
  pub model_id : Text

-- What building and calling an adapter comes to, given the system prompt and the input.
abbrev pub Adapter : Type 0
Adapter = Option Text → Text → Attempt

-- What `resolveBinding` comes to: a binding, or the error that it throws.
pub data Resolved : Type 0 where
  bound : Binding → Resolved
  unresolved : Failure → Resolved

pub record Resolver : Type 0 where
  pub resolve_all : Option (List Text → Result (List Binding))
  pub resolve_one : List Text → Resolved

-- The dependencies that the executor reads.
pub record Deps : Type 0 where
  pub prebuilt : List (Text × Adapter)
  pub resolver : Option Resolver
  pub binding_to_adapter : Binding → Adapter
  pub factory : Text → Adapter

abbrev pub binding_label : Binding → Text
binding_label b =
    elim b.tool [ none ↦ [] | some t ↦ t ++ codes ":" ]
    ++ (b.provider_id ++ codes ":" ++ b.model_id)

-- `build` throws what `resolveBinding` throws.
abbrev pub resolve_attempt : Deps → Resolved → Adapter
resolve_attempt deps (bound b) system input = deps.binding_to_adapter b system input
resolve_attempt deps (unresolved err) system input = not_built err

abbrev pub one_shot : Text → Attempt → List AgentCandidate
one_shot label attempt = record { label = label; fallback_eligible = false; attempt = attempt } ∷ []

abbrev pub of_bindings : Deps → Option Text → Text → List Binding → List AgentCandidate
of_bindings deps system input bindings =
    map
      (λ b. record {
        label = binding_label b;
        fallback_eligible = ltb 1 (length bindings);
        attempt = deps.binding_to_adapter b system input;
      })
      bindings

abbrev pub no_binding : List Text → Text
no_binding accepts =
    codes "No satisfiable binding for accepts=[" ++ join (codes ", ") accepts ++ codes "]"

-- The candidates for the bindings that the resolver finds.
unfoldable pub of_resolved :
    Deps → List Text → Option Text → Text → Result (List Binding) → Result (List AgentCandidate)
of_resolved deps accepts system input (throws m) = throws m
of_resolved deps accepts system input (ok []) = throws (no_binding accepts)
of_resolved deps accepts system input (ok (b ∷ bs)) = ok (of_bindings deps system input (b ∷ bs))

-- The paths of the resolver, on a list that is not empty.
unfoldable pub resolver_candidates :
    Deps → Resolver → List Text → Option Text → Text → Result (List AgentCandidate)
unfolding of_resolved
resolver_candidates deps r accepts system input = elim r.resolve_all [
  | some resolve ↦ of_resolved deps accepts system input (resolve accepts)
  | none ↦
      ok (one_shot (codes "resolver") (resolve_attempt deps (r.resolve_one accepts) system input))
]

abbrev pub from_factory : Deps → Agent → Option Text → Text → List AgentCandidate
from_factory deps agent system input =
    one_shot (codes "factory:" ++ agent.adapter) (deps.factory agent.adapter system input)

-- An agent without a pre-built adapter.
unfoldable pub from_accepts :
    Deps → Agent → Option Text → Text → Option Resolver → List Text → Result (List AgentCandidate)
unfolding resolver_candidates
from_accepts deps agent system input (some r) (a ∷ as') =
    resolver_candidates deps r (a ∷ as') system input
from_accepts deps agent system input (some r) [] = ok (from_factory deps agent system input)
from_accepts deps agent system input none accepts = ok (from_factory deps agent system input)

unfoldable pub build_candidates : Deps → Agent → Option Text → Text → Result (List AgentCandidate)
unfolding from_accepts
build_candidates deps agent system input = elim (lookup agent.id deps.prebuilt) [
  | some adapter ↦ ok (one_shot (codes "prebuilt:" ++ agent.id) (adapter system input))
  | none ↦ from_accepts deps agent system input deps.resolver (or_default agent.accepts [])
]

-- The prompt with what operators have sent.
unfoldable pub compose_system_prompt_with_steering : Option Text → List Text → Option Text
compose_system_prompt_with_steering baseline [] = baseline
compose_system_prompt_with_steering baseline (s ∷ more) =
    let block = codes "[OPERATOR STEERING]\n— " ++ join (codes "\n— ") (s ∷ more) in
    elim (or_default baseline []) [
      | [] ↦ some block
      | c ∷ cs ↦ some ((c ∷ cs) ++ codes "\n\n" ++ block)
    ]

-- The first agent of that id.
unfoldable pub set_agent_status : Text → Status → List Agent → List Agent
set_agent_status id st [] = []
set_agent_status id st (a ∷ as') =
    if same a.id id then record a { status = st } ∷ as' else a ∷ set_agent_status id st as'

-- The agent's status is set and told.
unfoldable pub mark_agent : Text → Status → Job → Job
unfolding set_agent_status
mark_agent id st j = record j {
  agents = set_agent_status id st j.agents;
  told = j.told ++ about_agent id st ∷ [];
}

unfoldable pub mark_job : Status → Job → Job
mark_job st j = record j { status = st; told = j.told ++ about_job st ∷ [] }

unfoldable pub publish_messages : Text → List Text → Job → Job
publish_messages id messages j = record j { bus = j.bus ++ map (λ m. (id, m)) messages }

-- Both statuses are set before they are told.
unfoldable pub mark_both : Text → Status → Job → Job
unfolding mark_agent mark_job
mark_both id st j = mark_job st (mark_agent id st j)

unfoldable pub fail_agent : Text → Text → Job → Job
unfolding mark_both publish_messages
fail_agent id message j = publish_messages id (message ∷ []) (mark_both id failed j)

abbrev pub undefined_error : Failure
undefined_error = record { is_adapter_error = false; name = []; message = [] }

module _ {N : Type 0} where
  abbrev pub exit_delta : NodeExit → Delta N
  exit_delta e = record no_delta { exit_to = some e }

  -- What follows the candidates. `staged` is what is found staged after the run.
  unfoldable pub after_candidates :
      Text → List ChangedFile → CandidateOutcome × List Text → Job → Job × Delta N
  unfolding mark_agent mark_both publish_messages
  after_candidates id staged (success result, events) j = (
    mark_agent id completed (publish_messages id events j),
    record no_delta {
      output_to = some result;
      exit_to = some (success_exit id);
      changed_to = elim staged [ [] ↦ none | c ∷ cs ↦ some (c ∷ cs) ];
    },
  )
  after_candidates id staged (construction_failure err, events) j = (
    mark_both id failed (
        publish_messages id (events ++ (codes "adapter construction failed: " ++ err.message) ∷ [])
          j),
    exit_delta (error_exit id err.name err.message),
  )
  after_candidates id staged (invoke_failure err, events) j = (
    mark_both id failed (publish_messages id events j),
    exit_delta (error_exit id err.name err.message),
  )

  -- What follows the making of the list of candidates.
  unfoldable pub after_build :
      Agent → List ChangedFile → Result (List AgentCandidate) → Job → Job × Delta N
  unfolding fail_agent after_candidates
  after_build agent staged (throws m) j = (
    fail_agent agent.id (codes "adapter construction failed: " ++ m) j,
    exit_delta (error_exit agent.id (codes "ConstructionFailure") m),
  )
  after_build agent staged (ok candidates) j =
      after_candidates agent.id staged
        (run_candidates agent.fallback_on candidates undefined_error false) j

  unfoldable pub run_agent : Deps → Agent → FlowState N → List ChangedFile → Job → Job × Delta N
  unfolding after_build
  run_agent deps agent state staged j =
      let system = compose_system_prompt_with_steering agent.system_prompt state.steering in
      after_build agent staged (build_candidates deps agent system state.output) j

  -- `agent` is the one of that id, if there is one.
  unfoldable pub run_found :
      Deps → Text → FlowState N → List ChangedFile → Job → Option Agent → Job × Delta N
  unfolding mark_agent mark_both run_agent
  run_found deps agent_id state staged j none = (j, exit_delta (success_exit agent_id))
  run_found deps agent_id state staged j (some agent) =
      if is_coordinator agent.id
      then (j, exit_delta (success_exit agent_id))
      else if state.cancel_requested
      then (
        mark_both agent_id cancelled j,
        exit_delta (
            error_exit agent_id (codes "Cancelled")
              (or_default state.cancel_reason (codes "cancelled by operator"))),
      )
      else run_agent deps agent state staged (mark_agent agent_id running j)

  -- One run of the step of an agent.
  unfoldable pub agent_executor : Deps → Text → FlowState N → List ChangedFile → Job → Job × Delta N
  unfolding run_found
  agent_executor deps agent_id state staged j =
      run_found deps agent_id state staged j (find (λ a. same a.id agent_id) j.agents)
