-- ===== src/Tokens.antt =====
-- packages/harness-core/src/token-accumulator.ts: what the responses of adapters cost, added up on
-- the agents and jobs of packages/harness-core/src/job.ts.
pub mod Balance
pub mod Bus
pub mod Calls
pub mod Deliver
pub mod Listeners
pub mod Once
mod Tests
use agentx_platform.Prelude.{
  ◌==◌, if◌then◌else◌, or_default, Text, same, lookup, insert, ℕ, ◌+◌, ◌&&◌, Option, none, some,
  List, [], ◌∷◌, ◌++◌,
}

pub record AgentTokens : Type 0 where
  pub input : ℕ
  pub output : ℕ

-- The fields that a charge reads or changes.
pub record RegisteredAgent : Type 0 where
  pub id : Text
  pub tokens : Option AgentTokens
  pub token_history : Option (List AgentTokens)

-- The agents of a job and the total it has used; the other fields are never touched here.
pub record JobRecord : Type 0 where
  pub agents : List RegisteredAgent
  pub job_tokens : Option AgentTokens

pub record TokenUsage : Type 0 where
  pub prompt_tokens : Option ℕ
  pub completion_tokens : Option ℕ

-- Of the events, only responses carry usage.
pub data AdapterEvent : Type 0 where
  response : Option TokenUsage → AdapterEvent
  other_event : AdapterEvent

pub record Envelope : Type 0 where
  pub job_id : Text
  pub agent_id : Text
  pub event : AdapterEvent

unfoldable pub sum : Option AgentTokens → AgentTokens → AgentTokens
sum none inc = inc
sum (some prev) inc = record { input = prev.input + inc.input; output = prev.output + inc.output }

abbrev pub entry_of : TokenUsage → AgentTokens
entry_of u = record {
  input = or_default u.prompt_tokens 0;
  output = or_default u.completion_tokens 0;
}

unfoldable pub charge_agent : AgentTokens → RegisteredAgent → RegisteredAgent
unfolding sum
charge_agent e a = record a {
  tokens = some (sum a.tokens e);
  token_history = some (or_default a.token_history [] ++ (e ∷ []));
}

-- The first agent of that id is changed in place; `none` when there is no such agent.
unfoldable pub charge_agents :
    Text → AgentTokens → List RegisteredAgent → Option (List RegisteredAgent)
charge_agents id e [] = none
charge_agents id e (a ∷ as') =
    let rest = charge_agents id e as' in
    if same a.id id
    then some (charge_agent e a ∷ as')
    else elim rest [ none ↦ none | some bs ↦ some (a ∷ bs) ]

unfoldable pub charge_job : Text → AgentTokens → JobRecord → JobRecord
charge_job id e j = elim (charge_agents id e j.agents) [
  | none ↦ j
  | some as' ↦
      if (e.input == 0) && (e.output == 0)
      then j
      else record { agents = as'; job_tokens = some (sum j.job_tokens e) }
]

unfoldable pub handle : Envelope → List (Text × JobRecord) → List (Text × JobRecord)
handle env jobs = elim env.event [
  | other_event ↦ jobs
  | response none ↦ jobs
  | response (some usage) ↦ elim (lookup env.job_id jobs) [
    | none ↦ jobs
    | some j ↦ insert env.job_id (charge_job env.agent_id (entry_of usage) j) jobs
  ]
]
