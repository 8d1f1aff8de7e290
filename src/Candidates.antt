-- ===== src/Candidates.antt =====
-- packages/harness-core/src/orchestrator.ts, runCandidates: the adapters that an agent may use are
-- tried in order, and an error of one may fall back to the next.
pub mod Fallback
mod Tests
use agentx_platform.Prelude.{
  ◌==◌, if◌then◌else◌, or_default, length, Text, codes, has, Bool, true, false, not, ◌&&◌, ◌||◌,
  Option, List, [], ◌∷◌, ◌++◌,
}

-- An error: whether it is an AdapterError, its name (that of its class) and its message.
pub record Failure : Type 0 where
  pub is_adapter_error : Bool
  pub name : Text
  pub message : Text

-- What comes of building an adapter and calling it: it cannot be built, or it emits messages and
-- then answers or throws.
pub data Attempt : Type 0 where
  not_built : Failure → Attempt
  answers : List Text → Text → Attempt
  fails : List Text → Failure → Attempt

pub record AgentCandidate : Type 0 where
  pub label : Text
  pub fallback_eligible : Bool
  pub attempt : Attempt

pub data CandidateOutcome : Type 0 where
  success : Text → CandidateOutcome
  construction_failure : Failure → CandidateOutcome
  invoke_failure : Failure → CandidateOutcome

abbrev pub default_fallback_errors : List Text
default_fallback_errors =
    codes "BillingError"
    ∷ codes "RateLimitError"
    ∷ codes "NetworkError"
    ∷ codes "ProviderError"
    ∷ []

abbrev pub policy_admits : Option (List Text) → Failure → Bool
policy_admits fallback_on err =
    let policy = or_default fallback_on default_fallback_errors in
    has (if err.is_adapter_error then err.name else []) policy || has (codes "AdapterError") policy

abbrev pub construction_message : AgentCandidate → Failure → Text
construction_message c err =
    c.label
    ++ codes " construction failed: "
    ++ err.message
    ++ codes " — falling back to next binding"

abbrev pub failure_message : AgentCandidate → Failure → Text
failure_message c err =
    c.label
    ++ codes " failed ("
    ++ err.name
    ++ codes "): "
    ++ err.message
    ++ codes " — falling back to next binding"

-- The outcome, and the messages of the events that go to the bus. The last two arguments are the
-- last error and whether it was one of construction.
unfoldable pub run_candidates :
    Option (List Text) → List AgentCandidate → Failure → Bool → CandidateOutcome × List Text
run_candidates fallback_on [] err was_construction =
    (if was_construction then construction_failure err else invoke_failure err, [])
run_candidates fallback_on (c ∷ cs) _ _ =
    let is_last = length cs == 0 in
    elim c.attempt [
      | not_built err ↦
          if not is_last && c.fallback_eligible
          then (let rest = run_candidates fallback_on cs err true in
              (rest.0, construction_message c err ∷ rest.1))
          else (construction_failure err, [])
      | answers events result ↦ (success result, events)
      | fails events err ↦
          if not is_last
            && (c.fallback_eligible && (err.is_adapter_error && policy_admits fallback_on err))
          then (let rest = run_candidates fallback_on cs err false in
              (rest.0, events ++ failure_message c err ∷ rest.1))
          else (invoke_failure err, events)
    ]
