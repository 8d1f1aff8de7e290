-- ===== src/Candidates/Fallback.antt =====
-- Which candidate decides in runCandidates of packages/harness-core/src/orchestrator.ts.
use agentx_platform.Prelude.{
  if◌then◌else◌, Text, Bool, true, false, not, ◌&&◌, Option, List, [], ◌∷◌, ◌++◌,
}
use agentx_platform.Candidates.{
  Attempt, not_built, answers, fails, AgentCandidate, CandidateOutcome, success,
  construction_failure, invoke_failure, policy_admits, construction_message, failure_message,
  run_candidates,
}

-- Whether a candidate gives way to one after it.
abbrev pub gives_way : Option (List Text) → AgentCandidate → Bool
gives_way fallback_on c = elim c.attempt [
  | not_built err ↦ c.fallback_eligible
  | answers _ _ ↦ false
  | fails _ err ↦ c.fallback_eligible && (err.is_adapter_error && policy_admits fallback_on err)
]

-- What a candidate that gives way leaves on the bus.
abbrev pub left_behind : AgentCandidate → List Text
left_behind c = elim c.attempt [
  | not_built err ↦ construction_message c err ∷ []
  | answers events _ ↦ events
  | fails events err ↦ events ++ failure_message c err ∷ []
]

abbrev pub all_left_behind : List AgentCandidate → List Text
all_left_behind [] = []
all_left_behind (c ∷ cs) = left_behind c ++ all_left_behind cs

-- What a candidate decides.
abbrev pub outcome_of : AgentCandidate → CandidateOutcome
outcome_of c = elim c.attempt [
  | not_built err ↦ construction_failure err
  | answers _ result ↦ success result
  | fails _ err ↦ invoke_failure err
]

abbrev pub own_events : AgentCandidate → List Text
own_events c = elim c.attempt [
  | not_built _ ↦ []
  | answers events _ ↦ events
  | fails events _ ↦ events
]

module _ (fallback_on : Option (List Text)) where
  -- The decision of one candidate, `is_last` told.
  decide : AgentCandidate → List AgentCandidate → Bool → CandidateOutcome × List Text
  decide c cs is_last = elim c.attempt [
    | not_built err ↦
        if not is_last && c.fallback_eligible
        then (let rest = run_candidates fallback_on cs err true in
            (rest.0, construction_message c err ∷ rest.1))
        else (construction_failure err, [])
    | answers events result ↦ (success result, events)
    | fails events err ↦
        if not is_last
          && (c.fallback_eligible && (err.is_adapter_error && policy_admits fallback_on err))
        then (let rest = run_candidates fallback_on cs err false in
            (rest.0, events ++ failure_message c err ∷ rest.1))
        else (invoke_failure err, events)
  ]

  abbrev made : Text → Bool → Attempt → AgentCandidate
  made l b a = record { label = l; fallback_eligible = b; attempt = a }
