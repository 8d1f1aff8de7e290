-- ===== src/Candidates/Tests.antt =====
-- Candidates of runCandidates in packages/harness-core/src/orchestrator.ts.
use agentx_platform.Prelude.{Text, codes, same, has, ◌≡◌, refl, true, false, none, some, [], ◌∷◌}
use agentx_platform.Candidates.{
  Failure, answers, fails, AgentCandidate, success, invoke_failure, run_candidates,
}

abbrev no_error : Failure
no_error = record { is_adapter_error = false; name = codes "Error"; message = [] }

abbrev rate_limit : Failure
rate_limit = record {
  is_adapter_error = true;
  name = codes "RateLimitError";
  message = codes "slow down";
}

abbrev auth_error : Failure
auth_error = record { is_adapter_error = true; name = codes "AuthError"; message = codes "no key" }

abbrev limited : AgentCandidate
limited = record {
  label = codes "p:m1";
  fallback_eligible = true;
  attempt = fails (codes "request" ∷ []) rate_limit;
}

abbrev refused : AgentCandidate
refused = record {
  label = codes "p:m2";
  fallback_eligible = true;
  attempt = fails (codes "request" ∷ []) auth_error;
}

abbrev good : AgentCandidate
good = record {
  label = codes "p:m3";
  fallback_eligible = true;
  attempt = answers (codes "request" ∷ codes "response" ∷ []) (codes "done");
}

abbrev limited_message : Text
limited_message = codes "p:m1 failed (RateLimitError): slow down — falling back to next binding"

limited_test : run_candidates none (limited ∷ good ∷ refused ∷ []) no_error false ≡ (
  success (codes "done"),
  codes "request" ∷ limited_message ∷ codes "request" ∷ codes "response" ∷ [],
)
unfolding run_candidates has same
limited_test = refl

refused_test :
    run_candidates none (refused ∷ good ∷ []) no_error false
    ≡ (invoke_failure auth_error, codes "request" ∷ [])
unfolding run_candidates has same
refused_test = refl

any_error_test :
    (run_candidates (some (codes "AdapterError" ∷ [])) (refused ∷ good ∷ []) no_error false).0
    ≡ success (codes "done")
unfolding run_candidates has same
any_error_test = refl
