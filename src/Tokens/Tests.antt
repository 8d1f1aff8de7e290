-- ===== src/Tokens/Tests.antt =====
-- A job whose agents answer.
use agentx_platform.Prelude.{
  ◌==◌, if◌then◌else◌, All, Text, codes, same, lookup, insert, remove, has, add, delete, ℕ, ◌≡◌,
  refl, Bool, true, false, Option, none, some, List, [], ◌∷◌,
}
use agentx_platform.Tokens.{
  RegisteredAgent, JobRecord, AdapterEvent, response, other_event, Envelope, sum, charge_agent,
  charge_agents, charge_job, handle,
}
use agentx_platform.Tokens.Balance.{total, total_of, IsBalanced, handle_all, handle_all-IsBalanced}
use agentx_platform.Tokens.Bus.{
  publish, subscribe, unsubscribe, subscriber_count, attach, detach, attached_job_ids,
}
use agentx_platform.Tokens.Calls.{
  Call, attaching, detaching, coming, call, history, nothing_attached,
}
use agentx_platform.Tokens.Deliver.{is_attached_after, Jobs, publish-history}

abbrev worker : RegisteredAgent
worker = record { id = codes "a1"; tokens = none; token_history = none }

abbrev writer : RegisteredAgent
writer = record {
  id = codes "a2";
  tokens = some (record { input = 5; output = 2 });
  token_history = some (record { input = 5; output = 2 } ∷ []);
}

abbrev two_agents : JobRecord
two_agents = record {
  agents = worker ∷ writer ∷ [];
  job_tokens = some (record { input = 5; output = 2 });
}

abbrev answered : Text → Option ℕ → Option ℕ → Envelope
answered agent p c = record {
  job_id = codes "j1";
  agent_id = agent;
  event = response (some (record { prompt_tokens = p; completion_tokens = c }));
}

-- Two answers, an empty one, one of an agent nobody knows, and another event.
abbrev answers : List Envelope
answers =
    answered (codes "a1") (some 10) (some 3)
    ∷ answered (codes "a2") (some 1) none
    ∷ answered (codes "a1") none none
    ∷ answered (codes "a9") (some 7) (some 7)
    ∷ record { job_id = codes "j1"; agent_id = codes "a1"; event = other_event }
    ∷ []

abbrev jobs : List (Text × JobRecord)
jobs = (codes "j1", two_agents) ∷ []

handle_all_test : handle_all answers jobs ≡ (
    (
      codes "j1",
      record {
        agents =
            record {
              id = codes "a1";
              tokens = some (record { input = 10; output = 3 });
              token_history = some (record { input = 10; output = 3 } ∷ []);
            }
            ∷ record {
              id = codes "a2";
              tokens = some (record { input = 6; output = 2 });
              token_history =
                  some (record { input = 5; output = 2 } ∷ record { input = 1; output = 0 } ∷ []);
            }
            ∷ [];
        job_tokens = some (record { input = 16; output = 5 });
      },
    )
    ∷ [])
unfolding handle_all handle charge_job charge_agents charge_agent sum lookup insert same
handle_all_test = refl

jobs-IsBalanced : All (λ e. IsBalanced e.1) jobs
unfolding total total_of
jobs-IsBalanced = ((((refl, (refl, tt)), refl), tt))

handle_all-IsBalanced_example : All (λ e. IsBalanced e.1) (handle_all answers jobs)
handle_all-IsBalanced_example = handle_all-IsBalanced answers jobs jobs-IsBalanced

-- The accumulator's closures begin with a t, a viewer's with a v.
abbrev tally_first : Text
tally_first = codes "t1"

abbrev tally_again : Text
tally_again = codes "t2"

abbrev viewer : Text
viewer = codes "v1"

abbrev job_one : Text
job_one = codes "j1"

abbrev is_tally : Text → Bool
is_tally [] = false
is_tally (c ∷ cs) = c == 116

abbrev run_closure : Text → Envelope → Jobs → Jobs
run_closure h env jobs = if is_tally h then handle env jobs else jobs

abbrev ten_three : AdapterEvent
ten_three = response (some (record { prompt_tokens = some 10; completion_tokens = some 3 }))

-- Attached twice, with a viewer between; another job is attached and left.
abbrev busy_calls : List Call
busy_calls =
    attaching job_one tally_first
    ∷ coming job_one viewer
    ∷ attaching job_one tally_again
    ∷ attaching (codes "j2") tally_again
    ∷ detaching (codes "j2")
    ∷ []

busy_calls_test : history busy_calls nothing_attached ≡ record {
  bus = (job_one, tally_first ∷ viewer ∷ []) ∷ [];
  unsubs = (job_one, tally_first) ∷ [];
}
unfolding history call attach detach subscribe unsubscribe add has delete lookup insert remove same
busy_calls_test = refl

detached_test :
    attached_job_ids (history (detaching job_one ∷ []) (history busy_calls nothing_attached)) ≡ []
unfolding history call attach detach subscribe unsubscribe add has delete lookup insert remove same
detached_test = refl

subscriber_count_test : subscriber_count job_one (history busy_calls nothing_attached).bus ≡ 2
unfolding history call attach detach subscribe unsubscribe add has delete lookup insert remove same
    subscriber_count
subscriber_count_test = refl

run_closure-handle :
    (h : Text) (env : Envelope) (jobs : Jobs)
    → is_tally h ≡ true
    → run_closure h env jobs ≡ handle env jobs
run_closure-handle h env jobs e = rw e refl

run_closure-other :
    (h : Text) (env : Envelope) (jobs : Jobs) → is_tally h ≡ false → run_closure h env jobs ≡ jobs
run_closure-other h env jobs e = rw e refl

publish-history_example :
    publish run_closure job_one
      (codes "a1")
      ten_three
      (history busy_calls nothing_attached).bus
      jobs
    ≡ (if is_attached_after job_one busy_calls false
        then handle (record { job_id = job_one; agent_id = codes "a1"; event = ten_three }) jobs
        else jobs)
publish-history_example =
    publish-history is_tally run_closure run_closure-handle run_closure-other busy_calls job_one
      (codes "a1") ten_three jobs (refl, (refl, (refl, (refl, (tt, tt)))))
