-- ===== src/Dispatcher/Tests.antt =====
-- Runs of packages/harness-server/src/dispatcher.ts at concrete inputs.
use agentx_platform.Prelude.{
  Text, codes, same, decimal, has, add, delete, Distinct, ◌≡◌, refl, List, [], ◌∷◌, ◌++◌, arith,
}
use agentx_platform.Dispatcher.{
  DispatcherState, reject, evaluate_submission, on_job_terminal, status_snapshot, Event, submitted,
  ended, run, queue_ids, init,
}
use agentx_platform.Dispatcher.Bounds.{
  held, IsValid, submissions, init-IsValid, evaluate_submission-exact,
}
use agentx_platform.Dispatcher.Held.{run-IsValid}
use agentx_platform.Dispatcher.Order.{admitted, run-fifo, run-ended}

abbrev job_a : Text
job_a = codes "a"

abbrev job_b : Text
job_b = codes "b"

abbrev job_c : Text
job_c = codes "c"

-- One slot: `a` runs, `b` waits, `c` is refused; then `a` ends, and `d` takes the free place.
abbrev history : List Event
history =
    submitted job_a 0
    ∷ submitted job_b 1
    ∷ submitted job_c 2
    ∷ ended job_a
    ∷ submitted (codes "d") 3
    ∷ []

history_starts : (run (init 1) history).1 ≡ job_a ∷ job_b ∷ []
unfolding run has add delete same decimal
history_starts = refl

history_waits : queue_ids (run (init 1) history).0 ≡ codes "d" ∷ []
unfolding run has add delete same decimal
history_waits = refl

waiting_times :
    (status_snapshot (run (init 1) (submitted job_a 0 ∷ submitted job_b 4 ∷ [])).0 9).queued
    ≡ (job_b, 4, 5) ∷ []
unfolding run has add delete same status_snapshot
waiting_times = refl

abbrev full : DispatcherState
full = record {
  in_flight = job_a ∷ [];
  queue = record { job_id = job_b; enqueued_at = 1 } ∷ [];
  capacity = 1;
}

full-IsValid : IsValid full
unfolding has same
full-IsValid = record {
  running_le = omega arith;
  waiting_le = omega arith;
  busy = λ _. refl;
  distinct = (refl, (refl, tt));
}

history-Distinct : Distinct (held (init 1) ++ submissions history)
unfolding has same
history-Distinct = (refl, (refl, (refl, (refl, tt))))

evaluate_submission-exact_example : (r : Text) × (evaluate_submission full ≡ reject r)
evaluate_submission-exact_example = (evaluate_submission-exact full full-IsValid).2.1 (refl, refl)

run-IsValid_example : IsValid (run (init 1) history).0
run-IsValid_example = run-IsValid (init 1) history (init-IsValid 1) history-Distinct

run-fifo_example :
    (run (init 1) history).1 ++ queue_ids (run (init 1) history).0 ≡ admitted (init 1) history
run-fifo_example = run-fifo (init 1) history (init-IsValid 1) history-Distinct

run-ended_example : (run full (ended job_a ∷ ended job_b ∷ [])).1 ≡ job_b ∷ []
unfolding on_job_terminal has add delete same
run-ended_example = run-ended full (job_a ∷ job_b ∷ []) (refl, (refl, tt))
