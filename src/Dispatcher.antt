-- ===== src/Dispatcher.antt =====
-- packages/harness-server/src/dispatcher.ts: the bounded pool of running jobs with its queue, and
-- the two places of packages/harness-server/src/index.ts that drive it. `inFlight` is the list of
-- the set's elements; a closure `fire` is known by its job, so a call of it is the job's id in the
-- list of started jobs that an operation returns.
pub mod Bounds
pub mod Held
pub mod Order
mod Tests
use agentx_platform.Prelude.{
  ℕ, ◌+◌, ◌*◌, ◌-◌, List, [], ◌∷◌, ◌++◌, map, ltb, leb, if◌then◌else◌, length, Text, codes, decimal,
  has, add, delete,
}

pub record QueuedSubmission : Type 0 where
  pub job_id : Text
  pub enqueued_at : ℕ

pub record DispatcherState : Type 0 where
  pub in_flight : List Text
  pub queue : List QueuedSubmission
  pub capacity : ℕ

abbrev pub queue_backpressure_multiplier : ℕ
queue_backpressure_multiplier = 2

pub data DispatchDecision : Type 0 where
  fire_immediate : DispatchDecision
  enqueues : DispatchDecision
  reject : Text → DispatchDecision

queue_full_reason : DispatcherState → ℕ → Text
queue_full_reason s overflow_at =
    codes "queue full — "
    ++ (decimal (length s.in_flight)
        ++ (codes " in-flight, "
            ++ (decimal (length s.queue) ++ (codes " queued, max " ++ decimal overflow_at))))

unfoldable pub evaluate_submission : DispatcherState → DispatchDecision
unfolding queue_full_reason
evaluate_submission s =
    let overflow_at = s.capacity * queue_backpressure_multiplier in
    if ltb (length s.in_flight) s.capacity
    then fire_immediate
    else if leb overflow_at (length s.in_flight + length s.queue)
    then reject (queue_full_reason s overflow_at)
    else enqueues

-- The state after the call, and the jobs whose `fire` it schedules, in order.
unfoldable pub fire_immediately : DispatcherState → Text → DispatcherState × List Text
fire_immediately s job_id = (record s { in_flight = add job_id s.in_flight }, job_id ∷ [])

unfoldable pub enqueue : DispatcherState → Text → ℕ → DispatcherState
enqueue s job_id now = record s {
  queue = s.queue ++ record { job_id = job_id; enqueued_at = now } ∷ [];
}

-- `shift` and the start of what it returns.
pull_next : DispatcherState → List QueuedSubmission → DispatcherState × List Text
pull_next s [] = (s, [])
pull_next s (next ∷ rest) =
    (record s { in_flight = add next.job_id s.in_flight; queue = rest }, next.job_id ∷ [])

unfoldable pub on_job_terminal : DispatcherState → Text → DispatcherState × List Text
unfolding pull_next
on_job_terminal s job_id =
    if has job_id s.in_flight
    then pull_next (record s { in_flight = delete job_id s.in_flight }) s.queue
    else (s, [])

pub record StatusSnapshot : Type 0 where
  pub snapshot_capacity : ℕ
  pub snapshot_in_flight : List Text
  pub queued : List (Text × ℕ × ℕ)

-- Each queued job with its time of entry and how long it has waited; clocks do not run backwards.
unfoldable pub status_snapshot : DispatcherState → ℕ → StatusSnapshot
status_snapshot s now = record {
  snapshot_capacity = s.capacity;
  snapshot_in_flight = s.in_flight;
  queued = map (λ q. (q.job_id, q.enqueued_at, now - q.enqueued_at)) s.queue;
}

-- What reaches the dispatcher: a submission, or the end of a job (completed, failed, cancelled).
pub data Event : Type 0 where
  submitted : Text → ℕ → Event
  ended : Text → Event

pub dispatch : DispatchDecision → DispatcherState → Text → ℕ → DispatcherState × List Text
unfolding fire_immediately enqueue
dispatch fire_immediate s job_id now = fire_immediately s job_id
dispatch enqueues s job_id now = (enqueue s job_id now, [])
dispatch (reject reason) s job_id now = (s, [])

unfoldable pub step : DispatcherState → Event → DispatcherState × List Text
unfolding dispatch evaluate_submission on_job_terminal
step s (submitted job_id now) = dispatch (evaluate_submission s) s job_id now
step s (ended job_id) = on_job_terminal s job_id

-- All started jobs of a run, in order.
unfoldable pub run : DispatcherState → List Event → DispatcherState × List Text
unfolding step
run s [] = (s, [])
run s (e ∷ es) =
    let (s', started) = step s e in let (s'', later) = run s' es in (s'', started ++ later)

abbrev pub queue_ids : DispatcherState → List Text
queue_ids s = map (λ q. q.job_id) s.queue

abbrev pub init : ℕ → DispatcherState
init capacity = record { in_flight = []; queue = []; capacity = capacity }
