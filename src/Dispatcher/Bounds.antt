-- ===== src/Dispatcher/Bounds.antt =====
-- The limits of packages/harness-server/src/dispatcher.ts: how many jobs run and wait, and who
-- is refused.
use mathlib.Core.List.{append_assoc, append-nil, map-append}
use agentx_platform.Prelude.{
  ltb, leb, Bool-cases, length, length-append, Text, has, add, delete, Distinct, add-fresh,
  delete-Distinct, length-delete, delete-append_left, has-middle, ℕ, ◌+◌, ◌*◌, ◌≤◌, ◌<◌, ◌≡◌, refl,
  ap, ◌↔◌, inl, inr, List, [], ◌∷◌, ◌++◌, map, arith,
}
use agentx_platform.Dispatcher.{
  QueuedSubmission, DispatcherState, DispatchDecision, fire_immediate, enqueues, reject,
  queue_full_reason, evaluate_submission, fire_immediately, enqueue, pull_next, on_job_terminal,
  Event, submitted, ended, dispatch, queue_ids, init,
}

-- Every job that the dispatcher holds: the running ones, then the waiting ones.
abbrev pub held : DispatcherState → List Text
held s = s.in_flight ++ queue_ids s

pub record IsValid (s : DispatcherState) : Type 0 where
  pub running_le : length s.in_flight ≤ s.capacity
  pub waiting_le : length s.queue ≤ s.capacity
  pub busy : 0 < length s.queue → length s.in_flight ≡ s.capacity
  pub distinct : Distinct (held s)

-- The ids that the events submit.
abbrev pub submissions : List Event → List Text
submissions [] = []
submissions (submitted job_id now ∷ es) = job_id ∷ submissions es
submissions (ended job_id ∷ es) = submissions es

pub init-IsValid : (capacity : ℕ) → IsValid (init capacity)
init-IsValid capacity = ground arith

pub empty_of_room :
    (s : DispatcherState) → IsValid s → length s.in_flight < s.capacity → s.queue ≡ []
empty_of_room s v h = ground arith

-- With distinct jobs, a job that starts from the queue is not running yet, so the set grows.
pull_next-IsValid :
    (s : DispatcherState) (q : List QueuedSubmission)
    → s.queue ≡ q
    → length s.in_flight + 1 ≤ s.capacity
    → (0 < length q → length s.in_flight + 1 ≡ s.capacity)
    → length s.queue ≤ s.capacity
    → Distinct (held s)
    → IsValid (pull_next s q).0
unfolding pull_next
pull_next-IsValid s [] e l b w d = ground arith
pull_next-IsValid s (n ∷ rest) e l b w d = record {
  running_le = ground (arith, grown, length-append s.in_flight (n.job_id ∷ []));
  waiting_le = ground (arith, e);
  busy = λ _. ground (arith, grown, length-append s.in_flight (n.job_id ∷ []));
  distinct = rw (grown, append_assoc) whole;
}
  where
    whole : Distinct (s.in_flight ++ n.job_id ∷ map (λ q. q.job_id) rest)
    whole = rw e at d

    grown : add n.job_id s.in_flight ≡ s.in_flight ++ n.job_id ∷ []
    grown = add-fresh n.job_id s.in_flight (has-middle s.in_flight n.job_id _ whole)

pub on_job_terminal-IsValid :
    (s : DispatcherState) (job_id : Text) → IsValid s → IsValid (on_job_terminal s job_id).0
unfolding on_job_terminal
on_job_terminal-IsValid s job_id v = elim (Bool-cases (has job_id s.in_flight)) [
  | inr gone ↦ rw gone v
  | inl runs ↦ rw runs (
      pull_next-IsValid (record s { in_flight = delete job_id s.in_flight }) s.queue refl
        (omega (arith, length-delete job_id s.in_flight runs, v.running_le))
        (λ p. omega (arith, length-delete job_id s.in_flight runs, v.busy p)) v.waiting_le
        (rw (← delete-append_left job_id s.in_flight (queue_ids s) runs)
          (delete-Distinct job_id (held s) v.distinct)))
]

-- What a submission meets, with what the code knows on each branch.
pub data Verdict (s : DispatcherState) (d : DispatchDecision) : Type 0 where
  fires : d ≡ fire_immediate → length s.in_flight < s.capacity → Verdict s d
  waits :
      d ≡ enqueues
      → s.capacity ≤ length s.in_flight
      → length s.in_flight + length s.queue < s.capacity * 2
      → Verdict s d
  refused :
      (r : Text)
      → d ≡ reject r
      → s.capacity ≤ length s.in_flight
      → s.capacity * 2 ≤ length s.in_flight + length s.queue
      → Verdict s d

pub verdict : (s : DispatcherState) → Verdict s (evaluate_submission s)
unfolding evaluate_submission
verdict s = elim (Bool-cases (ltb (length s.in_flight) s.capacity)) [
  | inl room ↦ fires (rw room) (ground arith)
  | inr full ↦ elim (Bool-cases (leb (s.capacity * 2) (length s.in_flight + length s.queue))) [
    | inl over ↦
        refused (queue_full_reason s (s.capacity * 2)) (rw (full, over)) (ground arith)
          (ground arith)
    | inr fits ↦ waits (rw (full, fits)) (ground arith) (ground arith)
  ]
]

-- In a valid state the answer is decided by the two counts: a job starts at once while fewer than
-- `capacity` run, it waits while all slots are taken and fewer than `capacity` wait, and it is
-- refused exactly when `capacity` jobs run and `capacity` jobs wait.
pub evaluate_submission-exact :
    (s : DispatcherState)
    → IsValid s
    → ((evaluate_submission s ≡ fire_immediate) ↔ (length s.in_flight < s.capacity))
      × ((evaluate_submission s ≡ enqueues)
          ↔ ((length s.in_flight ≡ s.capacity) × (length s.queue < s.capacity)))
      × (((r : Text) × (evaluate_submission s ≡ reject r))
          ↔ ((length s.in_flight ≡ s.capacity) × (length s.queue ≡ s.capacity)))
evaluate_submission-exact s v = elim (verdict s) [
  | fires e room ↦ (
    (λ _. room, λ _. e),
    (λ h. ground arith, λ h. ground arith),
    (λ (r, h). ground arith, λ h. ground arith),
  )
  | waits e full fits ↦ (
    (λ h. ground arith, λ h. ground arith),
    (λ h. ground arith, λ h. e),
    (λ (r, h). ground arith, λ h. ground arith),
  )
  | refused r e full over ↦ (
    (λ h. ground arith, λ h. ground arith),
    (λ h. ground arith, λ h. ground arith),
    (λ h. ground arith, λ h. (r, e)),
  )
]

fire-IsValid :
    (s : DispatcherState) (job_id : Text)
    → IsValid s
    → length s.in_flight < s.capacity
    → Distinct (held s ++ job_id ∷ [])
    → IsValid (fire_immediately s job_id).0
unfolding fire_immediately
fire-IsValid s job_id v room d =
    let e : s.queue ≡ [] = empty_of_room s v room in
    let d' : Distinct (s.in_flight ++ job_id ∷ []) =
      rw (ap (map (λ q. q.job_id)) e, append-nil) at d in
    let grown = add-fresh job_id s.in_flight (has-middle s.in_flight job_id [] d') in
    record {
      running_le = ground (arith, grown, length-append s.in_flight (job_id ∷ []));
      waiting_le = v.waiting_le;
      busy = λ p. ground (arith, e);
      distinct = rw (grown, ap (map (λ q. q.job_id)) e, append-nil) d';
    }

enqueue-IsValid :
    (s : DispatcherState) (job_id : Text) (now : ℕ)
    → IsValid s
    → s.capacity ≤ length s.in_flight
    → length s.in_flight + length s.queue < s.capacity * 2
    → Distinct (held s ++ job_id ∷ [])
    → IsValid (enqueue s job_id now)
unfolding enqueue
enqueue-IsValid s job_id now v full fits d = record {
  running_le = v.running_le;
  waiting_le = omega (arith, length-append s.queue (new ∷ []), v.running_le);
  busy = λ _. omega (arith, v.running_le);
  distinct =
      rw (map-append (λ (q : QueuedSubmission). q.job_id) s.queue (new ∷ []), ← append_assoc) d;
}
  where
    new : QueuedSubmission
    new = record { job_id = job_id; enqueued_at = now }

-- The submission of a job that the dispatcher does not hold.
pub submit-IsValid :
    (s : DispatcherState) (job_id : Text) (now : ℕ)
    → IsValid s
    → Distinct (held s ++ job_id ∷ [])
    → IsValid (dispatch (evaluate_submission s) s job_id now).0
unfolding dispatch
submit-IsValid s job_id now v d = elim (verdict s) [
  | fires e room ↦ rw e (fire-IsValid s job_id v room d)
  | waits e full fits ↦ rw e (enqueue-IsValid s job_id now v full fits d)
  | refused r e full over ↦ rw e v
]
