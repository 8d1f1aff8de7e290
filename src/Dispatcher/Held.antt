-- ===== src/Dispatcher/Held.antt =====
-- Which jobs packages/harness-server/src/dispatcher.ts holds after each operation.
use mathlib.Core.List.{append_assoc, append-nil, map-append}
use agentx_platform.Prelude.{
  if◌then◌else◌, Bool-cases, Text, has, add, delete, Distinct, add-fresh, delete-Distinct,
  delete-append_left, Distinct-append_left, Distinct-drop_middle, has-middle, has-append_left,
  has-append_intro, ℕ, ◌≡◌, refl, ap, inl, inr, false, List, [], ◌∷◌, ◌++◌, map,
}
use agentx_platform.Dispatcher.{
  QueuedSubmission, DispatcherState, evaluate_submission, fire_immediately, enqueue, pull_next,
  on_job_terminal, Event, submitted, ended, dispatch, run, queue_ids,
}
use agentx_platform.Dispatcher.Bounds.{
  held, IsValid, submissions, empty_of_room, on_job_terminal-IsValid, fires, waits, refused,
  verdict, submit-IsValid,
}

held-fire :
    (s : DispatcherState) (job_id : Text)
    → s.queue ≡ []
    → has job_id s.in_flight ≡ false
    → held (fire_immediately s job_id).0 ≡ held s ++ job_id ∷ []
unfolding fire_immediately
held-fire s job_id e h =
    rw (add-fresh job_id s.in_flight h, ap (map (λ q. q.job_id)) e, append-nil, append-nil) refl

held-enqueue :
    (s : DispatcherState) (job_id : Text) (now : ℕ)
    → held (enqueue s job_id now) ≡ held s ++ job_id ∷ []
unfolding enqueue
held-enqueue s job_id now =
    rw
      (
        map-append (λ (q : QueuedSubmission). q.job_id) s.queue
            (record { job_id = job_id; enqueued_at = now } ∷ []),
        append_assoc,
      )
      refl

held-pull_next :
    (s : DispatcherState) (q : List QueuedSubmission)
    → s.queue ≡ q
    → Distinct (held s)
    → held (pull_next s q).0 ≡ held s
unfolding pull_next
held-pull_next s [] e d = refl
held-pull_next s (n ∷ rest) e d = rw (grown, append_assoc, ap (map (λ q. q.job_id)) e) refl
  where
    whole : Distinct (s.in_flight ++ n.job_id ∷ map (λ q. q.job_id) rest)
    whole = rw e at d

    grown : add n.job_id s.in_flight ≡ s.in_flight ++ n.job_id ∷ []
    grown = add-fresh n.job_id s.in_flight (has-middle s.in_flight n.job_id _ whole)

pub held-on_job_terminal :
    (s : DispatcherState) (job_id : Text)
    → IsValid s
    → held (on_job_terminal s job_id).0
      ≡ (if has job_id s.in_flight then delete job_id (held s) else held s)
unfolding on_job_terminal
held-on_job_terminal s job_id v = elim (Bool-cases (has job_id s.in_flight)) [
  | inr gone ↦ rw gone refl
  | inl runs ↦
      rw (runs, delete-append_left job_id s.in_flight (queue_ids s) runs)
        (held-pull_next (record s { in_flight = delete job_id s.in_flight }) s.queue refl
          (rw (← delete-append_left job_id s.in_flight (queue_ids s) runs)
            (delete-Distinct job_id (held s) v.distinct)))
]

-- Jobs that are yet to be submitted stay apart from those that are held.
pub submit-Distinct :
    (s : DispatcherState) (job_id : Text) (now : ℕ) (rest : List Text)
    → IsValid s
    → Distinct (held s ++ job_id ∷ rest)
    → Distinct (held (dispatch (evaluate_submission s) s job_id now).0 ++ rest)
unfolding dispatch
submit-Distinct s job_id now rest v d = elim (verdict s) [
  | fires e room ↦
      rw
        (
          e,
          held-fire s job_id (empty_of_room s v room) (
              has-append_left job_id s.in_flight (queue_ids s) (has-middle (held s) job_id rest d)),
          append_assoc,
        )
        d
  | waits e full fits ↦ rw (e, held-enqueue s job_id now, append_assoc) d
  | refused r e full over ↦ rw e (Distinct-drop_middle (held s) job_id rest d)
]

pub ended-Distinct :
    (s : DispatcherState) (job_id : Text) (rest : List Text)
    → IsValid s
    → Distinct (held s ++ rest)
    → Distinct (held (on_job_terminal s job_id).0 ++ rest)
ended-Distinct s job_id rest v d =
    rw (held-on_job_terminal s job_id v) (elim (Bool-cases (has job_id s.in_flight)) [
      | inr gone ↦ rw gone d
      | inl runs ↦
          rw
            (
              runs,
              ← delete-append_left job_id (held s) rest
                  (has-append_intro job_id s.in_flight (queue_ids s) runs),
            )
            (delete-Distinct job_id (held s ++ rest) d)
    ])

-- A run keeps the dispatcher valid, as long as every submitted job has an id of its own.
pub run-IsValid :
    (s : DispatcherState) (es : List Event)
    → IsValid s
    → Distinct (held s ++ submissions es)
    → IsValid (run s es).0
unfolding run
run-IsValid s [] v d = v
run-IsValid s (submitted job_id now ∷ es) v d =
    run-IsValid (dispatch (evaluate_submission s) s job_id now).0 es
      (submit-IsValid s job_id now v
        (Distinct-append_left (held s ++ job_id ∷ []) (submissions es) (rw append_assoc d)))
      (submit-Distinct s job_id now (submissions es) v d)
run-IsValid s (ended job_id ∷ es) v d =
    run-IsValid (on_job_terminal s job_id).0 es (on_job_terminal-IsValid s job_id v)
      (ended-Distinct s job_id (submissions es) v d)
