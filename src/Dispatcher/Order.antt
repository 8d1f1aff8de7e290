-- ===== src/Dispatcher/Order.antt =====
-- When the jobs of packages/harness-server/src/dispatcher.ts start: in the order in which they were
-- admitted, and as soon as running jobs end.
use mathlib.Core.List.{append_assoc, append-nil, map-append}
use agentx_platform.Prelude.{
  if◌then◌else◌, Bool-cases, length, take, drop, Text, has, Distinct, has-delete_self,
  Distinct-append_left, has-append_left, ℕ, zero, suc, ◌≡◌, refl, sym, ap, ◌∙◌, inl, inr, Bool,
  true, false, List, [], ◌∷◌, ◌++◌, map, arith,
}
use agentx_platform.Dispatcher.{
  QueuedSubmission, DispatcherState, DispatchDecision, reject, evaluate_submission, pull_next,
  on_job_terminal, Event, submitted, ended, dispatch, step, run, queue_ids,
}
use agentx_platform.Dispatcher.Bounds.{
  held, IsValid, submissions, empty_of_room, on_job_terminal-IsValid, fires, waits, refused,
  verdict, submit-IsValid,
}
use agentx_platform.Dispatcher.Held.{held-on_job_terminal, submit-Distinct, ended-Distinct}

abbrev pub admits : DispatchDecision → Bool
admits (reject reason) = false
admits _ = true

-- The jobs that a run of events admits, in the order of their submission.
unfoldable pub admitted : DispatcherState → List Event → List Text
unfolding step
admitted s [] = []
admitted s (submitted job_id now ∷ es) =
    let later = admitted (step s (submitted job_id now)).0 es in
    if admits (evaluate_submission s) then job_id ∷ later else later
admitted s (ended job_id ∷ es) = admitted (step s (ended job_id)).0 es

started-submitted :
    (s : DispatcherState) (job_id : Text) (now : ℕ)
    → IsValid s
    → let r = dispatch (evaluate_submission s) s job_id now in
      r.1 ++ queue_ids r.0
      ≡ queue_ids s ++ (if admits (evaluate_submission s) then job_id ∷ [] else [])
unfolding dispatch
started-submitted s job_id now v = elim (verdict s) [
  | fires e room ↦ rw e (ground (arith, empty_of_room s v room))
  | waits e full fits ↦ rw e (
      map-append (λ (q : QueuedSubmission). q.job_id) s.queue
        (record { job_id = job_id; enqueued_at = now } ∷ []))
  | refused r e full over ↦ rw (e, append-nil) refl
]

started-pull_next :
    (s : DispatcherState) (q : List QueuedSubmission)
    → s.queue ≡ q
    → (pull_next s q).1 ++ queue_ids (pull_next s q).0 ≡ map (λ q. q.job_id) q
unfolding pull_next
started-pull_next s [] e = rw e refl
started-pull_next s (n ∷ rest) e = refl

started-ended :
    (s : DispatcherState) (job_id : Text)
    → (on_job_terminal s job_id).1 ++ queue_ids (on_job_terminal s job_id).0 ≡ queue_ids s
unfolding on_job_terminal
started-ended s job_id = elim (Bool-cases (has job_id s.in_flight)) [
  | inr gone ↦ rw gone refl
  | inl runs ↦ rw runs (started-pull_next _ s.queue refl)
]

weave :
    (a b c q' q new rest : List Text)
    → a ++ q' ≡ q ++ new
    → b ++ c ≡ q' ++ rest
    → (a ++ b) ++ c ≡ q ++ (new ++ rest)
weave a b c q' q new rest h k = rw (append_assoc, k, ← append_assoc, h, append_assoc) refl

if_append :
    (b : Bool) (j : Text) (rest : List Text)
    → (if b then j ∷ [] else []) ++ rest ≡ (if b then j ∷ rest else rest)
if_append b j rest = ground arith

-- First come, first served: the jobs that have started, followed by those that still wait, are the
-- ones that waited at first, followed by those that were admitted since, in order of admission.
-- The state is valid, and all jobs held or submitted have different ids.
pub run-fifo :
    (s : DispatcherState) (es : List Event)
    → IsValid s
    → Distinct (held s ++ submissions es)
    → (run s es).1 ++ queue_ids (run s es).0 ≡ queue_ids s ++ admitted s es
unfolding run admitted
run-fifo s [] v d = sym (append-nil (queue_ids s))
run-fifo s (submitted job_id now ∷ es) v d =
    let s' = (dispatch (evaluate_submission s) s job_id now).0 in
    weave _ (run s' es).1 _ (queue_ids s') (queue_ids s) _ (admitted s' es)
      (started-submitted s job_id now v)
      (run-fifo s' es
        (submit-IsValid s job_id now v
          (Distinct-append_left (held s ++ job_id ∷ []) (submissions es) (rw append_assoc d)))
        (submit-Distinct s job_id now (submissions es) v d))
    ∙ ap (◌++◌ (queue_ids s)) (if_append (admits (evaluate_submission s)) job_id _)
run-fifo s (ended job_id ∷ es) v d =
    let s' = (on_job_terminal s job_id).0 in
    weave _ (run s' es).1 _ (queue_ids s') (queue_ids s) [] (admitted s' es)
      (started-ended s job_id ∙ sym (append-nil (queue_ids s)))
      (run-fifo s' es (on_job_terminal-IsValid s job_id v)
        (ended-Distinct s job_id (submissions es) v d))

-- The given jobs run when their end is reported, one after the other.
abbrev pub EndRunning : DispatcherState → List Text → Type 0
EndRunning s [] = Unit {0}
EndRunning s (j ∷ js) = (has j s.in_flight ≡ true) × EndRunning (on_job_terminal s j).0 js

ended_starts :
    (s : DispatcherState) (q : List QueuedSubmission)
    → s.queue ≡ q
    → ((pull_next s q).1 ≡ take 1 (map (λ q. q.job_id) q))
      × (queue_ids (pull_next s q).0 ≡ drop 1 (map (λ q. q.job_id) q))
unfolding pull_next
ended_starts s [] e = (refl, ap (map (λ q. q.job_id)) e)
ended_starts s (n ∷ rest) e = (refl, refl)

on_job_terminal-starts :
    (s : DispatcherState) (j : Text)
    → has j s.in_flight ≡ true
    → ((on_job_terminal s j).1 ≡ take 1 (queue_ids s))
      × (queue_ids (on_job_terminal s j).0 ≡ drop 1 (queue_ids s))
unfolding on_job_terminal
on_job_terminal-starts s j h = rw h (ended_starts _ s.queue refl)

take_split {ℓ} :
    {A : Type ℓ} (n : ℕ) (xs : List A) → take 1 xs ++ take n (drop 1 xs) ≡ take (suc n) xs
take_split zero [] = refl
take_split (suc n) [] = refl
take_split n (x ∷ xs) = refl

-- No queued job is forgotten: after the end of n running jobs exactly the first n queued jobs (all
-- of them, if there are fewer) have started, in order.
pub run-ended :
    (s : DispatcherState) (js : List Text)
    → EndRunning s js
    → (run s (map ended js)).1 ≡ take (length js) (queue_ids s)
unfolding run
run-ended s [] r = refl
run-ended s (j ∷ js) r =
    let (first, left) = on_job_terminal-starts s j r.0 in
    rw (run-ended (on_job_terminal s j).0 js r.1, first, left)
      (take_split (length js) (queue_ids s))

on_job_terminal_absent :
    (s : DispatcherState) (j : Text) → has j s.in_flight ≡ false → on_job_terminal s j ≡ (s, [])
unfolding on_job_terminal
on_job_terminal_absent s j h = rw h refl

-- Reporting an end twice is reporting it once: the second report changes nothing and starts
-- nothing. The state is valid.
pub on_job_terminal_twice :
    (s : DispatcherState) (j : Text)
    → IsValid s
    → on_job_terminal (on_job_terminal s j).0 j ≡ ((on_job_terminal s j).0, [])
on_job_terminal_twice s j v =
    on_job_terminal_absent (on_job_terminal s j).0 j (elim (Bool-cases (has j s.in_flight)) [
      | inr gone ↦ rw (on_job_terminal_absent s j gone) gone
      | inl runs ↦
          has-append_left j (on_job_terminal s j).0.in_flight (queue_ids (on_job_terminal s j).0)
            (rw (held-on_job_terminal s j v, runs) (has-delete_self j (held s) v.distinct))
    ])
