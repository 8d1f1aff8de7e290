-- ===== src/Tokens/Deliver.antt =====
-- The accumulator of packages/harness-core/src/token-accumulator.ts among other handlers on the bus
-- of packages/harness-core/src/job-bus.ts: which events it hears.
use agentx_platform.Prelude.{
  if◌then◌else◌, Bool-cases, or_default, is_some, keep, All, Text, same, same→eq, lookup, insert,
  remove, lookup-insert, lookup-remove, ◌≡◌, refl, sym, ap, ◌∙◌, inl, inr, Bool, true, false, not,
  ◌&&◌, ◌||◌, Option, none, some, List, [], ◌∷◌,
}
use agentx_platform.Tokens.{JobRecord, AdapterEvent, Envelope, handle}
use agentx_platform.Tokens.Bus.{
  Bus, run_each, publish, subscribe, unsubscribe, Attached, attach, detach,
}
use agentx_platform.Tokens.Once.{listeners}
use agentx_platform.Tokens.Calls.{
  Call, attaching, detaching, coming, leaving, call, history, nothing_attached, to_list, Separate,
  IsAttached, HearsIn, history-IsAttached,
}

-- Whether the calls leave the accumulator attached to the job, when it was or was not before.
unfoldable pub is_attached_after : Text → List Call → Bool → Bool
is_attached_after job [] b = b
is_attached_after job (attaching j h ∷ cs) b = is_attached_after job cs (same j job || b)
is_attached_after job (detaching j ∷ cs) b = is_attached_after job cs (not (same j job) && b)
is_attached_after job (coming j h ∷ cs) b = is_attached_after job cs b
is_attached_after job (leaving j h ∷ cs) b = is_attached_after job cs b

is_attached : Text → Attached → Bool
is_attached job s = is_some (lookup job s.unsubs)

is_attached-attach :
    (job j h : Text) (s : Attached)
    → is_attached job (attach j h s) ≡ (same j job || is_attached job s)
unfolding is_attached attach
is_attached-attach job j h s = pass (lookup j s.unsubs) refl
  where
    pass :
        (u : Option Text)
        → lookup j s.unsubs ≡ u
        → is_attached job (elim u [
          | some _ ↦ s
          | none ↦ record { bus = subscribe j h s.bus; unsubs = insert j h s.unsubs }
        ])
          ≡ (same j job || is_attached job s)
    pass none e =
        rw (lookup-insert j job h s.unsubs)
          (elim (Bool-cases (same j job)) [ inl t ↦ rw t refl | inr t ↦ rw t refl ])
    pass (some g) e = elim (Bool-cases (same j job)) [
      | inl t ↦ rw (t, sym (same→eq j job t), e) refl
      | inr t ↦ rw t refl
    ]

is_attached-detach :
    (job j : Text) (s : Attached)
    → is_attached job (detach j s) ≡ (not (same j job) && is_attached job s)
unfolding is_attached detach
is_attached-detach job j s = pass (lookup j s.unsubs) refl
  where
    pass :
        (u : Option Text)
        → lookup j s.unsubs ≡ u
        → is_attached job (elim u [
          | none ↦ s
          | some h ↦ record { bus = unsubscribe j h s.bus; unsubs = remove j s.unsubs }
        ])
          ≡ (not (same j job) && is_attached job s)
    pass (some h) e =
        rw (lookup-remove j job s.unsubs)
          (elim (Bool-cases (same j job)) [ inl t ↦ rw t refl | inr t ↦ rw t refl ])
    pass none e = elim (Bool-cases (same j job)) [
      | inl t ↦ rw (t, sym (same→eq j job t), e) refl
      | inr t ↦ rw t refl
    ]

is_attached-history :
    (job : Text) (cs : List Call) (s : Attached)
    → is_attached job (history cs s) ≡ is_attached_after job cs (is_attached job s)
unfolding history call is_attached_after
is_attached-history job [] s = refl
is_attached-history job (attaching j h ∷ cs) s =
    is_attached-history job cs (attach j h s)
    ∙ ap (is_attached_after job cs) (is_attached-attach job j h s)
is_attached-history job (detaching j ∷ cs) s =
    is_attached-history job cs (detach j s)
    ∙ ap (is_attached_after job cs) (is_attached-detach job j s)
is_attached-history job (coming j h ∷ cs) s =
    is_attached-history job cs (call (coming j h) s) ∙ (unfold is_attached in refl)
is_attached-history job (leaving j h ∷ cs) s =
    is_attached-history job cs (call (leaving j h) s) ∙ (unfold is_attached in refl)

is_attached-start :
    (job : Text) (cs : List Call)
    → is_attached job (history cs nothing_attached) ≡ is_attached_after job cs false
unfolding is_attached lookup
is_attached-start job cs = is_attached-history job cs nothing_attached

nothing-IsAttached : (ours : Text → Bool) → IsAttached ours nothing_attached
unfolding lookup
nothing-IsAttached ours job = (refl, tt)

abbrev pub Jobs : Type 0
Jobs = List (Text × JobRecord)

module _ (ours : Text → Bool) (run : Text → Envelope → Jobs → Jobs)
    (runs_handle : (h : Text) (env : Envelope) (jobs : Jobs)
      → ours h ≡ true
      → run h env jobs ≡ handle env jobs)
    (leaves_jobs : (h : Text) (env : Envelope) (jobs : Jobs)
      → ours h ≡ false
      → run h env jobs ≡ jobs) where
  run_each-keep :
      (hs : List Text) (env : Envelope) (jobs : Jobs)
      → run_each run hs env jobs ≡ run_each run (keep ours hs) env jobs
  unfolding run_each
  run_each-keep [] env jobs = refl
  run_each-keep (h ∷ hs) env jobs = elim (Bool-cases (ours h)) [
    | inl o ↦ rw o (run_each-keep hs env (run h env jobs))
    | inr o ↦ rw (o, leaves_jobs h env jobs o) (run_each-keep hs env jobs)
  ]

  -- After whatever calls, an event that is published for a job reaches the totals once if the
  -- accumulator was attached to that job and not detached since, however often it was attached, and
  -- not at all otherwise. The closures of the accumulator are those that `ours` tells, and the
  -- other handlers do not change the jobs.
  pub publish-history :
      (cs : List Call) (job agent : Text) (event : AdapterEvent) (jobs : Jobs)
      → All (Separate ours) cs
      → publish run job agent event (history cs nothing_attached).bus jobs ≡ (
          if is_attached_after job cs false
          then handle (record { job_id = job; agent_id = agent; event = event }) jobs
          else jobs)
  publish-history cs job agent event jobs sep = rw (sym (is_attached-start job cs)) (
      unfold is_attached in
      deliver (history cs nothing_attached)
        (history-IsAttached ours cs nothing_attached sep (nothing-IsAttached ours) job))
    where
      env : Envelope
      env = record { job_id = job; agent_id = agent; event = event }

      told :
          (u : Option Text)
          → All (λ h. ours h ≡ true) (to_list u)
          → run_each run (to_list u) env jobs ≡ (if is_some u then handle env jobs else jobs)
      told none o = unfold run_each in refl
      told (some h) (o, _) = unfold run_each in runs_handle h env jobs o

      published :
          (bus : Bus)
          → publish run job agent event bus jobs ≡ run_each run (listeners job bus) env jobs
      published bus = unfold publish run_each in pass (lookup job bus)
        where
          pass :
              (o : Option (List Text))
              → (elim o [ none ↦ jobs | some hs ↦ run_each run hs env jobs ])
                ≡ run_each run (or_default o []) env jobs
          pass none = unfold run_each in refl
          pass (some hs) = refl

      deliver :
          (s : Attached)
          → HearsIn ours job s
          → publish run job agent event s.bus jobs
            ≡ (if is_some (lookup job s.unsubs) then handle env jobs else jobs)
      deliver s (e, o) =
          published s.bus
          ∙ run_each-keep (listeners job s.bus) env jobs
          ∙ ap (λ hs. run_each run hs env jobs) e
          ∙ told (lookup job s.unsubs) o
