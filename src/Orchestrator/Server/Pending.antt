-- ===== src/Orchestrator/Server/Pending.antt =====
-- The requests that packages/harness-server/src/index.ts keeps for a job, and the job's status.
use agentx_platform.Prelude.{
  if◌then◌else◌, or_default, is_some, length, drop, Text, same_refl, lookup, insert, remove,
  lookup-insert, lookup-remove, Result, ◌≡◌, refl, sym, ap, subst, ◌∙◌, Bool, true, false, not,
  ◌&&◌, Option, none, some, List, [], ◌∷◌, ◌++◌, arith,
}
use agentx_platform.Flow.Values.{Value}
use agentx_platform.Tokens.Bus.{attach, detach}
use agentx_platform.Orchestrator.{
  Status, pending, received, running, awaiting_approval, suspended, completed, failed, cancelled,
  Notice, about_agent, about_job, Job,
}
use agentx_platform.Orchestrator.Jobs.{Invocation, Request, World, run_job, resume_job}
use agentx_platform.Orchestrator.Live.{if-Has, is_paused}
use agentx_platform.Orchestrator.Asks.{
  is_awaiting, is_suspended, status_is, Asks, for_approval, for_wake_up, for_nothing, run_job-Asks,
  resume_job-Asks, waits, idle,
}
use agentx_platform.Orchestrator.Server.{
  ServerCtx, completed_or_failed, is_terminal, clear_pending, job_terminal, free_slot, watch_run,
  watch_resume, keep_requests, told_since, fire, resume, resume_paused, resume_found, status_of,
  handle_resume_job, handle_resumes,
}

drop-length : {A : Type 0} (xs ys : List A) → drop (length xs) (xs ++ ys) ≡ ys
drop-length [] ys = refl
drop-length (x ∷ xs) ys = ground (arith, drop-length xs ys)

drop_all : {A : Type 0} (xs : List A) → drop (length xs) xs ≡ []
drop_all [] = refl
drop_all (x ∷ xs) = ground (arith, drop_all xs)

paused_cached : (p c : Bool) → (p && not c) ≡ false → p ≡ true → c ≡ true
paused_cached p c h e = ground arith

module _ {N : Type 0} where
  -- No request of the job is kept.
  abbrev pub IsClear : Text → ServerCtx N → Type 0
  IsClear job_id ctx =
      (lookup job_id ctx.pending_approvals ≡ none) × (lookup job_id ctx.pending_suspends ≡ none)

  lookup-remove_self :
      (job_id : Text) (m : List (Text × Value N)) → lookup job_id (remove job_id m) ≡ none
  lookup-remove_self job_id m =
      lookup-remove job_id job_id m
      ∙ ap (λ (b : Bool). if b then none else lookup job_id m) (same_refl job_id)

  clear_pending-IsClear :
      (job_id : Text) (ctx : ServerCtx N) → IsClear job_id (clear_pending job_id ctx)
  unfolding clear_pending
  clear_pending-IsClear job_id ctx = (
    lookup-remove_self job_id ctx.pending_approvals,
    lookup-remove_self job_id ctx.pending_suspends,
  )

  job_terminal-IsClear :
      (job_id : Text) (n : Notice) (ctx : ServerCtx N)
      → IsClear job_id ctx
      → IsClear job_id (job_terminal job_id n ctx)
  unfolding job_terminal
  job_terminal-IsClear job_id (about_agent _ _) ctx c = c
  job_terminal-IsClear job_id (about_job st) ctx c =
      if-Has (IsClear job_id) (completed_or_failed st)
        (λ _. clear_pending-IsClear job_id (record ctx { tokens = detach job_id ctx.tokens }))
        (λ _. c)

  free_slot-IsClear :
      (job_id : Text) (n : Notice) (ctx : ServerCtx N)
      → IsClear job_id ctx
      → IsClear job_id (free_slot job_id n ctx).0
  unfolding free_slot
  free_slot-IsClear job_id (about_agent _ _) ctx c = c
  free_slot-IsClear job_id (about_job st) ctx c =
      if-Has (λ (r : ServerCtx N × List Text). IsClear job_id r.0) (is_terminal st) (λ _. c)
        (λ _. c)

  watch_run-IsClear :
      (job_id : Text) (ns : List Notice) (ctx : ServerCtx N)
      → IsClear job_id ctx
      → IsClear job_id (watch_run job_id ns ctx).0
  unfolding watch_run
  watch_run-IsClear job_id [] ctx c = c
  watch_run-IsClear job_id (n ∷ ns) ctx c =
      watch_run-IsClear job_id ns ((free_slot job_id n (job_terminal job_id n ctx)).0) (
        free_slot-IsClear job_id n (job_terminal job_id n ctx)
          (job_terminal-IsClear job_id n ctx c))

  watch_resume-IsClear :
      (job_id : Text) (ns : List Notice) (ctx : ServerCtx N)
      → IsClear job_id ctx
      → IsClear job_id (watch_resume job_id ns ctx)
  unfolding watch_resume
  watch_resume-IsClear job_id [] ctx c = c
  watch_resume-IsClear job_id (n ∷ ns) ctx c =
      watch_resume-IsClear job_id ns (job_terminal job_id n ctx)
        (job_terminal-IsClear job_id n ctx c)

  -- A request for an approval is kept exactly while the job waits for one, likewise for a wake-up,
  -- and the graph of a job that waits is there to be resumed.
  pub record PendingIsExact (job_id : Text) (s : World N × ServerCtx N) : Type 0 where
    pub approvals : is_some (lookup job_id s.1.pending_approvals) ≡ status_is is_awaiting s.0
    pub suspends : is_some (lookup job_id s.1.pending_suspends) ≡ status_is is_suspended s.0
    pub resumable : (status_is is_paused s.0 && not s.0.cached) ≡ false

  is_some-insert :
      (job_id : Text) (v : Value N) (m : List (Text × Value N))
      → is_some (lookup job_id (insert job_id v m)) ≡ true
  is_some-insert job_id v m = ap is_some (
      lookup-insert job_id job_id v m
      ∙ ap (λ (b : Bool). if b then some v else lookup job_id m) (same_refl job_id))

  keep_requests-PendingIsExact :
      (job_id : Text) (before : List (Request N)) (after : World N) (ctx : ServerCtx N)
      → Asks before after
      → IsClear job_id ctx
      → PendingIsExact job_id
          (after, keep_requests job_id (drop (length before) after.requests) ctx)
  unfolding keep_requests
  keep_requests-PendingIsExact job_id before after ctx (for_approval j v e st cached asked) c =
      let since = ap (drop (length before)) asked ∙ drop-length before _ in
      subst (λ rs. PendingIsExact job_id (after, keep_requests job_id rs ctx)) (sym since)
        (record {
          approvals =
              is_some-insert job_id v ctx.pending_approvals ∙ sym (waits is_awaiting after e st);
          suspends = ap is_some c.1 ∙ sym (waits is_suspended after e st);
          resumable = ground arith;
        })
  keep_requests-PendingIsExact job_id before after ctx (for_wake_up j v e st cached asked) c =
      let since = ap (drop (length before)) asked ∙ drop-length before _ in
      subst (λ rs. PendingIsExact job_id (after, keep_requests job_id rs ctx)) (sym since)
        (record {
          approvals = ap is_some c.0 ∙ sym (waits is_awaiting after e st);
          suspends =
              is_some-insert job_id v ctx.pending_suspends ∙ sym (waits is_suspended after e st);
          resumable = ground arith;
        })
  keep_requests-PendingIsExact job_id before after ctx (for_nothing st asked) c =
      let since = ap (drop (length before)) asked ∙ drop_all before in
      subst (λ rs. PendingIsExact job_id (after, keep_requests job_id rs ctx)) (sym since)
        (record {
          approvals = ap is_some c.0 ∙ sym ((idle after st).0);
          suspends = ap is_some c.1 ∙ sym ((idle after st).1);
          resumable = ground arith;
        })

  fire-PendingIsExact :
      (job_id : Text) (compiled : Result (Unit {0})) (i : Invocation N) (w : World N)
      (ctx : ServerCtx N)
      → IsClear job_id ctx
      → PendingIsExact job_id (fire job_id compiled i (w, ctx)).0
  unfolding fire
  fire-PendingIsExact job_id compiled i w ctx c =
      let after = (run_job compiled i w).0 in
      keep_requests-PendingIsExact job_id w.requests after
        ((watch_run job_id (told_since w after) ctx).0) (run_job-Asks compiled i w)
        (watch_run-IsClear job_id (told_since w after) ctx c)

  resume-PendingIsExact :
      (job_id h : Text) (i : Invocation N) (w : World N) (ctx : ServerCtx N) (j : Job)
      → w.job ≡ some j
      → w.cached ≡ true
      → PendingIsExact job_id (resume job_id h i (w, ctx))
  unfolding resume
  resume-PendingIsExact job_id h i w ctx j e cached =
      let after = (resume_job job_id i w).0 in
      let attached : ServerCtx N = record (clear_pending job_id ctx) {
        tokens = attach job_id h ctx.tokens;
      } in
      keep_requests-PendingIsExact job_id w.requests after
        (watch_resume job_id (told_since w after) attached) (resume_job-Asks job_id i w j e cached)
        (watch_resume-IsClear job_id (told_since w after) attached
          (clear_pending-IsClear job_id ctx))

  has_status :
      (w : World N) (st : Status)
      → status_of w ≡ some st
      → (j : Job) × (w.job ≡ some j) × (j.status ≡ st)
  has_status w st e = pass w.job refl e
    where
      pass :
          (o : Option Job)
          → w.job ≡ o
          → (elim o as (λ _. Option Status) [ none ↦ none | some j ↦ some j.status ]) ≡ some st
          → (j : Job) × (w.job ≡ some j) × (j.status ≡ st)
      pass none g f = cc
      pass (some j) g f = (j, g, ap (λ (q : Option Status). or_default q st) f)

  resume_paused-PendingIsExact :
      (job_id : Text) (broker : Bool) (h : Text) (i : Invocation N) (b : Bool) (w : World N)
      (ctx : ServerCtx N) (j : Job)
      → w.job ≡ some j
      → is_paused j.status ≡ true
      → PendingIsExact job_id (w, ctx)
      → PendingIsExact job_id (resume_paused job_id broker h i b (w, ctx)).0
  unfolding resume_paused
  resume_paused-PendingIsExact job_id true h i b w ctx j e p s =
      resume-PendingIsExact job_id h i w ctx j e
        (paused_cached (status_is is_paused w) w.cached s.resumable (waits is_paused w e refl ∙ p))
  resume_paused-PendingIsExact job_id false h i b w ctx j e p s = s

  resume_found-PendingIsExact :
      (job_id : Text) (broker : Bool) (h : Text) (i : Invocation N) (o : Option Status)
      (w : World N) (ctx : ServerCtx N)
      → status_of w ≡ o
      → PendingIsExact job_id (w, ctx)
      → PendingIsExact job_id (resume_found job_id broker h i o (w, ctx)).0
  unfolding resume_found
  resume_found-PendingIsExact job_id broker h i none w ctx e s = s
  resume_found-PendingIsExact job_id broker h i (some awaiting_approval) w ctx e s =
      let (j, is_job, st) = has_status w awaiting_approval e in
      resume_paused-PendingIsExact job_id broker h i true w ctx j is_job (ap is_paused st) s
  resume_found-PendingIsExact job_id broker h i (some suspended) w ctx e s =
      let (j, is_job, st) = has_status w suspended e in
      resume_paused-PendingIsExact job_id broker h i false w ctx j is_job (ap is_paused st) s
  resume_found-PendingIsExact job_id broker h i (some pending) w ctx e s = s
  resume_found-PendingIsExact job_id broker h i (some received) w ctx e s = s
  resume_found-PendingIsExact job_id broker h i (some running) w ctx e s = s
  resume_found-PendingIsExact job_id broker h i (some completed) w ctx e s = s
  resume_found-PendingIsExact job_id broker h i (some failed) w ctx e s = s
  resume_found-PendingIsExact job_id broker h i (some cancelled) w ctx e s = s

  handle_resumes-PendingIsExact :
      (job_id : Text) (rs : List (Bool × Text × Invocation N)) (w : World N) (ctx : ServerCtx N)
      → PendingIsExact job_id (w, ctx)
      → PendingIsExact job_id (handle_resumes job_id rs (w, ctx))
  unfolding handle_resumes handle_resume_job
  handle_resumes-PendingIsExact job_id [] w ctx s = s
  handle_resumes-PendingIsExact job_id ((broker, h, i) ∷ rs) w ctx s =
      let next = (handle_resume_job job_id broker h i (w, ctx)).0 in
      handle_resumes-PendingIsExact job_id rs next.0 next.1
        (resume_found-PendingIsExact job_id broker h i (status_of w) w ctx refl s)

  -- When a job of which no request is kept is started, and then any number of requests to resume
  -- it are handled, then, whatever these calls come to, the server keeps a request for an approval
  -- of the job exactly if its status is that it waits for one, it keeps a request for a wake-up
  -- exactly if the job is suspended, and the graph of a job that waits is there to be resumed.
  pub pending-exact :
      (job_id : Text) (compiled : Result (Unit {0})) (i : Invocation N)
      (rs : List (Bool × Text × Invocation N)) (w : World N) (ctx : ServerCtx N)
      → IsClear job_id ctx
      → PendingIsExact job_id (handle_resumes job_id rs (fire job_id compiled i (w, ctx)).0)
  pending-exact job_id compiled i rs w ctx c =
      let fired = (fire job_id compiled i (w, ctx)).0 in
      handle_resumes-PendingIsExact job_id rs fired.0 fired.1
        (fire-PendingIsExact job_id compiled i w ctx c)
