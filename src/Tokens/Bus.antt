-- ===== src/Tokens/Bus.antt =====
-- packages/harness-core/src/job-bus.ts, and attaching the accumulator of
-- packages/harness-core/src/token-accumulator.ts to it. A closure that is subscribed is named by a
-- text, its identity; `run` is what it does.
use agentx_platform.Prelude.{
  ◌==◌, if◌then◌else◌, or_default, length, Text, lookup, insert, remove, add, delete, keys, ℕ, none,
  some, List, [], ◌∷◌,
}
use agentx_platform.Tokens.{AdapterEvent, Envelope}

-- The handlers of each job.
abbrev pub Bus : Type 0
Bus = List (Text × List Text)

-- A handler that throws has done what it did until then, and the others go on.
unfoldable pub run_each : {S : Type 0} → (Text → Envelope → S → S) → List Text → Envelope → S → S
run_each run [] env s = s
run_each run (h ∷ hs) env s = run_each run hs env (run h env s)

unfoldable pub publish :
    {S : Type 0} → (Text → Envelope → S → S) → Text → Text → AdapterEvent → Bus → S → S
publish run job agent event bus s = elim (lookup job bus) [
  | none ↦ s
  | some hs ↦ run_each run hs (record { job_id = job; agent_id = agent; event = event }) s
]

unfoldable pub subscribe : Text → Text → Bus → Bus
subscribe job h bus = insert job (add h (or_default (lookup job bus) [])) bus

-- What the closure does that `subscribe` returns.
unfoldable pub unsubscribe : Text → Text → Bus → Bus
unsubscribe job h bus = elim (lookup job bus) [
  | none ↦ bus
  | some hs ↦
      let rest = delete h hs in if length rest == 0 then remove job bus else insert job rest bus
]

unfoldable pub subscriber_count : Text → Bus → ℕ
subscriber_count job bus = length (or_default (lookup job bus) [])

-- The bus, and for each attached job the closure that was subscribed.
pub record Attached : Type 0 where
  pub bus : Bus
  pub unsubs : List (Text × Text)

-- `h` is the closure that this call makes. The function that `attach` returns, which ends the
-- subscription like `detach` but keeps the entry, is left out: the server does not call it.
unfoldable pub attach : Text → Text → Attached → Attached
attach job h s = elim (lookup job s.unsubs) [
  | some _ ↦ s
  | none ↦ record { bus = subscribe job h s.bus; unsubs = insert job h s.unsubs }
]

unfoldable pub detach : Text → Attached → Attached
detach job s = elim (lookup job s.unsubs) [
  | none ↦ s
  | some h ↦ record { bus = unsubscribe job h s.bus; unsubs = remove job s.unsubs }
]

abbrev pub attached_job_ids : Attached → List Text
attached_job_ids s = keys s.unsubs
