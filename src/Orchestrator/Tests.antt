-- ===== src/Orchestrator/Tests.antt =====
-- A job of packages/harness-core/src/orchestrator.ts that asks for an approval and is resumed.
use agentx_platform.Prelude.{
  if◌then◌else◌, Text, codes, same, lookup, has, ok, ℕ, ◌≡◌, refl, Bool, true, false, not, Option,
  none, some, List, [], ◌∷◌, arith,
}
use agentx_platform.Candidates.{Failure, answers, fails, AgentCandidate, run_candidates}
use agentx_platform.Flow.Values.{Value, text, arr, obj, nil, cons, end, field}
use agentx_platform.Flow.State.{FlowState, fresh_flow_state}
use agentx_platform.Catalog.Shapes.{own_field}
use agentx_platform.Orchestrator.{
  Status, pending, received, completed, failed, Agent, Job, Binding, bound, Deps, of_bindings,
  build_candidates, run_agent, agent_executor,
}
use agentx_platform.Orchestrator.Jobs.{Tick, Invocation, World, run_job}
use agentx_platform.Orchestrator.Settled.{
  IsSettled, Operation, op_run, op_resume, op_cancel, history, history-IsSettled,
}
use agentx_platform.Orchestrator.Choices.{IsUsable, build_candidates-IsUsable}
use agentx_platform.Orchestrator.Ticks.{named, Ticked, agent_executor-Ticked}
use agentx_platform.Orchestrator.Server.{ServerCtx, told_since, fire, handle_resumes}
use agentx_platform.Orchestrator.Server.Slots.{tells_end, has_slot, slot-kept}
use agentx_platform.Orchestrator.Server.Pending.{IsClear, PendingIsExact, pending-exact}
use agentx_platform.Dispatcher.Bounds.{IsValid}
use agentx_platform.Flow.Compile.{is_coordinator}

abbrev writer : Agent
writer = record {
  id = codes "writer";
  status = pending;
  adapter = codes "claude-sdk";
  accepts = some (codes "p:m1" ∷ codes "p:m2" ∷ []);
  system_prompt = some (codes "write");
  fallback_on = none;
}

abbrev binding : Text → Binding
binding m = record { tool = none; provider_id = codes "p"; model_id = m }

-- The first model is over its limit; the second repeats its input.
abbrev two_models : Deps
two_models = record {
  prebuilt = [];
  resolver = some (record {
    resolve_all = some (λ _. ok (binding (codes "m1") ∷ binding (codes "m2") ∷ []));
    resolve_one = λ _. bound (binding (codes "m1"));
  });
  binding_to_adapter = λ b _ input.
      if same b.model_id (codes "m1")
      then fails [] (record {
        is_adapter_error = true;
        name = codes "RateLimitError";
        message = codes "slow down";
      })
      else answers (codes "response" ∷ []) input;
  factory = λ _ _ input. answers [] input;
}

abbrev no_models : Deps
no_models = record two_models {
  resolver =
      some (record {
        resolve_all = some (λ _. ok []);
        resolve_one = λ _. bound (binding (codes "m1"));
      });
}

abbrev start : FlowState ℕ
start = fresh_flow_state (codes "job") (codes "hello")

abbrev job : Job
job = record { status = received; agents = writer ∷ []; told = []; bus = [] }

abbrev tick : Deps → Tick ℕ
tick deps = record { deps = deps; agent_id = codes "writer"; state = start; staged = [] }

abbrev asks_approval : Value ℕ
asks_approval = obj 1 (field (codes "kind") (text (codes "approval")) end)

abbrev interrupted : Value ℕ
interrupted = obj 2 (
    field (codes "__interrupt__")
      (arr 3 (cons (obj 4 (field (codes "value") asks_approval end)) nil)) end)

abbrev pauses : Invocation ℕ
pauses = record { ticks = tick two_models ∷ []; result = some interrupted }

abbrev finishes : Invocation ℕ
finishes = record { ticks = []; result = some (obj 5 end) }

-- The agent fails, and the flow goes on to its end.
abbrev recovers : Invocation ℕ
recovers = record { ticks = tick no_models ∷ []; result = some (obj 5 end) }

abbrev registered : World ℕ
registered = record { job = some job; cached = false; requests = []; writes = [] }

abbrev running_job : ServerCtx ℕ
running_job = record {
  dispatcher = record { in_flight = codes "job" ∷ []; queue = []; capacity = 1 };
  tokens = record { bus = []; unsubs = [] };
  pending_approvals = [];
  pending_suspends = [];
}

abbrev both : List (Operation ℕ)
both = op_run (ok tt) pauses ∷ op_cancel none ∷ op_resume finishes ∷ op_resume finishes ∷ []

told_status : World ℕ → Option Status
told_status w = elim w.job [ none ↦ none | some j ↦ some j.status ]

both_test : told_status (history (codes "job") both registered) ≡ some completed
unfolding told_status history own_field same has
both_test = refl

-- A failure that the flow recovers from is still the status that the job ends with.
recovers_test :
    told_status (history (codes "job") (op_run (ok tt) recovers ∷ []) registered) ≡ some failed
unfolding told_status history own_field same has fresh_flow_state run_agent build_candidates lookup
    is_coordinator
recovers_test = refl

history-IsSettled_example : IsSettled (history (codes "job") both registered)
history-IsSettled_example =
    history-IsSettled (codes "job") both registered (refl, (tt, (tt, (tt, tt))))
      (record { told = refl; paused = refl; at_rest = refl })

job-IsValid : IsValid running_job.dispatcher
unfolding has
job-IsValid = ground arith

is_job : has_slot (codes "job") running_job ≡ true
unfolding has same
is_job = refl

slot-kept_example :
    has_slot
      (codes "job")
      (handle_resumes
        (codes "job")
        ((true, codes "h", finishes) ∷ [])
        (fire (codes "job") (ok tt) pauses (registered, running_job)).0).1
    ≡ not (tells_end (told_since registered ((run_job (ok tt) pauses registered).0)))
slot-kept_example =
    slot-kept (codes "job") (ok tt) pauses ((true, codes "h", finishes) ∷ []) registered running_job
      job-IsValid is_job

-- The job of that example has ended, and has its slot.
abbrev resumed : World ℕ × ServerCtx ℕ
resumed =
    handle_resumes (codes "job") ((true, codes "h", finishes) ∷ [])
      (fire (codes "job") (ok tt) pauses (registered, running_job)).0

ended_test : told_status resumed.0 ≡ some completed
unfolding told_status handle_resumes fire own_field same has
ended_test = refl

slot_test : has_slot (codes "job") resumed.1 ≡ true
unfolding handle_resumes fire own_field same has fresh_flow_state run_agent build_candidates lookup
    is_coordinator run_candidates
slot_test = refl

nothing_asked : IsClear (codes "job") running_job
unfolding lookup
nothing_asked = (refl, refl)

pending-exact_example : PendingIsExact (codes "job") (
    handle_resumes
      (codes "job")
      ((true, codes "h", pauses) ∷ [])
      (fire (codes "job") (ok tt) pauses (registered, running_job)).0)
pending-exact_example =
    pending-exact (codes "job") (ok tt) pauses ((true, codes "h", pauses) ∷ []) registered
      running_job nothing_asked

is_writer : named (codes "writer") job.agents ≡ some writer
unfolding same
is_writer = refl

is_no_coordinator : is_coordinator writer.id ≡ false
unfolding is_coordinator same
is_no_coordinator = refl

agent_executor-Ticked_example :
    Ticked writer start.cancel_requested job
      (agent_executor two_models (codes "writer") start [] job)
agent_executor-Ticked_example =
    agent_executor-Ticked two_models (codes "writer") writer start [] job is_writer
      is_no_coordinator

abbrev two_candidates : List AgentCandidate
two_candidates =
    of_bindings two_models none (codes "hello") (binding (codes "m1") ∷ binding (codes "m2") ∷ [])

built : build_candidates two_models writer none (codes "hello") ≡ ok two_candidates
unfolding build_candidates lookup
built = refl

build_candidates-IsUsable_example :
    IsUsable two_candidates
    × ((err err' : Failure) (b b' : Bool)
        → run_candidates none two_candidates err b ≡ run_candidates none two_candidates err' b')
build_candidates-IsUsable_example =
    build_candidates-IsUsable two_models writer none (codes "hello") two_candidates built
