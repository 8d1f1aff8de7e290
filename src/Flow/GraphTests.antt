-- ===== src/Flow/GraphTests.antt =====
-- Loops, interrupts and compiled graphs of packages/harness-core/src/flow-graph.ts on small inputs.
use agentx_platform.Prelude.{
  if◌then◌else◌, or_default, keep, find, All, Text, codes, same, has, Distinct, Result, ok, ℕ, ◌+◌,
  ◌≤◌, ◌<◌, ◌≡◌, refl, sym, subst, true, not, Option, none, some, List, [], ◌∷◌, ◌++◌, map,
}
use agentx_platform.Changes.{added, deleted, ChangedFile, octet_stream}
use agentx_platform.Flow.Values.{Value, text}
use agentx_platform.Flow.State.{
  success_exit, error_exit, RejectionPayload, FlowState, Delta, no_delta, apply_delta, attempts_of,
  fresh_flow_state,
}
use agentx_platform.Flow.Edges.{
  sequence, on_reject, Edge, ApprovalTag, sequential, parallel, agent, trigger, approval_node,
  TaskStep, FlowDef,
}
use agentx_platform.Flow.Router.{goto, find_reject, route_success, build_router}
use agentx_platform.Flow.Gate.{output_text}
use agentx_platform.Flow.Gate.Cycle.{UsedUp}
use agentx_platform.Flow.Rewrite.{synthetic_of, rewrite_flow}
use agentx_platform.Flow.Rewrite.Isolation.{ids, outgoing}
use agentx_platform.Flow.Loop.{is_failure, run_item, run_loop}
use agentx_platform.Flow.Loop.Modes.{Answers, run_loop-modes, Passes, run_loop-first_failure}
use agentx_platform.Flow.Interrupts.{approve, reject, ApprovalResume, approval_delta}
use agentx_platform.Flow.Interrupts.Decisions.{approval_delta-approve, approval_delta-reject}
use agentx_platform.Flow.Compile.{
  Makers, Graph, is_trigger, compile_flow, trigger_id, is_coordinator, linear_flow_from_agents,
}
use agentx_platform.Flow.Compile.Groups.{compile_flow-graph}
use agentx_platform.Flow.Compile.Linear.{Visits, linear_flow_from_agents-Visits}
use agentx_platform.Flow.Samples.{host, view, start}

abbrev first_message : List Text → Text
first_message [] = []
first_message (m ∷ ms) = m

-- An inner executor that hands its item on, and fails on the item "stop".
abbrev relay : FlowState ℕ → Option Text → Result (Delta ℕ)
relay s o = ok (record no_delta {
  output_to = o;
  exit_to =
      if same (or_default o []) (codes "stop")
      then some (error_exit (codes "each") (codes "Stopped") (codes "stop"))
      else some (success_exit (codes "each"));
})

abbrev letters : List (Value ℕ)
letters = text (codes "a") ∷ text (codes "b") ∷ text (codes "c") ∷ []

abbrev relayed : Text → Delta ℕ
relayed t = record no_delta { output_to = some t; exit_to = some (success_exit (codes "each")) }

abbrev stopped : Delta ℕ
stopped = record no_delta {
  output_to = some (codes "stop");
  exit_to = some (error_exit (codes "each") (codes "Stopped") (codes "stop"));
}

letters-Answers : Answers host first_message relay start (codes "each") letters
unfolding run_item output_text same
letters-Answers = ((_, refl), ((_, refl), ((_, refl), tt)))

run_loop-modes_example :
    run_loop host first_message relay start (codes "each") parallel (some 2) letters
    ≡ run_loop host first_message relay start (codes "each") sequential (some 2) letters
run_loop-modes_example =
    run_loop-modes host first_message relay start (codes "each") (some 2) letters letters-Answers

letters-Passes :
    Passes host first_message relay start
      (codes "each")
      letters
      (relayed (codes "a") ∷ relayed (codes "b") ∷ relayed (codes "c") ∷ [])
unfolding run_item output_text same is_failure
letters-Passes = (refl, refl, (refl, refl, (refl, refl, tt)))

stop-run : run_item host first_message relay start (codes "each") (text (codes "stop")) ≡ ok stopped
unfolding run_item output_text same
stop-run = refl

stopped-failure : is_failure stopped.exit_to ≡ true
unfolding is_failure
stopped-failure = refl

run_loop-first_failure_example :
    run_loop host first_message relay start
      (codes "each")
      sequential
      none
      (letters ++ (text (codes "stop") ∷ letters))
    ≡ ok stopped
run_loop-first_failure_example =
    run_loop-first_failure host first_message relay start (codes "each") none letters letters
      (text (codes "stop")) (relayed (codes "a") ∷ relayed (codes "b") ∷ relayed (codes "c") ∷ [])
      stopped letters-Passes stop-run stopped-failure

abbrev two_changes : List ChangedFile
two_changes =
    record {
      id = codes "a";
      repo = codes "app";
      path = codes "a";
      filename = codes "a";
      change_kind = added;
      status_code = codes "A";
      previous_path = none;
      mime_type = octet_stream;
    }
    ∷ record {
      id = codes "b";
      repo = codes "app";
      path = codes "b";
      filename = codes "b";
      change_kind = deleted;
      status_code = codes "D";
      previous_path = none;
      mime_type = octet_stream;
    }
    ∷ []

abbrev review : ApprovalTag ℕ
review = record { assignee_role = codes "editor"; sla_ms = 60; steering_inputs = none }

abbrev draft : TaskStep ℕ
draft = record {
  id = codes "draft";
  step_kind = agent;
  tags = some (record { approval = some review; suspend = none; loop = none });
  synthetic = none;
}

abbrev draft_approval : TaskStep ℕ
draft_approval = record {
  id = codes "draft__approval";
  step_kind = agent;
  tags = none;
  synthetic = some (approval_node review);
}

draft-synthetic : synthetic_of draft ≡ some draft_approval
unfolding synthetic_of
draft-synthetic = refl

abbrev ways_back : List (Edge ℕ)
ways_back =
    record { source = codes "draft__approval"; target = codes "ship"; kind = sequence }
    ∷ record {
      source = codes "draft__approval";
      target = codes "draft";
      kind = on_reject none none;
    }
    ∷ []

abbrev praise : ApprovalResume ℕ
praise = record { decision = approve; steering = text (codes "shorter") }

abbrev blame : ApprovalResume ℕ
blame = record { decision = reject; steering = text (codes "again") }

approval_delta-approve_example :
    let s' = apply_delta start (approval_delta host (codes "draft__approval") start praise) in
    (build_router host view (codes "draft__approval") ways_back s'
      ≡ route_success host view s' ways_back)
    × (attempts_of (codes "draft__approval") s' ≡ attempts_of (codes "draft__approval") start + 1)
    × (s'.steering ≡ start.steering ++ (codes "shorter" ∷ []))
    × (s'.output ≡ start.output)
    × (s'.rejection_payload ≡ start.rejection_payload)
approval_delta-approve_example =
    approval_delta-approve host view (codes "draft__approval") start praise ways_back refl

approval_delta-reject_example :
    let s' = apply_delta start (approval_delta host (codes "draft__approval") start blame) in
    let k = attempts_of (codes "draft__approval") start + 1 in
    (attempts_of (codes "draft__approval") s' ≡ k)
    × ((p : RejectionPayload ℕ) × (s'.rejection_payload ≡ some p)
        × (p.attempt ≡ k)
        × (p.steering_text ≡ some (codes "again")))
    × (k < 3
        → build_router host view (codes "draft__approval") ways_back s' ≡ ok (goto (codes "draft")))
    × (3 ≤ k
        → UsedUp host view none (build_router host view (codes "draft__approval") ways_back s'))
unfolding find_reject
approval_delta-reject_example =
    approval_delta-reject host view (codes "draft__approval") start blame ways_back (codes "draft")
      none none refl refl

-- Executors that are only names.
abbrev named : Makers ℕ Text
named = record {
  make_approval = λ id tag. codes "approval";
  make_suspend = λ id tag. codes "suspend";
  make_gate = λ id as'. codes "gate";
  make_transform = λ id e. codes "transform";
  make_default = λ id. codes "default";
  make_loop = λ id tag exec. codes "loop";
}

abbrev tagged_flow : FlowDef ℕ
tagged_flow = record {
  flow_id = codes "flow";
  nodes =
      record { id = codes "go"; step_kind = trigger; tags = none; synthetic = none } ∷ draft ∷ [];
  edges = record { source = codes "go"; target = codes "draft"; kind = sequence } ∷ [];
}

abbrev tagged_graph : Graph ℕ Text
tagged_graph = record {
  entry = codes "go";
  graph_nodes =
      record {
        node_id = codes "go";
        run = codes "default";
        out = record { source = codes "go"; target = codes "draft"; kind = sequence } ∷ [];
      }
      ∷ record {
        node_id = codes "draft";
        run = codes "default";
        out =
            record { source = codes "draft"; target = codes "draft__approval"; kind = sequence }
            ∷ [];
      }
      ∷ record { node_id = codes "draft__approval"; run = codes "approval"; out = [] }
      ∷ [];
}

tagged_flow-compiles : compile_flow named (λ id. none) tagged_flow ≡ ok tagged_graph
unfolding compile_flow synthetic_of same
tagged_flow-compiles = refl

compile_flow-graph_example :
    ((t : TaskStep ℕ) × (find is_trigger (rewrite_flow tagged_flow).nodes ≡ some t)
      × (tagged_graph.entry ≡ t.id))
    × (map (λ n. n.node_id) tagged_graph.graph_nodes ≡ ids (rewrite_flow tagged_flow).nodes)
    × All
        (λ n. n.out ≡ outgoing n.node_id (rewrite_flow tagged_flow).edges)
        tagged_graph.graph_nodes
compile_flow-graph_example =
    compile_flow-graph named (λ id. none) tagged_flow tagged_graph tagged_flow-compiles

abbrev agents : List Text
agents = codes "plan" ∷ codes "coordinator" ∷ codes "code" ∷ []

abbrev real_agents : List Text
real_agents = codes "plan" ∷ codes "code" ∷ []

agents-real : keep (λ a. not (is_coordinator a)) agents ≡ real_agents
unfolding is_coordinator
agents-real = refl

agents-Distinct : Distinct (trigger_id ∷ keep (λ a. not (is_coordinator a)) agents)
unfolding has same
agents-Distinct =
    subst (λ l. Distinct (trigger_id ∷ l)) (sym agents-real) (refl, (refl, (refl, tt)))

linear_flow_from_agents-Visits_example :
    let f = linear_flow_from_agents (codes "flow") agents in
    let real = keep (λ a. not (is_coordinator a)) agents in
    (rewrite_flow f ≡ f)
    × (ids f.nodes ≡ trigger_id ∷ real)
    × Visits host view start f.edges (trigger_id ∷ real)
unfolding fresh_flow_state
linear_flow_from_agents-Visits_example =
    linear_flow_from_agents-Visits host view start (codes "flow") agents agents-Distinct tt
