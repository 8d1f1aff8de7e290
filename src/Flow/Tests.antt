-- ===== src/Flow/Tests.antt =====
-- Small flows of packages/harness-core/src/flow-graph.ts, evaluated on natural numbers.
use agentx_platform.Prelude.{
  find, Text, codes, same, join, has, Distinct, ok, throws, Returns, ℕ, ◌+◌, ◌≤◌, ◌<◌, ◌≡◌, refl,
  inl, inr, none, some, List, [], ◌∷◌,
}
use agentx_platform.Changes.{modified, ChangedFile}
use agentx_platform.Flow.Values.{num, obj, end, Host, strict_eq, number_of, resolve_json_path}
use agentx_platform.Flow.Expressions.{
  op_lt, Expression, jsonpath, literal, compares, apply_op, eval_expression, resolve_value,
}
use agentx_platform.Flow.Expressions.Laws.{is_safe, expressions_return}
use agentx_platform.Flow.State.{
  success_exit, reject_exit, failed_assertions, FlowState, Delta, no_delta, apply_delta,
  attempts_of, fresh_flow_state,
}
use agentx_platform.Flow.Edges.{
  escalate, sequence, conditional, on_reject, Edge, collection, sequential, agent, tool,
  approval_node, TaskStep, FlowDef,
}
use agentx_platform.Flow.Router.{
  goto, find_reject, first_condition, route_success, route_exit, build_router,
}
use agentx_platform.Flow.Router.Targets.{LeadsTo, build_router-LeadsTo}
use agentx_platform.Flow.Router.Total.{build_router-Returns}
use agentx_platform.Flow.Gate.{gate_executor}
use agentx_platform.Flow.Gate.Cycle.{Failing, gate_cycle}
use agentx_platform.Flow.Rewrite.{synthetic_of, new_nodes, rewrite_flow, wrap_with_tags}
use agentx_platform.Flow.Rewrite.Isolation.{ids, outgoing, rewrite_flow-drops_loop}
use agentx_platform.Flow.Rewrite.Edges.{rewrite_flow-isolates}
use agentx_platform.Flow.Samples.{host, view, start, long_output, no_output}

expressions_return_example :
    Returns (eval_expression host (view start) long_output)
    × Returns (resolve_value host (view start) long_output)
unfolding is_safe resolve_json_path fresh_flow_state
expressions_return_example = expressions_return host (view start) long_output refl

abbrev change : Text → Text → ChangedFile
change path code = record {
  id = path;
  repo = codes "app";
  path = path;
  filename = path;
  change_kind = modified;
  status_code = code;
  previous_path = none;
  mime_type = codes "text/plain";
}

abbrev before : List ChangedFile
before = change (codes "a") (codes "M") ∷ change (codes "b") (codes "M") ∷ []

abbrev after : List ChangedFile
after = change (codes "a") (codes "T") ∷ []

-- A gate that goes back to its writer, twice at most, and then calls for help.
abbrev retry : Edge ℕ
retry = record {
  source = codes "check";
  target = codes "write";
  kind = on_reject (some 2) (some (escalate (codes "help")));
}

abbrev onward : Edge ℕ
onward = record { source = codes "check"; target = codes "ship"; kind = conditional long_output }

abbrev ways : List (Edge ℕ)
ways = retry ∷ onward ∷ []

abbrev passed : FlowState ℕ
passed = record start { last_exit = some (success_exit (codes "check")) }

passed-routes : build_router host view (codes "check") ways passed ≡ ok (goto (codes "ship"))
unfolding build_router route_exit route_success first_condition eval_expression resolve_value
    apply_op number_of resolve_json_path fresh_flow_state
passed-routes = refl

build_router-LeadsTo_example : LeadsTo (codes "ship") ways
build_router-LeadsTo_example =
    build_router-LeadsTo host view (codes "check") ways passed (codes "ship") passed-routes

build_router-Returns_example : Returns (build_router host view (codes "check") ways passed)
unfolding is_safe resolve_json_path
build_router-Returns_example = build_router-Returns host view (codes "check") ways passed refl tt

abbrev assertions : List (Text × Expression ℕ)
assertions = (codes "output is empty", no_output) ∷ []

assertions-fail : Failing host view start assertions assertions
unfolding eval_expression resolve_value apply_op strict_eq resolve_json_path fresh_flow_state
assertions-fail = inr (refl, refl, tt)

abbrev rejected_once : Delta ℕ
rejected_once = record no_delta {
  attempts_to = some ((codes "check", attempts_of (codes "check") start + 1) ∷ []);
  exit_to = some (reject_exit (codes "check"));
  rejection_to = some (record {
    reason = join (codes "; ") (codes "output is empty" ∷ []);
    steering_text = none;
    findings = some (failed_assertions assertions);
    attempt = attempts_of (codes "check") start + 1;
  });
}

gate_cycle_example :
    let s' = apply_delta start rejected_once in
    let k = attempts_of (codes "check") start + 1 in
    (gate_executor host view (codes "check") assertions start ≡ ok rejected_once)
    × (attempts_of (codes "check") s' ≡ k)
    × (k < 2 → build_router host view (codes "check") ways s' ≡ ok (goto (codes "write")))
    × (2 ≤ k → build_router host view (codes "check") ways s' ≡ ok (goto (codes "help")))
unfolding find_reject
gate_cycle_example =
    gate_cycle host view (codes "check") assertions start ways (codes "write") (some 2)
      (some (escalate (codes "help"))) (codes "output is empty", no_output) [] assertions-fail refl

-- An object whose conversion throws.
abbrev odd_host : Host
odd_host = record host { num_of_object = λ v. throws (codes "TypeError") }

odd_test :
    eval_expression odd_host (obj 0 end) (compares (jsonpath (codes "$")) op_lt (literal (num 2)))
    ≡ throws (codes "TypeError")
unfolding eval_expression resolve_value apply_op number_of resolve_json_path
odd_test = refl

-- An agent that is approved once per element of a collection.
abbrev reviewed : TaskStep ℕ
reviewed = record {
  id = codes "draft";
  step_kind = agent;
  tags = some (record {
    approval =
        some (record { assignee_role = codes "editor"; sla_ms = 60; steering_inputs = none });
    suspend = none;
    loop = some (record {
      source = collection;
      path = jsonpath (codes "$.output");
      mode = sequential;
      concurrency = none;
    });
  });
  synthetic = none;
}

abbrev plain_step : TaskStep ℕ
plain_step = record { id = codes "ship"; step_kind = tool; tags = none; synthetic = none }

abbrev small_flow : FlowDef ℕ
small_flow = record {
  flow_id = codes "flow";
  nodes = reviewed ∷ plain_step ∷ [];
  edges = record { source = codes "draft"; target = codes "ship"; kind = sequence } ∷ [];
}

abbrev approval_step : TaskStep ℕ
approval_step = record {
  id = codes "draft__approval";
  step_kind = agent;
  tags = none;
  synthetic = some (
      approval_node
        (record { assignee_role = codes "editor"; sla_ms = 60; steering_inputs = none }));
}

reviewed-synthetic : synthetic_of reviewed ≡ some approval_step
unfolding synthetic_of
reviewed-synthetic = refl

small_flow-Distinct : Distinct (ids (rewrite_flow small_flow).nodes)
unfolding rewrite_flow new_nodes synthetic_of has same
small_flow-Distinct = (refl, (refl, (refl, tt)))

rewrite_flow-isolates_example :
    outgoing (codes "draft") (rewrite_flow small_flow).edges
    ≡ record { source = codes "draft"; target = codes "draft__approval"; kind = sequence } ∷ []
rewrite_flow-isolates_example =
    rewrite_flow-isolates small_flow reviewed approval_step (inl refl) reviewed-synthetic
      small_flow-Distinct

rewrite_flow-drops_loop_example :
    (find (λ m. same m.id (codes "draft")) (rewrite_flow small_flow).nodes
      ≡ some (record reviewed { tags = none }))
    × (wrap_with_tags (λ id tag n. n + 1) (record reviewed { tags = none }) 7 ≡ 7)
rewrite_flow-drops_loop_example =
    rewrite_flow-drops_loop (λ id tag n. n + 1) 7 small_flow reviewed approval_step (inl refl)
      reviewed-synthetic small_flow-Distinct
