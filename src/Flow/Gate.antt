-- ===== src/Flow/Gate.antt =====
-- `makeGateExecutor` and `makeTransformExecutor` of packages/harness-core/src/flow-graph.ts.
pub mod Cycle
use agentx_platform.Prelude.{
  if◌then◌else◌, Text, codes, join, Result, ok, ◌>>=◌, ◌>>◌, ◌+◌, Option, none, some, List, [], ◌∷◌,
  map,
}
use agentx_platform.Flow.Values.{Value, text, Host}
use agentx_platform.Flow.Expressions.{Expression, eval_expression, resolve_value}
use agentx_platform.Flow.State.{
  success_exit, reject_exit, failed_assertions, FlowState, Delta, no_delta, attempts_of,
}

module _ (H : Host) where
  open H use {Num, stringify}

  -- `typeof value === 'string' ? value : JSON.stringify(value)`; what has no JSON text leaves the
  -- output channel unwritten.
  unfoldable pub output_text : Value Num → Option Text
  output_text (text t) = some t
  output_text v = stringify v

module _ (H : Host) (view : FlowState H.Num → Value H.Num) where
  open H use {Num}

  -- The assertions that do not hold, in order.
  unfoldable pub failures :
      FlowState Num → List (Text × Expression Num) → Result (List (Text × Expression Num))
  failures s [] = ok []
  failures s ((message, e) ∷ more) = do
    holds ← eval_expression H (view s) e
    rest ← failures s more
    ok (if holds then rest else (message, e) ∷ rest)

  unfoldable pub rejection_of : Text → FlowState Num → List (Text × Expression Num) → Delta Num
  rejection_of node_id s failed = record no_delta {
    attempts_to = some ((node_id, attempts_of node_id s + 1) ∷ []);
    exit_to = some (reject_exit node_id);
    rejection_to = some (record {
      reason = join (codes "; ") (map (λ f. f.0) failed);
      steering_text = none;
      findings = some (failed_assertions failed);
      attempt = attempts_of node_id s + 1;
    });
  }

  unfoldable pub gate_delta : Text → FlowState Num → List (Text × Expression Num) → Delta Num
  unfolding rejection_of
  gate_delta node_id s [] = record no_delta { exit_to = some (success_exit node_id) }
  gate_delta node_id s (f ∷ fs) = rejection_of node_id s (f ∷ fs)

  unfoldable pub gate_executor :
      Text → List (Text × Expression Num) → FlowState Num → Result (Delta Num)
  unfolding failures gate_delta
  gate_executor node_id assertions s = do
    failed ← failures s assertions
    ok (gate_delta node_id s failed)

  unfoldable pub transform_executor : Text → Expression Num → FlowState Num → Result (Delta Num)
  unfolding output_text
  transform_executor node_id e s = do
    v ← resolve_value H (view s) e
    ok (record no_delta { output_to = output_text H v; exit_to = some (success_exit node_id) })
