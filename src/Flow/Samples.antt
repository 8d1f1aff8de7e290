-- ===== src/Flow/Samples.antt =====
-- A concrete host on natural numbers, and small expressions, for the tests.
use agentx_platform.Prelude.{ltb, leb, ◌==◌, length, codes, ok, ℕ, false, none, []}
use agentx_platform.Flow.Values.{Value, undefined, num, text, obj, end, field, Host}
use agentx_platform.Flow.Expressions.{
  op_eq, op_gt, Expression, jsonpath, literal, compares, Exprs, no_exprs, and_then,
}
use agentx_platform.Flow.State.{FlowState, fresh_flow_state}

abbrev pub host : Host
host = record {
  Num = ℕ;
  num_eq = λ a b. a == b;
  num_lt = ltb;
  num_le = leb;
  is_nan = λ n. false;
  of_nat = λ n. n;
  nan = 0;
  num_of_text = length;
  num_of_object = λ v. ok 0;
  object_member = λ k. undefined;
  array_member = λ k. undefined;
  stringify = λ v. none;
  parse_json = λ t. none;
}

abbrev pub view : FlowState ℕ → Value ℕ
view s = obj 0 (field (codes "output") (text s.output) end)

abbrev pub start : FlowState ℕ
start = fresh_flow_state (codes "job") (codes "hello")

-- The output is longer than two characters.
abbrev pub long_output : Expression ℕ
long_output = compares (jsonpath (codes "$.output")) op_gt (literal (num 2))

abbrev pub no_output : Expression ℕ
no_output = compares (jsonpath (codes "$.output")) op_eq (literal (text []))

abbrev pub clauses : Exprs ℕ
clauses = and_then long_output (and_then no_output no_exprs)
