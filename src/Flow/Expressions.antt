-- ===== src/Flow/Expressions.antt =====
-- Expressions of packages/harness-core/src/catalog.ts and their evaluation in
-- packages/harness-core/src/flow-graph.ts, against the flow state read as a JavaScript object.
pub mod Laws
use agentx_platform.Prelude.{
  if◌then◌else◌, Text, codes, Result, ok, throws, ◌>>=◌, Bool, true, false, not, ◌||◌,
}
use agentx_platform.Flow.Values.{
  Value, bool, arr, Host, truthy, strict_eq, includes, number_of, resolve_json_path,
}

pub data CompareOp : Type 0 where
  op_eq op_ne op_lt op_le op_gt op_ge op_in : CompareOp

mutual
  pub data Expression (N : Type 0) : Type 0 where
    jsonpath : Text → Expression N
    js : Text → Expression N
    literal : Value N → Expression N
    compares : Expression N → CompareOp → Expression N → Expression N
    all_of : Exprs N → Expression N
    any_of : Exprs N → Expression N
    negated : Expression N → Expression N

  pub data Exprs (N : Type 0) : Type 0 where
    no_exprs : Exprs N
    and_then : Expression N → Exprs N → Exprs N

abbrev pub js_unsupported : Text
js_unsupported =
    codes
      "\"js\" expression kind is not yet supported — use compare / all / any / not / jsonpath / literal"

abbrev pub js_unsupported_value : Text
js_unsupported_value = codes "\"js\" expression kind is not yet supported"

module _ (H : Host) where
  open H use {Num, num_lt, num_le, is_nan}

  unfoldable pub number_op : CompareOp → Num → Num → Bool
  number_op op_lt a b = num_lt a b
  number_op op_le a b = num_le a b
  number_op op_gt a b = num_lt b a
  number_op _ a b = num_le b a

  unfoldable pub in_array : Value Num → Value Num → Bool
  in_array v (arr r xs) = includes H xs v
  in_array v w = false

  unfoldable pub compare_numbers : CompareOp → Value Num → Value Num → Result Bool
  unfolding number_op
  compare_numbers op v w = do
    a ← number_of H v
    b ← number_of H w
    ok (if is_nan a || is_nan b then false else number_op op a b)

  -- `evalCompare`, once both sides have a value.
  unfoldable pub apply_op : CompareOp → Value Num → Value Num → Result Bool
  unfolding compare_numbers in_array
  apply_op op_eq v w = ok (strict_eq H v w)
  apply_op op_ne v w = ok (not (strict_eq H v w))
  apply_op op_in v w = ok (in_array v w)
  apply_op op v w = compare_numbers op v w

module _ (H : Host) where
  unfoldable mutual
    -- `evalExpression`.
    pub eval_expression : Value H.Num → Expression H.Num → Result Bool
    eval_expression state (jsonpath path) = ok (truthy H (resolve_json_path H path state))
    eval_expression state (js e) = throws js_unsupported
    eval_expression state (literal v) = ok (truthy H v)
    eval_expression state (compares l op r) = do
      v ← resolve_value state l
      w ← resolve_value state r
      apply_op H op v w
    eval_expression state (all_of es) = eval_all state es
    eval_expression state (any_of es) = eval_any state es
    eval_expression state (negated e) = do b ← eval_expression state e; ok (not b)

    -- The loops of `all` and `any`, which stop at the first answer.
    pub eval_all : Value H.Num → Exprs H.Num → Result Bool
    eval_all state no_exprs = ok true
    eval_all state (and_then e es) = do
      b ← eval_expression state e
      elim b [ true ↦ eval_all state es | false ↦ ok false ]

    pub eval_any : Value H.Num → Exprs H.Num → Result Bool
    eval_any state no_exprs = ok false
    eval_any state (and_then e es) = do
      b ← eval_expression state e
      elim b [ true ↦ ok true | false ↦ eval_any state es ]

    -- `resolveExpressionValue`; on the composite kinds its call of `evalExpression` is written out.
    pub resolve_value : Value H.Num → Expression H.Num → Result (Value H.Num)
    resolve_value state (jsonpath path) = ok (resolve_json_path H path state)
    resolve_value state (js e) = throws js_unsupported_value
    resolve_value state (literal v) = ok v
    resolve_value state (compares l op r) = do
      v ← resolve_value state l
      w ← resolve_value state r
      b ← apply_op H op v w
      ok (bool b)
    resolve_value state (all_of es) = do b ← eval_all state es; ok (bool b)
    resolve_value state (any_of es) = do b ← eval_any state es; ok (bool b)
    resolve_value state (negated e) = do b ← eval_expression state e; ok (bool (not b))
