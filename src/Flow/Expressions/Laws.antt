-- ===== src/Flow/Expressions/Laws.antt =====
-- What evalExpression and resolveExpressionValue of packages/harness-core/src/flow-graph.ts promise.
use agentx_platform.Prelude.{
  if◌then◌else◌, &&-eq_true, ok, ◌>>=◌, Returns, ◌≡◌, refl, Bool, true, false, not, ◌&&◌, ◌||◌,
  arith,
}
use agentx_platform.Flow.Values.{
  Value, undefined, null, bool, num, text, func, arr, obj, Host, truthy, number_of,
  resolve_json_path,
}
use agentx_platform.Flow.Expressions.{
  CompareOp, op_eq, op_ne, op_lt, op_le, op_gt, op_ge, op_in, Expression, jsonpath, js, literal,
  compares, all_of, any_of, negated, Exprs, no_exprs, and_then, number_op, compare_numbers,
  apply_op, eval_expression, eval_all, eval_any, resolve_value,
}

module _ {N : Type 0} where
  unfoldable pub negate_all : Exprs N → Exprs N
  negate_all no_exprs = no_exprs
  negate_all (and_then e es) = and_then (negated e) (negate_all es)

  unfoldable pub is_js : Expression N → Bool
  is_js (js e) = true
  is_js _ = false

-- No object, array or function, whose conversion to a number calls their methods.
abbrev pub is_primitive : {N : Type 0} → Value N → Bool
is_primitive (func f) = false
is_primitive (arr r xs) = false
is_primitive (obj r fs) = false
is_primitive _ = true

abbrev pub is_order : CompareOp → Bool
is_order op_eq = false
is_order op_ne = false
is_order op_in = false
is_order _ = true

module _ (H : Host) (state : Value H.Num) where
  open H use {Num}

  -- The expression stands for a primitive value, as far as it has one.
  unfoldable pub is_plain : Expression Num → Bool
  is_plain (jsonpath path) = is_primitive (resolve_json_path H path state)
  is_plain (literal v) = is_primitive v
  is_plain _ = true

  -- No part is of kind `js`, and what `<`, `<=`, `>` and `>=` compare is primitive.
  unfoldable mutual
    unfolding is_plain

    pub is_safe : Expression Num → Bool
    is_safe (jsonpath path) = true
    is_safe (js e) = false
    is_safe (literal v) = true
    is_safe (compares l op r) =
        is_safe l && (is_safe r && (not (is_order op) || (is_plain l && is_plain r)))
    is_safe (all_of es) = all_safe es
    is_safe (any_of es) = all_safe es
    is_safe (negated e) = is_safe e

    pub all_safe : Exprs Num → Bool
    all_safe no_exprs = true
    all_safe (and_then e es) = is_safe e && all_safe es

  number_of-primitive : (v : Value Num) → is_primitive v ≡ true → Returns (number_of H v)
  unfolding number_of
  number_of-primitive undefined h = (_, refl)
  number_of-primitive null h = (_, refl)
  number_of-primitive (bool true) h = (_, refl)
  number_of-primitive (bool false) h = (_, refl)
  number_of-primitive (num n) h = (_, refl)
  number_of-primitive (text s) h = (_, refl)
  number_of-primitive (func f) h = cc
  number_of-primitive (arr r xs) h = cc
  number_of-primitive (obj r fs) h = cc

  compare_numbers-primitive :
      (op : CompareOp) (v w : Value Num)
      → is_primitive v ≡ true
      → is_primitive w ≡ true
      → Returns (compare_numbers H op v w)
  unfolding compare_numbers
  compare_numbers-primitive op v w p q =
      let (a, e) = number_of-primitive v p in
      let (b, f) = number_of-primitive w q in
      (if H.is_nan a || H.is_nan b then false else number_op H op a b, rw (e, f) refl)

  apply_op-Returns :
      (op : CompareOp) (v w : Value Num)
      → (is_order op ≡ true → (is_primitive v ≡ true) × (is_primitive w ≡ true))
      → Returns (apply_op H op v w)
  unfolding apply_op
  apply_op-Returns op_eq v w h = (_, refl)
  apply_op-Returns op_ne v w h = (_, refl)
  apply_op-Returns op_in v w h = (_, refl)
  apply_op-Returns op_lt v w h = compare_numbers-primitive op_lt v w (h refl).0 (h refl).1
  apply_op-Returns op_le v w h = compare_numbers-primitive op_le v w (h refl).0 (h refl).1
  apply_op-Returns op_gt v w h = compare_numbers-primitive op_gt v w (h refl).0 (h refl).1
  apply_op-Returns op_ge v w h = compare_numbers-primitive op_ge v w (h refl).0 (h refl).1

  -- A value that a plain expression has.
  IsPlainValue : Expression Num → Value Num → Type 0
  IsPlainValue e v = is_plain e ≡ true → is_primitive v ≡ true

  -- It returns, and where it is plain its value is primitive.
  abbrev Plainly : Expression Num → Type 0
  Plainly e = (v : Value Num) × (resolve_value H state e ≡ ok v) × IsPlainValue e v

  order_plain :
      (l r : Expression Num) (o : Bool)
      → (not o || (is_plain l && is_plain r)) ≡ true
      → o ≡ true
      → (is_plain l ≡ true) × (is_plain r ≡ true)
  order_plain l r o h e = ground arith

  mutual
    unfolding is_safe is_plain all_safe eval_expression eval_all eval_any resolve_value IsPlainValue

    eval-safe : (e : Expression Num) → is_safe e ≡ true → Returns (eval_expression H state e)
    eval-safe (jsonpath path) h = (_, refl)
    eval-safe (js e) h = cc
    eval-safe (literal v) h = (_, refl)
    eval-safe (compares l op r) h =
        let (a, rest) = &&-eq_true (is_safe l) _ h in
        let (b, c) = &&-eq_true (is_safe r) _ rest in
        let (v, p, pv) = value-safe l a in
        let (w, q, qw) = value-safe r b in
        let (x, ex) =
          apply_op-Returns op v w
            (λ o. let (pl, pr) = order_plain l r (is_order op) c o in (pv pl, qw pr)) in
        (x, rw (p, q) ex)
    eval-safe (all_of es) h = all-safe es h
    eval-safe (any_of es) h = any-safe es h
    eval-safe (negated e) h = let (b, p) = eval-safe e h in (not b, rw p refl)

    all-safe : (es : Exprs Num) → all_safe es ≡ true → Returns (eval_all H state es)
    all-safe no_exprs h = (true, refl)
    all-safe (and_then e es) h =
        let (a, b) = &&-eq_true (is_safe e) (all_safe es) h in
        let (v, p) = eval-safe e a in
        let (w, q) = all-safe es b in (if v then w else false, rw p (ground (arith, q)))

    any-safe : (es : Exprs Num) → all_safe es ≡ true → Returns (eval_any H state es)
    any-safe no_exprs h = (false, refl)
    any-safe (and_then e es) h =
        let (a, b) = &&-eq_true (is_safe e) (all_safe es) h in
        let (v, p) = eval-safe e a in
        let (w, q) = any-safe es b in (if v then true else w, rw p (ground (arith, q)))

    value-safe : (e : Expression Num) → is_safe e ≡ true → Plainly e
    value-safe (jsonpath path) h = (_, refl, λ p. p)
    value-safe (js e) h = cc
    value-safe (literal v) h = (v, refl, λ p. p)
    value-safe (compares l op r) h =
        let (a, rest) = &&-eq_true (is_safe l) _ h in
        let (b, c) = &&-eq_true (is_safe r) _ rest in
        let (v, p, pv) = value-safe l a in
        let (w, q, qw) = value-safe r b in
        let (x, ex) =
          apply_op-Returns op v w
            (λ o. let (pl, pr) = order_plain l r (is_order op) c o in (pv pl, qw pr)) in
        (bool x, rw (p, q, ex) refl, λ _. refl)
    value-safe (all_of es) h = let (b, p) = all-safe es h in (bool b, rw p refl, λ _. refl)
    value-safe (any_of es) h = let (b, p) = any-safe es h in (bool b, rw p refl, λ _. refl)
    value-safe (negated e) h = let (b, p) = eval-safe e h in (bool (not b), rw p refl, λ _. refl)

  -- An expression with no part of kind `js`, in which `<`, `<=`, `>` and `>=` compare no objects,
  -- arrays and functions, never throws: its truth value and its raw value both come back.
  pub expressions_return :
      (e : Expression Num)
      → is_safe e ≡ true
      → Returns (eval_expression H state e) × Returns (resolve_value H state e)
  expressions_return e h = let (v, p, _) = value-safe e h in (eval-safe e h, (v, p))

  -- The truth value of an expression that is not itself of kind `js` is that of its raw value, also
  -- where a part throws.
  pub eval-resolve_value :
      (e : Expression Num)
      → is_js e ≡ false
      → eval_expression H state e ≡ (resolve_value H state e >>= λ v. ok (truthy H v))
  unfolding eval_expression resolve_value truthy is_js
  eval-resolve_value (jsonpath path) h = refl
  eval-resolve_value (js e) h = cc
  eval-resolve_value (literal v) h = refl
  eval-resolve_value (compares l op r) h = ground arith
  eval-resolve_value (all_of es) h = ground arith
  eval-resolve_value (any_of es) h = ground arith
  eval-resolve_value (negated e) h = ground arith

  de_morgan_all :
      (es : Exprs Num)
      → eval_any H state (negate_all es) ≡ (eval_all H state es >>= λ b. ok (not b))
  unfolding eval_expression eval_all eval_any negate_all
  de_morgan_all no_exprs = refl
  de_morgan_all (and_then e es) = ground (arith, de_morgan_all es)

  de_morgan_any :
      (es : Exprs Num)
      → eval_all H state (negate_all es) ≡ (eval_any H state es >>= λ b. ok (not b))
  unfolding eval_expression eval_all eval_any negate_all
  de_morgan_any no_exprs = refl
  de_morgan_any (and_then e es) = ground (arith, de_morgan_any es)

  -- De Morgan's laws hold of the short-circuit loops, also where a clause throws.
  pub de_morgan :
      (es : Exprs Num)
      → (eval_expression H state (any_of (negate_all es))
          ≡ eval_expression H state (negated (all_of es)))
        × (eval_expression H state (all_of (negate_all es))
            ≡ eval_expression H state (negated (any_of es)))
  unfolding eval_expression
  de_morgan es = (de_morgan_all es, de_morgan_any es)
