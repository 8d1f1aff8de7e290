-- ===== src/Catalog/Expressions/Reads.antt =====
-- The expression that a value stands for, and that the check of packages/harness-core/src/catalog.ts
-- accepts those values that stand for one.
use agentx_platform.Prelude.{
  if◌then◌else◌, or_default, is_some, Text, codes, same, decimal, has, Result, ok, throws, ◌>>◌, ℕ,
  ◌+◌, ◌≡◌, refl, Bool, true, false, not, Option, none, some, ◌∷◌, ◌++◌, arith,
}
use agentx_platform.Flow.Values.{
  Value, undefined, null, bool, num, text, func, arr, obj, Items, nil, cons, Fields, end, field,
  Host,
}
use agentx_platform.Flow.Expressions.{
  CompareOp, op_eq, op_ne, op_lt, op_le, op_gt, op_ge, op_in, Expression, jsonpath, js, literal,
  compares, all_of, any_of, negated, Exprs, no_exprs, and_then,
}
use agentx_platform.Catalog.Shapes.{reject_if, own_field, is_non_empty_text, is_one_of, shown}
use agentx_platform.Catalog.Expressions.{
  compare_ops, kind_jsonpath, kind_js, kind_literal, kind_compare, kind_all, kind_any, kind_not,
  kind_unknown, kind_of, check_op, validate_expression, expression_in, exprs_in, exprs_of,
  expressions,
}

abbrev pub is_ok : {A : Type 0} → Result A → Bool
is_ok (ok a) = true
is_ok (throws m) = false

-- The operator of a comparison.
unfoldable pub read_op : Text → Option CompareOp
read_op s =
    if same (codes "==") s
    then some op_eq
    else if same (codes "!=") s
    then some op_ne
    else if same (codes "<") s
    then some op_lt
    else if same (codes "<=") s
    then some op_le
    else if same (codes ">") s
    then some op_gt
    else if same (codes ">=") s
    then some op_ge
    else if same (codes "in") s
    then some op_in
    else none

module _ {N : Type 0} where
  unfoldable pub read_text : (Text → Expression N) → Option (Value N) → Option (Expression N)
  read_text make (some (text (c ∷ s))) = some (make (c ∷ s))
  read_text make _ = none

  unfoldable pub read_comparison :
      Option (Value N) → Option (Expression N) → Option (Expression N) → Option (Expression N)
  read_comparison (some (text s)) (some a) (some b) = elim (read_op s) [
    | none ↦ none
    | some op ↦ some (compares a op b)
  ]
  read_comparison _ _ _ = none

  unfoldable mutual
    pub read_expression : Value N → Option (Expression N)
    read_expression (obj r fs) =
        elim (kind_of (or_default (own_field (codes "kind") fs) undefined)) [
          | kind_jsonpath ↦ read_text jsonpath (own_field (codes "path") fs)
          | kind_js ↦ read_text js (own_field (codes "expression") fs)
          | kind_literal ↦ elim (own_field (codes "value") fs) [
            | none ↦ none
            | some v ↦ some (literal v)
          ]
          | kind_compare ↦
              read_comparison (own_field (codes "op") fs) (read_in (codes "lhs") fs)
                (read_in (codes "rhs") fs)
          | kind_all ↦ elim (read_exprs_in fs) [ none ↦ none | some es ↦ some (all_of es) ]
          | kind_any ↦ elim (read_exprs_in fs) [ none ↦ none | some es ↦ some (any_of es) ]
          | kind_not ↦ elim (read_in (codes "expr") fs) [ none ↦ none | some e ↦ some (negated e) ]
          | kind_unknown ↦ none
        ]
    read_expression _ = none

    pub read_in : Text → Fields N → Option (Expression N)
    read_in key end = none
    read_in key (field k v fs) = elim (same k key) [
      | true ↦ read_expression v
      | false ↦ read_in key fs
    ]

    pub read_exprs_in : Fields N → Option (Exprs N)
    read_exprs_in end = none
    read_exprs_in (field k v fs) = elim (same k (codes "exprs")) [
      | true ↦ read_exprs_of v
      | false ↦ read_exprs_in fs
    ]

    pub read_exprs_of : Value N → Option (Exprs N)
    read_exprs_of (arr r xs) = read_exprs xs
    read_exprs_of _ = none

    pub read_exprs : Items N → Option (Exprs N)
    read_exprs nil = some no_exprs
    read_exprs (cons x xs) = elim (read_expression x) [
      | none ↦ none
      | some e ↦ elim (read_exprs xs) [ none ↦ none | some es ↦ some (and_then e es) ]
    ]

read_text-reads :
    {N : Type 0} (make : Text → Expression N) (o : Option (Value N)) (m : Text)
    → is_ok (reject_if (not (is_non_empty_text (or_default o undefined))) m)
      ≡ is_some (read_text make o)
unfolding read_text
read_text-reads make none m = refl
read_text-reads make (some v) m = ground arith

read_op-has : (s : Text) → has s compare_ops ≡ is_some (read_op s)
unfolding has read_op
read_op-has s = ground arith

module _ (H : Host) where
  open H use {Num}

  comparison_reads :
      (fs : Fields Num) (place : Text)
      → ((key m : Text) → is_ok (expression_in H key fs m) ≡ is_some (read_in key fs))
      → is_ok (
          check_op H fs place
          >> expression_in H (codes "lhs") fs (place ++ codes ".lhs")
          >> expression_in H (codes "rhs") fs (place ++ codes ".rhs"))
        ≡ is_some (
            read_comparison
              (own_field (codes "op") fs)
              (read_in (codes "lhs") fs)
              (read_in (codes "rhs") fs))
  unfolding read_comparison
  comparison_reads fs place in_reads =
      pass (own_field (codes "op") fs) (expression_in H (codes "lhs") fs (place ++ codes ".lhs"))
        (expression_in H (codes "rhs") fs (place ++ codes ".rhs")) (read_in (codes "lhs") fs)
        (read_in (codes "rhs") fs) (in_reads (codes "lhs") (place ++ codes ".lhs"))
        (in_reads (codes "rhs") (place ++ codes ".rhs"))
    where
      pass :
          (o : Option (Value Num)) (a b : Result (Unit {0})) (x y : Option (Expression Num))
          → is_ok a ≡ is_some x
          → is_ok b ≡ is_some y
          → is_ok (
              reject_if (not (is_one_of compare_ops (or_default o undefined))) (
                place
                ++ codes ".op must be one of: ==, !=, <, <=, >, >=, in (got "
                ++ shown H (or_default o undefined)
                ++ codes ")")
              >> a
              >> b)
            ≡ is_some (read_comparison o x y)
      pass none a b x y p q = refl
      pass (some (text s)) a b x y p q = ground (arith, read_op-has s)
      pass (some v) a b x y p q = ground arith

  -- Of one object, when its members are read as they are checked.
  object_reads :
      (r : ℕ) (fs : Fields Num) (place : Text)
      → ((key m : Text) → is_ok (expression_in H key fs m) ≡ is_some (read_in key fs))
      → ((m : Text) → is_ok (exprs_in H fs m) ≡ is_some (read_exprs_in fs))
      → is_ok (validate_expression H (obj r fs) place) ≡ is_some (read_expression (obj r fs))
  unfolding validate_expression read_expression
  object_reads r fs place in_reads exprs_reads = ground (
    arith,
    read_text-reads jsonpath (own_field (codes "path") fs)
        (place ++ codes ".path must be a non-empty string"),
    read_text-reads js (own_field (codes "expression") fs)
        (place ++ codes ".expression must be a non-empty string"),
    comparison_reads fs place in_reads,
    in_reads (codes "expr") (place ++ codes ".expr"),
    exprs_reads place,
  )

  mutual
    unfolding validate_expression read_expression

    expression_reads :
        (v : Value Num) (place : Text)
        → is_ok (validate_expression H v place) ≡ is_some (read_expression v)
    expression_reads (obj r fs) place =
        object_reads r fs place (λ key m. in_reads key fs m) (λ m. exprs_in_reads fs m)
    expression_reads (arr r xs) place = refl
    expression_reads undefined place = refl
    expression_reads null place = refl
    expression_reads (bool b) place = refl
    expression_reads (num n) place = refl
    expression_reads (text s) place = refl
    expression_reads (func f) place = refl

    in_reads :
        (key : Text) (fs : Fields Num) (place : Text)
        → is_ok (expression_in H key fs place) ≡ is_some (read_in key fs)
    in_reads key end place = refl
    in_reads key (field k v fs) place =
        ground (arith, expression_reads v place, in_reads key fs place)

    exprs_in_reads :
        (fs : Fields Num) (place : Text) → is_ok (exprs_in H fs place) ≡ is_some (read_exprs_in fs)
    exprs_in_reads end place = refl
    exprs_in_reads (field k v fs) place =
        ground (arith, exprs_of_reads v place, exprs_in_reads fs place)

    exprs_of_reads :
        (v : Value Num) (place : Text) → is_ok (exprs_of H v place) ≡ is_some (read_exprs_of v)
    exprs_of_reads (arr r xs) place = exprs_reads xs 0 place
    exprs_of_reads undefined place = refl
    exprs_of_reads null place = refl
    exprs_of_reads (bool b) place = refl
    exprs_of_reads (num n) place = refl
    exprs_of_reads (text s) place = refl
    exprs_of_reads (func f) place = refl
    exprs_of_reads (obj r fs) place = refl

    exprs_reads :
        (xs : Items Num) (i : ℕ) (place : Text)
        → is_ok (expressions H xs i place) ≡ is_some (read_exprs xs)
    exprs_reads nil i place = refl
    exprs_reads (cons x xs) i place = ground (
      arith,
      expression_reads x (place ++ codes ".exprs[" ++ decimal i ++ codes "]"),
      exprs_reads xs (i + 1) place,
    )

  -- The check of an expression accepts just those values that stand for an expression: those from
  -- which one can be read, with all the parts that its kind has, at any depth.
  pub validate_expression-reads :
      (v : Value Num) (place : Text)
      → is_ok (validate_expression H v place) ≡ is_some (read_expression v)
  validate_expression-reads v place = expression_reads v place
