-- ===== src/Catalog/Expressions.antt =====
-- validateExpression of packages/harness-core/src/catalog.ts, and the expression that an accepted
-- value stands for.
pub mod Reads
use agentx_platform.Prelude.{
  if◌then◌else◌, or_default, is_some, Text, codes, same, decimal, Result, ok, throws, ◌>>◌, ℕ, ◌+◌,
  true, false, not, List, [], ◌∷◌, ◌++◌,
}
use agentx_platform.Flow.Values.{
  Value, undefined, null, bool, num, text, func, arr, obj, Items, nil, cons, Fields, end, field,
  Host,
}
use agentx_platform.Catalog.Shapes.{
  reject_if, own_field, is_non_empty_text, is_word, is_one_of, shown,
}

abbrev pub compare_ops : List Text
compare_ops =
    codes "==" ∷ codes "!=" ∷ codes "<" ∷ codes "<=" ∷ codes ">" ∷ codes ">=" ∷ codes "in" ∷ []

-- The cases of the switch on the kind of an expression.
pub data Kind : Type 0 where
  kind_jsonpath kind_js kind_literal kind_compare kind_all kind_any kind_not kind_unknown : Kind

unfoldable pub kind_of : {N : Type 0} → Value N → Kind
kind_of v =
    if is_word (codes "jsonpath") v
    then kind_jsonpath
    else if is_word (codes "js") v
    then kind_js
    else if is_word (codes "literal") v
    then kind_literal
    else if is_word (codes "compare") v
    then kind_compare
    else if is_word (codes "all") v
    then kind_all
    else if is_word (codes "any") v
    then kind_any
    else if is_word (codes "not") v
    then kind_not
    else kind_unknown

abbrev pub not_object : Text → Text
not_object place = place ++ codes " must be an Expression object"

abbrev pub not_exprs : Text → Text
not_exprs place = place ++ codes ".exprs must be an array"

module _ (H : Host) where
  open H use {Num}

  abbrev pub unknown_kind : Value Num → Text → Text
  unknown_kind kind place =
      place
      ++ codes ".kind must be one of: jsonpath, js, literal, compare, all, any, not (got "
      ++ shown H kind
      ++ codes ")"

  abbrev pub check_path : Fields Num → Text → Result (Unit {0})
  check_path fs place =
      reject_if (not (is_non_empty_text (or_default (own_field (codes "path") fs) undefined)))
        (place ++ codes ".path must be a non-empty string")

  abbrev pub check_js : Fields Num → Text → Result (Unit {0})
  check_js fs place =
      reject_if (not (is_non_empty_text (or_default (own_field (codes "expression") fs) undefined)))
        (place ++ codes ".expression must be a non-empty string")

  abbrev pub check_literal : Fields Num → Text → Result (Unit {0})
  check_literal fs place =
      reject_if (not (is_some (own_field (codes "value") fs))) (place ++ codes ".value is required")

  abbrev pub check_op : Fields Num → Text → Result (Unit {0})
  check_op fs place =
      let op = or_default (own_field (codes "op") fs) undefined in
      reject_if (not (is_one_of compare_ops op)) (
        place
        ++ codes ".op must be one of: ==, !=, <, <=, >, >=, in (got "
        ++ shown H op
        ++ codes ")")

  -- `expression_in key` is the check of the member of that name, `expressions` the loop over an
  -- array, from its index on.
  unfoldable mutual
    pub validate_expression : Value Num → Text → Result (Unit {0})
    validate_expression (obj r fs) place =
        elim (kind_of (or_default (own_field (codes "kind") fs) undefined)) [
          | kind_jsonpath ↦ check_path fs place
          | kind_js ↦ check_js fs place
          | kind_literal ↦ check_literal fs place
          | kind_compare ↦
              check_op fs place
              >> expression_in (codes "lhs") fs (place ++ codes ".lhs")
              >> expression_in (codes "rhs") fs (place ++ codes ".rhs")
          | kind_all ↦ exprs_in fs place
          | kind_any ↦ exprs_in fs place
          | kind_not ↦ expression_in (codes "expr") fs (place ++ codes ".expr")
          | kind_unknown ↦
              throws (unknown_kind (or_default (own_field (codes "kind") fs) undefined) place)
        ]
    validate_expression (arr r xs) place = throws (unknown_kind undefined place)
    validate_expression undefined place = throws (not_object place)
    validate_expression null place = throws (not_object place)
    validate_expression (bool b) place = throws (not_object place)
    validate_expression (num n) place = throws (not_object place)
    validate_expression (text s) place = throws (not_object place)
    validate_expression (func f) place = throws (not_object place)

    pub expression_in : Text → Fields Num → Text → Result (Unit {0})
    expression_in key end place = throws (not_object place)
    expression_in key (field k v fs) place = elim (same k key) [
      | true ↦ validate_expression v place
      | false ↦ expression_in key fs place
    ]

    pub exprs_in : Fields Num → Text → Result (Unit {0})
    exprs_in end place = throws (not_exprs place)
    exprs_in (field k v fs) place = elim (same k (codes "exprs")) [
      | true ↦ exprs_of v place
      | false ↦ exprs_in fs place
    ]

    pub exprs_of : Value Num → Text → Result (Unit {0})
    exprs_of (arr r xs) place = expressions xs 0 place
    exprs_of undefined place = throws (not_exprs place)
    exprs_of null place = throws (not_exprs place)
    exprs_of (bool b) place = throws (not_exprs place)
    exprs_of (num n) place = throws (not_exprs place)
    exprs_of (text s) place = throws (not_exprs place)
    exprs_of (func f) place = throws (not_exprs place)
    exprs_of (obj r fs) place = throws (not_exprs place)

    pub expressions : Items Num → ℕ → Text → Result (Unit {0})
    expressions nil i place = ok tt
    expressions (cons x xs) i place =
        validate_expression x (place ++ codes ".exprs[" ++ decimal i ++ codes "]")
        >> expressions xs (i + 1) place
