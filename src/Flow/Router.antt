-- ===== src/Flow/Router.antt =====
-- `buildRouter` of packages/harness-core/src/flow-graph.ts: where the graph goes after a node.
pub mod Targets
pub mod Total
use agentx_platform.Prelude.{
  ltb, if◌then◌else◌, or_default, find, Text, codes, decimal, Result, ok, throws, ◌>>=◌, ◌>>◌, ℕ,
  max, Bool, true, false, Option, none, some, List, [], ◌∷◌, ◌++◌,
}
use agentx_platform.Flow.Values.{Value, Host}
use agentx_platform.Flow.Expressions.{eval_expression}
use agentx_platform.Flow.State.{
  ExitKind, success, error, rejected, NodeExit, FlowState, attempts_of,
}
use agentx_platform.Flow.Edges.{
  OnMaxAttempts, fail, escalate, EdgeKind, sequence, fallback, on_error, conditional, on_reject,
  Edge,
}

-- The id of the next node, or the end of the graph.
pub data Next : Type 0 where
  goto : Text → Next
  finish : Next

module _ {N : Type 0} where
  unfoldable pub is_sequence : EdgeKind N → Bool
  is_sequence sequence = true
  is_sequence _ = false

  unfoldable pub is_fallback : EdgeKind N → Bool
  is_fallback fallback = true
  is_fallback _ = false

  unfoldable pub is_on_error : EdgeKind N → Bool
  is_on_error on_error = true
  is_on_error _ = false

  -- The reject edges, with what they say of attempts.
  unfoldable pub as_reject : Edge N → Option (Text × Option ℕ × Option OnMaxAttempts)
  as_reject e = elim e.kind [ on_reject max onMax ↦ some (e.target, max, onMax) | _ ↦ none ]

  unfoldable pub find_reject : List (Edge N) → Option (Text × Option ℕ × Option OnMaxAttempts)
  unfolding as_reject
  find_reject [] = none
  find_reject (e ∷ es) = elim (as_reject e) [ some r ↦ some r | none ↦ find_reject es ]

abbrev pub default_max_attempts : ℕ
default_max_attempts = 3

unfoldable pub limit_message : Text → ℕ → ℕ → Text
limit_message node_id attempts max =
    codes "reject limit reached for node \""
    ++ (node_id
        ++ (codes "\" ("
            ++ (decimal attempts ++ (codes "/" ++ (decimal max ++ codes " attempts)")))))

error_message_of : Text → NodeExit → Text
error_message_of node_id e =
    codes "unhandled error at node \""
    ++ (node_id
        ++ (codes "\": " ++ or_default e.error_message (or_default e.error_name (codes "unknown"))))

unfoldable pub route_reject : Text → ℕ → Text × Option ℕ × Option OnMaxAttempts → Result Next
unfolding limit_message
route_reject node_id attempts (target, max_attempts, on_max) =
    let max = or_default max_attempts default_max_attempts in
    if ltb attempts max then ok (goto target) else elim on_max [
      | some m ↦ elim m [
        | escalate to ↦ ok (goto to)
        | fail ↦ throws (limit_message node_id attempts max)
      ]
      | none ↦ throws (limit_message node_id attempts max)
    ]

unfoldable pub route_error : {N : Type 0} → Text → NodeExit → List (Edge N) → Result Next
unfolding error_message_of is_on_error
route_error node_id e out = elim (find (λ d. is_on_error d.kind) out) [
  | some d ↦ ok (goto d.target)
  | none ↦ throws (error_message_of node_id e)
]

-- The sequence edge, else the fallback edge, else the end.
unfoldable pub route_default : {N : Type 0} → List (Edge N) → Next
unfolding is_sequence is_fallback
route_default out = elim (find (λ d. is_sequence d.kind) out) [
  | some d ↦ goto d.target
  | none ↦ elim (find (λ d. is_fallback d.kind) out) [ some d ↦ goto d.target | none ↦ finish ]
]

module _ (H : Host) (view : FlowState H.Num → Value H.Num) where
  open H use {Num}

  -- The conditional edges in order of declaration; `none` when no condition holds.
  unfoldable pub first_condition : FlowState Num → List (Edge Num) → Result (Option Text)
  first_condition s [] = ok none
  first_condition s (e ∷ es) = elim e.kind [
    | conditional c ↦ do
      b ← eval_expression H (view s) c
      elim b [ true ↦ ok (some e.target) | false ↦ first_condition s es ]
    | _ ↦ first_condition s es
  ]

  unfoldable pub route_success : FlowState Num → List (Edge Num) → Result Next
  unfolding first_condition route_default
  route_success s out = do
    hit ← first_condition s out
    elim hit [ some to ↦ ok (goto to) | none ↦ ok (route_default out) ]

  -- By the last exit: a reject exit needs a reject edge, else it counts as a success.
  unfoldable pub route_exit :
      Text → List (Edge Num) → FlowState Num → NodeExit → ExitKind → Result Next
  unfolding route_error route_success route_reject find_reject
  route_exit node_id out s e rejected = elim (find_reject out) [
    | some r ↦ route_reject node_id (attempts_of node_id s) r
    | none ↦ route_success s out
  ]
  route_exit node_id out s e error = route_error node_id e out
  route_exit node_id out s e success = route_success s out

  unfoldable pub build_router : Text → List (Edge Num) → FlowState Num → Result Next
  unfolding route_exit
  build_router node_id out s = elim s.last_exit [
    | none ↦ route_success s out
    | some e ↦ route_exit node_id out s e e.kind
  ]
