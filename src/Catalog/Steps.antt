-- ===== src/Catalog/Steps.antt =====
-- The checks of nodes in packages/harness-core/src/catalog.ts (validateNode and what it calls).
use agentx_platform.Prelude.{
  if◌then◌else◌, Text, codes, same, Result, ok, throws, ◌>>=◌, ◌>>◌, ℕ, Bool, not, ◌&&◌, ◌||◌, List,
  [], ◌∷◌, ◌++◌,
}
use agentx_platform.Flow.Values.{Value, Host}
use agentx_platform.Catalog.Shapes.{
  reject_if, only_if, member, is_object, is_array, items_of, is_absent, is_non_empty_text, is_text,
  is_bool, text_of, is_word, is_one_of, is_positive, is_non_negative, shown, each_item, at_index,
  is_nil,
}
use agentx_platform.Catalog.Expressions.{validate_expression}
use agentx_platform.Catalog.Agents.{validate_agent_def}

abbrev pub valid_node_kinds : List Text
valid_node_kinds =
    codes "agent"
    ∷ codes "tool"
    ∷ codes "script"
    ∷ codes "transform"
    ∷ codes "gate"
    ∷ codes "subflow"
    ∷ codes "trigger"
    ∷ codes "publish"
    ∷ []

abbrev pub valid_publish_actions : List Text
valid_publish_actions = codes "push-and-open-pr" ∷ codes "merge-pr" ∷ []

-- `value !== undefined && !test(value)`.
abbrev pub present_but_not : {N : Type 0} → (Value N → Bool) → Value N → Bool
present_but_not test v = not (is_absent v) && not (test v)

module _ (H : Host) where
  open H use {Num}

  -- A required member that must be a text and not empty.
  abbrev pub need_text : Value Num → Text → Text → Result (Unit {0})
  need_text value place key =
      reject_if (not (is_non_empty_text (member key value)))
        (place ++ codes "." ++ key ++ codes " must be a non-empty string")

  abbrev pub positive_when_present : Value Num → Text → Text → Result (Unit {0})
  positive_when_present value place key =
      reject_if (present_but_not (is_positive H) (member key value))
        (place ++ codes "." ++ key ++ codes " must be a positive number when present")

  unfoldable pub validate_publish_config : Value Num → Text → Result (Unit {0})
  validate_publish_config c place =
      reject_if (not (is_one_of valid_publish_actions (member (codes "action") c))) (
        place
        ++ codes ".action must be one of: push-and-open-pr, merge-pr (got "
        ++ shown H (member (codes "action") c)
        ++ codes ")")
      >> (if is_word (codes "push-and-open-pr") (member (codes "action") c)
          then (reject_if (present_but_not is_non_empty_text (member (codes "repo") c))
                (place ++ codes ".repo must be a non-empty string when present")
              >> reject_if (present_but_not is_text (member (codes "title") c))
                  (place ++ codes ".title must be a string when present")
              >> reject_if (present_but_not is_text (member (codes "body") c))
                  (place ++ codes ".body must be a string when present")
              >> reject_if (present_but_not is_non_empty_text (member (codes "base") c))
                  (place ++ codes ".base must be a non-empty string when present")
              >> reject_if (present_but_not is_bool (member (codes "draft") c))
                  (place ++ codes ".draft must be a boolean when present"))
          else (reject_if
                (present_but_not (is_one_of (codes "merge" ∷ codes "squash" ∷ codes "rebase" ∷ []))
                  (member (codes "method") c))
                (place
                  ++ codes ".method must be one of: merge, squash, rebase (got "
                  ++ shown H (member (codes "method") c)
                  ++ codes ")")
              >> reject_if (present_but_not is_bool (member (codes "deleteBranch") c))
                  (place ++ codes ".deleteBranch must be a boolean when present")))

  unfoldable pub validate_trigger_config : Value Num → Text → Result (Unit {0})
  validate_trigger_config c place =
      let kind = member (codes "kind") c in
      if is_word (codes "webhook") kind
      then (need_text c place (codes "path")
          >> reject_if
              (present_but_not (is_one_of (codes "GET" ∷ codes "POST" ∷ []))
                (member (codes "method") c))
              (place ++ codes ".method must be 'GET' or 'POST' when present"))
      else if is_word (codes "schedule") kind
      then need_text c place (codes "cron")
      else if is_word (codes "manual") kind
      then ok tt
      else if is_word (codes "event") kind
      then (need_text c place (codes "eventType")
          >> only_if (not (is_absent (member (codes "matcher") c)))
              (validate_expression H (member (codes "matcher") c) (place ++ codes ".matcher")))
      else if is_word (codes "message") kind
      then need_text c place (codes "channel")
      else throws (
          place
          ++ codes ".kind must be one of: webhook, schedule, manual, event, message (got "
          ++ shown H kind
          ++ codes ")")

  abbrev pub assertion : Text → ℕ → Value Num → Result (Unit {0})
  assertion place k a =
      let spot = at_index (place ++ codes ".assertions") k in
      reject_if (not (is_object a)) (spot ++ codes " must be an object")
      >> validate_expression H (member (codes "expression") a) (spot ++ codes ".expression")
      >> reject_if (not (is_non_empty_text (member (codes "message") a)))
          (spot ++ codes ".message must be a non-empty string")

  -- The ids of the agents of one node start from none.
  unfoldable pub validate_node_config : Text → Value Num → Text → Result (Unit {0})
  validate_node_config kind c place =
      if same kind (codes "agent")
      then validate_agent_def (member (codes "agent") c) (place ++ codes ".agent") []
        >>= (λ _. ok tt)
      else if same kind (codes "tool")
      then need_text c place (codes "toolId")
      else if same kind (codes "script")
      then (reject_if
            (not (
              is_one_of (codes "bash" ∷ codes "node" ∷ codes "python" ∷ [])
                (member (codes "language") c)))
            (place
              ++ codes ".language must be one of: bash, node, python (got "
              ++ shown H (member (codes "language") c)
              ++ codes ")")
          >> reject_if (not (is_text (member (codes "source") c)))
              (place ++ codes ".source must be a string")
          >> positive_when_present c place (codes "timeoutMs"))
      else if same kind (codes "transform")
      then validate_expression H (member (codes "expression") c) (place ++ codes ".expression")
      else if same kind (codes "gate")
      then (reject_if
            (not (is_array (member (codes "assertions") c))
              || is_nil (items_of (member (codes "assertions") c)))
            (place ++ codes ".assertions must be a non-empty array")
          >> each_item (assertion place) 0 (items_of (member (codes "assertions") c)))
      else if same kind (codes "subflow")
      then need_text c place (codes "flowId")
      else if same kind (codes "trigger")
      then validate_trigger_config c place
      else if same kind (codes "publish")
      then validate_publish_config c place
      else ok tt

  unfoldable pub validate_approval_tag : Value Num → Text → Result (Unit {0})
  validate_approval_tag t place =
      reject_if (not (is_object t)) (place ++ codes " must be an object")
      >> need_text t place (codes "assigneeRole")
      >> reject_if (not (is_positive H (member (codes "slaMs") t)))
          (place ++ codes ".slaMs must be a positive number")
      >> reject_if (not (is_word (codes "pessimistic") (member (codes "concurrency") t)))
          (place ++ codes ".concurrency must be 'pessimistic' (only mode supported in v1)")

  unfoldable pub validate_suspend_tag : Value Num → Text → Result (Unit {0})
  validate_suspend_tag t place =
      let trig = member (codes "trigger") t in
      reject_if (not (is_object t)) (place ++ codes " must be an object")
      >> reject_if (not (is_object trig)) (place ++ codes ".trigger must be an object")
      >> (if is_word (codes "timer") (member (codes "kind") trig)
          then reject_if (not (is_positive H (member (codes "durationMs") trig)))
              (place ++ codes ".trigger.durationMs must be a positive number")
          else if is_word (codes "event") (member (codes "kind") trig)
          then (need_text trig (place ++ codes ".trigger") (codes "eventType")
              >> only_if (not (is_absent (member (codes "matcher") trig))) (
                  validate_expression H (member (codes "matcher") trig)
                    (place ++ codes ".trigger.matcher")))
          else throws (
              place
              ++ codes ".trigger.kind must be 'timer' or 'event' (got "
              ++ shown H (member (codes "kind") trig)
              ++ codes ")"))

  unfoldable pub validate_loop_tag : Value Num → Text → Result (Unit {0})
  validate_loop_tag t place =
      reject_if (not (is_object t)) (place ++ codes " must be an object")
      >> reject_if
          (not
            (is_one_of (codes "collection" ∷ codes "directory" ∷ []) (member (codes "source") t)))
          (place
            ++ codes ".source must be 'collection' or 'directory' (got "
            ++ shown H (member (codes "source") t)
            ++ codes ")")
      >> validate_expression H (member (codes "path") t) (place ++ codes ".path")
      >> reject_if
          (not (is_one_of (codes "sequential" ∷ codes "parallel" ∷ []) (member (codes "mode") t)))
          (place
            ++ codes ".mode must be 'sequential' or 'parallel' (got "
            ++ shown H (member (codes "mode") t)
            ++ codes ")")
      >> positive_when_present t place (codes "concurrency")

  unfoldable pub validate_task_step_tags : Value Num → Text → Result (Unit {0})
  validate_task_step_tags tags place =
      let approval = member (codes "approval") tags in
      let suspend = member (codes "suspend") tags in
      let loop = member (codes "loop") tags in
      reject_if (not (is_object tags)) (place ++ codes " must be an object")
      >> reject_if (not (is_absent approval) && not (is_absent suspend))
          (place ++ codes ": approval and suspend tags are mutually exclusive on the same node")
      >> only_if (not (is_absent approval))
          (validate_approval_tag approval (place ++ codes ".approval"))
      >> only_if (not (is_absent suspend))
          (validate_suspend_tag suspend (place ++ codes ".suspend"))
      >> only_if (not (is_absent loop)) (validate_loop_tag loop (place ++ codes ".loop"))

  unfoldable pub validate_task_step_policy : Value Num → Text → Result (Unit {0})
  validate_task_step_policy p place =
      let retry = member (codes "retry") p in
      reject_if (not (is_object p)) (place ++ codes " must be an object")
      >> only_if (not (is_absent retry)) (
          reject_if (not (is_object retry)) (place ++ codes ".retry must be an object")
          >> reject_if (not (is_positive H (member (codes "maxAttempts") retry)))
              (place ++ codes ".retry.maxAttempts must be a positive number"))
      >> reject_if (present_but_not (is_non_negative H) (member (codes "timeout") p))
          (place ++ codes ".timeout must be a non-negative number when present")
      >> reject_if
          (present_but_not
            (is_one_of (codes "propagate" ∷ codes "continue" ∷ codes "fallback" ∷ []))
            (member (codes "onError") p))
          (place
            ++ codes ".onError must be one of: propagate, continue, fallback (got "
            ++ shown H (member (codes "onError") p)
            ++ codes ")")

  unfoldable pub validate_join_strategy : Value Num → Text → Result (Unit {0})
  validate_join_strategy value place =
      reject_if
        (not (
          is_one_of (codes "all" ∷ codes "any" ∷ []) value
          || (is_object value && is_positive H (member (codes "nOfM") value))))
        (place
          ++ codes " must be 'all', 'any', or { nOfM: <positive number> } (got "
          ++ shown H value
          ++ codes ")")

  unfoldable pub validate_node : Value Num → Text → Result (Unit {0})
  validate_node node place =
      let kind = member (codes "kind") node in
      let config = member (codes "config") node in
      let tags = member (codes "tags") node in
      let policy = member (codes "policy") node in
      let join_strategy = member (codes "joinStrategy") node in
      reject_if (not (is_object node)) (place ++ codes " must be an object")
      >> need_text node place (codes "id")
      >> reject_if (not (is_one_of valid_node_kinds kind)) (
          place
          ++ codes
              ".kind must be one of: agent, tool, script, transform, gate, subflow, trigger, publish (got "
          ++ shown H kind
          ++ codes ")")
      >> reject_if (not (is_object config)) (place ++ codes ".config must be an object")
      >> validate_node_config (text_of kind) config (place ++ codes ".config")
      >> only_if (not (is_absent tags)) (validate_task_step_tags tags (place ++ codes ".tags"))
      >> only_if (not (is_absent policy))
          (validate_task_step_policy policy (place ++ codes ".policy"))
      >> only_if (not (is_absent join_strategy))
          (validate_join_strategy join_strategy (place ++ codes ".joinStrategy"))
      >> reject_if
          (present_but_not (is_one_of (codes "success" ∷ codes "fail" ∷ []))
            (member (codes "terminal") node))
          (place ++ codes ".terminal must be 'success' or 'fail' when present")
