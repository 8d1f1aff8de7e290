-- ===== src/Flow/State.antt =====
-- The state of a flow and the reducers of its channels (`FlowState` in
-- packages/harness-core/src/flow-graph.ts), and the state seen as a JavaScript object.
pub mod Merge
use agentx_platform.Prelude.{
  or_default, Text, lookup, insert, ℕ, Bool, false, Option, none, some, List, [], ◌∷◌, ◌++◌, map,
}
use agentx_platform.Changes.{ChangedFile}
use agentx_platform.Flow.Values.{Value}
use agentx_platform.Flow.Expressions.{Expression}

pub data ExitKind : Type 0 where
  success error rejected : ExitKind

pub record NodeExit : Type 0 where
  pub node_id : Text
  pub kind : ExitKind
  pub error_name : Option Text
  pub error_message : Option Text

abbrev pub success_exit : Text → NodeExit
success_exit node_id = record {
  node_id = node_id;
  kind = success;
  error_name = none;
  error_message = none;
}

abbrev pub reject_exit : Text → NodeExit
reject_exit node_id = record {
  node_id = node_id;
  kind = rejected;
  error_name = none;
  error_message = none;
}

abbrev pub error_exit : Text → Text → Text → NodeExit
error_exit node_id name message = record {
  node_id = node_id;
  kind = error;
  error_name = some name;
  error_message = some message;
}

-- The structured findings of a rejection: failed assertions, or what the reviewer sent.
pub data Findings (N : Type 0) : Type 0 where
  failed_assertions : List (Text × Expression N) → Findings N
  reviewer_input : Value N → Findings N

pub record RejectionPayload (N : Type 0) : Type 0 where
  pub reason : Text
  pub steering_text : Option Text
  pub findings : Option (Findings N)
  pub attempt : ℕ

pub record FlowState (N : Type 0) : Type 0 where
  pub job_id : Text
  pub output : Text
  pub messages : List (Value N)
  pub attempts : List (Text × ℕ)
  pub last_exit : Option NodeExit
  pub rejection_payload : Option (RejectionPayload N)
  pub steering : List Text
  pub cancel_requested : Bool
  pub cancel_reason : Option Text
  pub changed_files : List ChangedFile

-- What an executor returns: the channels that it writes.
pub record Delta (N : Type 0) : Type 0 where
  pub output_to : Option Text
  pub attempts_to : Option (List (Text × ℕ))
  pub exit_to : Option NodeExit
  pub rejection_to : Option (RejectionPayload N)
  pub steering_to : Option (List Text)
  pub changed_to : Option (List ChangedFile)

abbrev pub no_delta : {N : Type 0} → Delta N
no_delta = record {
  output_to = none;
  attempts_to = none;
  exit_to = none;
  rejection_to = none;
  steering_to = none;
  changed_to = none;
}

-- `(acc, partial) => ({ ...acc, ...partial })`.
unfoldable pub merge_attempts : List (Text × ℕ) → List (Text × ℕ) → List (Text × ℕ)
unfolding insert
merge_attempts acc [] = acc
merge_attempts acc ((k, n) ∷ more) = merge_attempts (insert k n acc) more

-- `merged.set(c.id, c)` over a list.
unfoldable pub set_changes :
    List (Text × ChangedFile) → List ChangedFile → List (Text × ChangedFile)
unfolding insert
set_changes m [] = m
set_changes m (c ∷ cs) = set_changes (insert c.id c m) cs

unfoldable pub merge_changes : List ChangedFile → List ChangedFile → List ChangedFile
unfolding set_changes
merge_changes existing incoming = map (λ e. e.1) (set_changes (set_changes [] existing) incoming)

abbrev pub rejections :
    {N : Type 0}
    → Option (RejectionPayload N)
    → Option (RejectionPayload N)
    → Option (RejectionPayload N)
rejections none old = old
rejections (some p) old = some p

abbrev pub exits : Option NodeExit → Option NodeExit → Option NodeExit
exits none old = old
exits (some e) old = some e

-- The graph applies each channel's reducer to what the executor wrote.
unfoldable pub apply_delta : {N : Type 0} → FlowState N → Delta N → FlowState N
unfolding merge_attempts merge_changes
apply_delta s d = record s {
  output = or_default d.output_to s.output;
  attempts = merge_attempts s.attempts (or_default d.attempts_to []);
  last_exit = exits d.exit_to s.last_exit;
  rejection_payload = rejections d.rejection_to s.rejection_payload;
  steering = s.steering ++ or_default d.steering_to [];
  changed_files = elim d.changed_to [
    | none ↦ s.changed_files
    | some files ↦ merge_changes s.changed_files files
  ];
}

-- `state.attempts[nodeId] ?? 0`, for a node whose id is no name that all objects inherit, such as
-- `constructor`: the lookup is that of own keys.
unfoldable pub attempts_of : {N : Type 0} → Text → FlowState N → ℕ
unfolding lookup
attempts_of node_id s = or_default (lookup node_id s.attempts) 0

-- `freshFlowState` of packages/harness-core/src/orchestrator.ts.
unfoldable pub fresh_flow_state : {N : Type 0} → Text → Text → FlowState N
fresh_flow_state job_id input = record {
  job_id = job_id;
  output = input;
  messages = [];
  attempts = [];
  last_exit = none;
  rejection_payload = none;
  steering = [];
  cancel_requested = false;
  cancel_reason = none;
  changed_files = [];
}
