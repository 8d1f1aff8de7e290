-- ===== src/Flow/Interrupts.antt =====
-- The executors of the nodes that packages/harness-core/src/flow-graph.ts adds for the approval and
-- suspend tags. A node that interrupts is run again with what the reviewer sent.
pub mod Counts
pub mod Decisions
use agentx_platform.Prelude.{
  ◌==◌, if◌then◌else◌, or_default, length, Text, codes, same, decimal, join, lookup, insert, ℕ, ◌+◌,
  Option, none, some, List, [], ◌∷◌, ◌++◌, map,
}
use agentx_platform.Changes.{
  ChangeKind, added, modified, deleted, renamed, copied, type_changed, ChangedFile,
}
use agentx_platform.Flow.Values.{Value, undefined, text, obj, Host, object_get}
use agentx_platform.Flow.State.{
  success_exit, reject_exit, Findings, reviewer_input, FlowState, Delta, no_delta, attempts_of,
}
use agentx_platform.Flow.Edges.{ApprovalTag, SuspendTag}
use agentx_platform.Flow.Rewrite.{approval_suffix, suspend_suffix}

pub data Decision : Type 0 where
  approve reject : Decision

pub record ApprovalResume (N : Type 0) : Type 0 where
  pub decision : Decision
  pub steering : Value N

pub record ApprovalRequest (N : Type 0) : Type 0 where
  pub node_id : Text
  pub assignee_role : Text
  pub sla_ms : N
  pub steering_inputs : Option (Value N)
  pub content : Text
  pub attempt : ℕ
  pub changes : List ChangedFile
  pub pr_url : Option Text
  pub diff_summary : Option Text

pub record SuspendRequest (N : Type 0) : Type 0 where
  pub node_id : Text
  pub trigger : SuspendTag N
  pub changes : List ChangedFile

-- What one run of an executor does.
pub data Outcome (N : Type 0) : Type 0 where
  wrote : Delta N → Outcome N
  asks_approval : ApprovalRequest N → Outcome N
  asks_suspend : SuspendRequest N → Outcome N
  fails : Text → Outcome N

-- `replace` of the suffix at the end of the text.
unfoldable pub strip_suffix : Text → Text → Text
unfolding same
strip_suffix suffix [] = []
strip_suffix suffix (c ∷ s) =
    let rest = strip_suffix suffix s in if same (c ∷ s) suffix then [] else c ∷ rest

unfoldable pub kind_name : ChangeKind → Text
kind_name added = codes "added"
kind_name modified = codes "modified"
kind_name deleted = codes "deleted"
kind_name renamed = codes "renamed"
kind_name copied = codes "copied"
kind_name type_changed = codes "type-changed"

-- The loop that fills `byKind`.
unfoldable pub count_kinds : List (Text × ℕ) → List ChangedFile → List (Text × ℕ)
unfolding insert lookup kind_name
count_kinds by_kind [] = by_kind
count_kinds by_kind (c ∷ cs) =
    let k = kind_name c.change_kind in
    count_kinds (insert k (or_default (lookup k by_kind) 0 + 1) by_kind) cs

unfoldable pub summarize_changes : List ChangedFile → Option Text
unfolding count_kinds
summarize_changes [] = none
summarize_changes (c ∷ cs) =
    let breakdown =
      join (codes ", ") (map (λ e. decimal e.1 ++ (codes " " ++ e.0)) (count_kinds [] (c ∷ cs))) in
    let noun = if length (c ∷ cs) == 1 then codes "file" else codes "files" in
    some (
      decimal (length (c ∷ cs))
      ++ (codes " " ++ (noun ++ (codes " (" ++ (breakdown ++ codes ")")))))

-- `...(text ? { field: text } : {})`.
abbrev pub if_not_empty : Option Text → Option Text
if_not_empty none = none
if_not_empty (some []) = none
if_not_empty (some (c ∷ s)) = some (c ∷ s)

abbrev pub as_text : {N : Type 0} → Value N → Option Text
as_text (text t) = some t
as_text _ = none

-- What the reviewer sent, when it is neither absent nor a text.
abbrev pub as_findings : {N : Type 0} → Value N → Option (Findings N)
as_findings undefined = none
as_findings (text t) = none
as_findings v = some (reviewer_input v)

module _ (H : Host) where
  open H use {Num, parse_json}

  unfoldable pub extract_pr_url : Text → Option Text
  unfolding object_get
  extract_pr_url [] = none
  extract_pr_url (c ∷ s) =
      if c == b'{'
      then elim (parse_json (c ∷ s)) [
        | none ↦ none
        | some v ↦ elim v [ obj r fs ↦ as_text (object_get H (codes "prUrl") fs) | _ ↦ none ]
      ]
      else none

  unfoldable pub approval_request : Text → ApprovalTag Num → FlowState Num → ApprovalRequest Num
  unfolding strip_suffix extract_pr_url summarize_changes
  approval_request node_id tag s = record {
    node_id = strip_suffix approval_suffix node_id;
    assignee_role = tag.assignee_role;
    sla_ms = tag.sla_ms;
    steering_inputs = tag.steering_inputs;
    content = s.output;
    attempt = attempts_of node_id s + 1;
    changes = s.changed_files;
    pr_url = if_not_empty (extract_pr_url s.output);
    diff_summary = if_not_empty (summarize_changes s.changed_files);
  }

  unfoldable pub approval_delta : Text → FlowState Num → ApprovalResume Num → Delta Num
  approval_delta node_id s r = elim r.decision [
    | approve ↦ record no_delta {
      attempts_to = some ((node_id, attempts_of node_id s + 1) ∷ []);
      exit_to = some (success_exit node_id);
      steering_to = elim (if_not_empty (as_text r.steering)) [
        | none ↦ none
        | some t ↦ some (t ∷ [])
      ];
    }
    | reject ↦ record no_delta {
      attempts_to = some ((node_id, attempts_of node_id s + 1) ∷ []);
      exit_to = some (reject_exit node_id);
      rejection_to = some (record {
        reason = codes "rejected by reviewer";
        steering_text = as_text r.steering;
        findings = as_findings r.steering;
        attempt = attempts_of node_id s + 1;
      });
    }
  ]

  -- The second argument is what `interrupt` returns, once the node has been resumed.
  unfoldable pub approval_executor :
      Text → ApprovalTag Num → FlowState Num → Option (ApprovalResume Num) → Outcome Num
  unfolding approval_request approval_delta
  approval_executor node_id tag s none = asks_approval (approval_request node_id tag s)
  approval_executor node_id tag s (some r) = wrote (approval_delta node_id s r)

  unfoldable pub suspend_executor :
      Text → SuspendTag Num → FlowState Num → Option (ApprovalResume Num) → Outcome Num
  unfolding strip_suffix
  suspend_executor node_id tag s none = asks_suspend (record {
    node_id = strip_suffix suspend_suffix node_id;
    trigger = tag;
    changes = s.changed_files;
  })
  suspend_executor node_id tag s (some r) =
      wrote (record no_delta { exit_to = some (success_exit node_id) })
