-- ===== src/Flow/Edges.antt =====
-- The nodes and edges of a flow (packages/harness-core/src/catalog.ts), as the compiler of
-- packages/harness-core/src/flow-graph.ts reads them.
use agentx_platform.Prelude.{Text, ℕ, Option, List}
use agentx_platform.Flow.Values.{Value}
use agentx_platform.Flow.Expressions.{Expression}

pub data OnMaxAttempts : Type 0 where
  fail : OnMaxAttempts
  escalate : Text → OnMaxAttempts

pub data EdgeKind (N : Type 0) : Type 0 where
  sequence fallback on_error : EdgeKind N
  conditional : Expression N → EdgeKind N
  on_reject : Option ℕ → Option OnMaxAttempts → EdgeKind N

pub record Edge (N : Type 0) : Type 0 where
  pub source : Text
  pub target : Text
  pub kind : EdgeKind N

pub record ApprovalTag (N : Type 0) : Type 0 where
  pub assignee_role : Text
  pub sla_ms : N
  pub steering_inputs : Option (Value N)

pub data SuspendTag (N : Type 0) : Type 0 where
  timer : N → SuspendTag N
  event : Text → Option (Expression N) → SuspendTag N

pub data LoopSource : Type 0 where
  collection directory : LoopSource

pub data LoopMode : Type 0 where
  sequential parallel : LoopMode

pub record LoopTag (N : Type 0) : Type 0 where
  pub source : LoopSource
  pub path : Expression N
  pub mode : LoopMode
  pub concurrency : Option ℕ

pub record TaskStepTags (N : Type 0) : Type 0 where
  pub approval : Option (ApprovalTag N)
  pub suspend : Option (SuspendTag N)
  pub loop : Option (LoopTag N)

-- Of the configurations those that this part of the program reads.
pub data StepKind (N : Type 0) : Type 0 where
  agent tool script subflow trigger publish : StepKind N
  transform : Expression N → StepKind N
  gate : List (Text × Expression N) → StepKind N

-- The tag data that the compiler puts on the nodes that it adds.
pub data Synthetic (N : Type 0) : Type 0 where
  approval_node : ApprovalTag N → Synthetic N
  suspend_node : SuspendTag N → Synthetic N

pub record TaskStep (N : Type 0) : Type 0 where
  pub id : Text
  pub step_kind : StepKind N
  pub tags : Option (TaskStepTags N)
  pub synthetic : Option (Synthetic N)

pub record FlowDef (N : Type 0) : Type 0 where
  pub flow_id : Text
  pub nodes : List (TaskStep N)
  pub edges : List (Edge N)
