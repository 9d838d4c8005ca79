-- ===== src/Schemas/Enums.antt =====
-- The `StrEnum` classes of packages/common-schemas/src/common_schemas, with their text values.
use agentic_ai_platform.Prelude.{ℕ, ◌≡◌, ◌↔◌, true, String, arith, Eq, nat_beq}

pub data ExecutionStatus : Type 0 where
  created planning executing validating awaiting_approval completed failed cancelled :
      ExecutionStatus

pub data ExecutionMode : Type 0 where
  interactive background : ExecutionMode

-- A step is `skipped`, `running` and so on: behind the type where a name is taken above.
pub data StepStatus : Type 0 where
  pending running succeeded failed skipped cancelled : StepStatus

pub data StepType : Type 0 where
  retrieval tool reasoning validation action : StepType

pub data StepCompleteness : Type 0 where
  full partial degraded : StepCompleteness

pub data PolicyDecision : Type 0 where
  allow deny conditional : PolicyDecision

pub data RiskLevel : Type 0 where
  low medium high : RiskLevel

pub data ActionProposalStatus : Type 0 where
  proposed policy_denied awaiting_approval approved rejected executed failed : ActionProposalStatus

pub data ApprovalDecision : Type 0 where
  approve reject defer : ApprovalDecision

pub data ToolSideEffectClass : Type 0 where
  read_only state_changing : ToolSideEffectClass

pub data ToolIdempotency : Type 0 where
  idempotent non_idempotent : ToolIdempotency

pub data ToolCallStatus : Type 0 where
  success failure timeout rejected_by_policy : ToolCallStatus

-- The `.value` of each member.
abbrev pub execution_status_value : ExecutionStatus → String
execution_status_value ExecutionStatus.created = "created"
execution_status_value ExecutionStatus.planning = "planning"
execution_status_value ExecutionStatus.executing = "executing"
execution_status_value ExecutionStatus.validating = "validating"
execution_status_value ExecutionStatus.awaiting_approval = "awaiting_approval"
execution_status_value ExecutionStatus.completed = "completed"
execution_status_value ExecutionStatus.failed = "failed"
execution_status_value ExecutionStatus.cancelled = "cancelled"

abbrev pub step_type_value : StepType → String
step_type_value StepType.retrieval = "retrieval"
step_type_value StepType.tool = "tool"
step_type_value StepType.reasoning = "reasoning"
step_type_value StepType.validation = "validation"
step_type_value StepType.action = "action"

abbrev pub policy_decision_value : PolicyDecision → String
policy_decision_value PolicyDecision.allow = "allow"
policy_decision_value PolicyDecision.deny = "deny"
policy_decision_value PolicyDecision.conditional = "conditional"

abbrev pub risk_level_value : RiskLevel → String
risk_level_value RiskLevel.low = "low"
risk_level_value RiskLevel.medium = "medium"
risk_level_value RiskLevel.high = "high"

abbrev pub approval_decision_value : ApprovalDecision → String
approval_decision_value ApprovalDecision.approve = "approve"
approval_decision_value ApprovalDecision.reject = "reject"
approval_decision_value ApprovalDecision.defer = "defer"

abbrev pub tool_call_status_value : ToolCallStatus → String
tool_call_status_value ToolCallStatus.success = "success"
tool_call_status_value ToolCallStatus.failure = "failure"
tool_call_status_value ToolCallStatus.timeout = "timeout"
tool_call_status_value ToolCallStatus.rejected_by_policy = "rejected_by_policy"

-- Members are compared by their position.
abbrev pub execution_status_code : ExecutionStatus → ℕ
execution_status_code ExecutionStatus.created = 0
execution_status_code ExecutionStatus.planning = 1
execution_status_code ExecutionStatus.executing = 2
execution_status_code ExecutionStatus.validating = 3
execution_status_code ExecutionStatus.awaiting_approval = 4
execution_status_code ExecutionStatus.completed = 5
execution_status_code ExecutionStatus.failed = 6
execution_status_code ExecutionStatus.cancelled = 7

pub execution_status_beq_iff :
    (a b : ExecutionStatus)
    → (nat_beq (execution_status_code a) (execution_status_code b) ≡ true) ↔ (a ≡ b)
execution_status_beq_iff a b = ground arith

instance abbrev pub execution_status_eq : Eq ExecutionStatus
execution_status_eq = record {
  same = λ a b. nat_beq (execution_status_code a) (execution_status_code b);
  same_iff = execution_status_beq_iff;
}

abbrev pub step_status_code : StepStatus → ℕ
step_status_code StepStatus.pending = 0
step_status_code StepStatus.running = 1
step_status_code StepStatus.succeeded = 2
step_status_code StepStatus.failed = 3
step_status_code StepStatus.skipped = 4
step_status_code StepStatus.cancelled = 5

pub step_status_beq_iff :
    (a b : StepStatus) → (nat_beq (step_status_code a) (step_status_code b) ≡ true) ↔ (a ≡ b)
step_status_beq_iff a b = ground arith

instance abbrev pub step_status_eq : Eq StepStatus
step_status_eq = record {
  same = λ a b. nat_beq (step_status_code a) (step_status_code b);
  same_iff = step_status_beq_iff;
}

abbrev pub execution_mode_value : ExecutionMode → String
execution_mode_value ExecutionMode.interactive = "interactive"
execution_mode_value ExecutionMode.background = "background"

abbrev pub step_status_value : StepStatus → String
step_status_value StepStatus.pending = "pending"
step_status_value StepStatus.running = "running"
step_status_value StepStatus.succeeded = "succeeded"
step_status_value StepStatus.failed = "failed"
step_status_value StepStatus.skipped = "skipped"
step_status_value StepStatus.cancelled = "cancelled"

abbrev pub step_completeness_value : StepCompleteness → String
step_completeness_value StepCompleteness.full = "full"
step_completeness_value StepCompleteness.partial = "partial"
step_completeness_value StepCompleteness.degraded = "degraded"

abbrev pub tool_side_effect_class_value : ToolSideEffectClass → String
tool_side_effect_class_value ToolSideEffectClass.read_only = "read_only"
tool_side_effect_class_value ToolSideEffectClass.state_changing = "state_changing"

abbrev pub tool_idempotency_value : ToolIdempotency → String
tool_idempotency_value ToolIdempotency.idempotent = "idempotent"
tool_idempotency_value ToolIdempotency.non_idempotent = "non_idempotent"
