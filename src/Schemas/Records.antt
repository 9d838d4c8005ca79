-- ===== src/Schemas/Records.antt =====
-- The record classes of packages/common-schemas/src/common_schemas that the orchestrator stores.
-- Dictionaries with a fixed set of keys are records: the planner's step specifications and edges,
-- the input of a step, and a row of the trace timeline (whose further keys are `detail`).
use agentic_ai_platform.Prelude.{ℕ, Bool, Option, String, List}
use agentic_ai_platform.Value.{Fields}
use agentic_ai_platform.Schemas.Enums.{
  ExecutionStatus, ExecutionMode, StepStatus, StepType, StepCompleteness, PolicyDecision, RiskLevel,
  ActionProposalStatus, ApprovalDecision, ToolSideEffectClass, ToolIdempotency, ToolCallStatus,
}

pub record ExecutionContext : Type 0 where
  pub context_id : ℕ
  pub tenant_id : String
  pub principal_id : Option String
  pub actor : Option String
  pub request_id : String
  pub environment : String
  pub permissions_scope : Fields
  pub policy_scope : String
  pub feature_flags : Option Fields
  pub created_at : ℕ
  pub updated_at : ℕ

-- {"event_type": …, "at": …, **detail}
pub record TraceRow : Type 0 where
  pub event_type : String
  pub at : ℕ
  pub detail : Fields

pub record Execution : Type 0 where
  pub execution_id : ℕ
  pub workflow_type : String
  pub status : ExecutionStatus
  pub execution_mode : ExecutionMode
  pub execution_context_id : ℕ
  pub parent_execution_id : Option ℕ
  pub current_plan_id : Option ℕ
  pub input : Fields
  pub result : Option Fields
  pub trace_timeline : List TraceRow
  pub validation_summary : Option Fields
  pub created_at : ℕ
  pub updated_at : ℕ
  pub completed_at : Option ℕ
  pub cancelled_at : Option ℕ

-- An entry of `ExecutionPlan.steps`.
pub record StepSpec : Type 0 where
  pub step_key : ℕ
  pub step_name : Option String
  pub kind : String
  pub agent : Option String
  pub degraded_allowed : Bool

-- An entry of `ExecutionPlan.dependencies`.
pub record Edge : Type 0 where
  pub from_step : ℕ
  pub to_step : ℕ

pub record ExecutionPlan : Type 0 where
  pub plan_id : ℕ
  pub execution_id : ℕ
  pub parent_plan_id : Option ℕ
  pub plan_version : ℕ
  pub revision_reason : Option String
  pub goal : Fields
  pub steps : List StepSpec
  pub dependencies : List Edge
  pub ordering : List (List ℕ)
  pub metadata : Fields
  pub created_at : ℕ

-- `step_type: StepType | str`
pub data StepKind : Type 0 where
  member : StepType → StepKind
  named : String → StepKind

-- The dictionary `Step.input`.
pub record StepInput : Type 0 where
  pub planner_step_key : ℕ
  pub planner_step_name : Option String
  pub workflow_type : String
  pub execution_input : Fields

pub record Step : Type 0 where
  pub step_id : ℕ
  pub execution_id : ℕ
  pub plan_id : ℕ
  pub step_type : StepKind
  pub agent : String
  pub input : StepInput
  pub status : StepStatus
  -- the `step_id` of each `StepDependency`
  pub dependencies : List ℕ
  pub retry_count : ℕ
  pub degraded_allowed : Bool
  pub created_at : ℕ
  pub updated_at : ℕ

pub record ValidationOutcome : Type 0 where
  pub status : String
  pub details : Fields

pub record StepResult : Type 0 where
  pub step_result_id : ℕ
  pub step_id : ℕ
  pub output : Option Fields
  pub evidence : List Fields
  pub errors : List Fields
  pub latency_ms : Option ℕ
  pub latency_started_at : Option ℕ
  pub latency_ended_at : Option ℕ
  -- the bits of the float
  pub confidence_score : Option ℕ
  pub confidence_detail : Option Fields
  pub completeness : Option StepCompleteness
  pub validation_outcome : Option ValidationOutcome
  pub created_at : ℕ
  pub updated_at : ℕ

pub record ActionProposal : Type 0 where
  pub proposal_id : ℕ
  pub execution_id : ℕ
  pub step_id : Option ℕ
  pub action_type : String
  pub payload : Fields
  pub risk_level : RiskLevel
  pub requires_approval : Bool
  pub status : ActionProposalStatus
  pub created_at : ℕ
  pub updated_at : ℕ

pub record PolicyEvaluation : Type 0 where
  pub evaluation_id : ℕ
  pub execution_id : ℕ
  pub execution_context_id : ℕ
  pub decision : PolicyDecision
  pub reason : String
  pub evaluated_rules : List Fields
  pub subject_ref : Fields
  pub created_at : ℕ
  pub updated_at : ℕ

pub record Approval : Type 0 where
  pub approval_id : ℕ
  pub execution_id : ℕ
  pub policy_evaluation_id : Option ℕ
  pub action_proposal_id : Option ℕ
  pub approver : String
  pub decision : ApprovalDecision
  pub notes : Option String
  pub decided_at : ℕ
  pub created_at : ℕ
  pub updated_at : ℕ

pub record ToolRetryPolicy : Type 0 where
  pub max_retries : ℕ
  pub backoff_ms : ℕ

pub record RegisteredTool : Type 0 where
  pub tool_name : String
  pub side_effect_class : ToolSideEffectClass
  pub idempotency : ToolIdempotency
  pub timeout_bounds_ms : ℕ
  pub description : String
  pub provider_id : String
  pub retry_policy : ToolRetryPolicy

pub record ToolInvokeRequest : Type 0 where
  pub execution_id : ℕ
  pub step_id : ℕ
  pub execution_context_id : ℕ
  pub tool_name : String
  pub input : Fields
  pub action_proposal_id : Option ℕ
  pub policy_denied : Bool

pub record ToolCall : Type 0 where
  pub tool_call_id : ℕ
  pub execution_id : ℕ
  pub step_id : ℕ
  pub execution_context_id : ℕ
  pub action_proposal_id : Option ℕ
  pub tool_name : String
  pub side_effect_class : ToolSideEffectClass
  pub idempotency : ToolIdempotency
  pub input : Fields
  pub output : Option Fields
  pub status : ToolCallStatus
  pub latency_ms : Option ℕ
  pub error : Option Fields
  pub created_at : ℕ
  pub updated_at : ℕ
