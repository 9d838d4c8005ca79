-- ===== src/Repository.antt =====
-- services/orchestrator/app/adapters/repository.py: `InMemoryRepository`, the store behind the
-- port through which all state persists. Each method that mutates returns the new store; `none` is
-- the `KeyError` of an update of a row that is not there.
pub mod Laws
pub mod Listing
use agentic_ai_platform.Prelude.{
  ℕ, ◌≤◌, Bool, true, false, ◌&&◌, Option, none, some, String, List, [], ◌==◌, nat_eq, string_eq,
  leb, min, max, keep, take, if◌then◌else◌,
}
use agentic_ai_platform.Prelude.Dict.{Dict, lookup, put, values}
use agentic_ai_platform.Prelude.Order.{sort}
use agentic_ai_platform.Schemas.{
  ExecutionContext, Execution, ExecutionPlan, Step, StepResult, ActionProposal, PolicyEvaluation,
  Approval, ToolCall, ExecutionStatus, execution_status_value,
}

pub record Repository : Type 0 where
  pub contexts : Dict ExecutionContext
  pub executions : Dict Execution
  pub plans : Dict ExecutionPlan
  pub steps : Dict Step
  pub step_results : Dict StepResult
  pub action_proposals : Dict ActionProposal
  pub policy_evaluations : Dict PolicyEvaluation
  pub approvals : Dict Approval
  pub tool_calls : Dict ToolCall

abbrev pub empty : Repository
empty = record {
  contexts = [];
  executions = [];
  plans = [];
  steps = [];
  step_results = [];
  action_proposals = [];
  policy_evaluations = [];
  approvals = [];
  tool_calls = [];
}

unfoldable pub save_context : ExecutionContext → Repository → Repository
save_context c r = record r { contexts = put c.context_id c r.contexts }

unfoldable pub get_context : ℕ → Repository → Option ExecutionContext
get_context k r = lookup k r.contexts

unfoldable pub save_execution : Execution → Repository → Repository
save_execution e r = record r { executions = put e.execution_id e r.executions }

unfoldable pub get_execution : ℕ → Repository → Option Execution
get_execution k r = lookup k r.executions

unfoldable pub update_execution : Execution → Repository → Option Repository
update_execution e r = elim (lookup e.execution_id r.executions) [
  | none ↦ none
  | some _ ↦ some (record r { executions = put e.execution_id e r.executions })
]

unfoldable pub save_plan : ExecutionPlan → Repository → Repository
save_plan p r = record r { plans = put p.plan_id p r.plans }

unfoldable pub get_plan : ℕ → Repository → Option ExecutionPlan
get_plan k r = lookup k r.plans

unfoldable pub save_step : Step → Repository → Repository
save_step s r = record r { steps = put s.step_id s r.steps }

unfoldable pub get_step : ℕ → Repository → Option Step
get_step k r = lookup k r.steps

unfoldable pub update_step : Step → Repository → Option Repository
update_step s r = elim (lookup s.step_id r.steps) [
  | none ↦ none
  | some _ ↦ some (record r { steps = put s.step_id s r.steps })
]

-- `sorted(…, key=lambda s: s.created_at)`
unfoldable pub list_steps_for_execution : ℕ → Repository → List Step
list_steps_for_execution k r =
    sort (λ a b. leb a.created_at b.created_at) (keep (λ s. s.execution_id == k) (values r.steps))

unfoldable pub save_step_result : StepResult → Repository → Repository
save_step_result x r = record r { step_results = put x.step_id x r.step_results }

unfoldable pub get_step_result : ℕ → Repository → Option StepResult
get_step_result k r = lookup k r.step_results

unfoldable pub save_action_proposal : ActionProposal → Repository → Repository
save_action_proposal p r = record r { action_proposals = put p.proposal_id p r.action_proposals }

unfoldable pub get_action_proposal : ℕ → Repository → Option ActionProposal
get_action_proposal k r = lookup k r.action_proposals

unfoldable pub save_policy_evaluation : PolicyEvaluation → Repository → Repository
save_policy_evaluation e r = record r {
  policy_evaluations = put e.evaluation_id e r.policy_evaluations;
}

unfoldable pub get_policy_evaluation : ℕ → Repository → Option PolicyEvaluation
get_policy_evaluation k r = lookup k r.policy_evaluations

unfoldable pub save_approval : Approval → Repository → Repository
save_approval a r = record r { approvals = put a.approval_id a r.approvals }

unfoldable pub get_approval : ℕ → Repository → Option Approval
get_approval k r = lookup k r.approvals

unfoldable pub save_tool_call : ToolCall → Repository → Repository
save_tool_call c r = record r { tool_calls = put c.tool_call_id c r.tool_calls }

unfoldable pub get_tool_call : ℕ → Repository → Option ToolCall
get_tool_call k r = lookup k r.tool_calls

unfoldable pub list_tool_calls_for_step : ℕ → Repository → List ToolCall
list_tool_calls_for_step k r =
    sort (λ a b. leb a.created_at b.created_at) (keep (λ c. c.step_id == k) (values r.tool_calls))

unfoldable pub list_policy_evaluations_for_execution : ℕ → Repository → List PolicyEvaluation
list_policy_evaluations_for_execution k r =
    sort (λ a b. leb a.created_at b.created_at)
      (keep (λ e. e.execution_id == k) (values r.policy_evaluations))

unfoldable pub list_action_proposals_for_execution : ℕ → Repository → List ActionProposal
list_action_proposals_for_execution k r =
    sort (λ a b. leb a.created_at b.created_at)
      (keep (λ p. p.execution_id == k) (values r.action_proposals))

unfoldable pub list_approvals_for_execution : ℕ → Repository → List Approval
list_approvals_for_execution k r =
    sort (λ a b. leb a.decided_at b.decided_at)
      (keep (λ a. a.execution_id == k) (values r.approvals))

-- `(ctx := self._contexts.get(…)) is not None and ctx.tenant_id == tenant_id`
has_tenant : Repository → String → Execution → Bool
has_tenant r tenant e = elim (lookup e.execution_context_id r.contexts) [
  | none ↦ false
  | some c ↦ c.tenant_id == tenant
]

-- One `if … is not None: rows = [e for e in rows if …]`.
filtered : Option String → (String → Execution → Bool) → List Execution → List Execution
filtered none p rows = rows
filtered (some x) p rows = keep (p x) rows

-- `rows[: max(1, min(limit, 500))]`; a limit below zero is written 0 and gives the same slice.
page : ℕ → List Execution → List Execution
page limit rows = take (max 1 (min limit 500)) rows

-- `rows.sort(key=…created_at, reverse=True)` is stable: equal keys keep their order.
newest_first : List Execution → List Execution
newest_first = sort (λ a b. leb b.created_at a.created_at)

-- The status filter is given by its text value.
unfoldable pub list_executions :
    Option String → Option String → Option String → ℕ → Repository → List Execution
unfolding has_tenant filtered page newest_first
list_executions tenant_id workflow_type status limit r =
    let by_tenant = filtered tenant_id (has_tenant r) (values r.executions) in
    let by_type = filtered workflow_type (λ w e. e.workflow_type == w) by_tenant in
    let by_status = filtered status (λ s e. execution_status_value e.status == s) by_type in
    page limit (newest_first by_status)

-- `parent_execution_id == parent`, where `None` is no parent
is_child_of : ℕ → Execution → Bool
is_child_of parent e = elim e.parent_execution_id [ none ↦ false | some p ↦ p == parent ]

unfoldable pub list_executions_by_parent : ℕ → ℕ → Repository → List Execution
unfolding is_child_of page newest_first
list_executions_by_parent parent limit r =
    page limit (newest_first (keep (is_child_of parent) (values r.executions)))
