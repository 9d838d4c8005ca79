-- ===== src/Replay/Diff/Records.antt =====
-- The comparisons of tool calls, of policy evaluations and of approvals are exact.
use agentic_ai_platform.Prelude.{
  ◌≡◌, refl, Bool, true, false, ◌&&◌, List, [], ◌∷◌, ◌++◌, ◌==◌, nat_eq, string_eq, is_empty,
}
use agentic_ai_platform.Schemas.{
  Execution, ToolCall, PolicyEvaluation, Approval, ActionProposal, policy_decision_value,
  approval_decision_value, tool_call_status_value, tool_side_effect_class_value,
  tool_idempotency_value,
}
use agentic_ai_platform.Repository.{Repository}
use agentic_ai_platform.Repository
use agentic_ai_platform.Env.{Env}
use agentic_ai_platform.Replay.Diff.Items.{ReplayDiffItem, unless}
use agentic_ai_platform.Replay.Diff.Calls.{all_tool_calls}

-- The rows of an execution that are compared.
abbrev pub calls_of : Repository → Execution → List ToolCall
calls_of r e = all_tool_calls r e.execution_id

abbrev pub evaluations_of : Repository → Execution → List PolicyEvaluation
evaluations_of r e = Repository.list_policy_evaluations_for_execution e.execution_id r

abbrev pub proposals_of : Repository → Execution → List ActionProposal
proposals_of r e = Repository.list_action_proposals_for_execution e.execution_id r

abbrev pub approvals_of : Repository → Execution → List Approval
approvals_of r e = Repository.list_approvals_for_execution e.execution_id r

-- Two lists of one length whose elements are alike in pairs.
abbrev pub alike : {A : Type 0} → (A → A → Bool) → List A → List A → Bool
alike same [] [] = true
alike same (x ∷ xs) (y ∷ ys) = same x y && alike same xs ys
alike same _ _ = false

abbrev pub alike_calls : ToolCall → ToolCall → Bool
alike_calls a b =
    a.tool_name == b.tool_name
    && (tool_call_status_value a.status == tool_call_status_value b.status
        && (tool_side_effect_class_value a.side_effect_class
              == tool_side_effect_class_value b.side_effect_class
            && tool_idempotency_value a.idempotency == tool_idempotency_value b.idempotency))

abbrev pub alike_evaluations : PolicyEvaluation → PolicyEvaluation → Bool
alike_evaluations a b =
    policy_decision_value a.decision == policy_decision_value b.decision && a.reason == b.reason

abbrev pub alike_approvals : Approval → Approval → Bool
alike_approvals a b = approval_decision_value a.decision == approval_decision_value b.decision

pub is_empty-append :
    {A : Type 0} (xs ys : List A) → is_empty (xs ++ ys) ≡ (is_empty xs && is_empty ys)
is_empty-append [] ys = refl
is_empty-append (x ∷ xs) ys = refl

pub is_empty-unless : (b : Bool) (i : ReplayDiffItem) → is_empty (unless b i) ≡ b
is_empty-unless true i = refl
is_empty-unless false i = refl
