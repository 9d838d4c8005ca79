-- ===== src/Engine/Approval.antt =====
-- `submit_approval`: a person's decision on an execution that waits for it.
use agentic_ai_platform.Prelude.{ℕ, Option, some, String, [], ◌∷◌, ◌==◌, not, if◌then◌else◌}
use agentic_ai_platform.Value.{Value, str, uuid, object, Fields, end, dict, get, merge}
use agentic_ai_platform.Schemas.{
  Execution, ExecutionStatus, execution_status_eq, ApprovalDecision, approval_decision_value,
  ActionProposal, ActionProposalStatus, PolicyDecision, policy_decision_value,
}
use agentic_ai_platform.StateMachine.{validate_execution_transition}
use agentic_ai_platform.Repository
use agentic_ai_platform.Exec.{
  Exec, pure, raise, key_error, orchestration_error, value_error, reads, saves, uuid4, require,
  if_some, ◌>>=◌, ◌>>◌,
}
use agentic_ai_platform.Env.{Env}
use agentic_ai_platform.Engine.Ready.{append_timeline}
use agentic_ai_platform.Engine.Trace.{get_execution}
use agentic_ai_platform.Engine.Governance.{
  build_completion_result, validation_summary_from_steps, conclude, outcome_row, proposed_action,
}
use agentic_ai_platform.Engine.Cancel.{store}

-- `isinstance(raw, str)`: a UUID is stored as its text.
unfoldable pub is_text : Value → Exec Value
is_text (uuid n) = pure (uuid n)
is_text (str s) = pure (str s)
is_text _ = raise (orchestration_error "governance missing proposal_id or evaluation_id")

-- `UUID(raw)`: a text that is no UUID is `ValueError`.
unfoldable pub as_uuid : Env → Value → Exec ℕ
as_uuid env (uuid n) = pure n
as_uuid env (str s) =
    if_some (env.uuid_of s) (raise (value_error "badly formed hexadecimal UUID string")) pure
as_uuid env _ = raise (value_error "badly formed hexadecimal UUID string")

unfoldable pub as_object : Value → Exec Fields
as_object (object d) = pure d
as_object _ = raise (orchestration_error "missing governance block on execution result")

-- The two identifiers of the governance block of a result.
unfoldable pub governance_ids : Env → Execution → Exec (ℕ × ℕ)
governance_ids env e = do
  gov ← as_object (get "governance" (if_some e.result end (λ r. r)))
  pid_raw ← is_text (get "proposal_id" gov)
  eid_raw ← is_text (get "evaluation_id" gov)
  proposal_id ← as_uuid env pid_raw
  evaluation_id ← as_uuid env eid_raw
  pure (proposal_id, evaluation_id)

-- The two outcomes. `defer` is refused before.
unfoldable pub decide :
    ApprovalDecision
    → Execution
    → ActionProposal
    → (summary base_result : Fields) → ℕ
    → Exec Execution
decide ApprovalDecision.reject e p summary base_result ts = do
  saves (
      Repository.save_action_proposal
        (record p { status = ActionProposalStatus.rejected; updated_at = ts }))
  require (validate_execution_transition ExecutionStatus.awaiting_approval ExecutionStatus.failed)
  store (
      conclude e ExecutionStatus.failed summary
        (merge base_result (
          dict (
            ("outcome", str "failed")
            ∷ ("workflow_type", str "incident_triage")
            ∷ ("proposed_action", proposed_action p)
            ∷ ("policy_decision", str (policy_decision_value PolicyDecision.conditional))
            ∷ ("approval_status", str "rejected")
            ∷ [])))
        e.completed_at "governed_outcome" (outcome_row "approval_rejected" p) ts)
decide ApprovalDecision.approve e p summary base_result ts = do
  saves (
      Repository.save_action_proposal
        (record p { status = ActionProposalStatus.approved; updated_at = ts }))
  require
      (validate_execution_transition ExecutionStatus.awaiting_approval ExecutionStatus.completed)
  store (
      conclude e ExecutionStatus.completed summary
        (merge base_result (
          dict (
            ("proposed_action", proposed_action p)
            ∷ ("policy_decision", str (policy_decision_value PolicyDecision.conditional))
            ∷ ("approval_status", str "approved")
            ∷ [])))
        (some ts) "governed_outcome" (outcome_row "approval_granted" p) ts)
decide ApprovalDecision.defer e p summary base_result ts =
    raise (orchestration_error "approval defer is not supported in Phase 3")

-- `if decision == ApprovalDecision.DEFER: raise`
unfoldable pub not_deferred : ApprovalDecision → Exec Unit
not_deferred ApprovalDecision.defer =
    raise (orchestration_error "approval defer is not supported in Phase 3")
not_deferred _ = pure tt

module _ (env : Env) where
  -- The recording of the approval, and what it leads to.
  unfoldable pub record_approval :
      ℕ → Execution → ℕ → ℕ → String → ApprovalDecision → Option String → ℕ → Exec Execution
  record_approval id e proposal_id evaluation_id approver decision notes ts = do
    approval_id ← uuid4
    saves (
        Repository.save_approval (record {
          approval_id = approval_id;
          execution_id = e.execution_id;
          policy_evaluation_id = some evaluation_id;
          action_proposal_id = some proposal_id;
          approver = approver;
          decision = decision;
          notes = notes;
          decided_at = ts;
          created_at = ts;
          updated_at = ts;
        }))
    let e1 =
        append_timeline e "approval_received"
          (dict (
            ("approval_id", uuid approval_id)
            ∷ ("decision", str (approval_decision_value decision))
            ∷ ("approver", str approver)
            ∷ []))
          ts
    found ← reads (λ w. Repository.get_action_proposal proposal_id w.repo)
    if_some found (raise (orchestration_error "action proposal not found")) λ p. do
      steps ← reads (λ w. Repository.list_steps_for_execution id w.repo)
      summary ← reads (λ w. validation_summary_from_steps steps w.repo)
      base_result ← reads (λ w. build_completion_result env e1 steps w.repo)
      decide decision e1 p summary base_result ts

  unfoldable pub submit_approval :
      ℕ → String → ApprovalDecision → Option String → ℕ → Exec Execution
  submit_approval id approver decision notes ts = do
    found ← get_execution id
    if_some found (raise key_error) λ e.
        if not (e.status == ExecutionStatus.awaiting_approval)
        then raise (orchestration_error "not awaiting approval")
        else do
          (proposal_id, evaluation_id) ← governance_ids env e
          not_deferred decision
          record_approval id e proposal_id evaluation_id approver decision notes ts
