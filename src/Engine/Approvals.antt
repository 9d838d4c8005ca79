-- ===== src/Engine/Approvals.antt =====
-- What `submit_approval` does to the executions, and what it refuses.
use agentic_ai_platform.Prelude.{ℕ, ◌≡◌, refl, Option, String, ◌==◌, inl, inr, Bool-cases}
use agentic_ai_platform.Value.{Value, uuid, str, object, Fields}
use agentic_ai_platform.Schemas.{
  Execution, ExecutionStatus, execution_status_eq, ActionProposal, ApprovalDecision,
}
use agentic_ai_platform.StateMachine.{is_execution_terminal}
use agentic_ai_platform.StateMachine.Lifecycle.{here, next, grant, fail}
use agentic_ai_platform.Exec.Keeps.{Keeps, Keeps-raise}
use agentic_ai_platform.Env.{Env}
use agentic_ai_platform.Engine.Ready.{append_timeline}
use agentic_ai_platform.Engine.Still.{Still}
use agentic_ai_platform.Engine.Steers.{
  Advances, Advances-IsPreorder, Steers, Steers-keeps, Steers-after_still, Steers-if_some,
  Keeps-get_execution,
}
use agentic_ai_platform.Engine.Motion.{still_rules, is_status, Steers-store, Steers-same}
use agentic_ai_platform.Engine.Outcomes.{Continues-conclude}
use agentic_ai_platform.Engine.Approval.{
  is_text, as_uuid, as_object, governance_ids, not_deferred, decide, record_approval,
  submit_approval,
}

Still-is_text : (v : Value) → Keeps Still (is_text v)
unfolding is_text
Still-is_text (uuid n) = search (still_rules)
Still-is_text (str x) = search (still_rules)
Still-is_text _ = search (still_rules)

Still-as_uuid : (env : Env) (v : Value) → Keeps Still (as_uuid env v)
unfolding as_uuid
Still-as_uuid env (uuid n) = search (still_rules)
Still-as_uuid env (str s) = search (still_rules) depth 12
Still-as_uuid env _ = search (still_rules)

Still-as_object : (v : Value) → Keeps Still (as_object v)
unfolding as_object
Still-as_object (object d) = search (still_rules)
Still-as_object _ = search (still_rules)

Still-governance_ids : (env : Env) (e : Execution) → Keeps Still (governance_ids env e)
unfolding governance_ids
Still-governance_ids env e =
    search (still_rules, Still-is_text, Still-as_uuid, Still-as_object) depth 24

Still-not_deferred : (d : ApprovalDecision) → Keeps Still (not_deferred d)
unfolding not_deferred
Still-not_deferred ApprovalDecision.defer = search (still_rules)
Still-not_deferred ApprovalDecision.approve = search (still_rules)
Still-not_deferred ApprovalDecision.reject = search (still_rules)

module _ (e : Execution) (waiting : e.status ≡ ExecutionStatus.awaiting_approval) where
  Steers-decide :
      (d : ApprovalDecision) (p : ActionProposal) (summary base : Fields) (ts : ℕ)
      → Steers e (decide d e p summary base ts)
  unfolding decide is_execution_terminal
  Steers-decide ApprovalDecision.reject p summary base ts =
      Steers-after_still e _ _ (search (still_rules)) λ _.
        Steers-after_still e _ _ (search (still_rules)) λ _.
          Steers-store e _ (Continues-conclude e _ _ _ _ _ _ _ (rw waiting (next here (fail refl))))
  Steers-decide ApprovalDecision.approve p summary base ts =
      Steers-after_still e _ _ (search (still_rules)) λ _.
        Steers-after_still e _ _ (search (still_rules))
          λ _. Steers-store e _ (Continues-conclude e _ _ _ _ _ _ _ (rw waiting (next here grant)))
  Steers-decide ApprovalDecision.defer p summary base ts =
      Steers-keeps e _ (Keeps-raise Advances-IsPreorder _ _)

module _ (env : Env) where
  Steers-record_approval :
      (id : ℕ) (e : Execution) (proposal_id evaluation_id : ℕ) (approver : String)
      (d : ApprovalDecision) (notes : Option String) (ts : ℕ)
      → e.status ≡ ExecutionStatus.awaiting_approval
      → Steers e (record_approval env id e proposal_id evaluation_id approver d notes ts)
  unfolding record_approval append_timeline
  Steers-record_approval id e proposal_id evaluation_id approver d notes ts h =
      Steers-after_still e _ _ (search (still_rules)) λ approval_id.
        Steers-after_still e _ _ (search (still_rules)) λ _.
          Steers-after_still e _ _ (search (still_rules)) λ found.
            Steers-if_some e found _ _ (Steers-keeps e _ (Keeps-raise Advances-IsPreorder _ _)) λ p.
              Steers-after_still e _ _ (search (still_rules)) λ steps.
                Steers-after_still e _ _ (search (still_rules)) λ summary.
                  Steers-after_still e _ _ (search (still_rules))
                    λ base. Steers-same e _ refl refl (Steers-decide _ h d p summary base ts)

  -- Whatever `submit_approval` is given, and whether it returns or raises, executions move only
  -- along the lifecycle.
  pub submit_approval-Advances :
      (id : ℕ) (approver : String) (d : ApprovalDecision) (notes : Option String) (ts : ℕ)
      → Keeps Advances (submit_approval env id approver d notes ts)
  unfolding submit_approval
  submit_approval-Advances id approver d notes ts =
      Keeps-get_execution id _ _ (Keeps-raise Advances-IsPreorder _ _) λ e.
        elim (Bool-cases (e.status == ExecutionStatus.awaiting_approval)) [
          | inl y ↦ rw y (
              Steers-after_still e _ _ (Still-governance_ids env e) λ ids.
                Steers-after_still e _ _ (Still-not_deferred d) λ _.
                  Steers-record_approval id e ids.0 ids.1 approver d notes ts
                    (is_status e.status ExecutionStatus.awaiting_approval y))
          | inr n ↦ rw n (Steers-keeps e _ (Keeps-raise Advances-IsPreorder _ _))
        ]
