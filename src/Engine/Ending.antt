-- ===== src/Engine/Ending.antt =====
-- Cancelling and failing an execution moves it along the lifecycle.
use agentic_ai_platform.Prelude.{ℕ, ◌≡◌, refl, String}
use agentic_ai_platform.Schemas.{Execution, ExecutionStatus, execution_status_eq}
use agentic_ai_platform.StateMachine.{
  permitted, refused, Verdict, is_execution_terminal, validate_execution_transition,
}
use agentic_ai_platform.RuntimeMeta.{request_cancellation_meta, apply_runtime_meta}
use agentic_ai_platform.Exec.Keeps.{Keeps, Keeps-pure, Keeps-raise}
use agentic_ai_platform.Engine.Ready.{append_timeline}
use agentic_ai_platform.Engine.Cancel.{
  cancel_by, cancel_execution, as_cancelled, fail_by, fail_execution, as_failed,
}
use agentic_ai_platform.Engine.Steers.{
  Advances, Advances-IsPreorder, Steers, Steers-keeps, Steers-if, Keeps-get_execution,
}
use agentic_ai_platform.Engine.Motion.{Steers-store, continue_to, same_status, Steers-same}

-- `cancel_execution` and `fail_execution`
module _ (reason : String) (ts : ℕ) where
  pub Steers-cancel_by :
      (e : Execution) (v : Verdict)
      → validate_execution_transition e.status ExecutionStatus.cancelled ≡ v
      → Steers e (cancel_by v e reason ts)
  unfolding cancel_by as_cancelled append_timeline
  Steers-cancel_by e permitted h =
      Steers-store e (as_cancelled e reason ts) (continue_to e (as_cancelled e reason ts) refl h)
  Steers-cancel_by e (refused why) h = Steers-store e e (same_status e e refl refl)

  pub Steers-fail_by :
      (e : Execution) (v : Verdict)
      → validate_execution_transition e.status ExecutionStatus.failed ≡ v
      → Steers e (fail_by v e reason ts)
  unfolding fail_by as_failed append_timeline
  Steers-fail_by e permitted h =
      Steers-store e (as_failed e reason ts) (continue_to e (as_failed e reason ts) refl h)
  Steers-fail_by e (refused why) h = Steers-keeps e _ (Keeps-pure Advances-IsPreorder e)

  pub cancel_execution-Advances : (id : ℕ) → Keeps Advances (cancel_execution id reason ts)
  unfolding cancel_execution request_cancellation_meta apply_runtime_meta
  cancel_execution-Advances id =
      Keeps-get_execution id _ _ (Keeps-raise Advances-IsPreorder _ _) λ old.
        Steers-if old (is_execution_terminal old.status) _ _
          (λ _. Steers-store old _ (same_status old _ refl refl))
          (λ _.
            Steers-same old _ refl refl
              (Steers-cancel_by (request_cancellation_meta old ts reason) _ refl))

  pub fail_execution-Advances : (id : ℕ) → Keeps Advances (fail_execution id reason ts)
  unfolding fail_execution
  fail_execution-Advances id = Keeps-get_execution id _ _ (Keeps-raise Advances-IsPreorder _ _) λ e.
      Steers-if e (is_execution_terminal e.status) _ _
        (λ _. Steers-keeps e _ (Keeps-pure Advances-IsPreorder e)) (λ _. Steers-fail_by e _ refl)
