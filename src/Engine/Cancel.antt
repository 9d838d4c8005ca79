-- ===== src/Engine/Cancel.antt =====
-- `cancel_execution` and `fail_execution`: the two operations that end an execution from outside
-- the loop. Both leave a terminal execution's status alone.
use agentic_ai_platform.Prelude.{ℕ, some, String, [], ◌∷◌, if◌then◌else◌}
use agentic_ai_platform.Value.{str, dict}
use agentic_ai_platform.Schemas.{Execution, ExecutionStatus}
use agentic_ai_platform.StateMachine.{
  Verdict, permitted, refused, is_execution_terminal, validate_execution_transition,
}
use agentic_ai_platform.RuntimeMeta.{request_cancellation_meta}
use agentic_ai_platform.Exec.{Exec, pure, raise, key_error, if_some, ◌>>=◌, ◌>>◌}
use agentic_ai_platform.Engine.Ready.{append_timeline, status_row}
use agentic_ai_platform.Engine.Trace.{get_execution, update_execution}

-- `repo.update_execution(ex)` and `return ex`
unfoldable pub store : Execution → Exec Execution
store e = do update_execution e; pure e

-- The execution as it is stored when it is cancelled.
unfoldable pub as_cancelled : Execution → String → ℕ → Execution
unfolding append_timeline status_row
as_cancelled e reason ts =
    append_timeline
      (record e {
        status = ExecutionStatus.cancelled;
        updated_at = ts;
        cancelled_at = some ts;
        result = some (dict (("outcome", str "cancelled") ∷ ("reason", str reason) ∷ []));
      })
      "execution_status" (status_row ExecutionStatus.cancelled (("reason", str reason) ∷ [])) ts

-- The `try` and its `except InvalidStatusTransitionError`.
unfoldable pub cancel_by : Verdict → Execution → String → ℕ → Exec Execution
cancel_by permitted e reason ts = store (as_cancelled e reason ts)
cancel_by (refused why) e reason ts = store e

unfoldable pub cancel_execution : ℕ → String → ℕ → Exec Execution
cancel_execution id reason ts = do
  found ← get_execution id
  if_some found (raise key_error) λ old.
      let e = request_cancellation_meta old ts reason in
      if is_execution_terminal e.status
      then store e
      else cancel_by (validate_execution_transition e.status ExecutionStatus.cancelled) e reason ts

-- The execution as it is stored when it fails.
unfoldable pub as_failed : Execution → String → ℕ → Execution
unfolding append_timeline status_row
as_failed e reason ts =
    append_timeline
      (record e {
        status = ExecutionStatus.failed;
        updated_at = ts;
        result = some (dict (("outcome", str "failed") ∷ ("reason", str reason) ∷ []));
      })
      "execution_status" (status_row ExecutionStatus.failed (("reason", str reason) ∷ [])) ts

unfoldable pub fail_by : Verdict → Execution → String → ℕ → Exec Execution
fail_by permitted e reason ts = store (as_failed e reason ts)
fail_by (refused why) e reason ts = pure e

unfoldable pub fail_execution : ℕ → String → ℕ → Exec Execution
fail_execution id reason ts = do
  found ← get_execution id
  if_some found (raise key_error) λ e.
      if is_execution_terminal e.status
      then pure e
      else fail_by (validate_execution_transition e.status ExecutionStatus.failed) e reason ts
