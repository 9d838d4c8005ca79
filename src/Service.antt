-- ===== src/Service.antt =====
-- services/orchestrator/app/services/execution_service.py: `ExecutionService`, which creates, queues,
-- starts, cancels and approves executions. Metrics and events are left out.
pub mod Safety
pub mod Guarantees
pub mod Creating
use agentic_ai_platform.Prelude.{
  ℕ, Bool, true, false, Option, none, some, String, List, [], if◌then◌else◌,
}
use agentic_ai_platform.Value.{Fields}
use agentic_ai_platform.Schemas.{
  Execution, ExecutionContext, ExecutionMode, ExecutionStatus, ApprovalDecision,
}
use agentic_ai_platform.RuntimeMeta.{mark_queued, mark_worker_started, request_cancellation_meta}
use agentic_ai_platform.Repository
use agentic_ai_platform.Queue.{Queue, enqueue}
use agentic_ai_platform.Exec.{
  Exec, World, Result, ok, err, pure, raise, key_error, orchestration_error, saves, uuid4, now_utc,
  if_some, ◌>>=◌, ◌>>◌,
}
use agentic_ai_platform.Env.{Env}
use agentic_ai_platform.Engine.Trace.{get_execution, update_execution}
use agentic_ai_platform.Engine.Cancel.{store, cancel_execution, fail_execution}
use agentic_ai_platform.Engine.Run.{Outcome, run_execution}
use agentic_ai_platform.Engine.Approval

-- The arguments of `create_execution`.
pub record Creation : Type 0 where
  pub workflow_type : String
  pub input_payload : Fields
  pub tenant_id : String
  pub request_id : String
  pub environment : String
  pub policy_scope : String
  pub principal_id : Option String
  pub execution_mode : ExecutionMode
  pub permissions_scope : Fields
  pub parent_execution_id : Option ℕ
  pub feature_flags : Option Fields

-- The row of a new execution.
unfoldable pub new_execution : Creation → (context_id execution_id ts : ℕ) → Execution
new_execution c context_id execution_id ts = record {
  execution_id = execution_id;
  workflow_type = c.workflow_type;
  status = ExecutionStatus.created;
  execution_mode = c.execution_mode;
  execution_context_id = context_id;
  parent_execution_id = c.parent_execution_id;
  current_plan_id = none;
  input = c.input_payload;
  result = none;
  trace_timeline = [];
  validation_summary = none;
  created_at = ts;
  updated_at = ts;
  completed_at = none;
  cancelled_at = none;
}

unfoldable pub new_context : Creation → (context_id ts : ℕ) → ExecutionContext
new_context c context_id ts = record {
  context_id = context_id;
  tenant_id = c.tenant_id;
  principal_id = c.principal_id;
  actor = none;
  request_id = c.request_id;
  environment = c.environment;
  permissions_scope = c.permissions_scope;
  policy_scope = c.policy_scope;
  feature_flags = c.feature_flags;
  created_at = ts;
  updated_at = ts;
}

unfoldable pub create_execution : Creation → ℕ → Exec Execution
create_execution c ts = do
  context_id ← uuid4
  execution_id ← uuid4
  saves (Repository.save_context (new_context c context_id ts))
  let e = new_execution c context_id execution_id ts
  saves (Repository.save_execution e)
  pure e

-- `get_execution`, the `KeyError` of a missing row, and one update of the row.
unfoldable pub change : ℕ → (Execution → Execution) → Exec Execution
change id f = do found ← get_execution id; if_some found (raise key_error) λ e. store (f e)

unfoldable pub queue_after : Result Execution → ℕ → ℕ → Queue → Queue
queue_after (ok e) id ts q = (enqueue id ts q).1
queue_after (err why) id ts q = q

-- `enqueue_execution`
unfoldable pub enqueue_execution : ℕ → ℕ → Queue → World → Result Execution × World × Queue
enqueue_execution id ts q w =
    let (r, w') = change id (λ e. mark_queued e ts) w in (r, w', queue_after r id ts q)

unfoldable pub record_worker_started : ℕ → String → ℕ → Exec Execution
record_worker_started id worker_id ts = change id (λ e. mark_worker_started e worker_id ts)

-- The set of statuses in `request_cancellation`.
unfoldable pub can_cancel : ExecutionStatus → Bool
can_cancel ExecutionStatus.created = true
can_cancel ExecutionStatus.planning = true
can_cancel ExecutionStatus.executing = true
can_cancel ExecutionStatus.validating = true
can_cancel ExecutionStatus.awaiting_approval = true
can_cancel _ = false

unfoldable pub request_cancellation : ℕ → String → ℕ → Exec Execution
request_cancellation id reason ts = do
  e ← change id (λ e. request_cancellation_meta e ts reason)
  if can_cancel e.status then cancel_execution id reason ts else pure e

module _ (env : Env) where
  -- The `try` of `start_execution`: only `OrchestrationError` is caught.
  unfoldable pub recover : ℕ → Outcome → Outcome
  recover id none = none
  recover id (some (err (orchestration_error reason), w)) =
      some ((now_utc env.readings >>= fail_execution id reason) w)
  recover id (some (r, w)) = some (r, w)

  unfoldable pub start_execution : ℕ → World → Outcome
  start_execution id w = recover id (run_execution env id w)

  unfoldable pub submit_approval : ℕ → String → ApprovalDecision → Option String → Exec Execution
  submit_approval id approver decision notes = do
    ts ← now_utc env.readings
    Approval.submit_approval env id approver decision notes ts
