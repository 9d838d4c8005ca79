-- ===== src/Engine/RunStep.antt =====
-- `_run_step`: one step from pending to succeeded, and the dispatch of its work.
use agentic_ai_platform.Prelude.{
  ℕ, Option, some, String, List, [], ◌∷◌, ◌==◌, string_eq, if◌then◌else◌,
}
use agentic_ai_platform.Value.{Value, str, uuid, Fields, dict, get}
use agentic_ai_platform.Schemas.{Step, StepResult, StepStatus}
use agentic_ai_platform.StateMachine.{validate_step_transition}
use agentic_ai_platform.Repository
use agentic_ai_platform.Exec.{
  Exec, pure, raise, orchestration_error, assertion_error, reads, saves, updates, require, if_some,
  ◌>>=◌, ◌>>◌,
}
use agentic_ai_platform.Env.{Env}
use agentic_ai_platform.StepExecutor.{execute_step}
use agentic_ai_platform.Engine.Ready.{
  is_validation_step, named_step, should_use_tooling_for_step, should_use_model_for_step,
}
use agentic_ai_platform.Engine.Trace.{append_row, output_of}
use agentic_ai_platform.Engine.Services.{
  gather_evidence_via_services, retrieve_cost_evidence_via_services, correlate_usage_via_tools,
}
use agentic_ai_platform.Engine.Models.{
  name_or_null, incident_model_reasoning_step, cost_model_reasoning_step,
}

-- `assert self._… is not None`: the tests before it make it hold.
unfoldable pub capability : {A : Type 0} → Option A → (A → Exec StepResult) → Exec StepResult
capability o use_it = if_some o (raise assertion_error) use_it

-- The `if`/`elif`/`else` of `_run_step` that produces the result.
unfoldable pub step_work : Env → Step → ℕ → Exec StepResult
unfolding capability
step_work env step now =
    if should_use_tooling_for_step env step
    then (if step.input.workflow_type == "cost_attribution"
        then (if named_step step "retrieve_cost_evidence"
            then (capability env.knowledge
                λ knowledge. retrieve_cost_evidence_via_services env knowledge step now)
            else (capability env.tool_runtime λ rt. correlate_usage_via_tools env rt step now))
        else (capability env.tool_runtime λ rt.
            capability env.knowledge
              λ knowledge. gather_evidence_via_services env rt knowledge step now))
    else if should_use_model_for_step env step
    then (capability env.model_runtime λ rt.
        if step.input.workflow_type == "cost_attribution"
        then cost_model_reasoning_step env rt step now
        else incident_model_reasoning_step env rt step now)
    else execute_step env step

abbrev step_row : Step → List (String × Value) → Fields
step_row step more =
    dict (("step_id", uuid step.step_id) ∷ ("planner_step_name", name_or_null step) ∷ more)

abbrev workflow_entry : Step → List (String × Value)
workflow_entry step = ("workflow_type", str step.input.workflow_type) ∷ []

-- The step as `_run_step` stores it.
abbrev pub with_status : Step → StepStatus → ℕ → Step
with_status step s now = record step { status = s; updated_at = now }

-- Up to the work: the fresh row must be pending, and is stored as running.
unfoldable pub start_step : ℕ → ℕ → Exec Step
start_step step_id now = do
  found ← reads (λ w. Repository.get_step step_id w.repo)
  if_some found (raise (orchestration_error "missing step")) λ step. do
    require (validate_step_transition step.status StepStatus.running)
    updates (Repository.update_step (with_status step StepStatus.running now))
    append_row step.execution_id "step_started" (step_row step (workflow_entry step)) now
    pure (with_status step StepStatus.running now)

-- `if _is_validation_step(step)`: the row that says what was validated.
unfoldable pub validation_row : Step → StepResult → ℕ → Exec Unit
unfolding output_of
validation_row step result now =
    if is_validation_step step
    then append_row step.execution_id "validation_performed"
        (step_row step
          (("validation_status", get "validation_status" (output_of (some result))) ∷ []))
        now
    else pure tt

-- After the work: the result is saved and the step is stored as succeeded.
unfoldable pub finish_step : Step → StepResult → ℕ → Exec Unit
finish_step running result now = do
  saves (Repository.save_step_result result)
  require (validate_step_transition StepStatus.running StepStatus.succeeded)
  updates (Repository.update_step (with_status running StepStatus.succeeded now))
  append_row running.execution_id "step_completed" (step_row running (workflow_entry running)) now
  validation_row running result now

unfoldable pub run_step : Env → ℕ → ℕ → Exec Unit
run_step env step_id now = do
  running ← start_step step_id now
  result ← step_work env running now
  finish_step running result now
