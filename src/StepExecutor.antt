-- ===== src/StepExecutor.antt =====
-- services/orchestrator/app/runtime/step_executor.py: simulated, deterministic work on a step.
pub mod Digest
pub mod Incident
pub mod Cost
use agentic_ai_platform.Prelude.{
  ℕ, ◌<>◌, true, Bool, not, Option, none, some, String, [], ◌∷◌, ◌==◌, string_eq, if◌then◌else◌,
}
use agentic_ai_platform.Value.{bool, str, uuid, Fields, dict}
use agentic_ai_platform.Schemas.{
  Step, StepResult, StepKind, member, named, StepStatus, StepCompleteness, step_type_value,
  step_status_eq,
}
use agentic_ai_platform.Exec.{Exec, pure, raise, value_error, uuid4, now_utc, if_some, ◌>>=◌}
use agentic_ai_platform.Env.{Env}
use agentic_ai_platform.StepExecutor.Digest.{Simulated, outcome, digest_of}
use agentic_ai_platform.StepExecutor.Incident.{execute_incident_triage_step}
use agentic_ai_platform.StepExecutor.Cost.{execute_cost_attribution_step}

-- `step.step_type if isinstance(step.step_type, str) else step.step_type.value`
abbrev pub kind_text : StepKind → String
kind_text (member t) = step_type_value t
kind_text (named s) = s

-- `_execute_generic_step`, up to the record that it fills
execute_generic_step : Env → Step → Simulated
unfolding digest_of outcome
execute_generic_step env step =
    let kind = kind_text step.step_type in
    let digest = digest_of env (
      dict (("step_id", uuid step.step_id) ∷ ("kind", str kind) ∷ ("simulated", bool true) ∷ [])) in
    let simulated = λ (output : Fields) (confidence : ℕ) (passed : Bool).
      let s : Simulated = record {
        output = output;
        confidence = confidence;
        validation_outcome =
            if passed
            then outcome "passed" (dict (("simulated", bool true) ∷ ("digest", str digest) ∷ []))
            else none;
        evidence = dict (("type", str "simulated") ∷ ("ref", str ("sim:" <> digest)) ∷ []);
        confidence_detail =
            dict (("source", str "step_executor_simulator") ∷ ("kind", str kind) ∷ []);
      } in
      s in
    if kind == "validation"
    then
        -- 0.95
        simulated
        (dict (
          ("validated", bool true)
          ∷ ("digest", str digest)
          ∷ ("summary", str "validation passed (simulated)")
          ∷ []))
        4606732058837280358 true
    else
        -- 0.82
        simulated
        (dict (
          ("reasoning_digest", str digest)
          ∷ ("summary", str "reasoning completed (simulated)")
          ∷ []))
        4605561122934164029 (not true)

-- The dispatch of `execute_step` on the workflow and the step's name.
unfoldable pub simulate : Env → Step → Simulated
unfolding execute_incident_triage_step execute_cost_attribution_step execute_generic_step if_some
simulate env step =
    if_some step.input.planner_step_name (execute_generic_step env step) λ step_name.
      if step.input.workflow_type == "incident_triage"
      then execute_incident_triage_step env step_name step.input.execution_input
      else if step.input.workflow_type == "cost_attribution"
      then execute_cost_attribution_step env step_name step.input.execution_input
      else execute_generic_step env step

-- The `StepResult(…)` that the three kinds of step share.
unfoldable pub result_of : Step → ℕ → ℕ → Simulated → StepResult
result_of step rid ts s = record {
  step_result_id = rid;
  step_id = step.step_id;
  output = some s.output;
  evidence = s.evidence ∷ [];
  errors = [];
  latency_ms = some 1;
  latency_started_at = some ts;
  latency_ended_at = some ts;
  confidence_score = some s.confidence;
  confidence_detail = some s.confidence_detail;
  completeness = some StepCompleteness.full;
  validation_outcome = s.validation_outcome;
  created_at = ts;
  updated_at = ts;
}

-- `execute_step`, which the engine calls with no time.
unfoldable pub execute_step : Env → Step → Exec StepResult
unfolding simulate result_of raise now_utc uuid4 pure ◌>>=◌
execute_step env step =
    if not (step.status == StepStatus.running)
    then raise (value_error "step must be RUNNING before execute_step()")
    else do ts ← now_utc env.readings; rid ← uuid4; pure (result_of step rid ts (simulate env step))
