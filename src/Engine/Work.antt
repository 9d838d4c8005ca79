-- ===== src/Engine/Work.antt =====
-- The work of a step, whichever capability does it, leaves the steps and every status alone.
use agentic_ai_platform.Prelude.{ℕ, Option, String, List}
use agentic_ai_platform.Value.{Value, Fields}
use agentic_ai_platform.Schemas.{Step, StepResult, ExecutionContext, ToolInvokeRequest}
use agentic_ai_platform.Exec.Keeps.{Keeps, IsPreorder, keeps_rules}
use agentic_ai_platform.Env.{
  Env, ToolRuntime, ModelRuntime, ModelOutcome, answered, threw, RetrievalRequest,
  RetrievalResponse,
}
use agentic_ai_platform.StepExecutor.{execute_step}
use agentic_ai_platform.Engine.Trace.{context_of, cancellation_check, get_execution}
use agentic_ai_platform.Engine.Services
use agentic_ai_platform.Engine.Models
use agentic_ai_platform.Engine.RunStep.{step_work, capability}
use agentic_ai_platform.Engine.Quiet.{Quiet, Quiet-IsPreorder, quiet_rules}

abbrev order : IsPreorder Quiet
order = Quiet-IsPreorder

Quiet-execute_step : (env : Env) (step : Step) → Keeps Quiet (execute_step env step)
unfolding execute_step
Quiet-execute_step env step = search (keeps_rules, quiet_rules, order) depth 12

Quiet-context_of : (id : ℕ) → Keeps Quiet (context_of id)
unfolding context_of get_execution
Quiet-context_of id = search (keeps_rules, quiet_rules, order) depth 12

Quiet-invoke_tool :
    (rt : ToolRuntime) (request : ToolInvokeRequest) (now : ℕ)
    → Keeps Quiet (Services.invoke_tool rt request now)
unfolding Services.invoke_tool cancellation_check
Quiet-invoke_tool rt request now = search (keeps_rules, quiet_rules, order) depth 12

Quiet-run_tool_for :
    (rt : ToolRuntime) (step : Step) (ctx : ExecutionContext) (input : Fields)
    (more : List (String × Value)) (now : ℕ) (tool_name : String)
    → Keeps Quiet (Services.run_tool_for rt step ctx input more now tool_name)
unfolding Services.run_tool_for
Quiet-run_tool_for rt step ctx input more now tool_name =
    search (keeps_rules, quiet_rules, order, Quiet-invoke_tool) depth 12

Quiet-or_raise : {A : Type 0} (o : ModelOutcome A) → Keeps Quiet (Services.or_raise o)
unfolding Services.or_raise
Quiet-or_raise (answered a) = search (keeps_rules, quiet_rules, order)
Quiet-or_raise (threw class text) = search (keeps_rules, quiet_rules, order)

Quiet-retrieve :
    (knowledge : ℕ → RetrievalRequest → ModelOutcome RetrievalResponse) (request : RetrievalRequest)
    (step : Step) (more : List (String × Value)) (now : ℕ)
    → Keeps Quiet (Services.retrieve knowledge request step more now)
unfolding Services.retrieve
Quiet-retrieve knowledge request step more now =
    search (keeps_rules, quiet_rules, order, Quiet-or_raise) depth 12

ruleset service_rules = (Quiet-execute_step, Quiet-context_of, Quiet-run_tool_for, Quiet-retrieve)

module _ (env : Env) where
  Quiet-gather :
      (rt : ToolRuntime) (knowledge : ℕ → RetrievalRequest → ModelOutcome RetrievalResponse)
      (step : Step) (now : ℕ)
      → Keeps Quiet (Services.gather_evidence_via_services env rt knowledge step now)
  unfolding Services.gather_evidence_via_services
  Quiet-gather rt knowledge step now =
      search (keeps_rules, quiet_rules, order, service_rules) depth 24

  Quiet-retrieve_cost :
      (knowledge : ℕ → RetrievalRequest → ModelOutcome RetrievalResponse) (step : Step) (now : ℕ)
      → Keeps Quiet (Services.retrieve_cost_evidence_via_services env knowledge step now)
  unfolding Services.retrieve_cost_evidence_via_services
  Quiet-retrieve_cost knowledge step now =
      search (keeps_rules, quiet_rules, order, service_rules) depth 24

  Quiet-correlate :
      (rt : ToolRuntime) (step : Step) (now : ℕ)
      → Keeps Quiet (Services.correlate_usage_via_tools env rt step now)
  unfolding Services.correlate_usage_via_tools
  Quiet-correlate rt step now = search (keeps_rules, quiet_rules, order, service_rules) depth 24

  Quiet-settle :
      {A : Type 0} (step : Step) (task : String) (now : ℕ) (o : ModelOutcome A)
      (labels : A → String × Option Fields) (build : A → ℕ → StepResult)
      → Keeps Quiet (Models.settle env step task now o labels build)
  unfolding Models.settle Models.trace_model_reasoning
  Quiet-settle step task now (answered out) labels build =
      search (keeps_rules, quiet_rules, order, service_rules) depth 24
  Quiet-settle step task now (threw class message) labels build =
      search (keeps_rules, quiet_rules, order, service_rules) depth 24

  Quiet-incident_model :
      (rt : ModelRuntime) (step : Step) (now : ℕ)
      → Keeps Quiet (Models.incident_model_reasoning_step env rt step now)
  unfolding Models.incident_model_reasoning_step Models.prior_output
  Quiet-incident_model rt step now =
      search (keeps_rules, quiet_rules, order, service_rules, Quiet-settle) depth 24

  Quiet-cost_model :
      (rt : ModelRuntime) (step : Step) (now : ℕ)
      → Keeps Quiet (Models.cost_model_reasoning_step env rt step now)
  unfolding Models.cost_model_reasoning_step Models.prior_output
  Quiet-cost_model rt step now =
      search (keeps_rules, quiet_rules, order, service_rules, Quiet-settle) depth 24

  ruleset work_rules = (
    Quiet-gather, Quiet-retrieve_cost, Quiet-correlate, Quiet-incident_model, Quiet-cost_model,
    Quiet-execute_step,
  )

  -- Whatever a step's work is, it moves no execution to another status and touches no step.
  pub step_work-Quiet : (step : Step) (now : ℕ) → Keeps Quiet (step_work env step now)
  unfolding step_work capability
  step_work-Quiet step now = search (keeps_rules, order, work_rules) depth 24
