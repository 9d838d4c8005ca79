-- ===== src/Engine/CostTools.antt =====
-- The tool calls of the usage-correlation step, against the tool runtime's validation of inputs.
use agentic_ai_platform.Prelude.{
  ℕ, ◌≡◌, ◌≢◌, refl, ap, ◌∙◌, false, [], inl, inr, Bool-cases, ◌==◌, string_eq,
}
use agentic_ai_platform.Value.{put, contains}
use agentic_ai_platform.Schemas.{Step, ToolInvokeRequest, ToolCallStatus}
use agentic_ai_platform.Tools.{Registry, Surroundings, has_incident, execute}
use agentic_ai_platform.Tools.Governed.{execute-Barred}
use agentic_ai_platform.Env.{Env}
use agentic_ai_platform.Engine.Services.{cost_tool_input, service_of}

no_incident : (env : Env) (step : Step) → has_incident (cost_tool_input env step) ≡ false
unfolding has_incident cost_tool_input contains put
no_incident env step = elim (Bool-cases (service_of env step.input.execution_input == "")) [
  | inl bare ↦ rw bare refl
  | inr named ↦ rw named refl
]

-- Every tool call of the usage-correlation step fails without running its handler, whatever the
-- registry and the input of the execution: the input that the step passes has no incident.
pub execute-cost_tool_input :
    (env : Env) (step : Step) (tcid now : ℕ) (request : ToolInvokeRequest) (registry : Registry)
    (s : Surroundings)
    → request.input ≡ cost_tool_input env step
    → ((execute tcid now request registry s).1 ≡ [])
      × ((execute tcid now request registry s).0.status ≢ ToolCallStatus.success)
execute-cost_tool_input env step tcid now request registry s same =
    execute-Barred tcid now request registry s
      (inr (inr (ap has_incident same ∙ no_incident env step)))
