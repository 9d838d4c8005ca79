-- ===== src/Tests/Models.antt =====
-- The model runtime on small answers, and each theorem about it applied to one.
use agentic_ai_platform.Prelude.{
  ℕ, zero, suc, ◌≡◌, ◌↔◌, refl, none, some, String, ◌∷◌, [], max, ◌+◌,
}
use agentic_ai_platform.Value.{
  Value, str, list, object, Fields, dict, cons, nil, get, get_or, truthy,
}
use agentic_ai_platform.Env.{IncidentValidationModelRequest, IncidentValidationReasoningOutput}
use agentic_ai_platform.Prelude.Text.{text_length, non_blank}
use agentic_ai_platform.Value.{contains}
use agentic_ai_platform.Engine.Trace.{take_text}
use agentic_ai_platform.ModelRuntime.{
  transient, ModelResult, returned, raised, ModelInvocationTelemetry, ReasoningCallResult,
  call_with_retries,
}
use agentic_ai_platform.ModelRuntime.Retries.{Decides, call_with_retries-Decides}
use agentic_ai_platform.ModelRuntime.Config.{ModelRuntimeConfig, fake}
use agentic_ai_platform.ModelRuntime.OpenAi.{
  Standard, extract_message_content, validate_incident, openai_flavour, invoke, and_then,
  telemetry_of, tokens, as_text, parse_content, parse_validate, with_confidence, validation_output,
  shown, choices_of, content_of, first_of, message_of, invocation_of,
}
use agentic_ai_platform.ModelRuntime.OpenAi.Answers.{Carries, extract_message_content_iff}

abbrev telemetry : ModelInvocationTelemetry
telemetry = record {
  latency_ms = 5;
  retry_count = 0;
  provider_type = "openai";
  model_name = "m";
  input_tokens = 0;
  output_tokens = 0;
  total_tokens = 0;
}

-- One call times out, the next one answers.
abbrev second_time : ℕ → ModelResult (ReasoningCallResult String)
second_time zero = raised (transient "request timed out")
second_time (suc k) = returned (record { output = "done"; telemetry = telemetry })

retried_once :
    (k : ℕ) × Decides second_time
      (λ k. 7)
      (λ out t. out)
      (max 1 (2 + 1))
      k
      (call_with_retries second_time (λ k. 7) (λ out t. out) 2)
retried_once = call_with_retries-Decides second_time (λ k. 7) (λ out t. out) 2

abbrev std : Standard
std = record {
  str_of = λ v. "value";
  json_dumps = λ v. "{}";
  json_loads = λ s. some (object (dict (("likely_cause", str "disk") ∷ [])));
  int_of = λ v. some 1;
  float_of = λ v. some 0;
}

abbrev answer : Fields
answer = dict (
    (
      "choices",
      list
          (cons (object (dict (("message", object (dict (("content", str "{}") ∷ []))) ∷ []))) nil),
    )
    ∷ [])

content_of_answer : (extract_message_content std answer ≡ returned "{}") ↔ Carries std answer "{}"
content_of_answer = extract_message_content_iff std answer "{}"

abbrev config : ModelRuntimeConfig
config = record {
  provider_type = fake;
  api_key = some "key";
  base_url = some "url";
  model_name = "m";
  azure_deployment = none;
  azure_api_version = "";
  timeout_seconds = 0;
  max_retries = 2;
  retry_backoff_seconds = 0;
}

abbrev request : IncidentValidationModelRequest
request = record {
  execution_id = 1;
  step_id = 2;
  incident_id = "INC-1";
  prior_possible_causes = [];
  prior_incident_summary_excerpt = "";
  evidence_summary_excerpt = "";
}

abbrev validated : ReasoningCallResult IncidentValidationReasoningOutput
validated = record {
  output = record {
    likely_cause = "disk";
    validation_status = "";
    confidence_score = 0;
    rationale_short = "";
    digest = "";
    model_invocation_id = "id";
    provider_label = "openai:m";
    invocation = some (invocation_of telemetry);
  };
  telemetry = telemetry;
}

abbrev post : String → Fields → ModelResult Value
post url body = returned (object answer)

validate_answer :
    validate_incident std post 5 "id" (openai_flavour config) request ≡ returned validated
unfolding validate_incident invoke and_then telemetry_of tokens truthy get get_or contains
    extract_message_content as_text non_blank parse_content parse_validate with_confidence
    validation_output text_length take_text shown openai_flavour choices_of content_of first_of
    message_of
validate_answer = refl
