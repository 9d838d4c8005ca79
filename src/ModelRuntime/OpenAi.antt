-- ===== src/ModelRuntime/OpenAi.antt =====
-- services/model-runtime/model_runtime/providers/openai_compatible.py: `OpenAICompatibleProvider` and
-- `AzureOpenAICompatibleProvider`, one request each, and the reading of the answer.
pub mod Answers
use agentic_ai_platform.Prelude.{
  ℕ, zero, suc, Bool, true, false, not, ◌&&◌, ◌||◌, Option, none, some, String, ◌<>◌, List, [], ◌∷◌,
  map, take, ◌==◌, nat_eq, string_eq, leb, if◌then◌else◌,
}
use agentic_ai_platform.Prelude.Text.{text_length, non_blank}
use agentic_ai_platform.Value.{
  Value, null, int, float, str, uuid, time, list, object, Items, nil, cons, Fields, end, dict, get,
  get_or, truthy, to_list,
}
use agentic_ai_platform.Env.{
  IncidentAnalysisModelRequest, IncidentAnalysisReasoningOutput, IncidentValidationModelRequest,
  IncidentValidationReasoningOutput,
}
use agentic_ai_platform.Engine.Trace.{take_text, texts}
use agentic_ai_platform.ModelRuntime.{
  ModelError, ModelResult, returned, raised, other, schema_validation, non_retryable,
  ModelInvocationTelemetry, ReasoningCallResult,
}
use agentic_ai_platform.ModelRuntime.Config.{ModelRuntimeConfig, is_missing}

-- What is used of the standard library: `str` of a value that is no text, JSON, and the readings of
-- a number as an integer and as the bits of a float, `none` where they raise.
pub record Standard : Type 0 where
  pub str_of : Value → String
  pub json_dumps : Value → String
  pub json_loads : String → Option Value
  pub int_of : Value → Option ℕ
  pub float_of : Value → Option ℕ

module _ {A B : Type 0} where
  -- Go on with what was returned.
  unfoldable pub and_then : ModelResult A → (A → ModelResult B) → ModelResult B
  and_then (raised e) f = raised e
  and_then (returned a) f = f a

-- `isinstance(v, str)`
unfoldable pub as_text : Standard → Value → Option String
as_text std (str s) = some s
as_text std (uuid n) = some (std.str_of (uuid n))
as_text std (time n) = some (std.str_of (time n))
as_text std v = none

-- `str(v)`
unfoldable pub shown : Standard → Value → String
shown std (str s) = s
shown std v = std.str_of v

unfoldable pub invalid : {A : Type 0} → String → ModelResult A
invalid message = raised (schema_validation message)

unfoldable pub content_of : Option String → ModelResult String
unfolding invalid
content_of none = invalid "empty message content"
content_of (some s) = if non_blank s then returned s else invalid "empty message content"

unfoldable pub message_of : Standard → Value → ModelResult String
unfolding invalid content_of
message_of std (object message) = content_of (as_text std (get "content" message))
message_of std v = invalid "missing message in choice"

unfoldable pub first_of : Standard → Value → ModelResult String
unfolding invalid message_of
first_of std (object choice) = message_of std (get "message" choice)
first_of std v = invalid "invalid choice shape"

unfoldable pub choices_of : Standard → Value → ModelResult String
unfolding invalid first_of
choices_of std (list (cons choice rest)) = first_of std choice
choices_of std v = invalid "missing choices in provider response"

-- `_extract_message_content`
unfoldable pub extract_message_content : Standard → Fields → ModelResult String
unfolding choices_of
extract_message_content std resp = choices_of std (get "choices" resp)

-- `json.loads(content)`, which has to be an object.
unfoldable pub parse_content : Standard → String → ModelResult Fields
unfolding invalid
parse_content std content = elim (std.json_loads content) [
  | none ↦ invalid "provider JSON parse failed"
  | some (object d) ↦ returned d
  | some v ↦ invalid "provider response must be a JSON object"
]

-- `int(v or 0)`; a negative number or a text that is no number raises outside the `try`.
unfoldable pub tokens : Standard → Value → ModelResult ℕ
tokens std v = elim (truthy v) [
  | false ↦ returned 0
  | true ↦ elim (std.int_of v) [ none ↦ raised (other "invalid token count") | some n ↦ returned n ]
]

-- `resp.get("usage")`, where it is a dictionary
abbrev usage_of : Value → Fields
usage_of (object d) = d
usage_of v = end

unfoldable pub telemetry_of :
    Standard
    → (provider_type model_name : String) → (latency : ℕ) → Fields
    → ModelResult ModelInvocationTelemetry
telemetry_of std provider_type model_name latency resp =
    let usage = usage_of (get "usage" resp) in
    and_then (tokens std (get "prompt_tokens" usage)) λ i.
      and_then (tokens std (get "completion_tokens" usage)) λ o.
        and_then (tokens std (get "total_tokens" usage)) λ t. returned (record {
          latency_ms = latency;
          retry_count = 0;
          provider_type = provider_type;
          model_name = model_name;
          input_tokens = i;
          output_tokens = o;
          total_tokens = t;
        })

-- The dump of a telemetry, which an output carries.
abbrev pub invocation_of : ModelInvocationTelemetry → Fields
invocation_of t = dict (
    ("latency_ms", int t.latency_ms)
    ∷ ("retry_count", int t.retry_count)
    ∷ ("provider_type", str t.provider_type)
    ∷ ("model_name", str t.model_name)
    ∷ ("input_tokens", int t.input_tokens)
    ∷ ("output_tokens", int t.output_tokens)
    ∷ ("total_tokens", int t.total_tokens)
    ∷ [])

-- The lengths that pydantic checks and no slice has cut.
abbrev labelled : (inv_id label : String) → Bool
labelled inv_id label = leb (text_length inv_id) 128 && leb (text_length label) 64

causes_of : Standard → Value → List String
causes_of std (list xs) = map (shown std) (to_list xs)
causes_of std v = []

-- `_parse_analyze`
unfoldable pub parse_analyze :
    Standard
    → (inv_id label : String) → ModelInvocationTelemetry
    → Fields
    → ModelResult IncidentAnalysisReasoningOutput
unfolding invalid causes_of
parse_analyze std inv_id label telemetry parsed =
    if labelled inv_id label
    then returned (record {
      incident_summary = take_text 4000 (shown std (get_or "incident_summary" (str "") parsed));
      possible_causes = take 16 (causes_of std (get "possible_causes" parsed));
      model_invocation_id = inv_id;
      provider_label = label;
      invocation = some (invocation_of telemetry);
    })
    else invalid "validation error"

-- 0.0 <= x <= 1.0, by the bits of x
abbrev pub in_unit : ℕ → Bool
in_unit bits = leb bits 4607182418800017408 || bits == 9223372036854775808

-- `IncidentValidationReasoningOutput(…)`, which pydantic refuses with a confidence out of range.
unfoldable pub validation_output :
    Standard
    → (inv_id label : String) → ModelInvocationTelemetry
    → Fields
    → ℕ
    → ModelResult IncidentValidationReasoningOutput
unfolding invalid
validation_output std inv_id label telemetry parsed confidence =
    if labelled inv_id label && in_unit confidence
    then returned (record {
      likely_cause = take_text 128 (shown std (get_or "likely_cause" (str "") parsed));
      validation_status = take_text 32 (shown std (get_or "validation_status" (str "") parsed));
      confidence_score = confidence;
      rationale_short = take_text 500 (shown std (get_or "rationale_short" (str "") parsed));
      digest = take_text 64 (shown std (get_or "digest" (str "") parsed));
      model_invocation_id = inv_id;
      provider_label = label;
      invocation = some (invocation_of telemetry);
    })
    else invalid "validation error"

-- The confidence that `float` read. Its `ValueError` or `TypeError` is not a `ValidationError`.
unfoldable pub with_confidence :
    Standard
    → (inv_id label : String) → ModelInvocationTelemetry
    → Fields
    → Option ℕ
    → ModelResult IncidentValidationReasoningOutput
with_confidence std inv_id label telemetry parsed none = raised (other "could not convert to float")
with_confidence std inv_id label telemetry parsed (some confidence) =
    validation_output std inv_id label telemetry parsed confidence

-- `_parse_validate`
unfoldable pub parse_validate :
    Standard
    → (inv_id label : String) → ModelInvocationTelemetry
    → Fields
    → ModelResult IncidentValidationReasoningOutput
parse_validate std inv_id label telemetry parsed =
    with_confidence std inv_id label telemetry parsed
      (std.float_of (get_or "confidence_score" (float 0) parsed))

-- What differs between the two providers: how the system message starts, whether the body names the
-- model, and the label.
pub record Flavour : Type 0 where
  pub provider_type : String
  pub model_name : String
  pub hint_prefix : String
  pub names_model : Bool
  pub url : String

-- `s.rstrip("/")`
slash_count_end : String → Bool
slash_count_end String.[] = true
slash_count_end (String.◌∷◌ c s) = (String.◌∷◌ c String.[]) == "/" && slash_count_end s

unfoldable pub strip_slashes : String → String
unfolding slash_count_end
strip_slashes String.[] = String.[]
strip_slashes (String.◌∷◌ c s) =
    let rest = strip_slashes s in
    if slash_count_end (String.◌∷◌ c s) then String.[] else String.◌∷◌ c rest

abbrev url_of : Option String → String
url_of none = ""
url_of (some s) = strip_slashes s

unfoldable pub openai_flavour : ModelRuntimeConfig → Flavour
openai_flavour config = record {
  provider_type = "openai";
  model_name = config.model_name;
  hint_prefix = "Return a single JSON object only. Fields must match this schema hint: ";
  names_model = true;
  url = url_of config.base_url <> "/chat/completions";
}

abbrev text_or_empty : Option String → String
text_or_empty none = ""
text_or_empty (some s) = s

-- `_chat_url`; `azure_deployment or model_name`
unfoldable pub azure_flavour : ModelRuntimeConfig → Flavour
azure_flavour config =
    let deployment = text_or_empty config.azure_deployment in
    record {
      provider_type = "azure_openai";
      model_name = if deployment == "" then config.model_name else deployment;
      hint_prefix = "Return a single JSON object only. Fields must match: ";
      names_model = false;
      url =
          url_of config.base_url
          <> ("/openai/deployments/"
              <> (deployment <> ("/chat/completions?api-version=" <> config.azure_api_version)));
    }

-- The constructors: what is missing raises.
unfoldable pub openai_provider : ModelRuntimeConfig → ModelResult Flavour
openai_provider config =
    if is_missing config.api_key
    then raised (non_retryable "MODEL_API_KEY or OPENAI_API_KEY is required for openai provider")
    else if is_missing config.base_url
    then raised (non_retryable "MODEL_BASE_URL is required for openai provider")
    else returned (openai_flavour config)

unfoldable pub azure_provider : ModelRuntimeConfig → ModelResult Flavour
azure_provider config =
    if is_missing config.api_key
    then raised (non_retryable "AZURE_OPENAI_API_KEY is required for azure_openai provider")
    else if is_missing config.base_url
    then raised (non_retryable "AZURE_OPENAI_ENDPOINT is required for azure_openai provider")
    else if is_missing config.azure_deployment
    then raised (non_retryable "AZURE_OPENAI_DEPLOYMENT is required for azure_openai provider")
    else returned (azure_flavour config)

abbrev message : (role content : String) → Value
message role content = object (dict (("role", str role) ∷ ("content", str content) ∷ []))

-- `body`, up to the order of its keys
unfoldable pub request_body : Standard → Flavour → (schema_hint user_payload : Fields) → Fields
request_body std f schema_hint user_payload =
    let common =
      ("response_format", object (dict (("type", str "json_object") ∷ [])))
      ∷ (
        "messages",
        list (
            cons (message "system" (f.hint_prefix <> std.json_dumps (object schema_hint)))
              (cons (message "user" (std.json_dumps (object user_payload))) nil)),
      )
      ∷ ("temperature", int 0)
      ∷ [] in
    dict (if f.names_model then ("model", str f.model_name) ∷ common else common)

-- A response that is no dictionary has no `get`.
as_response : Value → ModelResult Fields
as_response (object d) = returned d
as_response v = raised (other "response has no attribute 'get'")

-- `post url body` is the answer of `post_json`; `inv_id` is the text of the new UUID.
module _ (std : Standard) (post : String → Fields → ModelResult Value) (latency : ℕ)
    (inv_id : String) where
  -- `_invoke`
  unfoldable pub invoke :
      {A : Type 0}
      → Flavour
      → (user_payload schema_hint : Fields)
      → (String → String → ModelInvocationTelemetry → Fields → ModelResult A)
      → ModelResult (ReasoningCallResult A)
  unfolding as_response
  invoke f user_payload schema_hint build_output =
      and_then (post f.url (request_body std f schema_hint user_payload)) λ answer.
        and_then (as_response answer) λ resp.
          and_then (telemetry_of std f.provider_type f.model_name latency resp) λ telemetry.
            and_then (extract_message_content std resp) λ content.
              and_then (parse_content std content) λ parsed.
                and_then
                  (build_output inv_id (f.provider_type <> (":" <> f.model_name)) telemetry parsed)
                  λ out. returned (record { output = out; telemetry = telemetry })

  -- The workflow type of the request is its default.
  unfoldable pub analyze_incident :
      Flavour
      → IncidentAnalysisModelRequest
      → ModelResult (ReasoningCallResult IncidentAnalysisReasoningOutput)
  analyze_incident f q =
      invoke f
        (dict (
          ("task", str "analyze_incident")
          ∷ ("incident_id", str q.incident_id)
          ∷ ("workflow_type", str "incident_triage")
          ∷ ("execution_input_excerpt", object q.execution_input_excerpt)
          ∷ []))
        (dict
          (("incident_summary", str "string") ∷ ("possible_causes", texts ("string" ∷ [])) ∷ []))
        (parse_analyze std)

  unfoldable pub validate_incident :
      Flavour
      → IncidentValidationModelRequest
      → ModelResult (ReasoningCallResult IncidentValidationReasoningOutput)
  validate_incident f q =
      invoke f
        (dict (
          ("task", str "validate_incident")
          ∷ ("incident_id", str q.incident_id)
          ∷ ("prior_possible_causes", texts q.prior_possible_causes)
          ∷ ("prior_incident_summary_excerpt", str q.prior_incident_summary_excerpt)
          ∷ ("evidence_summary_excerpt", str q.evidence_summary_excerpt)
          ∷ []))
        (dict (
          ("likely_cause", str "string")
          ∷ ("validation_status", str "string")
          ∷ ("confidence_score", float 0)
          ∷ ("rationale_short", str "string")
          ∷ ("digest", str "string")
          ∷ []))
        (parse_validate std)
