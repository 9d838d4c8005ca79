-- ===== src/Engine/Models.antt =====
-- The bounded model path of a step, with the deterministic executor as its fallback.
use Prim.Native.String.{compare}
use package.text.Mathlib.Text.{is_le}
use agentic_ai_platform.Prelude.{
  ℕ, false, Option, none, some, String, List, [], ◌∷◌, ◌++◌, ◌==◌, string_eq, if◌then◌else◌, take,
}
use agentic_ai_platform.Prelude.Order.{sort}
use agentic_ai_platform.Value.{
  Value, null, str, uuid, float, list, object, nil, cons, Items, Fields, end, field, dict, get,
  get_or,
}
use agentic_ai_platform.Schemas.{Step, StepResult}
use agentic_ai_platform.Repository
use agentic_ai_platform.Exec.{Exec, pure, reads, uuid4, next_call, if_some, ◌>>=◌, ◌>>◌}
use agentic_ai_platform.Env.{
  Env, text, ModelRuntime, ModelOutcome, answered, threw, IncidentAnalysisReasoningOutput,
  IncidentValidationReasoningOutput, CostAttributionReasoningOutput, CostValidationOutput,
}
use agentic_ai_platform.StepExecutor.{execute_step}
use agentic_ai_platform.Engine.Trace.{append_row, output_of, result_at, texts, take_text}
use agentic_ai_platform.Engine.Services.{incident_id_of, scope_id_from_input}

abbrev optional_row : String → Option String → List (String × Value)
optional_row key none = []
optional_row key (some s) = if s == "" then [] else (key, str s) ∷ []

abbrev pub name_or_null : Step → Value
name_or_null step = if_some step.input.planner_step_name null str

-- `_trace_model_reasoning`
unfoldable pub trace_model_reasoning :
    Step
    → (path task : String) → ℕ
    → Option String
    → Option (String × String)
    → Option Fields
    → Exec Unit
trace_model_reasoning step path task now provider error invocation =
    append_row step.execution_id "model_reasoning"
      (dict (
        ("step_id", uuid step.step_id)
        ∷ ("planner_step_name", name_or_null step)
        ∷ ("path", str path)
        ∷ ("task", str task)
        ∷ (optional_row "provider" provider
            ++ (elim error [
              | none ↦ []
              | some (class, message) ↦
                  optional_row "error_class" (some class)
                  ++ optional_row "error_message" (some (take_text 500 message))
            ]
                ++ elim invocation [
                  | none ↦ []
                  | some end ↦ []
                  | some fields ↦ ("invocation", object fields) ∷ []
                ]))))
      now

abbrev model_evidence : String → String → String → Fields
model_evidence provider invocation_id task = dict (
    ("type", str "model_reasoning")
    ∷ ("provider", str provider)
    ∷ ("invocation_id", str invocation_id)
    ∷ ("task", str task)
    ∷ [])

abbrev model_detail : String → String → Fields
model_detail provider task =
    dict (("source", str "model_runtime") ∷ ("provider", str provider) ∷ ("task", str task) ∷ [])

-- `_step_result_from_analyze_model`; the confidence is 0.86
unfoldable pub step_result_from_analyze_model :
    Step → ℕ → IncidentAnalysisReasoningOutput → ℕ → StepResult
step_result_from_analyze_model step now out rid =
    result_at step now rid
      (dict (
        ("incident_summary", str out.incident_summary)
        ∷ ("possible_causes", texts out.possible_causes)
        ∷ []))
      (model_evidence out.provider_label out.model_invocation_id "analyze_incident" ∷ [])
      4605921410904353669 (model_detail out.provider_label "analyze_incident") none

-- `_step_result_from_validate_model`
unfoldable pub step_result_from_validate_model :
    Step → ℕ → IncidentValidationReasoningOutput → ℕ → StepResult
step_result_from_validate_model step now out rid =
    result_at step now rid
      (dict (
        ("likely_cause", str out.likely_cause)
        ∷ ("validation_status", str out.validation_status)
        ∷ ("confidence_score", float out.confidence_score)
        ∷ ("digest", str out.digest)
        ∷ []))
      (model_evidence out.provider_label out.model_invocation_id "validate_incident" ∷ [])
      out.confidence_score (model_detail out.provider_label "validate_incident")
      (some (record {
        status = out.validation_status;
        details = dict (
            ("likely_cause", str out.likely_cause)
            ∷ ("model_invocation_id", str out.model_invocation_id)
            ∷ ("provider", str out.provider_label)
            ∷ ("rationale_short", str out.rationale_short)
            ∷ []);
      }))

-- `_step_result_from_cost_analyze_model`; the confidence is 0.85
unfoldable pub step_result_from_cost_analyze_model :
    Step → ℕ → CostAttributionReasoningOutput → ℕ → StepResult
step_result_from_cost_analyze_model step now out rid =
    result_at step now rid
      (dict (
        ("suspected_service", str out.suspected_service)
        ∷ ("suspected_team", str out.suspected_team)
        ∷ ("anomaly_type", str out.anomaly_type)
        ∷ ("estimated_cost_impact_usd", float out.estimated_cost_impact_usd)
        ∷ ("attribution_summary", str out.attribution_summary)
        ∷ ("optimization_candidates", texts out.optimization_candidates)
        ∷ ("evidence_references", texts out.evidence_references)
        ∷ []))
      (model_evidence out.provider_label out.model_invocation_id "analyze_cost_anomaly" ∷ [])
      4605831338911806259 (model_detail out.provider_label "analyze_cost_anomaly") none

-- `_step_result_from_cost_validate_model`
unfoldable pub step_result_from_cost_validate_model :
    Step → ℕ → CostValidationOutput → ℕ → StepResult
step_result_from_cost_validate_model step now out rid =
    result_at step now rid
      (dict (
        ("validation_status", str out.validation_status)
        ∷ ("confidence", float out.confidence)
        ∷ ("likely_service", str out.likely_service)
        ∷ ("likely_team", str out.likely_team)
        ∷ ("recommended_actions", texts out.recommended_actions)
        ∷ ("digest", str out.digest)
        ∷ []))
      (model_evidence out.provider_label out.model_invocation_id "validate_cost_attribution" ∷ [])
      out.confidence (model_detail out.provider_label "validate_cost_attribution")
      (some (record {
        status = out.validation_status;
        details = dict (
            ("likely_service", str out.likely_service)
            ∷ ("likely_team", str out.likely_team)
            ∷ ("confidence", float out.confidence)
            ∷ ("model_invocation_id", str out.model_invocation_id)
            ∷ ("provider", str out.provider_label)
            ∷ []);
      }))

-- `sorted(ex_in.keys())[:12]` and the excerpt over these keys
abbrev keys_of : Fields → List String
keys_of end = []
keys_of (field k v d) = k ∷ keys_of d

abbrev select : List String → Fields → Fields
select [] d = end
select (k ∷ ks) d = field k (get k d) (select ks d)

unfoldable pub excerpt : Fields → Fields
excerpt d = select (take 12 (sort (λ a b. is_le (compare a b)) (keys_of d))) d

-- The output of the last listed step of an execution that has a name: the loop of
-- `_prior_analyze_and_gather_outputs` and of `_prior_cost_step_outputs`.
last_output : String → List Step → Repository.Repository → Fields → Fields
last_output name [] r found = found
last_output name (s ∷ steps) r found = last_output name steps r (
    if if_some s.input.planner_step_name false (λ n. n == name)
    then output_of (Repository.get_step_result s.step_id r)
    else found)

unfoldable pub prior_output : ℕ → String → Exec Fields
unfolding last_output
prior_output id name =
    reads (λ w. last_output name (Repository.list_steps_for_execution id w.repo) w.repo end)

-- `[str(x) for x in xs] if isinstance(xs, list) else []`
abbrev text_list : Env → Items → List String
text_list env nil = []
text_list env (cons v rest) = text env v ∷ text_list env rest

abbrev text_list_of : Env → Value → List String
text_list_of env (list xs) = text_list env xs
text_list_of env v = []

module _ (env : Env) where
  -- What follows a call of the model: a row and the result, or a row and the fallback.
  unfoldable pub settle :
      {A : Type 0}
      → Step
      → String
      → ℕ
      → ModelOutcome A
      → (A → String × Option Fields)
      → (A → ℕ → StepResult)
      → Exec StepResult
  settle step task now (answered out) labels build = do
    let (provider, invocation) = labels out
    trace_model_reasoning step "model_runtime" task now (some provider) none invocation
    rid ← uuid4
    pure (build out rid)
  settle step task now (threw class message) labels build = do
    trace_model_reasoning step "deterministic_fallback" task now none (some (class, message)) none
    execute_step env step

  -- `_incident_model_reasoning_step`
  unfoldable pub incident_model_reasoning_step : ModelRuntime → Step → ℕ → Exec StepResult
  unfolding settle prior_output
  incident_model_reasoning_step rt step now =
      if_some step.input.planner_step_name (execute_step env step) λ name.
        let ex_in = step.input.execution_input in
        let incident_id = incident_id_of env ex_in in
        if name == "analyze_incident"
        then (do
          k ← next_call
          settle step "analyze_incident" now
              (rt.analyze_incident k (record {
                execution_id = step.execution_id;
                step_id = step.step_id;
                incident_id = incident_id;
                execution_input_excerpt = excerpt ex_in;
              }))
              (λ out. (out.provider_label, out.invocation))
              (step_result_from_analyze_model step now))
        else if name == "validate_incident"
        then (do
          analyze_out ← prior_output step.execution_id "analyze_incident"
          gather_out ← prior_output step.execution_id "gather_evidence"
          k ← next_call
          settle step "validate_incident" now
              (rt.validate_incident k (record {
                execution_id = step.execution_id;
                step_id = step.step_id;
                incident_id = incident_id;
                prior_possible_causes =
                    take 16 (text_list_of env (get "possible_causes" analyze_out));
                prior_incident_summary_excerpt =
                    take_text 2000 (text env (get_or "incident_summary" (str "") analyze_out));
                evidence_summary_excerpt =
                    take_text 2000 (text env (get_or "evidence_summary" (str "") gather_out));
              }))
              (λ out. (out.provider_label, out.invocation))
              (step_result_from_validate_model step now))
        else execute_step env step

  -- `_cost_model_reasoning_step`
  unfoldable pub cost_model_reasoning_step : ModelRuntime → Step → ℕ → Exec StepResult
  unfolding settle prior_output
  cost_model_reasoning_step rt step now =
      if_some step.input.planner_step_name (execute_step env step) λ name.
        let ex_in = step.input.execution_input in
        let scope_id = scope_id_from_input env ex_in in
        if name == "analyze_cost_anomaly"
        then (do
          k ← next_call
          settle step "analyze_cost_anomaly" now
              (rt.analyze_cost_anomaly k (record {
                execution_id = step.execution_id;
                step_id = step.step_id;
                scope_id = scope_id;
                execution_input_excerpt = excerpt ex_in;
              }))
              (λ out. (out.provider_label, out.invocation))
              (step_result_from_cost_analyze_model step now))
        else if name == "validate_cost_attribution"
        then (do
          analyze_out ← prior_output step.execution_id "analyze_cost_anomaly"
          retrieve_out ← prior_output step.execution_id "retrieve_cost_evidence"
          k ← next_call
          settle step "validate_cost_attribution" now
              (rt.validate_cost_attribution k (record {
                execution_id = step.execution_id;
                step_id = step.step_id;
                scope_id = scope_id;
                prior_attribution_summary =
                    take_text 2000 (text env (get_or "attribution_summary" (str "") analyze_out));
                prior_evidence_summary =
                    take_text 2000 (text env (get_or "evidence_summary" (str "") retrieve_out));
                prior_optimization_candidates =
                    take 16 (text_list_of env (get "optimization_candidates" analyze_out));
              }))
              (λ out. (out.provider_label, out.invocation))
              (step_result_from_cost_validate_model step now))
        else execute_step env step
