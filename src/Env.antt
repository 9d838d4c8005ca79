-- ===== src/Env.antt =====
-- What the orchestrator is given from outside: the clock, functions of Python's standard library
-- that are not computed here, the settings (services/orchestrator/app/config.py), and the
-- capabilities that the engine's constructor takes.
use agentic_ai_platform.Prelude.{ℕ, Option, String, List, zero, suc, ◌%◌, ◌/◌, ◌<>◌, [], ◌∷◌}
use agentic_ai_platform.Value.{Value, str, Fields}
use agentic_ai_platform.Tools.{Handler, Registry, Attempt}

pub record OrchestratorSettings : Type 0 where
  pub default_agent_reasoning : String
  pub default_agent_validation : String
  pub default_agent_retrieval : String

abbrev pub default_settings : OrchestratorSettings
default_settings = record {
  default_agent_reasoning = "reasoning_agent_v1";
  default_agent_validation = "validation_agent_v1";
  default_agent_retrieval = "retrieval_agent_v1";
}

-- packages/common-schemas/src/common_schemas/knowledge.py
pub record EvidenceChunk : Type 0 where
  pub chunk_id : String
  pub document_id : Option String
  pub source_uri : String
  pub title : Option String
  pub text_excerpt : String
  pub score : Option ℕ
  pub metadata : Fields

pub record RetrievalRequest : Type 0 where
  pub tenant_id : String
  pub workflow_type : String
  pub query : String
  pub max_results : ℕ
  pub filters : Fields
  pub correlation_request_id : Option String

pub record RetrievalResponse : Type 0 where
  pub retrieval_id : ℕ
  pub chunks : List EvidenceChunk
  pub corpus_version : String

-- packages/common-schemas/src/common_schemas/reasoning.py and cost_attribution.py; `invocation` is
-- the dump of the telemetry.
pub record IncidentAnalysisModelRequest : Type 0 where
  pub execution_id : ℕ
  pub step_id : ℕ
  pub incident_id : String
  pub execution_input_excerpt : Fields

pub record IncidentAnalysisReasoningOutput : Type 0 where
  pub incident_summary : String
  pub possible_causes : List String
  pub model_invocation_id : String
  pub provider_label : String
  pub invocation : Option Fields

pub record IncidentValidationModelRequest : Type 0 where
  pub execution_id : ℕ
  pub step_id : ℕ
  pub incident_id : String
  pub prior_possible_causes : List String
  pub prior_incident_summary_excerpt : String
  pub evidence_summary_excerpt : String

pub record IncidentValidationReasoningOutput : Type 0 where
  pub likely_cause : String
  pub validation_status : String
  pub confidence_score : ℕ
  pub rationale_short : String
  pub digest : String
  pub model_invocation_id : String
  pub provider_label : String
  pub invocation : Option Fields

pub record CostAttributionAnalysisModelRequest : Type 0 where
  pub execution_id : ℕ
  pub step_id : ℕ
  pub scope_id : String
  pub execution_input_excerpt : Fields

pub record CostAttributionReasoningOutput : Type 0 where
  pub suspected_service : String
  pub suspected_team : String
  pub anomaly_type : String
  pub estimated_cost_impact_usd : ℕ
  pub attribution_summary : String
  pub optimization_candidates : List String
  pub evidence_references : List String
  pub model_invocation_id : String
  pub provider_label : String
  pub invocation : Option Fields

pub record CostAttributionValidationModelRequest : Type 0 where
  pub execution_id : ℕ
  pub step_id : ℕ
  pub scope_id : String
  pub prior_attribution_summary : String
  pub prior_evidence_summary : String
  pub prior_optimization_candidates : List String

pub record CostValidationOutput : Type 0 where
  pub validation_status : String
  pub confidence : ℕ
  pub likely_service : String
  pub likely_team : String
  pub recommended_actions : List String
  pub digest : String
  pub model_invocation_id : String
  pub provider_label : String
  pub invocation : Option Fields

-- A call of the model runtime, or of the knowledge service, gives an output, or raises an exception with a class name and a text.
-- Building the request may raise too, and counts as the call.
pub data ModelOutcome (A : Type 0) : Type 0 where
  answered : A → ModelOutcome A
  threw : String → String → ModelOutcome A

-- Each service answers its `k`-th call in its own way.
pub record ModelRuntime : Type 0 where
  pub analyze_incident :
      ℕ → IncidentAnalysisModelRequest → ModelOutcome IncidentAnalysisReasoningOutput
  pub validate_incident :
      ℕ → IncidentValidationModelRequest → ModelOutcome IncidentValidationReasoningOutput
  pub analyze_cost_anomaly :
      ℕ → CostAttributionAnalysisModelRequest → ModelOutcome CostAttributionReasoningOutput
  pub validate_cost_attribution :
      ℕ → CostAttributionValidationModelRequest → ModelOutcome CostValidationOutput

pub record ToolRuntime : Type 0 where
  pub registry : Registry
  pub attempt : ℕ → Handler → Fields → ℕ → Attempt
  pub started_ns : ℕ → ℕ
  pub ended_ns : ℕ → ℕ

pub record Env : Type 0 where
  -- the readings of the clock
  pub readings : ℕ → ℕ
  -- `str(v)` of a value that is no text, `float(v)` of a number, `hashlib.sha256` as a number,
  -- `json.dumps(…, sort_keys=True)`
  pub str_of : Value → String
  pub float_of : Value → ℕ
  pub sha256 : String → ℕ
  pub json_dumps : Value → String
  -- `UUID(text)` of a text that is not the canonical form of a UUID, `none` where it raises
  pub uuid_of : String → Option ℕ
  pub settings : OrchestratorSettings
  pub tool_runtime : Option ToolRuntime
  pub knowledge : Option (ℕ → RetrievalRequest → ModelOutcome RetrievalResponse)
  pub model_runtime : Option ModelRuntime

-- `str(v)`
unfoldable pub text : Env → Value → String
text env (str s) = s
text env v = env.str_of v

nth : List String → ℕ → String
nth [] i = ""
nth (x ∷ xs) zero = x
nth (x ∷ xs) (suc i) = nth xs i

hex_digit : ℕ → String
unfolding nth
hex_digit n =
    nth
      ("0" ∷ "1" ∷ "2" ∷ "3" ∷ "4" ∷ "5" ∷ "6" ∷ "7" ∷ "8" ∷ "9" ∷ "a" ∷ "b" ∷ "c" ∷ "d" ∷ "e" ∷ "f"
        ∷ [])
      (n % 16)

-- The last `width` hexadecimal digits of a number.
unfoldable pub hex : ℕ → ℕ → String
unfolding hex_digit
hex zero n = ""
hex (suc width) n = hex width (n / 16) <> hex_digit n
