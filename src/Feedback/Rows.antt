-- ===== src/Feedback/Rows.antt =====
-- services/feedback-service/feedback_service/repository.py: the rows of the two tables and the
-- conversions to and from records.
use agentic_ai_platform.Prelude.{
  ℕ, ◌≡◌, refl, Option, none, some, String, List, [], ◌∷◌, ◌==◌, string_eq, map, if◌then◌else◌,
}
use agentic_ai_platform.Value.{Fields, str, object, dict}
use agentic_ai_platform.Engine.Trace.{str_or_null}
use agentic_ai_platform.Feedback.{
  FeedbackSource, operator_console, integration, api, OperatorFeedback, PatternDetection,
  ImprovementSuggestion, ExecutionFeedback,
}

pub record OperatorFeedbackRow : Type 0 where
  pub feedback_record_id : ℕ
  pub execution_id : ℕ
  pub source : String
  pub labels : List String
  pub detail : Fields
  pub source_scope : Option Fields
  pub created_at : ℕ
  pub updated_at : Option ℕ

-- A numeric column is read as a `Decimal`; a row that was just made holds a float.
pub data Numeric : Type 0 where
  float_bits : ℕ → Numeric
  decimal : String → Numeric

pub record ExecutionFeedbackRow : Type 0 where
  pub feedback_id : ℕ
  pub execution_id : ℕ
  pub source_scope : Option Fields
  pub failure_types : List String
  pub patterns_detected : List Fields
  pub improvement_suggestions : List Fields
  pub advisory_confidence : Option Numeric
  pub created_at : ℕ

abbrev pub source_value : FeedbackSource → String
source_value operator_console = "operator_console"
source_value integration = "integration"
source_value api = "api"

-- `FeedbackSource(text)`
unfoldable pub source_of : String → Option FeedbackSource
source_of s =
    if s == "operator_console"
    then some operator_console
    else if s == "integration"
    then some integration
    else if s == "api"
    then some api
    else none

-- `_op_to_row`
unfoldable pub op_to_row : OperatorFeedback → OperatorFeedbackRow
op_to_row r = record {
  feedback_record_id = r.feedback_record_id;
  execution_id = r.execution_id;
  source = source_value r.source;
  labels = r.labels;
  detail = r.detail;
  source_scope = r.source_scope;
  created_at = r.created_at;
  updated_at = r.updated_at;
}

unfoldable pub with_source : OperatorFeedbackRow → Option FeedbackSource → Option OperatorFeedback
with_source row none = none
with_source row (some source) = some (record {
  feedback_record_id = row.feedback_record_id;
  execution_id = row.execution_id;
  source = source;
  labels = row.labels;
  detail = row.detail;
  source_scope = row.source_scope;
  created_at = row.created_at;
  updated_at = row.updated_at;
})

-- `_row_to_op`, `none` where the text of the source is no source and `ValueError` is raised
unfoldable pub row_to_op : OperatorFeedbackRow → Option OperatorFeedback
unfolding with_source
row_to_op row = with_source row (source_of row.source)

-- `p.model_dump(mode="json")`
unfoldable pub dump_pattern : PatternDetection → Fields
dump_pattern p = dict (
    ("pattern_type", str p.pattern_type)
    ∷ ("description", str_or_null p.description)
    ∷ ("evidence", object p.evidence)
    ∷ [])

unfoldable pub dump_suggestion : ImprovementSuggestion → Fields
dump_suggestion s =
    dict
      (("category", str s.category) ∷ ("summary", str s.summary) ∷ ("detail", object s.detail) ∷ [])

abbrev float_row : Option ℕ → Option Numeric
float_row none = none
float_row (some bits) = some (float_bits bits)

-- `_ef_to_row`: a row has no `updated_at`.
unfoldable pub ef_to_row : ExecutionFeedback → ExecutionFeedbackRow
ef_to_row r = record {
  feedback_id = r.feedback_id;
  execution_id = r.execution_id;
  source_scope = r.source_scope;
  failure_types = r.failure_types;
  patterns_detected = map dump_pattern r.patterns_detected;
  improvement_suggestions = map dump_suggestion r.improvement_suggestions;
  advisory_confidence = float_row r.advisory_confidence;
  created_at = r.created_at;
}

-- `[f(x) for x in xs]` where `f` may raise
all_some : {A B : Type 0} → (A → Option B) → List A → Option (List B)
all_some f [] = some []
all_some f (x ∷ xs) =
    let rest = all_some f xs in
    elim (f x) [ none ↦ none | some y ↦ elim rest [ none ↦ none | some ys ↦ some (y ∷ ys) ] ]

-- The reading of patterns and suggestions by pydantic, `none` where it raises, and `float` of a
-- `Decimal`.
module _ (pattern_of : Fields → Option PatternDetection)
    (suggestion_of : Fields → Option ImprovementSuggestion) (float_of_decimal : String → ℕ) where
  -- `_confidence_to_python`
  unfoldable pub confidence_to_python : Option Numeric → Option ℕ
  confidence_to_python none = none
  confidence_to_python (some (float_bits bits)) = some bits
  confidence_to_python (some (decimal s)) = some (float_of_decimal s)

  with_parts :
      ExecutionFeedbackRow
      → Option (List PatternDetection)
      → Option (List ImprovementSuggestion)
      → Option ExecutionFeedback
  unfolding confidence_to_python
  with_parts row (some patterns) (some suggestions) = some (record {
    feedback_id = row.feedback_id;
    execution_id = row.execution_id;
    source_scope = row.source_scope;
    failure_types = row.failure_types;
    patterns_detected = patterns;
    improvement_suggestions = suggestions;
    advisory_confidence = confidence_to_python row.advisory_confidence;
    created_at = row.created_at;
    updated_at = none;
  })
  with_parts row patterns suggestions = none

  -- `_row_to_ef`
  unfoldable pub row_to_ef : ExecutionFeedbackRow → Option ExecutionFeedback
  unfolding all_some with_parts
  row_to_ef row =
      with_parts row (all_some pattern_of row.patterns_detected)
        (all_some suggestion_of row.improvement_suggestions)

pub source_of-source_value : (s : FeedbackSource) → source_of (source_value s) ≡ some s
unfolding source_of
source_of-source_value operator_console = refl
source_of-source_value integration = refl
source_of-source_value api = refl
