-- ===== src/Feedback.antt =====
-- services/feedback-service/feedback_service: service.py and `InMemoryFeedbackRepository` of
-- repository.py, with the records of packages/common-schemas/src/common_schemas/feedback.py.
pub mod Rows
pub mod Listing
pub mod Postgres
use agentic_ai_platform.Prelude.{
  ℕ, suc, Bool, true, false, Option, none, some, String, List, [], ◌∷◌, ◌==◌, nat_eq, leb, max,
  keep, any, take, if◌then◌else◌,
}
use agentic_ai_platform.Prelude.Dict.{Dict, lookup, put, values}
use agentic_ai_platform.Prelude.Order.{sort}
use agentic_ai_platform.Value.{Fields, end}

pub data FeedbackSource : Type 0 where
  operator_console integration api : FeedbackSource

pub record OperatorFeedback : Type 0 where
  pub feedback_record_id : ℕ
  pub execution_id : ℕ
  pub source : FeedbackSource
  pub labels : List String
  pub detail : Fields
  pub source_scope : Option Fields
  pub created_at : ℕ
  pub updated_at : Option ℕ

pub record PatternDetection : Type 0 where
  pub pattern_type : String
  pub description : Option String
  pub evidence : Fields

pub record ImprovementSuggestion : Type 0 where
  pub category : String
  pub summary : String
  pub detail : Fields

-- The confidence is the bits of a float.
pub record ExecutionFeedback : Type 0 where
  pub feedback_id : ℕ
  pub execution_id : ℕ
  pub source_scope : Option Fields
  pub failure_types : List String
  pub patterns_detected : List PatternDetection
  pub improvement_suggestions : List ImprovementSuggestion
  pub advisory_confidence : Option ℕ
  pub created_at : ℕ
  pub updated_at : Option ℕ

-- `InMemoryFeedbackRepository`
pub record FeedbackRepository : Type 0 where
  pub operator : Dict OperatorFeedback
  pub mukti : Dict ExecutionFeedback

unfoldable pub save_operator_feedback : OperatorFeedback → FeedbackRepository → FeedbackRepository
save_operator_feedback x r = record r { operator = put x.feedback_record_id x r.operator }

unfoldable pub get_operator_feedback : ℕ → FeedbackRepository → Option OperatorFeedback
get_operator_feedback id r = lookup id r.operator

unfoldable pub list_operator_feedback_for_execution : ℕ → FeedbackRepository → List OperatorFeedback
list_operator_feedback_for_execution id r =
    sort (λ a b. leb a.created_at b.created_at)
      (keep (λ x. x.execution_id == id) (values r.operator))

unfoldable pub save_execution_feedback : ExecutionFeedback → FeedbackRepository → FeedbackRepository
save_execution_feedback x r = record r { mukti = put x.feedback_id x r.mukti }

unfoldable pub get_execution_feedback : ℕ → FeedbackRepository → Option ExecutionFeedback
get_execution_feedback id r = lookup id r.mukti

unfoldable pub list_execution_feedback_for_execution :
    ℕ → FeedbackRepository → List ExecutionFeedback
list_execution_feedback_for_execution id r =
    sort (λ a b. leb a.created_at b.created_at) (keep (λ x. x.execution_id == id) (values r.mukti))

-- `execution_id in allowed`
abbrev pub allowed : List ℕ → ExecutionFeedback → Bool
allowed ids x = any (λ id. id == x.execution_id) ids

unfoldable pub in_scope : Option (List ℕ) → List ExecutionFeedback → List ExecutionFeedback
in_scope none rows = rows
in_scope (some ids) rows = keep (allowed ids) rows

-- A limit below zero is written 0 and gives one row as well.
unfoldable pub list_execution_feedback :
    ℕ → Option (List ℕ) → FeedbackRepository → List ExecutionFeedback
list_execution_feedback limit execution_ids r =
    take (max 1 limit)
      (sort (λ a b. leb b.created_at a.created_at) (in_scope execution_ids (values r.mukti)))

-- The arguments of `submit_operator_feedback`.
pub record Submission : Type 0 where
  pub execution_id : ℕ
  pub source : FeedbackSource
  pub labels : Option (List String)
  pub detail : Option Fields
  pub source_scope : Option Fields

abbrev labels_of : Option (List String) → List String
labels_of none = []
labels_of (some xs) = xs

abbrev detail_of : Option Fields → Fields
detail_of none = end
detail_of (some d) = d

-- The new record, under an identifier that `uuid4` gave, and the repository that holds it.
unfoldable pub submit_operator_feedback :
    Submission → (id ts : ℕ) → FeedbackRepository → OperatorFeedback × FeedbackRepository
submit_operator_feedback s id ts r =
    let x : OperatorFeedback = record {
      feedback_record_id = id;
      execution_id = s.execution_id;
      source = s.source;
      labels = labels_of s.labels;
      detail = detail_of s.detail;
      source_scope = s.source_scope;
      created_at = ts;
      updated_at = none;
    } in
    (x, save_operator_feedback x r)
