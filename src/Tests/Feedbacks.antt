-- ===== src/Tests/Feedbacks.antt =====
-- Feedback that is stored, read back and listed.
use agentic_ai_platform.Prelude.{
  List, ℕ, ◌≡◌, ◌≢◌, true, none, some, String, [], ◌∷◌, any, All, ◌==◌, nat_eq,
}
use agentic_ai_platform.Prelude.Order.{IsSorted}
use agentic_ai_platform.Value.{Fields, end}
use agentic_ai_platform.Feedback.{
  operator_console, api, OperatorFeedback, Submission, submit_operator_feedback,
  get_operator_feedback, list_operator_feedback_for_execution,
}
use agentic_ai_platform.Feedback.Listing.{submit_operator_feedback_lem}
use agentic_ai_platform.Feedback.Postgres.{empty}

abbrev disputed : Submission
disputed = record {
  execution_id = 1;
  source = operator_console;
  labels = some ("false_positive" ∷ []);
  detail = none;
  source_scope = none;
}

submit_disputed :
    let (x, r') = submit_operator_feedback disputed 7 9 empty in
    let listed = list_operator_feedback_for_execution 1 r' in
    (get_operator_feedback 7 r' ≡ some x)
    × (any (λ y. y.feedback_record_id == 7) listed ≡ true)
    × All (λ y. y.execution_id ≡ 1) listed
    × IsSorted (λ y. y.created_at) listed
    × ((k : ℕ) → k ≢ 7 → get_operator_feedback k r' ≡ get_operator_feedback k empty)
submit_disputed = submit_operator_feedback_lem disputed 7 9 empty

abbrev noted : OperatorFeedback
noted = record {
  feedback_record_id = 7;
  execution_id = 1;
  source = api;
  labels = [];
  detail = end;
  source_scope = none;
  created_at = 9;
  updated_at = some 10;
}

-- Of an execution that is not in the database.
abbrev unknown : OperatorFeedback
unknown = record noted { execution_id = 2 }

abbrev same_fields : Fields → Fields
same_fields d = d

abbrev same_texts : List String → List String
same_texts xs = xs
