-- ===== src/Feedback/Postgres.antt =====
-- services/feedback-service/feedback_service/repository.py: `PostgresFeedbackRepository` for the
-- feedback of operators, on the table of feedback_service/models.py. A table is its rows by primary
-- key: `insert … on conflict do update` writes the row of a key, `session.get` reads it. The rows of
-- the table `executions`, to which the foreign key refers, are a list of identifiers, and no
-- execution is deleted in between. What a JSONB column gives back for a list of texts or for a
-- dictionary is a parameter.
use agentic_ai_platform.Prelude.{
  ℕ, Bool, Option, none, some, String, List, [], ◌∷◌, any, ◌==◌, nat_eq, if◌then◌else◌,
}
use agentic_ai_platform.Prelude.Dict.{Dict, lookup, put, map_values}
use agentic_ai_platform.Value.{Fields}
use agentic_ai_platform.Feedback.{OperatorFeedback, FeedbackRepository, save_operator_feedback}
use agentic_ai_platform.Feedback.Rows.{OperatorFeedbackRow, op_to_row, row_to_op}

abbrev pub Table : Type 0
Table = Dict OperatorFeedbackRow

read_row : Option OperatorFeedbackRow → Option OperatorFeedback
read_row none = none
read_row (some row) = row_to_op row

-- `get_operator_feedback`
unfoldable pub get_row : ℕ → Table → Option OperatorFeedback
unfolding read_row
get_row id t = read_row (lookup id t)

-- Several saves, one after the other, in memory.
unfoldable pub save_records : List OperatorFeedback → FeedbackRepository → FeedbackRepository
save_records [] r = r
save_records (x ∷ xs) r = save_records xs (save_operator_feedback x r)

-- No record at all.
abbrev pub empty : FeedbackRepository
empty = record { operator = []; mukti = [] }

-- The execution of a feedback is in the table `executions`.
abbrev pub is_referenced : List ℕ → OperatorFeedback → Bool
is_referenced executions x = any (λ id. id == x.execution_id) executions

abbrev pub column {ℓ} : {A : Type ℓ} → (A → A) → Option A → Option A
column f none = none
column f (some a) = some (f a)

module _ (executions : List ℕ) (jsonb : Fields → Fields)
    (jsonb_texts : List String → List String) where
  -- A row as the database gives it back.
  abbrev pub stored : OperatorFeedbackRow → OperatorFeedbackRow
  stored row = record row {
    labels = jsonb_texts row.labels;
    detail = jsonb row.detail;
    source_scope = column jsonb row.source_scope;
  }

  -- `save_operator_feedback`: every column but the key is set anew where the key is there; `none`
  -- where the foreign key is violated, and `IntegrityError` is raised with nothing stored.
  unfoldable pub save_row : OperatorFeedback → Table → Option Table
  save_row x t =
      let row = op_to_row x in
      if is_referenced executions x then some (put row.feedback_record_id (stored row) t) else none

  -- The table after a save that may have been refused.
  abbrev pub table_after : Table → Option Table → Table
  table_after t none = t
  table_after t (some t') = t'

  -- Several saves, one after the other.
  unfoldable pub save_rows : List OperatorFeedback → Table → Table
  save_rows [] t = t
  save_rows (x ∷ xs) t = save_rows xs (table_after t (save_row x t))

  -- A record after the columns of its row.
  abbrev pub through : OperatorFeedback → OperatorFeedback
  through x = record x {
    labels = jsonb_texts x.labels;
    detail = jsonb x.detail;
    source_scope = column jsonb x.source_scope;
  }

  -- The table that stands for a repository in memory.
  abbrev table_of : Dict OperatorFeedback → Table
  table_of d = map_values (λ x. stored (op_to_row x)) d
