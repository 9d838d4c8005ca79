-- ===== src/Replay/Snapshot.antt =====
-- `a.model_dump(mode="json") == b.model_dump(mode="json")` of two executions, in
-- services/orchestrator/app/services/replay_service.py and replay_diff_service.py.
use agentic_ai_platform.Prelude.{
  ℕ, ◌≡◌, refl, Bool, true, false, ◌&&◌, Option, none, some, List, [], ◌∷◌, Eq, ◌==◌, nat_eq,
  string_eq, all,
}
use agentic_ai_platform.Value.{Fields}
use agentic_ai_platform.Value.Same.{fields_eq, fields_eq_refl}
use agentic_ai_platform.Schemas.{Execution, TraceRow, execution_status_eq, execution_mode_value}

module _ {ℓ} {A : Type ℓ} (same : A → A → Bool) where
  unfoldable pub option_eq : Option A → Option A → Bool
  option_eq none none = true
  option_eq (some a) (some b) = same a b
  option_eq _ _ = false

  unfoldable pub list_eq : List A → List A → Bool
  list_eq [] [] = true
  list_eq (x ∷ xs) (y ∷ ys) = same x y && list_eq xs ys
  list_eq _ _ = false

  pub option_eq_refl : ((a : A) → same a a ≡ true) → (o : Option A) → option_eq o o ≡ true
  unfolding option_eq
  option_eq_refl h none = refl
  option_eq_refl h (some a) = h a

  pub list_eq_refl : ((a : A) → same a a ≡ true) → (xs : List A) → list_eq xs xs ≡ true
  unfolding list_eq
  list_eq_refl h [] = refl
  list_eq_refl h (x ∷ xs) = rw (h x) (list_eq_refl h xs)

pub same_refl {ℓ} : {A : Type ℓ} ⦃test : Eq A⦄ (a : A) → (a == a) ≡ true
same_refl ⦃test⦄ a = (test.same_iff a a).1 refl

same_row : TraceRow → TraceRow → Bool
same_row a b = a.event_type == b.event_type && a.at == b.at && fields_eq a.detail b.detail

same_row_refl : (a : TraceRow) → same_row a a ≡ true
unfolding same_row
same_row_refl a = rw (same_refl a.event_type) (rw (same_refl a.at) (fields_eq_refl a.detail))

abbrev same_id : ℕ → ℕ → Bool
same_id a b = a == b

-- Each of several tests.
abbrev pub every : List Bool → Bool
every bs = all (λ b. b) bs

-- Field by field.
comparisons : Execution → Execution → List Bool
unfolding same_row
comparisons a b =
    (a.execution_id == b.execution_id)
    ∷ (a.workflow_type == b.workflow_type)
    ∷ (a.status == b.status)
    ∷ (execution_mode_value a.execution_mode == execution_mode_value b.execution_mode)
    ∷ (a.execution_context_id == b.execution_context_id)
    ∷ option_eq same_id a.parent_execution_id b.parent_execution_id
    ∷ option_eq same_id a.current_plan_id b.current_plan_id
    ∷ fields_eq a.input b.input
    ∷ option_eq fields_eq a.result b.result
    ∷ list_eq same_row a.trace_timeline b.trace_timeline
    ∷ option_eq fields_eq a.validation_summary b.validation_summary
    ∷ (a.created_at == b.created_at)
    ∷ (a.updated_at == b.updated_at)
    ∷ option_eq same_id a.completed_at b.completed_at
    ∷ option_eq same_id a.cancelled_at b.cancelled_at
    ∷ []

unfoldable pub same_execution : Execution → Execution → Bool
unfolding comparisons
same_execution a b = every (comparisons a b)

option_id_refl : (o : Option ℕ) → option_eq same_id o o ≡ true
option_id_refl o = option_eq_refl same_id (λ a. same_refl a) o

option_fields_refl : (o : Option Fields) → option_eq fields_eq o o ≡ true
option_fields_refl o = option_eq_refl fields_eq fields_eq_refl o

-- An execution is the same as itself.
pub same_execution_refl : (e : Execution) → same_execution e e ≡ true
unfolding same_execution comparisons
same_execution_refl e =
    rw
      (
        same_refl e.execution_id,
        same_refl e.workflow_type,
        same_refl e.status,
        same_refl (execution_mode_value e.execution_mode),
        same_refl e.execution_context_id,
        option_id_refl e.parent_execution_id,
        option_id_refl e.current_plan_id,
        fields_eq_refl e.input,
        option_fields_refl e.result,
        list_eq_refl same_row same_row_refl e.trace_timeline,
        option_fields_refl e.validation_summary,
        same_refl e.created_at,
        same_refl e.updated_at,
        option_id_refl e.completed_at,
        option_id_refl e.cancelled_at,
      )
      refl
