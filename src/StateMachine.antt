-- ===== src/StateMachine.antt =====
-- services/orchestrator/app/runtime/state_machine.py: the permitted transitions of executions and
-- of steps, and the two checks that raise.
pub mod Lifecycle
use agentic_ai_platform.Prelude.{
  Bool, true, false, not, ◌&&◌, ◌||◌, List, [], ◌∷◌, any, ◌==◌, if◌then◌else◌,
}
use agentic_ai_platform.Schemas.{ExecutionStatus, StepStatus, execution_status_eq, step_status_eq}

-- The members of `_EXECUTION_ALLOWED`.
unfoldable pub execution_allowed : List (ExecutionStatus × ExecutionStatus)
execution_allowed =
    (ExecutionStatus.created, ExecutionStatus.planning)
    ∷ (ExecutionStatus.created, ExecutionStatus.failed)
    ∷ (ExecutionStatus.created, ExecutionStatus.cancelled)
    ∷ (ExecutionStatus.planning, ExecutionStatus.executing)
    ∷ (ExecutionStatus.planning, ExecutionStatus.failed)
    ∷ (ExecutionStatus.planning, ExecutionStatus.cancelled)
    ∷ (ExecutionStatus.executing, ExecutionStatus.validating)
    ∷ (ExecutionStatus.executing, ExecutionStatus.failed)
    ∷ (ExecutionStatus.executing, ExecutionStatus.cancelled)
    ∷ (ExecutionStatus.validating, ExecutionStatus.completed)
    ∷ (ExecutionStatus.validating, ExecutionStatus.executing)
    ∷ (ExecutionStatus.validating, ExecutionStatus.failed)
    ∷ (ExecutionStatus.validating, ExecutionStatus.awaiting_approval)
    ∷ (ExecutionStatus.validating, ExecutionStatus.cancelled)
    ∷ (ExecutionStatus.awaiting_approval, ExecutionStatus.completed)
    ∷ (ExecutionStatus.awaiting_approval, ExecutionStatus.failed)
    ∷ (ExecutionStatus.awaiting_approval, ExecutionStatus.cancelled)
    ∷ []

-- The members of `_STEP_ALLOWED`.
unfoldable pub step_allowed : List (StepStatus × StepStatus)
step_allowed =
    (StepStatus.pending, StepStatus.running)
    ∷ (StepStatus.pending, StepStatus.skipped)
    ∷ (StepStatus.pending, StepStatus.cancelled)
    ∷ (StepStatus.running, StepStatus.succeeded)
    ∷ (StepStatus.running, StepStatus.failed)
    ∷ (StepStatus.running, StepStatus.cancelled)
    ∷ []

-- The two messages of `InvalidStatusTransitionError`.
pub data Rejection : Type 0 where
  terminal not_allowed : Rejection

pub data Verdict : Type 0 where
  permitted : Verdict
  refused : Rejection → Verdict

unfoldable pub is_execution_terminal : ExecutionStatus → Bool
is_execution_terminal ExecutionStatus.completed = true
is_execution_terminal ExecutionStatus.failed = true
is_execution_terminal ExecutionStatus.cancelled = true
is_execution_terminal _ = false

unfoldable pub is_step_terminal : StepStatus → Bool
is_step_terminal StepStatus.succeeded = true
is_step_terminal StepStatus.failed = true
is_step_terminal StepStatus.skipped = true
is_step_terminal StepStatus.cancelled = true
is_step_terminal _ = false

unfoldable pub validate_execution_transition : ExecutionStatus → ExecutionStatus → Verdict
unfolding is_execution_terminal execution_allowed
validate_execution_transition from to =
    if is_execution_terminal from && not (from == to)
    then refused terminal
    else if any (λ edge. edge.0 == from && edge.1 == to) execution_allowed
    then permitted
    else refused not_allowed

unfoldable pub validate_step_transition : StepStatus → StepStatus → Verdict
unfolding is_step_terminal step_allowed
validate_step_transition from to =
    if is_step_terminal from && not (from == to)
    then refused terminal
    else if any (λ edge. edge.0 == from && edge.1 == to) step_allowed
    then permitted
    else refused not_allowed
