-- ===== src/Engine/Run.antt =====
-- `run_execution`: planning, then the loop that runs one ready step in each turn until the
-- execution ends, waits for an approval, or raises.
use agentic_ai_platform.Prelude.{
  ℕ, zero, suc, Option, none, some, List, [], ◌∷◌, ◌==◌, string_eq, all, any, if◌then◌else◌,
}
use agentic_ai_platform.Prelude.Dict.{count}
use agentic_ai_platform.Value.{uuid}
use agentic_ai_platform.Schemas.{
  Execution, ExecutionPlan, Step, ExecutionStatus, execution_status_eq,
}
use agentic_ai_platform.StateMachine.{is_execution_terminal, validate_execution_transition}
use agentic_ai_platform.RuntimeMeta.{is_cancellation_requested}
use agentic_ai_platform.Repository
use agentic_ai_platform.Planner.{create_plan}
use agentic_ai_platform.Exec.{
  Exec, World, Result, ok, err, pure, raise, key_error, assertion_error, orchestration_error, reads,
  saves, now_utc, require, if_some, for_each, ◌>>=◌, ◌>>◌,
}
use agentic_ai_platform.Env.{Env}
use agentic_ai_platform.Engine.Ready.{
  append_timeline, status_row, steps_in_plan_order, next_pending_ready, instantiate_steps,
  maybe_enter_validating, succeeded, pending,
}
use agentic_ai_platform.Engine.Trace.{get_execution, update_execution}
use agentic_ai_platform.Engine.RunStep.{run_step}
use agentic_ai_platform.Engine.Governance.{
  build_completion_result, validation_summary_from_steps, finalize_incident_triage_governance,
}
use agentic_ai_platform.Engine.Cancel.{store, cancel_execution}

-- How a turn of the loop ends: `continue`, or `return ex`.
pub data Turn : Type 0 where
  again : Turn
  done : Execution → Turn

abbrev pub Outcome : Type 0
Outcome = Option (Result Execution × World)

-- What follows a turn: an exception and a `return` end the loop.
unfoldable pub after : Result Turn → (World → Outcome) → World → Outcome
after (err why) rest w = some (err why, w)
after (ok (done e)) rest w = some (ok e, w)
after (ok again) rest w = rest w

module _ (env : Env) where
  -- CREATED to PLANNING
  unfoldable pub begin_planning : Execution → ℕ → Exec Execution
  begin_planning e now = do
    require (validate_execution_transition ExecutionStatus.created ExecutionStatus.planning)
    store (
        append_timeline (record e { status = ExecutionStatus.planning; updated_at = now })
          "execution_status" (status_row ExecutionStatus.planning []) now)

  -- PLANNING to EXECUTING: the plan and its steps are saved first.
  unfoldable pub enter_executing : Execution → ℕ → Exec Execution
  enter_executing e now = do
    plan ← create_plan e now
    saves (Repository.save_plan plan)
    built ← instantiate_steps env plan e now
    for_each built (λ step. saves (Repository.save_step step))
    require (validate_execution_transition ExecutionStatus.planning ExecutionStatus.executing)
    store (
        append_timeline
          (record e {
            current_plan_id = some plan.plan_id;
            status = ExecutionStatus.executing;
            updated_at = now;
          })
          "execution_status"
          (status_row ExecutionStatus.executing (("plan_id", uuid plan.plan_id) ∷ [])) now)

  -- VALIDATING to COMPLETED, for the workflows without governance
  unfoldable pub complete : Execution → List Step → ℕ → Exec Execution
  complete e steps now = do
    require (validate_execution_transition ExecutionStatus.validating ExecutionStatus.completed)
    summary ← reads (λ w. validation_summary_from_steps steps w.repo)
    payload ← reads (λ w. build_completion_result env e steps w.repo)
    store (
        append_timeline
          (record e {
            status = ExecutionStatus.completed;
            updated_at = now;
            completed_at = some now;
            validation_summary = some summary;
            result = some payload;
          })
          "execution_status" (status_row ExecutionStatus.completed []) now)

  -- No pending step is ready, and not every step has succeeded.
  unfoldable pub give_up : List Step → Exec Execution
  give_up steps = raise (
      orchestration_error (
        if any pending steps
        then "deadlock: pending steps but none are ready"
        else "unexpected step set state"))

  unfoldable pub finalize : Execution → List Step → ℕ → Exec Execution
  finalize e steps now = do e1 ← finalize_incident_triage_governance env e steps now; store e1

  -- What a turn does where no step is left to run.
  unfoldable pub settle_all : Execution → List Step → ℕ → Exec Execution
  settle_all e steps now =
      if e.status == ExecutionStatus.validating
      then (if e.workflow_type == "incident_triage"
          then finalize e steps now
          else complete e steps now)
      else if e.status == ExecutionStatus.executing
      then raise (
          orchestration_error
            "invariant violated: all steps succeeded but execution not in VALIDATING (validation phase required before completion per constitution §6.1)")
      else give_up steps

  unfoldable pub settle : Execution → List Step → Exec Execution
  settle e steps =
      if all succeeded steps then now_utc env.readings >>= settle_all e steps else give_up steps

  -- `self._repo.get_plan(ex.current_plan_id) if ex.current_plan_id else None`
  unfoldable pub plan_of : Execution → Exec (Option ExecutionPlan)
  plan_of e = reads (λ w. if_some e.current_plan_id none (λ id. Repository.get_plan id w.repo))

  unfoldable pub return_it : Exec Execution → Exec Turn
  return_it m = do e ← m; pure (done e)

  -- Run the chosen step and continue, or settle.
  unfoldable pub step_or_settle : Execution → List Step → Option Step → ℕ → Exec Turn
  step_or_settle e steps none now = return_it (settle e steps)
  step_or_settle e steps (some s) now = do run_step env s.step_id now; pure again

  -- The turn after the second reading of the execution.
  unfoldable pub pick_step : ℕ → ExecutionPlan → ℕ → Execution → Exec Turn
  pick_step id plan now e = if is_execution_terminal e.status then pure (done e) else (do
    steps ← reads (λ w. Repository.list_steps_for_execution id w.repo)
    step_or_settle e steps (next_pending_ready (steps_in_plan_order steps plan) steps) now)

  -- `get_execution(execution_id)` with `assert ex is not None`
  unfoldable pub work : ℕ → ExecutionPlan → ℕ → Exec Turn
  work id plan now = do
    found ← get_execution id
    if_some found (raise assertion_error) (pick_step id plan now)

  -- The turn of an execution that is neither cancelled, waiting nor terminal.
  unfoldable pub advance : ℕ → Execution → Exec Turn
  advance id e = do
    steps ← reads (λ w. Repository.list_steps_for_execution id w.repo)
    found ← plan_of e
    if_some found (raise (orchestration_error "execution has no resolvable plan")) λ plan. do
      now ← now_utc env.readings
      e1 ← maybe_enter_validating e steps now
      update_execution e1
      work id plan now

  unfoldable pub turn_of : ℕ → Execution → Exec Turn
  turn_of id e =
      if is_cancellation_requested e
      then (do
        now ← now_utc env.readings
        return_it (cancel_execution id "cancellation_requested" now))
      else if e.status == ExecutionStatus.awaiting_approval
      then pure (done e)
      else if is_execution_terminal e.status
      then pure (done e)
      else advance id e

  -- One turn of `while True`.
  unfoldable pub turn : ℕ → Exec Turn
  turn id = do found ← get_execution id; if_some found (raise assertion_error) (turn_of id)

  -- The loop on fuel: `none` means that the fuel ran out.
  unfoldable pub loop : ℕ → ℕ → World → Outcome
  loop zero id w = none
  loop (suc fuel) id w = let (r, w') = turn id w in after r (loop fuel id) w'

  -- `if ex.status == CREATED`, then `if ex.status == PLANNING`
  unfoldable pub plan_phase : Execution → ℕ → Exec (Option Execution)
  plan_phase e now = do
    e1 ← if e.status == ExecutionStatus.created then begin_planning e now else pure e
    if e1.status == ExecutionStatus.planning then enter_executing e1 now >> pure none else pure none

  -- What `run_execution` does before the loop: `some` is an early return.
  unfoldable pub prepare : ℕ → Exec (Option Execution)
  prepare id = do
    found ← get_execution id
    if_some found (raise key_error) λ e. do
      now ← now_utc env.readings
      if is_execution_terminal e.status then pure (some e) else plan_phase e now

  unfoldable pub enter : ℕ → ℕ → Result (Option Execution) → World → Outcome
  enter fuel id (err why) w = some (err why, w)
  enter fuel id (ok (some e)) w = some (ok e, w)
  enter fuel id (ok none) w = loop fuel id w

  -- The fuel is one more than the number of pending steps when the loop starts.
  unfoldable pub run_execution : ℕ → World → Outcome
  run_execution id w = let (r, w') = prepare id w in enter (suc (count pending w'.steps)) id r w'
