-- ===== src/Engine/Ready.antt =====
-- The helpers of `ExecutionEngine` that compute with steps and plans and touch no state: order of
-- the plan, readiness, the validation phase, and which capability a step uses.
use Prim.Native.Char.{code}
use agentic_ai_platform.Prelude.{
  ℕ, ◌+◌, Bool, true, false, not, ◌&&◌, ◌||◌, Option, none, some, String, List, [], ◌∷◌, ◌==◌,
  nat_eq, ◌++◌, string_eq, if◌then◌else◌, leb, keep, any, all, is_empty,
}
use agentic_ai_platform.Prelude.Dict.{Dict, lookup, put}
use agentic_ai_platform.Value.{Value, Fields, str, dict}
use agentic_ai_platform.Schemas.{
  Execution, ExecutionPlan, StepSpec, Step, StepKind, member, named, StepType, StepStatus,
  ExecutionStatus, execution_status_eq, step_status_eq, execution_status_value,
}
use agentic_ai_platform.StateMachine.{validate_execution_transition}
use agentic_ai_platform.Exec.{
  Exec, pure, raise, key_error, uuid4, if_some, require, collect, ◌>>=◌, ◌>>◌,
}
use agentic_ai_platform.Env.{Env, OrchestratorSettings}

-- `_append_timeline`
unfoldable pub append_timeline : Execution → String → Fields → ℕ → Execution
append_timeline e event_type detail now = record e {
  trace_timeline =
      e.trace_timeline ++ record { event_type = event_type; at = now; detail = detail } ∷ [];
  updated_at = now;
}

-- The two writes that change a status: the new status, and its row in the timeline.
unfoldable pub status_row : ExecutionStatus → List (String × Value) → Fields
status_row s more = dict (("status", str (execution_status_value s)) ∷ more)

-- The characters of a text, with the capital letters of ASCII made small.
lower_codes : String → List ℕ
lower_codes String.[] = []
lower_codes (String.◌∷◌ c s) =
    let k = code c in (if leb b'A' k && leb k b'Z' then k + 32 else k) ∷ lower_codes s

same_codes : List ℕ → List ℕ → Bool
same_codes [] [] = true
same_codes (a ∷ xs) (b ∷ ys) = a == b && same_codes xs ys
same_codes _ _ = false

-- `_is_validation_step`. No letter outside ASCII becomes a letter of "validation" under `lower`.
unfoldable pub is_validation_step : Step → Bool
unfolding lower_codes same_codes
is_validation_step s = elim s.step_type [
  | member StepType.validation ↦ true
  | member _ ↦ false
  | named kind ↦ same_codes (lower_codes kind) (lower_codes "validation")
]

abbrev pub succeeded : Step → Bool
succeeded s = s.status == StepStatus.succeeded

abbrev pub pending : Step → Bool
pending s = s.status == StepStatus.pending

-- `by_key` of `_steps_in_plan_order`: the last step with a key wins.
unfoldable pub by_key : List Step → Dict Step → Dict Step
by_key [] d = d
by_key (s ∷ steps) d = by_key steps (put s.input.planner_step_key s d)

unfoldable pub in_order : Dict Step → List StepSpec → List Step
in_order d [] = []
in_order d (spec ∷ specs) =
    let rest = in_order d specs in if_some (lookup spec.step_key d) rest (λ s. s ∷ rest)

unfoldable pub steps_in_plan_order : List Step → ExecutionPlan → List Step
unfolding by_key in_order if_some
steps_in_plan_order steps plan = in_order (by_key steps []) plan.steps

-- `{s.step_id: s for s in all_steps}`
unfoldable pub by_id : List Step → Dict Step → Dict Step
by_id [] d = d
by_id (s ∷ steps) d = by_id steps (put s.step_id s d)

-- `_is_ready`: every dependency is a step that succeeded.
unfoldable pub is_ready : Step → List Step → Bool
unfolding by_id if_some
is_ready step all_steps =
    all (λ dep. if_some (lookup dep (by_id all_steps [])) false succeeded) step.dependencies

unfoldable pub next_pending_ready : List Step → List Step → Option Step
next_pending_ready [] all_steps = none
next_pending_ready (s ∷ ordered) all_steps =
    let rest = next_pending_ready ordered all_steps in
    if pending s && is_ready s all_steps then some s else rest

-- `_maybe_enter_validating`
unfoldable pub should_enter_validating : Execution → List Step → Bool
should_enter_validating e steps =
    let non_val = keep (λ s. not (is_validation_step s)) steps in
    let val_steps = keep is_validation_step steps in
    e.status == ExecutionStatus.executing
    && any is_validation_step steps
    && not (is_empty val_steps)
    && not (is_empty non_val)
    && all succeeded non_val
    && any pending val_steps

unfoldable pub enter_validating : Execution → ℕ → Exec Execution
enter_validating e now = do
  require (validate_execution_transition ExecutionStatus.executing ExecutionStatus.validating)
  pure (
      append_timeline (record e { status = ExecutionStatus.validating; updated_at = now })
        "execution_status" (status_row ExecutionStatus.validating []) now)

unfoldable pub maybe_enter_validating : Execution → List Step → ℕ → Exec Execution
maybe_enter_validating e steps now =
    if should_enter_validating e steps then enter_validating e now else pure e

abbrev pub named_step : Step → String → Bool
named_step s name = if_some s.input.planner_step_name false (λ n. n == name)

-- `_should_use_tooling_for_step`
unfoldable pub should_use_tooling_for_step : Env → Step → Bool
unfolding if_some
should_use_tooling_for_step env s = if_some env.tool_runtime false λ _.
    if_some env.knowledge false λ _.
      s.input.workflow_type == "incident_triage" && named_step s "gather_evidence"
      || s.input.workflow_type == "cost_attribution"
        && (named_step s "retrieve_cost_evidence" || named_step s "correlate_usage_patterns")

-- `_should_use_model_for_step`
unfoldable pub should_use_model_for_step : Env → Step → Bool
unfolding if_some
should_use_model_for_step env s = if_some env.model_runtime false λ _.
    if s.input.workflow_type == "incident_triage"
    then named_step s "analyze_incident" || named_step s "validate_incident"
    else s.input.workflow_type == "cost_attribution"
      && (named_step s "analyze_cost_anomaly" || named_step s "validate_cost_attribution")

-- `kind` of a specification as a step type.
unfoldable pub step_type_of : String → StepKind
step_type_of kind =
    if kind == "validation"
    then member StepType.validation
    else if kind == "reasoning"
    then member StepType.reasoning
    else if kind == "retrieval"
    then member StepType.retrieval
    else if kind == "tool"
    then member StepType.tool
    else named kind

-- `spec.get("agent") or …`
agent_of : OrchestratorSettings → StepSpec → String
agent_of settings spec =
    let default =
      if spec.kind == "validation"
      then settings.default_agent_validation
      else if spec.kind == "retrieval"
      then settings.default_agent_retrieval
      else settings.default_agent_reasoning in
    if_some spec.agent default (λ a. if a == "" then default else a)

-- `key_to_id`
unfoldable pub assign_ids : List StepSpec → Dict ℕ → Exec (Dict ℕ)
assign_ids [] d = pure d
assign_ids (spec ∷ specs) d = λ w. assign_ids specs (put spec.step_key w.next_uuid d) (uuid4 w).1

-- `key_to_id[key]`
unfoldable pub id_of : Dict ℕ → ℕ → Exec ℕ
id_of ids key = if_some (lookup key ids) (raise key_error) pure

unfoldable pub instantiate_step :
    Env → Dict ℕ → ExecutionPlan → Execution → ℕ → StepSpec → Exec Step
unfolding agent_of id_of
instantiate_step env ids plan e now spec = do
  sid ← id_of ids spec.step_key
  deps ←
      collect (keep (λ edge. edge.to_step == spec.step_key) plan.dependencies)
        (λ edge. id_of ids edge.from_step)
  pure (record {
    step_id = sid;
    execution_id = e.execution_id;
    plan_id = plan.plan_id;
    step_type = step_type_of spec.kind;
    agent = agent_of env.settings spec;
    input = record {
      planner_step_key = spec.step_key;
      planner_step_name = spec.step_name;
      workflow_type = e.workflow_type;
      execution_input = e.input;
    };
    status = StepStatus.pending;
    dependencies = deps;
    retry_count = 0;
    degraded_allowed = spec.degraded_allowed;
    created_at = now;
    updated_at = now;
  })

-- `_instantiate_steps`
unfoldable pub instantiate_steps : Env → ExecutionPlan → Execution → ℕ → Exec (List Step)
unfolding assign_ids instantiate_step
instantiate_steps env plan e now = do
  ids ← assign_ids plan.steps []
  collect plan.steps (instantiate_step env ids plan e now)
