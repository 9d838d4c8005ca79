-- ===== src/Planner.antt =====
-- services/orchestrator/app/runtime/planner.py: the plan of each workflow. The engine always passes
-- the time, so `create_plan` takes it.
pub mod Chain
use agentic_ai_platform.Prelude.{
  ℕ, false, Option, none, some, String, List, [], ◌∷◌, ◌==◌, string_eq, if◌then◌else◌,
}
use agentic_ai_platform.Value.{Value, Items, Fields, end, field, nil, cons, str, list, dict, put}
use agentic_ai_platform.Schemas.{Execution, ExecutionPlan, StepSpec, Edge}
use agentic_ai_platform.Exec.{Exec, pure, uuid4, ◌>>=◌}

-- `list(d.keys())`
keys : Fields → Items
keys end = nil
keys (field k v d) = cons (str k) (keys d)

abbrev spec : ℕ → String → String → String → StepSpec
spec key name kind agent = record {
  step_key = key;
  step_name = some name;
  kind = kind;
  agent = some agent;
  degraded_allowed = false;
}

abbrev edge : ℕ → ℕ → Edge
edge from to = record { from_step = from; to_step = to }

-- The `ExecutionPlan(…)` that the three planners share.
plan_of :
    Execution
    → (plan_id ts : ℕ) → List StepSpec
    → List Edge
    → List (List ℕ)
    → Fields
    → ExecutionPlan
unfolding keys
plan_of e plan_id ts steps dependencies ordering metadata = record {
  plan_id = plan_id;
  execution_id = e.execution_id;
  parent_plan_id = none;
  plan_version = 1;
  revision_reason = some "initial_plan";
  goal =
      dict (("workflow_type", str e.workflow_type) ∷ ("from_input_keys", list (keys e.input)) ∷ []);
  steps = steps;
  dependencies = dependencies;
  ordering = ordering;
  metadata = metadata;
  created_at = ts;
}

-- `default_plan_metadata or {"planner": "deterministic_v1"}`
abbrev pub default_plan_metadata : Fields
default_plan_metadata = dict (("planner", str "deterministic_v1") ∷ [])

unfoldable pub plan_incident_triage : Execution → ℕ → ℕ → Exec ExecutionPlan
unfolding plan_of pure uuid4 ◌>>=◌
plan_incident_triage e plan_id ts = do
  analyze ← uuid4
  gather ← uuid4
  validate ← uuid4
  pure (
      plan_of e plan_id ts
        (spec analyze "analyze_incident" "reasoning" "incident_analysis_agent_v1"
          ∷ spec gather "gather_evidence" "retrieval" "incident_retrieval_agent_v1"
          ∷ spec validate "validate_incident" "validation" "incident_validation_agent_v1"
          ∷ [])
        (edge analyze gather ∷ edge gather validate ∷ []) ((analyze ∷ gather ∷ validate ∷ []) ∷ [])
        (put "planner" (str "deterministic_incident_triage_v1") default_plan_metadata))

unfoldable pub plan_cost_attribution : Execution → ℕ → ℕ → Exec ExecutionPlan
unfolding plan_of pure uuid4 ◌>>=◌
plan_cost_attribution e plan_id ts = do
  analyze ← uuid4
  retrieve ← uuid4
  correlate ← uuid4
  validate ← uuid4
  pure (
      plan_of e plan_id ts
        (spec analyze "analyze_cost_anomaly" "reasoning" "cost_analysis_agent_v1"
          ∷ spec retrieve "retrieve_cost_evidence" "retrieval" "cost_retrieval_agent_v1"
          ∷ spec correlate "correlate_usage_patterns" "tool" "cost_correlation_agent_v1"
          ∷ spec validate "validate_cost_attribution" "validation" "cost_validation_agent_v1"
          ∷ [])
        (edge analyze retrieve ∷ edge retrieve correlate ∷ edge correlate validate ∷ [])
        ((analyze ∷ retrieve ∷ correlate ∷ validate ∷ []) ∷ [])
        (put "planner" (str "deterministic_cost_attribution_v1") default_plan_metadata))

unfoldable pub plan_default : Execution → ℕ → ℕ → Exec ExecutionPlan
unfolding plan_of pure uuid4 ◌>>=◌
plan_default e plan_id ts = do
  reasoning ← uuid4
  validation ← uuid4
  pure (
      plan_of e plan_id ts
        (spec reasoning "reasoning" "reasoning" "reasoning_agent_v1"
          ∷ spec validation "validation" "validation" "validation_agent_v1"
          ∷ [])
        (edge reasoning validation ∷ []) ((reasoning ∷ validation ∷ []) ∷ []) default_plan_metadata)

-- The plan of a workflow, when its identifier is given.
unfoldable pub plan_for : Execution → ℕ → ℕ → Exec ExecutionPlan
unfolding plan_incident_triage plan_cost_attribution plan_default
plan_for e plan_id ts =
    if e.workflow_type == "incident_triage"
    then plan_incident_triage e plan_id ts
    else if e.workflow_type == "cost_attribution"
    then plan_cost_attribution e plan_id ts
    else plan_default e plan_id ts

unfoldable pub create_plan : Execution → ℕ → Exec ExecutionPlan
unfolding uuid4 ◌>>=◌
create_plan e ts = do plan_id ← uuid4; plan_for e plan_id ts
