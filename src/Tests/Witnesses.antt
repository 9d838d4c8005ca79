-- ===== src/Tests/Witnesses.antt =====
-- Each theorem applied to a small input.
use agentic_ai_platform.Prelude.{
  any, inl, true, ℕ, ◌≡◌, ◌≢◌, ◌↔◌, ◌≤◌, ◌⊎◌, refl, false, none, some, String, List, [], ◌∷◌, take,
  ◌++◌, keep, All, ◌==◌, nat_eq,
}
use agentic_ai_platform.Prelude.Dict.{lookup, values}
use agentic_ai_platform.Value.{str, end, dict, object, Fields}
use agentic_ai_platform.Schemas.{
  execution_status_eq, StepSpec, ExecutionPlan, Execution, ExecutionStatus, ApprovalDecision,
  PolicyDecision, Step, member, StepType, StepStatus, ToolInvokeRequest, ToolCallStatus,
}
use agentic_ai_platform.StateMachine.{is_execution_terminal, validate_execution_transition}
use agentic_ai_platform.StateMachine.Lifecycle.{completed_validated}
use agentic_ai_platform.Repository
use mathlib.Core.List.{Perm}
use agentic_ai_platform.Repository.{list_steps_for_execution}
use agentic_ai_platform.Repository.Listing.{list_steps_for_execution_lem}
use agentic_ai_platform.Prelude.Order.{IsSorted}
use agentic_ai_platform.Exec.{World, Result, ok}
use agentic_ai_platform.Policy.{evaluate_proposal}
use agentic_ai_platform.Policy.Decisions.{
  evaluate-deny_iff, evaluate-allow_iff, Cites, evaluate-in_catalog,
}
use agentic_ai_platform.Planner.{create_plan}
use agentic_ai_platform.Planner.Chain.{create_plan-IsChain, IsChain, Gives}
use agentic_ai_platform.RuntimeMeta.{is_cancellation_requested, mark_queued}
use agentic_ai_platform.RuntimeMeta.Flags.{KeepsPayload, mark_queued_lem}
use agentic_ai_platform.Tools.{
  Surroundings, returned, build_default_registry, find_tool, incident_update, execute,
}
use agentic_ai_platform.Tools.Governed.{runs-execute-mutator, runs-execute-le}
use agentic_ai_platform.Tools.Retries.{runs}
use agentic_ai_platform.Queue.{ExecutionWorkItem, Queue}
use agentic_ai_platform.Worker.{run_until_idle}
use agentic_ai_platform.Worker.Draining.{run_until_idle_drains}
use agentic_ai_platform.Engine.Progress.{StepsKeyed}
use agentic_ai_platform.Queue.Fifo.{enqueue_all, dequeue_all, dequeue_all-enqueue_all}
use agentic_ai_platform.Engine.Ready.{steps_in_plan_order, next_pending_ready}
use agentic_ai_platform.Engine.Choice.{Chosen, next_pending_ready-Chosen}
use agentic_ai_platform.Engine.Refusals.{Governed, finalize_incident_triage_governance-Governed}
use agentic_ai_platform.Engine.Run.{run_execution}
use agentic_ai_platform.Engine.Quiet.{status_of}
use agentic_ai_platform.Engine.Steers.{Advanced}
use agentic_ai_platform.Engine.Services.{cost_tool_input}
use agentic_ai_platform.Engine.CostTools.{execute-cost_tool_input}
use agentic_ai_platform.Service.{
  start_execution, submit_approval, request_cancellation, enqueue_execution,
}
use agentic_ai_platform.Service.{Creation, create_execution}
use agentic_ai_platform.Service.Creating.{create_execution_lifecycle}
use agentic_ai_platform.Schemas.{ExecutionMode}
use agentic_ai_platform.Service.Guarantees.{
  run_execution_lifecycle, start_execution_lifecycle, start_execution_terminal,
  submit_approval_lifecycle, request_cancellation_lifecycle, enqueue_execution_lifecycle,
}
use agentic_ai_platform.Tests.Worlds.{
  waiting, fresh, context, proposal, waiting_world, fresh_world, env, waiting-IsWellFormed,
  fresh-IsWellFormed, no_steps-StepsKeyed, world_of, finished-IsWellFormed, finished,
}

run_fresh :
    (r : Result Execution) × (w' : World) × (run_execution env 1 fresh_world ≡ some (r, w'))
    × Advanced fresh_world w'
run_fresh = run_execution_lifecycle env 1 fresh_world fresh-IsWellFormed (no_steps-StepsKeyed fresh)

start_fresh :
    (r : Result Execution) × (w' : World) × (start_execution env 1 fresh_world ≡ some (r, w'))
    × Advanced fresh_world w'
start_fresh =
    start_execution_lifecycle env 1 fresh_world fresh-IsWellFormed (no_steps-StepsKeyed fresh)

approve_waiting :
    Advanced waiting_world
      (submit_approval env 1 "ann" ApprovalDecision.approve none waiting_world).1
approve_waiting =
    submit_approval_lifecycle env 1 waiting_world "ann" ApprovalDecision.approve none
      waiting-IsWellFormed

cancel_waiting : Advanced waiting_world (request_cancellation 1 "operator" 9 waiting_world).1
cancel_waiting = request_cancellation_lifecycle 1 "operator" 9 waiting_world waiting-IsWellFormed

enqueue_fresh : Advanced fresh_world (enqueue_execution 1 9 [] fresh_world).1
enqueue_fresh = enqueue_execution_lifecycle 1 9 [] fresh_world fresh-IsWellFormed

deny_proposal :
    ((evaluate_proposal context proposal).decision ≡ PolicyDecision.deny)
    ↔ ((proposal.action_type ≢ "escalate_incident") ⊎ (context.policy_scope ≡ "phase3_deny"))
deny_proposal = evaluate-deny_iff context proposal

allow_proposal : ((evaluate_proposal context proposal).decision ≡ PolicyDecision.allow) ↔ (
    (proposal.action_type ≡ "escalate_incident")
    × (context.environment ≢ "prod")
    × (context.policy_scope ≢ "phase3_deny")
    × (context.policy_scope ≢ "phase3_conditional"))
allow_proposal = evaluate-allow_iff context proposal

plan_fresh :
    Gives
      (λ plan after.
        IsChain fresh_world plan × (plan.execution_id ≡ 1) × (after.repo ≡ fresh_world.repo))
      (create_plan fresh 9 fresh_world)
plan_fresh = create_plan-IsChain fresh 9 fresh_world

two_items : List ExecutionWorkItem
two_items =
    record { execution_id = 1; enqueued_at = 5 } ∷ record { execution_id = 2; enqueued_at = 6 } ∷ []

drain_two : dequeue_all 2 (enqueue_all two_items []) ≡ take 2 ([] ++ two_items)
drain_two = dequeue_all-enqueue_all 2 two_items []

abbrev step_a : Step
step_a = record {
  step_id = 5;
  execution_id = 1;
  plan_id = 4;
  step_type = member StepType.tool;
  agent = "cost_correlation_agent_v1";
  input = record {
    planner_step_key = 5;
    planner_step_name = some "correlate_usage_patterns";
    workflow_type = "cost_attribution";
    execution_input = dict (("scope_id", str "team-a") ∷ []);
  };
  status = StepStatus.pending;
  dependencies = [];
  retry_count = 0;
  degraded_allowed = false;
  created_at = 0;
  updated_at = 0;
}

abbrev one_step : Repository.Repository
one_step = record Repository.empty { steps = (5, step_a) ∷ [] }

abbrev request_of : String → Fields → ToolInvokeRequest
request_of name input = record {
  execution_id = 1;
  step_id = 5;
  execution_context_id = 0;
  tool_name = name;
  input = input;
  action_proposal_id = none;
  policy_denied = false;
}

abbrev around : Surroundings
around = record {
  attempt = λ h input k. returned (object end);
  cancelled = λ k. false;
  started_ns = 0;
  ended_ns = 0;
}

cost_call_fails :
    ((execute 7 9
        (request_of "cloud_cost_tool" (cost_tool_input env step_a))
        build_default_registry
        around).1
      ≡ [])
    × ((execute 7 9
          (request_of "cloud_cost_tool" (cost_tool_input env step_a))
          build_default_registry
          around).0.status
        ≢ ToolCallStatus.success)
cost_call_fails =
    execute-cost_tool_input env step_a 7 9
      (request_of "cloud_cost_tool" (cost_tool_input env step_a)) build_default_registry around refl

start_finished :
    (r : Result Execution) × (w' : World) × (start_execution env 1 (world_of finished)
      ≡ some (r, w'))
    × Advanced (world_of finished) w'
start_finished =
    start_execution_lifecycle env 1 (world_of finished) finished-IsWellFormed
      (no_steps-StepsKeyed finished)

finished_stays : status_of 1 start_finished.1 ≡ some ExecutionStatus.completed
unfolding status_of lookup is_execution_terminal
finished_stays =
    start_execution_terminal env 1 1 ExecutionStatus.completed (world_of finished) start_finished.1
      start_finished.0 finished-IsWellFormed refl refl start_finished.2

mutate_once :
    runs
      (execute 7 9 (request_of "incident_system_update_tool" end) build_default_registry around).1
    ≤ 1
unfolding find_tool build_default_registry
mutate_once =
    runs-execute-mutator 7 9 (request_of "incident_system_update_tool" end) around incident_update _
      refl refl

mutate_bounded :
    runs
      (execute 7 9 (request_of "incident_system_update_tool" end) build_default_registry around).1
    ≤ 1
unfolding find_tool build_default_registry
mutate_bounded =
    runs-execute-le 7 9 (request_of "incident_system_update_tool" end) build_default_registry around
      incident_update _ refl

queue_clears :
    (is_cancellation_requested (mark_queued fresh 9) ≡ false)
    × KeepsPayload fresh (mark_queued fresh 9)
queue_clears = mark_queued_lem fresh 9

cited_proposal : Cites context proposal
cited_proposal = evaluate-in_catalog context proposal

list_steps_one :
    Perm
      (list_steps_for_execution 1 one_step)
      (keep (λ s. s.execution_id == 1) (values one_step.steps))
    × All (λ s. s.execution_id ≡ 1) (list_steps_for_execution 1 one_step)
    × IsSorted (λ s. s.created_at) (list_steps_for_execution 1 one_step)
list_steps_one = list_steps_for_execution_lem 1 one_step

abbrev order : Creation
order = record {
  workflow_type = "incident_triage";
  input_payload = end;
  tenant_id = "tenant";
  request_id = "request";
  environment = "prod";
  policy_scope = "default";
  principal_id = none;
  execution_mode = ExecutionMode.background;
  permissions_scope = end;
  parent_execution_id = none;
  feature_flags = none;
}

create_second :
    (e : Execution) × ((create_execution order 9 waiting_world).0 ≡ ok e)
    × (e.status ≡ ExecutionStatus.created)
    × (lookup e.execution_id waiting_world.executions ≡ none)
    × (lookup e.execution_id (create_execution order 9 waiting_world).1.executions ≡ some e)
    × Advanced waiting_world (create_execution order 9 waiting_world).1
create_second = create_execution_lifecycle waiting_world waiting-IsWellFormed order 9

abbrev one_item : Queue
one_item = record { execution_id = 1; enqueued_at = 0 } ∷ []

drain_one_item :
    (r : Result ℕ) × (w' : World) × (q' : Queue) × (run_until_idle env "worker" none one_item
        fresh_world
      ≡ some (r, w', q'))
    × (Advanced fresh_world w' × StepsKeyed w')
    × ((n : ℕ) → r ≡ ok n → (n ≡ 1) × (q' ≡ []))
drain_one_item =
    run_until_idle_drains env "worker" one_item fresh_world fresh-IsWellFormed
      (no_steps-StepsKeyed fresh)

found_context : Repository.get_context 0 waiting_world.repo ≡ some context
unfolding Repository.get_context lookup
found_context = refl

govern_waiting : Governed env waiting [] 9 context waiting_world
govern_waiting =
    finalize_incident_triage_governance-Governed env waiting [] 9 context waiting_world
      found_context

validated_path :
    any
      (λ t. t == ExecutionStatus.validating)
      (ExecutionStatus.planning ∷ ExecutionStatus.executing ∷ ExecutionStatus.validating
        ∷ ExecutionStatus.completed ∷ [])
    ≡ true
unfolding validate_execution_transition
validated_path =
    completed_validated
      (ExecutionStatus.planning ∷ ExecutionStatus.executing ∷ ExecutionStatus.validating
        ∷ ExecutionStatus.completed ∷ [])
      (refl, (refl, (refl, (refl, tt)))) (inl refl)

-- A step that waits for the first one.
abbrev step_b : Step
step_b = record step_a {
  step_id = 6;
  input = record step_a.input { planner_step_key = 6 };
  dependencies = 5 ∷ [];
}

abbrev spec_of : ℕ → StepSpec
spec_of key = record {
  step_key = key;
  step_name = none;
  kind = "tool";
  agent = none;
  degraded_allowed = false;
}

abbrev two_steps : ExecutionPlan
two_steps = record {
  plan_id = 4;
  execution_id = 1;
  parent_plan_id = none;
  plan_version = 1;
  revision_reason = none;
  goal = end;
  steps = spec_of 6 ∷ spec_of 5 ∷ [];
  dependencies = [];
  ordering = [];
  metadata = end;
  created_at = 0;
}

choose_a : Chosen (step_a ∷ step_b ∷ []) two_steps.steps (
    next_pending_ready
      (steps_in_plan_order (step_a ∷ step_b ∷ []) two_steps)
      (step_a ∷ step_b ∷ []))
choose_a =
    next_pending_ready-Chosen (step_a ∷ step_b ∷ []) two_steps (refl, (refl, tt)) (refl, (refl, tt))
