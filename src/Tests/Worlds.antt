-- ===== src/Tests/Worlds.antt =====
-- A small store: one incident triage that waits for an approval, with its proposal.
use agentic_ai_platform.Prelude.{true, none, some, [], ◌∷◌, arith}
use agentic_ai_platform.Prelude.Dict.{lookup}
use agentic_ai_platform.Value.{str, uuid, object, end, dict}
use agentic_ai_platform.Schemas.{
  Execution, ExecutionContext, ExecutionStatus, ExecutionMode, ActionProposal, ActionProposalStatus,
  RiskLevel,
}
use agentic_ai_platform.Repository
use agentic_ai_platform.Exec.{World}
use agentic_ai_platform.Env.{Env, default_settings}
use agentic_ai_platform.Engine.Quiet.{IsWellFormed}
use agentic_ai_platform.Engine.Progress.{StepsKeyed}

abbrev pub waiting : Execution
waiting = record {
  execution_id = 1;
  workflow_type = "incident_triage";
  status = ExecutionStatus.awaiting_approval;
  execution_mode = ExecutionMode.background;
  execution_context_id = 0;
  parent_execution_id = none;
  current_plan_id = none;
  input = dict (("incident_id", str "INC-1") ∷ []);
  result = some (
      dict (
        ("governance", object (dict (("proposal_id", uuid 2) ∷ ("evaluation_id", uuid 3) ∷ [])))
        ∷ []));
  trace_timeline = [];
  validation_summary = none;
  created_at = 0;
  updated_at = 0;
  completed_at = none;
  cancelled_at = none;
}

-- The same execution before it was planned.
abbrev pub fresh : Execution
fresh = record waiting { status = ExecutionStatus.created; result = none }

abbrev pub context : ExecutionContext
context = record {
  context_id = 0;
  tenant_id = "tenant";
  principal_id = none;
  actor = none;
  request_id = "request";
  environment = "prod";
  permissions_scope = end;
  policy_scope = "default";
  feature_flags = none;
  created_at = 0;
  updated_at = 0;
}

abbrev pub proposal : ActionProposal
proposal = record {
  proposal_id = 2;
  execution_id = 1;
  step_id = none;
  action_type = "escalate_incident";
  payload = end;
  risk_level = RiskLevel.high;
  requires_approval = true;
  status = ActionProposalStatus.awaiting_approval;
  created_at = 0;
  updated_at = 0;
}

abbrev pub world_of : Execution → World
world_of e = record {
  repo = record Repository.empty {
    contexts = (0, context) ∷ [];
    executions = (1, e) ∷ [];
    action_proposals = (2, proposal) ∷ [];
  };
  next_uuid = 4;
  clock = 0;
  calls = 0;
}

abbrev pub waiting_world : World
waiting_world = world_of waiting

abbrev pub fresh_world : World
fresh_world = world_of fresh

-- No capability is configured, so that every step runs in the deterministic executor.
abbrev pub env : Env
env = record {
  readings = λ k. k;
  str_of = λ v. "value";
  float_of = λ v. 0;
  sha256 = λ s. 0;
  json_dumps = λ v. "{}";
  uuid_of = λ s. none;
  settings = default_settings;
  tool_runtime = none;
  knowledge = none;
  model_runtime = none;
}

pub waiting-IsWellFormed : IsWellFormed waiting_world
unfolding lookup
waiting-IsWellFormed = record {
  keyed = λ k e h. ground (arith, h);
  given = λ k e h. ground (arith, h);
}

pub fresh-IsWellFormed : IsWellFormed fresh_world
unfolding lookup
fresh-IsWellFormed = record {
  keyed = λ k e h. ground (arith, h);
  given = λ k e h. ground (arith, h);
}

pub no_steps-StepsKeyed : (e : Execution) → StepsKeyed (world_of e)
unfolding lookup
no_steps-StepsKeyed e = λ k s h. absurd cc

abbrev pub finished : Execution
finished = record waiting { status = ExecutionStatus.completed }

pub finished-IsWellFormed : IsWellFormed (world_of finished)
unfolding lookup
finished-IsWellFormed = record {
  keyed = λ k e h. ground (arith, h);
  given = λ k e h. ground (arith, h);
}
