-- ===== src/Engine/Calm.antt =====
-- The planner, the making of steps and the run of a step move no execution to another status.
use agentic_ai_platform.Prelude.{ℕ, List, [], ◌∷◌}
use agentic_ai_platform.Prelude.Dict.{Dict, put}
use agentic_ai_platform.Schemas.{Execution, execution_status_eq, Step, ExecutionPlan, StepSpec}
use agentic_ai_platform.Planner.{
  create_plan, plan_for, plan_incident_triage, plan_cost_attribution, plan_default,
}
use agentic_ai_platform.Exec.{uuid4}
use agentic_ai_platform.Exec.Keeps.{Keeps, Keeps-pure, keeps_rules}
use agentic_ai_platform.Env.{Env}
use agentic_ai_platform.Engine.Ready.{instantiate_steps, instantiate_step, assign_ids, id_of}
use agentic_ai_platform.Engine.RunStep.{run_step, start_step, finish_step, validation_row}
use agentic_ai_platform.Engine.Quiet.{Quiet, Quiet-uuid4, quiet_rules}
use agentic_ai_platform.Engine.Work.{step_work-Quiet}
use agentic_ai_platform.Engine.Still.{Still}
use agentic_ai_platform.Engine.Motion.{calm, still_rules}

-- A step's run
pub Still-start_step : (id now : ℕ) → Keeps Still (start_step id now)
unfolding start_step
Still-start_step id now = search (still_rules) depth 24

pub Still-finish_step : (s : Step) (x : _) (now : ℕ) → Keeps Still (finish_step s x now)
unfolding finish_step validation_row
Still-finish_step s x now = search (still_rules) depth 24

pub run_step-Still : (env : Env) (id now : ℕ) → Keeps Still (run_step env id now)
unfolding run_step
run_step-Still env id now =
    search (still_rules, Still-start_step, Still-finish_step, step_work-Quiet) depth 24

pub Quiet-plan_for : (e : Execution) (id ts : ℕ) → Keeps Quiet (plan_for e id ts)
unfolding plan_for plan_incident_triage plan_cost_attribution plan_default
Quiet-plan_for e id ts = search (keeps_rules, quiet_rules, calm) depth 24

pub Quiet-create_plan : (e : Execution) (ts : ℕ) → Keeps Quiet (create_plan e ts)
unfolding create_plan
Quiet-create_plan e ts = search (keeps_rules, quiet_rules, calm, Quiet-plan_for) depth 24

pub Quiet-assign_ids : (specs : List StepSpec) (d : Dict ℕ) → Keeps Quiet (assign_ids specs d)
unfolding assign_ids
Quiet-assign_ids [] d = Keeps-pure calm d
Quiet-assign_ids (spec ∷ specs) d = record {
  at = λ w.
      let later = Quiet-assign_ids specs (put spec.step_key w.next_uuid d) in
      calm.chain w (uuid4 w).1 _ (Quiet-uuid4.at w) (later.at (uuid4 w).1);
}

pub Quiet-instantiate_step :
    (env : Env) (ids : Dict ℕ) (plan : ExecutionPlan) (e : Execution) (now : ℕ) (spec : StepSpec)
    → Keeps Quiet (instantiate_step env ids plan e now spec)
unfolding instantiate_step id_of
Quiet-instantiate_step env ids plan e now spec = search (keeps_rules, quiet_rules, calm) depth 24

pub Quiet-instantiate_steps :
    (env : Env) (plan : ExecutionPlan) (e : Execution) (now : ℕ)
    → Keeps Quiet (instantiate_steps env plan e now)
unfolding instantiate_steps
Quiet-instantiate_steps env plan e now =
    search (keeps_rules, quiet_rules, calm, Quiet-assign_ids, Quiet-instantiate_step) depth 24
