-- ===== src/Engine/Totality.antt =====
-- `run_execution` and `start_execution` always produce an outcome.
use agentic_ai_platform.Prelude.{ℕ, suc, ◌≢◌, Option, none, some, arith}
use agentic_ai_platform.Schemas.{Execution, Step}
use agentic_ai_platform.Repository
use agentic_ai_platform.Exec.{Exec, World, Result, ok, err, saves}
use agentic_ai_platform.Exec.Keeps.{Keeps, IsPreorder, keeps_rules}
use agentic_ai_platform.Env.{Env}
use agentic_ai_platform.Engine.Trace.{get_execution}
use agentic_ai_platform.Engine.Cancel.{store}
use agentic_ai_platform.Engine.Run
use agentic_ai_platform.Engine.Quiet.{Quiet, Quiet-IsPreorder, quiet_rules}
use agentic_ai_platform.Engine.Calm.{Quiet-create_plan, Quiet-instantiate_steps}
use agentic_ai_platform.Engine.Progress.{
  StepsKeyed, pending_count, Tidy, keyed-put, Quiet→Tidy, Tidy-update_execution,
}
use agentic_ai_platform.Engine.Termination.{loop_ends}

pub record StaysKeyed (w w' : World) : Type 0 where
  pub keyed : StepsKeyed w → StepsKeyed w'

pub order : IsPreorder StaysKeyed
order = record {
  stay = λ w. record { keyed = λ k. k };
  chain = λ u v w p q. record { keyed = λ k. q.keyed (p.keyed k) };
}

calm : IsPreorder Quiet
calm = Quiet-IsPreorder

pub Tidy→Stays : {A : Type 0} (m : Exec A) → Keeps Tidy m → Keeps StaysKeyed m
Tidy→Stays m t = record { at = λ w. record { keyed = (t.at w).keyed } }

Stays-save_step : (s : Step) → Keeps StaysKeyed (saves (Repository.save_step s))
unfolding saves Repository.save_step
Stays-save_step s = record { at = λ w. record { keyed = keyed-put s w.steps } }

ruleset stay_rules = (
  keeps_rules, quiet_rules, order, calm, Quiet→Tidy, Tidy→Stays, Tidy-update_execution,
  Stays-save_step, Quiet-create_plan, Quiet-instantiate_steps,
)

module _ (env : Env) where
  Stays-begin_planning : (e : Execution) (now : ℕ) → Keeps StaysKeyed (Run.begin_planning env e now)
  unfolding Run.begin_planning store
  Stays-begin_planning e now = search (stay_rules) depth 24

  Stays-enter_executing :
      (e : Execution) (now : ℕ) → Keeps StaysKeyed (Run.enter_executing env e now)
  unfolding Run.enter_executing store
  Stays-enter_executing e now = search (stay_rules) depth 24

  pub Stays-prepare : (id : ℕ) → Keeps StaysKeyed (Run.prepare env id)
  unfolding Run.prepare Run.plan_phase get_execution
  Stays-prepare id = search (stay_rules, Stays-begin_planning, Stays-enter_executing) depth 24

  enter_ends :
      (id : ℕ) (r : Result (Option Execution)) (w : World)
      → StepsKeyed w
      → Run.enter env (suc (pending_count w)) id r w ≢ none
  unfolding Run.enter
  enter_ends id (err x) w k = λ h. cc
  enter_ends id (ok (some e)) w k = λ h. cc
  enter_ends id (ok none) w k = loop_ends env (suc (pending_count w)) id w k (omega arith)

  -- From a store whose steps are stored under their identifiers, `run_execution` comes to an end
  -- for every execution, plan and environment: it returns an execution or raises.
  pub run_execution_ends : (id : ℕ) (w : World) → StepsKeyed w → Run.run_execution env id w ≢ none
  unfolding Run.run_execution
  run_execution_ends id w k =
      enter_ends id (Run.prepare env id w).0 (Run.prepare env id w).1
        (((Stays-prepare id).at w).keyed k)
