-- ===== src/Engine/Keyed.antt =====
-- A run leaves every step stored under its identifier.
use agentic_ai_platform.Prelude.{ℕ, zero, suc, Option, none, some, String, List}
use agentic_ai_platform.Value.{Fields}
use agentic_ai_platform.Schemas.{
  Execution, execution_status_eq, ExecutionPlan, Step, ActionProposal, PolicyDecision,
}
use agentic_ai_platform.StateMachine.{Verdict, permitted, refused}
use agentic_ai_platform.Exec.{World, Result, ok, err}
use agentic_ai_platform.Exec.Keeps.{Keeps}
use agentic_ai_platform.Env.{Env}
use agentic_ai_platform.Engine.Ready.{enter_validating, maybe_enter_validating}
use agentic_ai_platform.Engine.Trace.{get_execution}
use agentic_ai_platform.Engine.Cancel.{store, cancel_by, cancel_execution, fail_by, fail_execution}
use agentic_ai_platform.Engine.Governance.{govern, finalize_incident_triage_governance}
use agentic_ai_platform.Engine.Run.{Turn, again, done, Outcome, after}
use agentic_ai_platform.Engine.Run
use agentic_ai_platform.Engine.Progress.{StepsKeyed, Tidy, tidy_rules, run_step-Tidy}
use agentic_ai_platform.Engine.Safety.{InOutcome}
use agentic_ai_platform.Engine.Totality.{Stays-prepare}

Tidy-cancel_by :
    (v : Verdict) (e : Execution) (reason : String) (ts : ℕ) → Keeps Tidy (cancel_by v e reason ts)
unfolding cancel_by store
Tidy-cancel_by permitted e reason ts = search (tidy_rules) depth 24
Tidy-cancel_by (refused why) e reason ts = search (tidy_rules) depth 24

pub Tidy-cancel_execution :
    (id : ℕ) (reason : String) (ts : ℕ) → Keeps Tidy (cancel_execution id reason ts)
unfolding cancel_execution store get_execution
Tidy-cancel_execution id reason ts = search (tidy_rules, Tidy-cancel_by) depth 24

Tidy-fail_by :
    (v : Verdict) (e : Execution) (reason : String) (ts : ℕ) → Keeps Tidy (fail_by v e reason ts)
unfolding fail_by store
Tidy-fail_by permitted e reason ts = search (tidy_rules) depth 24
Tidy-fail_by (refused why) e reason ts = search (tidy_rules) depth 24

pub Tidy-fail_execution :
    (id : ℕ) (reason : String) (ts : ℕ) → Keeps Tidy (fail_execution id reason ts)
unfolding fail_execution get_execution
Tidy-fail_execution id reason ts = search (tidy_rules, Tidy-fail_by) depth 24

Tidy-govern :
    (d : PolicyDecision) (e : Execution) (p : ActionProposal) (eval_id : ℕ) (summary base : Fields)
    (now : ℕ)
    → Keeps Tidy (govern d e p eval_id summary base now)
unfolding govern
Tidy-govern PolicyDecision.deny e p eval_id summary base now = search (tidy_rules) depth 24
Tidy-govern PolicyDecision.allow e p eval_id summary base now = search (tidy_rules) depth 24
Tidy-govern PolicyDecision.conditional e p eval_id summary base now = search (tidy_rules) depth 24

module _ (env : Env) where
  Tidy-finalize :
      (e : Execution) (steps : List Step) (now : ℕ)
      → Keeps Tidy (finalize_incident_triage_governance env e steps now)
  unfolding finalize_incident_triage_governance
  Tidy-finalize e steps now = search (tidy_rules, Tidy-govern) depth 40

  Tidy-settle : (e : Execution) (steps : List Step) → Keeps Tidy (Run.settle env e steps)
  unfolding Run.settle Run.settle_all Run.finalize Run.complete Run.give_up store
  Tidy-settle e steps = search (tidy_rules, Tidy-finalize) depth 40

  Tidy-maybe :
      (e : Execution) (steps : List Step) (now : ℕ)
      → Keeps Tidy (maybe_enter_validating e steps now)
  unfolding maybe_enter_validating enter_validating
  Tidy-maybe e steps now = search (tidy_rules) depth 24

  Tidy-step_or_settle :
      (e : Execution) (steps : List Step) (s : Option Step) (now : ℕ)
      → Keeps Tidy (Run.step_or_settle env e steps s now)
  unfolding Run.step_or_settle Run.return_it
  Tidy-step_or_settle e steps none now = search (tidy_rules, Tidy-settle) depth 24
  Tidy-step_or_settle e steps (some s) now = search (tidy_rules, run_step-Tidy) depth 24

  Tidy-pick_step :
      (id : ℕ) (p : ExecutionPlan) (now : ℕ) (e : Execution)
      → Keeps Tidy (Run.pick_step env id p now e)
  unfolding Run.pick_step
  Tidy-pick_step id p now e = search (tidy_rules, Tidy-step_or_settle) depth 24

  Tidy-advance : (id : ℕ) (e : Execution) → Keeps Tidy (Run.advance env id e)
  unfolding Run.advance Run.work Run.plan_of get_execution
  Tidy-advance id e = search (tidy_rules, Tidy-maybe, Tidy-pick_step) depth 32

  Tidy-turn : (id : ℕ) → Keeps Tidy (Run.turn env id)
  unfolding Run.turn Run.turn_of Run.return_it get_execution
  Tidy-turn id = search (tidy_rules, Tidy-cancel_execution, Tidy-advance) depth 32

  after-StepsKeyed :
      (r : Result Turn) (rest : World → Outcome) (w : World)
      → StepsKeyed w
      → InOutcome StepsKeyed (rest w)
      → InOutcome StepsKeyed (after r rest w)
  unfolding after
  after-StepsKeyed (err x) rest w k h = k
  after-StepsKeyed (ok (done e)) rest w k h = k
  after-StepsKeyed (ok again) rest w k h = h

  loop-StepsKeyed :
      (fuel id : ℕ) (w : World) → StepsKeyed w → InOutcome StepsKeyed (Run.loop env fuel id w)
  unfolding Run.loop
  loop-StepsKeyed zero id w k = tt
  loop-StepsKeyed (suc fuel) id w k =
      let w' = (Run.turn env id w).1 in
      let k' = ((Tidy-turn id).at w).keyed k in
      after-StepsKeyed (Run.turn env id w).0 (Run.loop env fuel id) w' k'
        (loop-StepsKeyed fuel id w' k')

  enter-StepsKeyed :
      (fuel id : ℕ) (r : Result (Option Execution)) (w : World)
      → StepsKeyed w
      → InOutcome StepsKeyed (Run.enter env fuel id r w)
  unfolding Run.enter
  enter-StepsKeyed fuel id (err x) w k = k
  enter-StepsKeyed fuel id (ok (some e)) w k = k
  enter-StepsKeyed fuel id (ok none) w k = loop-StepsKeyed fuel id w k

  -- However a run ends, the steps are stored under their identifiers where they were before.
  pub run_execution-StepsKeyed :
      (id : ℕ) (w : World) → StepsKeyed w → InOutcome StepsKeyed (Run.run_execution env id w)
  unfolding Run.run_execution
  run_execution-StepsKeyed id w k =
      enter-StepsKeyed _ id (Run.prepare env id w).0 (Run.prepare env id w).1
        (((Stays-prepare env id).at w).keyed k)
