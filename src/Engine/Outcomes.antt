-- ===== src/Engine/Outcomes.antt =====
-- The rows that end a validated execution continue the one it has.
use agentic_ai_platform.Prelude.{ℕ, ◌≡◌, refl, Option, String, List}
use agentic_ai_platform.Value.{Fields}
use agentic_ai_platform.Schemas.{
  Execution, ExecutionStatus, execution_status_eq, Step, ActionProposal, PolicyDecision,
}
use agentic_ai_platform.StateMachine.{is_execution_terminal}
use agentic_ai_platform.StateMachine.Lifecycle.{Reach, here, next, complete, escalate, fail}
use agentic_ai_platform.Env.{Env}
use agentic_ai_platform.Engine.Ready.{append_timeline}
use agentic_ai_platform.Engine.Governance.{govern, conclude, finalize_incident_triage_governance}
use agentic_ai_platform.Engine.Still.{
  Still, Still-IsPreorder, Quiet→Still, Still-save_step, Still-update_step, Continues, Prepares,
  prepares_rules,
}
use agentic_ai_platform.Engine.Motion.{
  still, calm, still_rules, Reach-by, is_status, Steers-store, continue_to, same_status,
  Steers-same, Prepares-same,
}

-- The outcomes of a completed or governed execution
module _ (e : Execution) where
  pub Continues-conclude :
      (s : ExecutionStatus) (summary result : Fields) (completed_at : Option ℕ)
      (event_type : String) (detail : Fields) (now : ℕ)
      → Reach e.status s
      → Continues e (conclude e s summary result completed_at event_type detail now)
  unfolding conclude append_timeline
  Continues-conclude s summary result completed_at event_type detail now r = record {
    same_id = refl;
    reach = r;
  }

  pub validating_completes :
      e.status ≡ ExecutionStatus.validating → Reach e.status ExecutionStatus.completed
  validating_completes h = rw h (next here complete)

  pub validating_fails :
      e.status ≡ ExecutionStatus.validating → Reach e.status ExecutionStatus.failed
  unfolding is_execution_terminal
  validating_fails h = rw h (next here (fail refl))

  pub validating_escalates :
      e.status ≡ ExecutionStatus.validating → Reach e.status ExecutionStatus.awaiting_approval
  validating_escalates h = rw h (next here escalate)

  pub ruleset outcome_rules = (
    prepares_rules, still_rules, Continues-conclude, validating_completes, validating_fails,
    validating_escalates,
  )

  pub Prepares-govern :
      (d : PolicyDecision) (p : ActionProposal) (eval_id : ℕ) (summary base : Fields) (now : ℕ)
      → e.status ≡ ExecutionStatus.validating
      → Prepares e (govern d e p eval_id summary base now)
  unfolding govern
  Prepares-govern PolicyDecision.deny p eval_id summary base now h = search (outcome_rules) depth 24
  Prepares-govern PolicyDecision.allow p eval_id summary base now h =
      search (outcome_rules) depth 24
  Prepares-govern PolicyDecision.conditional p eval_id summary base now h =
      search (outcome_rules) depth 24

pub Prepares-govern_rows :
    (e : Execution) (t1 t2 : String) (d1 d2 : Fields) (n1 n2 : ℕ) (d : PolicyDecision)
    (p : ActionProposal) (eval_id : ℕ) (summary base : Fields) (now : ℕ)
    → e.status ≡ ExecutionStatus.validating
    → Prepares e (
        govern d (append_timeline (append_timeline e t1 d1 n1) t2 d2 n2) p eval_id summary base now)
unfolding append_timeline
Prepares-govern_rows e t1 t2 d1 d2 n1 n2 d p eval_id summary base now h =
    Prepares-same e _ _ refl refl (Prepares-govern _ d p eval_id summary base now h)

pub Prepares-finalize :
    (env : Env) (e : Execution) (steps : List Step) (now : ℕ)
    → e.status ≡ ExecutionStatus.validating
    → Prepares e (finalize_incident_triage_governance env e steps now)
unfolding finalize_incident_triage_governance
Prepares-finalize env e steps now h =
    search (prepares_rules, still_rules, Prepares-govern_rows) depth 24
