-- ===== src/Mukti/Stages.antt =====
-- What each stage of the analyzer adds to the failure types and to the patterns.
use agentic_ai_platform.Prelude.{
  ◌≡◌, refl, Bool, true, false, String, List, [], ◌∷◌, ◌==◌, string_eq, ◌&&◌, ◌||◌, any, is_empty,
  arith,
}
use agentic_ai_platform.Schemas.{
  ExecutionStatus, StepStatus, PolicyDecision, ActionProposalStatus, execution_status_eq,
  step_status_eq,
}
use agentic_ai_platform.Schemas.{Execution, PolicyEvaluation, ActionProposal, TraceRow}
use agentic_ai_platform.Feedback.{OperatorFeedback, PatternDetection}
use agentic_ai_platform.Mukti.{
  StepRunRecord, Signals, add_failure, add_pattern, add_suggestion, terminal_signals, step_signals,
  evaluation_signals, row_has, trace_signals, proposal_signals, success_signals, fallback_pattern,
  clean_pattern, disputed_pattern, disputes, operator_signals,
}
use agentic_ai_platform.Mukti.Loops.{has, any-snoc}

abbrev pub has_pattern : String → List PatternDetection → Bool
has_pattern t ps = any (λ p. p.pattern_type == t) ps

abbrev pub denied : PolicyEvaluation → Bool
denied ev = elim ev.decision [ PolicyDecision.deny ↦ true | _ ↦ false ]

abbrev pub was_denied : ActionProposal → Bool
was_denied p = elim p.status [ ActionProposalStatus.policy_denied ↦ true | _ ↦ false ]

abbrev pub step_failed : StepRunRecord → Bool
step_failed r = r.step.status == StepStatus.failed

abbrev pub reports : String → Signals → Bool
reports t f = has t f.failure_types

abbrev pub detects : String → Signals → Bool
detects t f = has_pattern t f.patterns

pub terminal_reports :
    (t : String) (s : ExecutionStatus) (f : Signals)
    → reports t (terminal_signals s f)
      ≡ (reports t f || (s == ExecutionStatus.failed && "terminal_failed" == t))
        || (s == ExecutionStatus.cancelled && "terminal_cancelled" == t)
unfolding terminal_signals add_failure
terminal_reports t s f = ground (
  arith,
  any-snoc (λ x. x == t) f.failure_types "terminal_failed",
  any-snoc (λ x. x == t) f.failure_types "terminal_cancelled",
)

pub terminal_detects :
    (t : String) (s : ExecutionStatus) (f : Signals)
    → detects t (terminal_signals s f) ≡ detects t f
unfolding terminal_signals add_failure
terminal_detects t s f = ground arith

pub step_reports :
    (t : String) (rs : List StepRunRecord) (f : Signals)
    → reports t (step_signals rs f) ≡ reports t f || (any step_failed rs && "step_failure" == t)
unfolding step_signals add_failure
step_reports t [] f = ground arith
step_reports t (r ∷ rs) f =
    ground (arith, step_reports t rs f, any-snoc (λ x. x == t) f.failure_types "step_failure")

pub step_detects :
    (t : String) (rs : List StepRunRecord) (f : Signals)
    → detects t (step_signals rs f) ≡ detects t f
unfolding step_signals add_failure
step_detects t [] f = refl
step_detects t (r ∷ rs) f = ground (arith, step_detects t rs f)

pub evaluation_reports :
    (t : String) (ev : PolicyEvaluation) (f : Signals)
    → reports t (evaluation_signals ev f)
      ≡ reports t f || (denied ev && "policy_evaluation_deny" == t)
unfolding evaluation_signals add_failure add_suggestion
evaluation_reports t ev f =
    ground (arith, any-snoc (λ x. x == t) f.failure_types "policy_evaluation_deny")

pub evaluation_detects :
    (t : String) (ev : PolicyEvaluation) (f : Signals)
    → detects t (evaluation_signals ev f) ≡ detects t f
unfolding evaluation_signals add_failure add_suggestion
evaluation_detects t ev f = ground arith

pub trace_reports :
    (t : String) (row : TraceRow) (f : Signals)
    → reports t (trace_signals row f)
      ≡ reports t f
        || (row_has "governed_outcome" "policy_denied" row && "trace_policy_denied" == t)
unfolding trace_signals add_failure add_pattern
trace_reports t row f = ground (arith, any-snoc (λ x. x == t) f.failure_types "trace_policy_denied")

pub trace_detects :
    (t : String) (row : TraceRow) (f : Signals)
    → detects t (trace_signals row f)
      ≡ detects t f
        || (row_has "model_reasoning" "deterministic_fallback" row
            && "model_deterministic_fallback" == t)
unfolding trace_signals add_failure add_pattern fallback_pattern
trace_detects t row f =
    ground (arith, any-snoc (λ p. p.pattern_type == t) f.patterns (fallback_pattern row))

pub proposal_reports :
    (t : String) (p : ActionProposal) (f : Signals)
    → reports t (proposal_signals p f)
      ≡ reports t f || (was_denied p && "action_proposal_policy_denied" == t)
unfolding proposal_signals add_failure add_suggestion
proposal_reports t p f =
    ground (arith, any-snoc (λ x. x == t) f.failure_types "action_proposal_policy_denied")

pub proposal_detects :
    (t : String) (p : ActionProposal) (f : Signals) → detects t (proposal_signals p f) ≡ detects t f
unfolding proposal_signals add_failure add_suggestion
proposal_detects t p f = ground arith

pub success_detects :
    (t : String) (e : Execution) (f : Signals)
    → detects t (success_signals e f)
      ≡ detects t f
        || ((e.status == ExecutionStatus.completed && is_empty f.failure_types)
            && "clean_success_path" == t)
unfolding success_signals add_pattern clean_pattern
success_detects t e f =
    ground (arith, any-snoc (λ p. p.pattern_type == t) f.patterns (clean_pattern e))

pub success_failures :
    (e : Execution) (f : Signals) → (success_signals e f).failure_types ≡ f.failure_types
unfolding success_signals add_pattern
success_failures e f = ground arith

module _ (lower : String → String) where
  pub operator_reports :
      (t : String) (fb : OperatorFeedback) (f : Signals)
      → reports t (operator_signals lower fb f) ≡ reports t f
  unfolding operator_signals add_pattern
  operator_reports t fb f = ground arith

  pub operator_detects :
      (t : String) (fb : OperatorFeedback) (f : Signals)
      → detects t (operator_signals lower fb f)
        ≡ detects t f || (disputes lower fb && "operator_disputed_outcome" == t)
  unfolding operator_signals add_pattern disputed_pattern
  operator_detects t fb f =
      ground (arith, any-snoc (λ p. p.pattern_type == t) f.patterns (disputed_pattern fb))
