-- ===== src/Mukti.antt =====
-- services/mukti-agent/mukti_agent/analyzer.py: `MuktiAnalyzer`, which classifies an execution that
-- has ended, with its input of packages/common-schemas/src/common_schemas/mukti_input.py. The three
-- lists that `analyze` builds are passed on from loop to loop. `lower` is Python's `str.lower`.
pub mod Loops
pub mod Stages
pub mod Classes
pub mod Cross
pub mod Ranked
use agentic_ai_platform.Prelude.{
  ℕ, Bool, true, false, Option, none, some, String, List, [], ◌∷◌, ◌++◌, map, ◌==◌, string_eq, ◌&&◌,
  any, is_empty, if◌then◌else◌,
}
use agentic_ai_platform.Value.{Value, str, uuid, Fields, get, dict}
use agentic_ai_platform.Schemas.{
  ExecutionStatus, StepStatus, PolicyDecision, ActionProposalStatus, execution_status_eq,
  step_status_eq,
}
use agentic_ai_platform.Schemas.{
  Execution, Step, StepResult, TraceRow, PolicyEvaluation, ActionProposal,
}
use agentic_ai_platform.Feedback.{
  OperatorFeedback, ExecutionFeedback, PatternDetection, ImprovementSuggestion,
}

pub record StepRunRecord : Type 0 where
  pub step : Step
  pub result : Option StepResult

pub record MuktiAnalysisInput : Type 0 where
  pub execution : Execution
  pub step_records : List StepRunRecord
  pub operator_feedback : List OperatorFeedback
  pub policy_evaluations : List PolicyEvaluation
  pub action_proposals : List ActionProposal

-- The lists under construction.
pub record Signals : Type 0 where
  pub failure_types : List String
  pub patterns : List PatternDetection
  pub suggestions : List ImprovementSuggestion

unfoldable pub add_failure : String → Signals → Signals
add_failure name f = record f { failure_types = f.failure_types ++ name ∷ [] }

unfoldable pub add_pattern : PatternDetection → Signals → Signals
add_pattern p f = record f { patterns = f.patterns ++ p ∷ [] }

unfoldable pub add_suggestion : ImprovementSuggestion → Signals → Signals
add_suggestion s f = record f { suggestions = f.suggestions ++ s ∷ [] }

unfoldable pub fallback_pattern : TraceRow → PatternDetection
fallback_pattern row = record {
  pattern_type = "model_deterministic_fallback";
  description = some "Structured model path fell back to deterministic StepExecutor.";
  evidence = dict (
      ("step_id", get "step_id" row.detail)
      ∷ ("task", get "task" row.detail)
      ∷ ("error_class", get "error_class" row.detail)
      ∷ []);
}

unfoldable pub clean_pattern : Execution → PatternDetection
clean_pattern e = record {
  pattern_type = "clean_success_path";
  description =
      some "Execution completed with no classified failure signals in this analyzer pass.";
  evidence = dict (("workflow_type", str e.workflow_type) ∷ []);
}

unfoldable pub disputed_pattern : OperatorFeedback → PatternDetection
disputed_pattern fb = record {
  pattern_type = "operator_disputed_outcome";
  description = some "Operator flagged possible false positive.";
  evidence = dict (("feedback_record_id", uuid fb.feedback_record_id) ∷ []);
}

-- `for x in xs`, where the body passes the lists on.
unfoldable pub each {ℓ} : {A : Type ℓ} → (A → Signals → Signals) → List A → Signals → Signals
each body [] f = f
each body (x ∷ xs) f = each body xs (body x f)

unfoldable pub terminal_signals : ExecutionStatus → Signals → Signals
terminal_signals status f =
    let f1 = if status == ExecutionStatus.failed then add_failure "terminal_failed" f else f in
    if status == ExecutionStatus.cancelled then add_failure "terminal_cancelled" f1 else f1

-- The loop that breaks at the first step that failed.
unfoldable pub step_signals : List StepRunRecord → Signals → Signals
step_signals [] f = f
step_signals (r ∷ rs) f =
    let rest = step_signals rs f in
    if r.step.status == StepStatus.failed then add_failure "step_failure" f else rest

unfoldable pub evaluation_signals : PolicyEvaluation → Signals → Signals
evaluation_signals ev f = elim ev.decision [
  | PolicyDecision.deny ↦
      add_suggestion
        record {
          category = "policy_rule";
          summary = "Review policy rules that denied this execution path.";
          detail = dict (("evaluation_id", uuid ev.evaluation_id) ∷ []);
        }
        (add_failure "policy_evaluation_deny" f)
  | _ ↦ f
]

-- `v == text`
unfoldable pub is_text : String → Value → Bool
is_text text (str s) = s == text
is_text text v = false

-- `row.get("path") == path`, of a row of this event type.
unfoldable pub row_has : (event_type path : String) → TraceRow → Bool
row_has event_type path row = row.event_type == event_type && is_text path (get "path" row.detail)

unfoldable pub trace_signals : TraceRow → Signals → Signals
trace_signals row f =
    let f1 =
      if row_has "governed_outcome" "policy_denied" row
      then add_failure "trace_policy_denied" f
      else f in
    if row_has "model_reasoning" "deterministic_fallback" row
    then add_pattern (fallback_pattern row) f1
    else f1

unfoldable pub proposal_signals : ActionProposal → Signals → Signals
proposal_signals p f = elim p.status [
  | ActionProposalStatus.policy_denied ↦
      add_suggestion
        record {
          category = "policy_rule";
          summary =
              "Action proposal reached policy_denied; align workflow intent with policy pack.";
          detail =
              dict (("proposal_id", uuid p.proposal_id) ∷ ("action_type", str p.action_type) ∷ []);
        }
        (add_failure "action_proposal_policy_denied" f)
  | _ ↦ f
]

unfoldable pub success_signals : Execution → Signals → Signals
success_signals e f =
    if e.status == ExecutionStatus.completed && is_empty f.failure_types
    then add_pattern (clean_pattern e) f
    else f

-- The loop that keeps the first of equal texts: `seen` holds the texts that were kept.
unfoldable pub dedup : List String → List String → List String
dedup seen [] = []
dedup seen (x ∷ xs) =
    let known = any (λ y. y == x) seen in
    let rest = dedup (if known then seen else x ∷ seen) xs in if known then rest else x ∷ rest

module _ (lower : String → String) where
  -- `any(str(x).lower() == "false_positive" for x in fb.labels)`
  unfoldable pub disputes : OperatorFeedback → Bool
  disputes fb = any (λ x. lower x == "false_positive") fb.labels

  unfoldable pub operator_signals : OperatorFeedback → Signals → Signals
  operator_signals fb f = if disputes fb then add_pattern (disputed_pattern fb) f else f

  unfoldable pub collect : MuktiAnalysisInput → Signals
  collect inp =
      let f0 : Signals = record { failure_types = []; patterns = []; suggestions = [] } in
      let f1 = terminal_signals inp.execution.status f0 in
      let f2 = step_signals inp.step_records f1 in
      let f3 = each evaluation_signals inp.policy_evaluations f2 in
      let f4 = each trace_signals inp.execution.trace_timeline f3 in
      let f5 = each proposal_signals inp.action_proposals f4 in
      let f6 = each operator_signals inp.operator_feedback f5 in success_signals inp.execution f6

  -- The identifier is what `uuid4` gives. The confidence is 0.84.
  unfoldable pub analyze : MuktiAnalysisInput → (id now : ℕ) → ExecutionFeedback
  analyze inp id now =
      let f = collect inp in
      record {
        feedback_id = id;
        execution_id = inp.execution.execution_id;
        source_scope = some (dict (("analyzer", str "deterministic_rule_pack_v1") ∷ []));
        failure_types = dedup [] f.failure_types;
        patterns_detected = f.patterns;
        improvement_suggestions = f.suggestions;
        advisory_confidence = some 4605741266919258849;
        created_at = now;
        updated_at = none;
      }
