-- ===== src/Mukti/Classes.antt =====
-- How the analyzer classifies an execution: which failure types and patterns it reports.
use agentic_ai_platform.Prelude.{
  ℕ, ◌≡◌, ◌∙◌, ap, Bool, String, List, [], ◌∷◌, ◌==◌, string_eq, ◌&&◌, any, is_empty, arith,
}
use agentic_ai_platform.Schemas.{ExecutionStatus, execution_status_eq, step_status_eq}
use agentic_ai_platform.Mukti.{
  MuktiAnalysisInput, Signals, each, terminal_signals, step_signals, evaluation_signals, row_has,
  trace_signals, proposal_signals, disputes, operator_signals, collect, analyze,
}
use agentic_ai_platform.Mukti.Loops.{
  has, Distinct, each-adds, each-keeps, has-dedup, dedup-Distinct, dedup_nothing,
}
use agentic_ai_platform.Mukti.Stages.{
  has_pattern, denied, was_denied, step_failed, reports, detects, terminal_reports,
  terminal_detects, step_reports, step_detects, evaluation_reports, evaluation_detects,
  trace_reports, trace_detects, proposal_reports, proposal_detects, success_detects,
  success_failures, operator_reports, operator_detects,
}

-- Each failure type with what it stands for.
abbrev pub failure_table : MuktiAnalysisInput → List (Bool × String)
failure_table inp =
    (inp.execution.status == ExecutionStatus.failed, "terminal_failed")
    ∷ (inp.execution.status == ExecutionStatus.cancelled, "terminal_cancelled")
    ∷ (any step_failed inp.step_records, "step_failure")
    ∷ (any denied inp.policy_evaluations, "policy_evaluation_deny")
    ∷ (
      any (row_has "governed_outcome" "policy_denied") inp.execution.trace_timeline,
      "trace_policy_denied",
    )
    ∷ (any was_denied inp.action_proposals, "action_proposal_policy_denied")
    ∷ []

-- Some entry of the table holds and has this name.
abbrev pub named : String → List (Bool × String) → Bool
named t table = any (λ entry. entry.0 && entry.1 == t) table

module _ (lower : String → String) where
  -- Each pattern with what it stands for, where `clean` tells that nothing failed.
  abbrev pub pattern_table : MuktiAnalysisInput → Bool → List (Bool × String)
  pattern_table inp clean =
      (
        any (row_has "model_reasoning" "deterministic_fallback") inp.execution.trace_timeline,
        "model_deterministic_fallback",
      )
      ∷ (any (disputes lower) inp.operator_feedback, "operator_disputed_outcome")
      ∷ (inp.execution.status == ExecutionStatus.completed && clean, "clean_success_path")
      ∷ []

  reports-collect :
      (t : String) (inp : MuktiAnalysisInput)
      → reports t (collect lower inp) ≡ named t (failure_table inp)
  unfolding collect
  reports-collect t inp =
      let f0 : Signals = record { failure_types = []; patterns = []; suggestions = [] } in
      let f1 = terminal_signals inp.execution.status f0 in
      let f2 = step_signals inp.step_records f1 in
      let f3 = each evaluation_signals inp.policy_evaluations f2 in
      let f4 = each trace_signals inp.execution.trace_timeline f3 in
      let f5 = each proposal_signals inp.action_proposals f4 in
      let f6 = each (operator_signals lower) inp.operator_feedback f5 in
      ap (has t) (success_failures inp.execution f6)
      ∙ (each-keeps (reports t) (operator_signals lower) (operator_reports lower t)
            inp.operator_feedback f5
          ∙ ground (
            arith,
            each-adds (reports t) proposal_signals was_denied _ (proposal_reports t)
                inp.action_proposals f4,
            each-adds (reports t) trace_signals (row_has "governed_outcome" "policy_denied") _
                (trace_reports t) inp.execution.trace_timeline f3,
            each-adds (reports t) evaluation_signals denied _ (evaluation_reports t)
                inp.policy_evaluations f2,
            step_reports t inp.step_records f1,
            terminal_reports t inp.execution.status f0,
          ))

  detects-collect :
      (t : String) (inp : MuktiAnalysisInput)
      → detects t (collect lower inp)
        ≡ named t (pattern_table inp (is_empty (collect lower inp).failure_types))
  unfolding collect
  detects-collect t inp =
      let f0 : Signals = record { failure_types = []; patterns = []; suggestions = [] } in
      let f1 = terminal_signals inp.execution.status f0 in
      let f2 = step_signals inp.step_records f1 in
      let f3 = each evaluation_signals inp.policy_evaluations f2 in
      let f4 = each trace_signals inp.execution.trace_timeline f3 in
      let f5 = each proposal_signals inp.action_proposals f4 in
      let f6 = each (operator_signals lower) inp.operator_feedback f5 in
      ground (
        arith,
        success_detects t inp.execution f6,
        ap is_empty (success_failures inp.execution f6),
        each-adds (detects t) (operator_signals lower) (disputes lower) _ (operator_detects lower t)
            inp.operator_feedback f5,
        each-keeps (detects t) proposal_signals (proposal_detects t) inp.action_proposals f4,
        each-adds (detects t) trace_signals (row_has "model_reasoning" "deterministic_fallback") _
            (trace_detects t) inp.execution.trace_timeline f3,
        each-keeps (detects t) evaluation_signals (evaluation_detects t) inp.policy_evaluations f2,
        step_detects t inp.step_records f1,
        terminal_detects t inp.execution.status f0,
      )

  -- The analyzer reports a failure type exactly where the execution, its steps, policy evaluations,
  -- trace or proposals hold what the type stands for, and each type once; it detects a pattern
  -- exactly where the trace, the operators' feedback or, with no failure type, the completion of the
  -- execution tells of it.
  pub analyze_classifies :
      (inp : MuktiAnalysisInput) (id now : ℕ) (t : String)
      → let r = analyze lower inp id now in
        (has t r.failure_types ≡ named t (failure_table inp))
        × Distinct r.failure_types
        × (has_pattern t r.patterns_detected
            ≡ named t (pattern_table inp (is_empty r.failure_types)))
  unfolding analyze
  analyze_classifies inp id now t =
      let found = (collect lower inp).failure_types in
      (
        ground (arith, has-dedup t [] found, reports-collect t inp),
        dedup-Distinct [] found,
        rw (dedup_nothing found) (detects-collect t inp),
      )
