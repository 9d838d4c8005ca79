-- ===== src/Tests/Analyses.antt =====
-- An execution that completed without a signal, and one that failed, as the analyzer sees them.
use agentic_ai_platform.Prelude.{
  ℕ, ◌≡◌, ◌≤◌, refl, false, none, String, List, [], ◌∷◌, map, any, all, some, if◌then◌else◌, All,
  length, is_empty, ◌==◌, string_eq,
}
use agentic_ai_platform.Prelude.Order.{IsRanked, sort}
use agentic_ai_platform.Feedback.{ExecutionFeedback, ImprovementSuggestion}
use agentic_ai_platform.Mukti.Ranked.{ranked_suggestions, built_suggestions, texts_fit}
use agentic_ai_platform.Mukti.Ranked.Bounds.{FitsSchema, RankedFrom, ranked_suggestions-FitsSchema}
use agentic_ai_platform.Mukti.Cross.{
  top_failure_types, failure_insights, insight_fits, failure_insight, most_common, tally,
  record_hits, record_hit,
}
use agentic_ai_platform.Mukti.Cross.Top.{type_hits, top_failure_types_lem}
use agentic_ai_platform.Value.{end}
use agentic_ai_platform.Schemas.{ExecutionStatus, PolicyEvaluation, PolicyDecision}
use agentic_ai_platform.Mukti.{
  MuktiAnalysisInput, dedup, collect, analyze, success_signals, each, evaluation_signals,
  add_suggestion, add_failure, step_signals, terminal_signals,
}
use agentic_ai_platform.Mukti.Loops.{has, Distinct}
use agentic_ai_platform.Mukti.Stages.{has_pattern}
use agentic_ai_platform.Mukti.Classes.{named, failure_table, pattern_table, analyze_classifies}
use agentic_ai_platform.Tests.Worlds.{waiting}

abbrev same_text : String → String
same_text s = s

abbrev denial : PolicyEvaluation
denial = record {
  evaluation_id = 3;
  execution_id = 1;
  execution_context_id = 0;
  decision = PolicyDecision.deny;
  reason = "read_only";
  evaluated_rules = [];
  subject_ref = end;
  created_at = 0;
  updated_at = 0;
}

-- It failed, and two evaluations denied it.
abbrev failed_run : MuktiAnalysisInput
failed_run = record {
  execution = record waiting { status = ExecutionStatus.failed };
  step_records = [];
  operator_feedback = [];
  policy_evaluations = denial ∷ denial ∷ [];
  action_proposals = [];
}

classified_failed_run :
    let r = analyze same_text failed_run 9 5 in
    (has "policy_evaluation_deny" r.failure_types
      ≡ named "policy_evaluation_deny" (failure_table failed_run))
    × Distinct r.failure_types
    × (has_pattern "policy_evaluation_deny" r.patterns_detected
        ≡ named "policy_evaluation_deny"
            (pattern_table same_text failed_run (is_empty r.failure_types)))
classified_failed_run = analyze_classifies same_text failed_run 9 5 "policy_evaluation_deny"

failed_run_types :
    (analyze same_text failed_run 9 5).failure_types
    ≡ "terminal_failed" ∷ "policy_evaluation_deny" ∷ []
unfolding analyze dedup collect success_signals each evaluation_signals add_suggestion add_failure
    step_signals terminal_signals
failed_run_types = refl

-- Two rows: the second has a failure type that the first has, and one of its own.
abbrev row_of : ℕ → List String → ExecutionFeedback
row_of id types = record {
  feedback_id = id;
  execution_id = id;
  source_scope = none;
  failure_types = types;
  patterns_detected = [];
  improvement_suggestions = [];
  advisory_confidence = none;
  created_at = 0;
  updated_at = none;
}

abbrev two_rows : List ExecutionFeedback
two_rows = row_of 1 ("step_failure" ∷ []) ∷ row_of 2 ("terminal_failed" ∷ "step_failure" ∷ []) ∷ []

top_of_two_rows :
    let out = failure_insights (λ s. 0) (λ n. "") two_rows [] in
    (top_failure_types (λ s. 0) (λ n. "") two_rows []
      ≡ (if all insight_fits out then some out else none))
    × All (λ i. i.evidence_count ≡ type_hits i.title two_rows) out
    × IsRanked (λ i. i.evidence_count) out
    × (length out ≤ 10)
    × ((t : String)
        → any (λ i. i.title == t) out ≡ false
        → All (λ i. type_hits t two_rows ≤ i.evidence_count) out)
top_of_two_rows = top_failure_types_lem (λ s. 0) (λ n. "") two_rows []

two_rows_titles :
    map (λ i. i.title) (failure_insights (λ s. 0) (λ n. "") two_rows [])
    ≡ "step_failure" ∷ "terminal_failed" ∷ []
unfolding failure_insights failure_insight most_common sort tally record_hits record_hit
two_rows_titles = refl

abbrev advice : ImprovementSuggestion
advice = record { category = "policy_rule"; summary = "Review the rules."; detail = end }

abbrev advised_rows : List ExecutionFeedback
advised_rows = record (row_of 1 []) { improvement_suggestions = advice ∷ advice ∷ [] } ∷ []

ranked_advice :
    let out = built_suggestions advised_rows [] in
    (ranked_suggestions advised_rows [] ≡ (if all texts_fit out then some out else none))
    × All FitsSchema out
    × RankedFrom 1 out
    × (length out ≤ 15)
ranked_advice = ranked_suggestions-FitsSchema advised_rows []
