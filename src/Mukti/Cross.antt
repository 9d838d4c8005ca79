-- ===== src/Mukti/Cross.antt =====
-- services/mukti-agent/mukti_agent/cross_execution.py: `_top_failure_types`, `_recurring_patterns`
-- and `_policy_friction` of `CrossExecutionAnalyzer`, with the records of
-- packages/common-schemas/src/common_schemas/mukti_insights.py. The three dictionaries that a method
-- fills under the same keys are one list of buckets, in the order of first insertion. `uuid5` in the
-- URL namespace, `str` of a number and `str.lower` are parameters.
pub mod Tallies
pub mod Top
use agentic_ai_platform.Prelude.{
  ℕ, suc, ◌*◌, Bool, true, false, Option, none, some, String, List, [], ◌∷◌, ◌++◌, ◌<>◌, map, ◌==◌,
  nat_eq, string_eq, leb, ◌||◌, not, any, all, ◌&&◌, keep, take, length, if◌then◌else◌,
}
use agentic_ai_platform.Prelude.Dict.{Dict, lookup, put}
use agentic_ai_platform.Prelude.Order.{sort}
use agentic_ai_platform.Prelude.Text.{
  text_length, text_leb, text_take, starts_with, contains_text, remove_prefix,
}
use agentic_ai_platform.Value.{str, int, Fields, dict}
use agentic_ai_platform.Schemas.{ExecutionStatus}
use agentic_ai_platform.Feedback.{ExecutionFeedback, ImprovementSuggestion, PatternDetection}

pub data InsightSeverity : Type 0 where
  info warning elevated : InsightSeverity

pub data InsightCategory : Type 0 where
  top_failure_type recurring_pattern policy_friction model_fallback unstable_workflow
        unstable_step :
      InsightCategory
  improvement_suggestion : InsightCategory

abbrev insight_category_value : InsightCategory → String
insight_category_value top_failure_type = "top_failure_type"
insight_category_value recurring_pattern = "recurring_pattern"
insight_category_value policy_friction = "policy_friction"
insight_category_value model_fallback = "model_fallback"
insight_category_value unstable_workflow = "unstable_workflow"
insight_category_value unstable_step = "unstable_step"
insight_category_value improvement_suggestion = "improvement_suggestion"

pub record CrossExecutionInsight : Type 0 where
  pub insight_id : ℕ
  pub category : InsightCategory
  pub severity : InsightSeverity
  pub title : String
  pub description : String
  pub evidence_count : ℕ
  pub affected_workflows : List String
  pub affected_steps : List String
  pub suggested_action : Option String
  pub related_execution_ids : List ℕ
  pub rank_score : ℕ
  pub evidence : Fields

abbrev text_fits : ℕ → Option String → Bool
text_fits bound none = true
text_fits bound (some s) = leb (text_length s) bound

-- The bounds that pydantic checks of an insight.
unfoldable pub insight_fits : CrossExecutionInsight → Bool
insight_fits i =
    leb (text_length i.title) 256
    && leb (text_length i.description) 2048
    && leb (length i.affected_workflows) 32
    && leb (length i.affected_steps) 64
    && text_fits 1024 i.suggested_action
    && leb (length i.related_execution_ids) 200

-- The insights that a method builds, `none` where one is refused and `ValidationError` is raised.
unfoldable pub validated : List CrossExecutionInsight → Option (List CrossExecutionInsight)
validated is = if all insight_fits is then some is else none

-- `ExecutionSummary`, of which the analysis reads these fields.
pub record ExecutionSummary : Type 0 where
  pub execution_id : ℕ
  pub workflow_type : String
  pub status : ExecutionStatus

unfoldable pub severity_for_count : ℕ → InsightSeverity
severity_for_count count = if leb 5 count then elevated else if leb 2 count then warning else info

-- {s.execution_id: s for s in summaries}
unfoldable pub summaries_by_id :
    List ExecutionSummary → Dict ExecutionSummary → Dict ExecutionSummary
summaries_by_id [] d = d
summaries_by_id (s ∷ ss) d = summaries_by_id ss (put s.execution_id s d)

unfoldable pub workflow_by_execution :
    Dict ExecutionSummary → List ExecutionFeedback → Dict String → Dict String
workflow_by_execution summaries [] d = d
workflow_by_execution summaries (fb ∷ fbs) d = elim (lookup fb.execution_id summaries) [
  | none ↦ workflow_by_execution summaries fbs d
  | some s ↦ workflow_by_execution summaries fbs (put fb.execution_id s.workflow_type d)
]

-- What is held under one key: the tally, the executions, and the set of workflows.
pub record Bucket : Type 0 where
  pub key : String
  pub count : ℕ
  pub execs : List ℕ
  pub workflows : List String

unfoldable pub add_execution : ℕ → List ℕ → List ℕ
add_execution id ids = if any (λ i. i == id) ids then ids else ids ++ id ∷ []

-- `if wf: workflows.add(wf)`
unfoldable pub add_workflow : Option String → List String → List String
add_workflow none ws = ws
add_workflow (some w) ws = if w == "" || any (λ v. v == w) ws then ws else ws ++ w ∷ []

-- One more hit of a key.
unfoldable pub record_hit : String → ℕ → Option String → List Bucket → List Bucket
record_hit k id wf [] =
    record { key = k; count = 1; execs = id ∷ []; workflows = add_workflow wf [] } ∷ []
record_hit k id wf (b ∷ bs) =
    let rest = record_hit k id wf bs in
    if b.key == k
    then record {
      key = b.key;
      count = suc b.count;
      execs = add_execution id b.execs;
      workflows = add_workflow wf b.workflows;
    }
      ∷ bs
    else b ∷ rest

unfoldable pub record_hits : List String → ℕ → Option String → List Bucket → List Bucket
record_hits [] id wf bs = bs
record_hits (k ∷ ks) id wf bs = record_hits ks id wf (record_hit k id wf bs)

-- The loop over the rows, where `keys_of` gives the keys that a row hits, in order.
unfoldable pub tally :
    (ExecutionFeedback → List String)
    → Dict String
    → List ExecutionFeedback
    → List Bucket
    → List Bucket
tally keys_of wf_by_exec [] bs = bs
tally keys_of wf_by_exec (fb ∷ fbs) bs =
    tally keys_of wf_by_exec fbs
      (record_hits (keys_of fb) fb.execution_id (lookup fb.execution_id wf_by_exec) bs)

-- `Counter.most_common(n)`: keys with equal counts stay in the order of their first hits.
unfoldable pub most_common : ℕ → List Bucket → List Bucket
most_common n bs = take n (sort (λ a b. leb b.count a.count) bs)

abbrev pub pattern_types : ExecutionFeedback → List String
pattern_types fb = map (λ p. p.pattern_type) fb.patterns_detected

module _ (uuid5 : String → ℕ) (decimal : ℕ → String) where
  unfoldable pub insight_uuid : InsightCategory → String → ℕ
  insight_uuid category key =
      uuid5 ("mukti-v2:" <> (insight_category_value category <> (":" <> key)))

  unfoldable pub failure_insight : Bucket → CrossExecutionInsight
  failure_insight b = record {
    insight_id = insight_uuid top_failure_type b.key;
    category = top_failure_type;
    severity = severity_for_count b.count;
    title = b.key;
    description =
        "Failure type '"
        <> (b.key
            <> ("' appears in "
                <> (decimal b.count
                    <> (" execution_feedback row(s) across "
                        <> (decimal (length b.workflows) <> " workflow type(s).")))));
    evidence_count = b.count;
    affected_workflows = take 32 (sort text_leb b.workflows);
    affected_steps = [];
    suggested_action =
        some ("Investigate root cause for failure type '" <> (b.key <> "' in affected workflows."));
    related_execution_ids = take 200 b.execs;
    rank_score = b.count * 10;
    evidence = dict (("failure_type", str b.key) ∷ ("feedback_row_hits", int b.count) ∷ []);
  }

  unfoldable pub failure_insights :
      List ExecutionFeedback → Dict String → List CrossExecutionInsight
  failure_insights feedback wf_by_exec =
      map failure_insight (most_common 10 (tally (λ fb. fb.failure_types) wf_by_exec feedback []))

  unfoldable pub top_failure_types :
      List ExecutionFeedback → Dict String → Option (List CrossExecutionInsight)
  top_failure_types feedback wf_by_exec = validated (failure_insights feedback wf_by_exec)

  unfoldable pub pattern_insight : Bucket → CrossExecutionInsight
  pattern_insight b = record {
    insight_id = insight_uuid recurring_pattern b.key;
    category = recurring_pattern;
    severity = severity_for_count b.count;
    title = b.key;
    description =
        "Pattern '"
        <> (b.key
            <> ("' recurs in "
                <> (decimal b.count
                    <> " execution_feedback row(s) (minimum 2 required for cross-execution flag).")));
    evidence_count = b.count;
    affected_workflows = take 32 (sort text_leb b.workflows);
    affected_steps = [];
    suggested_action = some ("Review trace evidence for recurring pattern '" <> (b.key <> "'."));
    related_execution_ids = take 200 b.execs;
    rank_score = b.count * 8;
    evidence = dict (("pattern_type", str b.key) ∷ ("feedback_row_hits", int b.count) ∷ []);
  }

  unfoldable pub recurring_patterns :
      List ExecutionFeedback → Dict String → Option (List CrossExecutionInsight)
  recurring_patterns feedback wf_by_exec = validated (
      map pattern_insight
        (keep (λ b. leb 2 b.count) (most_common 10 (tally pattern_types wf_by_exec feedback []))))

  unfoldable pub suggestion_key : ImprovementSuggestion → String
  suggestion_key s = "suggestion:" <> text_take 80 s.summary

  unfoldable pub friction_insight : Bucket → CrossExecutionInsight
  friction_insight b =
      let title = remove_prefix "suggestion:" b.key in
      record {
        insight_id = insight_uuid policy_friction b.key;
        category = policy_friction;
        severity = severity_for_count b.count;
        title = text_take 256 title;
        description =
            "Policy friction signal '"
            <> (title <> ("' observed in " <> (decimal b.count <> " execution_feedback row(s).")));
        evidence_count = b.count;
        affected_workflows = take 32 (sort text_leb b.workflows);
        affected_steps = [];
        suggested_action =
            some "Align workflow intent with policy pack; review deny and conditional rules.";
        related_execution_ids = take 200 b.execs;
        rank_score = b.count * 12;
        evidence = dict (("signal_key", str b.key) ∷ ("feedback_row_hits", int b.count) ∷ []);
      }

  module _ (lower : String → String) where
    -- `any(m in ft for m in _POLICY_FAILURE_MARKERS) or "policy" in ft.lower()`
    unfoldable pub is_policy_failure : String → Bool
    is_policy_failure ft =
        any (λ m. contains_text m ft)
          ("policy_evaluation_deny" ∷ "trace_policy_denied" ∷ "action_proposal_policy_denied" ∷ [])
        || contains_text "policy" (lower ft)

    unfoldable pub policy_keys : ExecutionFeedback → List String
    policy_keys fb =
        keep is_policy_failure fb.failure_types
        ++ map suggestion_key (keep (λ s. s.category == "policy_rule") fb.improvement_suggestions)

    unfoldable pub policy_friction_areas :
        List ExecutionFeedback → Dict String → Option (List CrossExecutionInsight)
    policy_friction_areas feedback wf_by_exec =
        validated (map friction_insight (most_common 8 (tally policy_keys wf_by_exec feedback [])))
