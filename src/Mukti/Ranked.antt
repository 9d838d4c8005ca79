-- ===== src/Mukti/Ranked.antt =====
-- services/mukti-agent/mukti_agent/cross_execution.py: `_ranked_suggestions`, with
-- `RankedImprovementSuggestion` of packages/common-schemas/src/common_schemas/mukti_insights.py. The
-- two dictionaries that the method fills under the same keys are one list.
pub mod Bounds
use agentic_ai_platform.Prelude.{
  ℕ, suc, Bool, true, false, Option, some, String, List, [], ◌∷◌, ◌++◌, ◌<>◌, ◌==◌, nat_eq,
  string_eq, ◌&&◌, ltb, leb, none, all, any, take, length, if◌then◌else◌,
}
use agentic_ai_platform.Prelude.Dict.{Dict, lookup}
use agentic_ai_platform.Prelude.Order.{sort}
use agentic_ai_platform.Prelude.Text.{text_leb, text_length}
use agentic_ai_platform.Value.{str, Fields, dict}
use agentic_ai_platform.Feedback.{ExecutionFeedback, ImprovementSuggestion}
use agentic_ai_platform.Mukti.Cross.{add_workflow}

pub record RankedImprovementSuggestion : Type 0 where
  pub rank : ℕ
  pub category : String
  pub summary : String
  pub evidence_count : ℕ
  pub affected_workflows : List String
  pub related_execution_ids : List ℕ
  pub suggested_action : Option String
  pub detail : Fields

-- What is held under a category and a summary: the execution of each hit, and the workflows.
pub record Theme : Type 0 where
  pub category : String
  pub summary : String
  pub execs : List ℕ
  pub workflows : List String

unfoldable pub record_suggestion :
    ImprovementSuggestion → ℕ → Option String → List Theme → List Theme
record_suggestion s id wf [] =
    record {
      category = s.category;
      summary = s.summary;
      execs = id ∷ [];
      workflows = add_workflow wf [];
    }
    ∷ []
record_suggestion s id wf (x ∷ xs) =
    let rest = record_suggestion s id wf xs in
    if x.category == s.category && x.summary == s.summary
    then record {
      category = x.category;
      summary = x.summary;
      execs = x.execs ++ id ∷ [];
      workflows = add_workflow wf x.workflows;
    }
      ∷ xs
    else x ∷ rest

unfoldable pub record_suggestions :
    List ImprovementSuggestion → ℕ → Option String → List Theme → List Theme
record_suggestions [] id wf xs = xs
record_suggestions (s ∷ ss) id wf xs = record_suggestions ss id wf (record_suggestion s id wf xs)

unfoldable pub themes : Dict String → List ExecutionFeedback → List Theme → List Theme
themes wf_by_exec [] xs = xs
themes wf_by_exec (fb ∷ fbs) xs = themes wf_by_exec fbs (
    record_suggestions fb.improvement_suggestions fb.execution_id
      (lookup fb.execution_id wf_by_exec) xs)

-- (-len(bucket[k]), k[0], k[1]) in the order of tuples
unfoldable pub ranks_before : Theme → Theme → Bool
ranks_before a b =
    if ltb (length b.execs) (length a.execs)
    then true
    else if ltb (length a.execs) (length b.execs)
    then false
    else if a.category == b.category
    then text_leb a.summary b.summary
    else text_leb a.category b.category

-- dict.fromkeys(ids), as a list: `seen` holds those that were kept.
unfoldable pub distinct_ids : List ℕ → List ℕ → List ℕ
distinct_ids seen [] = []
distinct_ids seen (id ∷ ids) =
    let known = any (λ i. i == id) seen in
    let rest = distinct_ids (if known then seen else id ∷ seen) ids in
    if known then rest else id ∷ rest

unfoldable pub suggestion_at : ℕ → Theme → RankedImprovementSuggestion
suggestion_at rank x =
    let execs = distinct_ids [] x.execs in
    record {
      rank = rank;
      category = x.category;
      summary = x.summary;
      evidence_count = length execs;
      affected_workflows = take 32 (sort text_leb x.workflows);
      related_execution_ids = take 200 execs;
      suggested_action = some (
          if x.category == "policy_rule"
          then "Review policy pack and workflow alignment."
          else "Address advisory category '" <> (x.category <> "' via governed release."));
      detail =
          dict
            (("aggregation", str "identical category+summary across execution_feedback rows") ∷ []);
    }

-- `enumerate(ranked_keys, start=rank)`
unfoldable pub suggestions_from : ℕ → List Theme → List RankedImprovementSuggestion
suggestions_from rank [] = []
suggestions_from rank (x ∷ xs) = suggestion_at rank x ∷ suggestions_from (suc rank) xs

-- The bounds that pydantic checks of the texts of a suggestion.
unfoldable pub texts_fit : RankedImprovementSuggestion → Bool
texts_fit s =
    leb (text_length s.category) 128
    && leb (text_length s.summary) 512
    && (elim s.suggested_action [ none ↦ true | some a ↦ leb (text_length a) 1024 ])

-- All the bounds that it checks.
unfoldable pub suggestion_fits : RankedImprovementSuggestion → Bool
suggestion_fits s =
    texts_fit s
    && leb 1 s.rank
    && leb 1 s.evidence_count
    && leb (length s.affected_workflows) 32
    && leb (length s.related_execution_ids) 200

unfoldable pub built_suggestions :
    List ExecutionFeedback → Dict String → List RankedImprovementSuggestion
built_suggestions feedback wf_by_exec =
    suggestions_from 1 (take 15 (sort ranks_before (themes wf_by_exec feedback [])))

-- `none` where a suggestion is refused and `ValidationError` is raised
unfoldable pub ranked_suggestions :
    List ExecutionFeedback → Dict String → Option (List RankedImprovementSuggestion)
ranked_suggestions feedback wf_by_exec =
    let out = built_suggestions feedback wf_by_exec in
    if all suggestion_fits out then some out else none
