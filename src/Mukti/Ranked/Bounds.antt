-- ===== src/Mukti/Ranked/Bounds.antt =====
-- The ranked suggestions fit the bounds of their schema.
use agentic_ai_platform.Prelude.{
  all, if◌then◌else◌, some, none, ℕ, suc, ◌≤◌, ◌≡◌, refl, String, Option, List, [], ◌∷◌, ◌++◌, ◌==◌,
  ◌&&◌, string_eq, nat_eq, take, length, length-take, All, Bool-cases, inl, inr, arith,
}
use agentic_ai_platform.Prelude.Dict.{Dict, lookup}
use agentic_ai_platform.Prelude.Order.{sort, All-sort, All-take}
use agentic_ai_platform.Prelude.Text.{text_leb}
use agentic_ai_platform.Feedback.{ExecutionFeedback, ImprovementSuggestion}
use agentic_ai_platform.Mukti.Ranked.{
  RankedImprovementSuggestion, Theme, record_suggestion, record_suggestions, themes, ranks_before,
  distinct_ids, suggestion_at, suggestions_from, ranked_suggestions, built_suggestions,
  suggestion_fits, texts_fit,
}

-- The bounds that the schema puts on numbers and on lists.
abbrev pub FitsSchema : RankedImprovementSuggestion → Type 0
FitsSchema s =
    (1 ≤ s.rank)
    × (1 ≤ s.evidence_count)
    × (length s.affected_workflows ≤ 32)
    × (length s.related_execution_ids ≤ 200)

-- The ranks are `n`, `n + 1` and so on.
abbrev pub RankedFrom : ℕ → List RankedImprovementSuggestion → Type 0
RankedFrom n [] = Unit
RankedFrom n (s ∷ ss) = (s.rank ≡ n) × RankedFrom (suc n) ss

abbrev HasHits : Theme → Type 0
HasHits x = 1 ≤ length x.execs

length-snoc : (id : ℕ) (ids : List ℕ) → length (ids ++ id ∷ []) ≡ suc (length ids)
length-snoc id [] = refl
length-snoc id (i ∷ ids) = omega (arith, length-snoc id ids)

record_suggestion-HasHits :
    (s : ImprovementSuggestion) (id : ℕ) (wf : Option String) (xs : List Theme)
    → All HasHits xs
    → All HasHits (record_suggestion s id wf xs)
unfolding record_suggestion
record_suggestion-HasHits s id wf [] ps = (omega arith, tt)
record_suggestion-HasHits s id wf (x ∷ xs) ps =
    elim (Bool-cases (x.category == s.category && x.summary == s.summary)) [
      | inl same ↦ rw same (omega (arith, length-snoc id x.execs), ps.1)
      | inr other ↦ rw other (ps.0, record_suggestion-HasHits s id wf xs ps.1)
    ]

record_suggestions-HasHits :
    (ss : List ImprovementSuggestion) (id : ℕ) (wf : Option String) (xs : List Theme)
    → All HasHits xs
    → All HasHits (record_suggestions ss id wf xs)
unfolding record_suggestions
record_suggestions-HasHits [] id wf xs ps = ps
record_suggestions-HasHits (s ∷ ss) id wf xs ps =
    record_suggestions-HasHits ss id wf _ (record_suggestion-HasHits s id wf xs ps)

themes-HasHits :
    (wfs : Dict String) (fbs : List ExecutionFeedback) (xs : List Theme)
    → All HasHits xs
    → All HasHits (themes wfs fbs xs)
unfolding themes
themes-HasHits wfs [] xs ps = ps
themes-HasHits wfs (fb ∷ fbs) xs ps = themes-HasHits wfs fbs _ (
    record_suggestions-HasHits fb.improvement_suggestions fb.execution_id
      (lookup fb.execution_id wfs) xs ps)

distinct_some : (ids : List ℕ) → 1 ≤ length ids → 1 ≤ length (distinct_ids [] ids)
unfolding distinct_ids
distinct_some [] h = h
distinct_some (id ∷ ids) h = omega arith

suggestions_from-FitsSchema :
    (n : ℕ) (xs : List Theme)
    → 1 ≤ n
    → All HasHits xs
    → All FitsSchema (suggestions_from n xs)
      × RankedFrom n (suggestions_from n xs)
      × (length (suggestions_from n xs) ≡ length xs)
unfolding suggestions_from suggestion_at
suggestions_from-FitsSchema n [] h ps = (tt, tt, refl)
suggestions_from-FitsSchema n (x ∷ xs) h ps =
    let (fit, ranked, long) = suggestions_from-FitsSchema (suc n) xs (omega arith) ps.1 in
    (
      (
        (
          h,
          distinct_some x.execs ps.0,
          omega (arith, length-take 32 (sort text_leb x.workflows)),
          omega (arith, length-take 200 (distinct_ids [] x.execs)),
        ),
        fit,
      ),
      (refl, ranked),
      omega (arith, long),
    )

all-FitsSchema :
    (out : List RankedImprovementSuggestion)
    → All FitsSchema out
    → all suggestion_fits out ≡ all texts_fit out
unfolding suggestion_fits
all-FitsSchema [] ps = refl
all-FitsSchema (s ∷ out) ps =
    ground (arith, ps.0.0, ps.0.1, ps.0.2, ps.0.3, all-FitsSchema out ps.1)

-- Whatever the feedback is, at most fifteen suggestions are built, ranked from 1 on without a gap,
-- each with a rank and a number of executions of at least 1, at most 32 workflows and at most 200
-- executions. `_ranked_suggestions` gives them exactly where the texts of each fit as well (a category
-- of 128 characters, a summary of 512, an action of 1024), and raises otherwise: no other bound of the
-- schema is ever broken.
pub ranked_suggestions-FitsSchema :
    (fbs : List ExecutionFeedback) (wfs : Dict String)
    → let out = built_suggestions fbs wfs in
      (ranked_suggestions fbs wfs ≡ (if all texts_fit out then some out else none))
      × All FitsSchema out
      × RankedFrom 1 out
      × (length out ≤ 15)
unfolding built_suggestions ranked_suggestions
ranked_suggestions-FitsSchema fbs wfs =
    let xs = themes wfs fbs [] in
    let (fit, ranked, long) =
      suggestions_from-FitsSchema 1 (take 15 (sort ranks_before xs)) (omega arith)
        (All-take HasHits 15 _ (All-sort ranks_before HasHits xs (themes-HasHits wfs fbs [] tt))) in
    (
      rw (all-FitsSchema (suggestions_from 1 (take 15 (sort ranks_before xs))) fit) refl,
      fit,
      ranked,
      omega (arith, long, length-take 15 (sort ranks_before xs)),
    )
