-- ===== src/Replay/Diff/Results.antt =====
-- `ReplayDiffService`: what the comparisons of the results and of the validation summaries report.
use agentic_ai_platform.Prelude.{
  ℕ, ◌≡◌, refl, ◌∙◌, Bool, true, false, not, ◌&&◌, Option, none, some, String, List, [], ◌∷◌,
  string_eq, is_empty, arith, Bool-cases, inl, inr, all,
}
use agentic_ai_platform.Value.{null, Fields, end, field, get, contains}
use agentic_ai_platform.Value.Same.{equal, value_eq, is_nan, fields_eq}
use agentic_ai_platform.Schemas.{Execution}
use agentic_ai_platform.Env.{Env}
use agentic_ai_platform.Replay.Snapshot.{option_eq}
use agentic_ai_platform.Replay.Diff.Items.{
  ReplayDiffSeverity, ReplayDiffCategory, field_difference, compare_dict_fields,
}
use agentic_ai_platform.Replay.Diff.Executions.{
  compare_result, results, one_sided, compare_validation, result_keys_of_interest,
}
use agentic_ai_platform.Replay.Diff.Records.{is_empty-append, is_empty-unless}

-- A key that is not there reads as `None`.
get_uncontained : (k : String) (d : Fields) → contains k d ≡ false → get k d ≡ null
unfolding contains get
get_uncontained k end h = refl
get_uncontained k (field j v d) h = ground (arith, get_uncontained k d)

-- Results that agree: both missing, or both there with equal values at every key of interest.
abbrev pub agree : Env → Option Fields → Option Fields → Bool
agree env none none = true
agree env (some a) (some b) = all (λ k. equal (get k a) (get k b)) (result_keys_of_interest env)
agree env a b = false

module _ (env : Env) where
  is_empty-field_difference :
      (a b : Fields) (c : ReplayDiffCategory) (path : String) (step : Option ℕ)
      (s : ReplayDiffSeverity) (k : String)
      → is_empty (field_difference env a b c path step s k) ≡ equal (get k a) (get k b)
  unfolding field_difference equal value_eq is_nan
  is_empty-field_difference a b c path step s k =
      elim (Bool-cases (not (contains k a) && not (contains k b))) [
        | inl neither ↦ rw neither (
            rw
              (
                get_uncontained k a (ground (arith, neither)),
                get_uncontained k b (ground (arith, neither)),
              )
              refl)
        | inr some_there ↦ rw some_there (is_empty-unless (equal (get k a) (get k b)) _)
      ]

  is_empty-compare_dict_fields :
      (a b : Fields) (c : ReplayDiffCategory) (path : String) (keys : List String) (step : Option ℕ)
      (s : ReplayDiffSeverity)
      → is_empty (compare_dict_fields env a b c path keys step s)
        ≡ all (λ k. equal (get k a) (get k b)) keys
  unfolding compare_dict_fields
  is_empty-compare_dict_fields a b c path [] step s = refl
  is_empty-compare_dict_fields a b c path (k ∷ keys) step s =
      is_empty-append (field_difference env a b c path step s k) _
      ∙ rw
          (
            is_empty-field_difference a b c path step s k,
            is_empty-compare_dict_fields a b c path keys step s,
          )
          refl

  is_empty-results : (a b : Option Fields) → is_empty (results env a b) ≡ agree env a b
  unfolding results one_sided
  is_empty-results none none = refl
  is_empty-results none (some b) = refl
  is_empty-results (some a) none = refl
  is_empty-results (some a) (some b) = is_empty-compare_dict_fields a b _ _ _ _ _

  -- The comparisons of the outcomes of two executions are exact: no difference of the results is
  -- reported exactly when both are missing, or both are there and have equal values at every key of
  -- interest (a missing key reads as `None`, a NaN equals nothing); and none of the validation
  -- summaries exactly when they are equal.
  pub compare_result-agree :
      (s p : Execution)
      → (is_empty (compare_result env s p) ≡ agree env s.result p.result)
        × (is_empty (compare_validation env s p)
            ≡ option_eq fields_eq s.validation_summary p.validation_summary)
  unfolding compare_result compare_validation
  compare_result-agree s p = (is_empty-results s.result p.result, is_empty-unless _ _)
