-- ===== src/Replay/Diff/Steps.antt =====
-- services/orchestrator/app/services/replay_diff_service.py: what is compared of the steps and of
-- their results.
use agentic_ai_platform.Prelude.{
  ℕ, suc, Bool, Option, none, some, String, ◌<>◌, List, [], ◌∷◌, ◌++◌, ◌==◌, nat_eq, string_eq, leb,
}
use agentic_ai_platform.Prelude.Order.{sort}
use agentic_ai_platform.Value.{uuid, int, str, object, Fields, dict}
use agentic_ai_platform.Value.Same.{equal}
use agentic_ai_platform.Schemas.{
  Execution, Step, StepResult, member, named, StepCompleteness, ValidationOutcome, step_status_eq,
  step_status_value, step_type_value, step_completeness_value,
}
use agentic_ai_platform.Repository.{Repository}
use agentic_ai_platform.Repository
use agentic_ai_platform.Env.{Env, text}
use agentic_ai_platform.Engine.Trace.{float_or_null}
use agentic_ai_platform.Replay.Snapshot.{option_eq}
use agentic_ai_platform.Replay.Diff.Items.{
  ReplayDiffItem, ReplayDiffSeverity, ReplayDiffCategory, item, about_step, unless, brief,
  compare_dict_fields,
}

-- `s.step_type.value if hasattr(s.step_type, "value") else str(s.step_type)`
abbrev pub kind_text : Step → String
kind_text s = elim s.step_type [ member t ↦ step_type_value t | named kind ↦ kind ]

-- `_step_label`
unfoldable pub step_label : Step → Fields
step_label s = dict (
    ("step_id", uuid s.step_id)
    ∷ ("type", str (kind_text s))
    ∷ ("status", str (step_status_value s.status))
    ∷ ("agent", str s.agent)
    ∷ [])

-- An item of severity `s` on a step.
abbrev on_step :
    ReplayDiffCategory
    → ReplayDiffSeverity
    → Step
    → (title description : String) → (source_value replay_value : Option String) → (path : String)
    → ReplayDiffItem
on_step c s about title description v w path =
    about_step (some about.step_id) (item c s title description v w path)

abbrev text_eq : String → String → Bool
text_eq a b = a == b

abbrev completeness_text : Option StepCompleteness → Option String
completeness_text none = none
completeness_text (some c) = some (step_completeness_value c)

abbrev outcome_status : Option ValidationOutcome → Option String
outcome_status none = none
outcome_status (some o) = some o.status

abbrev step_output_keys_of_interest : List String
step_output_keys_of_interest =
    "status" ∷ "outcome" ∷ "summary" ∷ "severity" ∷ "root_cause" ∷ "recommendation" ∷ []

-- `sorted(…, key=lambda s: s.created_at)`
unfoldable pub by_creation : List Step → List Step
by_creation = sort (λ a b. leb a.created_at b.created_at)

module _ (env : Env) where
  outputs : Step → String → Option Fields → Option Fields → List ReplayDiffItem
  outputs rs path (some a) (some b) =
      compare_dict_fields env a b ReplayDiffCategory.step (path <> ".result.output")
        step_output_keys_of_interest (some rs.step_id) ReplayDiffSeverity.info
  outputs rs path a b = []

  -- Two results that are there.
  both_results : Step → String → StepResult → StepResult → List ReplayDiffItem
  unfolding outputs
  both_results rs path a b =
      unless
        (option_eq text_eq (completeness_text a.completeness) (completeness_text b.completeness))
        (on_step ReplayDiffCategory.step ReplayDiffSeverity.warning rs "completeness"
          "Step result completeness differs." (completeness_text a.completeness)
          (completeness_text b.completeness) (path <> ".result.completeness"))
      ++ (unless (equal (float_or_null a.confidence_score) (float_or_null b.confidence_score)) (
            on_step ReplayDiffCategory.step ReplayDiffSeverity.info rs "confidence_score"
              "Advisory confidence score differs."
              (some (text env (float_or_null a.confidence_score)))
              (some (text env (float_or_null b.confidence_score)))
              (path <> ".result.confidence_score"))
          ++ (unless
                (option_eq text_eq (outcome_status a.validation_outcome)
                  (outcome_status b.validation_outcome))
                (on_step ReplayDiffCategory.validation ReplayDiffSeverity.warning rs
                  "step_validation_outcome" "Step-level validation outcome status differs."
                  (outcome_status a.validation_outcome) (outcome_status b.validation_outcome)
                  (path <> ".result.validation_outcome.status"))
              ++ outputs rs path a.output b.output))

  abbrev one_result : Step → String → (v w : String) → List ReplayDiffItem
  one_result rs path v w =
      on_step ReplayDiffCategory.step ReplayDiffSeverity.warning rs "step_result_presence"
        "Step result exists on one side only." (some v) (some w) (path <> ".result")
      ∷ []

  -- `_compare_step_results`
  unfoldable pub compare_step_results :
      Step → String → Option StepResult → Option StepResult → List ReplayDiffItem
  unfolding both_results
  compare_step_results rs path none none = []
  compare_step_results rs path none (some b) = one_result rs path "absent" "present"
  compare_step_results rs path (some a) none = one_result rs path "present" "absent"
  compare_step_results rs path (some a) (some b) = both_results rs path a b

  -- Two steps at one place of the order.
  compare_pair : Repository → ℕ → Step → Step → List ReplayDiffItem
  compare_pair r i ss rs =
      let path = "steps[" <> (text env (int i) <> "]") in
      unless (kind_text ss == kind_text rs) (
        on_step ReplayDiffCategory.step ReplayDiffSeverity.warning rs "step_type"
          ("Step type differs at index " <> (text env (int i) <> " (ordered by created_at)."))
          (some (kind_text ss)) (some (kind_text rs)) (path <> ".type"))
      ++ (unless (ss.status == rs.status) (
            on_step ReplayDiffCategory.step ReplayDiffSeverity.warning rs "step_status"
              ("Step status differs at index " <> (text env (int i) <> "."))
              (some (step_status_value ss.status)) (some (step_status_value rs.status))
              (path <> ".status"))
          ++ (unless (ss.agent == rs.agent) (
                on_step ReplayDiffCategory.step ReplayDiffSeverity.info rs "step_agent"
                  ("Step agent binding differs at index " <> (text env (int i) <> "."))
                  (some ss.agent) (some rs.agent) (path <> ".agent"))
              ++ compare_step_results rs path (Repository.get_step_result ss.step_id r)
                  (Repository.get_step_result rs.step_id r)))

  extra_step : ℕ → Step → ReplayDiffItem
  extra_step i rs =
      on_step ReplayDiffCategory.step ReplayDiffSeverity.significant rs "extra_replay_step"
        "Replay has a step with no positional match in source ordering." none
        (brief env 400 (object (step_label rs))) ("steps[" <> (text env (int i) <> "]"))

  missing_step : ℕ → Step → ReplayDiffItem
  missing_step i ss =
      on_step ReplayDiffCategory.step ReplayDiffSeverity.significant ss "missing_replay_step"
        "Source has a step with no positional match in replay ordering."
        (brief env 400 (object (step_label ss))) none ("steps[" <> (text env (int i) <> "]"))

  -- The loop of `_compare_steps` from index `i`.
  unfoldable pub step_differences : Repository → ℕ → List Step → List Step → List ReplayDiffItem
  unfolding compare_pair extra_step missing_step
  step_differences r i [] [] = []
  step_differences r i [] (rs ∷ rep) = extra_step i rs ∷ step_differences r (suc i) [] rep
  step_differences r i (ss ∷ src) [] = missing_step i ss ∷ step_differences r (suc i) src []
  step_differences r i (ss ∷ src) (rs ∷ rep) =
      compare_pair r i ss rs ++ step_differences r (suc i) src rep

  -- `_compare_steps`
  unfoldable pub compare_steps : Repository → Execution → Execution → List ReplayDiffItem
  compare_steps r source replay =
      step_differences r 0 (by_creation (Repository.list_steps_for_execution source.execution_id r))
        (by_creation (Repository.list_steps_for_execution replay.execution_id r))
