-- ===== src/Replay/Diff/Executions.antt =====
-- services/orchestrator/app/services/replay_diff_service.py: what is compared of the two rows.
use agentic_ai_platform.Prelude.{
  ℕ, Bool, false, ◌||◌, Option, none, some, String, ◌<>◌, List, [], ◌∷◌, ◌++◌, ◌==◌, nat_eq,
  string_eq, if◌then◌else◌, any, length,
}
use agentic_ai_platform.Prelude.Text.{text_leb}
use agentic_ai_platform.Prelude.Order.{sort}
use agentic_ai_platform.Value.{Value, uuid, int, object, Fields, end, field, contains, get}
use agentic_ai_platform.Value.Same.{equal, fields_eq}
use agentic_ai_platform.Schemas.{Execution, execution_status_eq, execution_status_value}
use agentic_ai_platform.Repository.{Repository}
use agentic_ai_platform.Repository
use agentic_ai_platform.Env.{Env, text}
use agentic_ai_platform.Replay.{
  ReplayProvenance, replay_provenance_key, strip_replay_metadata, keys, uuid_or_null,
}
use agentic_ai_platform.Replay.Snapshot.{option_eq}
use agentic_ai_platform.Replay.Diff.Items.{
  ReplayDiffItem, ReplayDiffSeverity, ReplayDiffCategory, item, unless, brief, compare_dict_fields,
}

-- `_business_input`
unfoldable pub business_input : Execution → Fields
business_input e = strip_replay_metadata e.input

abbrev uuid_eq : ℕ → ℕ → Bool
uuid_eq a b = a == b

-- The `isinstance(raw, dict)` of `_provenance`, and its `model_validate`.
parsed : (Fields → Option ReplayProvenance) → Value → Option ReplayProvenance
parsed model_validate (object d) = model_validate d
parsed model_validate v = none

-- `_provenance`
unfoldable pub provenance_in :
    (Fields → Option ReplayProvenance) → Execution → Option ReplayProvenance
unfolding parsed
provenance_in model_validate e = parsed model_validate (get replay_provenance_key e.input)

-- `prov is not None and prov.source_execution_id == source.execution_id`
cites : Option ReplayProvenance → Execution → Bool
cites none source = false
cites (some p) source = p.source_execution_id == source.execution_id

-- `_is_linked`
unfoldable pub is_linked : Option ReplayProvenance → Execution → Execution → Bool
unfolding cites
is_linked prov source replay =
    option_eq uuid_eq replay.parent_execution_id (some source.execution_id) || cites prov source

-- `prov and key in prov.input_overrides`
abbrev is_override : Option ReplayProvenance → String → Bool
is_override none key = false
is_override (some p) key = contains key p.input_overrides

-- `sorted(set(a) | set(b))`: a key of both stands once.
unfoldable pub without : List String → List String → List String
without [] known = []
without (k ∷ ks) known =
    let seen = any (λ j. j == k) known in
    let rest = without ks (if seen then known else k ∷ known) in if seen then rest else k ∷ rest

unfoldable pub all_keys : Fields → Fields → List String
unfolding without
all_keys a b = sort text_leb (without (keys a ++ keys b) [])

module _ (env : Env) where
  overrides_item : Option ReplayProvenance → List ReplayDiffItem
  overrides_item none = []
  overrides_item (some p) = elim p.input_overrides [
    | end ↦ []
    | field k v d ↦
        item ReplayDiffCategory.input ReplayDiffSeverity.info "investigative_input_overrides"
          "Replay provenance records investigative input overrides applied at creation." none
          (brief env 400 (object p.input_overrides)) "provenance.input_overrides"
        ∷ []
  ]

  -- `_compare_lineage`
  unfoldable pub compare_lineage :
      Execution → Execution → Bool → Option ReplayProvenance → List ReplayDiffItem
  unfolding overrides_item
  compare_lineage source replay linked prov =
      let source_value = some (text env (uuid source.execution_id)) in
      let replay_value = some (text env (uuid_or_null replay.parent_execution_id)) in
      (if linked
        then item ReplayDiffCategory.lineage ReplayDiffSeverity.info "linked_to_source"
            "Replay is linked to source via parent_execution_id and/or replay provenance."
            source_value replay_value "lineage.parent_execution_id"
        else item ReplayDiffCategory.lineage ReplayDiffSeverity.significant "not_linked_to_source"
            "Replay parent_execution_id and provenance do not reference the given source execution."
            source_value replay_value "lineage")
      ∷ overrides_item prov

  -- `_compare_execution_header`
  unfoldable pub compare_execution_header : Execution → Execution → List ReplayDiffItem
  compare_execution_header source replay =
      unless (source.status == replay.status) (
        item ReplayDiffCategory.execution_status ReplayDiffSeverity.significant "execution_status"
          "Terminal or lifecycle status differs between source and replay."
          (some (execution_status_value source.status))
          (some (execution_status_value replay.status)) "execution.status")
      ++ unless (source.workflow_type == replay.workflow_type) (
          item ReplayDiffCategory.execution_status ReplayDiffSeverity.significant "workflow_type"
            "Workflow type differs (unexpected for replay derived from source)."
            (some source.workflow_type) (some replay.workflow_type) "execution.workflow_type")

  -- The body of the loop of `_compare_input`.
  unfoldable pub input_difference :
      Fields → Fields → Option ReplayProvenance → String → List ReplayDiffItem
  input_difference src_in rep_in prov key = unless (equal (get key src_in) (get key rep_in)) (
      item ReplayDiffCategory.input
        (if is_override prov key then ReplayDiffSeverity.info else ReplayDiffSeverity.warning)
        ("input." <> key) ("Business input field '" <> (key <> "' differs."))
        (brief env 400 (get key src_in)) (brief env 400 (get key rep_in)) ("input." <> key))

  unfoldable pub input_differences :
      Fields → Fields → Option ReplayProvenance → List String → List ReplayDiffItem
  input_differences src_in rep_in prov [] = []
  input_differences src_in rep_in prov (key ∷ rest) =
      input_difference src_in rep_in prov key ++ input_differences src_in rep_in prov rest

  -- `_compare_input`
  unfoldable pub compare_input :
      Execution → Execution → Option ReplayProvenance → List ReplayDiffItem
  compare_input source replay prov =
      let src_in = business_input source in
      let rep_in = business_input replay in
      input_differences src_in rep_in prov (all_keys src_in rep_in)

  abbrev id_text : Option ℕ → Option String
  id_text none = none
  id_text (some n) = some (text env (uuid n))

  -- `_compare_plan`
  unfoldable pub compare_plan : Repository → Execution → Execution → List ReplayDiffItem
  compare_plan r source replay =
      let src_steps = Repository.list_steps_for_execution source.execution_id r in
      let rep_steps = Repository.list_steps_for_execution replay.execution_id r in
      unless (option_eq uuid_eq source.current_plan_id replay.current_plan_id) (
        item ReplayDiffCategory.plan ReplayDiffSeverity.warning "current_plan_id"
          "Current plan revision id differs (expected when replay re-plans)."
          (id_text source.current_plan_id) (id_text replay.current_plan_id)
          "execution.current_plan_id")
      ++ unless (length src_steps == length rep_steps) (
          item ReplayDiffCategory.plan ReplayDiffSeverity.significant "step_count"
            "Number of persisted steps differs between source and replay."
            (some (text env (int (length src_steps)))) (some (text env (int (length rep_steps))))
            "steps.count")

  brief_fields : Option Fields → Option String
  brief_fields none = none
  brief_fields (some d) = brief env 400 (object d)

  -- `_compare_validation`: its second test never holds where the first does not.
  unfoldable pub compare_validation : Execution → Execution → List ReplayDiffItem
  unfolding brief_fields
  compare_validation source replay =
      unless (option_eq fields_eq source.validation_summary replay.validation_summary) (
        item ReplayDiffCategory.validation ReplayDiffSeverity.warning "validation_summary"
          "Execution-level validation_summary differs." (brief_fields source.validation_summary)
          (brief_fields replay.validation_summary) "execution.validation_summary")

  -- `"present" if d else "absent"`: an empty dictionary is absent.
  abbrev presence : Option Fields → String
  presence none = "absent"
  presence (some end) = "absent"
  presence (some (field k v d)) = "present"

  unfoldable pub one_sided : Option Fields → Option Fields → List ReplayDiffItem
  one_sided a b =
      item ReplayDiffCategory.result ReplayDiffSeverity.warning "result_presence"
        "Top-level execution result present on one side only." (some (presence a))
        (some (presence b)) "execution.result"
      ∷ []

  abbrev pub result_keys_of_interest : List String
  result_keys_of_interest =
      "status" ∷ "outcome" ∷ "summary" ∷ "validation" ∷ "governance" ∷ "error" ∷ "message" ∷ []

  unfoldable pub results : Option Fields → Option Fields → List ReplayDiffItem
  unfolding one_sided
  results none none = []
  results (some a) (some b) =
      compare_dict_fields env a b ReplayDiffCategory.result "execution.result"
        result_keys_of_interest none ReplayDiffSeverity.warning
  results a b = one_sided a b

  -- `_compare_result`
  unfoldable pub compare_result : Execution → Execution → List ReplayDiffItem
  unfolding results
  compare_result source replay = results source.result replay.result
