-- ===== src/Replay/Diff/Calls.antt =====
-- services/orchestrator/app/services/replay_diff_service.py: what is compared of the model's events,
-- of tool calls, policy evaluations, proposals and approvals. A path of a `model_reasoning` row is
-- a text or missing, as the engine writes it.
use agentic_ai_platform.Prelude.{
  ℕ, suc, Bool, ◌&&◌, ◌||◌, some, String, ◌<>◌, List, [], ◌∷◌, ◌++◌, ◌==◌, nat_eq, string_eq, leb,
  keep, length, is_empty, if◌then◌else◌,
}
use agentic_ai_platform.Prelude.Order.{sort}
use agentic_ai_platform.Value.{Value, int, str, get}
use agentic_ai_platform.Value.Same.{equal}
use agentic_ai_platform.Schemas.{
  Execution, TraceRow, Step, ToolCall, PolicyEvaluation, Approval, tool_call_status_value,
  tool_side_effect_class_value, tool_idempotency_value, policy_decision_value,
  approval_decision_value,
}
use agentic_ai_platform.Repository.{Repository}
use agentic_ai_platform.Repository
use agentic_ai_platform.Env.{Env, text}
use agentic_ai_platform.Replay.Diff.Items.{
  ReplayDiffItem, ReplayDiffSeverity, ReplayDiffCategory, item, about_call, unless, brief,
}
use agentic_ai_platform.Replay.Diff.Steps.{by_creation}

-- `for idx, (a, b) in enumerate(zip(xs, ys, strict=False))` from index `i`.
module _ {A : Type 0} (differences : ℕ → A → A → List ReplayDiffItem) where
  unfoldable pub zipped : ℕ → List A → List A → List ReplayDiffItem
  zipped i [] ys = []
  zipped i (x ∷ xs) [] = []
  zipped i (x ∷ xs) (y ∷ ys) = differences i x y ++ zipped (suc i) xs ys

abbrev model_events : Execution → List TraceRow
model_events e = keep (λ row. row.event_type == "model_reasoning") e.trace_timeline

is_known_path : Value → Bool
is_known_path v = equal v (str "model_runtime") || equal v (str "deterministic_fallback")

flatten : Repository → List Step → List ToolCall
flatten r [] = []
flatten r (s ∷ steps) = Repository.list_tool_calls_for_step s.step_id r ++ flatten r steps

-- `_all_tool_calls`
unfoldable pub all_tool_calls : Repository → ℕ → List ToolCall
unfolding flatten
all_tool_calls r id =
    sort (λ a b. leb a.created_at b.created_at)
      (flatten r (by_creation (Repository.list_steps_for_execution id r)))

module _ (env : Env) where
  -- The number of rows on the two sides.
  unfoldable pub count_difference :
      {A : Type 0}
      → ReplayDiffCategory
      → ReplayDiffSeverity
      → (title description path : String) → List A
      → List A
      → List ReplayDiffItem
  count_difference c s title description path xs ys = unless (length xs == length ys) (
      item c s title description (some (text env (int (length xs))))
        (some (text env (int (length ys)))) path)

  model_event_differences : ℕ → TraceRow → TraceRow → List ReplayDiffItem
  unfolding is_known_path
  model_event_differences i se re =
      let sp = get "path" se.detail in
      let rp = get "path" re.detail in
      let st = get "task" se.detail in
      let rt = get "task" re.detail in
      let path = "trace_timeline.model_reasoning[" <> text env (int i) in
      unless (equal sp rp) (
        item ReplayDiffCategory.model_reasoning
          (if is_known_path sp && is_known_path rp
            then ReplayDiffSeverity.warning
            else ReplayDiffSeverity.significant)
          "model_path" ("model_reasoning path differs at event index " <> (text env (int i) <> "."))
          (some (text env sp)) (some (text env rp)) (path <> "].path"))
      ++ unless (equal st rt) (
          item ReplayDiffCategory.model_reasoning ReplayDiffSeverity.info "model_task"
            ("model_reasoning task differs at event index " <> (text env (int i) <> "."))
            (some (text env st)) (some (text env rt)) (path <> "].task"))

  -- `_compare_model_reasoning`
  unfoldable pub compare_model_reasoning : Execution → Execution → List ReplayDiffItem
  unfolding count_difference model_event_differences
  compare_model_reasoning source replay =
      let src_events = model_events source in
      let rep_events = model_events replay in
      count_difference ReplayDiffCategory.model_reasoning ReplayDiffSeverity.warning
        "model_reasoning_event_count" "Count of model_reasoning trace events differs."
        "trace_timeline.model_reasoning.count" src_events rep_events
      ++ zipped model_event_differences 0 src_events rep_events

  unfoldable pub call_differences : ℕ → ToolCall → ToolCall → List ReplayDiffItem
  call_differences i sc rc =
      let prefix = "tool_calls[" <> (text env (int i) <> "]") in
      let about = about_call rc.tool_call_id in
      unless (sc.tool_name == rc.tool_name) (
        about (
          item ReplayDiffCategory.tool_call ReplayDiffSeverity.warning "tool_name"
            ("Tool name differs at index " <> (text env (int i) <> ".")) (some sc.tool_name)
            (some rc.tool_name) (prefix <> ".tool_name")))
      ++ (unless (tool_call_status_value sc.status == tool_call_status_value rc.status) (
            about (
              item ReplayDiffCategory.tool_call ReplayDiffSeverity.warning "tool_call_status"
                ("Tool call status differs at index " <> (text env (int i) <> "."))
                (some (tool_call_status_value sc.status)) (some (tool_call_status_value rc.status))
                (prefix <> ".status")))
          ++ (unless
                (tool_side_effect_class_value sc.side_effect_class
                  == tool_side_effect_class_value rc.side_effect_class)
                (about (
                  item ReplayDiffCategory.tool_call ReplayDiffSeverity.info "side_effect_class"
                    "Tool side-effect class differs."
                    (some (tool_side_effect_class_value sc.side_effect_class))
                    (some (tool_side_effect_class_value rc.side_effect_class))
                    (prefix <> ".side_effect_class")))
              ++ unless
                  (tool_idempotency_value sc.idempotency == tool_idempotency_value rc.idempotency)
                  (about (
                    item ReplayDiffCategory.tool_call ReplayDiffSeverity.info "idempotency"
                      "Tool idempotency declaration differs."
                      (some (tool_idempotency_value sc.idempotency))
                      (some (tool_idempotency_value rc.idempotency)) (prefix <> ".idempotency")))))

  -- `_compare_tool_calls`
  unfoldable pub compare_tool_calls : Repository → Execution → Execution → List ReplayDiffItem
  unfolding count_difference call_differences
  compare_tool_calls r source replay =
      let src_calls = all_tool_calls r source.execution_id in
      let rep_calls = all_tool_calls r replay.execution_id in
      count_difference ReplayDiffCategory.tool_call ReplayDiffSeverity.warning "tool_call_count"
        "Total tool call count differs (flattened across steps by created_at)." "tool_calls.count"
        src_calls rep_calls
      ++ zipped call_differences 0 src_calls rep_calls

  unfoldable pub evaluation_differences :
      ℕ → PolicyEvaluation → PolicyEvaluation → List ReplayDiffItem
  evaluation_differences i se re =
      let path = "policy_evaluations[" <> text env (int i) in
      if policy_decision_value se.decision == policy_decision_value re.decision
      then unless (se.reason == re.reason) (
          item ReplayDiffCategory.policy ReplayDiffSeverity.info "policy_reason"
            ("Policy reason text differs at evaluation index " <> (text env (int i) <> "."))
            (brief env 200 (str se.reason)) (brief env 200 (str re.reason)) (path <> "].reason"))
      else item ReplayDiffCategory.policy ReplayDiffSeverity.significant "policy_decision"
          ("Policy decision differs at evaluation index " <> (text env (int i) <> "."))
          (some (policy_decision_value se.decision)) (some (policy_decision_value re.decision))
          (path <> "].decision")
        ∷ []

  -- `_compare_policy`. Where there is no evaluation on either side it returns at once: the number
  -- of proposals is not compared then.
  unfoldable pub compare_policy : Repository → Execution → Execution → List ReplayDiffItem
  unfolding count_difference evaluation_differences
  compare_policy r source replay =
      let src_evals = Repository.list_policy_evaluations_for_execution source.execution_id r in
      let rep_evals = Repository.list_policy_evaluations_for_execution replay.execution_id r in
      if is_empty src_evals && is_empty rep_evals
      then []
      else count_difference ReplayDiffCategory.policy ReplayDiffSeverity.warning
          "policy_evaluation_count" "Number of policy evaluations differs."
          "policy_evaluations.count" src_evals rep_evals
        ++ (zipped evaluation_differences 0 src_evals rep_evals
            ++ count_difference ReplayDiffCategory.policy ReplayDiffSeverity.info
                "action_proposal_count" "Action proposal count differs." "action_proposals.count"
                (Repository.list_action_proposals_for_execution source.execution_id r)
                (Repository.list_action_proposals_for_execution replay.execution_id r))

  unfoldable pub approval_differences : ℕ → Approval → Approval → List ReplayDiffItem
  approval_differences i sa ra =
      unless (approval_decision_value sa.decision == approval_decision_value ra.decision) (
        item ReplayDiffCategory.policy ReplayDiffSeverity.significant "approval_decision"
          ("Approval decision differs at index " <> (text env (int i) <> "."))
          (some (approval_decision_value sa.decision)) (some (approval_decision_value ra.decision))
          ("approvals[" <> (text env (int i) <> "].decision")))

  -- `_compare_approvals`
  unfoldable pub compare_approvals : Repository → Execution → Execution → List ReplayDiffItem
  unfolding count_difference approval_differences
  compare_approvals r source replay =
      let src_ap = Repository.list_approvals_for_execution source.execution_id r in
      let rep_ap = Repository.list_approvals_for_execution replay.execution_id r in
      count_difference ReplayDiffCategory.policy ReplayDiffSeverity.warning "approval_count"
        "Number of approval records differs." "approvals.count" src_ap rep_ap
      ++ zipped approval_differences 0 src_ap rep_ap
