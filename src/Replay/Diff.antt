-- ===== src/Replay/Diff.antt =====
-- services/orchestrator/app/services/replay_diff_service.py: `ReplayDiffService.compare`, which reads
-- the two executions and everything stored of them, and writes nothing.
pub mod Items
pub mod Executions
pub mod Steps
pub mod Calls
pub mod Records
pub mod Results
pub mod Laws
pub mod Inputs
use agentic_ai_platform.Prelude.{
  ℕ, Bool, true, false, ◌&&◌, Option, none, some, List, [], ◌∷◌, ◌++◌, if◌then◌else◌, leb, all,
  keep, length,
}
use agentic_ai_platform.Value.{Fields}
use agentic_ai_platform.Schemas.{Execution}
use agentic_ai_platform.Repository.{Repository}
use agentic_ai_platform.Exec.{
  Exec, World, pure, raise, reads, if_some, diff_not_found, diff_error, validation_error, ◌>>=◌,
  ◌>>◌,
}
use agentic_ai_platform.Env.{Env}
use agentic_ai_platform.Engine.Trace.{get_execution}
use agentic_ai_platform.Replay.{ReplayMode, ReplayProvenance}
use agentic_ai_platform.Replay.Snapshot.{same_execution}
use agentic_ai_platform.Replay.Diff.Items.{
  ReplayDiffItem, ReplayDiffSummary, is_within_limits, is_significant,
}
use agentic_ai_platform.Replay.Diff.Executions.{
  provenance_in, is_linked, compare_lineage, compare_execution_header, compare_input, compare_plan,
  compare_validation, compare_result,
}
use agentic_ai_platform.Replay.Diff.Steps.{compare_steps}
use agentic_ai_platform.Replay.Diff.Calls.{
  compare_model_reasoning, compare_tool_calls, compare_policy, compare_approvals,
}

abbrev mode_of : Option ReplayProvenance → Option ReplayMode
mode_of none = none
mode_of (some p) = some p.replay_mode

-- A read of a row that has to find it as it was.
unfoldable pub recheck : ℕ → Execution → Exec Unit
recheck id e = do
  after ← get_execution id
  if_some after (raise (diff_error "execution disappeared during read-only diff")) λ e'.
      if same_execution e' e then pure tt else raise (diff_error "execution mutated during diff")

-- pydantic refuses an item or a summary that is too long. An item is refused when it is made, and
-- nothing is written before or after.
unfoldable pub is_accepted : List ReplayDiffItem → Bool
is_accepted items = all is_within_limits items && leb (length items) 500

-- `model_validate` is pydantic's reading of a `ReplayProvenance`, `none` where it raises.
module _ (env : Env) (model_validate : Fields → Option ReplayProvenance) where
  -- The items from the second comparison on.
  unfoldable pub later_differences :
      Execution → Execution → Option ReplayProvenance → Repository → List ReplayDiffItem
  later_differences source replay prov r =
      compare_execution_header env source replay
      ++ (compare_input env source replay prov
          ++ (compare_plan env r source replay
              ++ (compare_steps env r source replay
                  ++ (compare_model_reasoning env source replay
                      ++ (compare_tool_calls env r source replay
                          ++ (compare_policy env r source replay
                              ++ (compare_approvals env r source replay
                                  ++ (compare_validation env source replay
                                      ++ compare_result env source replay))))))))

  unfoldable pub differences : Execution → Execution → Repository → List ReplayDiffItem
  unfolding later_differences
  differences source replay r =
      let prov = provenance_in model_validate replay in
      compare_lineage env source replay (is_linked prov source replay) prov
      ++ later_differences source replay prov r

  unfoldable pub summary_of : Execution → Execution → Repository → ReplayDiffSummary
  summary_of source replay r =
      let prov = provenance_in model_validate replay in
      let items = differences source replay r in
      record {
        source_execution_id = source.execution_id;
        replay_execution_id = replay.execution_id;
        replay_mode = mode_of prov;
        linked_to_source = is_linked prov source replay;
        total_differences = length items;
        significant_differences = length (keep is_significant items);
        items = items;
      }

  unfoldable pub compare : ℕ → ℕ → Exec ReplayDiffSummary
  compare source_id replay_id = do
    source ← get_execution source_id
    replay ← get_execution replay_id
    if_some source (raise diff_not_found) λ s. if_some replay (raise diff_not_found) λ r. do
      summary ← reads (λ w. summary_of s r w.repo)
      if is_accepted summary.items then pure tt else raise validation_error
      recheck source_id s
      recheck replay_id r
      pure summary
