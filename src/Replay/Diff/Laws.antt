-- ===== src/Replay/Diff/Laws.antt =====
-- What a comparison of two executions says.
use agentic_ai_platform.Prelude.{ℕ, ◌≡◌, refl, Option, some, if◌then◌else◌, Bool-cases, inl, inr}
use agentic_ai_platform.Prelude.Dict.{lookup}
use agentic_ai_platform.Value.{Fields}
use agentic_ai_platform.Schemas.{Execution}
use agentic_ai_platform.Repository.{Repository}
use agentic_ai_platform.Repository
use agentic_ai_platform.Exec.{World, ok, err, pure, raise, reads, if_some, validation_error, ◌>>=◌}
use agentic_ai_platform.Env.{Env}
use agentic_ai_platform.Engine.Trace.{get_execution}
use agentic_ai_platform.Replay.{ReplayProvenance}
use agentic_ai_platform.Replay.Snapshot.{same_execution_refl}
use agentic_ai_platform.Replay.Diff.{recheck, differences, summary_of, is_accepted, compare}

recheck-runs :
    (id : ℕ) (e : Execution) (w : World)
    → lookup id w.executions ≡ some e
    → recheck id e w ≡ (ok tt, w)
unfolding recheck get_execution Repository.get_execution reads pure if_some ◌>>=◌
recheck-runs id e w h = rw h (rw (same_execution_refl e) refl)

module _ (env : Env) (model_validate : Fields → Option ReplayProvenance) where
  -- Two executions that are in the store compare to the summary of their differences, or to the
  -- refusal of a summary with an item or a list that is too long; the checks that nothing was mutated
  -- pass, and nothing is.
  pub compare-runs :
      (source_id replay_id : ℕ) (s r : Execution) (w : World)
      → lookup source_id w.executions ≡ some s
      → lookup replay_id w.executions ≡ some r
      → let summary = summary_of env model_validate s r w.repo in
        compare env model_validate source_id replay_id w
        ≡ ((if is_accepted summary.items then ok summary else err validation_error), w)
  unfolding compare get_execution Repository.get_execution reads pure raise if_some ◌>>=◌
      is_accepted summary_of
  compare-runs source_id replay_id s r w hs hr =
      let first = recheck-runs source_id s w hs in
      let second = recheck-runs replay_id r w hr in
      elim (Bool-cases (is_accepted (differences env model_validate s r w.repo))) [
        | inl fine ↦ rw (hs, hr) (rw fine (rw (first, second) refl))
        | inr long ↦ rw (hs, hr) (rw long refl)
      ]
