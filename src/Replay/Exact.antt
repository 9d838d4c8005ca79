-- ===== src/Replay/Exact.antt =====
-- An exact replay starts from the input of its source.
use agentic_ai_platform.Prelude.{ℕ, ◌≡◌, refl, ◌∙◌, ap, Option, some, false, String, []}
use agentic_ai_platform.Value.{get, remove, get-put, get-remove, remove-put, remove-remove}
use agentic_ai_platform.RuntimeMeta.{runtime_meta_key, read_runtime_meta, is_cancellation_requested}
use agentic_ai_platform.Exec.{World, ok}
use agentic_ai_platform.Env.{Env}
use agentic_ai_platform.Engine.Ready.{append_timeline}
use agentic_ai_platform.Replay.{
  ReplayRequest, ReplayMode, ReplayProvenance, Admitted, replay_provenance_key, admit, child_of,
  strip_replay_metadata, append_replay_created_event, create_replay, produce, ReplayCreatedResponse,
}
use agentic_ai_platform.Replay.Checks.{admit-source}
use agentic_ai_platform.Replay.Child.{stored_row, produce-holds}
use agentic_ai_platform.Replay.Diff.Executions.{business_input, compare_input}
use agentic_ai_platform.Replay.Diff.Inputs.{compare_input_lem}
use agentic_ai_platform.Value.Same.{is_nan, equal_refl}
use agentic_ai_platform.Prelude.Dict.{lookup}
use agentic_ai_platform.Schemas.{Execution}
use agentic_ai_platform.Service.{new_execution}
use agentic_ai_platform.Engine.Quiet.{IsWellFormed}
use agentic_ai_platform.Replay.Guarantees.{response, create_replay-runs}

module _ (env : Env) (q : ReplayRequest) (ts : ℕ) (w : World) (a : Admitted)
    (passed : (admit q w).0 ≡ ok a) (exact : q.replay_mode ≡ ReplayMode.exact) where
  as_source : a.input ≡ strip_replay_metadata a.source.input
  as_source = ((admit-source q w a passed).1.as_source exact).0

  same_business_input : business_input (stored_row env q ts a w) ≡ business_input a.source
  unfolding business_input child_of append_replay_created_event append_timeline
      strip_replay_metadata
  same_business_input =
      remove-put replay_provenance_key _ a.input
      ∙ ap (remove replay_provenance_key) as_source
      ∙ remove-remove replay_provenance_key a.source.input

  same_meta :
      get runtime_meta_key (stored_row env q ts a w).input ≡ get runtime_meta_key a.source.input
  unfolding child_of append_replay_created_event append_timeline strip_replay_metadata
  same_meta =
      get-put replay_provenance_key runtime_meta_key _ a.input
      ∙ ap (get runtime_meta_key) as_source
      ∙ get-remove replay_provenance_key runtime_meta_key a.source.input

-- An exact replay that passes the checks and is not to be started is answered, and the row that is
-- stored for it has the business input of the source; where no field of this input is a NaN, which
-- Python takes for different from itself, the diff of source and replay finds no difference of input.
pub compare_input_exact :
    (env : Env) (q : ReplayRequest) (ts : ℕ) (w : World) (a : Admitted)
    (prov : Option ReplayProvenance)
    → (admit q w).0 ≡ ok a
    → q.replay_mode ≡ ReplayMode.exact
    → IsWellFormed w
    → q.start_execution ≡ false
    → ((k : String) → is_nan (get k (business_input a.source)) ≡ false)
    → (answer : ReplayCreatedResponse) × (w' : World) × (child : Execution) × (create_replay env q
          ts w
        ≡ some (ok answer, w'))
      × (lookup answer.replay_execution_id w'.executions ≡ some child)
      × (business_input child ≡ business_input a.source)
      × (compare_input env a.source child prov ≡ [])
unfolding child_of append_replay_created_event append_timeline new_execution
compare_input_exact env q ts w a prov passed exact formed off numbers =
    let child = stored_row env q ts a w in
    let same = same_business_input env q ts w a passed exact in
    (
      response env q ts w a child,
      (produce env q ts a w).1,
      child,
      create_replay-runs env q ts w a passed formed off,
      produce-holds env q ts a w,
      same,
      (compare_input_lem env a.source child prov).1
          (λ k. rw same (equal_refl (get k (business_input a.source)) (numbers k))),
    )

-- An exact replay that passes the checks and is not to be started is answered, and the row that is
-- stored for it has the cancellation flag of its source: where cancellation of the source was
-- requested, it counts as requested of the replay as well.
pub exact_replay_cancellation :
    (env : Env) (q : ReplayRequest) (ts : ℕ) (w : World) (a : Admitted)
    → (admit q w).0 ≡ ok a
    → q.replay_mode ≡ ReplayMode.exact
    → IsWellFormed w
    → q.start_execution ≡ false
    → (answer : ReplayCreatedResponse) × (w' : World) × (child : Execution) × (create_replay env q
          ts w
        ≡ some (ok answer, w'))
      × (lookup answer.replay_execution_id w'.executions ≡ some child)
      × (is_cancellation_requested child ≡ is_cancellation_requested a.source)
unfolding is_cancellation_requested read_runtime_meta child_of append_replay_created_event
    append_timeline new_execution
exact_replay_cancellation env q ts w a passed exact formed off = (
  response env q ts w a (stored_row env q ts a w),
  (produce env q ts a w).1,
  stored_row env q ts a w,
  create_replay-runs env q ts w a passed formed off,
  produce-holds env q ts a w,
  rw (same_meta env q ts w a passed exact) refl,
)
