-- ===== src/Tests/Replays.antt =====
-- The replay of a small execution, its comparison with the source, and each theorem on replays
-- applied to one.
use agentic_ai_platform.Prelude.{
  ℕ, is_empty, nat_eq, ◌≡◌, ◌↔◌, refl, true, false, Option, none, some, String, [], ◌∷◌,
  if◌then◌else◌, false, arith, Bool-cases, inl, inr, ◌==◌, string_eq,
}
use agentic_ai_platform.Prelude.Dict.{lookup}
use agentic_ai_platform.Value.{str, bool, end, dict, object, get, Fields}
use agentic_ai_platform.Value.Same.{equal, is_nan}
use agentic_ai_platform.Engine.Quiet.{IsWellFormed}
use agentic_ai_platform.Schemas.{Execution, ExecutionStatus}
use agentic_ai_platform.RuntimeMeta.{is_cancellation_requested}
use agentic_ai_platform.Prelude.Text.{non_blank}
use agentic_ai_platform.Value.{remove}
use agentic_ai_platform.Repository
use agentic_ai_platform.Engine.Trace.{get_execution}
use agentic_ai_platform.Exec.{◌>>=◌, reads, if_some, pure, raise}
use agentic_ai_platform.Replay.{
  admit_source, validate_request, check_mode, replay_input, strip_replay_metadata,
}
use agentic_ai_platform.Exec.{World, Result, ok, err, validation_error, replay_validation}
use agentic_ai_platform.Engine.Steers.{Advanced}
use agentic_ai_platform.Replay.{
  ReplayRequest, ReplayMode, ReplayCreatedResponse, ReplayProvenance, Admitted, admit,
  create_replay, replay_provenance_key, dump_provenance,
}
use agentic_ai_platform.Replay.Guarantees.{
  create_replay_creates, create_replay_refused, create_replay_lifecycle,
}
use agentic_ai_platform.Replay.Exact.{exact_replay_cancellation, compare_input_exact}
use agentic_ai_platform.Replay.Diff.{compare, summary_of, is_accepted}
use agentic_ai_platform.Replay.Diff.Executions.{compare_input, business_input}
use agentic_ai_platform.Replay.Diff.Laws.{compare-runs}
use agentic_ai_platform.Value.Same.{fields_eq}
use agentic_ai_platform.Replay.Snapshot.{option_eq}
use agentic_ai_platform.Replay.Diff.Executions.{compare_result, compare_validation}
use agentic_ai_platform.Replay.Diff.Results.{compare_result-agree, agree}
use agentic_ai_platform.Replay.Diff.Inputs.{compare_input_lem}
use agentic_ai_platform.Tests.Worlds.{
  waiting, context, env, waiting_world, waiting-IsWellFormed, no_steps-StepsKeyed, world_of,
}

abbrev exactly : ReplayRequest
exactly = record {
  source_execution_id = 1;
  replay_mode = ReplayMode.exact;
  environment_target = "sandbox";
  anchor_plan_id = none;
  override_plan = none;
  input_overrides = none;
  reason = none;
  requested_by = some "ann";
  execution_mode = none;
  label = none;
  start_execution = false;
}

-- An exact replay with an override is refused.
abbrev overriding : ReplayRequest
overriding = record exactly { input_overrides = some (dict (("severity", str "high") ∷ [])) }

abbrev passed : Admitted
passed = record { source = waiting; context = context; input = waiting.input; overrides = end }

admit-exactly : (admit exactly waiting_world).0 ≡ ok passed
unfolding admit admit_source validate_request check_mode replay_input strip_replay_metadata remove
    ◌>>=◌ get_execution reads if_some pure lookup non_blank Repository.get_execution
    Repository.get_context
admit-exactly = refl

admit-overriding :
    (admit overriding waiting_world).0
    ≡ err (replay_validation "input_overrides are not allowed for exact replay")
unfolding admit admit_source validate_request check_mode ◌>>=◌ get_execution reads if_some raise
    lookup Repository.get_execution Repository.get_context
admit-overriding = refl

-- A source whose cancellation was requested, and what the checks return of it.
abbrev flagged : Execution
flagged = record waiting {
  input =
      dict (
        ("__orch_runtime_meta__", object (dict (("cancellation_requested", bool true) ∷ []))) ∷ []);
}

abbrev passed_flagged : Admitted
passed_flagged = record passed { source = flagged; input = flagged.input }

admit-flagged : (admit exactly (world_of flagged)).0 ≡ ok passed_flagged
unfolding admit admit_source validate_request check_mode replay_input strip_replay_metadata remove
    ◌>>=◌ get_execution reads if_some pure lookup non_blank Repository.get_execution
    Repository.get_context
admit-flagged = refl

replay_waiting :
    (answer : ReplayCreatedResponse) × (w' : World) × (child : Execution) × (create_replay env
        exactly 9 waiting_world
      ≡ some (ok answer, w'))
    × (lookup answer.replay_execution_id waiting_world.executions ≡ none)
    × (lookup answer.replay_execution_id w'.executions ≡ some child)
    × (child.parent_execution_id ≡ some 1)
    × (child.workflow_type ≡ "incident_triage")
    × (child.status ≡ ExecutionStatus.created)
    × (get replay_provenance_key child.input ≡ object (dump_provenance answer.provenance))
    × ((k : ℕ) (e : Execution)
        → lookup k waiting_world.executions ≡ some e
        → lookup k w'.executions ≡ some e)
replay_waiting =
    create_replay_creates env exactly 9 waiting_world passed admit-exactly waiting-IsWellFormed refl

replay_refused :
    create_replay env overriding 9 waiting_world
    ≡ some
        (err (replay_validation "input_overrides are not allowed for exact replay"), waiting_world)
replay_refused =
    create_replay_refused env overriding 9 waiting_world
      (replay_validation "input_overrides are not allowed for exact replay") admit-overriding

abbrev at_once : ReplayRequest
at_once = record exactly { start_execution = true }

replay_started :
    (r : Result ReplayCreatedResponse) × (w' : World) × (create_replay env at_once 9 waiting_world
      ≡ some (r, w'))
    × Advanced waiting_world w'
replay_started =
    create_replay_lifecycle env at_once 9 waiting_world waiting-IsWellFormed
      (no_steps-StepsKeyed waiting)

flagged-IsWellFormed : IsWellFormed (world_of flagged)
unfolding lookup
flagged-IsWellFormed = record {
  keyed = λ k e h. ground (arith, h);
  given = λ k e h. ground (arith, h);
}

no_nan : (k : String) → is_nan (get k (business_input waiting)) ≡ false
unfolding business_input strip_replay_metadata remove get is_nan
no_nan k = elim (Bool-cases ("incident_id" == k)) [ inl h ↦ rw h refl | inr h ↦ rw h refl ]

replay_of_flagged :
    (answer : ReplayCreatedResponse) × (w' : World) × (child : Execution) × (create_replay env
        exactly 9
        (world_of flagged)
      ≡ some (ok answer, w'))
    × (lookup answer.replay_execution_id w'.executions ≡ some child)
    × (is_cancellation_requested child ≡ is_cancellation_requested flagged)
replay_of_flagged =
    exact_replay_cancellation env exactly 9 (world_of flagged) passed_flagged admit-flagged refl
      flagged-IsWellFormed refl

same_inputs :
    (answer : ReplayCreatedResponse) × (w' : World) × (child : Execution) × (create_replay env
        exactly 9 waiting_world
      ≡ some (ok answer, w'))
    × (lookup answer.replay_execution_id w'.executions ≡ some child)
    × (business_input child ≡ business_input waiting)
    × (compare_input env waiting child none ≡ [])
same_inputs =
    compare_input_exact env exactly 9 waiting_world passed none admit-exactly refl
      waiting-IsWellFormed refl no_nan

abbrev model_validate : Fields → Option ReplayProvenance
model_validate d = none

compare-waiting :
    let summary = summary_of env model_validate waiting waiting waiting_world.repo in
    compare env model_validate 1 1 waiting_world
    ≡ ((if is_accepted summary.items then ok summary else err validation_error), waiting_world)
unfolding lookup
compare-waiting = compare-runs env model_validate 1 1 waiting waiting waiting_world refl refl

inputs_differ : (compare_input env waiting flagged none ≡ []) ↔ (
    (k : String) → equal (get k (business_input waiting)) (get k (business_input flagged)) ≡ true)
inputs_differ = compare_input_lem env waiting flagged none

abbrev another : Execution
another = record waiting { execution_id = 2 }

-- An execution with another result and with a validation summary.
abbrev resolved : Execution
resolved = record another {
  result = some (dict (("outcome", str "resolved") ∷ []));
  validation_summary = some end;
}

results_agree :
    (is_empty (compare_result env waiting resolved) ≡ agree env waiting.result resolved.result)
    × (is_empty (compare_validation env waiting resolved)
        ≡ option_eq fields_eq waiting.validation_summary resolved.validation_summary)
results_agree = compare_result-agree env waiting resolved
