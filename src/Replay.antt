-- ===== src/Replay.antt =====
-- services/orchestrator/app/services/replay_service.py: `ReplayService`, and the classes of
-- packages/common-schemas/src/common_schemas/execution.py that it takes and returns. Metrics and
-- events are left out.
use agentic_ai_platform.Prelude.{
  ℕ, Bool, true, false, not, ◌&&◌, ◌||◌, Option, none, some, String, ◌<>◌, List, [], ◌∷◌, ◌++◌, map,
  ◌==◌, string_eq, if◌then◌else◌, length,
}
use agentic_ai_platform.Prelude.Text.{text_leb, non_blank}
use agentic_ai_platform.Prelude.Order.{sort}
use agentic_ai_platform.Value.{
  Value, null, int, str, uuid, time, list, object, Fields, field, end, dict, contains, put, remove,
  merge,
}
use agentic_ai_platform.Schemas.{Execution, ExecutionContext, ExecutionMode, execution_status_value}
use agentic_ai_platform.Repository
use agentic_ai_platform.Exec.{
  Exec, World, Result, ok, err, pure, raise, reads, if_some, replay_not_found, replay_validation,
  replay_error, ◌>>=◌, ◌>>◌,
}
use agentic_ai_platform.Env.{Env, text}
use agentic_ai_platform.Engine.Ready.{append_timeline}
use agentic_ai_platform.Engine.Trace.{get_execution, update_execution, str_or_null, texts}
use agentic_ai_platform.Service.{Creation, create_execution, start_execution}
use agentic_ai_platform.Replay.Snapshot.{same_execution}
pub mod Snapshot
pub mod Diff
pub mod Checks
pub mod Child
pub mod Exact
pub mod Guarantees

pub data ReplayMode : Type 0 where
  exact investigative : ReplayMode

abbrev pub replay_mode_value : ReplayMode → String
replay_mode_value exact = "exact"
replay_mode_value investigative = "investigative"

abbrev pub replay_provenance_key : String
replay_provenance_key = "__replay_provenance__"

pub record ReplayRequest : Type 0 where
  pub source_execution_id : ℕ
  pub replay_mode : ReplayMode
  pub environment_target : String
  pub anchor_plan_id : Option ℕ
  pub override_plan : Option Fields
  pub input_overrides : Option Fields
  pub reason : Option String
  pub requested_by : Option String
  pub execution_mode : Option ExecutionMode
  pub label : Option String
  pub start_execution : Bool

pub record ReplayProvenance : Type 0 where
  pub source_execution_id : ℕ
  pub replay_mode : ReplayMode
  pub requested_by : Option String
  pub reason : Option String
  pub label : Option String
  pub input_overrides : Fields
  pub anchor_plan_id : Option ℕ
  pub environment_target : String
  pub created_execution_id : ℕ
  pub created_at : ℕ

pub record ReplayCreatedResponse : Type 0 where
  pub replay_execution_id : ℕ
  pub source_execution_id : ℕ
  pub status : String
  pub replay_mode : ReplayMode
  pub provenance : ReplayProvenance

unfoldable pub strip_replay_metadata : Fields → Fields
strip_replay_metadata input = remove replay_provenance_key input

abbrev pub uuid_or_null : Option ℕ → Value
uuid_or_null none = null
uuid_or_null (some n) = uuid n

-- `provenance.model_dump(mode="json")`
unfoldable pub dump_provenance : ReplayProvenance → Fields
dump_provenance p = dict (
    ("source_execution_id", uuid p.source_execution_id)
    ∷ ("replay_mode", str (replay_mode_value p.replay_mode))
    ∷ ("requested_by", str_or_null p.requested_by)
    ∷ ("reason", str_or_null p.reason)
    ∷ ("label", str_or_null p.label)
    ∷ ("input_overrides", object p.input_overrides)
    ∷ ("anchor_plan_id", uuid_or_null p.anchor_plan_id)
    ∷ ("environment_target", str p.environment_target)
    ∷ ("created_execution_id", uuid p.created_execution_id)
    ∷ ("created_at", time p.created_at)
    ∷ [])

-- `d.keys()`
unfoldable pub keys : Fields → List String
keys end = []
keys (field k v d) = k ∷ keys d

overrides_summary : Fields → Fields
unfolding keys
overrides_summary end = end
overrides_summary d =
    dict (("keys", texts (sort text_leb (keys d))) ∷ ("count", int (length (keys d))) ∷ [])

anchor_row : Option ℕ → List (String × Value)
anchor_row none = []
anchor_row (some n) = ("anchor_plan_id", uuid n) ∷ []

-- `_append_replay_created_event`
unfoldable pub append_replay_created_event : Execution → ReplayProvenance → ℕ → Execution
unfolding overrides_summary anchor_row
append_replay_created_event e p now =
    append_timeline e "replay_created"
      (dict (
        ("source_execution_id", uuid p.source_execution_id)
        ∷ ("replay_mode", str (replay_mode_value p.replay_mode))
        ∷ ("requested_by", str_or_null p.requested_by)
        ∷ ("reason", str_or_null p.reason)
        ∷ ("label", str_or_null p.label)
        ∷ ("environment_target", str p.environment_target)
        ∷ ("input_overrides_summary", object (overrides_summary p.input_overrides))
        ∷ anchor_row p.anchor_plan_id))
      now

-- `d or {}`
abbrev fields_or_empty : Option Fields → Fields
fields_or_empty none = end
fields_or_empty (some d) = d

abbrev is_end : Fields → Bool
is_end end = true
is_end (field k v d) = false

-- `s and s.strip()`
given : Option String → Bool
given none = false
given (some s) = non_blank s

-- The checks of one mode in `_validate_request`, and the last one.
unfoldable pub check_mode : ReplayRequest → ReplayMode → Exec Unit
unfolding given
check_mode q exact =
    if not (is_end (fields_or_empty q.input_overrides))
    then raise (replay_validation "input_overrides are not allowed for exact replay")
    else if_some q.override_plan (pure tt)
        (λ _. raise (replay_validation "override_plan is not allowed for exact replay"))
check_mode q investigative =
    if given q.reason || given q.label
    then pure tt
    else raise (replay_validation "investigative replay requires a non-empty reason or label")

-- `_validate_request`
unfoldable pub validate_request : ReplayRequest → Exec Unit
unfolding check_mode
validate_request q = do
  check_mode q q.replay_mode
  if non_blank q.environment_target
      then pure tt
      else raise (replay_validation "environment_target is required")

-- `replay_input` and `input_overrides_applied`
unfoldable pub replay_input : ReplayRequest → Fields → ReplayMode → Exec (Fields × Fields)
replay_input q base exact = pure (base, end)
replay_input q base investigative =
    let overrides = fields_or_empty q.input_overrides in
    if contains replay_provenance_key overrides
    then raise (replay_validation "input_overrides must not include a reserved key")
    else pure (merge base overrides, overrides)

-- What the checks of `create_replay` let through.
pub record Admitted : Type 0 where
  pub source : Execution
  pub context : ExecutionContext
  pub input : Fields
  pub overrides : Fields

-- `create_replay` from the source to its first write.
unfoldable pub admit_source : ReplayRequest → Execution → Exec Admitted
admit_source q src = do
  kept ← reads (λ w. Repository.get_context src.execution_context_id w.repo)
  if_some kept (raise replay_not_found) λ ctx. do
    validate_request q
    both ← replay_input q (strip_replay_metadata src.input) q.replay_mode
    pure (record { source = src; context = ctx; input = both.0; overrides = both.1 })

-- `create_replay` up to its first write.
unfoldable pub admit : ReplayRequest → Exec Admitted
admit q = do
  found ← get_execution q.source_execution_id
  if_some found (raise replay_not_found) (admit_source q)

-- `requested_by or principal_id`
abbrev text_or : Option String → Option String → Option String
text_or none other = other
text_or (some s) other = if s == "" then other else some s

abbrev some_or {ℓ} : {A : Type ℓ} → Option A → A → A
some_or none other = other
some_or (some a) other = a

abbrev first_of {ℓ} : {A : Type ℓ} → Option A → Option A → Option A
first_of none other = other
first_of (some a) other = some a

-- `dict(flags) if flags else None`
abbrev flags_of : Option Fields → Option Fields
flags_of none = none
flags_of (some end) = none
flags_of (some d) = some d

unfoldable pub replay_creation : Env → ReplayRequest → Admitted → Creation
replay_creation env q a = record {
  workflow_type = a.source.workflow_type;
  input_payload = end;
  tenant_id = a.context.tenant_id;
  request_id = "replay-" <> text env (uuid q.source_execution_id);
  environment = q.environment_target;
  policy_scope = a.context.policy_scope;
  principal_id = text_or q.requested_by a.context.principal_id;
  execution_mode = some_or q.execution_mode a.source.execution_mode;
  permissions_scope = a.context.permissions_scope;
  parent_execution_id = some q.source_execution_id;
  feature_flags = flags_of a.context.feature_flags;
}

unfoldable pub provenance_of : ReplayRequest → Admitted → (child_id ts : ℕ) → ReplayProvenance
provenance_of q a child_id ts = record {
  source_execution_id = q.source_execution_id;
  replay_mode = q.replay_mode;
  requested_by = q.requested_by;
  reason = q.reason;
  label = q.label;
  input_overrides = a.overrides;
  anchor_plan_id = first_of q.anchor_plan_id a.source.current_plan_id;
  environment_target = q.environment_target;
  created_execution_id = child_id;
  created_at = ts;
}

-- The child with its input, its provenance and its row.
unfoldable pub child_of : Execution → Fields → ReplayProvenance → ℕ → Execution
child_of child input p ts =
    append_replay_created_event
      (record child { input = put replay_provenance_key (object (dump_provenance p)) input }) p ts

-- From the creation of the child to its update.
unfoldable pub produce :
    Env → ReplayRequest → ℕ → Admitted → Exec (Admitted × Execution × ReplayProvenance)
produce env q ts a = do
  child ← create_execution (replay_creation env q a) ts
  let p = provenance_of q a child.execution_id ts
  let stored = child_of child a.input p ts
  update_execution stored
  pure (a, stored, p)

unfoldable pub prepare : Env → ReplayRequest → ℕ → Exec (Admitted × Execution × ReplayProvenance)
prepare env q ts = do a ← admit q; produce env q ts a

-- The source is read again and compared with what it was.
unfoldable pub respond :
    ReplayRequest → Admitted → ReplayProvenance → Execution → Exec ReplayCreatedResponse
respond q a p child = do
  after ← get_execution q.source_execution_id
  if if_some after false (λ e. same_execution e a.source)
      then pure (record {
        replay_execution_id = child.execution_id;
        source_execution_id = q.source_execution_id;
        status = execution_status_value child.status;
        replay_mode = q.replay_mode;
        provenance = p;
      })
      else raise (replay_error "source execution was mutated during replay creation")

-- What `create_replay` comes to: `none` where a start does not end.
abbrev pub Created : Type 0
Created = Option (Result ReplayCreatedResponse × World)

unfoldable pub finish :
    ReplayRequest → Admitted → ReplayProvenance → Option (Result Execution × World) → Created
finish q a p none = none
finish q a p (some (err why, w)) = some (err why, w)
finish q a p (some (ok child, w)) = some (respond q a p child w)

unfoldable pub launch :
    Env → ReplayRequest → Result (Admitted × Execution × ReplayProvenance) × World → Created
launch env q (err why, w) = some (err why, w)
launch env q (ok (a, child, p), w) =
    finish q a p
      (if q.start_execution then start_execution env child.execution_id w else some (ok child, w))

unfoldable pub create_replay : Env → ReplayRequest → ℕ → World → Created
create_replay env q ts w = launch env q (prepare env q ts w)

unfoldable pub list_replays_for_source : ℕ → ℕ → Exec (List Execution)
list_replays_for_source source limit =
    reads (λ w. Repository.list_executions_by_parent source limit w.repo)
