-- ===== src/RuntimeMeta.antt =====
-- services/orchestrator/app/runtime/runtime_meta.py: runtime metadata of an execution, kept under a
-- reserved key of its input.
pub mod Flags
use agentic_ai_platform.Prelude.{ℕ, Bool, true, false, Option, none, some, String, List, [], ◌∷◌}
use agentic_ai_platform.Value.{
  Value, null, bool, time, str, object, Fields, end, field, get, put, remove, truthy,
}
use agentic_ai_platform.Schemas.{Execution}

abbrev pub runtime_meta_key : String
runtime_meta_key = "__orch_runtime_meta__"

-- `isinstance(raw, dict)`
as_dict : Value → Fields
as_dict (object d) = d
as_dict _ = end

unfoldable pub read_runtime_meta : Execution → Fields
unfolding as_dict
read_runtime_meta e = as_dict (get runtime_meta_key e.input)

-- One turn of the loop over the patch: `None` removes the key.
patch_entry : String → Value → Fields → Fields
patch_entry key null meta = remove key meta
patch_entry key value meta = put key value meta

patch_all : List (String × Value) → Fields → Fields
unfolding patch_entry
patch_all [] meta = meta
patch_all ((key, value) ∷ patch) meta = patch_all patch (patch_entry key value meta)

-- `if meta:` keeps the reserved key only for metadata that is not empty.
store_meta : Fields → Fields → Fields
store_meta end input = remove runtime_meta_key input
store_meta meta input = put runtime_meta_key (object meta) input

unfoldable pub apply_runtime_meta : Execution → List (String × Value) → Execution
unfolding read_runtime_meta patch_all store_meta
apply_runtime_meta e patch = record e {
  input = store_meta (patch_all patch (read_runtime_meta e)) e.input;
}

unfoldable pub is_cancellation_requested : Execution → Bool
unfolding read_runtime_meta
is_cancellation_requested e = truthy (get "cancellation_requested" (read_runtime_meta e))

unfoldable pub mark_queued : Execution → ℕ → Execution
unfolding apply_runtime_meta
mark_queued e at =
    apply_runtime_meta e (("queued_at", time at) ∷ ("cancellation_requested", bool false) ∷ [])

unfoldable pub mark_worker_started : Execution → String → ℕ → Execution
unfolding apply_runtime_meta
mark_worker_started e worker_id at =
    apply_runtime_meta e (("worker_id", str worker_id) ∷ ("worker_started_at", time at) ∷ [])

unfoldable pub request_cancellation_meta : Execution → ℕ → String → Execution
unfolding apply_runtime_meta
request_cancellation_meta e at reason = apply_runtime_meta e (
    ("cancellation_requested", bool true)
    ∷ ("cancellation_requested_at", time at)
    ∷ ("cancellation_reason", str reason)
    ∷ [])
