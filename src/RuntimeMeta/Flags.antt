-- ===== src/RuntimeMeta/Flags.antt =====
-- The cancellation flag through the writers of the metadata.
use text.Mathlib.TextEquality.{eq_iff}
use agentic_ai_platform.Prelude.{
  ℕ, ◌≡◌, refl, ◌≢◌, true, false, String, List, [], ◌∷◌, arith, string_eq,
}
use agentic_ai_platform.Value.{
  Value, bool, time, str, object, Fields, end, field, get, truthy, get-put, get-remove,
}
use agentic_ai_platform.Schemas.{Execution}
use agentic_ai_platform.RuntimeMeta.{
  runtime_meta_key, as_dict, read_runtime_meta, patch_all, store_meta, apply_runtime_meta,
  is_cancellation_requested, mark_queued, mark_worker_started, request_cancellation_meta,
}

read-store_meta :
    (meta input : Fields) → as_dict (get runtime_meta_key (store_meta meta input)) ≡ meta
unfolding as_dict store_meta
read-store_meta end input = ground (arith, get-remove runtime_meta_key runtime_meta_key input)
read-store_meta (field k v meta) input =
    ground (arith, get-put runtime_meta_key runtime_meta_key (object (field k v meta)) input)

get-store_meta :
    (k : String) (meta input : Fields)
    → k ≢ runtime_meta_key
    → get k (store_meta meta input) ≡ get k input
unfolding store_meta
get-store_meta k end input h =
    ground (arith, get-remove runtime_meta_key k input, eq_iff runtime_meta_key k)
get-store_meta k (field j v meta) input h =
    ground
      (arith, get-put runtime_meta_key k (object (field j v meta)) input, eq_iff runtime_meta_key k)

read_runtime_meta-apply :
    (e : Execution) (patch : List (String × Value))
    → read_runtime_meta (apply_runtime_meta e patch) ≡ patch_all patch (read_runtime_meta e)
unfolding read_runtime_meta apply_runtime_meta
read_runtime_meta-apply e patch = read-store_meta (patch_all patch (read_runtime_meta e)) e.input

get-apply :
    (e : Execution) (patch : List (String × Value)) (k : String)
    → k ≢ runtime_meta_key
    → get k (apply_runtime_meta e patch).input ≡ get k e.input
unfolding apply_runtime_meta
get-apply e patch k h = get-store_meta k (patch_all patch (read_runtime_meta e)) e.input h

-- What every writer of the metadata leaves alone: the status, and the caller's own input keys.
pub record KeepsPayload (e e' : Execution) : Type 0 where
  pub status : e'.status ≡ e.status
  pub execution_id : e'.execution_id ≡ e.execution_id
  pub payload : (k : String) → k ≢ runtime_meta_key → get k e'.input ≡ get k e.input

apply-KeepsPayload :
    (e : Execution) (patch : List (String × Value)) → KeepsPayload e (apply_runtime_meta e patch)
apply-KeepsPayload e patch = record {
  status = unfold apply_runtime_meta in refl;
  execution_id = unfold apply_runtime_meta in refl;
  payload = get-apply e patch;
}

-- A cancellation request is read back as one, and changes neither the status nor any other key of
-- the input.
pub request_cancellation_meta_lem :
    (e : Execution) (at : ℕ) (reason : String)
    → (is_cancellation_requested (request_cancellation_meta e at reason) ≡ true)
      × KeepsPayload e (request_cancellation_meta e at reason)
unfolding is_cancellation_requested request_cancellation_meta
request_cancellation_meta_lem e at reason = (
  rw (read_runtime_meta-apply e) (unfold patch_all truthy in simp get-put),
  apply-KeepsPayload e (
      ("cancellation_requested", bool true)
      ∷ ("cancellation_requested_at", time at)
      ∷ ("cancellation_reason", str reason)
      ∷ []),
)

-- Queueing an execution clears a request for its cancellation.
pub mark_queued_lem :
    (e : Execution) (at : ℕ)
    → (is_cancellation_requested (mark_queued e at) ≡ false) × KeepsPayload e (mark_queued e at)
unfolding is_cancellation_requested mark_queued
mark_queued_lem e at = (
  rw (read_runtime_meta-apply e) (unfold patch_all truthy in simp get-put),
  apply-KeepsPayload e (("queued_at", time at) ∷ ("cancellation_requested", bool false) ∷ []),
)

-- A worker that starts on an execution leaves a request for its cancellation in place.
pub mark_worker_started_lem :
    (e : Execution) (worker_id : String) (at : ℕ)
    → (is_cancellation_requested (mark_worker_started e worker_id at) ≡ is_cancellation_requested e)
      × KeepsPayload e (mark_worker_started e worker_id at)
unfolding is_cancellation_requested mark_worker_started
mark_worker_started_lem e worker_id at = (
  rw (read_runtime_meta-apply e) (unfold patch_all truthy in simp get-put),
  apply-KeepsPayload e (("worker_id", str worker_id) ∷ ("worker_started_at", time at) ∷ []),
)
