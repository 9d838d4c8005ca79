-- ===== src/Tools.antt =====
-- services/tool-runtime/tool_runtime: the registry (registry.py) and the executor with bounded
-- retries (executor.py), which `ToolRuntimeService.invoke` (service.py) calls once, between
-- counters that are not modelled. Handlers are callbacks: what a run of one gives is a parameter.
mod Catalog
pub mod Retries
pub mod Governed
unfoldable pub use Catalog.*
use agentic_ai_platform.Prelude.{
  ℕ, zero, suc, ◌+◌, ◌-◌, ◌*◌, ◌/◌, ◌<>◌, Bool, true, false, not, ◌||◌, ◌&&◌, Option, none, some,
  String, List, [], ◌∷◌, ◌==◌, nat_eq, leb, if◌then◌else◌,
}
use agentic_ai_platform.Value.{Value, bool, int, str, object, Fields, dict, contains, put}
use agentic_ai_platform.Schemas.{
  RegisteredTool, ToolInvokeRequest, ToolCall, ToolCallStatus, ToolSideEffectClass, ToolIdempotency,
}

-- The classes of exception that the executor tells apart: `TransientToolError`, `TimeoutError`,
-- the network errors, an `OSError` with its errno, `ToolValidationError`, and any other.
pub data Failure : Type 0 where
  transient timed_out network validation other : Failure
  os_error : Option ℕ → Failure

-- What one run of a handler gives: a value, or an exception with its text.
pub data Attempt : Type 0 where
  returned : Value → Attempt
  raised : Failure → String → Attempt

-- What the executor does to the world: run the handler, or sleep for some milliseconds.
pub data Effect : Type 0 where
  ran : Effect
  slept : ℕ → Effect

-- How one turn of the retry loop ends: with the record of the call, or with a failure after which
-- the loop sleeps and goes round.
pub data Turn : Type 0 where
  done : ToolCall → List Effect → Turn
  retry : Failure → String → Turn

-- The surroundings of one `execute`: the outcome of the k-th run, the answer to each cancellation
-- check (number 0 before the loop, k + 1 in turn k), and the two clock readings.
pub record Surroundings : Type 0 where
  pub attempt : Handler → Fields → ℕ → Attempt
  pub cancelled : ℕ → Bool
  pub started_ns : ℕ
  pub ended_ns : ℕ

unfoldable pub is_transient : Failure → Bool
is_transient transient = true
is_transient timed_out = true
is_transient network = true
is_transient (os_error none) = false
is_transient (os_error (some errno)) = errno == 110 || errno == 111
is_transient _ = false

pub is_timeout : Failure → Bool
is_timeout timed_out = true
is_timeout _ = false

-- `_elapsed_ms`; the difference stops at 0, as `max(0, …)` does.
pub elapsed_ms : Surroundings → ℕ
elapsed_ms w = (w.ended_ns - w.started_ns) / 1000000

-- `_validate_input` passes
unfoldable pub has_incident : Fields → Bool
has_incident input = contains "incident_id" input || contains "id" input

module _ (tcid : ℕ) (now : ℕ) (request : ToolInvokeRequest) where
  -- `_build_call`
  pub build_call :
      ToolSideEffectClass
      → ToolIdempotency
      → ToolCallStatus
      → Option Fields
      → ℕ
      → Option Fields
      → ToolCall
  build_call side_effect_class idempotency status output latency_ms error = record {
    tool_call_id = tcid;
    execution_id = request.execution_id;
    step_id = request.step_id;
    execution_context_id = request.execution_context_id;
    action_proposal_id = request.action_proposal_id;
    tool_name = request.tool_name;
    side_effect_class = side_effect_class;
    idempotency = idempotency;
    input = request.input;
    output = output;
    status = status;
    latency_ms = some latency_ms;
    error = error;
    created_at = now;
    updated_at = now;
  }

  abbrev pub problem : String → String → List (String × Value) → Option Fields
  problem code message more = some (dict (("code", str code) ∷ ("message", str message) ∷ more))

  module _ (meta : RegisteredTool) (handler : Handler) (w : Surroundings) where
    pub ended : ToolCallStatus → Option Fields → ℕ → Option Fields → ToolCall
    unfolding build_call
    ended = build_call meta.side_effect_class meta.idempotency

    abbrev pub max_attempts : ℕ
    max_attempts = meta.retry_policy.max_retries + 1

    -- What follows the loop. `last` is the exception that left it.
    pub exhausted : Option (Failure × String) → ToolCall
    unfolding ended is_timeout elapsed_ms
    exhausted none = ended ToolCallStatus.failure none (elapsed_ms w) (
        problem "tool_execution_error" "unknown"
          (("retry_count", int (max_attempts - 1)) ∷ ("provider_id", str meta.provider_id) ∷ []))
    exhausted (some (failure, message)) =
        ended (if is_timeout failure then ToolCallStatus.timeout else ToolCallStatus.failure) none
          (elapsed_ms w)
          (problem (if is_timeout failure then "timeout" else "tool_execution_error") message
            (("retry_count", int (max_attempts - 1)) ∷ ("provider_id", str meta.provider_id) ∷ []))

    pub succeeded : Fields → ℕ → ToolCall
    unfolding ended elapsed_ms
    succeeded out k =
        let runtime_meta = object (
          dict (
            ("provider_id", str meta.provider_id)
            ∷ ("retry_count", int k)
            ∷ ("timed_out", bool false)
            ∷ [])) in
        ended ToolCallStatus.success (some (put "_tool_runtime" runtime_meta out)) (elapsed_ms w)
          none

    pub invalid : String → ℕ → ToolCall
    unfolding ended elapsed_ms
    invalid message k =
        ended ToolCallStatus.failure none (elapsed_ms w)
          (problem "validation_error" message (("retry_count", int k) ∷ []))

    pub stopped : ℕ → ToolCall
    unfolding ended
    stopped latency_ms =
        ended ToolCallStatus.failure none latency_ms
          (problem "cancelled" "execution cancellation requested" [])

    -- One turn of the loop: the body of `for attempt in range(max_attempts)`.
    pub turn : ℕ → Turn
    unfolding exhausted succeeded invalid stopped is_transient elapsed_ms
    turn k =
        if w.cancelled (suc k)
        then done (stopped (elapsed_ms w)) []
        else elim (w.attempt handler request.input k) [
          | returned (object out) ↦ done (succeeded out k) (ran ∷ [])
          | returned value ↦ done (invalid "tool handler must return dict" k) (ran ∷ [])
          | raised validation message ↦ done (invalid message k) (ran ∷ [])
          | raised failure message ↦
              if not (is_transient failure) || leb max_attempts (k + 1)
              then done (exhausted (some (failure, message))) (ran ∷ [])
              else retry failure message
        ]

    -- The loop: `left` turns remain, this is turn `k`, and `last` is the last exception.
    pub attempts : ℕ → ℕ → Option (Failure × String) → ToolCall × List Effect
    unfolding turn
    attempts zero k last = (exhausted last, [])
    attempts (suc left) k last = elim (turn k) [
      | done call effects ↦ (call, effects)
      | retry failure message ↦
          let (call, rest) = attempts left (suc k) (some (failure, message)) in
          (call, ran ∷ slept (meta.retry_policy.backoff_ms * (k + 1)) ∷ rest)
    ]

    -- After the lookup of the tool: the early returns, and then the loop.
    pub run_tool : ToolCall × List Effect
    unfolding attempts has_incident
    run_tool =
        if w.cancelled 0
        then (stopped 0, [])
        else if not (has_incident request.input)
        then (
          ended ToolCallStatus.failure none 0
              (problem "validation_error" "incident_id or id is required in tool input" []),
          [],
        )
        else attempts max_attempts 0 none

  -- `ToolExecutor.execute`, with what it does to the world.
  unfoldable pub execute : Registry → Surroundings → ToolCall × List Effect
  unfolding run_tool build_call
  execute registry w =
      if request.policy_denied
      then (
        build_call ToolSideEffectClass.state_changing ToolIdempotency.non_idempotent
            ToolCallStatus.rejected_by_policy none 0
            (problem "rejected_by_policy" "policy denied before tool invoke" []),
        [],
      )
      else elim (find_tool request.tool_name registry) [
        | none ↦ (
          build_call ToolSideEffectClass.read_only ToolIdempotency.idempotent ToolCallStatus.failure
              none 0 (problem "unknown_tool" ("tool not registered: " <> request.tool_name) []),
          [],
        )
        | some (meta, handler) ↦ run_tool meta handler w
      ]
