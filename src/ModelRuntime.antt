-- ===== src/ModelRuntime.antt =====
-- services/model-runtime/model_runtime: errors.py, result.py, and `ResilientStructuredProvider` of
-- resilient.py, which calls a provider with bounded retries. Metrics and events are left out.
pub mod Retries
pub mod Config
pub mod Http
pub mod OpenAi
use agentic_ai_platform.Prelude.{
  ℕ, zero, suc, ◌+◌, Bool, true, false, ◌||◌, Option, none, some, String, List, [], ◌∷◌, ◌++◌, max,
  leb, ◌==◌, nat_eq, if◌then◌else◌,
}

-- The exceptions of errors.py, and any other one, with their texts.
pub data ModelError : Type 0 where
  transient schema_validation non_retryable other : String → ModelError

-- A call returned or raised.
pub data ModelResult {ℓ} (A : Type ℓ) : Type ℓ where
  returned : A → ModelResult A
  raised : ModelError → ModelResult A

unfoldable pub classify_http_status : ℕ → String → ModelError
classify_http_status status =
    if status == 408 || status == 429 || leb 500 status
    then transient
    else if status == 400 || status == 401 || status == 403 || status == 404 || status == 422
    then non_retryable
    else transient

pub record ModelInvocationTelemetry : Type 0 where
  pub latency_ms : ℕ
  pub retry_count : ℕ
  pub provider_type : String
  pub model_name : String
  pub input_tokens : ℕ
  pub output_tokens : ℕ
  pub total_tokens : ℕ

pub record ReasoningCallResult (A : Type 0) : Type 0 where
  pub output : A
  pub telemetry : ModelInvocationTelemetry

-- What `_call_with_retries` comes to: its result, the number of calls of the provider, and the
-- multiples of the backoff that it slept.
pub record Called (A : Type 0) : Type 0 where
  pub result : ModelResult (ReasoningCallResult A)
  pub calls : ℕ
  pub sleeps : List ℕ

-- The end of the loop: `assert last_exc is not None`, `raise last_exc`.
unfoldable pub raise_last : {A : Type 0} → Option ModelError → ModelResult A
raise_last none = raised (other "")
raise_last (some e) = raised e

-- `fn k` is what the k-th call of the provider comes to and `latency k` the time it took, in
-- milliseconds; `with_invocation` is the copy of an output with another telemetry.
module _ {A : Type 0} (fn : ℕ → ModelResult (ReasoningCallResult A)) (latency : ℕ → ℕ)
    (with_invocation : A → ModelInvocationTelemetry → A) where
  -- The result of the call, with the latency and the number of retries noted.
  unfoldable pub noted : ℕ → ReasoningCallResult A → ReasoningCallResult A
  noted attempt r =
      let updated = record r.telemetry { latency_ms = latency attempt; retry_count = attempt } in
      record { output = with_invocation r.output updated; telemetry = updated }

  -- One turn of the loop: `later` is what its next turn comes to after a sleep.
  unfoldable pub after_call :
      ℕ
      → ℕ
      → List ℕ
      → (ModelError → List ℕ → Called A)
      → ModelResult (ReasoningCallResult A)
      → Called A
  unfolding noted raise_last
  after_call max_attempts attempt sleeps later (returned r) = record {
    result = returned (noted attempt r);
    calls = suc attempt;
    sleeps = sleeps;
  }
  after_call max_attempts attempt sleeps later (raised (transient m)) =
      if leb max_attempts (suc attempt)
      then record { result = raise_last (some (transient m)); calls = suc attempt; sleeps = sleeps }
      else later (transient m) (sleeps ++ suc attempt ∷ [])
  after_call max_attempts attempt sleeps later (raised e) = record {
    result = raised e;
    calls = suc attempt;
    sleeps = sleeps;
  }

  -- `for attempt in range(max_attempts)`, with the number of turns left.
  unfoldable pub attempts : ℕ → ℕ → ℕ → Option ModelError → List ℕ → Called A
  attempts max_attempts zero attempt last_exc sleeps = record {
    result = raise_last last_exc;
    calls = attempt;
    sleeps = sleeps;
  }
  attempts max_attempts (suc left) attempt last_exc sleeps =
      after_call max_attempts attempt sleeps
        (λ e slept. attempts max_attempts left (suc attempt) (some e) slept) (fn attempt)

  -- `_call_with_retries`; a number of retries below zero is written 0 and gives one attempt as well.
  unfoldable pub call_with_retries : ℕ → Called A
  call_with_retries max_retries =
      let max_attempts = max 1 (max_retries + 1) in attempts max_attempts max_attempts 0 none []
