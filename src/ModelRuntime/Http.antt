-- ===== src/ModelRuntime/Http.antt =====
-- services/model-runtime/model_runtime/providers/http_common.py: one request, and its failures as
-- the exceptions of the runtime.
use agentic_ai_platform.Prelude.{ℕ, Option, none, some, String, ◌<>◌}
use agentic_ai_platform.Value.{Value}
use agentic_ai_platform.ModelRuntime.{
  ModelResult, returned, raised, transient, non_retryable, classify_http_status,
}

-- What `urlopen` and the reading of its answer come to. The text of an `HTTPError` is the body that
-- it has, or its reason.
pub data Reply : Type 0 where
  body : String → Reply
  http_error : ℕ → String → Reply
  url_timeout : Reply
  url_error : String → Reply
  timed_out : Reply

decoded : Option Value → ModelResult Value
decoded none = raised (non_retryable "invalid JSON response")
decoded (some v) = returned v

-- `json_loads` is `none` where `json.loads` raises; `show` is the text of a status.
unfoldable pub post_json : (String → Option Value) → (ℕ → String) → Reply → ModelResult Value
unfolding decoded
post_json json_loads show (body raw) = decoded (json_loads raw)
post_json json_loads show (http_error status detail) =
    raised (classify_http_status status ("HTTP " <> (show status <> (": " <> detail))))
post_json json_loads show url_timeout = raised (transient "request timed out")
post_json json_loads show (url_error reason) = raised (transient reason)
post_json json_loads show timed_out = raised (transient "request timed out")
