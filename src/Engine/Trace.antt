-- ===== src/Engine/Trace.antt =====
-- Actions on the repository that the methods of the engine share, rows of the trace timeline, and
-- helpers for the values that the methods put together.
use agentic_ai_platform.Prelude.{
  ℕ, zero, suc, Bool, false, Option, none, some, String, ◌<>◌, List, [], ◌∷◌, ◌==◌, string_eq,
  if◌then◌else◌,
}
use agentic_ai_platform.Value.{Value, null, str, float, list, object, Items, nil, cons, Fields, end}
use agentic_ai_platform.Schemas.{
  Execution, ExecutionContext, Step, StepResult, StepCompleteness, ValidationOutcome, ToolCall,
}
use agentic_ai_platform.Repository
use agentic_ai_platform.RuntimeMeta.{is_cancellation_requested}
use agentic_ai_platform.Exec.{
  Exec, pure, raise, orchestration_error, reads, updates, if_some, ◌>>=◌,
}
use agentic_ai_platform.Engine.Ready.{append_timeline}

unfoldable pub get_execution : ℕ → Exec (Option Execution)
get_execution id = reads (λ w. Repository.get_execution id w.repo)

unfoldable pub update_execution : Execution → Exec Unit
update_execution e = updates (Repository.update_execution e)

-- `ex = self._repo.get_execution(id); if ex: self._repo.update_execution(_append_timeline(ex, …))`
unfoldable pub append_row : ℕ → String → Fields → ℕ → Exec Unit
append_row id event_type detail now = do
  found ← get_execution id
  if_some found (pure tt) (λ e. update_execution (append_timeline e event_type detail now))

-- The execution of a step and its context, or `OrchestrationError`.
unfoldable pub context_of : ℕ → Exec ExecutionContext
context_of id = do
  found ← get_execution id
  if_some found (raise (orchestration_error "missing execution")) λ e. do
    ctx ← reads (λ w. Repository.get_context e.execution_context_id w.repo)
    if_some ctx (raise (orchestration_error "missing context")) pure

-- `_cancellation_check`
unfoldable pub cancellation_check : ℕ → Exec Bool
cancellation_check id =
    reads (λ w. if_some (Repository.get_execution id w.repo) false is_cancellation_requested)

-- `res.output if res is not None and isinstance(res.output, dict) else {}`
unfoldable pub output_of : Option StepResult → Fields
output_of none = end
output_of (some r) = if_some r.output end (λ out. out)

unfoldable pub result_output : ℕ → Exec Fields
unfolding output_of
result_output step_id = reads (λ w. output_of (Repository.get_step_result step_id w.repo))

-- The `StepResult(…)` that every service path fills, with an empty list of errors, a latency of 1
-- and the time of the step throughout.
unfoldable pub result_at :
    Step → (now rid : ℕ) → Fields → List Fields → ℕ → Fields → Option ValidationOutcome → StepResult
result_at step now rid output evidence confidence detail outcome = record {
  step_result_id = rid;
  step_id = step.step_id;
  output = some output;
  evidence = evidence;
  errors = [];
  latency_ms = some 1;
  latency_started_at = some now;
  latency_ended_at = some now;
  confidence_score = some confidence;
  confidence_detail = some detail;
  completeness = some StepCompleteness.full;
  validation_outcome = outcome;
  created_at = now;
  updated_at = now;
}

abbrev pub str_or_null : Option String → Value
str_or_null none = null
str_or_null (some s) = str s

abbrev pub float_or_null : Option ℕ → Value
float_or_null none = null
float_or_null (some bits) = float bits

abbrev pub strings : List String → Items
strings [] = nil
strings (x ∷ rest) = cons (str x) (strings rest)

abbrev pub texts : List String → Value
texts xs = list (strings xs)

-- `separator.join(parts)`
unfoldable pub join : String → List String → String
join separator [] = ""
join separator (x ∷ []) = x
join separator (x ∷ y ∷ rest) = x <> (separator <> join separator (y ∷ rest))

-- `text[:n]`
unfoldable pub take_text : ℕ → String → String
take_text zero s = ""
take_text (suc n) String.[] = ""
take_text (suc n) (String.◌∷◌ c s) = String.◌∷◌ c (take_text n s)

-- `[dict(x) for x in xs if isinstance(x, dict)]`
unfoldable pub only_dicts : Items → Items
only_dicts nil = nil
only_dicts (cons (object d) rest) = cons (object d) (only_dicts rest)
only_dicts (cons v rest) = only_dicts rest

-- The output of the last of the calls of a tool, `{}` where there is none.
unfoldable pub tool_output : String → List ToolCall → Fields → Fields
tool_output name [] found = found
tool_output name (c ∷ calls) found =
    tool_output name calls
      (if c.tool_name == name then if_some c.output end (λ out. out) else found)
