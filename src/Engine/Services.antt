-- ===== src/Engine/Services.antt =====
-- The coordinator paths that call the knowledge service and the tool runtime.
use agentic_ai_platform.Prelude.{
  ℕ, ◌+◌, false, none, some, String, ◌<>◌, List, [], ◌∷◌, ◌++◌, map, ◌==◌, string_eq, length,
  if◌then◌else◌,
}
use agentic_ai_platform.Value.{
  Value, null, int, str, uuid, list, object, nil, cons, Items, Fields, end, dict, get, get_or, put,
  truthy,
}
use agentic_ai_platform.Schemas.{
  ExecutionContext, Step, StepResult, ToolCall, ToolInvokeRequest, tool_call_status_value,
}
use agentic_ai_platform.Repository
use agentic_ai_platform.Tools
use agentic_ai_platform.Exec.{
  raise, service_error, Exec, pure, saves, uuid4, next_call, collect, ◌>>=◌, ◌>>◌,
}
use agentic_ai_platform.Env.{
  ModelOutcome, answered, threw, Env, text, ToolRuntime, RetrievalRequest, RetrievalResponse,
}
use agentic_ai_platform.Engine.Trace.{
  append_row, context_of, cancellation_check, result_at, str_or_null, float_or_null, texts, join,
  take_text, only_dicts, tool_output,
}

-- `tool_rt.invoke(t_req, now=now)`, with the cancellation check of the execution. The repository
-- does not change while a tool runs, so every check of one call has one answer.
unfoldable pub invoke_tool : ToolRuntime → ToolInvokeRequest → ℕ → Exec ToolCall
invoke_tool rt request now = do
  id ← uuid4
  k ← next_call
  stop ← cancellation_check request.execution_id
  pure
      (Tools.execute id now request rt.registry (record {
        attempt = rt.attempt k;
        cancelled = λ _. stop;
        started_ns = rt.started_ns k;
        ended_ns = rt.ended_ns k;
      })).0

-- One turn of `for tool_name in (…)`: invoke, save the call, and add a row to the timeline.
unfoldable pub run_tool_for :
    ToolRuntime
    → Step
    → ExecutionContext
    → Fields
    → List (String × Value)
    → ℕ
    → String
    → Exec ToolCall
unfolding invoke_tool
run_tool_for rt step ctx input more now tool_name = do
  call ←
      invoke_tool rt
        (record {
          execution_id = step.execution_id;
          step_id = step.step_id;
          execution_context_id = ctx.context_id;
          tool_name = tool_name;
          input = input;
          action_proposal_id = none;
          policy_denied = false;
        })
        now
  saves (Repository.save_tool_call call)
  append_row step.execution_id "tool_call_completed"
      (dict (
        ("step_id", uuid step.step_id)
        ∷ ("tool_call_id", uuid call.tool_call_id)
        ∷ ("tool_name", str call.tool_name)
        ∷ ("status", str (tool_call_status_value call.status))
        ∷ ("latency_ms", elim call.latency_ms [ none ↦ null | some ms ↦ int ms ])
        ∷ more))
      now
  pure call

abbrev pub incident_id_of : Env → Fields → String
incident_id_of env ex_in = text env (get_or "incident_id" (get_or "id" (str "unknown") ex_in) ex_in)

-- `_scope_id_from_input`
unfoldable pub scope_id_from_input : Env → Fields → String
scope_id_from_input env ex_in = text env (
    if truthy (get "scope_id" ex_in)
    then get "scope_id" ex_in
    else if truthy (get "billing_scope_id" ex_in)
    then get "billing_scope_id" ex_in
    else get_or "id" (str "unknown") ex_in)

-- `str(ex_in.get("service_id") or ex_in.get("service") or "")`
abbrev pub service_of : Env → Fields → String
service_of env ex_in = text env (
    if truthy (get "service_id" ex_in)
    then get "service_id" ex_in
    else if truthy (get "service" ex_in)
    then get "service" ex_in
    else str "")

abbrev chunk_ids : RetrievalResponse → Value
chunk_ids r = texts (map (λ c. c.chunk_id) r.chunks)

abbrev uuids : List ToolCall → Items
uuids [] = nil
uuids (c ∷ calls) = cons (uuid c.tool_call_id) (uuids calls)

abbrev tool_names : List ToolCall → Value
tool_names calls = texts (map (λ c. c.tool_name) calls)

abbrev retrieval_evidence : RetrievalResponse → Fields
retrieval_evidence r = dict (
    ("type", str "knowledge_retrieval")
    ∷ ("retrieval_id", uuid r.retrieval_id)
    ∷ ("corpus_version", str r.corpus_version)
    ∷ ("chunk_ids", chunk_ids r)
    ∷ [])

abbrev tool_evidence : ToolCall → Fields
tool_evidence c = dict (
    ("type", str "tool_invocation")
    ∷ ("tool_call_id", uuid c.tool_call_id)
    ∷ ("tool_name", str c.tool_name)
    ∷ ("status", str (tool_call_status_value c.status))
    ∷ [])

-- `signals`
abbrev signals_of : Fields → Items
signals_of out = elim (get "signals" out) [ list xs ↦ only_dicts xs | v ↦ nil ]

abbrev count_items : Items → ℕ
count_items nil = 0
count_items (cons v rest) = count_items rest + 1

abbrev bit : Items → Env → String → List String
bit nil env words = []
bit xs env words = (text env (int (count_items xs)) <> words) ∷ []

-- An exception of the service is not caught.
unfoldable pub or_raise : {A : Type 0} → ModelOutcome A → Exec A
or_raise (answered a) = pure a
or_raise (threw class text) = raise (service_error class text)

-- `self._knowledge.retrieve(req)` and the row that records it
unfoldable pub retrieve :
    (ℕ → RetrievalRequest → ModelOutcome RetrievalResponse)
    → RetrievalRequest
    → Step
    → List (String × Value)
    → ℕ
    → Exec RetrievalResponse
retrieve knowledge request step more now = do
  k ← next_call
  retrieval ← or_raise (knowledge k request)
  append_row step.execution_id "knowledge_retrieved"
      (dict (
        ("step_id", uuid step.step_id)
        ∷ ("retrieval_id", uuid retrieval.retrieval_id)
        ∷ ("chunk_count", int (length retrieval.chunks))
        ∷ ("corpus_version", str retrieval.corpus_version)
        ∷ more))
      now
  pure retrieval

module _ (env : Env) where
  -- `_gather_evidence_via_services`
  unfoldable pub gather_evidence_via_services :
      ToolRuntime
      → (ℕ → RetrievalRequest → ModelOutcome RetrievalResponse)
      → Step
      → ℕ
      → Exec StepResult
  unfolding retrieve run_tool_for
  gather_evidence_via_services rt knowledge step now = do
    ctx ← context_of step.execution_id
    let incident_id = incident_id_of env step.input.execution_input
    retrieval ←
        retrieve knowledge
          (record {
            tenant_id = ctx.tenant_id;
            workflow_type = "incident_triage";
            query =
                "incident triage evidence correlation latency error deploy for incident "
                <> incident_id;
            max_results = 5;
            filters = dict (("incident_id", str incident_id) ∷ []);
            correlation_request_id = some ctx.request_id;
          })
          step [] now
    calls ←
        collect ("incident_metadata_tool" ∷ "signal_lookup_tool" ∷ [])
          (run_tool_for rt step ctx (dict (("incident_id", str incident_id) ∷ [])) [] now)
    let meta_out = tool_output "incident_metadata_tool" calls end
    let signals = signals_of (tool_output "signal_lookup_tool" calls end)
    rid ← uuid4
    pure (
        result_at step now rid
          (dict (
            (
              "evidence_summary",
              str (
                  join "; " (
                    ("Retrieved "
                        <> text env (int (length retrieval.chunks))
                        <> " knowledge chunk(s) for "
                        <> incident_id)
                      ∷ (if truthy (get "service" meta_out)
                          then ("metadata service=" <> text env (get "service" meta_out)) ∷ []
                          else [])
                    ++ bit signals env " signal(s) from signal_lookup_tool")),
            )
            ∷ ("signals", list signals)
            ∷ ("retrieval_id", uuid retrieval.retrieval_id)
            ∷ ("tool_call_ids", list (uuids calls))
            ∷ ("incident_id", str incident_id)
            ∷ ("metadata_snapshot", object meta_out)
            ∷ []))
          (retrieval_evidence retrieval
            ∷ (map
                  (λ c. dict (
                    ("type", str "knowledge_chunk")
                    ∷ ("chunk_id", str c.chunk_id)
                    ∷ ("source_uri", str c.source_uri)
                    ∷ ("title", str_or_null c.title)
                    ∷ ("excerpt", str (take_text 280 c.text_excerpt))
                    ∷ ("score", float_or_null c.score)
                    ∷ []))
                  retrieval.chunks
                ++ map tool_evidence calls))
          -- 0.88
          4606101554889448489
          (dict (
            ("source", str "gather_evidence_phase4")
            ∷ ("tools", tool_names calls)
            ∷ ("retrieval_id", uuid retrieval.retrieval_id)
            ∷ []))
          none)

  -- `_retrieve_cost_evidence_via_services`
  unfoldable pub retrieve_cost_evidence_via_services :
      (ℕ → RetrievalRequest → ModelOutcome RetrievalResponse) → Step → ℕ → Exec StepResult
  unfolding retrieve
  retrieve_cost_evidence_via_services knowledge step now = do
    ctx ← context_of step.execution_id
    let scope_id = scope_id_from_input env step.input.execution_input
    let service = service_of env step.input.execution_input
    let filters = dict (("workflow", str "cost_attribution") ∷ [])
    retrieval ←
        retrieve knowledge
          (record {
            tenant_id = ctx.tenant_id;
            workflow_type = "cost_attribution";
            query = "cost billing spend anomaly attribution usage metrics for scope " <> scope_id;
            max_results = 5;
            filters = if service == "" then filters else put "service" (str service) filters;
            correlation_request_id = some ctx.request_id;
          })
          step (("workflow_type", str "cost_attribution") ∷ []) now
    rid ← uuid4
    pure (
        result_at step now rid
          (dict (
            ("scope_id", str scope_id)
            ∷ (
              "evidence_summary",
              str (
                  "Retrieved "
                  <> text env (int (length retrieval.chunks))
                  <> " cost/billing knowledge chunk(s) for "
                  <> scope_id),
            )
            ∷ ("chunk_ids", chunk_ids retrieval)
            ∷ ("retrieval_id", uuid retrieval.retrieval_id)
            ∷ ("corpus_version", str retrieval.corpus_version)
            ∷ []))
          (retrieval_evidence retrieval
            ∷ map
                (λ c. dict (
                  ("type", str "knowledge_chunk")
                  ∷ ("chunk_id", str c.chunk_id)
                  ∷ ("document_id", str_or_null c.document_id)
                  ∷ ("source_uri", str c.source_uri)
                  ∷ ("title", str_or_null c.title)
                  ∷ ("excerpt", str (take_text 280 c.text_excerpt))
                  ∷ ("score", float_or_null c.score)
                  ∷ ("metadata", object c.metadata)
                  ∷ []))
                retrieval.chunks)
          -- 0.87
          4606011482896901079
          (dict (
            ("source", str "retrieve_cost_evidence")
            ∷ ("retrieval_id", uuid retrieval.retrieval_id)
            ∷ []))
          none)

  -- `tool_input`
  unfoldable pub cost_tool_input : Step → Fields
  unfolding scope_id_from_input
  cost_tool_input step =
      let service = service_of env step.input.execution_input in
      let input =
        dict (("scope_id", str (scope_id_from_input env step.input.execution_input)) ∷ []) in
      if service == "" then input else put "service" (str service) input

  -- `_correlate_usage_via_tools`
  unfoldable pub correlate_usage_via_tools : ToolRuntime → Step → ℕ → Exec StepResult
  unfolding run_tool_for cost_tool_input
  correlate_usage_via_tools rt step now = do
    ctx ← context_of step.execution_id
    let scope_id = scope_id_from_input env step.input.execution_input
    calls ← collect ("cloud_cost_tool" ∷ "metrics_lookup_tool" ∷ []) (
        run_tool_for rt step ctx (cost_tool_input step)
          (("workflow_type", str "cost_attribution") ∷ []) now)
    let cost_out = tool_output "cloud_cost_tool" calls end
    let signals = signals_of (tool_output "metrics_lookup_tool" calls end)
    rid ← uuid4
    pure (
        result_at step now rid
          (dict (
            ("scope_id", str scope_id)
            ∷ (
              "correlation_summary",
              str (
                  join "; " (
                    ("Correlated cost and usage for scope " <> scope_id)
                      ∷ (elim (get "daily_cost_usd" cost_out) [
                        | null ↦ []
                        | v ↦ ("daily_cost_usd=" <> text env v) ∷ []
                      ])
                    ++ bit signals env " usage signal(s)")),
            )
            ∷ ("tool_call_ids", list (uuids calls))
            ∷ ("cost_snapshot", object cost_out)
            ∷ ("usage_signals", list signals)
            ∷ []))
          (map tool_evidence calls)
          -- 0.86
          4605921410904353669
          (dict (("source", str "correlate_usage_patterns") ∷ ("tools", tool_names calls) ∷ []))
          none)
