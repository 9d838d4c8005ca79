-- ===== src/Tools/Catalog.antt =====
-- services/tool-runtime/tool_runtime/registry.py: the registered tools, with the function that
-- handles each.
use agentic_ai_platform.Prelude.{
  ℕ, Option, none, some, String, List, [], ◌∷◌, ◌==◌, string_eq, if◌then◌else◌,
}
use agentic_ai_platform.Schemas.{
  RegisteredTool, ToolRetryPolicy, ToolSideEffectClass, ToolIdempotency,
}

pub data Handler : Type 0 where
  fetch_incident_metadata update_incident_status lookup_metrics_snapshot fetch_cost_snapshot :
      Handler

abbrev pub Registry : Type 0
Registry = List (String × (RegisteredTool × Handler))

-- `get`
unfoldable pub find_tool : String → Registry → Option (RegisteredTool × Handler)
find_tool name [] = none
find_tool name ((n, entry) ∷ rest) =
    let later = find_tool name rest in if n == name then some entry else later

-- `register`
unfoldable pub register : RegisteredTool → Handler → Registry → Registry
register meta handler [] = (meta.tool_name, (meta, handler)) ∷ []
register meta handler ((n, entry) ∷ rest) =
    let later = register meta handler rest in
    if n == meta.tool_name then (n, (meta, handler)) ∷ rest else (n, entry) ∷ later

abbrev read_policy : ToolRetryPolicy
read_policy = record { max_retries = 2; backoff_ms = 100 }

abbrev mutate_policy : ToolRetryPolicy
mutate_policy = record { max_retries = 0; backoff_ms = 0 }

-- A registration of the default registry that only reads.
abbrev reader : String → ℕ → String → String → RegisteredTool
reader tool_name timeout_bounds_ms provider_id description = record {
  tool_name = tool_name;
  side_effect_class = ToolSideEffectClass.read_only;
  idempotency = ToolIdempotency.idempotent;
  timeout_bounds_ms = timeout_bounds_ms;
  description = description;
  provider_id = provider_id;
  retry_policy = read_policy;
}

abbrev pub incident_update : RegisteredTool
incident_update = record {
  tool_name = "incident_system_update_tool";
  side_effect_class = ToolSideEffectClass.state_changing;
  idempotency = ToolIdempotency.non_idempotent;
  timeout_bounds_ms = 5000;
  description = "Update incident status (requires approved=true; governed mutating example).";
  provider_id = "incident_system_v1";
  retry_policy = mutate_policy;
}

-- `build_default_registry`; the call that stands first in the source is innermost.
unfoldable pub build_default_registry : Registry
unfolding register
build_default_registry =
    register
      (reader "signal_lookup_tool" 4000 "metrics_lookup_v1"
        "Alias for metrics_lookup_tool (Phase 4 compatibility).")
      lookup_metrics_snapshot
      (register
        (reader "incident_metadata_tool" 3000 "incident_system_v1"
          "Alias for incident_system_tool (Phase 4 compatibility).")
        fetch_incident_metadata
        (register
          (reader "cloud_cost_tool" 4000 "cloud_cost_v1"
            "Cloud cost attribution snapshot with anomaly flag.")
          fetch_cost_snapshot
          (register
            (reader "metrics_lookup_tool" 4000 "metrics_lookup_v1"
              "Synthetic metrics/log snapshot for an incident.")
            lookup_metrics_snapshot
            (register incident_update update_incident_status (
              register
                (reader "incident_system_tool" 3000 "incident_system_v1"
                  "Fetch incident metadata from incident system (local fixture).")
                fetch_incident_metadata [])))))
