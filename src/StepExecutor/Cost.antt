-- ===== src/StepExecutor/Cost.antt =====
-- `_execute_cost_attribution_step` of services/orchestrator/app/runtime/step_executor.py. A float
-- literal is written by its bits, with the literal beside it.
use agentic_ai_platform.Prelude.{
  ℕ, ◌+◌, ◌%◌, ◌<>◌, true, Option, none, String, [], ◌∷◌, ◌==◌, string_eq, if◌then◌else◌,
}
use agentic_ai_platform.Value.{bool, int, float, str, list, object, Fields, dict, items}
use agentic_ai_platform.Schemas.{ValidationOutcome}
use agentic_ai_platform.Env.{Env}
use agentic_ai_platform.StepExecutor.Digest.{
  Simulated, outcome, seed_of, digest_of, seed_byte, scope_key_of, pick, simulated_payload,
}

module _ (env : Env) where
  -- `_execute_cost_attribution_step`, up to the record that it fills. The rounded sums are of whole
  -- numbers, so they are the floats of these.
  unfoldable pub execute_cost_attribution_step : String → Fields → Simulated
  unfolding seed_of digest_of seed_byte scope_key_of outcome
  execute_cost_attribution_step step_name ex_in =
      let scope_key = scope_key_of env ex_in in
      let seed = seed_of env scope_key in
      let digest = digest_of env (simulated_payload step_name "scope_key" scope_key) in
      let idx = seed_byte env 0 scope_key % 3 in
      let service = pick idx "payments-api" "data-pipeline" "search-index" in
      let team = pick (idx % 3) "platform" "finops" "data" in
      let simulated = λ (output : Fields) (confidence : ℕ) (vo : Option ValidationOutcome).
        let s : Simulated = record {
          output = output;
          confidence = confidence;
          validation_outcome = vo;
          evidence = dict (
              ("type", str "simulated_cost_attribution")
              ∷ ("step_name", str step_name)
              ∷ ("ref", str ("cost_attribution:" <> digest))
              ∷ []);
          confidence_detail = dict (
              ("source", str "step_executor_cost_attribution") ∷ ("step_name", str step_name) ∷ []);
        } in
        s in
      if step_name == "analyze_cost_anomaly"
      then
          -- 0.83
          simulated
          (dict (
            ("suspected_service", str service)
            ∷ ("suspected_team", str team)
            ∷ ("anomaly_type", str "spend_spike")
            ∷ (
              "estimated_cost_impact_usd",
              float (env.float_of (int (50 + seed_byte env 1 scope_key))),
            )
            ∷ (
              "attribution_summary",
              str (
                  "Scope " <> scope_key <> ": spend anomaly vs trailing baseline (digest " <> digest
                  <> ")"),
            )
            ∷ (
              "optimization_candidates",
              list (items (str "rightsizing" ∷ str "reserved_capacity_review" ∷ [])),
            )
            ∷ ("evidence_references", list (items (str ("sim-cost:" <> digest) ∷ [])))
            ∷ []))
          4605651194926711439 none
      else if step_name == "retrieve_cost_evidence"
      then
          -- 0.8
          simulated
          (dict (
            ("scope_id", str scope_key)
            ∷ (
              "evidence_summary",
              str (
                  "Simulated billing and cost playbook retrieval for " <> scope_key <> " (seed "
                  <> seed <> ")"),
            )
            ∷ ("chunk_ids", list (items (str ("cost-sim-" <> seed) ∷ [])))
            ∷ ("corpus_version", str "phase5_local_v1")
            ∷ []))
          4605380978949069210 none
      else if step_name == "correlate_usage_patterns"
      then
          -- 0.82
          simulated
          (dict (
            ("scope_id", str scope_key)
            ∷ (
              "correlation_summary",
              str ("Simulated cloud_cost and metrics correlation for " <> scope_key),
            )
            ∷ (
              "cost_snapshot",
              object (
                  dict (
                    ("daily_cost_usd", float (env.float_of (int (40 + seed_byte env 2 scope_key))))
                    ∷ [])),
            )
            ∷ (
              "usage_signals",
              list (
                  items (
                    object (
                      dict (
                        ("source", str "metrics")
                        ∷ ("name", str "cpu_utilization")
                        ∷ ("detail", str ("ref:" <> digest))
                        ∷ []))
                    ∷ [])),
            )
            ∷ []))
          4605561122934164029 none
      else if step_name == "validate_cost_attribution"
      then
          -- 0.9
          simulated
          (dict (
            ("validation_status", str "passed")
            ∷ ("confidence", float 4606281698874543309)
            ∷ ("likely_service", str service)
            ∷ ("likely_team", str team)
            ∷ ("recommended_actions", list (items (str "enable_budget_alerts" ∷ [])))
            ∷ ("digest", str digest)
            ∷ []))
          4606281698874543309
          (outcome "passed" (
            dict (
              ("likely_service", str service)
              ∷ ("scope_key", str scope_key)
              ∷ ("simulated", bool true)
              ∷ [])))
      else
          -- 0.0
          simulated
          (dict (("error", str "unknown_planner_step_name") ∷ ("step_name", str step_name) ∷ [])) 0
          (outcome "failed" (dict (("reason", str "unknown_step_name") ∷ [])))
