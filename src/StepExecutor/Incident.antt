-- ===== src/StepExecutor/Incident.antt =====
-- `_execute_incident_triage_step` of services/orchestrator/app/runtime/step_executor.py. A float
-- literal is written by its bits, with the literal beside it.
use agentic_ai_platform.Prelude.{
  ℕ, ◌%◌, ◌<>◌, true, Option, none, String, [], ◌∷◌, ◌==◌, string_eq, if◌then◌else◌,
}
use agentic_ai_platform.Value.{Value, bool, float, str, list, object, Fields, dict, items}
use agentic_ai_platform.Schemas.{ValidationOutcome}
use agentic_ai_platform.Env.{Env}
use agentic_ai_platform.StepExecutor.Digest.{
  Simulated, outcome, seed_of, digest_of, seed_byte, incident_key_of, pick, simulated_payload,
}

abbrev signal : String → String → String → Value
signal source name detail =
    object (dict (("source", str source) ∷ ("name", str name) ∷ ("detail", str detail) ∷ []))

module _ (env : Env) where
  -- `_execute_incident_triage_step`, up to the record that it fills
  unfoldable pub execute_incident_triage_step : String → Fields → Simulated
  unfolding seed_of digest_of seed_byte incident_key_of outcome
  execute_incident_triage_step step_name ex_in =
      let incident_key = incident_key_of env ex_in in
      let seed = seed_of env incident_key in
      let digest = digest_of env (simulated_payload step_name "incident_key" incident_key) in
      let likely =
        pick (seed_byte env 0 incident_key % 3) "config_drift" "dependency_failure"
          "capacity_saturation" in
      let simulated = λ (output : Fields) (confidence : ℕ) (vo : Option ValidationOutcome).
        let s : Simulated = record {
          output = output;
          confidence = confidence;
          validation_outcome = vo;
          evidence = dict (
              ("type", str "simulated_incident_triage")
              ∷ ("step_name", str step_name)
              ∷ ("ref", str ("incident_triage:" <> digest))
              ∷ []);
          confidence_detail =
              dict (
                ("source", str "step_executor_incident_triage")
                ∷ ("step_name", str step_name)
                ∷ []);
        } in
        s in
      if step_name == "analyze_incident"
      then
          -- 0.84
          simulated
          (dict (
            (
              "incident_summary",
              str (
                  "Incident " <> incident_key
                  <> ": elevated error rate and latency correlated in window (deterministic triage digest "
                  <> digest <> ")"),
            )
            ∷ (
              "possible_causes",
              list (
                  items (
                    str "config_drift"
                    ∷ str "dependency_failure"
                    ∷ str "capacity_saturation"
                    ∷ [])),
            )
            ∷ []))
          4605741266919258849 none
      else if step_name == "gather_evidence"
      then
          -- 0.81
          simulated
          (dict (
            (
              "evidence_summary",
              str (
                  "Simulated correlation across metrics, logs, and deploy events for "
                  <> incident_key <> " (seed " <> seed <> ")"),
            )
            ∷ (
              "signals",
              list (
                  items (
                    signal "metrics" "error_rate" "spike vs baseline"
                    ∷ signal "logs" "timeout_pattern" ("ref:" <> digest)
                    ∷ signal "deploy" "recent_change" "within lookback window"
                    ∷ [])),
            )
            ∷ []))
          4605471050941616620 none
      else if step_name == "validate_incident"
      then
          -- 0.92
          simulated
          (dict (
            ("likely_cause", str likely)
            ∷ ("validation_status", str "passed")
            ∷ ("confidence_score", float 4606461842859638129)
            ∷ ("digest", str digest)
            ∷ []))
          4606461842859638129
          (outcome "passed" (
            dict (
              ("likely_cause", str likely)
              ∷ ("incident_key", str incident_key)
              ∷ ("simulated", bool true)
              ∷ [])))
      else
          -- 0.0
          simulated
          (dict (("error", str "unknown_planner_step_name") ∷ ("step_name", str step_name) ∷ [])) 0
          (outcome "failed" (dict (("reason", str "unknown_step_name") ∷ [])))
