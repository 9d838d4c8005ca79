-- ===== src/Engine/Governance.antt =====
-- The results of completed workflows, and the governance of an incident triage: the proposal to
-- escalate, the policy's decision, and the three outcomes.
use agentic_ai_platform.Prelude.{
  ℕ, true, false, Option, none, some, String, List, [], ◌∷◌, ◌==◌, string_eq, length, first, map,
  if◌then◌else◌,
}
use agentic_ai_platform.Value.{
  Value, null, bool, int, negative, float, str, uuid, object, Fields, end, dict, get, get_or, merge,
}
use agentic_ai_platform.Schemas.{
  Execution, ExecutionStatus, Step, ActionProposal, ActionProposalStatus, PolicyDecision, RiskLevel,
  policy_decision_value, risk_level_value,
}
use agentic_ai_platform.StateMachine.{validate_execution_transition}
use agentic_ai_platform.Repository
use agentic_ai_platform.Policy.{RuleHit, evaluate_proposal}
use agentic_ai_platform.Exec.{
  Exec, pure, raise, orchestration_error, reads, saves, uuid4, require, if_some, ◌>>=◌, ◌>>◌,
}
use agentic_ai_platform.Env.{Env}
use agentic_ai_platform.Engine.Ready.{append_timeline, status_row, is_validation_step, named_step}
use agentic_ai_platform.Engine.Trace.{output_of}

-- `by_name.get(name, {})`: the output of the last step with the name that has one.
last_named : String → List Step → Repository.Repository → Fields → Fields
last_named name [] r found = found
last_named name (s ∷ steps) r found = last_named name steps r (
    if named_step s name
    then if_some (Repository.get_step_result s.step_id r) found
        (λ x. if_some x.output found (λ out. out))
    else found)

-- `float(conf) if isinstance(conf, (int, float)) else None`
number_or_null : Env → Value → Value
number_or_null env (bool b) = float (env.float_of (bool b))
number_or_null env (int n) = float (env.float_of (int n))
number_or_null env (negative n) = float (env.float_of (negative n))
number_or_null env (float bits) = float bits
number_or_null env v = null

abbrev copied : List String → Fields → List (String × Value)
copied [] out = []
copied (k ∷ ks) out = (k, get k out) ∷ copied ks out

-- `_build_completion_result`
unfoldable pub build_completion_result :
    Env → Execution → List Step → Repository.Repository → Fields
unfolding last_named number_or_null
build_completion_result env e steps r =
    if e.workflow_type == "cost_attribution"
    then (let analyze = last_named "analyze_cost_anomaly" steps r end in
        let retrieve = last_named "retrieve_cost_evidence" steps r end in
        let correlate = last_named "correlate_usage_patterns" steps r end in
        let validate = last_named "validate_cost_attribution" steps r end in
        dict (
          ("outcome", str "success")
          ∷ ("workflow_type", str "cost_attribution")
          ∷ ("suspected_service", get "suspected_service" analyze)
          ∷ ("suspected_team", get "suspected_team" analyze)
          ∷ ("anomaly_type", get "anomaly_type" analyze)
          ∷ ("estimated_cost_impact_usd", get "estimated_cost_impact_usd" analyze)
          ∷ ("attribution_summary", get "attribution_summary" analyze)
          ∷ ("evidence_summary", get "evidence_summary" retrieve)
          ∷ ("correlation_summary", get "correlation_summary" correlate)
          ∷ ("validation_status", get "validation_status" validate)
          ∷ ("confidence", number_or_null env (get "confidence" validate))
          ∷ ("likely_service", get "likely_service" validate)
          ∷ ("recommended_actions", get "recommended_actions" validate)
          ∷ ("optimization_candidates", get "optimization_candidates" analyze)
          ∷ ("steps", int (length steps))
          ∷ []))
    else if e.workflow_type == "incident_triage"
    then (let analyze = last_named "analyze_incident" steps r end in
        let gather = last_named "gather_evidence" steps r end in
        let validate = last_named "validate_incident" steps r end in
        dict (
          ("outcome", str "success")
          ∷ ("workflow_type", str "incident_triage")
          ∷ ("incident_summary", get "incident_summary" analyze)
          ∷ ("likely_cause", get "likely_cause" validate)
          ∷ ("evidence_summary", get "evidence_summary" gather)
          ∷ ("validation_status", get "validation_status" validate)
          ∷ ("confidence_score", number_or_null env (get "confidence_score" validate))
          ∷ ("steps", int (length steps))
          ∷ []))
    else dict (("outcome", str "success") ∷ ("steps", int (length steps)) ∷ [])

-- `_validation_summary_from_steps`: the first validation step decides.
unfoldable pub validation_summary_from_steps : List Step → Repository.Repository → Fields
validation_summary_from_steps [] r =
    dict (("recorded", bool false) ∷ ("reason", str "no_validation_step") ∷ [])
validation_summary_from_steps (s ∷ steps) r =
    let later = validation_summary_from_steps steps r in
    if is_validation_step s
    then (if_some (Repository.get_step_result s.step_id r)
        (dict (("recorded", bool false) ∷ ("reason", str "missing_step_result") ∷ []))
        λ x.
          if_some x.validation_outcome
            (dict (("recorded", bool true) ∷ ("validation_outcome", null) ∷ []))
            λ o. dict (
              ("recorded", bool true)
              ∷ (
                "validation_outcome",
                object (dict (("status", str o.status) ∷ ("details", object o.details) ∷ [])),
              )
              ∷ []))
    else later

-- `_step_output_by_name`: the first step with the name.
step_output_by_name : List Step → String → Repository.Repository → Fields
unfolding output_of
step_output_by_name steps name r =
    if_some (first (λ s. named_step s name) steps) end
      λ s. output_of (Repository.get_step_result s.step_id r)

abbrev pub proposed_action : ActionProposal → Value
proposed_action p =
    object (dict (("type", str p.action_type) ∷ ("proposal_id", uuid p.proposal_id) ∷ []))

-- The end that all outcomes share: the new status with its summary and result, the row of the
-- outcome, and the row of the status.
unfoldable pub conclude :
    Execution → ExecutionStatus → Fields → Fields → Option ℕ → String → Fields → ℕ → Execution
unfolding append_timeline status_row
conclude e status summary result completed_at event_type detail now =
    append_timeline
      (append_timeline
        (record e {
          status = status;
          updated_at = now;
          completed_at = completed_at;
          validation_summary = some summary;
          result = some result;
        })
        event_type detail now)
      "execution_status" (status_row status []) now

abbrev pub outcome_row : String → ActionProposal → Fields
outcome_row path p = dict (("path", str path) ∷ ("proposal_id", uuid p.proposal_id) ∷ [])

-- The three branches on the policy's decision.
unfoldable pub govern :
    PolicyDecision
    → Execution
    → ActionProposal
    → ℕ
    → (summary base_result : Fields) → ℕ
    → Exec Execution
govern PolicyDecision.deny e p eval_id summary base_result now = do
  saves (
      Repository.save_action_proposal
        (record p { status = ActionProposalStatus.policy_denied; updated_at = now }))
  require (validate_execution_transition ExecutionStatus.validating ExecutionStatus.failed)
  pure (
      conclude e ExecutionStatus.failed summary
        (merge base_result (
          dict (
            ("outcome", str "failed")
            ∷ ("workflow_type", str "incident_triage")
            ∷ ("proposed_action", proposed_action p)
            ∷ ("policy_decision", str (policy_decision_value PolicyDecision.deny))
            ∷ ("approval_status", str "not_applicable")
            ∷ [])))
        e.completed_at "governed_outcome" (outcome_row "policy_denied" p) now)
govern PolicyDecision.allow e p eval_id summary base_result now = do
  saves (
      Repository.save_action_proposal
        (record p { status = ActionProposalStatus.approved; updated_at = now }))
  require (validate_execution_transition ExecutionStatus.validating ExecutionStatus.completed)
  pure (
      conclude e ExecutionStatus.completed summary
        (merge base_result (
          dict (
            ("proposed_action", proposed_action p)
            ∷ ("policy_decision", str (policy_decision_value PolicyDecision.allow))
            ∷ ("approval_status", str "not_required")
            ∷ [])))
        (some now) "governed_outcome" (outcome_row "policy_allow" p) now)
govern PolicyDecision.conditional e p eval_id summary base_result now = do
  saves (
      Repository.save_action_proposal (record p {
        status = ActionProposalStatus.awaiting_approval;
        requires_approval = true;
        updated_at = now;
      }))
  require
      (validate_execution_transition ExecutionStatus.validating ExecutionStatus.awaiting_approval)
  pure (
      conclude e ExecutionStatus.awaiting_approval summary
        (merge base_result (
          dict (
            ("outcome", str "awaiting_approval")
            ∷ ("workflow_type", str "incident_triage")
            ∷ (
              "governance",
              object (
                  dict (
                    ("phase", str "awaiting_approval")
                    ∷ ("proposal_id", uuid p.proposal_id)
                    ∷ ("evaluation_id", uuid eval_id)
                    ∷ ("policy_decision", str (policy_decision_value PolicyDecision.conditional))
                    ∷ [])),
            )
            ∷ ("proposed_action", proposed_action p)
            ∷ ("policy_decision", str (policy_decision_value PolicyDecision.conditional))
            ∷ ("approval_status", str "pending")
            ∷ [])))
        e.completed_at "approval_required"
        (dict (("proposal_id", uuid p.proposal_id) ∷ ("evaluation_id", uuid eval_id) ∷ [])) now)

rule_fields : RuleHit → Fields
rule_fields h =
    dict (("rule_id", str h.rule_id) ∷ ("pack", str h.pack) ∷ ("detail", str h.detail) ∷ [])

-- `_finalize_incident_triage_governance`
unfoldable pub finalize_incident_triage_governance :
    Env → Execution → List Step → ℕ → Exec Execution
unfolding step_output_by_name rule_fields
finalize_incident_triage_governance env e steps now = do
  found ← reads (λ w. Repository.get_context e.execution_context_id w.repo)
  if_some found (raise (orchestration_error "missing execution context for governance")) λ ctx. do
    summary ← reads (λ w. validation_summary_from_steps steps w.repo)
    base_result ← reads (λ w. build_completion_result env e steps w.repo)
    validate_out ← reads (λ w. step_output_by_name steps "validate_incident" w.repo)
    proposal_id ← uuid4
    let proposal : ActionProposal = record {
      proposal_id = proposal_id;
      execution_id = e.execution_id;
      step_id =
          if_some (first (λ s. named_step s "validate_incident") steps) none (λ s. some s.step_id);
      action_type = "escalate_incident";
      payload = dict (
          ("incident_id", get_or "incident_id" (get "id" e.input) e.input)
          ∷ ("likely_cause", get "likely_cause" validate_out)
          ∷ ("severity", get "severity" e.input)
          ∷ []);
      risk_level = RiskLevel.high;
      requires_approval = false;
      status = ActionProposalStatus.proposed;
      created_at = now;
      updated_at = now;
    }
    saves (Repository.save_action_proposal proposal)
    let e1 =
        append_timeline e "action_proposed"
          (dict (
            ("proposal_id", uuid proposal_id)
            ∷ ("action_type", str proposal.action_type)
            ∷ ("risk_level", str (risk_level_value proposal.risk_level))
            ∷ []))
          now
    let draft = evaluate_proposal ctx proposal
    eval_id ← uuid4
    saves (
        Repository.save_policy_evaluation (record {
          evaluation_id = eval_id;
          execution_id = e.execution_id;
          execution_context_id = ctx.context_id;
          decision = draft.decision;
          reason = draft.reason;
          evaluated_rules = map rule_fields draft.evaluated_rules;
          subject_ref =
              dict (
                ("proposal_id", uuid proposal_id) ∷ ("action_type", str proposal.action_type) ∷ []);
          created_at = now;
          updated_at = now;
        }))
    let e2 =
        append_timeline e1 "policy_evaluated"
          (dict (
            ("evaluation_id", uuid eval_id)
            ∷ ("decision", str (policy_decision_value draft.decision))
            ∷ ("reason", str draft.reason)
            ∷ []))
          now
    govern draft.decision e2 proposal eval_id summary base_result now
