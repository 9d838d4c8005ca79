-- ===== src/Policy.antt =====
-- services/policy-engine: the deterministic evaluator (policy_engine/evaluator.py), the catalog of
-- its rules (rules.py) and the service over both (service.py). Counters are not modelled.
pub mod Decisions
use agentic_ai_platform.Prelude.{
  ℕ, Bool, true, false, not, ◌||◌, Option, none, String, List, [], ◌∷◌, map, ◌==◌, string_eq,
  if◌then◌else◌,
}
use agentic_ai_platform.Value.{Value, bool, str, Fields, end, dict, get, truthy}
use agentic_ai_platform.Schemas.{
  ExecutionContext, ActionProposal, ActionProposalStatus, PolicyDecision, RiskLevel,
  risk_level_value,
}

abbrev pub rule_pack_id : String
rule_pack_id = "phase3_deterministic_v1"

-- A dictionary {"rule_id", "pack", "detail"}.
pub record RuleHit : Type 0 where
  pub rule_id : String
  pub pack : String
  pub detail : String

pub record PolicyEvaluationDraft : Type 0 where
  pub decision : PolicyDecision
  pub reason : String
  pub evaluated_rules : List RuleHit

hit : String → String → List RuleHit
hit rule_id detail = record { rule_id = rule_id; pack = rule_pack_id; detail = detail } ∷ []

-- `PolicyEvaluator.evaluate`
unfoldable pub evaluate : ExecutionContext → ActionProposal → PolicyEvaluationDraft
unfolding hit
evaluate context proposal =
    if not (proposal.action_type == "escalate_incident")
    then record {
      decision = PolicyDecision.deny;
      reason = "action_type not permitted by phase3_deterministic_v1";
      evaluated_rules = hit "R_UNKNOWN_ACTION" "unsupported action type for Phase 3 pack";
    }
    else if context.policy_scope == "phase3_deny"
    then record {
      decision = PolicyDecision.deny;
      reason = "policy_scope explicitly denies escalation (phase3_deny)";
      evaluated_rules = hit "R_SCOPE_DENY" "policy_scope phase3_deny blocks escalation";
    }
    else if context.environment == "prod" || context.policy_scope == "phase3_conditional"
    then record {
      decision = PolicyDecision.conditional;
      reason = "escalation requires human approval for this environment or policy_scope";
      evaluated_rules = hit "R_CONDITIONAL_APPROVAL" "prod or phase3_conditional requires approval";
    }
    else record {
      decision = PolicyDecision.allow;
      reason =
          "escalation allowed without additional approval for this environment and policy_scope";
      evaluated_rules = hit "R_DEFAULT_ALLOW" "non-prod default allow for escalate_incident";
    }

pub record PolicyRuleDescriptor : Type 0 where
  pub rule_id : String
  pub description : String
  pub applies_to : List String
  pub decision : String
  pub reason : String

-- `POLICY_RULE_DESCRIPTORS`
unfoldable pub list_rule_descriptors : List PolicyRuleDescriptor
list_rule_descriptors =
    record {
      rule_id = "R_UNKNOWN_ACTION";
      description = "Reject action types not registered in the phase3 deterministic pack.";
      applies_to = "*" ∷ [];
      decision = "deny";
      reason = "action_type not permitted by phase3_deterministic_v1";
    }
    ∷ record {
      rule_id = "R_SCOPE_DENY";
      description = "Explicit policy_scope blocks escalation.";
      applies_to = "escalate_incident" ∷ [];
      decision = "deny";
      reason = "policy_scope explicitly denies escalation";
    }
    ∷ record {
      rule_id = "R_CONDITIONAL_APPROVAL";
      description = "Production environment or conditional scope requires human approval.";
      applies_to = "escalate_incident" ∷ [];
      decision = "conditional";
      reason = "escalation requires human approval for this environment or policy_scope";
    }
    ∷ record {
      rule_id = "R_DEFAULT_ALLOW";
      description = "Non-production default allow for escalate_incident.";
      applies_to = "escalate_incident" ∷ [];
      decision = "allow";
      reason = "escalation allowed without additional approval";
    }
    ∷ []

-- `PolicyEvaluationService.evaluate_proposal`
unfoldable pub evaluate_proposal : ExecutionContext → ActionProposal → PolicyEvaluationDraft
unfolding evaluate
evaluate_proposal context proposal = evaluate context proposal

pub record PolicySimulateRequest : Type 0 where
  pub action_type : String
  pub risk_level : RiskLevel
  pub execution_context : Fields
  pub feature_flags : Option Fields

pub record PolicySimulateResult : Type 0 where
  pub decision : PolicyDecision
  pub reason : String
  pub matched_rules : List RuleHit
  pub rule_references : List String
  pub pack : String

-- `str(d.get(key) or default)`, over the `str()` of the values that are no text
module _ (str_of : Value → String) where
  text_or : String → String → Fields → String
  text_or key default d =
      let v = get key d in
      if truthy v then (elim v [ str s ↦ s | other ↦ str_of other ]) else default

  -- `PolicyEvaluationService.simulate_policy`; `ids` are the three fresh UUIDs and `now` the time.
  unfoldable pub simulate_policy :
      (ids : ℕ × ℕ × ℕ) (now : ℕ) (tenant_id : String) (principal_id : Option String)
      (request_id : String)
      → PolicySimulateRequest
      → PolicySimulateResult
  unfolding text_or evaluate
  simulate_policy ids now tenant_id principal_id request_id request =
      let context : ExecutionContext = record {
        context_id = ids.0;
        tenant_id = tenant_id;
        principal_id = principal_id;
        actor = none;
        request_id = request_id;
        environment = text_or "environment" "dev" request.execution_context;
        permissions_scope = end;
        policy_scope = text_or "policy_scope" "default" request.execution_context;
        feature_flags = request.feature_flags;
        created_at = now;
        updated_at = now;
      } in
      let proposal : ActionProposal = record {
        proposal_id = ids.2;
        execution_id = ids.1;
        step_id = none;
        action_type = request.action_type;
        payload = dict (
            ("simulated", bool true)
            ∷ ("risk_level", str (risk_level_value request.risk_level))
            ∷ []);
        risk_level = request.risk_level;
        requires_approval = false;
        status = ActionProposalStatus.proposed;
        created_at = now;
        updated_at = now;
      } in
      let draft = evaluate context proposal in
      record {
        decision = draft.decision;
        reason = draft.reason;
        matched_rules = draft.evaluated_rules;
        rule_references = map (λ r. r.rule_id) draft.evaluated_rules;
        pack = rule_pack_id;
      }
