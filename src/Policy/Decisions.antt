-- ===== src/Policy/Decisions.antt =====
-- When each decision is given.
use text.Mathlib.TextEquality.{eq_iff}
use agentic_ai_platform.Prelude.{
  ℕ, ◌≡◌, refl, ◌≢◌, ◌↔◌, ◌⊎◌, inl, inr, Bool, true, false, ◌&&◌, ◌||◌, Option, String, [], ◌∷◌,
  map, any, all, length, Bool-cases, arith, ◌==◌, string_eq,
}
use agentic_ai_platform.Value.{Value, str, Fields, dict, get, truthy}
use agentic_ai_platform.Schemas.{
  ExecutionContext, ActionProposal, PolicyDecision, policy_decision_value,
}
use agentic_ai_platform.Policy.{
  RuleHit, PolicyEvaluationDraft, PolicyRuleDescriptor, list_rule_descriptors, evaluate_proposal,
  simulate_policy,
}

-- An action is denied exactly where its type is not the one that the pack knows, or where the
-- policy scope says so.
pub evaluate-deny_iff :
    (c : ExecutionContext) (p : ActionProposal)
    → ((evaluate_proposal c p).decision ≡ PolicyDecision.deny)
      ↔ ((p.action_type ≢ "escalate_incident") ⊎ (c.policy_scope ≡ "phase3_deny"))
unfolding evaluate_proposal
evaluate-deny_iff c p = (
  λ h. ground (
    arith,
    eq_iff p.action_type "escalate_incident",
    eq_iff c.policy_scope "phase3_deny",
    eq_iff c.environment "prod",
    eq_iff c.policy_scope "phase3_conditional",
  ),
  λ h. ground (
    arith,
    eq_iff p.action_type "escalate_incident",
    eq_iff c.policy_scope "phase3_deny",
    eq_iff c.environment "prod",
    eq_iff c.policy_scope "phase3_conditional",
  ),
)

-- An escalation goes through with no approval exactly where the environment is not production and
-- the policy scope is neither of the two that restrict it.
pub evaluate-allow_iff :
    (c : ExecutionContext) (p : ActionProposal)
    → ((evaluate_proposal c p).decision ≡ PolicyDecision.allow) ↔ (
        (p.action_type ≡ "escalate_incident")
        × (c.environment ≢ "prod")
        × (c.policy_scope ≢ "phase3_deny")
        × (c.policy_scope ≢ "phase3_conditional"))
unfolding evaluate_proposal
evaluate-allow_iff c p = (
  λ h. (
    ground (
      arith,
      eq_iff p.action_type "escalate_incident",
      eq_iff c.policy_scope "phase3_deny",
      eq_iff c.environment "prod",
      eq_iff c.policy_scope "phase3_conditional",
    ),
    λ e. ground (
      arith,
      eq_iff p.action_type "escalate_incident",
      eq_iff c.policy_scope "phase3_deny",
      eq_iff c.environment "prod",
      eq_iff c.policy_scope "phase3_conditional",
    ),
    λ e. ground (
      arith,
      eq_iff p.action_type "escalate_incident",
      eq_iff c.policy_scope "phase3_deny",
      eq_iff c.environment "prod",
      eq_iff c.policy_scope "phase3_conditional",
    ),
    λ e. ground (
      arith,
      eq_iff p.action_type "escalate_incident",
      eq_iff c.policy_scope "phase3_deny",
      eq_iff c.environment "prod",
      eq_iff c.policy_scope "phase3_conditional",
    ),
  ),
  λ h. ground (
    arith,
    eq_iff p.action_type "escalate_incident",
    eq_iff c.policy_scope "phase3_deny",
    eq_iff c.environment "prod",
    eq_iff c.policy_scope "phase3_conditional",
  ),
)

-- A descriptor of the catalog says what the evaluator did: it has the rule's name and decision, and
-- it applies to the action's type.
pub covers : ActionProposal → PolicyEvaluationDraft → RuleHit → PolicyRuleDescriptor → Bool
covers p draft rule d =
    d.rule_id == rule.rule_id
    && d.decision == policy_decision_value draft.decision
    && any (λ a. a == "*" || a == p.action_type) d.applies_to

abbrev pub Cites : ExecutionContext → ActionProposal → Type 0
Cites c p =
    (length (evaluate_proposal c p).evaluated_rules ≡ 1)
    × (all (λ rule. any (covers p (evaluate_proposal c p) rule) list_rule_descriptors)
          (evaluate_proposal c p).evaluated_rules
        ≡ true)

-- Each decision cites exactly one rule, and the catalog lists that rule with that decision for that
-- action.
pub evaluate-in_catalog : (c : ExecutionContext) (p : ActionProposal) → Cites c p
unfolding evaluate_proposal covers list_rule_descriptors
evaluate-in_catalog c p = elim (Bool-cases (p.action_type == "escalate_incident")) [
  | inr unknown ↦ rw unknown (refl, refl)
  | inl known ↦ rw ((eq_iff p.action_type "escalate_incident").0 known) escalation
]
  where
    escalation : Cites c (record p { action_type = "escalate_incident" })
    escalation = elim (Bool-cases (c.policy_scope == "phase3_deny")) [
      | inl denied ↦ rw denied (refl, refl)
      | inr open_scope ↦
          elim (Bool-cases (c.environment == "prod" || c.policy_scope == "phase3_conditional")) [
            | inl restricted ↦ rw (open_scope, restricted) (refl, refl)
            | inr free ↦ rw (open_scope, free) (refl, refl)
          ]
    ]

ne-beq : (s t : String) → s ≢ t → (s == t) ≡ false
ne-beq s t h = ground (arith, eq_iff s t)

-- A simulation over the facts of a stored context decides and cites as the evaluation of the
-- proposal itself does, where the context's environment and scope are not empty.
pub simulate_policy-evaluate :
    (str_of : Value → String) (ids : ℕ × ℕ × ℕ) (now : ℕ) (c : ExecutionContext)
    (p : ActionProposal) (flags : Option Fields) (request_id : String)
    → c.environment ≢ ""
    → c.policy_scope ≢ ""
    → let simulated = simulate_policy str_of ids now c.tenant_id c.principal_id request_id (record {
      action_type = p.action_type;
      risk_level = p.risk_level;
      execution_context =
          dict (("environment", str c.environment) ∷ ("policy_scope", str c.policy_scope) ∷ []);
      feature_flags = flags;
    }) in
      (simulated.decision ≡ (evaluate_proposal c p).decision)
      × (simulated.reason ≡ (evaluate_proposal c p).reason)
      × (simulated.rule_references ≡ map (λ r. r.rule_id) (evaluate_proposal c p).evaluated_rules)
unfolding evaluate_proposal simulate_policy get truthy
simulate_policy-evaluate str_of ids now c p flags request_id he hs =
    rw (ne-beq _ _ he, ne-beq _ _ hs) (refl, refl, refl)
