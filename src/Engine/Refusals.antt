-- ===== src/Engine/Refusals.antt =====
-- What ending, governing and approving an execution gives, on every branch.
use agentic_ai_platform.Prelude.{
  ℕ, ◌≡◌, refl, some, String, if◌then◌else◌, inl, inr, Bool-cases, ◌≢◌, ◌⊎◌, List, [], ◌∷◌, ◌++◌,
  true, false, Bool, ◌==◌, string_eq, arith, ◌||◌,
}
use agentic_ai_platform.Prelude.Dict.{lookup, lookup-put_self}
use agentic_ai_platform.Value.{str, dict}
use agentic_ai_platform.Schemas.{
  Execution, ExecutionStatus, execution_status_eq, PolicyDecision, ActionProposal,
  ActionProposalStatus, ExecutionContext, Step, PolicyEvaluation, TraceRow,
}
use agentic_ai_platform.StateMachine.{is_execution_terminal, validate_execution_transition}
use agentic_ai_platform.RuntimeMeta.{request_cancellation_meta}
use agentic_ai_platform.Repository
use agentic_ai_platform.Exec.{World, ok, pure, uuid4, saves, require, reads, if_some, ◌>>=◌}
use agentic_ai_platform.Engine.Ready.{append_timeline}
use agentic_ai_platform.Engine.Governance.{govern, conclude, finalize_incident_triage_governance}
use agentic_ai_platform.Policy.{evaluate_proposal}
use agentic_ai_platform.Env.{Env}
use text.Mathlib.TextEquality.{eq_iff}
use agentic_ai_platform.Engine.Cancel.{as_cancelled}

-- What the policy's decision makes of the proposal and of the execution, by the context.
pub data Settled (ctx : ExecutionContext)
    : PolicyDecision → ActionProposalStatus → ExecutionStatus → Type 0 where
  denied :
      ctx.policy_scope ≡ "phase3_deny"
      → Settled ctx PolicyDecision.deny ActionProposalStatus.policy_denied ExecutionStatus.failed
  allowed :
      ctx.policy_scope ≢ "phase3_deny"
      → ctx.policy_scope ≢ "phase3_conditional"
      → ctx.environment ≢ "prod"
      → Settled ctx PolicyDecision.allow ActionProposalStatus.approved ExecutionStatus.completed
  held :
      ctx.policy_scope ≢ "phase3_deny"
      → (ctx.environment ≡ "prod") ⊎ (ctx.policy_scope ≡ "phase3_conditional")
      → Settled ctx PolicyDecision.conditional ActionProposalStatus.awaiting_approval
          ExecutionStatus.awaiting_approval

abbrev restricts : ExecutionContext → Bool
restricts ctx = ctx.environment == "prod" || ctx.policy_scope == "phase3_conditional"

restricted_by :
    (ctx : ExecutionContext)
    → restricts ctx ≡ true
    → (ctx.environment ≡ "prod") ⊎ (ctx.policy_scope ≡ "phase3_conditional")
restricted_by ctx h = elim (Bool-cases (ctx.environment == "prod")) [
  | inl prod ↦ inl ((eq_iff ctx.environment "prod").0 prod)
  | inr other ↦ inr ((eq_iff ctx.policy_scope "phase3_conditional").0 (ground (arith, h, other)))
]

unrestricted :
    (ctx : ExecutionContext)
    → restricts ctx ≡ false
    → (ctx.environment ≢ "prod") × (ctx.policy_scope ≢ "phase3_conditional")
unrestricted ctx h = (
  λ e. ground (arith, h, e, eq_iff ctx.environment "prod"),
  λ e. ground (arith, h, e, eq_iff ctx.policy_scope "phase3_conditional"),
)

-- The end of a governance: what is returned and stored.
abbrev pub Governed : Env → Execution → List Step → ℕ → ExecutionContext → World → Type 0
Governed env e steps now ctx w =
    (e' : Execution) × (w' : World) × (p : ActionProposal) × (ev : PolicyEvaluation)
    × (finalize_incident_triage_governance env e steps now w ≡ (ok e', w'))
    × (lookup p.proposal_id w'.repo.action_proposals ≡ some p)
    × (lookup ev.evaluation_id w'.repo.policy_evaluations ≡ some ev)
    × (p.execution_id ≡ e.execution_id)
    × (ev.execution_id ≡ e.execution_id)
    × (e'.execution_id ≡ e.execution_id)
    × Settled ctx ev.decision p.status e'.status

-- The governance of an incident triage whose context is stored does not raise: it stores a proposal
-- and a policy evaluation of the execution, and the evaluation's decision, the status of the proposal
-- and the status of the execution are those that the context's scope and environment call for.
pub finalize_incident_triage_governance-Governed :
    (env : Env) (e : Execution) (steps : List Step) (now : ℕ) (ctx : ExecutionContext) (w : World)
    → Repository.get_context e.execution_context_id w.repo ≡ some ctx
    → Governed env e steps now ctx w
unfolding finalize_incident_triage_governance govern conclude append_timeline saves require pure
    reads uuid4 if_some ◌>>=◌ validate_execution_transition evaluate_proposal
    Repository.save_action_proposal Repository.save_policy_evaluation
finalize_incident_triage_governance-Governed env e steps now ctx w there =
    elim (Bool-cases (ctx.policy_scope == "phase3_deny")) [
      | inl deny ↦
          rw (there, deny)
            (
              _,
              _,
              _,
              _,
              refl,
              lookup-put_self _ _ _,
              lookup-put_self _ _ _,
              refl,
              refl,
              refl,
              denied ((eq_iff ctx.policy_scope "phase3_deny").0 deny),
            )
      | inr open_scope ↦
          let not_denied : ctx.policy_scope ≢ "phase3_deny" =
            λ h. ground (arith, open_scope, h, eq_iff ctx.policy_scope "phase3_deny") in
          elim (Bool-cases
            (ctx.environment == "prod" || ctx.policy_scope == "phase3_conditional")) [
              | inl restricted ↦
                  rw (there, open_scope, restricted)
                    (
                      _,
                      _,
                      _,
                      _,
                      refl,
                      lookup-put_self _ _ _,
                      lookup-put_self _ _ _,
                      refl,
                      refl,
                      refl,
                      held not_denied (restricted_by ctx restricted),
                    )
              | inr free ↦
                  rw (there, open_scope, free)
                    (
                      _,
                      _,
                      _,
                      _,
                      refl,
                      lookup-put_self _ _ _,
                      lookup-put_self _ _ _,
                      refl,
                      refl,
                      refl,
                      allowed not_denied (unrestricted ctx free).1 (unrestricted ctx free).0,
                    )
            ]
    ]

-- The row that `cancel_execution` stores.
cancelled_row : Execution → String → ℕ → Execution
cancelled_row old reason ts =
    let e = request_cancellation_meta old ts reason in
    if is_execution_terminal old.status then e else as_cancelled e reason ts

-- What a cancellation makes of a row: one that had ended keeps its status, its result, its times and
-- its timeline; any other is cancelled at the time of the request, with the reason in its result and
-- one more entry in its timeline.
pub data Cancelled (old : Execution) (reason : String) (ts : ℕ) : Execution → Type 0 where
  had_ended :
      {new : Execution}
      → is_execution_terminal old.status ≡ true
      → new.status ≡ old.status
      → new.cancelled_at ≡ old.cancelled_at
      → new.result ≡ old.result
      → new.trace_timeline ≡ old.trace_timeline
      → Cancelled old reason ts new
  stopped :
      {new : Execution}
      → is_execution_terminal old.status ≡ false
      → new.status ≡ ExecutionStatus.cancelled
      → new.cancelled_at ≡ some ts
      → new.result ≡ some (dict (("outcome", str "cancelled") ∷ ("reason", str reason) ∷ []))
      → (row : TraceRow) × (new.trace_timeline ≡ old.trace_timeline ++ row ∷ [])
      → Cancelled old reason ts new
