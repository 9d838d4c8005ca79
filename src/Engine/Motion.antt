-- ===== src/Engine/Motion.antt =====
-- Rules that the proofs about the lifecycle share.
use agentic_ai_platform.Prelude.{◌≡◌, sym, subst, true, ◌==◌, ◌∙◌}
use agentic_ai_platform.Schemas.{Execution, ExecutionStatus, execution_status_eq}
use agentic_ai_platform.StateMachine.{permitted, validate_execution_transition}
use agentic_ai_platform.StateMachine.Lifecycle.{
  Reach, here, next, validate_execution_transition_iff,
}
use agentic_ai_platform.Exec.{Exec}
use agentic_ai_platform.Exec.Keeps.{
  Keeps, IsPreorder, Keeps-bind, Keeps-pure, Keeps-raise, keeps_rules,
}
use agentic_ai_platform.Engine.Cancel.{store}
use agentic_ai_platform.Engine.Quiet.{Quiet, Quiet-IsPreorder, Quiet-uuid4, quiet_rules}
use agentic_ai_platform.Engine.Still.{
  Still, Still-IsPreorder, Quiet→Still, Still-save_step, Still-update_step, Continues, Prepares,
  prepares_rules,
}
use agentic_ai_platform.Engine.Steers.{Advances-IsPreorder, Steers, Steers-update, Steers-then}

abbrev pub still : IsPreorder Still
still = Still-IsPreorder

abbrev pub calm : IsPreorder Quiet
calm = Quiet-IsPreorder

pub ruleset still_rules =
    (keeps_rules, quiet_rules, still, calm, Quiet→Still, Still-save_step, Still-update_step)

pub Reach-by : (a b : ExecutionStatus) → validate_execution_transition a b ≡ permitted → Reach a b
Reach-by a b h = next here ((validate_execution_transition_iff a b).0 h)

pub is_status : (a b : ExecutionStatus) → (a == b) ≡ true → a ≡ b
is_status a b h = (execution_status_eq.same_iff a b).0 h

module _ (e : Execution) where
  -- `store` of a row that continues the one held
  pub Steers-store : (e' : Execution) → Continues e e' → Steers e (store e')
  unfolding store
  Steers-store e' c =
      Steers-then e _ _ (Steers-update e e' c) λ _. Keeps-pure Advances-IsPreorder e'

  pub continue_to :
      (e' : Execution)
      → e'.execution_id ≡ e.execution_id
      → validate_execution_transition e.status e'.status ≡ permitted
      → Continues e e'
  continue_to e' hid h = record { same_id = hid; reach = Reach-by e.status e'.status h }

  pub same_status :
      (e' : Execution) → e'.execution_id ≡ e.execution_id → e'.status ≡ e.status → Continues e e'
  same_status e' hid h = record {
    same_id = hid;
    reach = subst (λ s. Reach e.status s) (sym h) here;
  }

  -- A row with the same identifier and status is held alike.
  pub Steers-same :
      {A : Type 0} {m : Exec A} (e' : Execution)
      → e'.execution_id ≡ e.execution_id
      → e'.status ≡ e.status
      → Steers e' m
      → Steers e m
  Steers-same e' hid hs k = record {
    at = λ w held. k.at w (record { formed = held.formed; here = rw (hid, hs) held.here });
  }

pub Prepares-same :
    (e e' : Execution) (m : Exec Execution)
    → e'.execution_id ≡ e.execution_id
    → e'.status ≡ e.status
    → Prepares e' m
    → Prepares e m
Prepares-same e e' m hid hs k = record {
  still = k.still;
  gives = λ w x h.
      let c = k.gives w x h in
      record { same_id = c.same_id ∙ hid; reach = subst (λ s. Reach s x.status) hs c.reach };
}
