-- ===== src/Engine/Lifecycle.antt =====
-- The execution loop and the approval move executions only along the lifecycle.
use agentic_ai_platform.Prelude.{
  ℕ, ◌≡◌, refl, true, Option, none, some, List, ◌==◌, all, inl, inr, Bool-cases, arith,
}
use agentic_ai_platform.Schemas.{
  Execution, ExecutionStatus, execution_status_eq, Step, ExecutionPlan,
}
use agentic_ai_platform.StateMachine.{is_execution_terminal}
use agentic_ai_platform.StateMachine.Lifecycle.{here, next, validate}
use agentic_ai_platform.RuntimeMeta.{is_cancellation_requested}
use agentic_ai_platform.Exec.{Exec, now_utc}
use agentic_ai_platform.Exec.Keeps.{Keeps, Keeps-pure, Keeps-raise}
use agentic_ai_platform.Env.{Env}
use agentic_ai_platform.Engine.Ready.{
  succeeded, should_enter_validating, append_timeline, enter_validating, maybe_enter_validating,
}
use agentic_ai_platform.Engine.Run
use agentic_ai_platform.Engine.Still.{Prepares, Prepares-bind, Prepares-pure}
use agentic_ai_platform.Engine.Steers.{
  Advances, Advances-IsPreorder, Steers, Steers-update, Steers-keeps, Steers-after_still,
  Steers-after-Prepares, Steers-then, Steers-if, Steers-if_some, Keeps-get_execution,
}
use agentic_ai_platform.Engine.Motion.{still_rules, is_status, Steers-store, same_status}
use agentic_ai_platform.Engine.Calm.{run_step-Still}
use agentic_ai_platform.Engine.Outcomes.{Prepares-finalize, validating_completes}
use agentic_ai_platform.Engine.Ending.{cancel_execution-Advances}

should_enter-executing :
    (e : Execution) (steps : List Step)
    → should_enter_validating e steps ≡ true
    → e.status ≡ ExecutionStatus.executing
unfolding should_enter_validating
should_enter-executing e steps h = is_status e.status ExecutionStatus.executing (ground (arith, h))

-- `work`, the rest of a turn after the phase change
module _ (env : Env) where
  Steers-complete :
      (e : Execution) (steps : List Step) (now : ℕ)
      → e.status ≡ ExecutionStatus.validating
      → Steers e (Run.complete env e steps now)
  unfolding Run.complete append_timeline
  Steers-complete e steps now h = Steers-after_still e _ _ (search (still_rules)) λ _.
      Steers-after_still e _ _ (search (still_rules)) λ summary.
        Steers-after_still e _ _ (search (still_rules))
          λ payload. Steers-store e _ (record { same_id = refl; reach = validating_completes e h })

  Steers-finalize :
      (e : Execution) (steps : List Step) (now : ℕ)
      → e.status ≡ ExecutionStatus.validating
      → Steers e (Run.finalize env e steps now)
  unfolding Run.finalize
  Steers-finalize e steps now h =
      Steers-after-Prepares e _ _ (Prepares-finalize env e steps now h) λ e' c. Steers-store e e' c

  Steers-give_up : (e : Execution) (steps : List Step) → Steers e (Run.give_up env steps)
  unfolding Run.give_up
  Steers-give_up e steps = Steers-keeps e _ (Keeps-raise Advances-IsPreorder _ _)

  Steers-settle_all :
      (e : Execution) (steps : List Step) (now : ℕ) → Steers e (Run.settle_all env e steps now)
  unfolding Run.settle_all
  Steers-settle_all e steps now =
      Steers-if e _ _ _
        (λ v.
          let h = is_status e.status ExecutionStatus.validating v in
          Steers-if e _ _ _ (λ _. Steers-finalize e steps now h)
            (λ _. Steers-complete e steps now h))
        (λ _.
          Steers-if e (e.status == ExecutionStatus.executing) _ _
            (λ _. Steers-keeps e _ (Keeps-raise Advances-IsPreorder _ _))
            (λ _. Steers-give_up e steps))

  Steers-settle : (e : Execution) (steps : List Step) → Steers e (Run.settle env e steps)
  unfolding Run.settle
  Steers-settle e steps =
      Steers-if e (all succeeded steps) _ _
        (λ _.
          Steers-after_still e (now_utc env.readings) _ (search (still_rules))
            (Steers-settle_all e steps))
        (λ _. Steers-give_up e steps)

  Steers-return_it :
      (e : Execution) (m : Exec Execution) → Steers e m → Steers e (Run.return_it env m)
  unfolding Run.return_it
  Steers-return_it e m k = Steers-then e _ _ k λ x. Keeps-pure Advances-IsPreorder _

  Steers-step_or_settle :
      (e : Execution) (steps : List Step) (s : Option Step) (now : ℕ)
      → Steers e (Run.step_or_settle env e steps s now)
  unfolding Run.step_or_settle
  Steers-step_or_settle e steps none now = Steers-return_it e _ (Steers-settle e steps)
  Steers-step_or_settle e steps (some s) now =
      Steers-after_still e _ _ (run_step-Still env s.step_id now)
        λ _. Steers-keeps e _ (Keeps-pure Advances-IsPreorder _)

  Steers-pick_step :
      (id : ℕ) (plan : ExecutionPlan) (now : ℕ) (e : Execution)
      → Steers e (Run.pick_step env id plan now e)
  unfolding Run.pick_step
  Steers-pick_step id plan now e =
      Steers-if e (is_execution_terminal e.status) _ _
        (λ _. Steers-keeps e _ (Keeps-pure Advances-IsPreorder _))
        (λ _.
          Steers-after_still e _ _ (search (still_rules))
            λ steps. Steers-step_or_settle e steps _ now)

  Keeps-work : (id : ℕ) (plan : ExecutionPlan) (now : ℕ) → Keeps Advances (Run.work env id plan now)
  unfolding Run.work
  Keeps-work id plan now =
      Keeps-get_execution id _ _ (Keeps-raise Advances-IsPreorder _ _)
        (Steers-pick_step id plan now)

  Prepares-enter_validating :
      (e : Execution) (now : ℕ)
      → e.status ≡ ExecutionStatus.executing
      → Prepares e (enter_validating e now)
  unfolding enter_validating append_timeline
  Prepares-enter_validating e now h =
      Prepares-bind e _ _ (search (still_rules))
        λ _. Prepares-pure e _ (record { same_id = refl; reach = rw h (next here validate) })

  Prepares-maybe_enter_validating :
      (e : Execution) (steps : List Step) (now : ℕ)
      → Prepares e (maybe_enter_validating e steps now)
  unfolding maybe_enter_validating
  Prepares-maybe_enter_validating e steps now =
      elim (Bool-cases (should_enter_validating e steps)) [
        | inl y ↦ rw y (Prepares-enter_validating e now (should_enter-executing e steps y))
        | inr n ↦ rw n (Prepares-pure e e (same_status e e refl refl))
      ]

  Steers-advance : (id : ℕ) (e : Execution) → Steers e (Run.advance env id e)
  unfolding Run.advance Run.plan_of
  Steers-advance id e = Steers-after_still e _ _ (search (still_rules)) λ steps.
      Steers-after_still e _ _ (search (still_rules)) λ found.
        Steers-if_some e found _ _ (Steers-keeps e _ (Keeps-raise Advances-IsPreorder _ _)) λ plan.
          Steers-after_still e _ _ (search (still_rules)) λ now.
            Steers-after-Prepares e _ _ (Prepares-maybe_enter_validating e steps now)
              λ e' c. Steers-then e _ _ (Steers-update e e' c) λ _. Keeps-work id plan now

  Steers-turn_of : (id : ℕ) (e : Execution) → Steers e (Run.turn_of env id e)
  unfolding Run.turn_of
  Steers-turn_of id e =
      Steers-if e (is_cancellation_requested e) _ _
        (λ _. Steers-after_still e _ _ (search (still_rules)) λ now.
          Steers-return_it e _
            (Steers-keeps e _ (cancel_execution-Advances "cancellation_requested" now id)))
        (λ _.
          Steers-if e (e.status == ExecutionStatus.awaiting_approval) _ _
            (λ _. Steers-keeps e _ (Keeps-pure Advances-IsPreorder _))
            (λ _.
              Steers-if e (is_execution_terminal e.status) _ _
                (λ _. Steers-keeps e _ (Keeps-pure Advances-IsPreorder _))
                (λ _. Steers-advance id e)))

  pub turn-Advances : (id : ℕ) → Keeps Advances (Run.turn env id)
  unfolding Run.turn
  turn-Advances id =
      Keeps-get_execution id _ _ (Keeps-raise Advances-IsPreorder _ _) (Steers-turn_of id)
