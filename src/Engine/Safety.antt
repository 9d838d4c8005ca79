-- ===== src/Engine/Safety.antt =====
-- The whole of `run_execution` and of `submit_approval` along the lifecycle.
use agentic_ai_platform.Prelude.{ℕ, zero, suc, ◌≡◌, refl, Option, none, some, ◌==◌}
use agentic_ai_platform.Schemas.{Execution, ExecutionStatus, execution_status_eq}
use agentic_ai_platform.StateMachine.{is_execution_terminal}
use agentic_ai_platform.StateMachine.Lifecycle.{here, next, plan, execute}
use agentic_ai_platform.Exec.{World, Result, ok, err, now_utc}
use agentic_ai_platform.Exec.Keeps.{Keeps, Keeps-pure, Keeps-raise}
use agentic_ai_platform.Env.{Env}
use agentic_ai_platform.Engine.Ready.{append_timeline}
use agentic_ai_platform.Engine.Run.{Outcome, Turn, again, done, after}
use agentic_ai_platform.Engine.Run
use agentic_ai_platform.Engine.Steers.{
  Advances, Advances-IsPreorder, Steers, Steers-keeps, Steers-after_still, Steers-if, Steers-then,
  Keeps-get_execution,
}
use agentic_ai_platform.Engine.Motion.{still_rules, is_status, Steers-store}
use agentic_ai_platform.Engine.Calm.{Quiet-create_plan, Quiet-instantiate_steps}
use agentic_ai_platform.Engine.Lifecycle.{turn-Advances}
use agentic_ai_platform.Engine.Leads.{
  Leads, Leads-pure, Leads-store, Leads-if, Leads-after_still, Steers-after-Leads,
}

module _ (env : Env) where
  Leads-begin_planning :
      (e : Execution) (now : ℕ)
      → e.status ≡ ExecutionStatus.created
      → Leads e (Run.begin_planning env e now)
  unfolding Run.begin_planning append_timeline
  Leads-begin_planning e now h =
      Leads-after_still e _ _ (search (still_rules))
        λ _. Leads-store e _ (record { same_id = refl; reach = rw h (next here plan) })

  Steers-enter_executing :
      (e : Execution) (now : ℕ)
      → e.status ≡ ExecutionStatus.planning
      → Steers e (Run.enter_executing env e now)
  unfolding Run.enter_executing append_timeline
  Steers-enter_executing e now h =
      Steers-after_still e _ _ (search (still_rules, Quiet-create_plan)) λ p.
        Steers-after_still e _ _ (search (still_rules)) λ _.
          Steers-after_still e _ _ (search (still_rules, Quiet-instantiate_steps)) λ built.
            Steers-after_still e _ _ (search (still_rules)) λ _.
              Steers-after_still e _ _ (search (still_rules))
                λ _. Steers-store e _ (record { same_id = refl; reach = rw h (next here execute) })

  Steers-plan_phase : (e : Execution) (now : ℕ) → Steers e (Run.plan_phase env e now)
  unfolding Run.plan_phase
  Steers-plan_phase e now =
      Steers-after-Leads e _ _
        (Leads-if e (e.status == ExecutionStatus.created) _ _
          (λ h. Leads-begin_planning e now (is_status e.status ExecutionStatus.created h))
          (Leads-pure e))
        (λ e1.
          Steers-if e1 (e1.status == ExecutionStatus.planning) _ _
            (λ h.
              Steers-then e1 _ _
                (Steers-enter_executing e1 now (is_status e1.status ExecutionStatus.planning h))
                (λ _. Keeps-pure Advances-IsPreorder _))
            (λ _. Steers-keeps e1 _ (Keeps-pure Advances-IsPreorder _)))

  prepare-Advances : (id : ℕ) → Keeps Advances (Run.prepare env id)
  unfolding Run.prepare
  prepare-Advances id = Keeps-get_execution id _ _ (Keeps-raise Advances-IsPreorder _ _) λ e.
      Steers-after_still e (now_utc env.readings) _ (search (still_rules)) λ now.
        Steers-if e (is_execution_terminal e.status) _ _
          (λ _. Steers-keeps e _ (Keeps-pure Advances-IsPreorder _)) (λ _. Steers-plan_phase e now)

-- An outcome that was produced, in a world that a predicate holds of.
abbrev pub InOutcome : (World → Type 0) → Outcome → Type 0
InOutcome P none = Unit
InOutcome P (some (r, w)) = P w

after-Advances :
    (r : Result Turn) (rest : World → Outcome) (u w : World)
    → Advances u w
    → InOutcome (Advances u) (rest w)
    → InOutcome (Advances u) (after r rest w)
unfolding after
after-Advances (err x) rest u w h k = h
after-Advances (ok (done e)) rest u w h k = h
after-Advances (ok again) rest u w h k = k

InOutcome-chain :
    (u v : World) (o : Outcome) → Advances u v → InOutcome (Advances v) o → InOutcome (Advances u) o
InOutcome-chain u v none h k = tt
InOutcome-chain u v (some (r, w)) h k = Advances-IsPreorder.chain u v w h k

module _ (env : Env) where
  loop-Advances : (fuel id : ℕ) (w : World) → InOutcome (Advances w) (Run.loop env fuel id w)
  unfolding Run.loop
  loop-Advances zero id w = tt
  loop-Advances (suc fuel) id w =
      let w' = (Run.turn env id w).1 in
      let h = (turn-Advances env id).at w in
      after-Advances (Run.turn env id w).0 (Run.loop env fuel id) w w' h
        (InOutcome-chain w w' (Run.loop env fuel id w') h (loop-Advances fuel id w'))

  enter-Advances :
      (fuel id : ℕ) (r : Result (Option Execution)) (u w : World)
      → Advances u w
      → InOutcome (Advances u) (Run.enter env fuel id r w)
  unfolding Run.enter
  enter-Advances fuel id (err x) u w h = h
  enter-Advances fuel id (ok (some e)) u w h = h
  enter-Advances fuel id (ok none) u w h =
      InOutcome-chain u w (Run.loop env fuel id w) h (loop-Advances fuel id w)

  -- Whatever `run_execution` does and however it ends, every execution stays, in a status that the
  -- lifecycle reaches from the one it had, and the store stays well formed.
  pub run_execution-Advances :
      (id : ℕ) (w : World) → InOutcome (Advances w) (Run.run_execution env id w)
  unfolding Run.run_execution
  run_execution-Advances id w =
      enter-Advances _ id (Run.prepare env id w).0 w (Run.prepare env id w).1
        ((prepare-Advances env id).at w)
