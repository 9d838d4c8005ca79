-- ===== src/Engine/Termination.antt =====
-- The execution loop ends: its fuel, one more than the number of pending steps, is enough.
use agentic_ai_platform.Prelude.{
  ℕ, zero, suc, ◌≤◌, ◌<◌, ◌≡◌, ◌≢◌, refl, Bool, true, false, Option, none, some, List,
  if◌then◌else◌, ◌==◌, arith,
}
use agentic_ai_platform.Schemas.{
  Execution, ExecutionStatus, execution_status_eq, ExecutionPlan, Step,
}
use agentic_ai_platform.StateMachine.{is_execution_terminal}
use agentic_ai_platform.RuntimeMeta.{is_cancellation_requested}
use agentic_ai_platform.Exec.{
  Exec, World, Error, Result, ok, err, pure, raise, if_some, now_utc, continue, ◌>>=◌, ◌>>◌,
}
use agentic_ai_platform.Exec.Keeps.{Keeps, Keeps-pure}
use agentic_ai_platform.Env.{Env}
use agentic_ai_platform.Engine.Ready.{enter_validating, maybe_enter_validating}
use agentic_ai_platform.Engine.Trace.{get_execution}
use agentic_ai_platform.Engine.RunStep.{run_step}
use agentic_ai_platform.Engine.Run.{Turn, again, done, Outcome, after}
use agentic_ai_platform.Engine.Run
use agentic_ai_platform.Engine.Progress.{
  StepsKeyed, pending_count, Tidy, Tidy-IsPreorder, Tidy-update_execution, tidy_rules, Strict-then,
  run_step-Strict, run_step-Tidy,
}

-- A turn that asks for another one leaves one pending step less.
record Lowers (m : Exec Turn) : Type 0 where
  lower :
      (w : World)
      → StepsKeyed w
      → (m w).0 ≡ ok again
      → Tidy w (m w).1 × (suc (pending_count (m w).1) ≤ pending_count w)

again_not_done : (e : Execution) → ok (done e) ≡ ok again → ⊥
again_not_done e h = cc

Lowers-done : (e : Execution) → Lowers (pure (done e))
unfolding pure
Lowers-done e = record { lower = λ w k h. absurd (again_not_done e h) }

Lowers-raise : (x : Error) → Lowers (raise x)
unfolding raise
Lowers-raise x = record { lower = λ w k h. absurd cc }

Lowers-if : (b : Bool) (m n : Exec Turn) → Lowers m → Lowers n → Lowers (if b then m else n)
Lowers-if true m n km kn = km
Lowers-if false m n km kn = kn

Lowers-if_some :
    {B : Type 0} (o : Option B) (m : Exec Turn) (f : B → Exec Turn)
    → Lowers m
    → ((b : B) → Lowers (f b))
    → Lowers (if_some o m f)
unfolding if_some
Lowers-if_some none m f km kf = km
Lowers-if_some (some b) m f km kf = kf b

continue-lower :
    {A : Type 0} (r : Result A) (f : A → Exec Turn) (u w : World)
    → StepsKeyed u
    → Tidy u w
    → ((a : A) → Lowers (f a))
    → (continue r f w).0 ≡ ok again
    → Tidy u (continue r f w).1 × (suc (pending_count (continue r f w).1) ≤ pending_count u)
continue-lower (ok a) f u w k t kf h =
    let (t', n) = (kf a).lower w (t.keyed k) h in
    let m = t.fewer in (Tidy-IsPreorder.chain u w (f a w).1 t t', omega (arith, n, m))
continue-lower (err x) f u w k t kf h = absurd cc

Lowers-bind :
    {A : Type 0} (m : Exec A) (f : A → Exec Turn)
    → Keeps Tidy m
    → ((a : A) → Lowers (f a))
    → Lowers (m >>= f)
unfolding ◌>>=◌
Lowers-bind m f km kf = record { lower = λ w k. continue-lower (m w).0 f w (m w).1 k (km.at w) kf }

return_never :
    (r : Result Execution) (w : World) → (continue r (λ e. pure (done e)) w).0 ≡ ok again → ⊥
unfolding pure
return_never (ok e) w h = again_not_done e h
return_never (err x) w h = cc

module _ (env : Env) where
  Lowers-return_it : (m : Exec Execution) → Lowers (Run.return_it env m)
  unfolding Run.return_it ◌>>=◌
  Lowers-return_it m = record { lower = λ w k h. absurd (return_never (m w).0 (m w).1 h) }

  Lowers-step_or_settle :
      (e : Execution) (steps : List Step) (s : Option Step) (now : ℕ)
      → Lowers (Run.step_or_settle env e steps s now)
  unfolding Run.step_or_settle
  Lowers-step_or_settle e steps none now = Lowers-return_it (Run.settle env e steps)
  Lowers-step_or_settle e steps (some s) now =
      let strict =
        Strict-then StepsKeyed _ _ (run_step-Strict env s.step_id now)
          (λ _. Keeps-pure Tidy-IsPreorder again) in
      let neat : Keeps Tidy (run_step env s.step_id now >> pure again) =
        search (tidy_rules, run_step-Tidy) depth 24 in
      record { lower = λ w k h. (neat.at w, strict.at w k again h) }

  Lowers-work : (id : ℕ) (p : ExecutionPlan) (now : ℕ) → Lowers (Run.work env id p now)
  unfolding Run.work Run.pick_step get_execution
  Lowers-work id p now = Lowers-bind _ _ (search (tidy_rules)) λ found.
      Lowers-if_some found _ _ (Lowers-raise _) λ e.
        Lowers-if (is_execution_terminal e.status) _ _ (Lowers-done e)
          (Lowers-bind _ _ (search (tidy_rules)) λ steps. Lowers-step_or_settle e steps _ now)

  Tidy-maybe :
      (e : Execution) (steps : List Step) (now : ℕ)
      → Keeps Tidy (maybe_enter_validating e steps now)
  unfolding maybe_enter_validating enter_validating
  Tidy-maybe e steps now = search (tidy_rules) depth 24

  Lowers-advance : (id : ℕ) (e : Execution) → Lowers (Run.advance env id e)
  unfolding Run.advance Run.plan_of
  Lowers-advance id e = Lowers-bind _ _ (search (tidy_rules)) λ steps.
      Lowers-bind _ _ (search (tidy_rules)) λ found. Lowers-if_some found _ _ (Lowers-raise _) λ p.
        Lowers-bind _ _ (search (tidy_rules)) λ now.
          Lowers-bind _ _ (Tidy-maybe e steps now)
            λ e1. Lowers-bind _ _ (Tidy-update_execution e1) λ _. Lowers-work id p now

  Lowers-turn : (id : ℕ) → Lowers (Run.turn env id)
  unfolding Run.turn Run.turn_of get_execution
  Lowers-turn id = Lowers-bind _ _ (search (tidy_rules)) λ found.
      Lowers-if_some found _ _ (Lowers-raise _) λ e.
        Lowers-if (is_cancellation_requested e) _ _
          (Lowers-bind (now_utc env.readings) _ (search (tidy_rules)) λ now. Lowers-return_it _)
          (Lowers-if (e.status == ExecutionStatus.awaiting_approval) _ _ (Lowers-done e)
            (Lowers-if (is_execution_terminal e.status) _ _ (Lowers-done e) (Lowers-advance id e)))

some_not_none : {A : Type 0} {a : A} → some a ≡ none → ⊥
some_not_none h = cc

after_ends :
    (r : Result Turn) (rest : World → Outcome) (w : World)
    → (r ≡ ok again → rest w ≢ none)
    → after r rest w ≢ none
unfolding after
after_ends (err x) rest w k h = some_not_none h
after_ends (ok (done e)) rest w k h = some_not_none h
after_ends (ok again) rest w k h = k refl h

module _ (env : Env) where
  -- Fuel above the number of pending steps is enough for the loop.
  pub loop_ends :
      (fuel id : ℕ) (w : World)
      → StepsKeyed w
      → pending_count w < fuel
      → Run.loop env fuel id w ≢ none
  unfolding Run.loop
  loop_ends zero id w k h = absurd (omega (arith, h))
  loop_ends (suc fuel) id w k h =
      after_ends (Run.turn env id w).0 (Run.loop env fuel id) (Run.turn env id w).1 λ turned.
        let (t, n) = (Lowers-turn env id).lower w k turned in
        loop_ends fuel id (Run.turn env id w).1 (t.keyed k) (omega (arith, n, h))
