-- ===== src/Engine/Progress.antt =====
-- Each step that runs leaves one pending step less.
use agentic_ai_platform.Prelude.{
  ℕ, suc, ◌≤◌, ◌≡◌, refl, sym, ap, ◌∙◌, true, false, some, inl, inr, Option-cases, arith,
}
use agentic_ai_platform.Prelude.Dict.{Dict, put, lookup, lookup-put, count, count-put}
use agentic_ai_platform.Schemas.{Execution, Step, StepStatus, StepResult, step_status_eq}
use agentic_ai_platform.StateMachine.{Verdict, permitted, refused, validate_step_transition}
use agentic_ai_platform.Repository
use agentic_ai_platform.Exec.{
  Exec, World, Error, Result, ok, err, raise, reads, saves, updates, require, continue, if_some,
  ◌>>=◌, ◌>>◌,
}
use agentic_ai_platform.Exec.Keeps.{Keeps, IsPreorder, Keeps-bind, keeps_rules}
use agentic_ai_platform.Env.{Env}
use agentic_ai_platform.Engine.Ready.{pending}
use agentic_ai_platform.Engine.Trace.{update_execution}
use agentic_ai_platform.Engine.RunStep.{
  with_status, start_step, finish_step, validation_row, run_step,
}
use agentic_ai_platform.Engine.Quiet.{Quiet, Quiet-IsPreorder, quiet_rules, update_execution-cases}
use agentic_ai_platform.Engine.Still.{update_step-cases}
use agentic_ai_platform.Engine.Work.{step_work-Quiet}

-- Every step is stored under its identifier.
abbrev pub StepsKeyed : World → Type 0
StepsKeyed w = (k : ℕ) (s : Step) → lookup k w.steps ≡ some s → s.step_id ≡ k

abbrev pub pending_count : World → ℕ
pending_count w = count pending w.steps

pub record Tidy (w w' : World) : Type 0 where
  pub keyed : StepsKeyed w → StepsKeyed w'
  pub fewer : pending_count w' ≤ pending_count w

pub Tidy-IsPreorder : IsPreorder Tidy
Tidy-IsPreorder = record {
  stay = λ w. record { keyed = λ k. k; fewer = omega arith };
  chain = λ u v w p q. record {
    keyed = λ k. q.keyed (p.keyed k);
    fewer = let a = p.fewer in let b = q.fewer in omega (arith, a, b);
  };
}

Tidy-same : (w w' : World) → w'.steps ≡ w.steps → Tidy w w'
Tidy-same w w' h = record {
  keyed = λ k i s hs. k i s (ap (lookup i) (sym h) ∙ hs);
  fewer = rw h (omega arith);
}

pub Quiet→Tidy : {A : Type 0} (m : Exec A) → Keeps Quiet m → Keeps Tidy m
Quiet→Tidy m q = record { at = λ w. Tidy-same w (m w).1 ((q.at w).steps_same) }

pub Tidy-update_execution : (e : Execution) → Keeps Tidy (update_execution e)
Tidy-update_execution e = record {
  at =
      λ w. update_execution-cases e w (Tidy w) (Tidy-IsPreorder.stay w) λ old h. Tidy-same w _ refl;
}

pub keyed-put :
    (s : Step) (d : Dict Step)
    → ((k : ℕ) (x : Step) → lookup k d ≡ some x → x.step_id ≡ k)
    → (k : ℕ) (x : Step) → lookup k (put s.step_id s d) ≡ some x
    → x.step_id ≡ k
keyed-put s d h k x hx = ground (arith, lookup-put s.step_id k s d, h k x, hx)

-- A step that is no longer pending is stored over any row.
pub Tidy-update_step :
    (s : Step) → pending s ≡ false → Keeps Tidy (updates (Repository.update_step s))
unfolding Repository.save_step saves
Tidy-update_step s h = record {
  at = λ w. update_step-cases s w (Tidy w) (Tidy-IsPreorder.stay w) λ old ho. record {
    keyed = keyed-put s w.steps;
    fewer = ground (arith, count-put pending s.step_id s old w.steps ho, h);
  };
}

-- Where an action returns, one pending step less is left.
pub record Strict {A : Type 0} (P : World → Type 0) (m : Exec A) : Type 0 where
  pub at :
      (w : World) → P w → (a : A) → (m w).0 ≡ ok a → suc (pending_count (m w).1) ≤ pending_count w

module _ {A B : Type 0} where
  continue-Strict :
      (n : ℕ) (r : Result A) (f : A → Exec B) (w : World)
      → ((a : A) → r ≡ ok a → suc (pending_count w) ≤ n)
      → ((a : A) → Keeps Tidy (f a))
      → (b : B) → (continue r f w).0 ≡ ok b
      → suc (pending_count (continue r f w).1) ≤ n
  continue-Strict n (ok a) f w h k b hb =
      let here = h a refl in let later = ((k a).at w).fewer in omega (arith, here, later)
  continue-Strict n (err x) f w h k b hb = absurd cc

  pub Strict-then :
      (P : World → Type 0) (m : Exec A) (f : A → Exec B)
      → Strict P m
      → ((a : A) → Keeps Tidy (f a))
      → Strict P (m >>= f)
  unfolding ◌>>=◌
  Strict-then P m f sm kf = record {
    at = λ w p. continue-Strict (pending_count w) (m w).0 f (m w).1 (sm.at w p) kf;
  }

  continue-later :
      (n : ℕ) (r : Result A) (f : A → Exec B) (w : World)
      → pending_count w ≤ n
      → ((a : A) (b : B) → (f a w).0 ≡ ok b → suc (pending_count (f a w).1) ≤ pending_count w)
      → (b : B) → (continue r f w).0 ≡ ok b
      → suc (pending_count (continue r f w).1) ≤ n
  continue-later n (ok a) f w h k b hb = let later = k a b hb in omega (arith, h, later)
  continue-later n (err x) f w h k b hb = absurd cc

  pub Strict-after :
      (m : Exec A) (f : A → Exec B)
      → Keeps Tidy m
      → ((a : A) → Strict StepsKeyed (f a))
      → Strict StepsKeyed (m >>= f)
  unfolding ◌>>=◌
  Strict-after m f km sf = record {
    at = λ w p.
        continue-later (pending_count w) (m w).0 f (m w).1 ((km.at w).fewer)
          (λ a. (sf a).at (m w).1 ((km.at w).keyed p));
  }

module _ {A : Type 0} where
  pub Strict-raise : (P : World → Type 0) (x : Error) → Strict P (raise {A = A} x)
  unfolding raise
  Strict-raise P x = record { at = λ w p a h. absurd cc }

  Strict-require :
      (P : World → Type 0) (v : Verdict) (m : Exec A)
      → (v ≡ permitted → Strict P m)
      → Strict P (require v >> m)
  unfolding require ◌>>=◌
  Strict-require P permitted m k = k refl
  Strict-require P (refused why) m k = record { at = λ w p a h. absurd cc }

pending_permitted :
    (s : Step) → validate_step_transition s.status StepStatus.running ≡ permitted → pending s ≡ true
unfolding validate_step_transition
pending_permitted s h = ground arith

-- Storing a pending step as running
abbrev Stored : Step → World → Type 0
Stored s w = lookup s.step_id w.steps ≡ some s

Strict-run :
    (s : Step) (now : ℕ)
    → pending s ≡ true
    → Strict (Stored s) (updates (Repository.update_step (with_status s StepStatus.running now)))
unfolding updates Repository.update_step
Strict-run s now h = record {
  at = λ w stored a ok_.
      let c = count-put pending s.step_id (with_status s StepStatus.running now) s w.steps stored in
      rw (updates, Repository.update_step, stored) (ground (arith, c, h));
}

Strict-get_step :
    {A : Type 0} (id : ℕ) (absent : Exec A) (f : Step → Exec A)
    → Strict StepsKeyed absent
    → ((s : Step) → Strict (Stored s) (f s))
    → Strict StepsKeyed
        (reads (λ w. Repository.get_step id w.repo) >>= (λ found. if_some found absent f))
unfolding reads Repository.get_step ◌>>=◌ if_some
Strict-get_step id absent f ka kf = record {
  at = λ w keyed. elim (Option-cases (lookup id w.steps)) [
    | inl h ↦ rw h (ka.at w keyed)
    | inr (s, h) ↦ rw h ((kf s).at w (ap (λ i. lookup i w.steps) (keyed id s h) ∙ h))
  ];
}

abbrev pub tidy : IsPreorder Tidy
tidy = Tidy-IsPreorder

abbrev pub calm : IsPreorder Quiet
calm = Quiet-IsPreorder

pub ruleset tidy_rules =
    (keeps_rules, quiet_rules, tidy, calm, Quiet→Tidy, Tidy-update_execution, Tidy-update_step)

Strict-start_step : (id now : ℕ) → Strict StepsKeyed (start_step id now)
unfolding start_step
Strict-start_step id now = Strict-get_step id _ _ (Strict-raise StepsKeyed _) λ s.
    Strict-require (Stored s) _ _ λ h.
      Strict-then (Stored s) _ _ (Strict-run s now (pending_permitted s h))
        λ _. search (tidy_rules) depth 24

Tidy-succeed :
    (s : Step) (now : ℕ)
    → Keeps Tidy (updates (Repository.update_step (with_status s StepStatus.succeeded now)))
Tidy-succeed s now = Tidy-update_step (with_status s StepStatus.succeeded now) refl

Tidy-finish_step : (s : Step) (x : StepResult) (now : ℕ) → Keeps Tidy (finish_step s x now)
unfolding finish_step validation_row
Tidy-finish_step s x now = search (tidy_rules, Tidy-succeed) depth 24

-- A step that runs to its end was pending and is not any more, and no other step became pending.
pub run_step-Strict : (env : Env) (id now : ℕ) → Strict StepsKeyed (run_step env id now)
unfolding run_step
run_step-Strict env id now =
    Strict-then StepsKeyed _ _ (Strict-start_step id now)
      λ s. search (tidy_rules, Tidy-finish_step, step_work-Quiet) depth 24

Tidy-run :
    (s : Step) (now : ℕ)
    → Keeps Tidy (updates (Repository.update_step (with_status s StepStatus.running now)))
Tidy-run s now = Tidy-update_step (with_status s StepStatus.running now) refl

Tidy-start_step : (id now : ℕ) → Keeps Tidy (start_step id now)
unfolding start_step
Tidy-start_step id now = search (tidy_rules, Tidy-run) depth 24

pub run_step-Tidy : (env : Env) (id now : ℕ) → Keeps Tidy (run_step env id now)
unfolding run_step
run_step-Tidy env id now =
    search (tidy_rules, Tidy-start_step, Tidy-finish_step, step_work-Quiet) depth 24
