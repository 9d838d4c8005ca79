-- ===== src/Engine/Still.antt =====
-- Actions that move no execution to another status, whatever they do to the steps, and actions
-- that work out the next row of an execution without storing it.
use agentic_ai_platform.Prelude.{
  ◌≡◌, refl, ◌∙◌, subst, Bool, true, false, Option, none, some, if◌then◌else◌, inl, inr,
  Option-cases,
}
use agentic_ai_platform.Prelude.Dict.{lookup}
use agentic_ai_platform.Schemas.{Execution, Step}
use agentic_ai_platform.StateMachine.Lifecycle.{Reach}
use agentic_ai_platform.Repository
use agentic_ai_platform.Exec.{
  Exec, World, Error, Result, ok, err, pure, raise, saves, updates, if_some, continue, ◌>>=◌,
}
use agentic_ai_platform.Exec.Keeps.{Keeps, IsPreorder, Keeps-bind}
use agentic_ai_platform.Engine.Quiet.{IsWellFormed, Settled, Quiet, status_of}

pub record Still (w w' : World) : Type 0 where
  pub settles : IsWellFormed w → Settled w w'

pub Still-IsPreorder : IsPreorder Still
Still-IsPreorder = record {
  stay = λ w. record { settles = λ f. record { formed = f; unmoved = λ k. refl } };
  chain = λ u v w p q. record {
    settles = λ f.
        let s = p.settles f in
        let t = q.settles s.formed in
        record { formed = t.formed; unmoved = λ k. t.unmoved k ∙ s.unmoved k };
  };
}

pub Quiet→Still : {A : Type 0} (m : Exec A) → Keeps Quiet m → Keeps Still m
Quiet→Still m q = record { at = λ w. record { settles = (q.at w).settled } }

pub Still-save_step : (s : Step) → Keeps Still (saves (Repository.save_step s))
unfolding saves Repository.save_step status_of
Still-save_step s = record {
  at = λ w. record {
    settles =
        λ f. record { formed = record { keyed = f.keyed; given = f.given }; unmoved = λ k. refl };
  };
}

-- `update_step` raises and changes nothing, or stores the row.
pub update_step-cases :
    (s : Step) (w : World) (P : World → Type 0)
    → P w
    → ((old : Step)
        → lookup s.step_id w.steps ≡ some old
        → P ((saves (Repository.save_step s) w).1))
    → P (updates (Repository.update_step s) w).1
unfolding saves Repository.save_step updates Repository.update_step
update_step-cases s w P missing found = elim (Option-cases (lookup s.step_id w.steps)) [
  | inl h ↦ rw (updates, Repository.update_step, h) missing
  | inr (old, h) ↦ rw (updates, Repository.update_step, h) (found old h)
]

pub Still-update_step : (s : Step) → Keeps Still (updates (Repository.update_step s))
Still-update_step s = record {
  at = λ w.
      update_step-cases s w (Still w) (Still-IsPreorder.stay w) λ old h. (Still-save_step s).at w;
}

-- A row that an execution may have next.
pub record Continues (e e' : Execution) : Type 0 where
  pub same_id : e'.execution_id ≡ e.execution_id
  pub reach : Reach e.status e'.status

-- An action that stores no execution and returns what a row may be next.
pub record Prepares (e : Execution) (m : Exec Execution) : Type 0 where
  pub still : Keeps Still m
  pub gives : (w : World) (e' : Execution) → (m w).0 ≡ ok e' → Continues e e'

ok_injective : {A : Type 0} {a b : A} → ok a ≡ ok b → a ≡ b
ok_injective h = cc

err_not_ok : {A : Type 0} {x : Error} {a : A} → err x ≡ ok a → ⊥
err_not_ok h = cc

module _ (e : Execution) where
  pub Prepares-pure : (e' : Execution) → Continues e e' → Prepares e (pure e')
  unfolding pure
  Prepares-pure e' c = record {
    still = record { at = λ w. Still-IsPreorder.stay w };
    gives = λ w x h. subst (Continues e) (ok_injective h) c;
  }

  pub Prepares-raise : (x : Error) → Prepares e (raise x)
  unfolding raise
  Prepares-raise x = record {
    still = record { at = λ w. Still-IsPreorder.stay w };
    gives = λ w y h. absurd (err_not_ok h);
  }

  continue-gives :
      {A : Type 0} (r : Result A) (f : A → Exec Execution) (w : World) (e' : Execution)
      → ((a : A) → Prepares e (f a))
      → (continue r f w).0 ≡ ok e'
      → Continues e e'
  continue-gives (ok a) f w e' k h = (k a).gives w e' h
  continue-gives (err x) f w e' k h = absurd (err_not_ok h)

  pub Prepares-bind :
      {A : Type 0} (m : Exec A) (f : A → Exec Execution)
      → Keeps Still m
      → ((a : A) → Prepares e (f a))
      → Prepares e (m >>= f)
  unfolding ◌>>=◌
  Prepares-bind m f km kf = record {
    still = Keeps-bind Still-IsPreorder m f km (λ a. (kf a).still);
    gives = λ w e' h. continue-gives (m w).0 f (m w).1 e' kf h;
  }

  pub Prepares-if :
      (b : Bool) (m n : Exec Execution)
      → Prepares e m
      → Prepares e n
      → Prepares e (if b then m else n)
  Prepares-if true m n pm pn = pm
  Prepares-if false m n pm pn = pn

  pub Prepares-if_some :
      {B : Type 0} (o : Option B) (m : Exec Execution) (f : B → Exec Execution)
      → Prepares e m
      → ((b : B) → Prepares e (f b))
      → Prepares e (if_some o m f)
  unfolding if_some
  Prepares-if_some none m f pm pf = pm
  Prepares-if_some (some b) m f pm pf = pf b

pub ruleset prepares_rules =
    (Prepares-pure, Prepares-raise, Prepares-bind, Prepares-if, Prepares-if_some, Quiet→Still)
