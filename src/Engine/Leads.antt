-- ===== src/Engine/Leads.antt =====
-- Actions that store a row and hand it on, and what follows them.
use agentic_ai_platform.Prelude.{
  ◌≡◌, refl, sym, subst, ap, ◌∙◌, Bool, true, false, some, if◌then◌else◌,
}
use agentic_ai_platform.Prelude.Dict.{lookup, lookup-put_self}
use agentic_ai_platform.Schemas.{Execution, execution_status_eq}
use agentic_ai_platform.Exec.{Exec, World, Result, ok, err, pure, continue, ◌>>=◌}
use agentic_ai_platform.Exec.Keeps.{Keeps}
use agentic_ai_platform.Engine.Cancel.{store}
use agentic_ai_platform.Engine.Quiet.{status_of, status_in, with_execution, update_execution-runs}
use agentic_ai_platform.Engine.Still.{Still, Continues}
use agentic_ai_platform.Engine.Steers.{
  Advances, Advances-IsPreorder, Advances-with, Holds, Holds-still, Steers, Still→Advances,
  status-row, continue-steers,
}
use agentic_ai_platform.Engine.Motion.{Steers-store}

-- `store` of a row that is there
pub store-runs :
    (e old : Execution) (w : World)
    → lookup e.execution_id w.executions ≡ some old
    → store e w ≡ (ok e, with_execution e w)
unfolding store pure ◌>>=◌
store-runs e old w h = rw (store, ◌>>=◌, update_execution-runs e old w h) refl

-- An action that advances and returns the row that is stored when it is done.
pub record Leads (e : Execution) (m : Exec Execution) : Type 0 where
  pub advances : (w : World) → Holds e w → Advances w (m w).1
  pub holds : (w : World) → Holds e w → (e' : Execution) → (m w).0 ≡ ok e' → Holds e' (m w).1

ok_injective : {A : Type 0} {a b : A} → ok a ≡ ok b → a ≡ b
ok_injective h = cc

module _ (e : Execution) where
  pub Leads-pure : Leads e (pure e)
  unfolding pure
  Leads-pure = record {
    advances = λ w held. Advances-IsPreorder.stay w;
    holds = λ w held e' h. subst (λ x. Holds x w) (ok_injective h) held;
  }

  Holds-with :
      (e' : Execution) (w : World) → Holds e w → Continues e e' → Holds e' (with_execution e' w)
  unfolding status_of
  Holds-with e' w held c = record {
    formed = ((Advances-with e e' w held c).advanced held.formed).formed;
    here = ap status_in (lookup-put_self e'.execution_id e' w.executions);
  }

  pub Leads-store : (e' : Execution) → Continues e e' → Leads e (store e')
  Leads-store e' c = record {
    advances = λ w held. (Steers-store e e' c).at w held;
    holds = λ w held x h.
        let (old, found, _) = status-row e.execution_id e.status w held.here in
        let runs = store-runs e' old w (ap (λ i. lookup i w.executions) c.same_id ∙ found) in
        let same : e' ≡ x = ok_injective (sym (ap (λ r. r.0) runs) ∙ h) in
        subst (λ r. Holds x r.1) (sym runs)
          (subst (λ y. Holds y (with_execution e' w)) same (Holds-with e' w held c));
  }

  pub Leads-if :
      (b : Bool) (m n : Exec Execution)
      → (b ≡ true → Leads e m)
      → Leads e n
      → Leads e (if b then m else n)
  Leads-if true m n km kn = km refl
  Leads-if false m n km kn = kn

  continue-Holds :
      {A : Type 0} (r : Result A) (f : A → Exec Execution) (w : World)
      → Holds e w
      → ((a : A) → Leads e (f a))
      → (e' : Execution) → (continue r f w).0 ≡ ok e'
      → Holds e' (continue r f w).1
  continue-Holds (ok a) f w held k e' h = (k a).holds w held e' h
  continue-Holds (err x) f w held k e' h = absurd cc

  pub Leads-after_still :
      {A : Type 0} (m : Exec A) (f : A → Exec Execution)
      → Keeps Still m
      → ((a : A) → Leads e (f a))
      → Leads e (m >>= f)
  unfolding ◌>>=◌
  Leads-after_still m f km kf = record {
    advances = λ w held.
        continue-steers e (m w).0 f w (m w).1 (Still→Advances w (m w).1 (km.at w))
          λ a ha. (kf a).advances (m w).1 (Holds-still e w (m w).1 held (km.at w));
    holds = λ w held. continue-Holds (m w).0 f (m w).1 (Holds-still e w (m w).1 held (km.at w)) kf;
  }

  pub Steers-after-Leads :
      {B : Type 0} (m : Exec Execution) (f : Execution → Exec B)
      → Leads e m
      → ((e' : Execution) → Steers e' (f e'))
      → Steers e (m >>= f)
  unfolding ◌>>=◌
  Steers-after-Leads m f km kf = record {
    at = λ w held.
        continue-steers e (m w).0 f w (m w).1 (km.advances w held)
          λ e' he. (kf e').at (m w).1 (km.holds w held e' he);
  }
