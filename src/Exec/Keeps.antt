-- ===== src/Exec/Keeps.antt =====
-- Rules for what an action does to the world, whether it returns or raises: one for each way to
-- build an action, for any relation between worlds that is reflexive and transitive.
use agentic_ai_platform.Prelude.{
  Bool, true, false, Option, none, some, List, [], ◌∷◌, if◌then◌else◌,
}
use agentic_ai_platform.StateMachine.{Verdict, permitted, refused}
use agentic_ai_platform.Exec.{
  World, Error, Result, ok, err, Exec, pure, raise, reads, continue, ◌>>=◌, if_some, require,
  for_each, collect,
}

pub record IsPreorder (R : World → World → Type 0) : Type 0 where
  pub stay : (w : World) → R w w
  pub chain : (u v w : World) → R u v → R v w → R u w

pub record Keeps {A : Type 0} (R : World → World → Type 0) (m : Exec A) : Type 0 where
  pub at : (w : World) → R w (m w).1

module _ {R : World → World → Type 0} (order : IsPreorder R) where
  pub Keeps-pure : {A : Type 0} (a : A) → Keeps R (pure a)
  unfolding pure
  Keeps-pure a = record { at = λ w. order.stay w }

  pub Keeps-raise : (A : Type 0) (e : Error) → Keeps R (raise {A = A} e)
  unfolding raise
  Keeps-raise A e = record { at = λ w. order.stay w }

  pub Keeps-reads : {A : Type 0} (f : World → A) → Keeps R (reads f)
  unfolding reads
  Keeps-reads f = record { at = λ w. order.stay w }

  pub Keeps-require : (v : Verdict) → Keeps R (require v)
  unfolding require
  Keeps-require permitted = record { at = λ w. order.stay w }
  Keeps-require (refused why) = record { at = λ w. order.stay w }

  continue-kept :
      {A B : Type 0} (r : Result A) (f : A → Exec B) (u w : World)
      → R u w
      → ((a : A) → Keeps R (f a))
      → R u (continue r f w).1
  continue-kept (ok a) f u w h k = order.chain u w (f a w).1 h ((k a).at w)
  continue-kept (err e) f u w h k = h

  pub Keeps-bind :
      {A B : Type 0} (m : Exec A) (f : A → Exec B)
      → Keeps R m
      → ((a : A) → Keeps R (f a))
      → Keeps R (m >>= f)
  unfolding ◌>>=◌
  Keeps-bind m f km kf = record { at = λ w. continue-kept (m w).0 f w (m w).1 (km.at w) kf }

  pub Keeps-for_each :
      {A : Type 0} (xs : List A) (body : A → Exec Unit)
      → ((a : A) → Keeps R (body a))
      → Keeps R (for_each xs body)
  unfolding for_each
  Keeps-for_each [] body k = record { at = λ w. order.stay w }
  Keeps-for_each (x ∷ xs) body k = record {
    at = λ w.
        continue-kept (body x w).0 (λ _. for_each xs body) w (body x w).1 ((k x).at w)
          (λ _. Keeps-for_each xs body k);
  }

  pub Keeps-collect :
      {A B : Type 0} (xs : List A) (body : A → Exec B)
      → ((a : A) → Keeps R (body a))
      → Keeps R (collect xs body)
  unfolding collect
  Keeps-collect [] body k = record { at = λ w. order.stay w }
  Keeps-collect (x ∷ xs) body k = record {
    at = λ w. continue-kept (body x w).0 _ w (body x w).1 ((k x).at w) (λ b. record {
      at = λ w1.
          continue-kept (collect xs body w1).0 _ w1 (collect xs body w1).1
            ((Keeps-collect xs body k).at w1) (λ bs. record { at = λ w3. order.stay w3 });
    });
  }

module _ {R : World → World → Type 0} {A : Type 0} where
  pub Keeps-if : (b : Bool) (m n : Exec A) → Keeps R m → Keeps R n → Keeps R (if b then m else n)
  Keeps-if true m n km kn = km
  Keeps-if false m n km kn = kn

  pub Keeps-if_some :
      {B : Type 0} (o : Option B) (m : Exec A) (f : B → Exec A)
      → Keeps R m
      → ((b : B) → Keeps R (f b))
      → Keeps R (if_some o m f)
  unfolding if_some
  Keeps-if_some none m f km kf = km
  Keeps-if_some (some b) m f km kf = kf b

pub ruleset keeps_rules = (
  Keeps-pure, Keeps-raise, Keeps-reads, Keeps-require, Keeps-bind, Keeps-for_each, Keeps-collect,
  Keeps-if, Keeps-if_some,
)
