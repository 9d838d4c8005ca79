-- ===== src/Exec/Returns.antt =====
-- Rules for what an action returns, where it returns.
use agentic_ai_platform.Prelude.{
  ◌≡◌, ◌⊎◌, inl, inr, refl, Bool, true, false, Option, none, some, if◌then◌else◌, arith,
}
use agentic_ai_platform.Exec.{
  World, Error, Result, ok, err, Exec, pure, raise, continue, ◌>>=◌, if_some,
}

pub record Returns {A : Type 0} (P : A → Type 0) (m : Exec A) : Type 0 where
  pub at : (w : World) (a : A) → (m w).0 ≡ ok a → P a

module _ {A : Type 0} (P : A → Type 0) where
  pub Returns-pure : (a : A) → P a → Returns P (pure a)
  unfolding pure
  Returns-pure a p = record { at = λ w b h. ground (arith, h, p) }

  pub Returns-raise : (e : Error) → Returns P (raise e)
  unfolding raise
  Returns-raise e = record { at = λ w b h. absurd (ground (arith, h)) }

  continue_gives :
      {B : Type 0} (r : Result B) (f : B → Exec A) (w : World) (a : A)
      → ((b : B) → r ≡ ok b → Returns P (f b))
      → (continue r f w).0 ≡ ok a
      → P a
  continue_gives (ok b) f w a k h = (k b refl).at w a h
  continue_gives (err e) f w a k h = absurd (ground (arith, h))

  -- What the first action returns may be used.
  pub Returns-bind :
      {B : Type 0} (Q : B → Type 0) (m : Exec B) (f : B → Exec A)
      → Returns Q m
      → ((b : B) → Q b → Returns P (f b))
      → Returns P (m >>= f)
  unfolding ◌>>=◌
  Returns-bind Q m f km kf = record {
    at = λ w a h. continue_gives (m w).0 f (m w).1 a (λ b e. kf b (km.at w b e)) h;
  }

  -- Nothing is asked of the first action.
  pub Returns-last :
      {B : Type 0} (m : Exec B) (f : B → Exec A) → ((b : B) → Returns P (f b)) → Returns P (m >>= f)
  Returns-last m f kf = Returns-bind (λ b. Unit) m f (record { at = λ w a h. tt }) λ b _. kf b

  pub Returns-if :
      (b : Bool) (m n : Exec A) → Returns P m → Returns P n → Returns P (if b then m else n)
  Returns-if true m n km kn = km
  Returns-if false m n km kn = kn

  pub Returns-if_some :
      {B : Type 0} (o : Option B) (m : Exec A) (f : B → Exec A)
      → Returns P m
      → ((b : B) → Returns P (f b))
      → Returns P (if_some o m f)
  unfolding if_some
  Returns-if_some none m f km kf = km
  Returns-if_some (some b) m f km kf = kf b

-- To split on how an action ended and keep the equation.
pub Result-cases :
    {A : Type 0} (r : Result A) → ((e : Error) × (r ≡ err e)) ⊎ ((a : A) × (r ≡ ok a))
Result-cases (err e) = inl (e, refl)
Result-cases (ok a) = inr (a, refl)
