-- ===== src/Mukti/Loops.antt =====
-- The loops of the analyzer: what a body adds, and the loop that drops equal texts.
use agentic_ai_platform.Prelude.{
  ◌≡◌, refl, ◌∙◌, Bool, false, not, Bool-cases, inl, inr, String, List, [], ◌∷◌, ◌++◌, ◌==◌,
  string_eq, ◌&&◌, ◌||◌, any, is_empty, arith,
}
use text.Mathlib.TextEquality.{eq_iff}
use agentic_ai_platform.Schemas.{execution_status_eq, step_status_eq}
use agentic_ai_platform.Mukti.{Signals, each, dedup}

-- `t in xs`
abbrev pub has : String → List String → Bool
has t xs = any (λ x. x == t) xs

-- No text stands twice.
abbrev pub Distinct : List String → Type 0
Distinct [] = Unit
Distinct (x ∷ xs) = (has x xs ≡ false) × Distinct xs

pub any-snoc :
    {A : Type 0} (p : A → Bool) (xs : List A) (y : A) → any p (xs ++ y ∷ []) ≡ any p xs || p y
any-snoc p [] y = ground arith
any-snoc p (x ∷ xs) y = ground (arith, any-snoc p xs y)

-- A loop whose body adds what `b` tells of exactly where `q` holds.
pub each-adds :
    {A : Type 0} (g : Signals → Bool) (body : A → Signals → Signals) (q : A → Bool) (b : Bool)
    → ((a : A) (f : Signals) → g (body a f) ≡ g f || (q a && b))
    → (xs : List A) (f : Signals) → g (each body xs f) ≡ g f || (any q xs && b)
unfolding each
each-adds g body q b h [] f = ground arith
each-adds g body q b h (x ∷ xs) f = ground (arith, each-adds g body q b h xs (body x f), h x f)

pub each-keeps :
    {A : Type 0} (g : Signals → Bool) (body : A → Signals → Signals)
    → ((a : A) (f : Signals) → g (body a f) ≡ g f)
    → (xs : List A) (f : Signals) → g (each body xs f) ≡ g f
unfolding each
each-keeps g body h [] f = refl
each-keeps g body h (x ∷ xs) f = each-keeps g body h xs (body x f) ∙ h x f

pub has-dedup :
    (t : String) (seen xs : List String) → has t (dedup seen xs) ≡ has t xs && not (has t seen)
unfolding dedup
has-dedup t seen [] = refl
has-dedup t seen (x ∷ xs) = elim (Bool-cases (has x seen)) [
  | inl known ↦ rw known (ground (arith, has-dedup t seen xs, eq_iff x t, known))
  | inr new ↦ rw new (ground (arith, has-dedup t (x ∷ seen) xs, eq_iff x t, new))
]

pub dedup-Distinct : (seen xs : List String) → Distinct (dedup seen xs)
unfolding dedup
dedup-Distinct seen [] = tt
dedup-Distinct seen (x ∷ xs) = elim (Bool-cases (has x seen)) [
  | inl known ↦ rw known (dedup-Distinct seen xs)
  | inr new ↦
      rw new (ground (arith, has-dedup x (x ∷ seen) xs, eq_iff x x), dedup-Distinct (x ∷ seen) xs)
]

pub dedup_nothing : (xs : List String) → is_empty (dedup [] xs) ≡ is_empty xs
unfolding dedup
dedup_nothing [] = refl
dedup_nothing (x ∷ xs) = refl
