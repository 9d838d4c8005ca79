-- ===== src/Prelude/Dict.antt =====
-- Python's `dict` keyed by UUIDs: an association list in the order of first insertion. Writing a
-- key that is present replaces its value in place.
use Prim.Native.Nat.{ℕ, ◌+◌}
use mathlib.Core.Path.{◌≡◌, refl, ap}
use mathlib.Core.Bool.{Bool, true}
use mathlib.Core.Option.{Option, none, some}
use mathlib.Core.List.{List, [], ◌∷◌, map}
use native.Mathlib.Omega.{arith}
use mathlib.Core.Logic.{inl, inr}
use agentic_ai_platform.Prelude.Tests.{◌==◌, nat_eq, if◌then◌else◌, Bool-cases}
use agentic_ai_platform.Prelude.Lists.{any}

abbrev pub Dict {ℓ} : Type ℓ → Type ℓ
Dict V = List (ℕ × V)

module _ {ℓ} {V : Type ℓ} where
  unfoldable pub lookup : ℕ → Dict V → Option V
  lookup k [] = none
  lookup k ((j, v) ∷ d) = let rest = lookup k d in if j == k then some v else rest

  pub put : ℕ → V → Dict V → Dict V
  put k v [] = (k, v) ∷ []
  put k v ((j, w) ∷ d) = let rest = put k v d in if j == k then (k, v) ∷ d else (j, w) ∷ rest

  abbrev pub values : Dict V → List V
  values d = map (λ e. e.1) d

  pub lookup-put :
      (k j : ℕ) (v : V) (d : Dict V)
      → lookup j (put k v d) ≡ (if k == j then some v else lookup j d)
  unfolding lookup put
  lookup-put k j v [] = refl
  lookup-put k j v ((i, w) ∷ d) = ground (arith, lookup-put k j v d)

  pub lookup-put_self : (k : ℕ) (v : V) (d : Dict V) → lookup k (put k v d) ≡ some v
  lookup-put_self k v d = ground (arith, lookup-put k k v d)

  -- The number of entries whose value passes a test.
  pub count : (V → Bool) → Dict V → ℕ
  count p [] = 0
  count p ((j, v) ∷ d) = (if p v then 1 else 0) + count p d

  -- Overwriting one entry changes the count by that entry alone.
  pub count-put :
      (p : V → Bool) (k : ℕ) (v w : V) (d : Dict V)
      → lookup k d ≡ some w
      → count p (put k v d) + (if p w then 1 else 0) ≡ count p d + (if p v then 1 else 0)
  unfolding lookup put count
  count-put p k v w [] h = ground arith
  count-put p k v w ((j, u) ∷ d) h = ground (arith, count-put p k v w d)

  -- A value that was put in is there.
  pub any-put :
      (p : V → Bool) (k : ℕ) (v : V) (d : Dict V) → p v ≡ true → any p (values (put k v d)) ≡ true
  unfolding put
  any-put p k v [] h = ground (arith, h)
  any-put p k v ((j, w) ∷ d) h = ground (arith, any-put p k v d, h)

-- Another value under each key.
module _ {ℓ κ} {V : Type ℓ} {W : Type κ} (f : V → W) where
  unfoldable pub map_values : Dict V → Dict W
  map_values [] = []
  map_values ((k, v) ∷ d) = (k, f v) ∷ map_values d

  pub put-map_values :
      (k : ℕ) (v : V) (d : Dict V) → put k (f v) (map_values d) ≡ map_values (put k v d)
  unfolding put map_values
  put-map_values k v [] = refl
  put-map_values k v ((j, w) ∷ d) = elim (Bool-cases (j == k)) [
    | inl same ↦ rw same refl
    | inr other ↦ rw other (ap (λ e. (j, f w) ∷ e) (put-map_values k v d))
  ]

  pub lookup-map_values-none :
      (k : ℕ) (d : Dict V) → lookup k d ≡ none → lookup k (map_values d) ≡ none
  unfolding lookup map_values
  lookup-map_values-none k [] h = refl
  lookup-map_values-none k ((j, w) ∷ d) h = ground (arith, lookup-map_values-none k d, h)

  pub lookup-map_values-some :
      (k : ℕ) (v : V) (d : Dict V) → lookup k d ≡ some v → lookup k (map_values d) ≡ some (f v)
  unfolding lookup map_values
  lookup-map_values-some k v [] h = absurd (ground (arith, h))
  lookup-map_values-some k v ((j, w) ∷ d) h = ground (arith, lookup-map_values-some k v d, h)
