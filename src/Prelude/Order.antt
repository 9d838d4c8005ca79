-- ===== src/Prelude/Order.antt =====
-- `sorted(xs, key=f)` and `xs.sort(key=f, reverse=True)` for keys that are numbers: stable sorts,
-- as insertion from the right.
use Prim.Native.Nat.{ℕ, zero, suc, ◌≤◌}
use mathlib.Core.Logic.{inl, inr}
use mathlib.Core.Bool.{Bool, ◌||◌}
use mathlib.Core.Path.{◌≡◌, refl}
use mathlib.Core.List.{List, [], ◌∷◌, Perm}
use mathlib.Core.List.Perm
use native.Mathlib.Omega.{arith}
use agentic_ai_platform.Prelude.Tests.{if◌then◌else◌, Bool-cases, leb, leb→le}
use agentic_ai_platform.Prelude.Lists.{All, any, take}

module _ {ℓ} {A : Type ℓ} (le : A → A → Bool) where
  pub insert : A → List A → List A
  insert x [] = x ∷ []
  insert x (y ∷ ys) = let rest = insert x ys in if le x y then x ∷ y ∷ ys else y ∷ rest

  unfoldable pub sort : List A → List A
  unfolding insert
  sort [] = []
  sort (x ∷ xs) = insert x (sort xs)

  pub insert-perm : (x : A) (ys : List A) → Perm (insert x ys) (x ∷ ys)
  unfolding insert
  insert-perm x [] = Perm.rfl
  insert-perm x (y ∷ ys) = elim (Bool-cases (le x y)) [
    | inl before ↦ rw before Perm.rfl
    | inr after ↦ rw after (Perm.trans (Perm.cons y (insert-perm x ys)) (Perm.swap x y ys))
  ]

  pub sort-perm : (xs : List A) → Perm (sort xs) xs
  unfolding sort
  sort-perm [] = Perm.rfl
  sort-perm (x ∷ xs) = Perm.trans (insert-perm x (sort xs)) (Perm.cons x (sort-perm xs))

  pub All-insert {κ} : (P : A → Type κ) (x : A) (ys : List A) → P x → All P ys → All P (insert x ys)
  unfolding insert
  All-insert P x [] px ps = (px, tt)
  All-insert P x (y ∷ ys) px ps = elim (Bool-cases (le x y)) [
    | inl before ↦ rw before (px, ps)
    | inr after ↦ rw after (ps.0, All-insert P x ys px ps.1)
  ]

  pub All-sort {κ} : (P : A → Type κ) (xs : List A) → All P xs → All P (sort xs)
  unfolding sort
  All-sort P [] ps = tt
  All-sort P (x ∷ xs) ps = All-insert P x (sort xs) ps.0 (All-sort P xs ps.1)

  any-insert : (p : A → Bool) (x : A) (ys : List A) → any p (insert x ys) ≡ (p x || any p ys)
  unfolding insert
  any-insert p x [] = refl
  any-insert p x (y ∷ ys) = ground (arith, any-insert p x ys)

  -- Sorting keeps what the list holds.
  pub any-sort : (p : A → Bool) (xs : List A) → any p (sort xs) ≡ any p xs
  unfolding sort
  any-sort p [] = refl
  any-sort p (x ∷ xs) = ground (arith, any-insert p x (sort xs), any-sort p xs)

-- Each element's key is at most the keys behind it.
abbrev pub IsSorted : {A : Type 0} → (A → ℕ) → List A → Type 0
IsSorted key [] = Unit
IsSorted key (x ∷ xs) = All (λ y. key x ≤ key y) xs × IsSorted key xs

All-weaken :
    {A : Type 0} (key : A → ℕ) (n m : ℕ) (xs : List A)
    → n ≤ m
    → All (λ y. m ≤ key y) xs
    → All (λ y. n ≤ key y) xs
All-weaken key n m [] h ps = tt
All-weaken key n m (x ∷ xs) h ps = (omega arith, All-weaken key n m xs h ps.1)

module _ {A : Type 0} (key : A → ℕ) where
  abbrev by_key : A → A → Bool
  by_key a b = leb (key a) (key b)

  insert-IsSorted : (x : A) (ys : List A) → IsSorted key ys → IsSorted key (insert by_key x ys)
  unfolding insert
  insert-IsSorted x [] s = (tt, tt)
  insert-IsSorted x (y ∷ ys) s = elim (Bool-cases (by_key x y)) [
    | inl before ↦
        rw before
          ((leb→le _ _ before, All-weaken key (key x) (key y) ys (leb→le _ _ before) s.0), s)
    | inr after ↦
        rw after
          (All-insert by_key (λ z. key y ≤ key z) x ys (ground arith) s.0, insert-IsSorted x ys s.1)
  ]

  pub sort-IsSorted : (xs : List A) → IsSorted key (sort by_key xs)
  unfolding sort
  sort-IsSorted [] = tt
  sort-IsSorted (x ∷ xs) = insert-IsSorted x (sort by_key xs) (sort-IsSorted xs)

-- Each element's key is at least the keys behind it.
abbrev pub IsRanked : {A : Type 0} → (A → ℕ) → List A → Type 0
IsRanked key [] = Unit
IsRanked key (x ∷ xs) = All (λ y. key y ≤ key x) xs × IsRanked key xs

All-lower :
    {A : Type 0} (key : A → ℕ) (n m : ℕ) (xs : List A)
    → m ≤ n
    → All (λ y. key y ≤ m) xs
    → All (λ y. key y ≤ n) xs
All-lower key n m [] h ps = tt
All-lower key n m (x ∷ xs) h ps = (omega arith, All-lower key n m xs h ps.1)

pub All-take : {A : Type 0} (P : A → Type 0) (n : ℕ) (xs : List A) → All P xs → All P (take n xs)
All-take P zero xs ps = tt
All-take P (suc n) [] ps = tt
All-take P (suc n) (x ∷ xs) ps = (ps.0, All-take P n xs ps.1)

module _ {A : Type 0} (key : A → ℕ) where
  abbrev by_rank : A → A → Bool
  by_rank a b = leb (key b) (key a)

  insert-IsRanked : (x : A) (ys : List A) → IsRanked key ys → IsRanked key (insert by_rank x ys)
  unfolding insert
  insert-IsRanked x [] s = (tt, tt)
  insert-IsRanked x (y ∷ ys) s = elim (Bool-cases (by_rank x y)) [
    | inl before ↦
        rw before ((leb→le _ _ before, All-lower key (key x) (key y) ys (leb→le _ _ before) s.0), s)
    | inr after ↦
        rw after (
          All-insert by_rank (λ z. key z ≤ key y) x ys (ground arith) s.0,
          insert-IsRanked x ys s.1,
        )
  ]

  pub sort-IsRanked : (xs : List A) → IsRanked key (sort by_rank xs)
  unfolding sort
  sort-IsRanked [] = tt
  sort-IsRanked (x ∷ xs) = insert-IsRanked x (sort by_rank xs) (sort-IsRanked xs)

  pub take-IsRanked : (n : ℕ) (xs : List A) → IsRanked key xs → IsRanked key (take n xs)
  take-IsRanked zero xs s = tt
  take-IsRanked (suc n) [] s = tt
  take-IsRanked (suc n) (x ∷ xs) s =
      (All-take (λ y. key y ≤ key x) n xs s.0, take-IsRanked n xs s.1)
