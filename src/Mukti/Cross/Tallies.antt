-- ===== src/Mukti/Cross/Tallies.antt =====
-- What the buckets of the analysis across executions count.
use agentic_ai_platform.Prelude.{
  ℕ, ◌+◌, ◌≤◌, ◌≡◌, refl, ◌∙◌, Bool, false, Bool-cases, inl, inr, Option, String, List, [], ◌∷◌,
  ◌==◌, string_eq, any, length, length-take, All, if◌then◌else◌, arith, leb,
}
use text.Mathlib.TextEquality.{eq_iff}
use agentic_ai_platform.Prelude.Dict.{Dict, lookup}
use agentic_ai_platform.Prelude.Order.{
  sort, All-sort, All-take, IsRanked, sort-IsRanked, take-IsRanked,
}
use agentic_ai_platform.Feedback.{ExecutionFeedback}
use agentic_ai_platform.Mukti.Cross.{Bucket, record_hit, record_hits, tally, most_common}

-- xs.count(t)
abbrev pub occurrences : String → List String → ℕ
occurrences t [] = 0
occurrences t (x ∷ xs) = (if x == t then 1 else 0) + occurrences t xs

-- How often the rows hit a key.
abbrev pub row_hits : (ExecutionFeedback → List String) → String → List ExecutionFeedback → ℕ
row_hits keys_of t [] = 0
row_hits keys_of t (fb ∷ fbs) = occurrences t (keys_of fb) + row_hits keys_of t fbs

-- The tally that is held under a key.
unfoldable pub count_of : String → List Bucket → ℕ
count_of t [] = 0
count_of t (b ∷ bs) = let rest = count_of t bs in if b.key == t then b.count else rest

record_hit-count :
    (t k : String) (id : ℕ) (wf : Option String) (bs : List Bucket)
    → count_of t (record_hit k id wf bs) ≡ (if k == t then 1 else 0) + count_of t bs
unfolding count_of record_hit
record_hit-count t k id wf [] = ground (arith, eq_iff k t)
record_hit-count t k id wf (b ∷ bs) =
    ground (arith, eq_iff k t, eq_iff b.key k, eq_iff b.key t, record_hit-count t k id wf bs)

record_hits-count :
    (t : String) (ks : List String) (id : ℕ) (wf : Option String) (bs : List Bucket)
    → count_of t (record_hits ks id wf bs) ≡ occurrences t ks + count_of t bs
unfolding record_hits
record_hits-count t [] id wf bs = omega arith
record_hits-count t (k ∷ ks) id wf bs =
    omega
      (arith, record_hits-count t ks id wf (record_hit k id wf bs), record_hit-count t k id wf bs)

tally-count :
    (keys_of : ExecutionFeedback → List String) (wfs : Dict String) (t : String)
    (fbs : List ExecutionFeedback) (bs : List Bucket)
    → count_of t (tally keys_of wfs fbs bs) ≡ row_hits keys_of t fbs + count_of t bs
unfolding tally
tally-count keys_of wfs t [] bs = omega arith
tally-count keys_of wfs t (fb ∷ fbs) bs =
    let wf = lookup fb.execution_id wfs in
    omega (
      arith,
      tally-count keys_of wfs t fbs (record_hits (keys_of fb) fb.execution_id wf bs),
      record_hits-count t (keys_of fb) fb.execution_id wf bs,
    )

-- Each bucket is the first of its key.
holds_key : String → List Bucket → Bool
holds_key t bs = any (λ b. b.key == t) bs

abbrev Keyed : List Bucket → Type 0
Keyed [] = Unit
Keyed (b ∷ bs) = (holds_key b.key bs ≡ false) × Keyed bs

holds_key-record_hit :
    (t k : String) (id : ℕ) (wf : Option String) (bs : List Bucket)
    → (k == t) ≡ false
    → holds_key t (record_hit k id wf bs) ≡ holds_key t bs
unfolding holds_key record_hit
holds_key-record_hit t k id wf [] h = ground (arith, h)
holds_key-record_hit t k id wf (b ∷ bs) h = ground (arith, h, holds_key-record_hit t k id wf bs)

record_hit-Keyed :
    (k : String) (id : ℕ) (wf : Option String) (bs : List Bucket)
    → Keyed bs
    → Keyed (record_hit k id wf bs)
unfolding record_hit holds_key
record_hit-Keyed k id wf [] u = (refl, tt)
record_hit-Keyed k id wf (b ∷ bs) u = elim (Bool-cases (b.key == k)) [
  | inl same ↦ rw same u
  | inr other ↦ rw other (
    holds_key-record_hit b.key k id wf bs (ground (arith, other, eq_iff b.key k, eq_iff k b.key))
        ∙ u.0,
    record_hit-Keyed k id wf bs u.1,
  )
]

record_hits-Keyed :
    (ks : List String) (id : ℕ) (wf : Option String) (bs : List Bucket)
    → Keyed bs
    → Keyed (record_hits ks id wf bs)
unfolding record_hits
record_hits-Keyed [] id wf bs u = u
record_hits-Keyed (k ∷ ks) id wf bs u =
    record_hits-Keyed ks id wf (record_hit k id wf bs) (record_hit-Keyed k id wf bs u)

tally-Keyed :
    (keys_of : ExecutionFeedback → List String) (wfs : Dict String) (fbs : List ExecutionFeedback)
    (bs : List Bucket)
    → Keyed bs
    → Keyed (tally keys_of wfs fbs bs)
unfolding tally
tally-Keyed keys_of wfs [] bs u = u
tally-Keyed keys_of wfs (fb ∷ fbs) bs u =
    tally-Keyed keys_of wfs fbs _
      (record_hits-Keyed (keys_of fb) fb.execution_id (lookup fb.execution_id wfs) bs u)

counted_behind :
    (b : Bucket) (whole bs : List Bucket)
    → holds_key b.key bs ≡ false
    → All (λ x. x.count ≡ count_of x.key whole) bs
    → All (λ x. x.count ≡ count_of x.key (b ∷ whole)) bs
unfolding holds_key count_of
counted_behind b whole [] h ps = tt
counted_behind b whole (x ∷ xs) h ps = (
  ground (arith, h, ps.0, eq_iff x.key b.key, eq_iff b.key x.key),
  counted_behind b whole xs (ground (arith, h)) ps.1,
)

Keyed-counts : (bs : List Bucket) → Keyed bs → All (λ x. x.count ≡ count_of x.key bs) bs
unfolding count_of
Keyed-counts [] u = tt
Keyed-counts (b ∷ bs) u =
    (ground (arith, eq_iff b.key b.key), counted_behind b bs bs u.0 (Keyed-counts bs u.1))

All-imply :
    {A : Type 0} {P Q : A → Type 0} → ((a : A) → P a → Q a) → (xs : List A) → All P xs → All Q xs
All-imply h [] ps = tt
All-imply h (x ∷ xs) ps = (h x ps.0, All-imply h xs ps.1)

pub tally_from_none :
    (keys_of : ExecutionFeedback → List String) (wfs : Dict String) (t : String)
    (fbs : List ExecutionFeedback)
    → count_of t (tally keys_of wfs fbs []) ≡ row_hits keys_of t fbs
unfolding count_of
tally_from_none keys_of wfs t fbs = omega (arith, tally-count keys_of wfs t fbs [])

-- Each bucket of a tally has the number of hits of its key.
pub tally-counts :
    (keys_of : ExecutionFeedback → List String) (wfs : Dict String) (fbs : List ExecutionFeedback)
    → All (λ b. b.count ≡ row_hits keys_of b.key fbs) (tally keys_of wfs fbs [])
tally-counts keys_of wfs fbs =
    All-imply (λ b h. h ∙ tally_from_none keys_of wfs b.key fbs) (tally keys_of wfs fbs [])
      (Keyed-counts (tally keys_of wfs fbs []) (tally-Keyed keys_of wfs fbs [] tt))

-- The same of what `most_common` picks, with its order and its bound.
pub most_common_lem :
    (P : Bucket → Type 0) (n : ℕ) (bs : List Bucket)
    → All P bs
    → All P (most_common n bs)
      × IsRanked (λ b. b.count) (most_common n bs)
      × (length (most_common n bs) ≤ n)
unfolding most_common
most_common_lem P n bs ps =
    let ranked = sort (λ a b. leb b.count a.count) bs in
    (
      All-take P n ranked (All-sort _ P bs ps),
      take-IsRanked (λ b. b.count) n ranked (sort-IsRanked (λ b. b.count) bs),
      omega (arith, length-take n ranked),
    )
