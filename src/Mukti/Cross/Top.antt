-- ===== src/Mukti/Cross/Top.antt =====
-- What `_top_failure_types` and `_recurring_patterns` list, and what they leave out.
use agentic_ai_platform.Prelude.{
  if◌then◌else◌, some, none, all, ℕ, zero, suc, ◌≤◌, ◌≡◌, refl, sym, ◌∙◌, ap, Bool, true, false,
  String, List, [], ◌∷◌, map, ◌==◌, ◌&&◌, nat_eq, nat_beq_iff, string_eq, any, take, length, All,
  arith, leb,
}
use agentic_ai_platform.Prelude.Dict.{Dict}
use agentic_ai_platform.Prelude.Order.{sort, any-sort, IsRanked, sort-IsRanked}
use agentic_ai_platform.Feedback.{ExecutionFeedback}
use agentic_ai_platform.Mukti.Cross.{
  validated, failure_insights, insight_fits, Bucket, tally, most_common, failure_insight,
  top_failure_types,
}
use agentic_ai_platform.Mukti.Cross.Tallies.{
  count_of, row_hits, tally_from_none, tally-counts, most_common_lem,
}

-- A bucket of this key with this count.
abbrev matches : String → ℕ → Bucket → Bool
matches t m b = b.key == t && b.count == m

counted-any :
    (t : String) (m : ℕ) (bs : List Bucket)
    → count_of t bs ≡ suc m
    → any (matches t (suc m)) bs ≡ true
unfolding count_of
counted-any t m [] h = ground (arith, h)
counted-any t m (b ∷ bs) h = ground (arith, h, counted-any t m bs, nat_beq_iff b.count (suc m))

-- What a listed number is at least, if it is at least those behind it and one of them matches.
behind :
    (t : String) (m k : ℕ) (xs : List Bucket)
    → All (λ y. y.count ≤ k) xs
    → any (matches t m) xs ≡ true
    → m ≤ k
behind t m k [] ps h = ground (arith, h)
behind t m k (x ∷ xs) ps h = ground (arith, h, ps.0, behind t m k xs ps.1, nat_beq_iff x.count m)

left_out :
    (t : String) (m n : ℕ) (xs : List Bucket)
    → IsRanked (λ b. b.count) xs
    → any (matches t m) xs ≡ true
    → any (λ b. b.key == t) (take n xs) ≡ false
    → All (λ b. m ≤ b.count) (take n xs)
left_out t m zero xs r h u = tt
left_out t m (suc n) [] r h u = tt
left_out t m (suc n) (x ∷ xs) r h u = (
  behind t m x.count xs r.0 (ground (arith, h, u)),
  left_out t m n xs r.1 (ground (arith, h, u)) (ground (arith, u)),
)

All-nothing : (xs : List Bucket) → All (λ b. 0 ≤ b.count) xs
All-nothing [] = tt
All-nothing (x ∷ xs) = (omega arith, All-nothing xs)

-- A key that is not among the buckets picked was hit no more often than any of them.
unlisted :
    (t : String) (m n : ℕ) (bs : List Bucket)
    → count_of t bs ≡ m
    → any (λ b. b.key == t) (most_common n bs) ≡ false
    → All (λ b. m ≤ b.count) (most_common n bs)
unfolding most_common
unlisted t zero n bs h u = All-nothing (take n _)
unlisted t (suc m) n bs h u =
    left_out t (suc m) n (sort (λ a b. leb b.count a.count) bs) (sort-IsRanked (λ b. b.count) bs)
      (any-sort _ (matches t (suc m)) bs ∙ counted-any t m bs h) u

module _ {A B : Type 0} (f : A → B) where
  All-map : (P : B → Type 0) (xs : List A) → All (λ x. P (f x)) xs → All P (map f xs)
  All-map P [] ps = tt
  All-map P (x ∷ xs) ps = (ps.0, All-map P xs ps.1)

  IsRanked-map :
      (key : B → ℕ) (xs : List A) → IsRanked (λ x. key (f x)) xs → IsRanked key (map f xs)
  IsRanked-map key [] r = tt
  IsRanked-map key (x ∷ xs) r = (All-map _ xs r.0, IsRanked-map key xs r.1)

  length-map : (xs : List A) → length (map f xs) ≡ length xs
  length-map [] = refl
  length-map (x ∷ xs) = ap suc (length-map xs)

  any-map : (p : B → Bool) (xs : List A) → any p (map f xs) ≡ any (λ x. p (f x)) xs
  any-map p [] = refl
  any-map p (x ∷ xs) = ground (arith, any-map p xs)

-- The failure types that the rows list.
abbrev pub type_hits : String → List ExecutionFeedback → ℕ
type_hits t fbs = row_hits (λ fb. fb.failure_types) t fbs

module _ (uuid5 : String → ℕ) (decimal : ℕ → String) where
  -- `_top_failure_types` gives the insights that it builds, or raises where one breaks the bounds of its
  -- schema. These are at most ten failure types, each with the number of times that the rows
  -- list it, in descending order of these numbers, and a type that is not among them is listed by the
  -- rows no more often than any that is.
  pub top_failure_types_lem :
      (fbs : List ExecutionFeedback) (wfs : Dict String)
      → let out = failure_insights uuid5 decimal fbs wfs in
        (top_failure_types uuid5 decimal fbs wfs
          ≡ (if all insight_fits out then some out else none))
        × All (λ i. i.evidence_count ≡ type_hits i.title fbs) out
        × IsRanked (λ i. i.evidence_count) out
        × (length out ≤ 10)
        × ((t : String)
            → any (λ i. i.title == t) out ≡ false
            → All (λ i. type_hits t fbs ≤ i.evidence_count) out)
  unfolding top_failure_types validated failure_insights failure_insight
  top_failure_types_lem fbs wfs =
      let bs = tally (λ fb. fb.failure_types) wfs fbs [] in
      let picked = most_common 10 bs in
      let insight = failure_insight uuid5 decimal in
      let facts =
        most_common_lem (λ b. b.count ≡ type_hits b.key fbs) 10 bs
          (tally-counts (λ fb. fb.failure_types) wfs fbs) in
      (
        refl,
        All-map insight _ picked facts.0,
        IsRanked-map insight (λ i. i.evidence_count) picked facts.1,
        omega (arith, length-map insight picked, facts.2),
        λ t new. All-map insight _ picked (
            unlisted t (type_hits t fbs) 10 bs (tally_from_none (λ fb. fb.failure_types) wfs t fbs)
              (sym (any-map insight (λ i. i.title == t) picked) ∙ new)),
      )
