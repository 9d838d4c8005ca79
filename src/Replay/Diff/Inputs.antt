-- ===== src/Replay/Diff/Inputs.antt =====
-- The comparison of the business inputs is exact.
use agentic_ai_platform.Prelude.{
  ◌≡◌, ◌↔◌, refl, sym, ◌∙◌, ap, subst, Bool, true, false, ◌||◌, Option, String, List, [], ◌∷◌, ◌++◌,
  ◌==◌, string_eq, any, arith, Bool-cases, inl, inr,
}
use agentic_ai_platform.Prelude.Text.{text_leb}
use agentic_ai_platform.Prelude.Order.{any-sort}
use agentic_ai_platform.Value.{null, Fields, end, field, get}
use agentic_ai_platform.Value.Same.{equal, value_eq, is_nan}
use agentic_ai_platform.Schemas.{Execution}
use agentic_ai_platform.Env.{Env}
use agentic_ai_platform.Replay.{ReplayProvenance, keys}
use agentic_ai_platform.Replay.Diff.Items.{unless, ReplayDiffItem}
use agentic_ai_platform.Replay.Diff.Executions.{
  business_input, all_keys, without, compare_input, input_differences, input_difference,
}

-- A text is among some texts.
abbrev holds : String → List String → Bool
holds k ks = any (λ j. j == k) ks

holds-append : (k : String) (xs ys : List String) → holds k (xs ++ ys) ≡ (holds k xs || holds k ys)
holds-append k [] ys = refl
holds-append k (x ∷ xs) ys = ground (arith, holds-append k xs ys)

holds-known :
    (k j : String) (known : List String)
    → holds j known ≡ true
    → (j == k) ≡ true
    → holds k known ≡ true
holds-known k j known h same = subst (λ x. holds x known ≡ true) ((string_eq.same_iff j k).0 same) h

-- Leaving out what is there already loses nothing.
holds-without :
    (k : String) (ks known : List String)
    → (holds k (without ks known) || holds k known) ≡ (holds k ks || holds k known)
unfolding without
holds-without k [] known = refl
holds-without k (j ∷ ks) known = elim (Bool-cases (holds j known)) [
  | inl seen ↦
      let old = holds-known k j known seen in
      rw seen (ground (arith, holds-without k ks known, old))
  | inr new ↦ rw new (ground (arith, holds-without k ks (j ∷ known)))
]

get-missing : (k : String) (d : Fields) → holds k (keys d) ≡ false → get k d ≡ null
unfolding keys get
get-missing k end h = refl
get-missing k (field j v d) h = ground (arith, get-missing k d)

holds-all_keys :
    (k : String) (a b : Fields) → holds k (all_keys a b) ≡ (holds k (keys a) || holds k (keys b))
unfolding all_keys
holds-all_keys k a b =
    let sorted = any-sort text_leb (λ j. j == k) (without (keys a ++ keys b) []) in
    let whole = holds-without k (keys a ++ keys b) [] in
    let parts = holds-append k (keys a) (keys b) in ground (arith, sorted, whole, parts)

module _ (env : Env) (a b : Fields) (prov : Option ReplayProvenance) where
  none_listed :
      (ks : List String)
      → ((k : String) → equal (get k a) (get k b) ≡ true)
      → input_differences env a b prov ks ≡ []
  unfolding input_differences input_difference
  none_listed [] h = refl
  none_listed (k ∷ ks) h = rw (h k, none_listed ks h) refl

  unless-none :
      (same : Bool) (i : ReplayDiffItem) (rest : List ReplayDiffItem)
      → (unless same i ++ rest) ≡ []
      → (same ≡ true) × (rest ≡ [])
  unless-none true i rest h = (refl, h)
  unless-none false i rest h = absurd cc

  listed :
      (k : String) (ks : List String)
      → input_differences env a b prov ks ≡ []
      → holds k ks ≡ true
      → equal (get k a) (get k b) ≡ true
  unfolding input_differences input_difference
  listed k [] h there = absurd (ground (arith, there))
  listed k (j ∷ ks) h there =
      let (same, rest) = unless-none (equal (get j a) (get j b)) _ _ h in
      elim (Bool-cases (j == k)) [
        | inl here ↦
            subst (λ x. equal (get x a) (get x b) ≡ true) ((string_eq.same_iff j k).0 here) same
        | inr later ↦ listed k ks rest (sym (ap (λ x. x || holds k ks) later) ∙ there)
      ]

  -- A key of neither reads as `None` on both sides.
  unlisted : (k : String) → holds k (all_keys a b) ≡ false → equal (get k a) (get k b) ≡ true
  unfolding equal value_eq is_nan
  unlisted k h =
      let split = holds-all_keys k a b in
      rw (get-missing k a (ground (arith, split, h)), get-missing k b (ground (arith, split, h)))
        refl

-- `_compare_input` reports no difference exactly where every key reads as equal in the two business
-- inputs, a missing key being read as `None`.
pub compare_input_lem :
    (env : Env) (source replay : Execution) (prov : Option ReplayProvenance)
    → (compare_input env source replay prov ≡ []) ↔ (
        (k : String) → equal (get k (business_input source)) (get k (business_input replay)) ≡ true)
unfolding compare_input
compare_input_lem env source replay prov =
    let a = business_input source in
    let b = business_input replay in
    (
      λ h k. elim (Bool-cases (holds k (all_keys a b))) [
        | inl there ↦ listed env a b prov k (all_keys a b) h there
        | inr missing ↦ unlisted env a b prov k missing
      ],
      none_listed env a b prov (all_keys a b),
    )
