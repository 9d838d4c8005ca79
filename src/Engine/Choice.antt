-- ===== src/Engine/Choice.antt =====
-- The step that the loop runs next.
use agentic_ai_platform.Prelude.{
  ℕ, ◌≡◌, refl, sym, subst, ◌∙◌, ap, Bool, true, false, ◌&&◌, Option, none, some, List, [], ◌∷◌,
  ◌++◌, All, any, ◌⊎◌, all, ◌==◌, nat_eq, nat_beq_iff, Bool-cases, Option-cases, inl, inr, arith,
}
use mathlib.Core.List.{Memᴰ}
use agentic_ai_platform.Prelude.Dict.{Dict, lookup, put, lookup-put}
use agentic_ai_platform.Schemas.{Step, StepSpec, ExecutionPlan}
use agentic_ai_platform.Exec.{if_some}
use agentic_ai_platform.Engine.Ready.{
  pending, succeeded, by_id, by_key, in_order, steps_in_plan_order, is_ready, next_pending_ready,
}

-- No two steps have the same number under `key`.
abbrev pub DistinctBy : (Step → ℕ) → List Step → Type 0
DistinctBy key [] = Unit
DistinctBy key (s ∷ steps) = (any (λ x. key x == key s) steps ≡ false) × DistinctBy key steps

-- The dictionary of steps under `key` that both helpers build.
index : (Step → ℕ) → List Step → Dict Step → Dict Step
index key [] d = d
index key (s ∷ steps) d = index key steps (put (key s) s d)

by_id-index : (steps : List Step) (d : Dict Step) → by_id steps d ≡ index (λ s. s.step_id) steps d
unfolding by_id index
by_id-index [] d = refl
by_id-index (s ∷ steps) d = by_id-index steps (put s.step_id s d)

by_key-index :
    (steps : List Step) (d : Dict Step)
    → by_key steps d ≡ index (λ s. s.input.planner_step_key) steps d
unfolding by_key index
by_key-index [] d = refl
by_key-index (s ∷ steps) d = by_key-index steps (put s.input.planner_step_key s d)

index_absent :
    (key : Step → ℕ) (k : ℕ) (steps : List Step) (d : Dict Step)
    → any (λ x. key x == k) steps ≡ false
    → lookup k (index key steps d) ≡ lookup k d
unfolding index
index_absent key k [] d h = refl
index_absent key k (s ∷ steps) d h =
    ground (arith, h, index_absent key k steps (put (key s) s d), lookup-put (key s) k s d)

any_both :
    (key : Step → ℕ) (p : Step → Bool) (k : ℕ) (steps : List Step)
    → any (λ x. key x == k) steps ≡ false
    → any (λ x. key x == k && p x) steps ≡ false
any_both key p k [] h = refl
any_both key p k (s ∷ steps) h = ground (arith, h, any_both key p k steps)

-- What is under a number passes a test exactly where some step with the number does.
index-any :
    (key : Step → ℕ) (p : Step → Bool) (k : ℕ) (steps : List Step) (d : Dict Step)
    → DistinctBy key steps
    → lookup k d ≡ none
    → if_some (lookup k (index key steps d)) false p ≡ any (λ x. key x == k && p x) steps
unfolding index if_some
index-any key p k [] d u h = rw h refl
index-any key p k (s ∷ steps) d u h = elim (Bool-cases (key s == k)) [
  | inl same ↦
      let fresh : any (λ x. key x == k) steps ≡ false =
        subst (λ n. any (λ x. key x == n) steps ≡ false) ((nat_beq_iff (key s) k).0 same) u.0 in
      let put_there : lookup k (put (key s) s d) ≡ some s =
        ground (arith, same, lookup-put (key s) k s d) in
      let found : lookup k (index key steps (put (key s) s d)) ≡ some s =
        index_absent key k steps (put (key s) s d) fresh ∙ put_there in
      rw (found, same, any_both key p k steps fresh) (ground arith)
  | inr other ↦
      let absent : lookup k (put (key s) s d) ≡ none =
        ground (arith, other, h, lookup-put (key s) k s d) in
      index-any key p k steps (put (key s) s d) u.1 absent ∙ rw other refl
]

-- A step that is found under a number was put in, and has this number.
index_sound :
    (key : Step → ℕ) (k : ℕ) (s : Step) (steps : List Step) (d : Dict Step)
    → lookup k (index key steps d) ≡ some s
    → (lookup k d ≡ some s) ⊎ (Memᴰ s steps × (key s ≡ k))
unfolding index
index_sound key k s [] d h = inl h
index_sound key k s (x ∷ steps) d h = elim (index_sound key k s steps (put (key x) x d) h) [
  | inr (there, named) ↦ inr (Memᴰ.tail there, named)
  | inl found ↦ elim (Bool-cases (key x == k)) [
    | inl same ↦
        let it : x ≡ s = ground (arith, found, same, lookup-put (key x) k x d) in
        inr (Memᴰ.head (sym it), ap key (sym it) ∙ (nat_beq_iff (key x) k).0 same)
    | inr other ↦ inl (ground (arith, found, other, lookup-put (key x) k x d))
  ]
]

-- Every dependency of a step is the number of a step that succeeded.
abbrev pub satisfied : List Step → Step → Bool
satisfied steps s = all (λ dep. any (λ x. x.step_id == dep && succeeded x) steps) s.dependencies

-- A pending step with no dependency open.
abbrev pub may_run : List Step → Step → Bool
may_run steps s = pending s && satisfied steps s

all-same : (p q : ℕ → Bool) (ks : List ℕ) → ((k : ℕ) → p k ≡ q k) → all p ks ≡ all q ks
all-same p q [] h = refl
all-same p q (k ∷ ks) h = rw (h k, all-same p q ks h) refl

is_ready-satisfied :
    (steps : List Step) (s : Step)
    → DistinctBy (λ x. x.step_id) steps
    → is_ready s steps ≡ satisfied steps s
unfolding is_ready lookup
is_ready-satisfied steps s u =
    all-same _ _ s.dependencies
      λ dep. rw (by_id-index steps []) (index-any (λ x. x.step_id) succeeded dep steps [] u refl)

-- A step that may run stands for this entry of the plan.
abbrev pub entry_runs : List Step → StepSpec → Bool
entry_runs steps spec =
    any (λ x. x.input.planner_step_key == spec.step_key && may_run steps x) steps

-- What a choice among the entries of a plan means: no entry has a step that may run; or the chosen
-- step is stored, is that of an entry, and may run, and no entry before it has one that may.
pub data Chosen (steps : List Step) : List StepSpec → Option Step → Type 0 where
  nothing :
      {specs : List StepSpec}
      → All (λ spec. entry_runs steps spec ≡ false) specs
      → Chosen steps specs none
  earliest :
      (before after : List StepSpec) (spec : StepSpec) (s : Step)
      → All (λ x. entry_runs steps x ≡ false) before
      → Memᴰ s steps
      → s.input.planner_step_key ≡ spec.step_key
      → may_run steps s ≡ true
      → Chosen steps (before ++ spec ∷ after) (some s)

Chosen-skip :
    (steps : List Step) (specs : List StepSpec) (spec : StepSpec) (o : Option Step)
    → entry_runs steps spec ≡ false
    → Chosen steps specs o
    → Chosen steps (spec ∷ specs) o
Chosen-skip steps specs spec none h (nothing none_runs) = nothing (h, none_runs)
Chosen-skip steps _ spec _ h (earliest before after x s none_runs there named runs) =
    earliest (spec ∷ before) after x s (h, none_runs) there named runs

module _ (steps : List Step) (ids : DistinctBy (λ x. x.step_id) steps)
    (keys : DistinctBy (λ x. x.input.planner_step_key) steps) where
  abbrev stored : Dict Step
  stored = index (λ s. s.input.planner_step_key) steps []

  entry_found :
      (spec : StepSpec)
      → if_some (lookup spec.step_key stored) false (may_run steps) ≡ entry_runs steps spec
  unfolding lookup
  entry_found spec =
      index-any (λ x. x.input.planner_step_key) (may_run steps) spec.step_key steps [] keys refl

  stored_sound :
      (k : ℕ) (s : Step) → lookup k stored ≡ some s → Memᴰ s steps × (s.input.planner_step_key ≡ k)
  unfolding lookup
  stored_sound k s h = elim (index_sound (λ x. x.input.planner_step_key) k s steps [] h) [
    | inl impossible ↦ absurd cc
    | inr there ↦ there
  ]

  in_order-Chosen :
      (specs : List StepSpec)
      → Chosen steps specs (next_pending_ready (in_order stored specs) steps)
  unfolding in_order next_pending_ready if_some
  in_order-Chosen [] = nothing tt
  in_order-Chosen (spec ∷ specs) = elim (Option-cases (lookup spec.step_key stored)) [
    | inl missing ↦ rw missing (
        Chosen-skip steps specs spec _ (sym (entry_found spec) ∙ rw missing refl)
          (in_order-Chosen specs))
    | inr (s, found) ↦ elim (Bool-cases (may_run steps s)) [
      | inl runs ↦
          let (there, named) = stored_sound spec.step_key s found in
          rw (found, is_ready-satisfied steps s ids, runs)
            (earliest [] specs spec s tt there named runs)
      | inr waits ↦
          rw (found, is_ready-satisfied steps s ids, waits)
            (Chosen-skip steps specs spec _ (sym (entry_found spec) ∙ rw (found, waits) refl)
              (in_order-Chosen specs))
    ]
  ]

-- Of the steps that are stored, `_next_pending_ready` over `_steps_in_plan_order` gives the step of
-- the first entry of the plan whose step is pending with every dependency the number of a step that
-- succeeded, and nothing exactly where there is no such entry. No two steps may have one identifier
-- or one key.
pub next_pending_ready-Chosen :
    (steps : List Step) (plan : ExecutionPlan)
    → DistinctBy (λ x. x.step_id) steps
    → DistinctBy (λ x. x.input.planner_step_key) steps
    → Chosen steps plan.steps (next_pending_ready (steps_in_plan_order steps plan) steps)
unfolding steps_in_plan_order
next_pending_ready-Chosen steps plan ids keys =
    rw (by_key-index steps []) (in_order-Chosen steps ids keys plan.steps)
