-- ===== src/Planner/Chain.antt =====
-- Every plan is a chain.
use agentic_ai_platform.Prelude.{
  ℕ, ◌≡◌, refl, ◌<◌, ◌≤◌, List, [], ◌∷◌, map, arith, ◌==◌, string_eq, All, Bool-cases, inl, inr,
  true, false,
}
use agentic_ai_platform.Schemas.{Execution, ExecutionPlan, StepSpec, Edge}
use agentic_ai_platform.Exec.{World, Result, ok, err}
use agentic_ai_platform.Planner.{create_plan, plan_for}

-- An edge from each key to the next.
abbrev pub consecutive : List ℕ → List Edge
consecutive [] = []
consecutive (a ∷ []) = []
consecutive (a ∷ b ∷ rest) = record { from_step = a; to_step = b } ∷ consecutive (b ∷ rest)

abbrev pub Increasing : List ℕ → Type 0
Increasing [] = Unit
Increasing (a ∷ rest) = All (λ b. a < b) rest × Increasing rest

-- Only the last step is of kind "validation".
abbrev pub ValidationLast : List StepSpec → Type 0
ValidationLast [] = ⊥
ValidationLast (s ∷ []) = (s.kind == "validation") ≡ true
ValidationLast (s ∷ t ∷ rest) = ((s.kind == "validation") ≡ false) × ValidationLast (t ∷ rest)

abbrev pub step_keys : ExecutionPlan → List ℕ
step_keys plan = map (λ s. s.step_key) plan.steps

-- A plan is a chain of steps with fresh keys, in which the last step alone validates.
pub record IsChain (w : World) (plan : ExecutionPlan) : Type 0 where
  pub edges : plan.dependencies ≡ consecutive (step_keys plan)
  pub order : plan.ordering ≡ step_keys plan ∷ []
  pub fresh : All (λ k. w.next_uuid ≤ k) (step_keys plan)
  pub distinct : Increasing (step_keys plan)
  pub validated : ValidationLast plan.steps

-- The action returned, with a value and a world that `P` holds of.
abbrev pub Gives : {A : Type 0} → (A → World → Type 0) → Result A × World → Type 0
Gives P (ok a, w) = P a w
Gives P (err _, _) = ⊥

-- Whatever the workflow, `create_plan` returns: the plan belongs to the execution and is a chain with
-- fresh keys, and the repository is as before.
pub create_plan-IsChain :
    (e : Execution) (ts : ℕ) (w : World)
    → Gives
        (λ plan after.
          IsChain w plan × (plan.execution_id ≡ e.execution_id) × (after.repo ≡ w.repo))
        (create_plan e ts w)
unfolding create_plan plan_for
create_plan-IsChain e ts w = elim (Bool-cases (e.workflow_type == "incident_triage")) [
  | inl incident ↦ rw incident (
    record {
      edges = refl;
      order = refl;
      fresh = omega arith;
      distinct = omega arith;
      validated = (refl, (refl, refl));
    },
    refl,
    refl,
  )
  | inr not_incident ↦ elim (Bool-cases (e.workflow_type == "cost_attribution")) [
    | inl cost ↦
        rw (not_incident, cost)
          (
            record {
              edges = refl;
              order = refl;
              fresh = omega arith;
              distinct = omega arith;
              validated = (refl, (refl, (refl, refl)));
            },
            refl,
            refl,
          )
    | inr neither ↦
        rw (not_incident, neither)
          (
            record {
              edges = refl;
              order = refl;
              fresh = omega arith;
              distinct = omega arith;
              validated = (refl, refl);
            },
            refl,
            refl,
          )
  ]
]
