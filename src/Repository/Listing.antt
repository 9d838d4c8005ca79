-- ===== src/Repository/Listing.antt =====
-- What the listing methods return.
use mathlib.Core.List.{Perm}
use agentic_ai_platform.Prelude.{
  ℕ, ◌≤◌, ◌≡◌, Option, String, List, arith, ◌==◌, nat_eq, nat_beq_iff, length, length-take, keep,
  All, All-keep,
}
use agentic_ai_platform.Prelude.Dict.{values}
use agentic_ai_platform.Prelude.Order.{sort-perm, All-sort, sort-IsSorted, IsSorted}
use agentic_ai_platform.Schemas.{Step}
use agentic_ai_platform.Repository.{Repository, list_steps_for_execution, list_executions}

-- The steps listed for an execution are the stored steps of that execution, each as often as it is
-- stored, in the order of their creation times.
pub list_steps_for_execution_lem :
    (k : ℕ) (r : Repository)
    → Perm (list_steps_for_execution k r) (keep (λ s. s.execution_id == k) (values r.steps))
      × All (λ s. s.execution_id ≡ k) (list_steps_for_execution k r)
      × IsSorted (λ s. s.created_at) (list_steps_for_execution k r)
unfolding list_steps_for_execution
list_steps_for_execution_lem k r = (
  sort-perm _ stored,
  All-sort _ _ stored (
      All-keep (λ s. s.execution_id == k) (values r.steps) (λ s. (nat_beq_iff s.execution_id k).0)),
  sort-IsSorted (λ s. s.created_at) stored,
)
  where
    stored : List Step
    stored = keep (λ s. s.execution_id == k) (values r.steps)

-- No page has more than 500 executions, nor more than the limit asked for, or one where the limit
-- is zero.
pub length-list_executions-le :
    (tenant_id workflow_type status : Option String) (limit : ℕ) (r : Repository)
    → (length (list_executions tenant_id workflow_type status limit r) ≤ 500)
      × (1 ≤ limit → length (list_executions tenant_id workflow_type status limit r) ≤ limit)
unfolding list_executions
length-list_executions-le tenant_id workflow_type status limit r =
    (omega (arith, length-take {0}), λ h. omega (arith, length-take {0}))
