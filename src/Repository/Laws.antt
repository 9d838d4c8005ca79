-- ===== src/Repository/Laws.antt =====
-- Reading a row back after a write.
use agentic_ai_platform.Prelude.{ℕ, ◌≡◌, refl, none, some, arith, ◌==◌, nat_eq, if◌then◌else◌}
use agentic_ai_platform.Prelude.Dict.{put, lookup-put}
use agentic_ai_platform.Schemas.{Execution}
use agentic_ai_platform.Repository.{Repository, get_execution, update_execution}

-- `update_execution` raises where the execution was never saved.
pub update_execution_missing :
    (e : Execution) (r : Repository)
    → get_execution e.execution_id r ≡ none
    → update_execution e r ≡ none
unfolding get_execution update_execution
update_execution_missing e r h = ground arith

-- What an update of a row that is there leaves: the new row under its key, every other execution
-- as before, and the steps untouched.
pub record Updated (e : Execution) (r r' : Repository) : Type 0 where
  pub ran : update_execution e r ≡ some r'
  pub reads :
      (k : ℕ) → get_execution k r' ≡ (if e.execution_id == k then some e else get_execution k r)
  pub steps : r'.steps ≡ r.steps

-- An update of an execution that is there succeeds: the new row reads back under its identifier,
-- every other execution reads as before, and the steps are untouched.
pub update_execution_present :
    (e old : Execution) (r : Repository)
    → get_execution e.execution_id r ≡ some old
    → (r' : Repository) × Updated e r r'
unfolding get_execution update_execution
update_execution_present e old r h = (
  record r { executions = put e.execution_id e r.executions },
  record {
    ran = ground arith;
    reads = λ k. lookup-put e.execution_id k e r.executions;
    steps = refl;
  },
)
