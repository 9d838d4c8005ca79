-- ===== src/Service/Creating.antt =====
-- A new execution gets an identifier that no execution has.
use agentic_ai_platform.Prelude.{
  ℕ, suc, ◌≡◌, refl, ap, Option, none, some, ◌==◌, nat_eq, nat_beq_iff, inl, inr, Option-cases,
  arith,
}
use agentic_ai_platform.Prelude.Dict.{lookup, lookup-put, lookup-put_self}
use agentic_ai_platform.Schemas.{Execution, ExecutionStatus}
use agentic_ai_platform.Repository
use agentic_ai_platform.Exec.{World, ok, uuid4, saves, pure, ◌>>=◌}
use agentic_ai_platform.Engine.Quiet.{IsWellFormed, status_of, status_in}
use agentic_ai_platform.Engine.Steers.{Advanced, Follows, absent, Follows-if}
use agentic_ai_platform.Service.{Creation, new_execution, create_execution}

Follows-absent : (o t : Option ExecutionStatus) → o ≡ none → Follows o t
Follows-absent none t h = absent
Follows-absent (some s) t h = absurd cc

module _ (w : World) (formed : IsWellFormed w) where
  pub unused : (k : ℕ) → suc w.next_uuid ≡ k → lookup k w.executions ≡ none
  unused k h = elim (Option-cases (lookup k w.executions)) [
    | inl free ↦ free
    | inr (e, taken) ↦ let below = formed.given k e taken in absurd (omega (arith, below, h))
  ]

  -- In a well-formed store `create_execution` returns a new execution, created and stored under its
  -- identifier; the store stays well formed and no execution that was there is overwritten.
  pub create_execution_lifecycle :
      (c : Creation) (ts : ℕ)
      → (e : Execution) × ((create_execution c ts w).0 ≡ ok e)
        × (e.status ≡ ExecutionStatus.created)
        × (lookup e.execution_id w.executions ≡ none)
        × (lookup e.execution_id (create_execution c ts w).1.executions ≡ some e)
        × Advanced w (create_execution c ts w).1
  unfolding create_execution new_execution uuid4 saves pure ◌>>=◌ Repository.save_context
      Repository.save_execution status_of
  create_execution_lifecycle c ts =
      let e = new_execution c w.next_uuid (suc w.next_uuid) ts in
      let split = λ (k : ℕ). lookup-put (suc w.next_uuid) k e w.executions in
      (
        e,
        refl,
        refl,
        unused (suc w.next_uuid) refl,
        lookup-put_self (suc w.next_uuid) e w.executions,
        record {
          formed = record {
            keyed =
                λ k x h. let s = split k in let old = formed.keyed k x in ground (arith, s, old, h);
            given =
                λ k x h. let s = split k in let old = formed.given k x in ground (arith, s, old, h);
          };
          follows = λ k. rw (split k) (
              Follows-if (suc w.next_uuid == k) e (lookup k w.executions) λ same.
                Follows-absent _ _
                  (ap status_in (unused k ((nat_beq_iff (suc w.next_uuid) k).0 same))));
        },
      )
