-- ===== src/Replay/Child.antt =====
-- The child of a replay: where it is stored, and that nothing else is overwritten.
use agentic_ai_platform.Prelude.{ℕ, suc, ◌≡◌, ◌≢◌, refl, ap, some, nat_eq, arith}
use agentic_ai_platform.Prelude.Dict.{lookup, lookup-put, lookup-put_self}
use agentic_ai_platform.Schemas.{Execution}
use agentic_ai_platform.StateMachine.Lifecycle.{here}
use agentic_ai_platform.Repository
use agentic_ai_platform.Exec.{World, ok, pure, uuid4, saves, ◌>>=◌}
use agentic_ai_platform.Env.{Env}
use agentic_ai_platform.Engine.Ready.{append_timeline}
use agentic_ai_platform.Engine.Quiet.{status_of, status_in, with_execution, update_execution-runs}
use agentic_ai_platform.Engine.Steers.{Advances, Advances-IsPreorder, Advances-with}
use agentic_ai_platform.Service.{new_execution, create_execution}
use agentic_ai_platform.Service.Creating.{create_execution_lifecycle}
use agentic_ai_platform.Replay.{
  ReplayRequest, ReplayProvenance, Admitted, replay_creation, provenance_of,
  append_replay_created_event, child_of, produce,
}

module _ (env : Env) (q : ReplayRequest) (ts : ℕ) (a : Admitted) (w : World) where
  -- The row that `create_execution` stores, and the one that takes its place.
  abbrev pub first_row : Execution
  first_row = new_execution (replay_creation env q a) w.next_uuid (suc w.next_uuid) ts

  abbrev pub provenance : ReplayProvenance
  provenance = provenance_of q a (suc w.next_uuid) ts

  abbrev pub stored_row : Execution
  stored_row = child_of first_row a.input provenance ts

  abbrev pub after_create : World
  after_create = (create_execution (replay_creation env q a) ts w).1

  abbrev pub after_produce : World
  after_produce = with_execution stored_row after_create

  create_execution-first_row :
      create_execution (replay_creation env q a) ts w ≡ (ok first_row, after_create)
  unfolding create_execution uuid4 saves pure ◌>>=◌
  create_execution-first_row = refl

  held_first : lookup (suc w.next_uuid) after_create.executions ≡ some first_row
  unfolding create_execution uuid4 saves pure ◌>>=◌ Repository.save_context
      Repository.save_execution new_execution
  held_first = lookup-put_self (suc w.next_uuid) first_row w.executions

  -- The child is created and then stored with its provenance, and this cannot fail.
  pub produce-runs : produce env q ts a w ≡ (ok (a, stored_row, provenance), after_produce)
  unfolding produce ◌>>=◌ pure child_of append_replay_created_event append_timeline new_execution
  produce-runs =
      rw
        (
          create_execution-first_row,
          update_execution-runs stored_row first_row after_create held_first,
        )
        refl

  -- Every other row is as it was.
  pub produce-others :
      (k : ℕ)
      → k ≢ suc w.next_uuid
      → lookup k (produce env q ts a w).1.executions ≡ lookup k w.executions
  unfolding child_of append_replay_created_event append_timeline new_execution create_execution
      uuid4 saves pure ◌>>=◌ Repository.save_context Repository.save_execution
  produce-others k other = rw produce-runs (
      ground (
        arith,
        other,
        lookup-put (suc w.next_uuid) k stored_row after_create.executions,
        lookup-put (suc w.next_uuid) k first_row w.executions,
      ))

  pub produce-holds : lookup (suc w.next_uuid) (produce env q ts a w).1.executions ≡ some stored_row
  unfolding child_of append_replay_created_event append_timeline new_execution
  produce-holds =
      rw produce-runs (lookup-put_self (suc w.next_uuid) stored_row after_create.executions)

  pub after_produce-steps : after_produce.steps ≡ w.steps
  unfolding create_execution uuid4 saves pure ◌>>=◌ Repository.save_context
      Repository.save_execution
  after_produce-steps = refl

  pub after_produce-Advances : Advances w after_produce
  unfolding child_of append_replay_created_event append_timeline new_execution status_of
  after_produce-Advances = record {
    advanced = λ formed.
        let (e, ran, s, free, there, first) =
          create_execution_lifecycle w formed (replay_creation env q a) ts in
        (Advances-IsPreorder.chain w after_create after_produce (record { advanced = λ f. first })
            (Advances-with first_row stored_row after_create
              (record { formed = first.formed; here = ap status_in held_first })
              (record { same_id = refl; reach = here }))).advanced
          formed;
  }
