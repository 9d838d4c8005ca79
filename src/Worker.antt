-- ===== src/Worker.antt =====
-- services/orchestrator/app/runtime/worker.py: `ExecutionWorker`, which takes executions from the
-- queue one at a time and starts each. Metrics and events are left out.
pub mod Draining
use agentic_ai_platform.Prelude.{
  ℕ, zero, suc, Bool, true, false, Option, none, some, String, ltb, length, if◌then◌else◌,
}
use agentic_ai_platform.Schemas.{Execution}
use agentic_ai_platform.Queue.{Queue, ExecutionWorkItem, dequeue}
use agentic_ai_platform.Exec.{World, Result, ok, err, now_utc}
use agentic_ai_platform.Env.{Env}
use agentic_ai_platform.Repository
use agentic_ai_platform.Engine.Run.{Outcome}
use agentic_ai_platform.Service.{record_worker_started, start_execution}

-- What `start_execution` gave, without its value.
unfoldable pub forget : Outcome → Option (Result Unit × World)
forget none = none
forget (some (ok e, w)) = some (ok tt, w)
forget (some (err why, w)) = some (err why, w)

module _ (env : Env) (worker_id : String) where
  -- After `record_worker_started`, which may raise.
  unfoldable pub started : ℕ → Result Execution → World → Option (Result Unit × World)
  started id (ok e) w = forget (start_execution env id w)
  started id (err why) w = some (err why, w)

  unfoldable pub process_known : ℕ → ℕ → World → Option (Result Unit × World)
  process_known id now w = let (r, w') = record_worker_started id worker_id now w in started id r w'

  -- `_process`: an item whose execution is gone is dropped.
  unfoldable pub process_found : Option Execution → ℕ → ℕ → World → Option (Result Unit × World)
  process_found none id now w = some (ok tt, w)
  process_found (some e) id now w = process_known id now w

  unfoldable pub process : ExecutionWorkItem → World → Option (Result Unit × World)
  process item w =
      let w1 = (now_utc env.readings w).1 in
      process_found (Repository.get_execution item.execution_id w1.repo) item.execution_id
        (env.readings w.clock) w1

  -- `run_once` gives whether work ran, with the queue and the world it leaves.
  unfoldable pub ran : Queue → Option (Result Unit × World) → Option (Result Bool × World × Queue)
  ran q none = none
  ran q (some (ok u, w)) = some (ok true, w, q)
  ran q (some (err why, w)) = some (err why, w, q)

  unfoldable pub run_next :
      Option ExecutionWorkItem × Queue → World → Option (Result Bool × World × Queue)
  run_next (none, q) w = some (ok false, w, q)
  run_next (some item, q) w = ran q (process item w)

  unfoldable pub run_once : Queue → World → Option (Result Bool × World × Queue)
  run_once q w = run_next (dequeue q) w

  -- `max_items is None or count < max_items`
  unfoldable pub may_run : Option ℕ → ℕ → Bool
  may_run none count = true
  may_run (some max_items) count = ltb count max_items

  -- What follows a `run_once` in the loop.
  unfoldable pub continue_after :
      ℕ
      → Option (Result Bool × World × Queue)
      → (Queue → World → Option (Result ℕ × World × Queue))
      → Option (Result ℕ × World × Queue)
  continue_after count none rest = none
  continue_after count (some (err why, w, q)) rest = some (err why, w, q)
  continue_after count (some (ok false, w, q)) rest = some (ok count, w, q)
  continue_after count (some (ok true, w, q)) rest = rest q w

  -- The loop on fuel, from a count of the items that ran.
  unfoldable pub run_items : ℕ → Option ℕ → ℕ → Queue → World → Option (Result ℕ × World × Queue)
  run_items zero max_items count q w = none
  run_items (suc fuel) max_items count q w =
      let next = continue_after count (run_once q w) (run_items fuel max_items (suc count)) in
      if may_run max_items count then next else some (ok count, w, q)

  -- The fuel is one more than the number of items in the queue.
  unfoldable pub run_until_idle : Option ℕ → Queue → World → Option (Result ℕ × World × Queue)
  run_until_idle max_items q w = run_items (suc (length q)) max_items 0 q w
