-- ===== src/Queue.antt =====
-- services/orchestrator/app/runtime/queue.py: the queue of executions that wait for a worker. The
-- lock makes each operation atomic, so each is one function of the queue's content.
pub mod Fifo
use agentic_ai_platform.Prelude.{ℕ, Option, none, some, List, [], ◌∷◌, ◌++◌, length}

pub record ExecutionWorkItem : Type 0 where
  pub execution_id : ℕ
  pub enqueued_at : ℕ

abbrev pub Queue : Type 0
Queue = List ExecutionWorkItem

-- `enqueue`: the new queue, and the length that is returned.
unfoldable pub enqueue : ℕ → ℕ → Queue → ℕ × Queue
enqueue id now q =
    let q' = q ++ record { execution_id = id; enqueued_at = now } ∷ [] in (length q', q')

unfoldable pub dequeue : Queue → Option ExecutionWorkItem × Queue
dequeue [] = (none, [])
dequeue (item ∷ q) = (some item, q)

unfoldable pub depth : Queue → ℕ
depth q = length q
