-- ===== src/Queue/Fifo.antt =====
-- The queue hands items out in the order in which they came.
use agentic_ai_platform.Prelude.{
  ℕ, zero, suc, take, ◌∙◌, sym, ◌≡◌, refl, ap, Option, none, some, List, [], ◌∷◌, ◌++◌,
}
use agentic_ai_platform.Queue.{Queue, ExecutionWorkItem, enqueue, dequeue}

-- Several calls of `enqueue`
abbrev pub enqueue_all : List ExecutionWorkItem → Queue → Queue
enqueue_all [] q = q
enqueue_all (item ∷ items) q = enqueue_all items (enqueue item.execution_id item.enqueued_at q).1

-- What a `dequeue` gave, and what the calls after it give.
dequeued : Option ExecutionWorkItem → List ExecutionWorkItem → List ExecutionWorkItem
dequeued none later = []
dequeued (some item) later = item ∷ later

-- The items that a number of calls of `dequeue` give
unfoldable pub dequeue_all : ℕ → Queue → List ExecutionWorkItem
unfolding dequeued
dequeue_all zero q = []
dequeue_all (suc n) q = let later = dequeue_all n (dequeue q).1 in dequeued (dequeue q).0 later

append_nil : (q : Queue) → q ++ [] ≡ q
append_nil [] = refl
append_nil (x ∷ q) = ap (λ r. x ∷ r) (append_nil q)

append_assoc : (a b c : Queue) → (a ++ b) ++ c ≡ a ++ (b ++ c)
append_assoc [] b c = refl
append_assoc (x ∷ a) b c = ap (λ r. x ∷ r) (append_assoc a b c)

enqueue_all-append : (items q : Queue) → enqueue_all items q ≡ q ++ items
unfolding enqueue
enqueue_all-append [] q = sym (append_nil q)
enqueue_all-append (item ∷ items) q =
    enqueue_all-append items (q ++ item ∷ []) ∙ append_assoc q (item ∷ []) items

dequeue_all-take : (n : ℕ) (q : Queue) → dequeue_all n q ≡ take n q
unfolding dequeue_all dequeued dequeue
dequeue_all-take zero q = refl
dequeue_all-take (suc n) [] = refl
dequeue_all-take (suc n) (item ∷ q) = ap (λ r. item ∷ r) (dequeue_all-take n q)

-- However many items are taken from a queue after others were added to it, they come out in the
-- order in which they went in, the items that were there first.
pub dequeue_all-enqueue_all :
    (n : ℕ) (items q : Queue) → dequeue_all n (enqueue_all items q) ≡ take n (q ++ items)
dequeue_all-enqueue_all n items q =
    dequeue_all-take n (enqueue_all items q) ∙ ap (take n) (enqueue_all-append items q)
