-- ===== src/Worker/Draining.antt =====
-- The worker empties the queue.
use agentic_ai_platform.Prelude.{
  ℕ, zero, suc, ◌+◌, ◌<◌, ◌≡◌, refl, sym, subst, Option, none, some, String, [], ◌∷◌, length, arith,
}
use agentic_ai_platform.Schemas.{Execution}
use agentic_ai_platform.Exec.{World, Result, ok, err, now_utc, orchestration_error, ◌>>=◌}
use agentic_ai_platform.Exec.Keeps.{Keeps}
use agentic_ai_platform.Env.{Env}
use agentic_ai_platform.Queue.{Queue, ExecutionWorkItem, dequeue}
use agentic_ai_platform.Engine.Run.{Outcome, run_execution}
use agentic_ai_platform.Engine.Trace.{get_execution}
use agentic_ai_platform.Engine.Cancel.{store, fail_execution}
use agentic_ai_platform.Engine.Quiet.{IsWellFormed, Quiet-now_utc}
use agentic_ai_platform.Engine.Steers.{Advanced, Advanced-trans, Advances-IsPreorder, Still→Keeps}
use agentic_ai_platform.Engine.Still.{Quiet→Still}
use agentic_ai_platform.Engine.Progress.{StepsKeyed, Tidy, Quiet→Tidy, tidy_rules}
use agentic_ai_platform.Engine.Keyed.{run_execution-StepsKeyed, Tidy-fail_execution}
use agentic_ai_platform.Engine.Safety.{InOutcome}
use agentic_ai_platform.Service.{start_execution, recover, record_worker_started, change}
use agentic_ai_platform.Service.Safety.{record_worker_started-Advances}
use agentic_ai_platform.Service.Guarantees.{start_execution_lifecycle}
use agentic_ai_platform.Worker.{
  forget, started, process_known, process_found, process, ran, run_next, run_once, may_run,
  continue_after, run_items, run_until_idle,
}

module _ (env : Env) where
  recover-StepsKeyed :
      (id : ℕ) (o : Outcome) → InOutcome StepsKeyed o → InOutcome StepsKeyed (recover env id o)
  unfolding recover
  recover-StepsKeyed id none k = tt
  recover-StepsKeyed id (some (ok e, w)) k = k
  recover-StepsKeyed id (some (err (orchestration_error reason), w)) k =
      let neat : Keeps Tidy (now_utc env.readings >>= fail_execution id reason) =
        search (tidy_rules, Tidy-fail_execution) depth 24 in
      ((neat.at w).keyed k)
  recover-StepsKeyed id (some (err why, w)) k = k

  start_execution-StepsKeyed :
      (id : ℕ) (w : World) → StepsKeyed w → InOutcome StepsKeyed (start_execution env id w)
  unfolding start_execution
  start_execution-StepsKeyed id w k =
      recover-StepsKeyed id (run_execution env id w) (run_execution-StepsKeyed env id w k)

Tidy-record_worker_started :
    (id : ℕ) (worker_id : String) (ts : ℕ) → Keeps Tidy (record_worker_started id worker_id ts)
unfolding record_worker_started change store get_execution
Tidy-record_worker_started id worker_id ts = search (tidy_rules) depth 24

-- A result that leaves a sound store, reached along the lifecycle.
abbrev Sound : World → World → Type 0
Sound w w' = Advanced w w' × StepsKeyed w'

Sound-trans : (u v w : World) → Sound u v → Sound v w → Sound u w
Sound-trans u v w p q = (Advanced-trans u v w p.0 q.0, q.1)

module _ (env : Env) (worker_id : String) where
  -- What `_process` comes to.
  abbrev Processed : World → Option (Result Unit × World) → Type 0
  Processed w o = (r : Result Unit) × (w' : World) × (o ≡ some (r, w')) × Sound w w'

  forget-Sound :
      (r : Result Execution) (w w' : World) → Sound w w' → Processed w (forget (some (r, w')))
  unfolding forget
  forget-Sound (ok e) w w' h = (ok tt, w', refl, h)
  forget-Sound (err why) w w' h = (err why, w', refl, h)

  start-Sound :
      (id : ℕ) (w : World)
      → IsWellFormed w
      → StepsKeyed w
      → Processed w (forget (start_execution env id w))
  start-Sound id w formed keyed =
      let (r, w', ran, moved) = start_execution_lifecycle env id w formed keyed in
      let kept = subst (InOutcome StepsKeyed) ran (start_execution-StepsKeyed env id w keyed) in
      subst (λ o. Processed w (forget o)) (sym ran) (forget-Sound r w w' (moved, kept))

  Processed-after :
      (u w : World) (o : Option (Result Unit × World)) → Sound u w → Processed w o → Processed u o
  Processed-after u w o first (r, w', made, then_) = (r, w', made, Sound-trans u w w' first then_)

  started-Sound :
      (id : ℕ) (r : Result Execution) (u w : World)
      → Sound u w
      → Processed u (started env worker_id id r w)
  unfolding started
  started-Sound id (ok e) u w h = Processed-after u w _ h (start-Sound id w (h.0.formed) h.1)
  started-Sound id (err why) u w h = (err why, w, refl, h)

  process_found-Sound :
      (o : Option Execution) (id now : ℕ) (u w : World)
      → Sound u w
      → Processed u (process_found env worker_id o id now w)
  unfolding process_found process_known
  process_found-Sound none id now u w h = (ok tt, w, refl, h)
  process_found-Sound (some e) id now u w h =
      let action = record_worker_started id worker_id now in
      let moved = ((record_worker_started-Advances id worker_id now).at w).advanced h.0.formed in
      let kept = ((Tidy-record_worker_started id worker_id now).at w).keyed h.1 in
      started-Sound id (action w).0 u (action w).1 (Sound-trans u w (action w).1 h (moved, kept))

  -- The processing of one item comes to an end, and leaves a sound store.
  process-Sound :
      (item : ExecutionWorkItem) (w : World)
      → IsWellFormed w
      → StepsKeyed w
      → Processed w (process env worker_id item w)
  unfolding process
  process-Sound item w formed keyed =
      let clock = now_utc env.readings in
      let moved =
        ((Still→Keeps clock (Quiet→Still clock (Quiet-now_utc env.readings))).at w).advanced
          formed in
      let kept = ((Quiet→Tidy clock (Quiet-now_utc env.readings)).at w).keyed keyed in
      process_found-Sound _ item.execution_id (env.readings w.clock) w (clock w).1 (moved, kept)

  -- What `run_until_idle` comes to from a queue of `left` items and a count.
  abbrev Drained : ℕ → World → Option (Result ℕ × World × Queue) → Type 0
  Drained total w o =
      (r : Result ℕ) × (w' : World) × (q' : Queue) × (o ≡ some (r, w', q'))
      × Sound w w'
      × ((n : ℕ) → r ≡ ok n → (n ≡ total) × (q' ≡ []))

  Drained-after :
      (total : ℕ) (u w : World) (o : Option (Result ℕ × World × Queue))
      → Sound u w
      → Drained total w o
      → Drained total u o
  Drained-after total u w o h (r, w', q', made, more, all_done) =
      (r, w', q', made, Sound-trans u w w' h more, all_done)

  ran-Drained :
      (count total : ℕ) (q : Queue) (w v : World) (r : Result Unit)
      (rest : Queue → World → Option (Result ℕ × World × Queue))
      → Sound w v
      → ((w' : World) → Sound w w' → Drained total w' (rest q w'))
      → Drained total w
          (continue_after env worker_id count (ran env worker_id q (some (r, v))) rest)
  unfolding continue_after ran
  ran-Drained count total q w v (ok u) rest h k = Drained-after total w v (rest q v) h (k v h)
  ran-Drained count total q w v (err why) rest h k = (err why, v, q, refl, h, λ n e. absurd cc)

  run_items-Drained :
      (fuel count : ℕ) (q : Queue) (w : World)
      → length q < fuel
      → IsWellFormed w
      → StepsKeyed w
      → Drained (count + length q) w (run_items env worker_id fuel none count q w)
  unfolding run_items run_once run_next dequeue may_run continue_after
  run_items-Drained zero count q w small formed keyed = absurd (omega (arith, small))
  run_items-Drained (suc fuel) count [] w small formed keyed = (
    ok count,
    w,
    [],
    refl,
    ((Advances-IsPreorder.stay w).advanced formed, keyed),
    λ n e. (ground (arith, e), refl),
  )
  run_items-Drained (suc fuel) count (item ∷ q) w small formed keyed =
      let (r, v, made, h) = process-Sound item w formed keyed in
      subst
        (λ o. Drained (count + suc (length q)) w (
          continue_after env worker_id count (ran env worker_id q o)
            (run_items env worker_id fuel none (suc count))))
        (sym made)
        (ran-Drained count (count + suc (length q)) q w v r
          (run_items env worker_id fuel none (suc count)) h
          (λ w' good.
            subst (λ total. Drained total w' (run_items env worker_id fuel none (suc count) q w'))
              (omega arith)
              (run_items-Drained fuel (suc count) q w' (omega (arith, small)) good.0.formed
                good.1)))

  -- From a well-formed store whose steps are stored under their identifiers, `run_until_idle` with no
  -- bound on the items comes to an end, however many items are queued and whatever each run does: it
  -- has moved every execution only along the lifecycle, and where it returns, it returns the number
  -- of the items that were queued, and the queue is empty.
  pub run_until_idle_drains :
      (q : Queue) (w : World)
      → IsWellFormed w
      → StepsKeyed w
      → (r : Result ℕ) × (w' : World) × (q' : Queue) × (run_until_idle env worker_id none q w
          ≡ some (r, w', q'))
        × (Advanced w w' × StepsKeyed w')
        × ((n : ℕ) → r ≡ ok n → (n ≡ length q) × (q' ≡ []))
  unfolding run_until_idle
  run_until_idle_drains q w formed keyed =
      subst (λ total. Drained total w (run_items env worker_id (suc (length q)) none 0 q w))
        (omega arith) (run_items-Drained (suc (length q)) 0 q w (omega arith) formed keyed)
