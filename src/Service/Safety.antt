-- ===== src/Service/Safety.antt =====
-- Every operation of the service moves executions only along the lifecycle, and a start comes to an
-- end.
use agentic_ai_platform.Prelude.{ℕ, ◌≡◌, ◌≢◌, refl, none, some, String}
use agentic_ai_platform.Schemas.{Execution, execution_status_eq}
use agentic_ai_platform.Exec.{World, ok, err, orchestration_error}
use agentic_ai_platform.Exec.Keeps.{Keeps, Keeps-bind, Keeps-if, Keeps-pure, Keeps-raise}
use agentic_ai_platform.Env.{Env}
use agentic_ai_platform.Engine.Run.{Outcome, Turn, again, done, after}
use agentic_ai_platform.Engine.Run
use agentic_ai_platform.Engine.Steers.{Advances, Advances-IsPreorder, Keeps-get_execution}
use agentic_ai_platform.Engine.Motion.{still_rules, Steers-store}
use agentic_ai_platform.Engine.Ending.{fail_execution-Advances, cancel_execution-Advances}
use agentic_ai_platform.Engine.Safety.{run_execution-Advances, InOutcome}
use agentic_ai_platform.Engine.Progress.{StepsKeyed}
use agentic_ai_platform.Engine.Totality.{run_execution_ends}
use agentic_ai_platform.Engine.Steers.{Still→Keeps}
use agentic_ai_platform.Engine.Motion.{same_status}
use agentic_ai_platform.RuntimeMeta.{
  mark_queued, mark_worker_started, request_cancellation_meta, apply_runtime_meta,
}
use agentic_ai_platform.Queue.{Queue}
use agentic_ai_platform.Service.{
  change, enqueue_execution, record_worker_started, can_cancel, request_cancellation, recover,
  start_execution,
}

-- One update of a row that leaves its identifier and its status.
change-Advances :
    (id : ℕ) (f : Execution → Execution)
    → ((e : Execution) → (f e).execution_id ≡ e.execution_id)
    → ((e : Execution) → (f e).status ≡ e.status)
    → Keeps Advances (change id f)
unfolding change
change-Advances id f hid hs =
    Keeps-get_execution id _ _ (Keeps-raise Advances-IsPreorder _ _)
      λ e. Steers-store e (f e) (same_status e (f e) (hid e) (hs e))

-- Queueing an execution moves no execution to another status.
pub enqueue_execution-Advances :
    (id ts : ℕ) (q : Queue) (w : World) → Advances w (enqueue_execution id ts q w).1
unfolding enqueue_execution mark_queued apply_runtime_meta
enqueue_execution-Advances id ts q w =
    (change-Advances id (λ e. mark_queued e ts) (λ e. refl) (λ e. refl)).at w

pub record_worker_started-Advances :
    (id : ℕ) (worker_id : String) (ts : ℕ) → Keeps Advances (record_worker_started id worker_id ts)
unfolding record_worker_started mark_worker_started apply_runtime_meta
record_worker_started-Advances id worker_id ts =
    change-Advances id (λ e. mark_worker_started e worker_id ts) (λ e. refl) (λ e. refl)

-- A request for cancellation moves executions only along the lifecycle.
pub request_cancellation-Advances :
    (id : ℕ) (reason : String) (ts : ℕ) → Keeps Advances (request_cancellation id reason ts)
unfolding request_cancellation request_cancellation_meta apply_runtime_meta
request_cancellation-Advances id reason ts =
    Keeps-bind Advances-IsPreorder _ _
      (change-Advances id (λ e. request_cancellation_meta e ts reason) (λ e. refl) (λ e. refl))
      λ e.
        Keeps-if (can_cancel e.status) _ _ (cancel_execution-Advances reason ts id)
          (Keeps-pure Advances-IsPreorder e)

module _ (env : Env) where
  recover-Advances :
      (id : ℕ) (u : World) (o : Outcome)
      → InOutcome (Advances u) o
      → InOutcome (Advances u) (recover env id o)
  unfolding recover
  recover-Advances id u none h = tt
  recover-Advances id u (some (ok e, w)) h = h
  recover-Advances id u (some (err (orchestration_error reason), w)) h =
      Advances-IsPreorder.chain u w _ h (
        (Keeps-bind Advances-IsPreorder _ _ (Still→Keeps _ (search (still_rules)))
            (λ ts. fail_execution-Advances reason ts id)).at
          w)
  recover-Advances id u (some (err _, w)) h = h

  -- `start_execution` moves every execution only along the lifecycle, whatever the run does and
  -- whichever exception it meets.
  pub start_execution-Advances :
      (id : ℕ) (w : World) → InOutcome (Advances w) (start_execution env id w)
  unfolding start_execution
  start_execution-Advances id w =
      recover-Advances id w (Run.run_execution env id w) (run_execution-Advances env id w)

  recover_ends : (id : ℕ) (o : Outcome) → o ≢ none → recover env id o ≢ none
  unfolding recover
  recover_ends id none h = h
  recover_ends id (some (ok e, w)) h = λ x. cc
  recover_ends id (some (err (orchestration_error reason), w)) h = λ x. cc
  recover_ends id (some (err _, w)) h = λ x. cc

  -- From a store whose steps are stored under their identifiers, `start_execution` comes to an end.
  pub start_execution_ends : (id : ℕ) (w : World) → StepsKeyed w → start_execution env id w ≢ none
  unfolding start_execution
  start_execution_ends id w k =
      recover_ends id (Run.run_execution env id w) (run_execution_ends env id w k)
