-- ===== src/Service/Guarantees.antt =====
-- What the operations of the service guarantee of every execution in the store.
use agentic_ai_platform.Prelude.{ℕ, ◌≡◌, ◌≢◌, refl, subst, ap, true, Option, none, some, String}
use agentic_ai_platform.Schemas.{Execution, ExecutionStatus, ApprovalDecision}
use agentic_ai_platform.StateMachine.{is_execution_terminal}
use agentic_ai_platform.StateMachine.Lifecycle.{Reach-terminal}
use agentic_ai_platform.Exec.{World, Result}
use agentic_ai_platform.Exec.Keeps.{Keeps-bind}
use agentic_ai_platform.Env.{Env}
use agentic_ai_platform.Queue.{Queue}
use agentic_ai_platform.Engine.Run.{Outcome, run_execution}
use agentic_ai_platform.Engine.Quiet.{IsWellFormed, status_of, Quiet-now_utc}
use agentic_ai_platform.Engine.Still.{Quiet→Still}
use agentic_ai_platform.Engine.Steers.{
  Follows, moved, Advanced, Advances, Advances-IsPreorder, Still→Keeps,
}
use agentic_ai_platform.Engine.Safety.{InOutcome, run_execution-Advances}
use agentic_ai_platform.Engine.Approvals.{submit_approval-Advances}
use agentic_ai_platform.Engine.Progress.{StepsKeyed}
use agentic_ai_platform.Engine.Totality.{run_execution_ends}
use agentic_ai_platform.Service.{
  start_execution, submit_approval, request_cancellation, enqueue_execution,
}
use agentic_ai_platform.Service.Safety.{
  start_execution-Advances, start_execution_ends, request_cancellation-Advances,
  enqueue_execution-Advances,
}

-- An outcome that was produced, with the world it left.
produced :
    (P : World → Type 0) (o : Outcome)
    → o ≢ none
    → InOutcome P o
    → (r : Result Execution) × (w' : World) × (o ≡ some (r, w')) × P w'
produced P none h p = absurd (h refl)
produced P (some (r, w')) h p = (r, w', refl, p)

module _ (env : Env) (id : ℕ) (w : World) where
  -- From a well-formed store whose steps are stored under their identifiers, `run_execution` comes
  -- to an end, with a result or an exception; it leaves the store well formed and has moved every
  -- execution only along the lifecycle.
  pub run_execution_lifecycle :
      IsWellFormed w
      → StepsKeyed w
      → (r : Result Execution) × (w' : World) × (run_execution env id w ≡ some (r, w'))
        × Advanced w w'
  run_execution_lifecycle formed keyed =
      let (r, w', e, a) =
        produced (Advances w) (run_execution env id w) (run_execution_ends env id w keyed)
          (run_execution-Advances env id w) in
      (r, w', e, a.advanced formed)

  -- From a well-formed store whose steps are stored under their identifiers, `start_execution` comes
  -- to an end, with a result or an exception; it leaves the store well formed and has moved every
  -- execution only along the lifecycle.
  pub start_execution_lifecycle :
      IsWellFormed w
      → StepsKeyed w
      → (r : Result Execution) × (w' : World) × (start_execution env id w ≡ some (r, w'))
        × Advanced w w'
  start_execution_lifecycle formed keyed =
      let (r, w', e, a) =
        produced (Advances w) (start_execution env id w) (start_execution_ends env id w keyed)
          (start_execution-Advances env id w) in
      (r, w', e, a.advanced formed)

  -- `submit_approval` of the service, whatever it is given and however it ends, leaves the store
  -- well formed and moves every execution only along the lifecycle.
  pub submit_approval_lifecycle :
      (approver : String) (d : ApprovalDecision) (notes : Option String)
      → IsWellFormed w
      → Advanced w (submit_approval env id approver d notes w).1
  unfolding submit_approval
  submit_approval_lifecycle approver d notes formed =
      ((Keeps-bind Advances-IsPreorder _ _
            (Still→Keeps _ (Quiet→Still _ (Quiet-now_utc env.readings)))
            (λ ts. submit_approval-Advances env id approver d notes ts)).at
          w).advanced
        formed

-- A request for cancellation leaves the store well formed and moves every execution only along the
-- lifecycle.
pub request_cancellation_lifecycle :
    (id : ℕ) (reason : String) (ts : ℕ) (w : World)
    → IsWellFormed w
    → Advanced w (request_cancellation id reason ts w).1
request_cancellation_lifecycle id reason ts w formed =
    ((request_cancellation-Advances id reason ts).at w).advanced formed

-- Putting an execution into the queue leaves the store well formed and moves every execution only
-- along the lifecycle.
pub enqueue_execution_lifecycle :
    (id ts : ℕ) (q : Queue) (w : World)
    → IsWellFormed w
    → Advanced w (enqueue_execution id ts q w).1
enqueue_execution_lifecycle id ts q w formed =
    (enqueue_execution-Advances id ts q w).advanced formed

Follows-terminal :
    (s : ExecutionStatus) (o : Option ExecutionStatus)
    → is_execution_terminal s ≡ true
    → Follows (some s) o
    → o ≡ some s
Follows-terminal s none t f = elim f [ ]
Follows-terminal s (some _) t (moved r) = ap some (Reach-terminal t r)

-- Whichever execution is started in a well-formed store, an execution that had ended keeps its status.
pub start_execution_terminal :
    (env : Env) (id k : ℕ) (s : ExecutionStatus) (w w' : World) (r : Result Execution)
    → IsWellFormed w
    → status_of k w ≡ some s
    → is_execution_terminal s ≡ true
    → start_execution env id w ≡ some (r, w')
    → status_of k w' ≡ some s
start_execution_terminal env id k s w w' r formed held t ran =
    let a : Advances w w' =
      subst (InOutcome (Advances w)) ran (start_execution-Advances env id w) in
    Follows-terminal s (status_of k w') t
      (subst (λ o. Follows o (status_of k w')) held ((a.advanced formed).follows k))
