-- ===== src/StateMachine/Lifecycle.antt =====
-- The lifecycle as a step relation, and what can be reached in it.
use agentic_ai_platform.Prelude.{
  Bool, List, [], ◌∷◌, ◌==◌, ◌⊎◌, inl, inr, any, Bool-cases, ◌≡◌, refl, sym, ◌∙◌, subst, ◌≢◌, ◌↔◌,
  true, false, arith,
}
use agentic_ai_platform.Schemas.{ExecutionStatus, execution_status_eq}
use agentic_ai_platform.StateMachine.{
  permitted, refused, terminal, is_execution_terminal, validate_execution_transition,
}

true_ne_false : true ≢ false
true_ne_false = λ e. cc

-- The lifecycle as a relation.
pub data Moves : ExecutionStatus → ExecutionStatus → Type 0 where
  plan : Moves ExecutionStatus.created ExecutionStatus.planning
  execute : Moves ExecutionStatus.planning ExecutionStatus.executing
  validate : Moves ExecutionStatus.executing ExecutionStatus.validating
  rework : Moves ExecutionStatus.validating ExecutionStatus.executing
  complete : Moves ExecutionStatus.validating ExecutionStatus.completed
  escalate : Moves ExecutionStatus.validating ExecutionStatus.awaiting_approval
  grant : Moves ExecutionStatus.awaiting_approval ExecutionStatus.completed
  fail : {s : ExecutionStatus} → is_execution_terminal s ≡ false → Moves s ExecutionStatus.failed
  cancel :
      {s : ExecutionStatus} → is_execution_terminal s ≡ false → Moves s ExecutionStatus.cancelled

pub data Reach (s : ExecutionStatus) : ExecutionStatus → Type 0 where
  here : Reach s s
  next : {t u : ExecutionStatus} → Reach s t → Moves t u → Reach s u

pub Reach-trans : {s t u : ExecutionStatus} → Reach s t → Reach t u → Reach s u
Reach-trans p here = p
Reach-trans p (next q m) = next (Reach-trans p q) m

permitted-Moves :
    (a b : ExecutionStatus) → validate_execution_transition a b ≡ permitted → Moves a b
unfolding validate_execution_transition
permitted-Moves ExecutionStatus.created ExecutionStatus.planning _ = plan
permitted-Moves ExecutionStatus.planning ExecutionStatus.executing _ = execute
permitted-Moves ExecutionStatus.executing ExecutionStatus.validating _ = validate
permitted-Moves ExecutionStatus.validating ExecutionStatus.executing _ = rework
permitted-Moves ExecutionStatus.validating ExecutionStatus.completed _ = complete
permitted-Moves ExecutionStatus.validating ExecutionStatus.awaiting_approval _ = escalate
permitted-Moves ExecutionStatus.awaiting_approval ExecutionStatus.completed _ = grant
permitted-Moves ExecutionStatus.created ExecutionStatus.failed _ = fail refl
permitted-Moves ExecutionStatus.planning ExecutionStatus.failed _ = fail refl
permitted-Moves ExecutionStatus.executing ExecutionStatus.failed _ = fail refl
permitted-Moves ExecutionStatus.validating ExecutionStatus.failed _ = fail refl
permitted-Moves ExecutionStatus.awaiting_approval ExecutionStatus.failed _ = fail refl
permitted-Moves ExecutionStatus.created ExecutionStatus.cancelled _ = cancel refl
permitted-Moves ExecutionStatus.planning ExecutionStatus.cancelled _ = cancel refl
permitted-Moves ExecutionStatus.executing ExecutionStatus.cancelled _ = cancel refl
permitted-Moves ExecutionStatus.validating ExecutionStatus.cancelled _ = cancel refl
permitted-Moves ExecutionStatus.awaiting_approval ExecutionStatus.cancelled _ = cancel refl
permitted-Moves _ _ h = absurd (ground arith)

failed_permitted :
    (s : ExecutionStatus)
    → is_execution_terminal s ≡ false
    → validate_execution_transition s ExecutionStatus.failed ≡ permitted
unfolding validate_execution_transition
failed_permitted s h = ground arith

cancelled_permitted :
    (s : ExecutionStatus)
    → is_execution_terminal s ≡ false
    → validate_execution_transition s ExecutionStatus.cancelled ≡ permitted
unfolding validate_execution_transition
cancelled_permitted s h = ground arith

Moves-permitted :
    {a b : ExecutionStatus} → Moves a b → validate_execution_transition a b ≡ permitted
unfolding validate_execution_transition
Moves-permitted plan = refl
Moves-permitted execute = refl
Moves-permitted validate = refl
Moves-permitted rework = refl
Moves-permitted complete = refl
Moves-permitted escalate = refl
Moves-permitted grant = refl
Moves-permitted (fail {s = s} h) = failed_permitted s h
Moves-permitted (cancel {s = s} h) = cancelled_permitted s h

-- `validate_execution_transition` accepts exactly the moves of the lifecycle.
pub validate_execution_transition_iff :
    (a b : ExecutionStatus) → (validate_execution_transition a b ≡ permitted) ↔ Moves a b
validate_execution_transition_iff a b = (permitted-Moves a b, Moves-permitted)

-- What each refusal means: the message of a terminal status is given exactly where the status is
-- terminal and another one is asked for.
pub validate_execution_transition_terminal :
    (a b : ExecutionStatus)
    → (validate_execution_transition a b ≡ refused terminal)
      ↔ ((is_execution_terminal a ≡ true) × (a ≢ b))
unfolding validate_execution_transition
validate_execution_transition_terminal a b = (λ h. (ground arith, ground arith), λ h. ground arith)

terminal_stuck : {a b : ExecutionStatus} → Moves a b → is_execution_terminal a ≡ false
unfolding is_execution_terminal
terminal_stuck plan = refl
terminal_stuck execute = refl
terminal_stuck validate = refl
terminal_stuck rework = refl
terminal_stuck complete = refl
terminal_stuck escalate = refl
terminal_stuck grant = refl
terminal_stuck (fail h) = h
terminal_stuck (cancel h) = h

-- An execution in a terminal status stays in it along every sequence of permitted moves.
pub Reach-terminal : {a b : ExecutionStatus} → is_execution_terminal a ≡ true → Reach a b → b ≡ a
Reach-terminal h here = refl
Reach-terminal h (next {t = t} r m) = absurd (
    true_ne_false (
      sym (subst (λ s. is_execution_terminal s ≡ true) (sym (Reach-terminal h r)) h)
      ∙ terminal_stuck m))

-- The statuses of an execution one after the other, each accepted by `validate_execution_transition`.
abbrev pub Accepted : ExecutionStatus → List ExecutionStatus → Type 0
Accepted s [] = Unit
Accepted s (t ∷ path) = (validate_execution_transition s t ≡ permitted) × Accepted t path

abbrev pub last_of : ExecutionStatus → List ExecutionStatus → ExecutionStatus
last_of s [] = s
last_of s (t ∷ path) = last_of t path

-- Not yet validated: only the statuses before the validation, or the two ends without success.
abbrev unvalidated : ExecutionStatus → Bool
unvalidated ExecutionStatus.created = true
unvalidated ExecutionStatus.planning = true
unvalidated ExecutionStatus.executing = true
unvalidated ExecutionStatus.failed = true
unvalidated ExecutionStatus.cancelled = true
unvalidated _ = false

next_unvalidated :
    (s t : ExecutionStatus)
    → unvalidated s ≡ true
    → validate_execution_transition s t ≡ permitted
    → (t == ExecutionStatus.validating) ≡ false
    → unvalidated t ≡ true
unfolding validate_execution_transition
next_unvalidated s t u h other = ground arith

last_unvalidated :
    (s : ExecutionStatus) (path : List ExecutionStatus)
    → unvalidated s ≡ true
    → Accepted s path
    → any (λ t. t == ExecutionStatus.validating) path ≡ false
    → unvalidated (last_of s path) ≡ true
last_unvalidated s [] u h v = u
last_unvalidated s (t ∷ path) u h v =
    last_unvalidated t path (next_unvalidated s t u h.0 (ground (arith, v))) h.1 (ground (arith, v))

completed_unvalidated : unvalidated ExecutionStatus.completed ≢ true
completed_unvalidated = λ e. cc

-- No sequence of accepted transitions takes a created execution to completed, or to waiting for an
-- approval, without its validation.
pub completed_validated :
    (path : List ExecutionStatus)
    → Accepted ExecutionStatus.created path
    → (last_of ExecutionStatus.created path ≡ ExecutionStatus.completed)
      ⊎ (last_of ExecutionStatus.created path ≡ ExecutionStatus.awaiting_approval)
    → any (λ t. t == ExecutionStatus.validating) path ≡ true
completed_validated path h ends =
    elim (Bool-cases (any (λ t. t == ExecutionStatus.validating) path)) [
      | inl validated ↦ validated
      | inr skipped ↦
          let last = last_unvalidated ExecutionStatus.created path refl h skipped in
          absurd (ground (arith, last, ends))
    ]
