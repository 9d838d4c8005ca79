-- ===== src/Exec.antt =====
-- The orchestrator's methods as actions: each reads and writes a world and returns or raises. What
-- was written before a raise stays written. The world is the repository, the next UUID that
-- `uuid4` gives, the number of clock readings, and the number of calls of outside services.
pub mod Keeps
pub mod Returns
use agentic_ai_platform.Prelude.{
  ℕ, zero, suc, ◌+◌, ◌≡◌, Bool, Option, none, some, String, List, [], ◌∷◌, if◌then◌else◌,
}
use agentic_ai_platform.Schemas.{Execution}
use agentic_ai_platform.StateMachine.{Verdict, permitted, refused, Rejection}
use agentic_ai_platform.Repository.{Repository}

pub record World : Type 0 where
  pub repo : Repository
  pub open repo use *
  pub next_uuid : ℕ
  pub clock : ℕ
  pub calls : ℕ

-- `KeyError`, `InvalidStatusTransitionError`, `OrchestrationError` and `ValueError` with their texts,
-- the failure of an `assert`; the exceptions of the replay service and of the replay diff,
-- pydantic's `ValidationError`; and an exception of an outside service, by its class and its text.
pub data Error : Type 0 where
  key_error : Error
  invalid_transition : Rejection → Error
  orchestration_error : String → Error
  value_error : String → Error
  assertion_error : Error
  replay_not_found : Error
  replay_validation : String → Error
  replay_error : String → Error
  diff_not_found : Error
  diff_error : String → Error
  validation_error : Error
  service_error : (class text : String) → Error

pub data Result (A : Type 0) : Type 0 where
  err : Error → Result A
  ok : A → Result A

abbrev pub Exec : Type 0 → Type 0
Exec A = World → Result A × World

module _ {A : Type 0} where
  unfoldable pub pure : A → Exec A
  pure a w = (ok a, w)

  unfoldable pub raise : Error → Exec A
  raise e w = (err e, w)

  -- Read something of the world.
  unfoldable pub reads : (World → A) → Exec A
  reads f w = (ok (f w), w)

-- Change the repository, with no failure.
unfoldable pub saves : (Repository → Repository) → Exec Unit
saves f w = (ok tt, record w { repo = f w.repo })

-- Change the repository, or raise `KeyError` where the row is not there.
unfoldable pub updates : (Repository → Option Repository) → Exec Unit
updates f w = elim (f w.repo) [
  | none ↦ (err key_error, w)
  | some r ↦ (ok tt, record w { repo = r })
]

-- `uuid4()`: identifiers are given out in sequence, and none is given twice.
unfoldable pub uuid4 : Exec ℕ
uuid4 w = (ok w.next_uuid, record w { next_uuid = suc w.next_uuid })

-- `datetime.now(timezone.utc)`: the next reading of an arbitrary clock.
unfoldable pub now_utc : (ℕ → ℕ) → Exec ℕ
now_utc readings w = (ok (readings w.clock), record w { clock = suc w.clock })

-- The number of a call of an outside service.
unfoldable pub next_call : Exec ℕ
next_call w = (ok w.calls, record w { calls = suc w.calls })

module _ {A B : Type 0} where
  abbrev pub continue : Result A → (A → Exec B) → Exec B
  continue (ok a) f w = f a w
  continue (err e) f w = (err e, w)

  infixl 10 ◌>>=◌ ◌>>◌
  unfoldable pub ◌>>=◌ : Exec A → (A → Exec B) → Exec B
  ◌>>=◌ m f w = let (r, w') = m w in continue r f w'

  abbrev pub ◌>>◌ : Exec A → Exec B → Exec B
  m >> n = m >>= λ _. n

-- `None` or a value.
unfoldable pub if_some {ℓ} : {A : Type 0} {B : Type ℓ} → Option A → B → (A → B) → B
if_some none absent present = absent
if_some (some a) absent present = present a

-- `validate_…_transition(…)`, which raises.
unfoldable pub require : Verdict → Exec Unit
require permitted w = (ok tt, w)
require (refused why) w = (err (invalid_transition why), w)

-- `for x in xs: body(x)`
unfoldable pub for_each : {A : Type 0} → List A → (A → Exec Unit) → Exec Unit
for_each [] body w = (ok tt, w)
for_each (x ∷ xs) body w = let (r, w') = body x w in continue r (λ _. for_each xs body) w'

-- `[body(x) for x in xs]`
unfoldable pub collect : {A B : Type 0} → List A → (A → Exec B) → Exec (List B)
collect [] body w = (ok [], w)
collect (x ∷ xs) body w =
    let (r, w') = body x w in
    continue r
      (λ b w1. let (rs, w2) = collect xs body w1 in continue rs (λ bs w3. (ok (b ∷ bs), w3)) w2) w'
