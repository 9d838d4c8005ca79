-- ===== src/ModelRuntime/Retries.antt =====
-- Which call of the provider decides.
use agentic_ai_platform.Prelude.{
  ℕ, zero, suc, ◌+◌, ◌<◌, ◌≡◌, refl, sym, subst, Bool, true, false, Option, none, some, nat_beq,
  nat_beq_iff, List, [], ◌∷◌, ◌++◌, max, leb, leb→le, Bool-cases, inl, inr, arith,
}
use agentic_ai_platform.ModelRuntime.{
  ModelError, transient, ModelResult, returned, raised, ModelInvocationTelemetry,
  ReasoningCallResult, Called, noted, after_call, attempts, call_with_retries, raise_last,
}

-- A call that raised a transient error.
abbrev pub is_transient {ℓ} : {A : Type ℓ} → ModelResult A → Bool
is_transient (returned a) = false
is_transient (raised (transient m)) = true
is_transient (raised e) = false

one_at_least : (n : ℕ) → max 1 (n + 1) ≡ suc n
one_at_least n = omega arith

-- 1, …, n
abbrev pub up_to : ℕ → List ℕ
up_to zero = []
up_to (suc n) = up_to n ++ suc n ∷ []

module _ {A : Type 0} (fn : ℕ → ModelResult (ReasoningCallResult A)) (latency : ℕ → ℕ)
    (with_invocation : A → ModelInvocationTelemetry → A) where
  -- The result of one call, as the caller gets it.
  abbrev pub settled : ℕ → ModelResult (ReasoningCallResult A) → ModelResult (ReasoningCallResult A)
  settled k (returned r) = returned (noted fn latency with_invocation k r)
  settled k (raised e) = raised e

  -- Call `k` decides: the calls before it raised transient errors, and it did not or was the last.
  pub record Decides (max_attempts k : ℕ) (c : Called A) : Type 0 where
    pub within : k < max_attempts
    pub before : (j : ℕ) → j < k → is_transient (fn j) ≡ true
    pub last : is_transient (fn k) ≡ true → suc k ≡ max_attempts
    pub result : c.result ≡ settled k (fn k)
    pub calls : c.calls ≡ suc k
    pub sleeps : c.sleeps ≡ up_to k

  -- The turn `attempt` decides.
  decided :
      (max_attempts attempt : ℕ) (r : ModelResult (ReasoningCallResult A))
      → attempt < max_attempts
      → ((j : ℕ) → j < attempt → is_transient (fn j) ≡ true)
      → (is_transient (fn attempt) ≡ true → suc attempt ≡ max_attempts)
      → r ≡ settled attempt (fn attempt)
      → Decides max_attempts attempt
          (record { result = r; calls = suc attempt; sleeps = up_to attempt })
  decided max_attempts attempt r hk hb hl hr = record {
    within = hk;
    before = hb;
    last = hl;
    result = hr;
    calls = refl;
    sleeps = refl;
  }

  -- The deciding call, wherever it is.
  abbrev Decided : ℕ → Called A → Type 0
  Decided max_attempts c = (k : ℕ) × Decides max_attempts k c

  module _ (max_attempts attempt : ℕ) (within : attempt < max_attempts)
      (before : (j : ℕ) → j < attempt → is_transient (fn j) ≡ true)
      (later : ModelError → List ℕ → Called A)
      (rest : suc attempt < max_attempts
        → is_transient (fn attempt) ≡ true
        → (e : ModelError)
        → Decided max_attempts (later e (up_to attempt ++ suc attempt ∷ []))) where
    after_call-Decided :
        (a : ModelResult (ReasoningCallResult A))
        → fn attempt ≡ a
        → Decided max_attempts
            (after_call fn latency with_invocation max_attempts attempt (up_to attempt) later a)
    unfolding after_call raise_last
    after_call-Decided (returned r) h =
        (attempt, decided max_attempts attempt _ within before (rw h λ t. absurd cc) (rw h refl))
    after_call-Decided (raised (transient m)) h =
        elim (Bool-cases (leb max_attempts (suc attempt))) [
          | inl full ↦ rw full (
            attempt,
            decided max_attempts attempt _ within before
                (λ t. let over = leb→le _ _ full in omega (arith, over, within)) (rw h refl),
          )
          | inr room ↦ rw room (rest (ground (arith, room)) (rw h refl) (transient m))
        ]
    after_call-Decided (raised e) h =
        (attempt, decided max_attempts attempt _ within before (rw h λ t. absurd cc) (rw h refl))

  one_more :
      (attempt : ℕ)
      → ((j : ℕ) → j < attempt → is_transient (fn j) ≡ true)
      → is_transient (fn attempt) ≡ true
      → (j : ℕ) → j < suc attempt
      → is_transient (fn j) ≡ true
  one_more attempt before now j h = elim (Bool-cases (nat_beq j attempt)) [
    | inl same ↦ subst (λ i. is_transient (fn i) ≡ true) (sym ((nat_beq_iff j attempt).0 same)) now
    | inr differ ↦ before j (ground (arith, h, differ))
  ]

  attempts-Decided :
      (max_attempts left attempt : ℕ) (last_exc : Option ModelError)
      → suc left + attempt ≡ max_attempts
      → ((j : ℕ) → j < attempt → is_transient (fn j) ≡ true)
      → Decided max_attempts (
          attempts fn latency with_invocation max_attempts
            (suc left)
            attempt
            last_exc
            (up_to attempt))
  unfolding attempts
  attempts-Decided max_attempts zero attempt last_exc total before =
      after_call-Decided max_attempts attempt (omega (arith, total)) before _
        (λ more. absurd (omega (arith, total, more))) (fn attempt) refl
  attempts-Decided max_attempts (suc left) attempt last_exc total before =
      after_call-Decided max_attempts attempt (omega (arith, total)) before _
        (λ more now e.
          attempts-Decided max_attempts left (suc attempt) (some e) (omega (arith, total))
            (one_more attempt before now))
        (fn attempt) refl

  -- Whichever the calls of the provider are, one of them decides: it is among the first
  -- max(1, max_retries + 1), every call before it raised a transient error, and it returned, raised
  -- another error, or was the last that is allowed. Its result is the result, with its own number as
  -- the number of retries; no call is made after it, and a sleep of 1, 2, … times the backoff lies
  -- between two calls.
  pub call_with_retries-Decides :
      (max_retries : ℕ)
      → (k : ℕ) × Decides
          (max 1 (max_retries + 1))
          k
          (call_with_retries fn latency with_invocation max_retries)
  unfolding call_with_retries
  call_with_retries-Decides max_retries = rw (one_at_least max_retries) (
      attempts-Decided (suc max_retries) max_retries 0 none (omega arith)
        (λ j h. absurd (omega (arith, h))))
