-- ===== src/Tools/Retries.antt =====
-- The retry loop: how often a handler runs, and which of its answers is the result.
use agentic_ai_platform.Prelude.{
  ℕ, zero, suc, ◌+◌, ◌*◌, ◌≤◌, ◌<◌, ◌≡◌, refl, ◌≢◌, ◌⊎◌, inl, inr, true, false, Option, none, some,
  subst, String, List, [], ◌∷◌, Bool-cases, arith, not, leb, ◌||◌,
}
use agentic_ai_platform.Value.{Value, object, Fields}
use agentic_ai_platform.Schemas.{RegisteredTool, ToolInvokeRequest, ToolCall, ToolCallStatus}
use agentic_ai_platform.Tools.{
  Handler, Failure, validation, Attempt, returned, raised, Effect, ran, slept, done, retry,
  Surroundings, is_transient, succeeded, turn, attempts, elapsed_ms, exhausted, invalid, stopped,
}

-- How often the handler ran.
abbrev pub runs : List Effect → ℕ
runs [] = 0
runs (ran ∷ es) = suc (runs es)
runs (slept _ ∷ es) = runs es

module _ (tcid now : ℕ) (request : ToolInvokeRequest) (meta : RegisteredTool) (handler : Handler)
    (w : Surroundings) where
  abbrev pub answer : ℕ → Attempt
  answer = w.attempt handler request.input

  -- The k-th run failed in a way that is tried again.
  abbrev pub FailsTransiently : ℕ → Type 0
  FailsTransiently k =
      (f : Failure) × (m : String) × (answer k ≡ raised f m) × (is_transient f ≡ true)

  abbrev TurnCases : ℕ → Type 0
  TurnCases k =
      ((out : Fields) × (answer k ≡ returned (object out))
        × (turn tcid now request meta handler w k
            ≡ done (succeeded tcid now request meta handler w out k) (ran ∷ [])))
      ⊎ ((call : ToolCall) × (es : List Effect) × (turn tcid now request meta handler w k
            ≡ done call es)
          × (call.status ≢ ToolCallStatus.success)
          × (runs es ≤ 1))
      ⊎ ((f : Failure) × (m : String) × (turn tcid now request meta handler w k ≡ retry f m)
          × (answer k ≡ raised f m)
          × (is_transient f ≡ true)
          × (k + 1 < meta.retry_policy.max_retries + 1))

  abbrev stop_call : ℕ → ToolCall
  stop_call = stopped tcid now request meta handler w

  abbrev invalid_call : String → ℕ → ToolCall
  invalid_call = invalid tcid now request meta handler w

  abbrev exhausted_call : Option (Failure × String) → ToolCall
  exhausted_call = exhausted tcid now request meta handler w

  pub stopped_fails : (ms : ℕ) → (stop_call ms).status ≢ ToolCallStatus.success
  unfolding stopped
  stopped_fails ms h = cc

  invalid_fails : (m : String) (k : ℕ) → (invalid_call m k).status ≢ ToolCallStatus.success
  unfolding invalid
  invalid_fails m k h = cc

  exhausted_fails :
      (last : Option (Failure × String)) → (exhausted_call last).status ≢ ToolCallStatus.success
  unfolding exhausted
  exhausted_fails none h = cc
  exhausted_fails (some (f, m)) h = ground arith

  turn-returned :
      (k : ℕ) (v : Value) → w.cancelled (suc k) ≡ false → answer k ≡ returned v → TurnCases k
  unfolding turn
  turn-returned k (object out) c e = inl (out, e, rw (c, e))
  turn-returned k v c e = inr (
      inl (
        invalid_call "tool handler must return dict" k,
        ran ∷ [],
        rw (c, e),
        invalid_fails "tool handler must return dict" k,
        omega arith,
      ))

  raised_last :
      (k : ℕ) (f : Failure) (m : String)
      → turn tcid now request meta handler w k ≡ done (exhausted_call (some (f, m))) (ran ∷ [])
      → TurnCases k
  raised_last k f m e =
      inr (
        inl (exhausted_call (some (f, m)), ran ∷ [], e, exhausted_fails (some (f, m)), omega arith))

  turn-raised :
      (k : ℕ) (f : Failure) (m : String)
      → w.cancelled (suc k) ≡ false
      → answer k ≡ raised f m
      → TurnCases k
  unfolding turn
  turn-raised k validation m c e =
      inr (inl (invalid_call m k, ran ∷ [], rw (c, e), invalid_fails m k, omega arith))
  turn-raised k f m c e =
      elim (Bool-cases (not (is_transient f) || leb (meta.retry_policy.max_retries + 1) (k + 1))) [
        | inl last ↦ raised_last k f m (rw (c, e) (cc))
        | inr more ↦ inr (inr (f, m, rw (c, e) (cc more), e, ground arith, ground arith))
      ]

  turn_cases : (k : ℕ) → TurnCases k
  unfolding turn
  turn_cases k = elim (Bool-cases (w.cancelled (suc k))) [
    | inl stop ↦
        let ms = elapsed_ms w in
        inr (inl (stop_call ms, [], rw stop, stopped_fails ms, omega arith))
    | inr go ↦ answered (answer k) refl go
  ]
    where
      answered : (a : Attempt) → answer k ≡ a → w.cancelled (suc k) ≡ false → TurnCases k
      answered (returned v) e c = turn-returned k v c e
      answered (raised f m) e c = turn-raised k f m c e

  abbrev pub loop : ℕ → ℕ → Option (Failure × String) → ToolCall × List Effect
  loop = attempts tcid now request meta handler w

  loop-done :
      (left k : ℕ) (last : Option (Failure × String)) (call : ToolCall) (es : List Effect)
      → turn tcid now request meta handler w k ≡ done call es
      → loop (suc left) k last ≡ (call, es)
  unfolding attempts
  loop-done left k last call es e = rw (e, attempts)

  abbrev again_after : ℕ → ToolCall × List Effect → ToolCall × List Effect
  again_after k rest = (rest.0, ran ∷ slept (meta.retry_policy.backoff_ms * (k + 1)) ∷ rest.1)

  loop-retry :
      (left k : ℕ) (last : Option (Failure × String)) (f : Failure) (m : String)
      → turn tcid now request meta handler w k ≡ retry f m
      → loop (suc left) k last ≡ again_after k (loop left (suc k) (some (f, m)))
  unfolding attempts
  loop-retry left k last f m e = rw (e, attempts)

  pub runs-attempts-le :
      (left k : ℕ) (last : Option (Failure × String)) → runs (loop left k last).1 ≤ left
  unfolding attempts
  runs-attempts-le zero k last = omega arith
  runs-attempts-le (suc left) k last = elim (turn_cases k) [
    | inl (out, _, e) ↦ rw (loop-done left k last _ _ e) (omega arith)
    | inr (inl (call, es, e, _, few)) ↦ rw (loop-done left k last call es e) (omega arith)
    | inr (inr (f, m, e, _, _, _)) ↦
        rw (loop-retry left k last f m e)
          (omega (arith, runs-attempts-le left (suc k) (some (f, m))))
  ]

  -- Run `n` is the answer of a loop that began at run `k`: it returned the dictionary `out`, the
  -- runs before it failed transiently, and no run came after it.
  pub record Answered (k : ℕ) (result : ToolCall × List Effect) (n : ℕ) (out : Fields)
      : Type 0 where
    pub from : k ≤ n
    pub gave : answer n ≡ returned (object out)
    pub before : (j : ℕ) → k ≤ j → j < n → FailsTransiently j
    pub call : result.0 ≡ succeeded tcid now request meta handler w out n
    pub count : k + runs result.1 ≡ n + 1

  at_or_after :
      (k j : ℕ) → k ≤ j → FailsTransiently k → (suc k ≤ j → FailsTransiently j) → FailsTransiently j
  at_or_after k j h now_fails later_fails = elim (Bool-cases (leb j k)) [
    | inl same ↦ subst FailsTransiently (ground arith) now_fails
    | inr after ↦ later_fails (ground arith)
  ]

  Answered-again :
      (k : ℕ) (f : Failure) (m : String) (call : ToolCall) (es : List Effect) (ms n : ℕ)
      (out : Fields)
      → answer k ≡ raised f m
      → is_transient f ≡ true
      → Answered (suc k) (call, es) n out
      → Answered k (call, ran ∷ slept ms ∷ es) n out
  Answered-again k f m call es ms n out e t a = record {
    from = omega arith;
    gave = a.gave;
    before = λ j h l. at_or_after k j h (f, m, e, t) (λ h'. a.before j h' l);
    call = a.call;
    count = omega (arith, a.count);
  }

  pub attempts-Answered :
      (left k : ℕ) (last : Option (Failure × String))
      → (loop left k last).0.status ≡ ToolCallStatus.success
      → (n : ℕ) × (out : Fields) × Answered k (loop left k last) n out
  unfolding attempts
  attempts-Answered zero k last h = absurd (exhausted_fails last h)
  attempts-Answered (suc left) k last h = elim (turn_cases k) [
    | inl (out, answered, e) ↦ (
      k,
      out,
      rw (loop-done left k last _ _ e) (record {
        from = omega arith;
        gave = answered;
        before = λ j a b. absurd (omega arith);
        call = refl;
        count = omega arith;
      }),
    )
    | inr (inl (call, es, e, failed, _)) ↦
        absurd (failed (rw (loop-done left k last call es e) at h))
    | inr (inr (f, m, e, raised_so, again, _)) ↦
        let (n, out, a) =
          attempts-Answered left (suc k) (some (f, m)) (rw (loop-retry left k last f m e) at h) in
        (
          n,
          out,
          rw (loop-retry left k last f m e) (Answered-again k f m _ _ _ n out raised_so again a),
        )
  ]
