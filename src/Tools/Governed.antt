-- ===== src/Tools/Governed.antt =====
-- What `execute` does for each request: when a handler may run at all, and how often.
use agentic_ai_platform.Prelude.{
  ℕ, ◌+◌, ◌≤◌, ◌≡◌, refl, ◌≢◌, ◌⊎◌, inl, inr, true, false, none, some, String, List, [], ◌∙◌,
  Bool-cases, Option-cases, arith,
}
use agentic_ai_platform.Value.{Fields}
use agentic_ai_platform.Schemas.{
  RegisteredTool, ToolInvokeRequest, ToolCall, ToolCallStatus, ToolSideEffectClass,
}
use agentic_ai_platform.Tools.{
  Handler, Registry, find_tool, build_default_registry, Effect, Surroundings, has_incident, ended,
  stopped, attempts, run_tool, execute,
}
use agentic_ai_platform.Tools.Retries.{runs, runs-attempts-le, Answered, attempts-Answered}

module _ (tcid now : ℕ) (request : ToolInvokeRequest) (registry : Registry) (w : Surroundings) where
  abbrev result : ToolCall × List Effect
  result = execute tcid now request registry w

  abbrev Barred : Type 0
  Barred =
      (request.policy_denied ≡ true)
      ⊎ (find_tool request.tool_name registry ≡ none)
      ⊎ (has_incident request.input ≡ false)

  execute-denied :
      request.policy_denied ≡ true
      → (result.1 ≡ []) × (result.0.status ≡ ToolCallStatus.rejected_by_policy)
  unfolding execute
  execute-denied h = rw h (refl, refl)

  execute-unknown :
      request.policy_denied ≡ false
      → find_tool request.tool_name registry ≡ none
      → (result.1 ≡ []) × (result.0.status ≡ ToolCallStatus.failure)
  unfolding execute
  execute-unknown d h = rw (d, h) (refl, refl)

  module _ (meta : RegisteredTool) (handler : Handler) where
    execute-registered :
        request.policy_denied ≡ false
        → find_tool request.tool_name registry ≡ some (meta, handler)
        → result ≡ run_tool tcid now request meta handler w
    unfolding execute
    execute-registered d h = rw (d, h, execute)

    run_tool-no_incident :
        has_incident request.input ≡ false
        → ((run_tool tcid now request meta handler w).1 ≡ [])
          × ((run_tool tcid now request meta handler w).0.status ≡ ToolCallStatus.failure)
    unfolding run_tool stopped
    run_tool-no_incident h = elim (Bool-cases (w.cancelled 0)) [
      | inl stop ↦ rw stop (refl, refl)
      | inr go ↦ rw (go, h) (refl, refl)
    ]

    run_tool-loops :
        (runs (run_tool tcid now request meta handler w).1 ≤ meta.retry_policy.max_retries + 1)
        × ((run_tool tcid now request meta handler w).0.status ≡ ToolCallStatus.success
            → run_tool tcid now request meta handler w
              ≡ attempts tcid now request meta handler w (meta.retry_policy.max_retries + 1) 0 none)
    unfolding run_tool stopped ended
    run_tool-loops = elim (Bool-cases (w.cancelled 0)) [
      | inl stop ↦ rw stop (omega arith, λ h. cc)
      | inr go ↦ elim (Bool-cases (has_incident request.input)) [
        | inr bare ↦ rw (go, bare) (omega arith, λ h. cc)
        | inl fits ↦
            rw (go, fits)
              (
                runs-attempts-le tcid now request meta handler w (meta.retry_policy.max_retries + 1)
                    0 none,
                λ _. refl,
              )
      ]
    ]

  -- A denied request, one for a tool that is not registered, and one whose input names no incident
  -- runs no handler and does not succeed.
  pub execute-Barred : Barred → (result.1 ≡ []) × (result.0.status ≢ ToolCallStatus.success)
  execute-Barred b = elim (Bool-cases request.policy_denied) [
    | inl denied ↦ let (e, s) = execute-denied denied in (e, λ h. cc)
    | inr open_ ↦ elim (Option-cases (find_tool request.tool_name registry)) [
      | inl unknown ↦ let (e, s) = execute-unknown open_ unknown in (e, λ h. cc)
      | inr ((meta, handler), found) ↦ elim b [
        | inl denied ↦ absurd (cc)
        | inr (inl unknown) ↦ absurd (cc)
        | inr (inr bare) ↦
            let (e, s) = run_tool-no_incident meta handler bare in
            rw (execute-registered meta handler open_ found) (e, λ h. cc)
      ]
    ]
  ]

  -- A handler runs at most once more than its tool's policy allows retries.
  pub runs-execute-le :
      (meta : RegisteredTool) (handler : Handler)
      → find_tool request.tool_name registry ≡ some (meta, handler)
      → runs result.1 ≤ meta.retry_policy.max_retries + 1
  runs-execute-le meta handler found = elim (Bool-cases request.policy_denied) [
    | inl denied ↦ rw ((execute-denied denied).0) (omega arith)
    | inr open_ ↦ rw (execute-registered meta handler open_ found) ((run_tool-loops meta handler).0)
  ]

  -- A call that succeeds has the dictionary that its last run returned, marked with the number of
  -- the runs before it, each of which failed transiently.
  pub execute-Answered :
      (meta : RegisteredTool) (handler : Handler)
      → find_tool request.tool_name registry ≡ some (meta, handler)
      → result.0.status ≡ ToolCallStatus.success
      → (n : ℕ) × (out : Fields) × Answered tcid now request meta handler w 0 result n out
  execute-Answered meta handler found ok = elim (Bool-cases request.policy_denied) [
    | inl denied ↦ absurd (let (e, s) = execute-denied denied in cc)
    | inr open_ ↦
        let same = execute-registered meta handler open_ found in
        let loops = (run_tool-loops meta handler).1 (rw same at ok) in
        let (n, out, a) =
          attempts-Answered tcid now request meta handler w (meta.retry_policy.max_retries + 1) 0
            none (rw (same ∙ loops) at ok) in
        (n, out, rw (same ∙ loops) a)
  ]

-- In the default registry no tool that changes state is retried.
default_mutator-no_retry :
    (name : String) (meta : RegisteredTool) (handler : Handler)
    → find_tool name build_default_registry ≡ some (meta, handler)
    → meta.side_effect_class ≡ ToolSideEffectClass.state_changing
    → meta.retry_policy.max_retries ≡ 0
unfolding find_tool build_default_registry
default_mutator-no_retry name meta handler h s = ground arith

-- With the default registry a tool that changes state runs at most once for each request.
pub runs-execute-mutator :
    (tcid now : ℕ) (request : ToolInvokeRequest) (w : Surroundings) (meta : RegisteredTool)
    (handler : Handler)
    → find_tool request.tool_name build_default_registry ≡ some (meta, handler)
    → meta.side_effect_class ≡ ToolSideEffectClass.state_changing
    → runs (execute tcid now request build_default_registry w).1 ≤ 1
runs-execute-mutator tcid now request w meta handler found mutates = omega (
  arith,
  runs-execute-le tcid now request build_default_registry w meta handler found,
  default_mutator-no_retry request.tool_name meta handler found mutates,
)
