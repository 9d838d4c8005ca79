-- ===== src/StepExecutor/Digest.antt =====
-- What the simulated steps of services/orchestrator/app/runtime/step_executor.py share: the keys
-- that they read from the input, and the digests.
use agentic_ai_platform.Prelude.{
  ℕ, ◌-◌, ◌*◌, ◌/◌, ◌%◌, ◌^◌, true, Option, some, String, [], ◌∷◌, ◌==◌, nat_eq, if◌then◌else◌,
}
use agentic_ai_platform.Value.{bool, str, object, Fields, dict, get, get_or, truthy}
use agentic_ai_platform.Schemas.{ValidationOutcome}
use agentic_ai_platform.Env.{Env, text, hex}

-- What a simulated step produces: its output, the bits of its confidence, and its validation.
pub record Simulated : Type 0 where
  pub output : Fields
  pub confidence : ℕ
  pub validation_outcome : Option ValidationOutcome
  pub evidence : Fields
  pub confidence_detail : Fields

unfoldable pub outcome : String → Fields → Option ValidationOutcome
outcome status details = some (record { status = status; details = details })

-- `[a, b, c][i]` for an index below 3
abbrev pub pick : ℕ → String → String → String → String
pick i a b c = if i == 0 then a else if i == 1 then b else c

abbrev pub simulated_payload : String → String → String → Fields
simulated_payload step_name key value =
    dict (("step_name", str step_name) ∷ (key, str value) ∷ ("simulated", bool true) ∷ [])

module _ (env : Env) where
  -- `hexdigest()[:8]` and `hexdigest()[:16]` of a text's SHA-256
  unfoldable pub seed_of : String → String
  unfolding hex
  seed_of key = hex 8 (env.sha256 key / 2 ^ 224)

  unfoldable pub digest_of : Fields → String
  unfolding hex
  digest_of payload = hex 16 (env.sha256 (env.json_dumps (object payload)) / 2 ^ 192)

  -- `int(seed[0:2], 16)`, `int(seed[2:4], 16)` and `int(seed[4:6], 16)`
  unfoldable pub seed_byte : ℕ → String → ℕ
  seed_byte i key = env.sha256 key / 2 ^ (248 - 8 * i) % 256

  unfoldable pub incident_key_of : Fields → String
  unfolding text get_or
  incident_key_of ex_in = text env (get_or "incident_id" (get_or "id" (str "unknown") ex_in) ex_in)

  -- `ex_in.get("scope_id") or ex_in.get("billing_scope_id") or ex_in.get("id", "unknown")`
  unfoldable pub scope_key_of : Fields → String
  unfolding text get_or get truthy
  scope_key_of ex_in = text env (
      if truthy (get "scope_id" ex_in)
      then get "scope_id" ex_in
      else if truthy (get "billing_scope_id" ex_in)
      then get "billing_scope_id" ex_in
      else get_or "id" (str "unknown") ex_in)
