-- ===== src/ModelRuntime/Config.antt =====
-- services/model-runtime/model_runtime/config.py: the configuration from the environment.
use agentic_ai_platform.Prelude.{
  ℕ, Bool, true, ◌||◌, Option, none, some, String, ◌==◌, string_eq, if◌then◌else◌,
}

pub data ProviderType : Type 0 where
  fake openai azure_openai : ProviderType

-- Seconds are the bits of floats.
pub record ModelRuntimeConfig : Type 0 where
  pub provider_type : ProviderType
  pub api_key : Option String
  pub base_url : Option String
  pub model_name : String
  pub azure_deployment : Option String
  pub azure_api_version : String
  pub timeout_seconds : ℕ
  pub max_retries : ℕ
  pub retry_backoff_seconds : ℕ

-- `a or b`: an empty text counts as missing.
unfoldable pub or_else : Option String → Option String → Option String
or_else none other = other
or_else (some s) other = if s == "" then other else some s

-- `not s`
abbrev pub is_missing : Option String → Bool
is_missing none = true
is_missing (some s) = s == ""

abbrev with_default : Option String → String → String
with_default none default = default
with_default (some s) default = s

unfoldable pub provider_of : String → ProviderType
provider_of raw =
    if raw == "openai" || raw == "openai_compatible"
    then openai
    else if raw == "azure" || raw == "azure_openai" || raw == "azure_openai_compatible"
    then azure_openai
    else fake

abbrev default_url : ProviderType → Option String → Option String
default_url openai url = if is_missing url then some "https://api.openai.com/v1" else url
default_url provider url = url

abbrev azure_url : ProviderType → Option String → Option String → Option String
azure_url azure_openai endpoint url = or_else endpoint url
azure_url provider endpoint url = url

-- `environ` is `os.environ.get`; `normal` is `s.strip().lower()`, and `float_of` and `int_of` read
-- the text of a number, `none` where they raise `ValueError`.
unfoldable pub load_config_from_env :
    (String → Option String)
    → (String → String)
    → (String → Option ℕ)
    → (String → Option ℕ)
    → Option ModelRuntimeConfig
load_config_from_env environ normal float_of int_of =
    let provider = provider_of (normal (with_default (environ "MODEL_PROVIDER") "fake")) in
    let key =
      or_else (or_else (environ "MODEL_API_KEY") (environ "OPENAI_API_KEY"))
        (environ "AZURE_OPENAI_API_KEY") in
    let base = or_else (environ "MODEL_BASE_URL") (environ "OPENAI_BASE_URL") in
    let url = azure_url provider (environ "AZURE_OPENAI_ENDPOINT") (default_url provider base) in
    elim (float_of (with_default (environ "MODEL_TIMEOUT_SECONDS") "30")) [
      | none ↦ none
      | some timeout ↦ elim (int_of (with_default (environ "MODEL_MAX_RETRIES") "2")) [
        | none ↦ none
        | some retries ↦
            elim (float_of (with_default (environ "MODEL_RETRY_BACKOFF_SECONDS") "0.5")) [
              | none ↦ none
              | some backoff ↦ some (record {
                provider_type = provider;
                api_key = key;
                base_url = url;
                model_name = with_default (environ "MODEL_NAME") "gpt-4o-mini";
                azure_deployment = environ "AZURE_OPENAI_DEPLOYMENT";
                azure_api_version =
                    with_default (environ "AZURE_OPENAI_API_VERSION") "2024-02-15-preview";
                timeout_seconds = timeout;
                max_retries = retries;
                retry_backoff_seconds = backoff;
              })
            ]
      ]
    ]
