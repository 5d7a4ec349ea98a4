-- ===== src/Config.antt =====
-- The configuration and its validation (crates/common/src/config.rs). Reading and decoding the file
-- is the library's. A 16-bit port is a number, a path is its text.
pub mod Valid
pub mod Defaults
use text.Mathlib.Text.{◌==◌ as str_eq}
use modelsentry.Base.{
  ℕ, Bool, true, false, not, ◌&&◌, ◌||◌, List, [], ◌∷◌, ◌++◌, Option, String, is_empty, ◌==◌,
  if◌then◌else◌,
}
use modelsentry.Common.Error.{
  ModelSentryError, Message, Result, ok, err, ◌>>=◌, ◌>>◌, fail_if, says,
}
use modelsentry.Float.{FloatOps}

pub record ServerConfig : Type 0 where
  pub host : String
  pub port : ℕ
  pub timeout_secs : ℕ
  pub cors_origin : String

pub record SchedulerConfig : Type 0 where
  pub default_interval_minutes : ℕ
  pub max_concurrent_runs : ℕ

pub record SequentialConfig (F : Type 0) : Type 0 where
  pub window_secs : ℕ
  pub alpha_budget : F

pub data SmtpSecurity : Type 0 where
  start_tls tls no_security : SmtpSecurity

pub record SmtpConfig : Type 0 where
  pub host : String
  pub port : ℕ
  pub from : String
  pub username : Option String
  pub security : SmtpSecurity

pub record OpenAiConfig : Type 0 where
  pub model : String
  pub embedding_model : String
  pub embedding_dim : ℕ
  pub base_url : String
  pub max_tokens : ℕ

pub record AnthropicConfig : Type 0 where
  pub model : String
  pub base_url : String
  pub api_version : String
  pub max_tokens : ℕ

pub record OllamaConfig : Type 0 where
  pub model : String
  pub base_url : String

pub record AzureConfig : Type 0 where
  pub endpoint : String
  pub embedding_deployment : Option String
  pub embedding_dim : ℕ
  pub api_version : String
  pub max_tokens : ℕ

pub record ProvidersConfig : Type 0 where
  pub openai : OpenAiConfig
  pub anthropic : AnthropicConfig
  pub ollama : OllamaConfig
  pub azure : AzureConfig

pub record AlertsConfig (F : Type 0) : Type 0 where
  pub target_fpr : F
  pub allow_private_webhook_targets : Bool
  pub baseline_capture_runs : ℕ
  pub permutations : ℕ
  pub samples_per_prompt : ℕ
  pub cooldown_secs : ℕ
  pub sequential : Option (SequentialConfig F)
  pub smtp : Option SmtpConfig

pub record AuthConfig : Type 0 where
  pub enabled : Bool
  pub api_keys : List String

pub record AppConfig (F : Type 0) : Type 0 where
  pub server : ServerConfig
  pub vault_path : String
  pub database_path : String
  pub scheduler : SchedulerConfig
  pub alerts : AlertsConfig F
  pub providers : ProvidersConfig
  pub auth : AuthConfig

abbrev config_error : String → ModelSentryError
config_error text = ModelSentryError.config (says text)

module _ {F : Type 0} (o : FloatOps F) where
  -- The open interval between 0 and 1.
  abbrev pub is_rate : F → Bool
  is_rate x = o.lt (o.of_nat 0) x && o.lt x (o.of_nat 1)

  unfoldable pub validate : AppConfig F → Result (Unit {0})
  validate config = do
    fail_if (config.server.port == 0) (config_error "server.port must not be 0")
    fail_if (not (is_rate config.alerts.target_fpr))
        (config_error "alerts.target_fpr must be in the open interval (0, 1)")
    fail_if (config.scheduler.max_concurrent_runs == 0)
        (config_error "scheduler.max_concurrent_runs must be at least 1")
    fail_if (config.auth.enabled && is_empty config.auth.api_keys)
        (config_error "auth.api_keys must contain at least one key when auth is enabled")
    ok tt

-- The warnings by what they are about.
pub data Warning : Type 0 where
  no_auth permissive_cors : Warning
  no_auth_exposed : String → Warning

abbrev pub is_loopback_host : String → Bool
is_loopback_host host = str_eq host "127.0.0.1" || str_eq host "localhost" || str_eq host "::1"

abbrev pub auth_warnings : Bool → String → List Warning
auth_warnings enabled host =
    if enabled
    then []
    else if is_loopback_host host
    then no_auth ∷ []
    else no_auth_exposed host ∷ []

abbrev pub cors_warnings : String → List Warning
cors_warnings origin = if str_eq origin "*" then permissive_cors ∷ [] else []

unfoldable pub security_warnings : {F : Type 0} → AppConfig F → List Warning
security_warnings config =
    auth_warnings config.auth.enabled config.server.host ++ cors_warnings config.server.cors_origin
