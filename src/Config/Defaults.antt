-- ===== src/Config/Defaults.antt =====
-- The default values of the configuration (crates/common/src/config.rs, constants.rs).
use modelsentry.Base.{
  [], refl, inl, true, false, none, some, arith, Option, String, ℕ, ◌≡◌, ◌↔◌, ◌≢◌,
}
use modelsentry.Config.{
  ServerConfig, SchedulerConfig, SequentialConfig, SmtpConfig, SmtpSecurity, OpenAiConfig,
  AnthropicConfig, OllamaConfig, AzureConfig, ProvidersConfig, AlertsConfig, AuthConfig, AppConfig,
  validate, FloatOps,
}
use modelsentry.Config.Valid.{validate_accepts_iff}
use modelsentry.Provider.{max_tokens_default}
use modelsentry.Common.Error.{ok}

-- A key that the file leaves out.
abbrev pub or_default : {A : Type 0} → A → Option A → A
or_default d none = d
or_default d (some a) = a

abbrev pub server_config : String → ℕ → Option ℕ → Option String → ServerConfig
server_config host port timeout_secs cors_origin = record {
  host = host;
  port = port;
  timeout_secs = or_default 30 timeout_secs;
  cors_origin = or_default "http://localhost:5173" cors_origin;
}

abbrev pub scheduler_config : ℕ → Option ℕ → SchedulerConfig
scheduler_config interval max_concurrent_runs = record {
  default_interval_minutes = interval;
  max_concurrent_runs = or_default 8 max_concurrent_runs;
}

abbrev pub smtp_config :
    String → Option ℕ → String → Option String → Option SmtpSecurity → SmtpConfig
smtp_config host port from username security = record {
  host = host;
  port = or_default 587 port;
  from = from;
  username = username;
  security = or_default SmtpSecurity.start_tls security;
}

abbrev pub openai_default : OpenAiConfig
openai_default = record {
  model = "gpt-5.4";
  embedding_model = "text-embedding-3-small";
  embedding_dim = 1536;
  base_url = "https://api.openai.com";
  max_tokens = max_tokens_default;
}

abbrev pub anthropic_default : AnthropicConfig
anthropic_default = record {
  model = "claude-sonnet-4-6";
  base_url = "https://api.anthropic.com";
  api_version = "2023-06-01";
  max_tokens = max_tokens_default;
}

abbrev pub ollama_default : OllamaConfig
ollama_default = record { model = "llama4"; base_url = "http://localhost:11434" }

abbrev pub azure_default : AzureConfig
azure_default = record {
  endpoint = "";
  embedding_deployment = none;
  embedding_dim = 1536;
  api_version = "preview";
  max_tokens = max_tokens_default;
}

abbrev pub providers_default : ProvidersConfig
providers_default = record {
  openai = openai_default;
  anthropic = anthropic_default;
  ollama = ollama_default;
  azure = azure_default;
}

abbrev pub auth_default : AuthConfig
auth_default = record { enabled = false; api_keys = [] }

module _ {F : Type 0} (o : FloatOps F) where
  abbrev pub sequential_config : Option ℕ → Option F → SequentialConfig F
  sequential_config window_secs alpha_budget = record {
    window_secs = or_default 2_592_000 window_secs;
    alpha_budget = or_default (o.decimal 5 2) alpha_budget;
  }

  abbrev pub alerts_default : AlertsConfig F
  alerts_default = record {
    target_fpr = o.decimal 1 2;
    allow_private_webhook_targets = false;
    baseline_capture_runs = 20;
    permutations = 200;
    samples_per_prompt = 3;
    cooldown_secs = 3600;
    sequential = none;
    smtp = none;
  }

  -- A file with the required keys and an empty section of alerts.
  abbrev pub least_config : String → ℕ → ℕ → String → String → AppConfig F
  least_config host port interval vault_path database_path = record {
    server = server_config host port none none;
    vault_path = vault_path;
    database_path = database_path;
    scheduler = scheduler_config interval none;
    alerts = alerts_default;
    providers = providers_default;
    auth = auth_default;
  }

  -- With the defaults, only the port can be invalid. This is with a default rate, 0.01, that lies
  -- between 0 and 1.
  pub least_config-validate_iff :
      (host : String) (port interval : ℕ) (vault_path database_path : String)
      → o.lt (o.of_nat 0) (o.decimal 1 2) ≡ true
      → o.lt (o.decimal 1 2) (o.of_nat 1) ≡ true
      → (validate o (least_config host port interval vault_path database_path) ≡ ok tt) ↔ (port ≢ 0)
  least_config-validate_iff host port interval vault_path database_path above below =
      let iff = validate_accepts_iff o (least_config host port interval vault_path database_path) in
      (
        λ h. (iff.0 h).port,
        λ p. iff.1 (record {
          port = p;
          rate_above = above;
          rate_below = below;
          runs = omega arith;
          keys = inl refl;
        }),
      )
