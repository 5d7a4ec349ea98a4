-- ===== src/Tests/Setup.antt =====
-- Tests of the configuration (crates/common/src/config.rs) and of the capture of a baseline
-- (crates/daemon/src/routes/baselines.rs).
use modelsentry.Base.{
  ◌≡◌, refl, ◌↔◌, List, [], ◌∷◌, Option, some, none, true, false, ◌==◌, if◌then◌else◌,
}
use modelsentry.Base.Int.{ℤ, pos}
use modelsentry.Common.Error.{ok}
use modelsentry.Common.Models.{Uuid, BaselineSnapshot}
use modelsentry.Common.Time.{hours}
use modelsentry.Float.Fixed.{fixed_ops}
use modelsentry.Baselines.{RunVectors, clouds_of}
use modelsentry.Config.{AppConfig, validate}
use modelsentry.Config.Valid.{IsValid, validate_accepts_iff}
use modelsentry.Tests.Data.{origin, east, far, clouds, run_embeddings}

abbrev two_runs : List (RunVectors ℤ)
two_runs = (21, run_embeddings) ∷ (20, clouds) ∷ []

-- The empty sample of a failed draw is left out.
failed_draw :
    clouds_of ((1, (origin ∷ [] ∷ []) ∷ []) ∷ (2, (east ∷ []) ∷ []) ∷ [])
    ≡ (origin ∷ east ∷ []) ∷ []
unfolding clouds_of
failed_draw = refl

abbrev embeddings_of_run : Uuid → Option (List (List (List ℤ)))
embeddings_of_run id = if id == 21 then some run_embeddings else none

abbrev captured : BaselineSnapshot ℤ
captured = record {
  id = 12;
  probe_id = 1;
  captured_at = hours 3;
  schema_version = 2;
  embedding_model = "embed-small";
  model_version = some "m-2";
  prompt_clouds = (far ∷ far ∷ []) ∷ (far ∷ []) ∷ [];
  n_runs = 1;
  run_id = 21;
}

abbrev pub app_config : AppConfig ℤ
app_config = record {
  server = record {
    host = "127.0.0.1";
    port = 7740;
    timeout_secs = 30;
    cors_origin = "http://localhost:5173";
  };
  vault_path = ".vault";
  database_path = ".db";
  scheduler = record { default_interval_minutes = 60; max_concurrent_runs = 8 };
  alerts = record {
    target_fpr = pos 50000;
    allow_private_webhook_targets = false;
    baseline_capture_runs = 5;
    permutations = 999;
    samples_per_prompt = 5;
    cooldown_secs = 3600;
    sequential = none;
    smtp = none;
  };
  providers = record {
    openai = record {
      model = "m-1";
      embedding_model = "embed-small";
      embedding_dim = 2;
      base_url = "https://api.example.com";
      max_tokens = 512;
    };
    anthropic = record {
      model = "m-a";
      base_url = "https://api.example.com";
      api_version = "1";
      max_tokens = 512;
    };
    ollama = record { model = "m-o"; base_url = "http://localhost:11434" };
    azure = record {
      endpoint = "";
      embedding_deployment = none;
      embedding_dim = 2;
      api_version = "1";
      max_tokens = 512;
    };
  };
  auth = record { enabled = true; api_keys = "key" ∷ [] };
}

validate_accepts_iff_example :
    (validate fixed_ops app_config ≡ ok tt) ↔ IsValid fixed_ops app_config
validate_accepts_iff_example = validate_accepts_iff fixed_ops app_config
