-- ===== src/Common/Models.antt =====
-- The domain models (crates/common/src/models.rs, identifiers from types.rs). `F` is the type of
-- 32-bit floats. An identifier is the 128-bit number that a UUID is.
use modelsentry.Base.{
  ℕ, Bool, not, ◌&&◌, Option, none, some, List, [], ◌∷◌, ◌++◌, String, length, is_empty, any, find,
  leb, ◌==◌, ==_iff,
}
use modelsentry.Base.Assoc.{Keys}
use modelsentry.Common.Time.{Time}

abbrev pub Uuid : Type 0
Uuid = ℕ

abbrev pub uuid_keys : Keys Uuid
uuid_keys = record { same = λ a b. a == b; same_iff = ==_iff }

-- A secret, without the redaction of its printed forms.
pub record ApiKey : Type 0 where
  pub secret : String

pub data ProviderSpec : Type 0 where
  open_ai anthropic : String → ProviderSpec
  ollama : String → String → ProviderSpec
  azure : String → Option String → ProviderSpec

-- The keys of the vault, from constants.rs.
abbrev pub openai_id : String
openai_id = "openai"

abbrev pub anthropic_id : String
anthropic_id = "anthropic"

abbrev pub ollama_id : String
ollama_id = "ollama"

abbrev pub azure_id : String
azure_id = "azure"

unfoldable pub provider_id : ProviderSpec → String
provider_id (ProviderSpec.open_ai model) = openai_id
provider_id (ProviderSpec.anthropic model) = anthropic_id
provider_id (ProviderSpec.ollama model base_url) = ollama_id
provider_id (ProviderSpec.azure chat embedding) = azure_id

unfoldable pub model_of : ProviderSpec → String
model_of (ProviderSpec.open_ai model) = model
model_of (ProviderSpec.anthropic model) = model
model_of (ProviderSpec.ollama model base_url) = model
model_of (ProviderSpec.azure chat embedding) = chat

pub data ProbeSchedule : Type 0 where
  cron : String → ProbeSchedule
  every_minutes : ℕ → ProbeSchedule

pub record ProbePrompt : Type 0 where
  pub id : Uuid
  pub text : String
  pub expected_contains : Option String
  pub expected_not_contains : Option String

pub record Probe : Type 0 where
  pub id : Uuid
  pub name : String
  pub provider : ProviderSpec
  pub prompts : List ProbePrompt
  pub schedule : ProbeSchedule
  pub created_at : Time
  pub updated_at : Time

pub data RunStatus : Type 0 where
  success partial_failure failed : RunStatus

pub data DriftLevel : Type 0 where
  no_drift low medium high critical : DriftLevel

-- The derived order of the levels.
abbrev pub rank : DriftLevel → ℕ
rank no_drift = 0
rank low = 1
rank medium = 2
rank high = 3
rank critical = 4

pub data AlertChannel : Type 0 where
  webhook slack email : String → AlertChannel

abbrev pub baseline_schema_version : ℕ
baseline_schema_version = 2

module _ (F : Type 0) where
  -- One embedding per sample, a list of samples per prompt.
  abbrev pub Cloud : Type 0
  Cloud = List (List F)

  pub record BaselineSnapshot : Type 0 where
    pub id : Uuid
    pub probe_id : Uuid
    pub captured_at : Time
    pub schema_version : ℕ
    pub embedding_model : String
    pub model_version : Option String
    pub prompt_clouds : List (List (List F))
    pub n_runs : ℕ
    pub run_id : Uuid

  pub record PromptDrift : Type 0 where
    pub prompt_index : ℕ
    pub p_value : F
    pub n_baseline : ℕ
    pub low_variance_baseline : Bool

  pub record DriftReport : Type 0 where
    pub run_id : Uuid
    pub baseline_id : Uuid
    pub combined_p_value : F
    pub statistic : F
    pub effect_size : F
    pub target_fpr : F
    pub method : String
    pub per_prompt : List PromptDrift
    pub drift_level : DriftLevel
    pub model_version_changed : Bool
    pub interpretation : String
    pub computed_at : Time

  pub record ProbeRun : Type 0 where
    pub id : Uuid
    pub probe_id : Uuid
    pub started_at : Time
    pub finished_at : Time
    pub embeddings : List (List (List F))
    pub completions : List String
    pub model_version : Option String
    pub drift_report : Option DriftReport
    pub status : RunStatus

  pub record AlertRule : Type 0 where
    pub id : Uuid
    pub probe_id : Uuid
    pub target_fpr : F
    pub channels : List AlertChannel
    pub active : Bool

  pub record AlertEvent : Type 0 where
    pub id : Uuid
    pub rule_id : Uuid
    pub drift_report : DriftReport
    pub fired_at : Time
    pub acknowledged : Bool

-- The samples of every prompt, in order (`iter().flatten()`).
abbrev pub flatten {ℓ} : {A : Type ℓ} → List (List A) → List A
flatten [] = []
flatten (xs ∷ xss) = xs ++ flatten xss

module _ {F : Type 0} where
  abbrev pub is_nonempty : List F → Bool
  is_nonempty v = not (is_empty v)

  -- The dimension of the first non-empty sample, or 0.
  abbrev pub dim_of : List (List (List F)) → ℕ
  dim_of clouds = elim (find is_nonempty (flatten clouds)) [ none ↦ 0 | some v ↦ length v ]

  unfoldable pub embedding_dim : BaselineSnapshot F → ℕ
  embedding_dim b = dim_of b.prompt_clouds

  unfoldable pub is_current : BaselineSnapshot F → Bool
  is_current b =
      leb baseline_schema_version b.schema_version && any (λ c. not (is_empty c)) b.prompt_clouds
