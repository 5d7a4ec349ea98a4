-- ===== src/Provider/Factory.antt =====
-- The resolution of a probe's provider (crates/daemon/src/provider_factory.rs): the specification of
-- the probe, the configuration, and the key in the vault make an adapter. `Servers` is what answers
-- the requests of each kind of adapter. The shared HTTP client holds no state that is read here.
pub mod Batches
pub mod Built
pub mod Requests
pub mod Versions
use Prim.Native.String.{◌++◌ as append_str}
use modelsentry.Base.{List, [], ◌∷◌, Option, none, some, String}
use modelsentry.Common.Error.{Result, ok, ◌>>=◌, ok_or}
use modelsentry.Common.Models.{
  ApiKey, ProviderSpec, open_ai, anthropic, ollama, azure, openai_id, anthropic_id, azure_id,
  provider_id,
}
use modelsentry.Config.{ProvidersConfig, OpenAiConfig, AnthropicConfig, AzureConfig}
use modelsentry.Float.{FloatOps}
use modelsentry.Provider.{LlmProvider, config_error}
use modelsentry.Provider.Chat.{ChatServer}
use modelsentry.Provider.OpenAi
use modelsentry.Provider.OpenAi.{OpenAiProvider}
use modelsentry.Provider.Azure
use modelsentry.Provider.Azure.{AzureOpenAiProvider}
use modelsentry.Provider.Anthropic
use modelsentry.Provider.Anthropic.{AnthropicProvider, MessagesServer}
use modelsentry.Provider.Ollama
use modelsentry.Provider.Ollama.{OllamaProvider, OllamaServer}
use modelsentry.Vault.{Codec, Vault, Files, get_key}
use modelsentry.Base.Text.{concat}

pub record Servers (F : Type 0) : Type 0 where
  pub open_ai : ChatServer F
  pub azure : ChatServer F
  pub anthropic : MessagesServer
  pub ollama : OllamaServer F

abbrev pub missing_key : String → String
missing_key id = concat (
    "no API key configured for provider '" ∷ id ∷ "' — store one via PUT /api/vault/keys/" ∷ id
    ∷ [])

abbrev pub or_default : Option String → Option String → Option String
or_default none fallback = fallback
or_default (some own) fallback = some own

-- The adapters with the configuration's settings.
abbrev pub openai_adapter : OpenAiConfig → ApiKey → String → Result OpenAiProvider
openai_adapter cfg key model = do
  p ← OpenAi.new key model
  ok (
      OpenAi.with_max_tokens
        (OpenAi.with_embedding_model (OpenAi.with_base_url p cfg.base_url) cfg.embedding_model
          cfg.embedding_dim)
        cfg.max_tokens)

abbrev pub anthropic_adapter : AnthropicConfig → ApiKey → String → Result AnthropicProvider
anthropic_adapter cfg key model = do
  p ← Anthropic.new key model
  ok (Anthropic.with_max_tokens (Anthropic.with_base_url p cfg.base_url) cfg.max_tokens)

-- The deployment of the probe for embeddings wins over the configured one.
abbrev pub azure_adapter :
    AzureConfig → ApiKey → String → Option String → Result AzureOpenAiProvider
azure_adapter cfg key chat_deployment embedding_deployment = do
  p ← Azure.new key cfg.endpoint chat_deployment cfg.api_version
  ok (
      Azure.with_max_tokens
        (Azure.with_embedding p (or_default embedding_deployment cfg.embedding_deployment)
          cfg.embedding_dim)
        cfg.max_tokens)

module _ {B : Type 0} (c : Codec B) (vault : Vault) (files : Files B) where
  unfoldable pub require_key : String → Result ApiKey
  require_key id = do found ← get_key c vault files id; ok_or found (config_error (missing_key id))

  module _ {F : Type 0} (o : FloatOps F) (servers : Servers F) (config : ProvidersConfig) where
    unfoldable pub build_provider : ProviderSpec → Result (LlmProvider F)
    unfolding provider_id
    build_provider (ProviderSpec.open_ai model) = do
      key ← require_key (provider_id (ProviderSpec.open_ai model))
      p ← openai_adapter config.openai key model
      ok (OpenAi.provider_of o servers.open_ai p)
    build_provider (ProviderSpec.anthropic model) = do
      key ← require_key (provider_id (ProviderSpec.anthropic model))
      p ← anthropic_adapter config.anthropic key model
      ok (Anthropic.provider_of servers.anthropic F p)
    build_provider (ProviderSpec.ollama model base_url) = do
      p ← Ollama.new model base_url
      ok (Ollama.provider_of o servers.ollama p)
    build_provider (ProviderSpec.azure chat_deployment embedding_deployment) = do
      key ← require_key (provider_id (ProviderSpec.azure chat_deployment embedding_deployment))
      p ← azure_adapter config.azure key chat_deployment embedding_deployment
      ok (Azure.provider_of o servers.azure p)
