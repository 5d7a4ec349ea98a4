-- ===== src/Provider/Azure.antt =====
-- The adapter of the Azure OpenAI API (crates/core/src/provider/azure.rs).
use modelsentry.Base.{ℕ, false, List, [], ◌∷◌, Option, none, some, String}
use modelsentry.Base.Text.{is_blank, concat, trim_end_matches}
use modelsentry.Common.Error.{Result, ok, ◌>>=◌, ◌>>◌, fail_if, ok_or}
use modelsentry.Common.Models.{ApiKey, azure_id}
use modelsentry.Drift.Embedding.{Embedding}
use modelsentry.Float.{FloatOps}
use modelsentry.Provider.{
  LlmProvider, Request, Completion, max_tokens_default, config_error, provider_error,
}
use modelsentry.Provider.Chat.{
  ChatRequest, EmbedRequest, ChatServer, read_completion, read_embeddings,
}

pub record AzureOpenAiProvider : Type 0 where
  pub api_key : ApiKey
  pub request_timeout : ℕ
  pub endpoint : String
  pub chat_deployment : String
  pub embedding_deployment : Option String
  pub embed_dim : ℕ
  pub api_version : String
  pub max_tokens : ℕ

unfoldable pub new : ApiKey → String → String → String → Result AzureOpenAiProvider
new api_key raw_endpoint chat_deployment api_version = do
  let endpoint = trim_end_matches b'/' raw_endpoint
  fail_if (is_blank endpoint)
      (config_error "Azure endpoint must not be empty — set [providers.azure] endpoint")
  fail_if (is_blank chat_deployment) (config_error "Azure chat deployment must not be empty")
  fail_if (is_blank api_version) (config_error "Azure api_version must not be empty")
  ok (record {
    api_key = api_key;
    request_timeout = 30;
    endpoint = endpoint;
    chat_deployment = chat_deployment;
    embedding_deployment = none;
    embed_dim = 0;
    api_version = api_version;
    max_tokens = max_tokens_default;
  })

abbrev pub with_embedding : AzureOpenAiProvider → Option String → ℕ → AzureOpenAiProvider
with_embedding p deployment dim = record p { embedding_deployment = deployment; embed_dim = dim }

abbrev pub with_max_tokens : AzureOpenAiProvider → ℕ → AzureOpenAiProvider
with_max_tokens p max_tokens = record p { max_tokens = max_tokens }

abbrev pub v1_url : AzureOpenAiProvider → String → String
v1_url p operation =
    concat (p.endpoint ∷ "/openai/v1/" ∷ operation ∷ "?api-version=" ∷ p.api_version ∷ [])

abbrev pub key_header : ApiKey → String × String
key_header key = ("api-key", key.secret)

abbrev pub embed_request : AzureOpenAiProvider → String → List String → Request EmbedRequest
embed_request p deployment texts = record {
  url = v1_url p "embeddings";
  headers = key_header p.api_key ∷ [];
  timeout_secs = p.request_timeout;
  body = record { model = deployment; input = texts };
}

abbrev pub chat_request : AzureOpenAiProvider → String → String → Request ChatRequest
chat_request p nonce prompt = record {
  url = v1_url p "chat/completions";
  headers = key_header p.api_key ∷ [];
  timeout_secs = p.request_timeout;
  body = record {
    model = p.chat_deployment;
    messages = record { role = "user"; content = prompt } ∷ [];
    max_completion_tokens = p.max_tokens;
    store = false;
    user = nonce;
  };
}

-- 0 where there is no deployment for embeddings.
abbrev pub dim_if : Option String → ℕ → ℕ
dim_if none dim = 0
dim_if (some deployment) dim = dim

module _ {F : Type 0} (o : FloatOps F) (server : ChatServer F) where
  unfoldable pub embed : AzureOpenAiProvider → ℕ → List String → Result (List (Embedding F))
  embed p i texts = do
    deployment ← ok_or p.embedding_deployment (
        provider_error
          "no Azure embedding deployment configured — set [providers.azure] embedding_deployment to enable drift detection")
    read_embeddings o p.embed_dim (server.embeddings i (embed_request p deployment texts))

  unfoldable pub complete : AzureOpenAiProvider → ℕ → ℕ → String → Result Completion
  complete p i k prompt =
      read_completion "no choices in Azure OpenAI response"
        (server.chat i k (chat_request p (server.nonce i k) prompt))

  -- The implementation of the trait.
  abbrev pub provider_of : AzureOpenAiProvider → LlmProvider F
  provider_of p = record {
    embed = embed p;
    complete = complete p;
    provider_name = azure_id;
    embedding_dim = dim_if p.embedding_deployment p.embed_dim;
  }
