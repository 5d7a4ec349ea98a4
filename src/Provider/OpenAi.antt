-- ===== src/Provider/OpenAi.antt =====
-- The adapter of the OpenAI API (crates/core/src/provider/openai.rs).
use Prim.Native.String.{◌++◌ as append_str}
use modelsentry.Base.{ℕ, false, List, [], ◌∷◌, String}
use modelsentry.Base.Text.{is_blank}
use modelsentry.Common.Error.{Result, ok, ◌>>◌, fail_if}
use modelsentry.Common.Models.{ApiKey, openai_id}
use modelsentry.Drift.Embedding.{Embedding}
use modelsentry.Float.{FloatOps}
use modelsentry.Provider.{LlmProvider, Request, Completion, max_tokens_default, config_error}
use modelsentry.Provider.Chat.{
  ChatRequest, EmbedRequest, ChatServer, read_completion, read_embeddings,
}

pub record OpenAiProvider : Type 0 where
  pub api_key : ApiKey
  pub request_timeout : ℕ
  pub model : String
  pub embedding_model : String
  pub embed_dim : ℕ
  pub base_url : String
  pub max_tokens : ℕ

unfoldable pub new : ApiKey → String → Result OpenAiProvider
new api_key model = do
  fail_if (is_blank model) (config_error "model name must not be empty")
  ok (record {
    api_key = api_key;
    request_timeout = 30;
    model = model;
    embedding_model = "text-embedding-3-small";
    embed_dim = 1536;
    base_url = "https://api.openai.com";
    max_tokens = max_tokens_default;
  })

abbrev pub with_max_tokens : OpenAiProvider → ℕ → OpenAiProvider
with_max_tokens p max_tokens = record p { max_tokens = max_tokens }

abbrev pub with_embedding_model : OpenAiProvider → String → ℕ → OpenAiProvider
with_embedding_model p model dim = record p { embedding_model = model; embed_dim = dim }

abbrev pub with_base_url : OpenAiProvider → String → OpenAiProvider
with_base_url p base_url = record p { base_url = base_url }

abbrev pub bearer_auth : ApiKey → String × String
bearer_auth key = ("authorization", append_str "Bearer " key.secret)

abbrev pub embed_request : OpenAiProvider → List String → Request EmbedRequest
embed_request p texts = record {
  url = append_str p.base_url "/v1/embeddings";
  headers = bearer_auth p.api_key ∷ [];
  timeout_secs = p.request_timeout;
  body = record { model = p.embedding_model; input = texts };
}

abbrev pub chat_request : OpenAiProvider → String → String → Request ChatRequest
chat_request p nonce prompt = record {
  url = append_str p.base_url "/v1/chat/completions";
  headers = bearer_auth p.api_key ∷ [];
  timeout_secs = p.request_timeout;
  body = record {
    model = p.model;
    messages = record { role = "user"; content = prompt } ∷ [];
    max_completion_tokens = p.max_tokens;
    store = false;
    user = nonce;
  };
}

module _ {F : Type 0} (o : FloatOps F) (server : ChatServer F) where
  unfoldable pub embed : OpenAiProvider → ℕ → List String → Result (List (Embedding F))
  embed p i texts = read_embeddings o p.embed_dim (server.embeddings i (embed_request p texts))

  unfoldable pub complete : OpenAiProvider → ℕ → ℕ → String → Result Completion
  complete p i k prompt =
      read_completion "no choices in OpenAI response"
        (server.chat i k (chat_request p (server.nonce i k) prompt))

  -- The implementation of the trait.
  abbrev pub provider_of : OpenAiProvider → LlmProvider F
  provider_of p = record {
    embed = embed p;
    complete = complete p;
    provider_name = openai_id;
    embedding_dim = p.embed_dim;
  }
