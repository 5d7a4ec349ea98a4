-- ===== src/Provider/Anthropic.antt =====
-- The adapter of the Anthropic Messages API (crates/core/src/provider/anthropic.rs).
use Prim.Native.String.{◌++◌ as append_str}
use text.Mathlib.Text.{◌==◌ as str_eq}
use modelsentry.Base.{ℕ, List, [], ◌∷◌, Option, none, some, String, find}
use modelsentry.Base.Text.{is_blank}
use modelsentry.Common.Error.{Result, ok, err, ◌>>=◌, ◌>>◌, fail_if, ok_or}
use modelsentry.Common.Models.{ApiKey, anthropic_id}
use modelsentry.Drift.Embedding.{Embedding}
use modelsentry.Provider.{
  LlmProvider, Request, Attempt, Reply, Completion, receive, max_tokens_default, config_error,
  provider_error, is_reason, reported_version,
}

pub record AnthropicProvider : Type 0 where
  pub api_key : ApiKey
  pub request_timeout : ℕ
  pub model : String
  pub base_url : String
  pub max_tokens : ℕ

unfoldable pub new : ApiKey → String → Result AnthropicProvider
new api_key model = do
  fail_if (is_blank model) (config_error "model name must not be empty")
  ok (record {
    api_key = api_key;
    request_timeout = 30;
    model = model;
    base_url = "https://api.anthropic.com";
    max_tokens = max_tokens_default;
  })

abbrev pub with_base_url : AnthropicProvider → String → AnthropicProvider
with_base_url p base_url = record p { base_url = base_url }

abbrev pub with_max_tokens : AnthropicProvider → ℕ → AnthropicProvider
with_max_tokens p max_tokens = record p { max_tokens = max_tokens }

pub record RequestMetadata : Type 0 where
  pub user_id : String

pub record RequestMessage : Type 0 where
  pub role : String
  pub content : String

pub record MessagesRequest : Type 0 where
  pub model : String
  pub max_tokens : ℕ
  pub messages : List RequestMessage
  pub metadata : RequestMetadata

pub record ContentBlock : Type 0 where
  pub block_type : String
  pub text : Option String

pub record MessagesResponse : Type 0 where
  pub content : List ContentBlock
  pub stop_reason : Option String
  pub model : Option String

abbrev pub messages_request : AnthropicProvider → String → String → Request MessagesRequest
messages_request p nonce prompt = record {
  url = append_str p.base_url "/v1/messages";
  headers = ("x-api-key", p.api_key.secret) ∷ ("anthropic-version", "2023-06-01") ∷ [];
  timeout_secs = p.request_timeout;
  body = record {
    model = p.model;
    max_tokens = p.max_tokens;
    messages = record { role = "user"; content = prompt } ∷ [];
    metadata = record { user_id = nonce };
  };
}

-- What answers the requests, by their place, and the nonce of each.
pub record MessagesServer : Type 0 where
  pub nonce : ℕ → ℕ → String
  pub messages : ℕ → ℕ → Request MessagesRequest → Attempt (Reply MessagesResponse)

-- `and_then(|b| b.text)`
abbrev pub text_of : Option ContentBlock → Option String
text_of none = none
text_of (some b) = b.text

-- The part of `complete` after the request.
unfoldable pub read_message : Attempt (Reply MessagesResponse) → Result Completion
read_message reply = do
  parsed ← receive "messages" reply
  fail_if (is_reason parsed.stop_reason "refusal")
      (provider_error "Anthropic declined the request (stop_reason: refusal)")
  fail_if (is_reason parsed.stop_reason "max_tokens") (
      provider_error
        "completion truncated (stop_reason: max_tokens) — raise [providers.anthropic] max_tokens or shorten the prompt")
  text ←
      ok_or (text_of (find (λ b. str_eq b.block_type "text") parsed.content))
        (provider_error "no text content block in Anthropic response")
  ok (record { text = text; model_version = reported_version parsed.model })

unfoldable pub embed :
    {F : Type 0} → AnthropicProvider → ℕ → List String → Result (List (Embedding F))
embed p i texts = err (provider_error "embeddings not supported by Anthropic provider")

module _ (server : MessagesServer) where
  unfoldable pub complete : AnthropicProvider → ℕ → ℕ → String → Result Completion
  complete p i k prompt =
      read_message (server.messages i k (messages_request p (server.nonce i k) prompt))

  -- The implementation of the trait.
  abbrev pub provider_of : (F : Type 0) → AnthropicProvider → LlmProvider F
  provider_of F p = record {
    embed = embed p;
    complete = complete p;
    provider_name = anthropic_id;
    embedding_dim = 0;
  }
