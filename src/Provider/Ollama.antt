-- ===== src/Provider/Ollama.antt =====
-- The adapter of a local Ollama server (crates/core/src/provider/ollama.rs).
use Prim.Native.String.{◌++◌ as append_str}
use modelsentry.Base.{ℕ, suc, Bool, false, List, [], ◌∷◌, Option, String}
use modelsentry.Base.Text.{is_blank}
use modelsentry.Common.Error.{Result, ok, ◌>>=◌, ◌>>◌, fail_if}
use modelsentry.Common.Models.{ollama_id}
use modelsentry.Drift.Embedding.{Embedding}
use modelsentry.Drift.Embedding
use modelsentry.Float.{FloatOps}
use modelsentry.Provider.{
  LlmProvider, Request, Attempt, Reply, Completion, receive, config_error, provider_error,
  is_reason, reported_version,
}

pub record OllamaProvider : Type 0 where
  pub request_timeout : ℕ
  pub model : String
  pub base_url : String
  pub embed_dim : ℕ

unfoldable pub new : String → String → Result OllamaProvider
new model base_url = do
  fail_if (is_blank model) (config_error "model name must not be empty")
  ok (record { request_timeout = 120; model = model; base_url = base_url; embed_dim = 1024 })

abbrev pub with_base_url : OllamaProvider → String → OllamaProvider
with_base_url p base_url = record p { base_url = base_url }

abbrev pub with_embedding_dim : OllamaProvider → ℕ → OllamaProvider
with_embedding_dim p embed_dim = record p { embed_dim = embed_dim }

pub record GenerateRequest : Type 0 where
  pub model : String
  pub prompt : String
  pub stream : Bool

pub record GenerateResponse : Type 0 where
  pub response : String
  pub model : Option String
  pub done_reason : Option String

pub record EmbedRequest : Type 0 where
  pub model : String
  pub prompt : String

pub record EmbedResponse (F : Type 0) : Type 0 where
  pub embedding : List F

abbrev pub embed_request : OllamaProvider → String → Request EmbedRequest
embed_request p text = record {
  url = append_str p.base_url "/api/embeddings";
  headers = [];
  timeout_secs = p.request_timeout;
  body = record { model = p.model; prompt = text };
}

abbrev pub generate_request : OllamaProvider → String → Request GenerateRequest
generate_request p prompt = record {
  url = append_str p.base_url "/api/generate";
  headers = [];
  timeout_secs = p.request_timeout;
  body = record { model = p.model; prompt = prompt; stream = false };
}

-- What answers the requests: `embeddings i j` the j-th text of the batch of the i-th prompt.
pub record OllamaServer (F : Type 0) : Type 0 where
  pub generate : ℕ → ℕ → Request GenerateRequest → Attempt (Reply GenerateResponse)
  pub embeddings : ℕ → ℕ → Request EmbedRequest → Attempt (Reply (EmbedResponse F))

-- The part of `complete` after the request.
unfoldable pub read_generation : Attempt (Reply GenerateResponse) → Result Completion
read_generation reply = do
  parsed ← receive "generate" reply
  fail_if (is_reason parsed.done_reason "length") (
      provider_error
        "generation truncated (done_reason: length) — raise the model's num_predict / context limit or shorten the prompt")
  ok (record { text = parsed.response; model_version = reported_version parsed.model })

module _ {F : Type 0} (o : FloatOps F) where
  -- The part of one round of `embed` after the request.
  abbrev pub read_embedding : Attempt (Reply (EmbedResponse F)) → Result (Embedding F)
  read_embedding reply = do parsed ← receive "embeddings" reply; Embedding.new o parsed.embedding

module _ {F : Type 0} (o : FloatOps F) (server : OllamaServer F) where
  -- The rounds from the j-th text on; the first error ends the loop.
  abbrev pub embed_from : OllamaProvider → ℕ → ℕ → List String → Result (List (Embedding F))
  embed_from p i j [] = ok []
  embed_from p i j (text ∷ texts) = do
    e ← read_embedding o (server.embeddings i j (embed_request p text))
    es ← embed_from p i (suc j) texts
    ok (e ∷ es)

  unfoldable pub embed : OllamaProvider → ℕ → List String → Result (List (Embedding F))
  embed p i texts = embed_from p i 0 texts

  unfoldable pub complete : OllamaProvider → ℕ → ℕ → String → Result Completion
  complete p i k prompt = read_generation (server.generate i k (generate_request p prompt))

  -- The implementation of the trait.
  abbrev pub provider_of : OllamaProvider → LlmProvider F
  provider_of p = record {
    embed = embed p;
    complete = complete p;
    provider_name = ollama_id;
    embedding_dim = p.embed_dim;
  }
