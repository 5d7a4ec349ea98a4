-- ===== src/Provider/Chat.antt =====
-- The wire types and the reading of answers that the two chat-completions adapters declare alike
-- (crates/core/src/provider/openai.rs and azure.rs).
use modelsentry.Base.{ℕ, Bool, not, List, Option, String, length, first, ◌==◌}
use modelsentry.Common.Error.{ModelSentryError, Result, ok, ◌>>=◌, ◌>>◌, fail_if, ok_or, traverse}
use modelsentry.Drift.Embedding.{Embedding}
use modelsentry.Drift.Embedding
use modelsentry.Float.{FloatOps}
use modelsentry.Provider.{
  Request, Attempt, Reply, Completion, receive, provider_error, reject_unusable_finish_reason,
  reported_version,
}

pub record ChatMessage : Type 0 where
  pub role : String
  pub content : String

pub record ChatRequest : Type 0 where
  pub model : String
  pub messages : List ChatMessage
  pub max_completion_tokens : ℕ
  pub store : Bool
  pub user : String

pub record ChatMessageContent : Type 0 where
  pub content : String

pub record ChatChoice : Type 0 where
  pub message : ChatMessageContent
  pub finish_reason : Option String

pub record ChatResponse : Type 0 where
  pub choices : List ChatChoice
  pub model : Option String

pub record EmbedRequest : Type 0 where
  pub model : String
  pub input : List String

pub record EmbedData (F : Type 0) : Type 0 where
  pub embedding : List F

-- The field `data` of the response.
pub record EmbedResponse (F : Type 0) : Type 0 where
  pub embeddings : List (EmbedData F)

-- The part of `complete` after the request; `no_choices` is the message for an empty list.
unfoldable pub read_completion : String → Attempt (Reply ChatResponse) → Result Completion
read_completion no_choices reply = do
  parsed ← receive "chat" reply
  choice ← ok_or (first parsed.choices) (provider_error no_choices)
  reject_unusable_finish_reason choice.finish_reason
  ok (record { text = choice.message.content; model_version = reported_version parsed.model })

module _ {F : Type 0} (o : FloatOps F) where
  -- The closure over the data of the response.
  abbrev pub checked_embedding : ℕ → EmbedData F → Result (Embedding F)
  checked_embedding embed_dim d = do
    fail_if (not (length d.embedding == embed_dim))
        (ModelSentryError.dimension_mismatch embed_dim (length d.embedding))
    Embedding.new o d.embedding

  unfoldable pub read_embeddings :
      ℕ → Attempt (Reply (EmbedResponse F)) → Result (List (Embedding F))
  read_embeddings embed_dim reply = do
    parsed ← receive "embeddings" reply
    traverse (checked_embedding embed_dim) parsed.embeddings

-- What answers the two kinds of request, by their place, and the nonce of a completion.
pub record ChatServer (F : Type 0) : Type 0 where
  pub nonce : ℕ → ℕ → String
  pub chat : ℕ → ℕ → Request ChatRequest → Attempt (Reply ChatResponse)
  pub embeddings : ℕ → Request EmbedRequest → Attempt (Reply (EmbedResponse F))
