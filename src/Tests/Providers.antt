-- ===== src/Tests/Providers.antt =====
-- Tests of the model providers (crates/core/src/provider, crates/daemon/src/provider_factory.rs).
use modelsentry.Base.Int.{ℤ}
use modelsentry.Provider.OpenAi
use modelsentry.Common.Models.{ProviderSpec}
use modelsentry.Base.{◌∷◌, [], refl, none, some, ◌≡◌, List, All, ◌≢◌, ◌↔◌}
use modelsentry.Provider.Chat.{
  ChatResponse, EmbedResponse, ChatServer, read_completion, read_embeddings,
}
use modelsentry.Provider.Anthropic.{MessagesResponse}
use modelsentry.Tests.Setup.{app_config}
use modelsentry.Tests.Data.{far}
use modelsentry.Common.Error.{ok}
use modelsentry.Provider.{
  Attempt, Completion, LlmProvider, Reply, done, failed, reject_unusable_finish_reason,
}
use modelsentry.Provider.Factory.{Servers, build_provider, require_key}
use modelsentry.Provider.OpenAi.{OpenAiProvider}
use modelsentry.Drift.Embedding
use modelsentry.Drift.Embedding.{Embedding, IsEmbedding}
use modelsentry.Provider.Factory.Versions.{IsAnswered, build_provider_completes}
use modelsentry.Vault.{get_key, decrypt_vault}
use modelsentry.Float.Fixed.{fixed_ops}
use modelsentry.Tests.Vault.{codec, vault_files, vault}
use modelsentry.Provider.Factory.Built.{
  IsBatch, IsConfigured, build_provider_embeds, build_provider_iff,
}

abbrev chat_reply : Attempt (Reply ChatResponse)
chat_reply = done (record {
  status = 200;
  text = none;
  json = done (record {
    choices = record { message = record { content = "pong" }; finish_reason = some "stop" } ∷ [];
    model = some "m-1-2025";
  });
})

abbrev message_reply : Attempt (Reply MessagesResponse)
message_reply = done (record {
  status = 200;
  text = none;
  json = done (record {
    content =
        record { block_type = "thinking"; text = none }
        ∷ record { block_type = "text"; text = some "pong" }
        ∷ [];
    stop_reason = some "end_turn";
    model = some "";
  });
})

abbrev pong : Completion
pong = record { text = "pong"; model_version = some "m-1-2025" }

abbrev batch : Attempt (Reply (EmbedResponse ℤ))
batch = done (record {
  status = 200;
  text = none;
  json = done (record { embeddings = record { embedding = far } ∷ [] });
})

abbrev chat_server : ChatServer ℤ
chat_server = record {
  nonce = λ i k. "nonce";
  chat = λ i k request. chat_reply;
  embeddings = λ i request. batch;
}

abbrev servers : Servers ℤ
servers = record {
  open_ai = chat_server;
  azure = chat_server;
  anthropic = record { nonce = λ i k. "nonce"; messages = λ i k request. message_reply };
  ollama = record {
    generate = λ i k request. failed "connection refused";
    embeddings = λ i k request. failed "connection refused";
  };
}

build_provider_iff_example :
    ((p : LlmProvider ℤ) × (build_provider codec vault vault_files fixed_ops servers
          app_config.providers
          (ProviderSpec.open_ai "m-1")
        ≡ ok p))
    ↔ IsConfigured codec vault vault_files fixed_ops servers app_config.providers
        (ProviderSpec.open_ai "m-1")
build_provider_iff_example =
    build_provider_iff codec vault vault_files fixed_ops servers app_config.providers
      (ProviderSpec.open_ai "m-1")

abbrev adapter : OpenAiProvider
adapter = record {
  api_key = record { secret = "sk-o" };
  request_timeout = 30;
  model = "m-1";
  embedding_model = "embed-small";
  embed_dim = 2;
  base_url = "https://api.example.com";
  max_tokens = 512;
}

abbrev built : LlmProvider ℤ
built = OpenAi.provider_of fixed_ops chat_server adapter

abbrev one_vector : List (Embedding ℤ)
one_vector = record { values = far } ∷ []

built_from_key :
    build_provider codec vault vault_files fixed_ops servers app_config.providers
      (ProviderSpec.open_ai "m-1")
    ≡ ok built
unfolding build_provider require_key get_key decrypt_vault OpenAi.new
built_from_key = refl

embedded_batch : built.embed 0 ("pong" ∷ []) ≡ ok one_vector
unfolding OpenAi.embed read_embeddings Embedding.new
embedded_batch = refl

completed : built.complete 0 1 "ping" ≡ ok pong
unfolding OpenAi.complete read_completion reject_unusable_finish_reason
completed = refl

build_provider_embeds_example :
    All (IsEmbedding fixed_ops) one_vector
    × IsBatch codec vault vault_files fixed_ops servers app_config.providers
        (ProviderSpec.open_ai "m-1")
        built
        ("pong" ∷ [])
        one_vector
build_provider_embeds_example =
    build_provider_embeds codec vault vault_files fixed_ops servers app_config.providers
      (ProviderSpec.open_ai "m-1") built 0 ("pong" ∷ []) one_vector built_from_key embedded_batch

build_provider_completes_example :
    (pong.model_version ≢ some "")
    × IsAnswered codec vault vault_files fixed_ops servers app_config.providers
        (ProviderSpec.open_ai "m-1")
        0
        1
        "ping"
        pong
build_provider_completes_example =
    build_provider_completes codec vault vault_files fixed_ops servers app_config.providers
      (ProviderSpec.open_ai "m-1") built 0 1 "ping" pong built_from_key completed
