-- ===== src/Provider/Factory/Requests.antt =====
-- The request for a completion that each adapter of crates/daemon/src/provider_factory.rs sends
-- (crates/core/src/provider), field by field from the key, the configuration and the prompt.
use modelsentry.Provider.OpenAi
use modelsentry.Provider.Anthropic
use modelsentry.Provider.Ollama
use modelsentry.Provider.Azure
use modelsentry.Base.{[], refl, inl, inr, false, String, ℕ, ◌≡◌, Option, ◌∷◌, Bool-cases}
use modelsentry.Common.Error.{ok, >>=-eq-ok, fail_if-ok, ok_inj}
use modelsentry.Config.{OpenAiConfig, AnthropicConfig, AzureConfig}
use Prim.Native.String.{◌++◌ as append_str}
use modelsentry.Provider.{Request}
use modelsentry.Common.Models.{ApiKey}
use modelsentry.Provider.Ollama.{OllamaProvider, GenerateRequest}
use modelsentry.Provider.Chat.{ChatRequest}
use modelsentry.Provider.Anthropic.{MessagesRequest, AnthropicProvider}
use modelsentry.Provider.OpenAi.{OpenAiProvider}
use modelsentry.Provider.Factory.{openai_adapter, anthropic_adapter, azure_adapter}
use modelsentry.Provider.Azure.{AzureOpenAiProvider}
use modelsentry.Base.Text.{concat, is_blank, trim_end_matches}

-- A prompt to a chat endpoint: one message of the user, not stored, marked with the nonce.
abbrev pub IsChatRequest :
    String → String × String → String → ℕ → String → String → Request ChatRequest → Type 0
IsChatRequest url header model max_tokens nonce prompt q =
    (q.url ≡ url)
    × (q.headers ≡ header ∷ [])
    × (q.timeout_secs ≡ 30)
    × (q.body.model ≡ model)
    × (q.body.messages ≡ record { role = "user"; content = prompt } ∷ [])
    × (q.body.max_completion_tokens ≡ max_tokens)
    × (q.body.store ≡ false)
    × (q.body.user ≡ nonce)

-- A prompt to the Messages API, with the key and the version of the API in the headers.
abbrev pub IsMessagesRequest :
    String → String → String → ℕ → String → String → Request MessagesRequest → Type 0
IsMessagesRequest url secret model max_tokens nonce prompt q =
    (q.url ≡ url)
    × (q.headers ≡ ("x-api-key", secret) ∷ ("anthropic-version", "2023-06-01") ∷ [])
    × (q.timeout_secs ≡ 30)
    × (q.body.model ≡ model)
    × (q.body.messages ≡ record { role = "user"; content = prompt } ∷ [])
    × (q.body.max_tokens ≡ max_tokens)
    × (q.body.metadata.user_id ≡ nonce)

-- A prompt to a local server, without a key and not streamed.
abbrev pub IsGenerateRequest : String → String → String → Request GenerateRequest → Type 0
IsGenerateRequest url model prompt q =
    (q.url ≡ url)
    × (q.headers ≡ [])
    × (q.timeout_secs ≡ 120)
    × (q.body.model ≡ model)
    × (q.body.prompt ≡ prompt)
    × (q.body.stream ≡ false)

pub openai_adapter-IsChatRequest :
    (cfg : OpenAiConfig) (key : ApiKey) (model nonce prompt : String) (a : OpenAiProvider)
    → openai_adapter cfg key model ≡ ok a
    → IsChatRequest
        (append_str cfg.base_url "/v1/chat/completions")
        ("authorization", append_str "Bearer " key.secret)
        model
        cfg.max_tokens
        nonce
        prompt
        (OpenAi.chat_request a nonce prompt)
unfolding OpenAi.new
openai_adapter-IsChatRequest cfg key model nonce prompt a h = elim (Bool-cases (is_blank model)) [
  | inl t ↦ absurd (cc (rw t at h))
  | inr t ↦
      let same = ok_inj _ _ (rw t at h) in
      rw (← same) (refl, refl, refl, refl, refl, refl, refl, refl)
]

pub anthropic_adapter-IsMessagesRequest :
    (cfg : AnthropicConfig) (key : ApiKey) (model nonce prompt : String) (a : AnthropicProvider)
    → anthropic_adapter cfg key model ≡ ok a
    → IsMessagesRequest
        (append_str cfg.base_url "/v1/messages")
        key.secret
        model
        cfg.max_tokens
        nonce
        prompt
        (Anthropic.messages_request a nonce prompt)
unfolding Anthropic.new
anthropic_adapter-IsMessagesRequest cfg key model nonce prompt a h =
    elim (Bool-cases (is_blank model)) [
      | inl t ↦ absurd (cc (rw t at h))
      | inr t ↦
          let same = ok_inj _ _ (rw t at h) in
          rw (← same) (refl, refl, refl, refl, refl, refl, refl)
    ]

pub new-IsGenerateRequest :
    (model base_url prompt : String) (a : OllamaProvider)
    → Ollama.new model base_url ≡ ok a
    → IsGenerateRequest
        (append_str base_url "/api/generate")
        model
        prompt
        (Ollama.generate_request a prompt)
unfolding Ollama.new
new-IsGenerateRequest model base_url prompt a h = elim (Bool-cases (is_blank model)) [
  | inl t ↦ absurd (cc (rw t at h))
  | inr t ↦ let same = ok_inj _ _ (rw t at h) in rw (← same) (refl, refl, refl, refl, refl, refl)
]

pub azure_adapter-IsChatRequest :
    (cfg : AzureConfig) (key : ApiKey) (chat : String) (own : Option String) (nonce prompt : String)
    (a : AzureOpenAiProvider)
    → azure_adapter cfg key chat own ≡ ok a
    → IsChatRequest
        (concat (
          trim_end_matches b'/' cfg.endpoint
          ∷ "/openai/v1/"
          ∷ "chat/completions"
          ∷ "?api-version="
          ∷ cfg.api_version
          ∷ []))
        ("api-key", key.secret)
        chat
        cfg.max_tokens
        nonce
        prompt
        (Azure.chat_request a nonce prompt)
unfolding Azure.new
azure_adapter-IsChatRequest cfg key chat own nonce prompt a h =
    let (p, e, h₁) = >>=-eq-ok (Azure.new key cfg.endpoint chat cfg.api_version) _ h in
    let (t₁, e₁) = fail_if-ok (is_blank (trim_end_matches b'/' cfg.endpoint)) _ _ e in
    let (t₂, e₂) = fail_if-ok (is_blank chat) _ _ e₁ in
    let (t₃, e₃) = fail_if-ok (is_blank cfg.api_version) _ _ e₂ in
    let of_new = ok_inj _ _ e₃ in
    let same = ok_inj _ _ h₁ in
    rw (← same, ← of_new) (refl, refl, refl, refl, refl, refl, refl, refl)
