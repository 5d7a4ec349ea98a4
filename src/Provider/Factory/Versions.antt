-- ===== src/Provider/Factory/Versions.antt =====
-- What a built provider answers (crates/daemon/src/provider_factory.rs).
use modelsentry.Provider.OpenAi
use modelsentry.Provider.Anthropic
use modelsentry.Provider.Ollama
use modelsentry.Provider.Azure
use modelsentry.Base.{
  inl, inr, none, some, arith, Option, String, ℕ, ◌≢◌, Bool-cases, ◌≡◌, ◌∙◌, ap, sym, [], ◌∷◌,
}
use modelsentry.Common.Error.{ok, >>=-eq-ok, fail_if-ok}
use modelsentry.Provider.Ollama.{read_generation, GenerateResponse, GenerateRequest}
use modelsentry.Provider.Factory.{
  Servers, ProviderSpec, Vault, Files, FloatOps, ProvidersConfig, build_provider, require_key,
  openai_id, openai_adapter, anthropic_id, anthropic_adapter, azure_id, azure_adapter, ApiKey,
  get_key, concat,
}
use modelsentry.Vault.{Codec}
use modelsentry.Provider.{
  Attempt, reported_version, Reply, Completion, is_blank, LlmProvider, receive, is_reason, Request,
  append_str,
}
use modelsentry.Provider.Answers.{
  IsFetched, IsChatAnswer, IsMessageAnswer, receive-ok, read_completion_iff, is_reason-ne,
  read_message_iff,
}
use text.Mathlib.TextEquality.{eq_iff}
use modelsentry.Provider.Anthropic.{MessagesRequest, AnthropicProvider}
use modelsentry.Provider.Factory.Built.{require_key-HasKey}
use modelsentry.Provider.Azure.{AzureOpenAiProvider}
use modelsentry.Provider.Factory.Requests.{
  openai_adapter-IsChatRequest, anthropic_adapter-IsMessagesRequest, IsChatRequest,
  new-IsGenerateRequest, azure_adapter-IsChatRequest, IsMessagesRequest, IsGenerateRequest,
}
use modelsentry.Provider.Chat.{ChatRequest}
use modelsentry.Base.Text.{trim_end_matches}

reported_version-ne : (v : Option String) → reported_version v ≢ some ""
reported_version-ne none h = cc
reported_version-ne (some m) h = elim (Bool-cases (is_blank m)) [
  | inl t ↦ absurd (cc (rw t at h))
  | inr t ↦ ground (arith, eq_iff m "")
]

-- A generation that was fetched and not cut off, and the completion it makes.
abbrev pub IsGeneration : Attempt (Reply GenerateResponse) → Completion → Type 0
IsGeneration reply c =
    (r : GenerateResponse) × IsFetched reply r
    × (r.done_reason ≢ some "length")
    × (c.text ≡ r.response)

read_generation-ne :
    (reply : Attempt (Reply GenerateResponse)) (c : Completion)
    → read_generation reply ≡ ok c
    → (c.model_version ≢ some "") × IsGeneration reply c
unfolding read_generation
read_generation-ne reply c h =
    let (r, e₁, h₁) = >>=-eq-ok (receive "generate" reply) _ h in
    let (t, h₂) = fail_if-ok (is_reason r.done_reason "length") _ _ h₁ in
    let same : reported_version r.model ≡ c.model_version = cc h₂ in
    (
      λ e. reported_version-ne r.model (same ∙ e),
      (r, receive-ok "generate" reply r e₁, (is_reason-ne r.done_reason "length").0 t, cc h₂),
    )

module _ {B : Type 0} (codec : Codec B) (vault : Vault) (files : Files B) {F : Type 0}
    (o : FloatOps F) (servers : Servers F) (config : ProvidersConfig) where
  -- The answer that a completion came from and its request, by the kind of the provider: the address
  -- and the limit are those of the configuration, the secret is that of the key in the vault.
  abbrev pub IsAnswered : ProviderSpec → ℕ → ℕ → String → Completion → Type 0
  IsAnswered (ProviderSpec.open_ai model) i k prompt c =
      (key : ApiKey) × (q : Request ChatRequest) × (get_key codec vault files openai_id
        ≡ ok (some key))
      × IsChatRequest (append_str config.openai.base_url "/v1/chat/completions")
          ("authorization", append_str "Bearer " key.secret) model config.openai.max_tokens
          (servers.open_ai.nonce i k) prompt q
      × IsChatAnswer (servers.open_ai.chat i k q) c
  IsAnswered (ProviderSpec.anthropic model) i k prompt c =
      (key : ApiKey) × (q : Request MessagesRequest) × (get_key codec vault files anthropic_id
        ≡ ok (some key))
      × IsMessagesRequest (append_str config.anthropic.base_url "/v1/messages") key.secret model
          config.anthropic.max_tokens (servers.anthropic.nonce i k) prompt q
      × IsMessageAnswer (servers.anthropic.messages i k q) c
  IsAnswered (ProviderSpec.ollama model base_url) i k prompt c =
      (q : Request GenerateRequest) × IsGenerateRequest (append_str base_url "/api/generate") model
        prompt q
      × IsGeneration (servers.ollama.generate i k q) c
  IsAnswered (ProviderSpec.azure chat own) i k prompt c =
      (key : ApiKey) × (q : Request ChatRequest) × (get_key codec vault files azure_id
        ≡ ok (some key))
      × IsChatRequest
          (concat (
            trim_end_matches b'/' config.azure.endpoint
            ∷ "/openai/v1/"
            ∷ "chat/completions"
            ∷ "?api-version="
            ∷ config.azure.api_version
            ∷ []))
          ("api-key", key.secret) chat config.azure.max_tokens (servers.azure.nonce i k) prompt q
      × IsChatAnswer (servers.azure.chat i k q) c

  -- A completion of a built provider never reports an empty model version, and it came from an answer
  -- with status 200 that was not cut off, filtered or refused. The request was sent to the configured
  -- address (of Ollama, to that of the specification) with the model (of Azure, the deployment) and the
  -- prompt, for the other kinds as the one message of the user. For those it carries the key that the
  -- vault holds, in the header of the kind, and the configured limit of tokens.
  pub build_provider_completes :
      (spec : ProviderSpec) (p : LlmProvider F) (i k : ℕ) (prompt : String) (c : Completion)
      → build_provider codec vault files o servers config spec ≡ ok p
      → p.complete i k prompt ≡ ok c
      → (c.model_version ≢ some "") × IsAnswered spec i k prompt c
  unfolding build_provider OpenAi.complete Anthropic.complete Ollama.complete Azure.complete
  build_provider_completes (ProviderSpec.open_ai model) p i k prompt c h e =
      let (key, e₁, h₁) = >>=-eq-ok (require_key codec vault files openai_id) _ h in
      let (a, e₂, h₂) = >>=-eq-ok (openai_adapter config.openai key model) _ h₁ in
      let same : OpenAi.provider_of o servers.open_ai a ≡ p = cc h₂ in
      let answer = ap (λ (q : LlmProvider F). q.complete i k prompt) same ∙ e in
      let w = (read_completion_iff _ _ c).0 answer in
      (
        λ blank. reported_version-ne w.0.model (sym w.7 ∙ blank),
        (
          key,
          OpenAi.chat_request a (servers.open_ai.nonce i k) prompt,
          require_key-HasKey codec vault files openai_id key e₁,
          openai_adapter-IsChatRequest config.openai key model _ prompt a e₂,
          w,
        ),
      )
  build_provider_completes (ProviderSpec.anthropic model) p i k prompt c h e =
      let (key, e₁, h₁) = >>=-eq-ok (require_key codec vault files anthropic_id) _ h in
      let (a, e₂, h₂) = >>=-eq-ok (anthropic_adapter config.anthropic key model) _ h₁ in
      let same : Anthropic.provider_of servers.anthropic F a ≡ p = cc h₂ in
      let answer = ap (λ (q : LlmProvider F). q.complete i k prompt) same ∙ e in
      let w = (read_message_iff _ c).0 answer in
      (
        λ blank. reported_version-ne w.0.model (sym w.7 ∙ blank),
        (
          key,
          Anthropic.messages_request a (servers.anthropic.nonce i k) prompt,
          require_key-HasKey codec vault files anthropic_id key e₁,
          anthropic_adapter-IsMessagesRequest config.anthropic key model _ prompt a e₂,
          w,
        ),
      )
  build_provider_completes (ProviderSpec.ollama model base_url) p i k prompt c h e =
      let (a, e₁, h₁) = >>=-eq-ok (Ollama.new model base_url) _ h in
      let same : Ollama.provider_of o servers.ollama a ≡ p = cc h₁ in
      let answer = ap (λ (q : LlmProvider F). q.complete i k prompt) same ∙ e in
      let (reported, w) = read_generation-ne _ c answer in
      (
        reported,
        (Ollama.generate_request a prompt, new-IsGenerateRequest model base_url prompt a e₁, w),
      )
  build_provider_completes (ProviderSpec.azure chat own) p i k prompt c h e =
      let (key, e₁, h₁) = >>=-eq-ok (require_key codec vault files azure_id) _ h in
      let (a, e₂, h₂) = >>=-eq-ok (azure_adapter config.azure key chat own) _ h₁ in
      let same : Azure.provider_of o servers.azure a ≡ p = cc h₂ in
      let answer = ap (λ (q : LlmProvider F). q.complete i k prompt) same ∙ e in
      let w = (read_completion_iff _ _ c).0 answer in
      (
        λ blank. reported_version-ne w.0.model (sym w.7 ∙ blank),
        (
          key,
          Azure.chat_request a (servers.azure.nonce i k) prompt,
          require_key-HasKey codec vault files azure_id key e₁,
          azure_adapter-IsChatRequest config.azure key chat own _ prompt a e₂,
          w,
        ),
      )
