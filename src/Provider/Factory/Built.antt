-- ===== src/Provider/Factory/Built.antt =====
-- When a provider is built, and what every built provider promises
-- (crates/daemon/src/provider_factory.rs).
use modelsentry.Provider.OpenAi
use modelsentry.Provider.Anthropic
use modelsentry.Provider.Ollama
use modelsentry.Provider.Azure
use modelsentry.Base.{
  refl, inl, inr, false, some, String, ◌↔◌, ◌≢◌, Bool-cases, ◌∙◌, arith, ℕ, length, ◌≡◌, List, All,
}
use modelsentry.Common.Error.{ok, fail_if-ok, >>=-eq-ok, ok_or-ok, is_ok-ok, ok_or}
use modelsentry.Float.{FloatOps}
use modelsentry.Drift.Embedding.{Embedding, IsEmbedding}
use modelsentry.Provider.{is_blank, LlmProvider}
use mathlib.Core.Path.{subst, ap, sym}
use modelsentry.Provider.Ollama.{
  OllamaServer, OllamaProvider, embed_from, read_embedding, embed_request,
}
use modelsentry.Vault.{Codec, Vault, Files}
use modelsentry.Common.Models.{ApiKey, ProviderSpec, openai_id, anthropic_id, azure_id}
use modelsentry.Provider.Factory.{
  require_key, Servers, get_key, ProvidersConfig, build_provider, openai_adapter, anthropic_adapter,
  azure_adapter,
}
use text.Mathlib.TextEquality.{eq_iff}
use modelsentry.Base.Text.{trim_end_matches}
use modelsentry.Provider.Azure.{dim_if}
use modelsentry.Provider.Factory.Batches.{split, read_embeddings-IsOfDim, embed_from-IsEmbedding}

is_blank-ne : (s : String) → (is_blank s ≡ false) ↔ (s ≢ "")
is_blank-ne s = (
  λ h e. ground (arith, eq_iff s ""),
  λ h. elim (Bool-cases (is_blank s)) [ inl t ↦ absurd (h ((eq_iff s "").0 t)) | inr t ↦ t ],
)

module _ {B : Type 0} (c : Codec B) (vault : Vault) (files : Files B) where
  abbrev pub HasKey : String → Type 0
  HasKey id = (key : ApiKey) × (get_key c vault files id ≡ ok (some key))

  pub require_key-HasKey :
      (id : String) (key : ApiKey)
      → require_key c vault files id ≡ ok key
      → get_key c vault files id ≡ ok (some key)
  unfolding require_key
  require_key-HasKey id key h =
      let (found, e₁, h₁) = >>=-eq-ok (get_key c vault files id) _ h in
      e₁ ∙ ap ok (ok_or-ok found _ h₁)

  HasKey-require_key :
      (id : String) (key : ApiKey)
      → get_key c vault files id ≡ ok (some key)
      → require_key c vault files id ≡ ok key
  unfolding require_key
  HasKey-require_key id key h = rw h refl

  module _ {F : Type 0} (o : FloatOps F) (servers : Servers F) (config : ProvidersConfig) where
    -- What the adapter of a specification needs.
    abbrev pub IsConfigured : ProviderSpec → Type 0
    IsConfigured (ProviderSpec.open_ai model) = HasKey openai_id × (model ≢ "")
    IsConfigured (ProviderSpec.anthropic model) = HasKey anthropic_id × (model ≢ "")
    IsConfigured (ProviderSpec.ollama model base_url) = model ≢ ""
    IsConfigured (ProviderSpec.azure chat_deployment embedding_deployment) =
        HasKey azure_id
        × (trim_end_matches b'/' config.azure.endpoint ≢ "")
        × (chat_deployment ≢ "")
        × (config.azure.api_version ≢ "")

    build_provider-IsConfigured :
        (spec : ProviderSpec) (p : LlmProvider F)
        → build_provider c vault files o servers config spec ≡ ok p
        → IsConfigured spec
    unfolding build_provider OpenAi.new Anthropic.new Ollama.new Azure.new
    build_provider-IsConfigured (ProviderSpec.open_ai model) p h =
        let (key, e₁, h₁) = >>=-eq-ok (require_key c vault files openai_id) _ h in
        let (a, e₂, h₂) = >>=-eq-ok (openai_adapter config.openai key model) _ h₁ in
        let (a', e₃, h₃) = >>=-eq-ok (OpenAi.new key model) _ e₂ in
        let (t, h₄) = fail_if-ok (is_blank model) _ _ e₃ in
        ((key, require_key-HasKey openai_id key e₁), (is_blank-ne model).0 t)
    build_provider-IsConfigured (ProviderSpec.anthropic model) p h =
        let (key, e₁, h₁) = >>=-eq-ok (require_key c vault files anthropic_id) _ h in
        let (a, e₂, h₂) = >>=-eq-ok (anthropic_adapter config.anthropic key model) _ h₁ in
        let (a', e₃, h₃) = >>=-eq-ok (Anthropic.new key model) _ e₂ in
        let (t, h₄) = fail_if-ok (is_blank model) _ _ e₃ in
        ((key, require_key-HasKey anthropic_id key e₁), (is_blank-ne model).0 t)
    build_provider-IsConfigured (ProviderSpec.ollama model base_url) p h =
        let (a, e₁, h₁) = >>=-eq-ok (Ollama.new model base_url) _ h in
        let (t, h₂) = fail_if-ok (is_blank model) _ _ e₁ in (is_blank-ne model).0 t
    build_provider-IsConfigured (ProviderSpec.azure chat own) p h =
        let (key, e₁, h₁) = >>=-eq-ok (require_key c vault files azure_id) _ h in
        let (a, e₂, h₂) = >>=-eq-ok (azure_adapter config.azure key chat own) _ h₁ in
        let (a', e₃, h₃) =
          >>=-eq-ok (Azure.new key config.azure.endpoint chat config.azure.api_version) _ e₂ in
        let endpoint = trim_end_matches b'/' config.azure.endpoint in
        let (t, h₄) = fail_if-ok (is_blank endpoint) _ _ e₃ in
        let (u, h₅) = fail_if-ok (is_blank chat) _ _ h₄ in
        let (v, h₆) = fail_if-ok (is_blank config.azure.api_version) _ _ h₅ in
        (
          (key, require_key-HasKey azure_id key e₁),
          (is_blank-ne endpoint).0 t,
          (is_blank-ne chat).0 u,
          (is_blank-ne config.azure.api_version).0 v,
        )

    IsConfigured-build_provider :
        (spec : ProviderSpec)
        → IsConfigured spec
        → (p : LlmProvider F) × (build_provider c vault files o servers config spec ≡ ok p)
    unfolding build_provider OpenAi.new Anthropic.new Ollama.new Azure.new
    IsConfigured-build_provider (ProviderSpec.open_ai model) ((key, found), named) =
        let t = (is_blank-ne model).1 named in
        is_ok-ok _ (rw (HasKey-require_key openai_id key found, t) refl)
    IsConfigured-build_provider (ProviderSpec.anthropic model) ((key, found), named) =
        let t = (is_blank-ne model).1 named in
        is_ok-ok _ (rw (HasKey-require_key anthropic_id key found, t) refl)
    IsConfigured-build_provider (ProviderSpec.ollama model base_url) named =
        let t = (is_blank-ne model).1 named in is_ok-ok _ (rw t refl)
    IsConfigured-build_provider (ProviderSpec.azure chat own) ((key, found), at, named, version) =
        let t = (is_blank-ne (trim_end_matches b'/' config.azure.endpoint)).1 at in
        let u = (is_blank-ne chat).1 named in
        let v = (is_blank-ne config.azure.api_version).1 version in
        is_ok-ok _ (rw (HasKey-require_key azure_id key found, t, u, v) refl)

    -- A provider is built exactly when its kind has a key in the vault (Ollama needs none) and its
    -- model or deployment has a name; for Azure, the endpoint without its trailing slashes and the
    -- version of the API must not be empty either.
    pub build_provider_iff :
        (spec : ProviderSpec)
        → ((p : LlmProvider F) × (build_provider c vault files o servers config spec ≡ ok p))
          ↔ IsConfigured spec
    build_provider_iff spec =
        (λ (p, h). build_provider-IsConfigured spec p h, IsConfigured-build_provider spec)

    -- What a batch of embeddings is, by the kind of the provider: OpenAI and Azure check the
    -- dimension, Ollama makes one request for each text, Anthropic has none.
    abbrev pub IsBatch : ProviderSpec → LlmProvider F → List String → List (Embedding F) → Type 0
    IsBatch (ProviderSpec.open_ai model) p texts es =
        All (λ e. length e.values ≡ p.embedding_dim) es
    IsBatch (ProviderSpec.anthropic model) p texts es = ⊥
    IsBatch (ProviderSpec.ollama model base_url) p texts es = length es ≡ length texts
    IsBatch (ProviderSpec.azure chat own) p texts es =
        All (λ e. length e.values ≡ p.embedding_dim) es

    -- The embeddings of a built provider are valid (of positive dimension, with finite values); they
    -- are a batch as its kind promises.
    pub build_provider_embeds :
        (spec : ProviderSpec) (p : LlmProvider F) (i : ℕ) (texts : List String)
        (es : List (Embedding F))
        → build_provider c vault files o servers config spec ≡ ok p
        → p.embed i texts ≡ ok es
        → All (IsEmbedding o) es × IsBatch spec p texts es
    unfolding build_provider OpenAi.embed Anthropic.embed Ollama.embed Azure.embed
    build_provider_embeds (ProviderSpec.open_ai model) p i texts es h e =
        let (key, e₁, h₁) = >>=-eq-ok (require_key c vault files openai_id) _ h in
        let (a, e₂, h₂) = >>=-eq-ok (openai_adapter config.openai key model) _ h₁ in
        let same : OpenAi.provider_of o servers.open_ai a ≡ p = cc h₂ in
        let batch = ap (λ (q : LlmProvider F). q.embed i texts) same ∙ e in
        let (valid, wide) =
          split o a.embed_dim es (read_embeddings-IsOfDim o a.embed_dim _ es batch) in
        (
          valid,
          subst (λ (q : LlmProvider F). All (λ x. length x.values ≡ q.embedding_dim) es) same wide,
        )
    build_provider_embeds (ProviderSpec.anthropic model) p i texts es h e =
        let (key, e₁, h₁) = >>=-eq-ok (require_key c vault files anthropic_id) _ h in
        let (a, e₂, h₂) = >>=-eq-ok (anthropic_adapter config.anthropic key model) _ h₁ in
        let same : Anthropic.provider_of servers.anthropic F a ≡ p = cc h₂ in
        let batch = ap (λ (q : LlmProvider F). q.embed i texts) same ∙ e in absurd (cc)
    build_provider_embeds (ProviderSpec.ollama model base_url) p i texts es h e =
        let (a, e₁, h₁) = >>=-eq-ok (Ollama.new model base_url) _ h in
        let same : Ollama.provider_of o servers.ollama a ≡ p = cc h₁ in
        let batch = ap (λ (q : LlmProvider F). q.embed i texts) same ∙ e in
        embed_from-IsEmbedding o servers.ollama a i 0 texts es batch
    build_provider_embeds (ProviderSpec.azure chat own) p i texts es h e =
        let (key, e₁, h₁) = >>=-eq-ok (require_key c vault files azure_id) _ h in
        let (a, e₂, h₂) = >>=-eq-ok (azure_adapter config.azure key chat own) _ h₁ in
        let same : Azure.provider_of o servers.azure a ≡ p = cc h₂ in
        let batch = ap (λ (q : LlmProvider F). q.embed i texts) same ∙ e in
        let (deployment, e₃, h₃) = >>=-eq-ok (ok_or a.embedding_deployment _) _ batch in
        let (valid, wide) =
          split o a.embed_dim es (read_embeddings-IsOfDim o a.embed_dim _ es h₃) in
        let dim : dim_if a.embedding_deployment a.embed_dim ≡ a.embed_dim =
          rw (ok_or-ok a.embedding_deployment _ e₃) refl in
        (
          valid,
          subst (λ (q : LlmProvider F). All (λ x. length x.values ≡ q.embedding_dim) es) same
              (subst (λ n. All (λ x. length x.values ≡ n) es) (sym dim) wide),
        )
