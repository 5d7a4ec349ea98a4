-- ===== src/Provider/Factory/Batches.antt =====
-- The embeddings that the adapters make of the answers (crates/core/src/provider/openai.rs, azure.rs,
-- ollama.rs).
use modelsentry.Base.{[], ◌∷◌, refl, String, suc, arith, ℕ, length, ◌≡◌, List, not, All, ◌==◌}
use modelsentry.Common.Error.{ok, Result, fail_if-ok, traverse, >>=-eq-ok}
use modelsentry.Float.{FloatOps}
use modelsentry.Drift.Embedding.{Embedding, IsEmbedding, new_iff}
use modelsentry.Provider.Chat.{read_embeddings, EmbedData, checked_embedding, EmbedResponse}
use modelsentry.Provider.{Attempt, Reply, receive}
use mathlib.Core.Path.{subst, ap}
use modelsentry.Provider.Ollama.{
  OllamaServer, OllamaProvider, embed_from, read_embedding, embed_request,
}

-- The checked embeddings are valid and have the configured dimension.
module _ {F : Type 0} (o : FloatOps F) where
  abbrev pub IsOfDim : ℕ → Embedding F → Type 0
  IsOfDim d e = IsEmbedding o e × (length e.values ≡ d)

  checked-IsOfDim :
      (d : ℕ) (x : EmbedData F) (e : Embedding F) → checked_embedding o d x ≡ ok e → IsOfDim d e
  checked-IsOfDim d x e h =
      let (t, h') = fail_if-ok (not (length x.embedding == d)) _ _ h in
      let (values, nonempty, finite) = (new_iff o x.embedding e).0 h' in
      let width : length e.values ≡ length x.embedding = ap length values in
      ((omega (arith), rw values finite), ground (arith))

  traverse-All :
      {A : Type 0} (Q : Embedding F → Type 0) (f : A → Result (Embedding F))
      → ((a : A) (e : Embedding F) → f a ≡ ok e → Q e)
      → (xs : List A) (es : List (Embedding F)) → traverse f xs ≡ ok es
      → All Q es
  traverse-All Q f keep [] es h = let same : [] ≡ es = cc h in subst (All Q) same tt
  traverse-All Q f keep (x ∷ xs) es h =
      let (e, e₁, h₁) = >>=-eq-ok (f x) _ h in
      let (rest, e₂, h₂) = >>=-eq-ok (traverse f xs) _ h₁ in
      let same : e ∷ rest ≡ es = cc h₂ in
      subst (All Q) same (keep x e e₁, traverse-All Q f keep xs rest e₂)

  pub read_embeddings-IsOfDim :
      (d : ℕ) (reply : Attempt (Reply (EmbedResponse F))) (es : List (Embedding F))
      → read_embeddings o d reply ≡ ok es
      → All (IsOfDim d) es
  unfolding read_embeddings
  read_embeddings-IsOfDim d reply es h =
      let (r, e₁, h₁) = >>=-eq-ok (receive "embeddings" reply) _ h in
      traverse-All (IsOfDim d) (checked_embedding o d) (checked-IsOfDim d) r.embeddings es h₁

  pub split :
      (d : ℕ) (es : List (Embedding F))
      → All (IsOfDim d) es
      → All (IsEmbedding o) es × All (λ e. length e.values ≡ d) es
  split d [] h = (tt, tt)
  split d (e ∷ es) h = let (valid, wide) = split d es h.1 in ((h.0.0, valid), (h.0.1, wide))

  -- One valid embedding for each text.
  pub embed_from-IsEmbedding :
      (server : OllamaServer F) (p : OllamaProvider) (i j : ℕ) (texts : List String)
      (es : List (Embedding F))
      → embed_from o server p i j texts ≡ ok es
      → All (IsEmbedding o) es × (length es ≡ length texts)
  embed_from-IsEmbedding server p i j [] es h =
      let same : [] ≡ es = cc h in
      subst (λ (r : List (Embedding F)). All (IsEmbedding o) r × (length r ≡ 0)) same (tt, refl)
  embed_from-IsEmbedding server p i j (t ∷ ts) es h =
      let (e, e₁, h₁) =
        >>=-eq-ok (read_embedding o (server.embeddings i j (embed_request p t))) _ h in
      let (rest, e₂, h₂) = >>=-eq-ok (embed_from o server p i (suc j) ts) _ h₁ in
      let (r, e₃, h₃) =
        >>=-eq-ok (receive "embeddings" (server.embeddings i j (embed_request p t))) _ e₁ in
      let (values, nonempty, finite) = (new_iff o r.embedding e).0 h₃ in
      let width : length e.values ≡ length r.embedding = ap length values in
      let (all_rest, len) = embed_from-IsEmbedding server p i (suc j) ts rest e₂ in
      let same : e ∷ rest ≡ es = cc h₂ in
      subst (λ (r : List (Embedding F)). All (IsEmbedding o) r × (length r ≡ suc (length ts))) same
        (((omega arith, rw values finite), all_rest), ap suc len)
