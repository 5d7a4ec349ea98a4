-- ===== src/Provider/Answers.antt =====
-- Which answers of a server become completions and embeddings (crates/core/src/provider).
use modelsentry.Base.{
  refl, inl, inr, true, false, none, some, arith, String, Option, ◌≡◌, ◌↔◌, ◌≢◌, Bool-cases, ap,
  ◌==◌, ==_iff, first, sym, find, ◌∙◌,
}
use modelsentry.Common.Error.{ok, fail_if-ok, >>=-eq-ok, ok_or, ok_or-ok}
use modelsentry.Provider.{
  Attempt, reject_unusable_finish_reason, Reply, decode, is_reason, done, receive, failed, str_eq,
  Completion, reported_version, provider_error,
}
use text.Mathlib.TextEquality.{eq_iff}
use modelsentry.Provider.Chat.{ChatResponse, read_completion, ChatChoice}
use modelsentry.Provider.Anthropic.{MessagesResponse, ContentBlock, read_message, text_of}

-- The answer arrived with status 200 and decodes to `r`.
abbrev pub IsFetched : {R : Type 0} → Attempt (Reply R) → R → Type 0
IsFetched {R} reply r = (x : Reply R) × (reply ≡ done x) × (x.status ≡ 200) × (x.json ≡ done r)

module _ {R : Type 0} where
  decode-ok : (what : String) (json : Attempt R) (r : R) → decode what json ≡ ok r → json ≡ done r
  decode-ok what (failed e) r h = absurd (cc)
  decode-ok what (done x) r h = cc

  pub receive-ok :
      (what : String) (reply : Attempt (Reply R)) (r : R)
      → receive what reply ≡ ok r
      → IsFetched reply r
  receive-ok what (failed e) r h = absurd (cc)
  receive-ok what (done x) r h = elim (Bool-cases (x.status == 200)) [
    | inl t ↦ (x, refl, (==_iff x.status 200).0 t, decode-ok what x.json r (rw t at h))
    | inr t ↦ absurd (cc (rw t at h))
  ]

  pub receive_fetched :
      (what : String) (reply : Attempt (Reply R)) (r : R)
      → IsFetched reply r
      → receive what reply ≡ ok r
  receive_fetched what reply r (x, at, status, json) =
      let t : (x.status == 200) ≡ true = (==_iff x.status 200).1 status in rw (at, t, json) refl

pub is_reason-ne :
    (reason : Option String) (name : String)
    → (is_reason reason name ≡ false) ↔ (reason ≢ some name)
is_reason-ne none name = (λ h e. cc, λ h. refl)
is_reason-ne (some r) name = (
  λ h e. ground (arith, eq_iff r name),
  λ h. elim (Bool-cases (str_eq r name)) [
    | inl t ↦ absurd (h (ap some ((eq_iff r name).0 t)))
    | inr t ↦ t
  ],
)

reject-ok :
    (reason : Option String)
    → (reject_unusable_finish_reason reason ≡ ok tt)
      ↔ ((reason ≢ some "length") × (reason ≢ some "content_filter"))
unfolding reject_unusable_finish_reason
reject-ok reason = (
  λ h.
      let (t, rest) = fail_if-ok (is_reason reason "length") _ _ h in
      let (u, done') = fail_if-ok (is_reason reason "content_filter") _ _ rest in
      ((is_reason-ne reason "length").0 t, (is_reason-ne reason "content_filter").0 u),
  λ h.
      let t = (is_reason-ne reason "length").1 h.0 in
      let u = (is_reason-ne reason "content_filter").1 h.1 in rw (t, u) refl,
)

-- What a usable answer of a chat-completions endpoint is, and the completion it makes.
abbrev pub IsChatAnswer : Attempt (Reply ChatResponse) → Completion → Type 0
IsChatAnswer reply c =
    (r : ChatResponse) × (choice : ChatChoice) × IsFetched reply r
    × (first r.choices ≡ some choice)
    × (choice.finish_reason ≢ some "length")
    × (choice.finish_reason ≢ some "content_filter")
    × (c.text ≡ choice.message.content)
    × (c.model_version ≡ reported_version r.model)

read_completion-IsChatAnswer :
    (message : String) (reply : Attempt (Reply ChatResponse)) (c : Completion)
    → read_completion message reply ≡ ok c
    → IsChatAnswer reply c
unfolding read_completion
read_completion-IsChatAnswer message reply c h =
    let (r, e₁, h₁) = >>=-eq-ok (receive "chat" reply) _ h in
    let (choice, e₂, h₂) = >>=-eq-ok (ok_or (first r.choices) (provider_error message)) _ h₁ in
    let (u, e₃, h₃) = >>=-eq-ok (reject_unusable_finish_reason choice.finish_reason) _ h₂ in
    let (not_length, not_filtered) = (reject-ok choice.finish_reason).0 e₃ in
    (
      r,
      choice,
      receive-ok "chat" reply r e₁,
      ok_or-ok (first r.choices) _ e₂,
      not_length,
      not_filtered,
      cc h₃,
      cc h₃,
    )

-- A chat endpoint's answer becomes a completion exactly when it came with status 200, decodes, has a
-- first choice, and that choice was neither cut off nor filtered; the completion holds the text of
-- that choice and the model version, unless it is reported empty.
pub read_completion_iff :
    (message : String) (reply : Attempt (Reply ChatResponse)) (c : Completion)
    → (read_completion message reply ≡ ok c) ↔ IsChatAnswer reply c
unfolding read_completion
read_completion_iff message reply c = (
  read_completion-IsChatAnswer message reply c,
  λ (r, choice, fetched, found, not_length, not_filtered, text, version).
      let e₁ = receive_fetched "chat" reply r fetched in
      let e₃ = (reject-ok choice.finish_reason).1 (not_length, not_filtered) in
      let text' = sym text in
      let version' = sym version in
      rw (e₁, found, e₃) (λ i. ok (record { text = text' i; model_version = version' i })),
)

-- What a usable answer of the messages endpoint is, and the completion it makes.
abbrev pub IsMessageAnswer : Attempt (Reply MessagesResponse) → Completion → Type 0
IsMessageAnswer reply c =
    (r : MessagesResponse) × (block : ContentBlock) × IsFetched reply r
    × (r.stop_reason ≢ some "refusal")
    × (r.stop_reason ≢ some "max_tokens")
    × (find (λ b. str_eq b.block_type "text") r.content ≡ some block)
    × (block.text ≡ some c.text)
    × (c.model_version ≡ reported_version r.model)

text_of-some :
    (found : Option ContentBlock) (t : String)
    → text_of found ≡ some t
    → (block : ContentBlock) × (found ≡ some block) × (block.text ≡ some t)
text_of-some none t h = absurd (cc)
text_of-some (some b) t h = (b, refl, h)

read_message-IsMessageAnswer :
    (reply : Attempt (Reply MessagesResponse)) (c : Completion)
    → read_message reply ≡ ok c
    → IsMessageAnswer reply c
unfolding read_message
read_message-IsMessageAnswer reply c h =
    let (r, e₁, h₁) = >>=-eq-ok (receive "messages" reply) _ h in
    let (t, h₂) = fail_if-ok (is_reason r.stop_reason "refusal") _ _ h₁ in
    let (u, h₃) = fail_if-ok (is_reason r.stop_reason "max_tokens") _ _ h₂ in
    let found = find (λ b. str_eq b.block_type "text") r.content in
    let (text, e₄, h₄) = >>=-eq-ok (ok_or (text_of found) _) _ h₃ in
    let (block, e₅, e₆) = text_of-some found text (ok_or-ok (text_of found) _ e₄) in
    (
      r,
      block,
      receive-ok "messages" reply r e₁,
      (is_reason-ne r.stop_reason "refusal").0 t,
      (is_reason-ne r.stop_reason "max_tokens").0 u,
      e₅,
      e₆ ∙ cc h₄,
      cc h₄,
    )

-- An answer of the messages endpoint becomes a completion exactly when it came with status 200,
-- decodes, was neither refused nor cut off, and its first block of text has a text; the completion
-- holds that text and the model version, unless it is reported empty.
pub read_message_iff :
    (reply : Attempt (Reply MessagesResponse)) (c : Completion)
    → (read_message reply ≡ ok c) ↔ IsMessageAnswer reply c
unfolding read_message
read_message_iff reply c = (
  read_message-IsMessageAnswer reply c,
  λ (r, block, fetched, not_refused, not_cut, found, text, version).
      let e₁ = receive_fetched "messages" reply r fetched in
      let t = (is_reason-ne r.stop_reason "refusal").1 not_refused in
      let u = (is_reason-ne r.stop_reason "max_tokens").1 not_cut in
      let version' = sym version in
      rw (e₁, t, u, found, text) (λ i. ok (record { text = c.text; model_version = version' i })),
)
