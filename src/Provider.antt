-- ===== src/Provider.antt =====
-- The adapters of the model providers (crates/core/src/provider): the trait, and what the adapters
-- share. The HTTP client is outside of the program: an adapter builds a `Request`, and a parameter
-- answers it. `Reply` holds what the client makes of an answer: its status, its body as a text, and
-- its body decoded from JSON.
pub mod Chat
pub mod Answers
pub mod OpenAi
pub mod Azure
pub mod Anthropic
pub mod Ollama
pub mod Factory
use Prim.Native.String.{◌++◌ as append_str}
use text.Mathlib.Text.{◌==◌ as str_eq}
use modelsentry.Base.{
  ℕ, Bool, true, false, not, List, Option, none, some, String, ◌==◌, if◌then◌else◌,
}
use modelsentry.Base.Text.{is_blank}
use modelsentry.Common.Error.{ModelSentryError, Result, ok, err, ◌>>=◌, ◌>>◌, fail_if, says}
use modelsentry.Drift.Embedding.{Embedding}

pub record Completion : Type 0 where
  pub text : String
  pub model_version : Option String

-- The methods of a provider. A provider that answers at random is a function of the request's
-- place: `complete i k` is the k-th request for the i-th prompt, `embed i` the batch of that prompt.
pub record LlmProvider (F : Type 0) : Type 0 where
  pub embed : ℕ → List String → Result (List (Embedding F))
  pub complete : ℕ → ℕ → String → Result Completion
  pub provider_name : String
  pub embedding_dim : ℕ

pub record Request (B : Type 0) : Type 0 where
  pub url : String
  pub headers : List (String × String)
  pub timeout_secs : ℕ
  pub body : B

-- A call of the client that may fail with a text.
pub data Attempt (A : Type 0) : Type 0 where
  failed : String → Attempt A
  done : A → Attempt A

pub record Reply (R : Type 0) : Type 0 where
  pub status : ℕ
  pub text : Option String
  pub json : Attempt R

-- `unwrap_or_default()`
abbrev pub text_or_blank : Option String → String
text_or_blank none = ""
text_or_blank (some s) = s

module _ {R : Type 0} where
  -- `what` names the response in the message.
  abbrev pub decode : String → Attempt R → Result R
  decode what (failed e) =
      err (ModelSentryError.provider_decode (says (append_str what (append_str " response: " e))))
  decode what (done r) = ok r

  -- What every adapter does with an answer: a request that was not sent, any status but 200, and a
  -- body of another shape are errors.
  abbrev pub receive : String → Attempt (Reply R) → Result R
  receive what (failed e) = err (ModelSentryError.provider_transport (says e))
  receive what (done r) =
      if not (r.status == 200)
      then err (ModelSentryError.provider_http r.status (text_or_blank r.text))
      else decode what r.json

abbrev pub provider_error : String → ModelSentryError
provider_error text = ModelSentryError.provider (says text)

abbrev pub config_error : String → ModelSentryError
config_error text = ModelSentryError.config (says text)

-- `defaults::MAX_TOKENS`
abbrev pub max_tokens_default : ℕ
max_tokens_default = 1024

abbrev pub is_reason : Option String → String → Bool
is_reason none name = false
is_reason (some reason) name = str_eq reason name

unfoldable pub reject_unusable_finish_reason : Option String → Result (Unit {0})
reject_unusable_finish_reason reason = do
  fail_if (is_reason reason "length") (
      provider_error
        "completion truncated (finish_reason: length) — raise [providers] max_tokens or shorten the prompt")
  fail_if (is_reason reason "content_filter") (
      provider_error
        "completion blocked by the provider content filter (finish_reason: content_filter)")
  ok tt

-- `filter(|m| !m.is_empty())`
abbrev pub reported_version : Option String → Option String
reported_version none = none
reported_version (some m) = if is_blank m then none else some m
