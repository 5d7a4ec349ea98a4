-- ===== src/Server.antt =====
-- The guard of the HTTP API (crates/daemon/src/server.rs). The framework finds the headers, whose
-- names are lower case; a value that is no text counts as `none`. `ct_eq` is the constant-time
-- comparison of a library, and `parse_origin` tells which texts are header values.
pub mod Auth
use modelsentry.Base.{◌∷◌, [], false, none, some, List, Option, Bool, foldl, if◌then◌else◌, ◌||◌}
use Prim.Native.String.{String}
use text.Mathlib.Text.{◌==◌ as str_eq}
use modelsentry.Base.Text.{strip_prefix}
use modelsentry.Config.{AuthConfig}

abbrev pub HeaderMap : Type 0
HeaderMap = List (String × Option String)

-- The first value of the header, if it is a text.
abbrev pub header_text : HeaderMap → String → Option String
header_text [] name = none
header_text ((n, value) ∷ headers) name = if str_eq n name then value else header_text headers name

abbrev pub bearer_token : Option String → Option String
bearer_token none = none
bearer_token (some value) = strip_prefix "Bearer " value

abbrev pub or_else : Option String → Option String → Option String
or_else none other = other
or_else (some t) other = some t

unfoldable pub token : HeaderMap → Option String
token headers =
    or_else (bearer_token (header_text headers "authorization")) (header_text headers "x-api-key")

module _ (ct_eq : String → String → Bool) where
  -- Every key is compared.
  unfoldable pub token_matches : List String → String → Bool
  token_matches api_keys candidate =
      foldl (λ matched key. matched || ct_eq key candidate) false api_keys

  abbrev pub is_allowed : List String → Option String → Bool
  is_allowed api_keys none = false
  is_allowed api_keys (some t) = token_matches api_keys t

  -- What the middleware answers: the response of the route, or 401.
  unfoldable pub auth_middleware : {R : Type 0} → R → List String → HeaderMap → (HeaderMap → R) → R
  auth_middleware unauthorized api_keys headers next =
      if is_allowed api_keys (token headers) then next headers else unauthorized

  -- The API behind the middleware, if it is enabled.
  abbrev pub api : {R : Type 0} → R → AuthConfig → (HeaderMap → R) → HeaderMap → R
  api unauthorized auth routes headers =
      if auth.enabled
      then auth_middleware unauthorized auth.api_keys headers routes
      else routes headers

pub data CorsLayer : Type 0 where
  permissive restrictive : CorsLayer
  -- The origin, the methods and the headers.
  allow_origin : String → List String → List String → CorsLayer

abbrev pub cors_layer : (String → Bool) → String → CorsLayer
cors_layer parse_origin origin =
    if str_eq origin "*"
    then permissive
    else if parse_origin origin
    then allow_origin origin ("GET" ∷ "POST" ∷ "PUT" ∷ "DELETE" ∷ [])
        ("content-type" ∷ "authorization" ∷ "x-api-key" ∷ [])
    else restrictive
