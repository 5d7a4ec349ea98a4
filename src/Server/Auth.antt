-- ===== src/Server/Auth.antt =====
-- Which requests pass the guard (crates/daemon/src/server.rs).
use modelsentry.Base.{
  ◌∷◌, refl, inl, inr, none, some, Option, String, ◌≡◌, ◌↔◌, ◌⊎◌, ap, Option-cases, ◌≢◌, ◌∙◌, [],
  true, false, List, Bool, foldl, ◌||◌, Bool-cases,
}
use modelsentry.Server.{
  HeaderMap, token, header_text, bearer_token, token_matches, is_allowed, auth_middleware,
}
use Prim.Native.String.{◌++◌ as append_str}
use modelsentry.Base.Text.Prefix.{strip_prefix-ok, strip_prefix-append}
use mathlib.Core.Path.{subst, sym}

-- The request carries `t`: after "Bearer " in its authorization, or else as its API key.
abbrev pub Carries : HeaderMap → String → Type 0
Carries headers t =
    (header_text headers "authorization" ≡ some (append_str "Bearer " t))
    ⊎ (((t' : String) → header_text headers "authorization" ≢ some (append_str "Bearer " t'))
        × (header_text headers "x-api-key" ≡ some t))

bearer-append :
    (value : Option String) (t : String)
    → bearer_token value ≡ some t
    → value ≡ some (append_str "Bearer " t)
bearer-append none t h = absurd (cc)
bearer-append (some v) t h = ap some (strip_prefix-ok "Bearer " v t h)

append-bearer :
    (value : Option String) (t : String)
    → value ≡ some (append_str "Bearer " t)
    → bearer_token value ≡ some t
append-bearer value t h = ap bearer_token h ∙ strip_prefix-append "Bearer " t

token-Carries : (headers : HeaderMap) (t : String) → (token headers ≡ some t) ↔ Carries headers t
unfolding token
token-Carries headers t =
    let value = header_text headers "authorization" in
    elim (Option-cases (bearer_token value)) [
      | inr (b, e) ↦ (
        λ h. inl (bearer-append value t (e ∙ (rw e at h))),
        λ w. elim w [
          | inl at ↦ rw (append-bearer value t at) refl
          | inr (unborne, key) ↦ absurd (unborne b (bearer-append value b e))
        ],
      )
      | inl e ↦ (
        λ h. inr ((λ t' at. cc (e, append-bearer value t' at)), rw e at h),
        λ w. elim w [
          | inl at ↦ absurd (cc (e, append-bearer value t at))
          | inr (unborne, key) ↦ rw e key
        ],
      )
    ]

abbrev pub Among : String → List String → Type 0
Among t [] = ⊥
Among t (k ∷ ks) = (k ≡ t) ⊎ Among t ks

-- The request carries one of the keys.
abbrev pub IsAuthorized : List String → HeaderMap → Type 0
IsAuthorized api_keys headers = (t : String) × Carries headers t × Among t api_keys

module _ (ct_eq : String → String → Bool)
    (ct_eq_iff : (a b : String) → (ct_eq a b ≡ true) ↔ (a ≡ b)) where
  matched_before : (t : String) (ks : List String) → foldl (λ m k. m || ct_eq k t) true ks ≡ true
  matched_before t [] = refl
  matched_before t (k ∷ ks) = matched_before t ks

  token_matches_iff :
      (t : String) (ks : List String) → (token_matches ct_eq ks t ≡ true) ↔ Among t ks
  unfolding token_matches
  token_matches_iff t [] = (λ h. cc, λ h. elim h [ ])
  token_matches_iff t (k ∷ ks) = elim (Bool-cases (ct_eq k t)) [
    | inl e ↦ (λ h. inl ((ct_eq_iff k t).0 e), λ h. rw e (matched_before t ks))
    | inr e ↦ (
      λ h. inr ((token_matches_iff t ks).0 (rw e at h)),
      λ h. elim h [
        | inl same ↦ absurd (cc (e, (ct_eq_iff k t).1 same))
        | inr later ↦ rw e ((token_matches_iff t ks).1 later)
      ],
    )
  ]

  allowed :
      (ks : List String) (headers : HeaderMap) (found : Option String)
      → token headers ≡ found
      → (IsAuthorized ks headers × (is_allowed ct_eq ks found ≡ true))
        ⊎ ((¬ IsAuthorized ks headers) × (is_allowed ct_eq ks found ≡ false))
  allowed ks headers none e =
      inr ((λ (t, carried, among). cc (e, (token-Carries headers t).1 carried)), refl)
  allowed ks headers (some t) e = elim (Bool-cases (token_matches ct_eq ks t)) [
    | inl m ↦ inl ((t, (token-Carries headers t).0 e, (token_matches_iff t ks).0 m), m)
    | inr m ↦ inr (
      (λ (t', carried, among).
          let same : t ≡ t' = cc (e, (token-Carries headers t').1 carried) in
          cc (m, (token_matches_iff t ks).1 (subst (λ x. Among x ks) (sym same) among))),
      m,
    )
  ]

  -- A request reaches the routes exactly when it carries one of the keys, as a bearer token or,
  -- without one, as its API key; any other request is answered as unauthorized.
  pub auth_middleware_lem :
      {R : Type 0} (unauthorized : R) (api_keys : List String) (headers : HeaderMap)
      (next : HeaderMap → R)
      → (IsAuthorized api_keys headers
          × (auth_middleware ct_eq unauthorized api_keys headers next ≡ next headers))
        ⊎ ((¬ IsAuthorized api_keys headers)
            × (auth_middleware ct_eq unauthorized api_keys headers next ≡ unauthorized))
  unfolding auth_middleware
  auth_middleware_lem unauthorized api_keys headers next =
      elim (allowed api_keys headers (token headers) refl) [
        | inl w ↦ inl (w.0, rw w.1 refl)
        | inr w ↦ inr (w.0, rw w.1 refl)
      ]
