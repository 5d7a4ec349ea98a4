-- ===== src/Config/Valid.antt =====
-- What the validation of crates/common/src/config.rs accepts, and when it has nothing to warn of.
use text.Mathlib.TextEquality.{eq_iff}
use modelsentry.Base.{
  ◌≡◌, ◌≢◌, refl, ◌↔◌, ◌⊎◌, ◌<◌, true, false, not, ◌&&◌, [], length, is_empty, arith, ◌==◌,
}
use modelsentry.Common.Error.{ok, fail_if-ok}
use modelsentry.Float.{FloatOps}
use modelsentry.Config.{AppConfig, AuthConfig, is_rate, validate, security_warnings}

module _ {F : Type 0} (o : FloatOps F) where
  -- Authentication is off or has a key.
  abbrev pub HasKey : AuthConfig → Type 0
  HasKey auth = (auth.enabled ≡ false) ⊎ (0 < length auth.api_keys)

  pub record IsValid (config : AppConfig F) : Type 0 where
    pub port : config.server.port ≢ 0
    pub rate_above : o.lt (o.of_nat 0) config.alerts.target_fpr ≡ true
    pub rate_below : o.lt config.alerts.target_fpr (o.of_nat 1) ≡ true
    pub runs : 0 < config.scheduler.max_concurrent_runs
    pub keys : HasKey config.auth

  -- A configuration passes exactly when its port is not 0, its target rate lies strictly between 0
  -- and 1 (which a NaN does not), at least one run may be in flight, and there is an API key if
  -- authentication is on.
  pub validate_accepts_iff : (config : AppConfig F) → (validate o config ≡ ok tt) ↔ IsValid config
  unfolding validate
  validate_accepts_iff config = (
    λ h.
        let (h₁, e₁) = fail_if-ok (config.server.port == 0) _ _ h in
        let (h₂, e₂) = fail_if-ok (not (is_rate o config.alerts.target_fpr)) _ _ e₁ in
        let (h₃, e₃) = fail_if-ok (config.scheduler.max_concurrent_runs == 0) _ _ e₂ in
        let (h₄, e₄) = fail_if-ok (config.auth.enabled && is_empty config.auth.api_keys) _ _ e₃ in
        record {
          port = ground arith;
          rate_above = ground arith;
          rate_below = ground arith;
          runs = ground arith;
          keys = ground arith;
        },
    λ v.
        let t₁ : (config.server.port == 0) ≡ false = ground (arith, v.port) in
        let t₃ : (config.scheduler.max_concurrent_runs == 0) ≡ false = ground (arith, v.runs) in
        let t₄ : (config.auth.enabled && is_empty config.auth.api_keys) ≡ false =
          ground (arith, v.keys) in
        rw (t₁, v.rate_above, v.rate_below, t₃, t₄) refl,
  )

-- There is nothing to warn of exactly when authentication is on and the allowed origin is not the
-- wildcard.
pub security_warnings-none_iff :
    {F : Type 0} (config : AppConfig F)
    → (security_warnings config ≡ [])
      ↔ ((config.auth.enabled ≡ true) × (config.server.cors_origin ≢ "*"))
unfolding security_warnings
security_warnings-none_iff config = (
  λ h. ground (arith, eq_iff config.server.cors_origin "*"),
  λ h. ground (arith, eq_iff config.server.cors_origin "*"),
)
