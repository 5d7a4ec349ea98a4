-- ===== src/Alert/Guarded.antt =====
-- What the guard on webhook targets lets through (crates/core/src/alert.rs).
use text.Mathlib.TextEquality.{eq_iff}
use modelsentry.Base.{
  ℕ, suc, ◌≡◌, refl, ◌↔◌, ◌⊎◌, inl, inr, ◌<◌, false, List, [], ◌∷◌, map, All, All-append, filter,
  Option, none, some, String, length, arith, Bool-cases,
}
use modelsentry.Base.Assoc.{Assoc}
use modelsentry.Common.Time.{Time}
use modelsentry.Common.Models.{
  Uuid, DriftReport, AlertRule, AlertEvent, AlertChannel, webhook, slack, email,
}
use modelsentry.Float.{Floats}
use modelsentry.Alert.{
  AlertEngine, Delivery, posted, mailed, refused_target, skipped_email, fire_channel,
  evaluate_and_fire,
}
use modelsentry.Alert.Address.{IpAddr, is_disallowed_ip}
use modelsentry.Alert.Outcome.{deliveries_for, should_fire, evaluate_and_fire_lem}
use modelsentry.Alert.Target.{
  Url, Network, Refusal, Checked, passed, refused, ◌>>=◌, or_refuse, no_host, no_port, unresolved,
  invalid_url, check_scheme, check_public, check_addresses, validate_target,
}

abbrev pub IsPublic : List IpAddr → Type 0
IsPublic ips = All (λ ip. is_disallowed_ip ip ≡ false) ips

-- An http or https URL with a host whose every address, and at least one, is public.
pub record IsPublicTarget (net : Network) (url : String) : Type 0 where
  pub parsed : Url
  pub parses : net.parse_url url ≡ some parsed
  pub scheme : (parsed.scheme ≡ "http") ⊎ (parsed.scheme ≡ "https")
  pub host : String
  pub has_host : parsed.host ≡ some host
  pub port : ℕ
  pub has_port : parsed.port ≡ some port
  pub addrs : List IpAddr
  pub resolves : net.lookup_host host port ≡ some addrs
  pub some_address : 0 < length addrs
  pub public : IsPublic addrs

check_public_iff : (ips : List IpAddr) → (check_public ips ≡ passed tt) ↔ IsPublic ips
check_public_iff [] = (λ h. tt, λ h. refl)
check_public_iff (ip ∷ ips) = elim (Bool-cases (is_disallowed_ip ip)) [
  | inl e ↦ (λ h. absurd (cc (rw e at h)), λ h. absurd (cc (h.0)))
  | inr e ↦
      (λ h. (e, (check_public_iff ips).0 (rw e at h)), λ h. rw e ((check_public_iff ips).1 h.1))
]

check_addresses_iff :
    (host : String) (ips : List IpAddr)
    → (check_addresses host ips ≡ passed tt) ↔ ((0 < length ips) × IsPublic ips)
check_addresses_iff host [] = (λ h. absurd (cc), λ h. absurd (omega (arith, h.0)))
check_addresses_iff host (ip ∷ ips) = (
  λ h. (omega arith, (check_public_iff (ip ∷ ips)).0 h),
  λ h. (check_public_iff (ip ∷ ips)).1 h.1,
)

check_scheme_iff : (s : String) → (check_scheme s ≡ passed tt) ↔ ((s ≡ "http") ⊎ (s ≡ "https"))
check_scheme_iff s = (
  λ h. ground (arith, eq_iff s "http", eq_iff s "https"),
  λ h. ground (arith, eq_iff s "http", eq_iff s "https"),
)

bind-passed :
    {A B : Type 0} (m : Checked A) (f : A → Checked B) {b : B}
    → (m >>= f) ≡ passed b
    → (a : A) × (m ≡ passed a) × (f a ≡ passed b)
bind-passed (passed a) f h = (a, refl, h)
bind-passed (refused r) f h = absurd (cc)

or_refuse-passed :
    {A : Type 0} (o : Option A) (r : Refusal) {a : A} → or_refuse o r ≡ passed a → o ≡ some a
or_refuse-passed none r h = absurd (cc)
or_refuse-passed (some a) r h = cc

-- With private targets blocked, the guard passes a URL exactly when it has the http or the https
-- scheme and a host and a port that resolve to at least one address, all of them public.
pub validate_target_iff :
    (net : Network) (url : String)
    → (validate_target net false url ≡ passed tt) ↔ IsPublicTarget net url
unfolding validate_target
validate_target_iff net url = (
  λ h.
      let (p, e₁, h₁) = bind-passed (or_refuse (net.parse_url url) invalid_url) _ h in
      let (t, e₂, h₂) = bind-passed (check_scheme p.scheme) _ h₁ in
      let (host, e₃, h₃) = bind-passed (or_refuse p.host no_host) _ h₂ in
      let (port, e₄, h₄) = bind-passed (or_refuse p.port no_port) _ h₃ in
      let (addrs, e₅, h₅) =
        bind-passed (or_refuse (net.lookup_host host port) (unresolved host)) _ h₄ in
      let (some_address, public) = (check_addresses_iff host addrs).0 h₅ in
      record {
        parsed = p;
        parses = or_refuse-passed (net.parse_url url) invalid_url e₁;
        scheme = (check_scheme_iff p.scheme).0 e₂;
        host = host;
        has_host = or_refuse-passed p.host no_host e₃;
        port = port;
        has_port = or_refuse-passed p.port no_port e₄;
        addrs = addrs;
        resolves = or_refuse-passed (net.lookup_host host port) (unresolved host) e₅;
        some_address = some_address;
        public = public;
      },
  λ h.
      rw
        (
          h.parses,
          (check_scheme_iff h.parsed.scheme).1 h.scheme,
          h.has_host,
          h.has_port,
          h.resolves,
        )
        ((check_addresses_iff h.host h.addrs).1 (h.some_address, h.public)),
)

module _ {F32 F64 : Type 0} (fl : Floats F32 F64) (net : Network) where
  abbrev pub IsGuarded : Delivery F32 → Type 0
  IsGuarded (posted url event) = IsPublicTarget net url
  IsGuarded (mailed address subject event) = Unit
  IsGuarded (refused_target url reason) = Unit
  IsGuarded (skipped_email address) = Unit

  url-IsGuarded :
      (event : AlertEvent F32) (url : String) (verdict : Checked (Unit {0}))
      → validate_target net false url ≡ verdict
      → IsGuarded (elim verdict [
        | passed _ ↦ posted url event
        | refused reason ↦ refused_target url reason
      ])
  url-IsGuarded event url (passed u) e = (validate_target_iff net url).0 e
  url-IsGuarded event url (refused r) e = tt

  module _ (engine : AlertEngine F64) (blocks : engine.allow_private_targets ≡ false) where
    channel-IsGuarded :
        (event : AlertEvent F32) (c : AlertChannel) → IsGuarded (fire_channel fl net engine event c)
    channel-IsGuarded event (webhook url) = rw blocks (url-IsGuarded event url _ refl)
    channel-IsGuarded event (slack url) = rw blocks (url-IsGuarded event url _ refl)
    channel-IsGuarded event (email address) = elim (Bool-cases engine.has_mailer) [
      | inl e ↦ rw e tt
      | inr e ↦ rw e tt
    ]

    channels-IsGuarded :
        (event : AlertEvent F32) (cs : List AlertChannel)
        → All IsGuarded (map (fire_channel fl net engine event) cs)
    channels-IsGuarded event [] = tt
    channels-IsGuarded event (c ∷ cs) = (channel-IsGuarded event c, channels-IsGuarded event cs)

    module _ (fresh : ℕ → Uuid) (report : DriftReport F32) (last_fired : Assoc Uuid Time)
        (spent_alpha : Assoc Uuid F64) (now : Time) where
      deliveries-IsGuarded :
          (n : ℕ) (rules : List (AlertRule F32))
          → All IsGuarded
              (deliveries_for fl net engine fresh report last_fired spent_alpha now n rules)
      deliveries-IsGuarded n [] = tt
      deliveries-IsGuarded n (rule ∷ rules) =
          All-append IsGuarded _ _ (channels-IsGuarded _ rule.channels)
            (deliveries-IsGuarded (suc n) rules)

      -- An engine that blocks private targets posts only to URLs that are public targets, whatever
      -- the rules say.
      pub evaluate_and_fire-IsGuarded :
          (rules : List (AlertRule F32))
          → All IsGuarded
              (evaluate_and_fire fl net engine fresh report last_fired spent_alpha now
                rules).deliveries
      evaluate_and_fire-IsGuarded rules =
          rw (evaluate_and_fire_lem fl net engine fresh report last_fired spent_alpha now rules).1 (
            deliveries-IsGuarded 0
              (filter (should_fire fl net engine fresh report last_fired spent_alpha now) rules))
