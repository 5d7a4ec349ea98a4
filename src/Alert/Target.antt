-- ===== src/Alert/Target.antt =====
-- The guard on webhook targets, `AlertEngine::validate_target` (crates/core/src/alert.rs). The URL
-- parser and the resolver of names are parameters.
use modelsentry.Base.{ℕ, Bool, ◌||◌, List, [], ◌∷◌, Option, none, some, String, if◌then◌else◌}
use text.Mathlib.Text.{◌==◌ as str_eq}
use modelsentry.Alert.Address.{IpAddr, is_disallowed_ip}

-- What the code reads of a parsed URL; the port is the known default where none is given.
pub record Url : Type 0 where
  pub scheme : String
  pub host : Option String
  pub port : Option ℕ

pub record Network : Type 0 where
  pub parse_url : String → Option Url
  pub lookup_host : String → ℕ → Option (List IpAddr)

-- The messages, by what fills them.
pub data Refusal : Type 0 where
  invalid_url no_host no_port : Refusal
  unsupported_scheme unresolved no_addresses : String → Refusal
  non_public : IpAddr → Refusal

pub data Checked (A : Type 0) : Type 0 where
  passed : A → Checked A
  refused : Refusal → Checked A

infixl 5 ◌>>=◌ ◌>>◌
abbrev pub ◌>>=◌ : {A B : Type 0} → Checked A → (A → Checked B) → Checked B
passed a >>= f = f a
refused r >>= f = refused r

abbrev pub ◌>>◌ : {B : Type 0} → Checked (Unit {0}) → Checked B → Checked B
m >> k = m >>= λ _. k

abbrev pub or_refuse : {A : Type 0} → Option A → Refusal → Checked A
or_refuse none r = refused r
or_refuse (some a) r = passed a

abbrev pub check_scheme : String → Checked (Unit {0})
check_scheme scheme =
    if str_eq scheme "http" || str_eq scheme "https"
    then passed tt
    else refused (unsupported_scheme scheme)

-- The loop over the addresses.
abbrev pub check_public : List IpAddr → Checked (Unit {0})
check_public [] = passed tt
check_public (ip ∷ ips) =
    let rest = check_public ips in if is_disallowed_ip ip then refused (non_public ip) else rest

abbrev pub check_addresses : String → List IpAddr → Checked (Unit {0})
check_addresses host [] = refused (no_addresses host)
check_addresses host (ip ∷ ips) = check_public (ip ∷ ips)

abbrev pub check_host : Network → Url → Checked (Unit {0})
check_host net parsed = do
  host ← or_refuse parsed.host no_host
  port ← or_refuse parsed.port no_port
  addrs ← or_refuse (net.lookup_host host port) (unresolved host)
  check_addresses host addrs

unfoldable pub validate_target : Network → Bool → String → Checked (Unit {0})
validate_target net allow_private_targets url = do
  parsed ← or_refuse (net.parse_url url) invalid_url
  check_scheme parsed.scheme
  if allow_private_targets then passed tt else check_host net parsed
