-- ===== src/Alert/Address.antt =====
-- `is_disallowed_ip` (crates/core/src/alert.rs) over the address types of the standard library,
-- with the classes of addresses that its documentation defines.
use modelsentry.Base.{
  ℕ, ◌+◌, ◌*◌, ◌/◌, ◌^◌, ◌-◌, ◌<◌, ◌≡◌, Bool, true, false, ◌&&◌, ◌||◌, List, [], ◌∷◌, any, arith,
  ◌==◌, leb, if◌then◌else◌, bit_and, ◌%◌,
}

-- Four octets, or eight segments of sixteen bits.
pub data IpAddr : Type 0 where
  v4 : ℕ → ℕ → ℕ → ℕ → IpAddr
  v6 : ℕ → ℕ → ℕ → ℕ → ℕ → ℕ → ℕ → ℕ → IpAddr

abbrev pub is_loopback : ℕ → ℕ → ℕ → ℕ → Bool
is_loopback a b c d = a == 127

abbrev pub is_unspecified : ℕ → ℕ → ℕ → ℕ → Bool
is_unspecified a b c d = a == 0 && (b == 0 && c == 0 && d == 0)

abbrev pub is_multicast : ℕ → ℕ → ℕ → ℕ → Bool
is_multicast a b c d = leb 224 a && leb a 239

abbrev pub is_private : ℕ → ℕ → ℕ → ℕ → Bool
is_private a b c d = a == 10 || (a == 172 && leb 16 b && leb b 31) || (a == 192 && b == 168)

abbrev pub is_link_local : ℕ → ℕ → ℕ → ℕ → Bool
is_link_local a b c d = a == 169 && b == 254

abbrev pub is_broadcast : ℕ → ℕ → ℕ → ℕ → Bool
is_broadcast a b c d = a == 255 && b == 255 && c == 255 && d == 255

abbrev pub is_documentation : ℕ → ℕ → ℕ → ℕ → Bool
is_documentation a b c d =
    (a == 192 && b == 0 && c == 2)
    || (a == 198 && b == 51 && c == 100)
    || (a == 203 && b == 0 && c == 113)

abbrev pub is_disallowed_v4 : ℕ → ℕ → ℕ → ℕ → Bool
is_disallowed_v4 a b c d =
    if is_loopback a b c d || is_unspecified a b c d || is_multicast a b c d
    then true
    else is_private a b c d
      || is_link_local a b c d
      || is_broadcast a b c d
      || is_documentation a b c d
      || a == 0

abbrev pub is_disallowed_ip : IpAddr → Bool
is_disallowed_ip (v4 a b c d) = is_disallowed_v4 a b c d
is_disallowed_ip (v6 a b c d e f g h) =
    let low_zero = a == 0 && b == 0 && c == 0 && d == 0 && e == 0 in
    if (low_zero && f == 0 && g == 0 && h == 1)
      || (low_zero && f == 0 && g == 0 && h == 0)
      || bit_and a 65280 == 65280
    then true
    else if low_zero && f == 65535
    then is_disallowed_v4 (g / 256) (g % 256) (h / 256) (h % 256)
    else bit_and a 65472 == 65152 || bit_and a 65024 == 64512

-- A network in CIDR notation: the number of its first address and its prefix length.
pub record Network4 : Type 0 where
  pub base : ℕ
  pub prefix : ℕ

abbrev pub number : ℕ → ℕ → ℕ → ℕ → ℕ
number a b c d = a * 16777216 + b * 65536 + c * 256 + d

abbrev pub contains : ℕ → Network4 → Bool
contains n net = n / 2 ^ (32 - net.prefix) == net.base / 2 ^ (32 - net.prefix)

abbrev pub cidr : ℕ → ℕ → ℕ → ℕ → ℕ → Network4
cidr a b c d p = record { base = number a b c d; prefix = p }

-- The networks that must not be reached.
abbrev pub blocked_networks : List Network4
blocked_networks =
    cidr 0 0 0 0 8
    ∷ cidr 10 0 0 0 8
    ∷ cidr 127 0 0 0 8
    ∷ cidr 169 254 0 0 16
    ∷ cidr 172 16 0 0 12
    ∷ cidr 192 0 2 0 24
    ∷ cidr 192 168 0 0 16
    ∷ cidr 198 51 100 0 24
    ∷ cidr 203 0 113 0 24
    ∷ cidr 224 0 0 0 4
    ∷ cidr 255 255 255 255 32
    ∷ []

-- Only the order of the tests differs.
same_tests :
    (zero_net rest_zero ten loop link p172 p192 d192 d198 d203 multi broad : Bool)
    → (if loop || (zero_net && rest_zero) || multi
        then true
        else (ten || p172 || p192) || link || broad || (d192 || d198 || d203) || zero_net)
      ≡ (zero_net
          || (ten
              || (loop
                  || (link
                      || (p172
                          || (d192
                              || (p192 || (d198 || (d203 || (multi || (broad || false)))))))))))
same_tests true r ten loop link p172 p192 d192 d198 d203 multi broad = ground arith
same_tests false r true loop link p172 p192 d192 d198 d203 multi broad = ground arith
same_tests false r false true link p172 p192 d192 d198 d203 multi broad = ground arith
same_tests false r false false link p172 p192 d192 d198 d203 true broad = ground arith
same_tests false r false false link p172 p192 d192 d198 d203 false broad = ground arith

module _ (a b c d : ℕ) (hb : b < 256) (hc : c < 256) (hd : d < 256) where
  by_8 : number a b c d / 256 ≡ a * 65536 + b * 256 + c
  by_8 = omega arith

  by_16 : number a b c d / 65536 ≡ a * 256 + b
  by_16 = omega arith

  by_20 : number a b c d / 1048576 ≡ a * 16 + b / 16
  by_20 = omega arith

  by_24 : number a b c d / 16777216 ≡ a
  by_24 = omega arith

  by_28 : number a b c d / 268435456 ≡ a / 16
  by_28 = omega arith

  net_0 : contains (number a b c d) (cidr 0 0 0 0 8) ≡ (a == 0)
  net_0 = ground (arith, by_24)

  net_10 : contains (number a b c d) (cidr 10 0 0 0 8) ≡ (a == 10)
  net_10 = ground (arith, by_24)

  net_127 : contains (number a b c d) (cidr 127 0 0 0 8) ≡ (a == 127)
  net_127 = ground (arith, by_24)

  net_169 : contains (number a b c d) (cidr 169 254 0 0 16) ≡ (a == 169 && b == 254)
  net_169 = ground (arith, by_16)

  net_172 : contains (number a b c d) (cidr 172 16 0 0 12) ≡ (a == 172 && leb 16 b && leb b 31)
  net_172 = ground (arith, by_20)

  net_192_0_2 : contains (number a b c d) (cidr 192 0 2 0 24) ≡ (a == 192 && b == 0 && c == 2)
  net_192_0_2 = ground (arith, by_8)

  net_192_168 : contains (number a b c d) (cidr 192 168 0 0 16) ≡ (a == 192 && b == 168)
  net_192_168 = ground (arith, by_16)

  net_198 : contains (number a b c d) (cidr 198 51 100 0 24) ≡ (a == 198 && b == 51 && c == 100)
  net_198 = ground (arith, by_8)

  net_203 : contains (number a b c d) (cidr 203 0 113 0 24) ≡ (a == 203 && b == 0 && c == 113)
  net_203 = ground (arith, by_8)

  net_224 : contains (number a b c d) (cidr 224 0 0 0 4) ≡ (leb 224 a && leb a 239)
  net_224 = ground (arith, by_28)

  net_255 :
      contains (number a b c d) (cidr 255 255 255 255 32)
      ≡ (a == 255 && b == 255 && c == 255 && d == 255)
  net_255 = ground (arith)

  in_networks : is_disallowed_v4 a b c d ≡ any (contains (number a b c d)) blocked_networks
  in_networks =
      rw
        (
          net_0, net_10, net_127, net_169, net_172, net_192_0_2, net_192_168, net_198, net_203,
          net_224, net_255,
        )
        (same_tests (a == 0) (b == 0 && c == 0 && d == 0) (a == 10) (a == 127)
          (a == 169 && b == 254) (a == 172 && leb 16 b && leb b 31) (a == 192 && b == 168)
          (a == 192 && b == 0 && c == 2) (a == 198 && b == 51 && c == 100)
          (a == 203 && b == 0 && c == 113) (leb 224 a && leb a 239)
          (a == 255 && b == 255 && c == 255 && d == 255))

-- Every octet is below 256.
abbrev pub IsOctets : ℕ → ℕ → ℕ → ℕ → Type 0
IsOctets a b c d = (a < 256) × (b < 256) × (c < 256) × (d < 256)

-- An IPv4 address is disallowed exactly when one of the blocked networks contains it, and its
-- IPv4-mapped IPv6 form is disallowed exactly then too.
pub is_disallowed_ip-networks :
    (a b c d : ℕ)
    → IsOctets a b c d
    → (is_disallowed_ip (v4 a b c d) ≡ any (contains (number a b c d)) blocked_networks)
      × (is_disallowed_ip (v6 0 0 0 0 0 65535 (a * 256 + b) (c * 256 + d))
          ≡ any (contains (number a b c d)) blocked_networks)
is_disallowed_ip-networks a b c d h =
    let octet₁ : (a * 256 + b) / 256 ≡ a = omega arith in
    let octet₂ : (a * 256 + b) % 256 ≡ b = omega arith in
    let octet₃ : (c * 256 + d) / 256 ≡ c = omega arith in
    let octet₄ : (c * 256 + d) % 256 ≡ d = omega arith in
    (
      in_networks a b c d h.1 h.2 h.3,
      rw (octet₁, octet₂, octet₃, octet₄) (in_networks a b c d h.1 h.2 h.3),
    )
