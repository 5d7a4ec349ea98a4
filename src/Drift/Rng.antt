-- ===== src/Drift/Rng.antt =====
-- `SplitMix64`, the pseudo-random generator of crates/core/src/drift/twosample.rs. A `u64` is a
-- number below 2 ^ 64 with every wrap written out; the product of `next_bounded` is a `u128`, which
-- two `u64` factors cannot overflow.
use native.Mathlib.Nat.{mod-lt, div-lt_iff_lt-mul}
use modelsentry.Base.{
  ℕ, zero, suc, ◌+◌, ◌*◌, ◌/◌, ◌%◌, ◌^◌, ◌<◌, arith, bit_xor, ◌==◌, if◌then◌else◌,
}

abbrev pub u64_size : ℕ
u64_size = 2 ^ 64

abbrev pub u64 : ℕ → ℕ
u64 n = n % u64_size

pub record SplitMix64 : Type 0 where
  pub state : ℕ

unfoldable pub new : ℕ → SplitMix64
new seed = record { state = seed }

-- `z ^ (z >> k)`, a `u64` again.
abbrev fold_right : ℕ → ℕ → ℕ
fold_right z k = u64 (bit_xor z (z / 2 ^ k))

unfoldable pub next_u64 : SplitMix64 → ℕ × SplitMix64
next_u64 r =
    let state = u64 (r.state + 0x9E3779B97F4A7C15) in
    let a = u64 (fold_right state 30 * 0xBF58476D1CE4E5B9) in
    let b = u64 (fold_right a 27 * 0x94D049BB133111EB) in
    (fold_right b 31, record { state = state })

unfoldable pub next_bounded : SplitMix64 → ℕ → ℕ × SplitMix64
next_bounded r bound =
    let draw = next_u64 r in
    if bound == 0 then (0, r) else (draw.0 * bound / u64_size % u64_size, draw.1)

next_u64-lt : (r : SplitMix64) → (next_u64 r).0 < u64_size
unfolding next_u64
next_u64-lt r = mod-lt _ (omega arith)

scaled_lt : (v b : ℕ) → v < u64_size → 0 < b → v * b / u64_size < b
scaled_lt v b h p =
    (div-lt_iff_lt-mul {k = u64_size} {x = v * b} {y = b} (omega arith)).1 (grind arith)

-- A draw below a positive bound lies below it.
pub next_bounded-lt : (r : SplitMix64) (bound : ℕ) → 0 < bound → (next_bounded r bound).0 < bound
unfolding next_bounded
next_bounded-lt r zero h = absurd (omega arith)
next_bounded-lt r (suc b) h = ground (arith, next_u64-lt r, scaled_lt (next_u64 r).0 (suc b))
