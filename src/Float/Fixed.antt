-- ===== src/Float/Fixed.antt =====
-- A concrete number type for tests and witnesses: signed fixed-point numbers with six decimals,
-- rounded toward zero, with no infinities and no NaN. `exp` and `log10` are coarse (a tangent and a
-- digit count); nothing is proved that rests on their values.
use modelsentry.Base.{
  ℕ, zero, suc, ◌+◌, ◌-◌, ◌*◌, ◌/◌, ◌^◌, ◌≡◌, ◌≤◌, ◌<◌, Bool, true, false, arith, leb, ltb,
  if◌then◌else◌,
}
use modelsentry.Base.Int.{ℤ, pos, negsuc, pos_part, neg_part, ◌+ℤ◌, ◌-ℤ◌, ltb_ℤ, sub_ℕ}
use native.Mathlib.Nat.{le-div_iff_mul-le, div-le_of_le-mul, div-mul-le_self, le_trans}
use modelsentry.Float.Ops.{FloatOps, FloatLaws, FloatsLaws, Floats}

abbrev scale : ℕ
scale = 1000000

abbrev magnitude : ℤ → ℕ
magnitude a = pos_part a + neg_part a

-- Quotients and products of magnitudes, with the sign put back.
abbrev signed : ℤ → ℤ → ℕ → ℤ
signed (pos a) (pos b) n = pos n
signed (pos a) (negsuc b) n = sub_ℕ 0 n
signed (negsuc a) (pos b) n = sub_ℕ 0 n
signed (negsuc a) (negsuc b) n = pos n

abbrev leb_ℤ : ℤ → ℤ → Bool
leb_ℤ a b = leb (pos_part a + neg_part b) (pos_part b + neg_part a)

abbrev max_ℤ : ℤ → ℤ → ℤ
max_ℤ a b = if leb_ℤ a b then b else a

abbrev min_ℤ : ℤ → ℤ → ℤ
min_ℤ a b = if leb_ℤ a b then a else b

abbrev mul_ℤ : ℤ → ℤ → ℤ
mul_ℤ a b = signed a b (magnitude a * magnitude b / scale)

abbrev div_ℤ : ℤ → ℤ → ℤ
div_ℤ a b = signed a b (magnitude a * scale / magnitude b)

-- The largest number whose square is at most `n`, by halving [lo, hi].
root_between : ℕ → ℕ → ℕ → ℕ → ℕ
root_between zero lo hi n = lo
root_between (suc f) lo hi n =
    let mid = (lo + hi + 1) / 2 in
    elim (leb (mid * mid) n) [
      | true ↦ root_between f mid hi n
      | false ↦ root_between f lo (mid - 1) n
    ]

unfoldable pub sqrt_ℤ : ℤ → ℤ
unfolding root_between
sqrt_ℤ a = pos (root_between 64 0 (2 ^ 64) (pos_part a * scale))

unfoldable pub digits_below : ℕ → ℕ → ℕ
digits_below zero n = 0
digits_below (suc f) n = let rest = digits_below f (n / 10) + 1 in if ltb n 10 then 0 else rest

abbrev pub fixed_ops : FloatOps ℤ
fixed_ops = record {
  of_nat = λ n. pos (n * scale);
  decimal = λ m e. pos (m * scale / 10 ^ e);
  add = ◌+ℤ◌;
  sub = ◌-ℤ◌;
  mul = mul_ℤ;
  div = div_ℤ;
  neg = λ a. pos 0 -ℤ a;
  sqrt = sqrt_ℤ;
  exp = λ a. pos scale +ℤ a;
  log10 = λ a. pos (digits_below 64 (pos_part a) * scale) -ℤ pos (6 * scale);
  ceil = λ a. pos ((pos_part a + scale - 1) / scale * scale);
  max = max_ℤ;
  min = min_ℤ;
  lt = ltb_ℤ;
  le = leb_ℤ;
  is_finite = λ a. true;
  nan = pos 0;
  min_positive = pos 1;
  to_nat = λ a. pos_part a / scale;
}

abbrev pub fixed : Floats ℤ ℤ
fixed = record { single = fixed_ops; double = fixed_ops; widen = λ a. a; narrow = λ a. a }

div_mono_ℕ : (a b c : ℕ) → a ≤ b → a / c ≤ b / c
div_mono_ℕ a b zero h = omega arith
div_mono_ℕ a b (suc c) h =
    (le-div_iff_mul-le {k = suc c} {x = a / suc c} {y = b} (omega arith)).1
      (le_trans (div-mul-le_self a (suc c)) h)

abbrev one_plus : ℕ → ℤ
one_plus n = pos (1 * scale) +ℤ pos (n * scale)

div_mono_ℤ :
    (x y : ℤ) (n : ℕ)
    → leb_ℤ (pos scale) x ≡ true
    → leb_ℤ x y ≡ true
    → leb_ℤ (div_ℤ x (one_plus n)) (div_ℤ y (one_plus n)) ≡ true
unfolding ◌+ℤ◌
div_mono_ℤ (pos a) (pos b) n p q =
    ground (arith, div_mono_ℕ (a * scale) (b * scale) (1 * scale + n * scale))
div_mono_ℤ (pos a) (negsuc b) n p q = ground arith
div_mono_ℤ (negsuc a) y n p q = ground arith

quotient_le : (a c : ℕ) → 0 < c → a ≤ c → a * scale / c ≤ scale
quotient_le a c h k = div-le_of_le-mul c {m = a * scale} {n = scale} (omega arith)

div_le_one_ℤ :
    (x : ℤ) (n : ℕ)
    → leb_ℤ (pos scale) x ≡ true
    → leb_ℤ x (one_plus n) ≡ true
    → leb_ℤ (div_ℤ x (one_plus n)) (pos scale) ≡ true
unfolding ◌+ℤ◌
div_le_one_ℤ (pos a) n p q = ground (arith, quotient_le a (1 * scale + n * scale))
div_le_one_ℤ (negsuc a) n p q = ground arith

-- The instance satisfies every law of the interface.
pub fixed_laws : FloatLaws fixed_ops
unfolding ◌+ℤ◌ ◌-ℤ◌
fixed_laws = record {
  le_trans = λ x y z p q. ground arith;
  lt_trans = λ x y z p q. ground arith;
  lt_irrefl = λ x. ground arith;
  of_nat_mono = λ m n h. ground arith;
  one_add_mono = λ m n h. ground arith;
  one_le_one_add = λ n. ground arith;
  div_mono = λ x y n p q r. div_mono_ℤ x y n p q;
  div_le_one = λ x n p q. div_le_one_ℤ x n p q;
  le_max_right = λ x y p. ground arith;
  add_nonneg = λ x y p q. ground arith;
  div_nonneg = λ x n p h. ground arith;
  sub_square = λ x y. ground arith;
}

pub fixed_both : FloatsLaws fixed
fixed_both = record { on_single = fixed_laws; on_double = fixed_laws; narrow_nonneg = λ x h. h }
