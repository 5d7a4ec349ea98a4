-- ===== src/Float/Ops.antt =====
-- Floating-point numbers. The language's `f32` and `f64` are IEEE 754 types that the kernel does not
-- have, so the operations that the source uses are a parameter, and what IEEE 754 with rounding to
-- nearest guarantees of them is a record of laws. Nothing here assumes that sums are exact or
-- associative.

use modelsentry.Base.{ℕ, ◌≡◌, Bool, true, false, ◌≤◌}

pub record FloatOps (F : Type 0) : Type 0 where
  -- `n as f32`, and the literals `0.0`, `1.0`, `2.0`, `10.0` and so on.
  pub of_nat : ℕ → F
  -- The literal `m` times ten to the minus `e`.
  pub decimal : ℕ → ℕ → F
  pub add : F → F → F
  pub sub : F → F → F
  pub mul : F → F → F
  pub div : F → F → F
  pub neg : F → F
  pub sqrt : F → F
  pub exp : F → F
  pub log10 : F → F
  pub ceil : F → F
  pub max : F → F → F
  pub min : F → F → F
  pub lt : F → F → Bool
  pub le : F → F → Bool
  pub is_finite : F → Bool
  pub nan : F
  pub min_positive : F
  -- The saturating cast `x as usize`.
  pub to_nat : F → ℕ

-- The two widths with `f64::from` and the rounding cast `as f32`.
pub record Floats (F32 F64 : Type 0) : Type 0 where
  pub single : FloatOps F32
  pub double : FloatOps F64
  pub widen : F32 → F64
  pub narrow : F64 → F32

-- Facts of IEEE 754 arithmetic: the order of numbers is transitive, a test against a NaN fails, and
-- each operation rounds a monotone function monotonically. Counts are `usize` values.
pub record FloatLaws {F : Type 0} (o : FloatOps F) : Type 0 where
  pub le_trans : (x y z : F) → o.le x y ≡ true → o.le y z ≡ true → o.le x z ≡ true
  pub lt_trans : (x y z : F) → o.lt x y ≡ true → o.lt y z ≡ true → o.lt x z ≡ true
  pub lt_irrefl : (x : F) → o.lt x x ≡ false
  pub of_nat_mono : (m n : ℕ) → m ≤ n → o.le (o.of_nat m) (o.of_nat n) ≡ true
  pub one_add_mono :
      (m n : ℕ)
      → m ≤ n
      → o.le (o.add (o.of_nat 1) (o.of_nat m)) (o.add (o.of_nat 1) (o.of_nat n)) ≡ true
  pub one_le_one_add : (n : ℕ) → o.le (o.of_nat 1) (o.add (o.of_nat 1) (o.of_nat n)) ≡ true
  -- A quotient of counts that are at least one is monotone above and at most one below the divisor.
  pub div_mono :
      (x y : F) (n : ℕ)
      → o.le (o.of_nat 1) x ≡ true
      → o.le x y ≡ true
      → o.le y (o.add (o.of_nat 1) (o.of_nat n)) ≡ true
      → o.le (o.div x (o.add (o.of_nat 1) (o.of_nat n))) (o.div y (o.add (o.of_nat 1) (o.of_nat n)))
        ≡ true
  pub div_le_one :
      (x : F) (n : ℕ)
      → o.le (o.of_nat 1) x ≡ true
      → o.le x (o.add (o.of_nat 1) (o.of_nat n)) ≡ true
      → o.le (o.div x (o.add (o.of_nat 1) (o.of_nat n))) (o.of_nat 1) ≡ true
  pub le_max_right : (x y : F) → o.le y y ≡ true → o.le y (o.max x y) ≡ true
  pub add_nonneg :
      (x y : F)
      → o.le (o.of_nat 0) x ≡ true
      → o.le (o.of_nat 0) y ≡ true
      → o.le (o.of_nat 0) (o.add x y) ≡ true
  pub div_nonneg :
      (x : F) (n : ℕ)
      → o.le (o.of_nat 0) x ≡ true
      → 1 ≤ n
      → o.le (o.of_nat 0) (o.div x (o.of_nat n)) ≡ true
  -- A difference rounds to the same magnitude either way round.
  pub sub_square : (x y : F) → o.mul (o.sub x y) (o.sub x y) ≡ o.mul (o.sub y x) (o.sub y x)

-- Both widths, and a rounding that keeps the sign.
pub record FloatsLaws {F32 F64 : Type 0} (fl : Floats F32 F64) : Type 0 where
  pub on_single : FloatLaws fl.single
  pub on_double : FloatLaws fl.double
  pub narrow_nonneg :
      (x : F64)
      → fl.double.le (fl.double.of_nat 0) x ≡ true
      → fl.single.le (fl.single.of_nat 0) (fl.narrow x) ≡ true
