-- ===== src/Drift/TwoSample/PValue.antt =====
-- The bounds of the permutation p-value and of the effect size.
use modelsentry.Base.{
  ℕ, ◌≤◌, ◌≡◌, refl, true, List, ◌++◌, arith, length, count_if-le, Bool-cases, inl, inr, ◌==◌,
}
use modelsentry.Common.Error.{Result-cases, ok}
use modelsentry.Float.{Floats, FloatsLaws}
use modelsentry.Drift.Kernel.{Kernel}
use modelsentry.Drift.TwoSample.{
  TwoSampleOutcome, validate, count_ratio, at_least, two_sample_test, permutation_nulls,
  permutation_tolerance, outcome_of, standardized_excursion, labelled,
}
use modelsentry.Base.Loops.{range}
use modelsentry.Drift.TwoSample.Nulls.{permutation_nulls_total}

module _ {F32 F64 : Type 0} (fl : Floats F32 F64) (laws : FloatsLaws fl) where
  open fl use {single}

  -- `1 / (n + 1)` rounded, the least value that a p-value over `n` permutations takes.
  abbrev pub resolution : ℕ → F32
  resolution n = single.div (single.of_nat 1) (single.add (single.of_nat 1) (single.of_nat n))

  abbrev pub IsPValue : ℕ → F32 → Type 0
  IsPValue n p = (single.le (resolution n) p ≡ true) × (single.le p (single.of_nat 1) ≡ true)

  pub count_ratio-IsPValue : (k n : ℕ) → k ≤ n → IsPValue n (count_ratio fl k n)
  count_ratio-IsPValue k n h = (
    laws.on_single.div_mono _ _ n (laws.on_single.of_nat_mono 1 1 (omega arith))
        (laws.on_single.one_le_one_add k) (laws.on_single.one_add_mono k n h),
    laws.on_single.div_le_one _ n (laws.on_single.one_le_one_add k)
        (laws.on_single.one_add_mono k n h),
  )

  abbrev pub IsNonneg : F32 → Type 0
  IsNonneg x = single.le (single.of_nat 0) x ≡ true

  pub standardized_excursion-IsNonneg :
      (observed : F32) (nulls : List F32) → IsNonneg (standardized_excursion fl observed nulls)
  unfolding standardized_excursion
  standardized_excursion-IsNonneg observed nulls = elim (Bool-cases (length nulls == 0)) [
    | inl e ↦ rw e (laws.on_single.of_nat_mono 0 0 (omega arith))
    | inr e ↦ rw e (
        laws.narrow_nonneg _
          (laws.on_double.le_max_right _ _ (laws.on_double.of_nat_mono 0 0 (omega arith))))
  ]

  -- On accepted samples the test returns an outcome whose p-value is at least the resolution
  -- 1 / (B + 1) of B permutations and at most 1, whose effect size is not negative, and which names both sample sizes and B.
  pub two_sample_test-IsPValue :
      (baseline run : List (List F32)) (kernel : Kernel F32) (n seed : ℕ) {d : ℕ}
      → validate baseline run ≡ ok d
      → (out : TwoSampleOutcome F32) × (two_sample_test fl baseline run kernel n seed ≡ ok out)
        × IsPValue n out.p_value
        × IsNonneg out.effect_size
        × (out.n_baseline ≡ length baseline)
        × (out.n_run ≡ length run)
        × (out.n_permutations ≡ n)
  unfolding two_sample_test
  two_sample_test-IsPValue baseline run kernel n seed v =
      let (nulls, e, l, h) = permutation_nulls_total fl baseline run kernel n seed v in
      let observed = labelled fl kernel baseline run (range 0 (length (baseline ++ run))) in
      (
        outcome_of fl baseline run n observed nulls,
        rw e refl,
        count_ratio-IsPValue (at_least fl observed nulls) n (
            omega (
              arith,
              l,
              count_if-le (λ s. single.le (single.sub observed (permutation_tolerance fl)) s) nulls,
            )),
        standardized_excursion-IsNonneg observed nulls,
        refl,
        refl,
        refl,
      )

  -- Whatever the samples, a successful test has such a p-value and such an effect size.
  pub two_sample_test-ok :
      (baseline run : List (List F32)) (kernel : Kernel F32) (n seed : ℕ)
      (out : TwoSampleOutcome F32)
      → two_sample_test fl baseline run kernel n seed ≡ ok out
      → IsPValue n out.p_value × IsNonneg out.effect_size
  unfolding two_sample_test permutation_nulls
  two_sample_test-ok baseline run kernel n seed out h =
      elim (Result-cases (validate baseline run)) [
        | inl (d, v) ↦
            let (out', e, p, q, _, _, _) = two_sample_test-IsPValue baseline run kernel n seed v in
            let same : out ≡ out' = cc in rw same (p, q)
        | inr (x, v) ↦ absurd (cc)
      ]
