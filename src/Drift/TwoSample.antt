-- ===== src/Drift/TwoSample.antt =====
-- The two-sample statistic and its permutation test (crates/core/src/drift/twosample.rs). A panic
-- would be the error `panicked`.
pub mod Validate
pub mod Nulls
pub mod PValue
use modelsentry.Base.{
  ℕ, zero, suc, ◌+◌, ◌-◌, ◌*◌, Bool, true, false, not, ◌&&◌, ◌||◌, List, [], ◌∷◌, ◌++◌, map, length,
  get_or, first, find, count_if, none, some, ltb, ◌==◌, if◌then◌else◌,
}
use modelsentry.Base.Loops.{for_range, range}
use modelsentry.Common.Error.{
  ModelSentryError, Result, ok, err, ◌>>=◌, ◌>>◌, fail_if, says, says_with,
}
use modelsentry.Float.{Floats}
use modelsentry.Drift.Rng.{SplitMix64, new}
use modelsentry.Drift.Shuffle.{fisher_yates}
use modelsentry.Drift.Kernel.{Kernel, rbf, energy, sum_of, gram_matrix}

pub record TwoSampleOutcome (F : Type 0) : Type 0 where
  pub statistic : F
  pub p_value : F
  pub effect_size : F
  pub n_baseline : ℕ
  pub n_run : ℕ
  pub n_permutations : ℕ

abbrev pub min_samples_per_group : ℕ
min_samples_per_group = 2

abbrev pub panicked : ModelSentryError
panicked = ModelSentryError.internal (says "index out of bounds")

module _ {F : Type 0} where
  abbrev pub dim_of_first : List (List F) → ℕ
  dim_of_first vs = elim (first vs) [ none ↦ 0 | some v ↦ length v ]

  -- The loop that returns at the first vector of another length.
  abbrev pub check_all : ℕ → List (List F) → Result (Unit {0})
  check_all dim vs = elim (find (λ v. not (length v == dim)) vs) [
    | none ↦ ok tt
    | some v ↦ err (ModelSentryError.dimension_mismatch dim (length v))
  ]

  unfoldable pub validate : List (List F) → List (List F) → Result ℕ
  validate x y = do
    fail_if (ltb (length x) min_samples_per_group || ltb (length y) min_samples_per_group) (
        ModelSentryError.drift (
          says_with "two-sample test needs ≥{} samples per group; got {} baseline, {} run"
            (min_samples_per_group ∷ length x ∷ length y ∷ [])))
    let dim = dim_of_first x
    fail_if (dim == 0) ModelSentryError.empty_embedding
    check_all dim (x ++ y)
    ok dim

abbrev pub is_unbiased : {F : Type 0} → Kernel F → Bool
is_unbiased (rbf bandwidth) = true
is_unbiased energy = false

module _ {F32 F64 : Type 0} (fl : Floats F32 F64) where
  open fl use {single, double, widen, narrow}

  abbrev pub at : List F64 → ℕ → List ℕ → ℕ → ℕ → F64
  at gram n perm a b = get_or gram (get_or perm a 0 * n + get_or perm b 0) (double.of_nat 0)

  -- The double loop over rows a_lo.. and columns b_lo.., leaving out the diagonal if told to.
  abbrev pub sum_block : (ℕ → ℕ → F64) → Bool → ℕ → ℕ → ℕ → ℕ → F64
  sum_block entry skip_diagonal a_lo a_n b_lo b_n =
      for_range a_n a_lo
        (λ a acc.
          for_range b_n b_lo
            (λ b acc'. if skip_diagonal && a == b then acc' else double.add acc' (entry a b)) acc)
        (double.of_nat 0)

  abbrev pub denominator : Bool → F64 → F64
  denominator unbiased g =
      if unbiased then double.mul g (double.sub g (double.of_nat 1)) else double.mul g g

  unfoldable pub statistic_from_gram : List F64 → ℕ → List ℕ → ℕ → Bool → F64
  statistic_from_gram gram n perm m unbiased =
      let total = length perm in
      let nn = total - m in
      let entry = at gram n perm in
      let within_first = sum_block entry unbiased 0 m 0 m in
      let within_second = sum_block entry unbiased m nn m nn in
      let across = sum_block entry false 0 m m nn in
      let g1 = double.of_nat m in
      let g2 = double.of_nat nn in
      double.sub
        (double.add (double.div within_first (denominator unbiased g1))
          (double.div within_second (denominator unbiased g2)))
        (double.div (double.mul (double.of_nat 2) across) (double.mul g1 g2))

  -- One statistic of the observed labelling, as `mmd2_unbiased` and `energy_distance` compute it.
  abbrev pub plain_statistic : Kernel F32 → List (List F32) → List (List F32) → Result F32
  plain_statistic kernel x y = validate x y >>= λ dim.
      let pooled = x ++ y in
      ok (
        narrow (
          statistic_from_gram (gram_matrix fl pooled kernel) (length pooled)
            (range 0 (length pooled)) (length x) (is_unbiased kernel)))

  unfoldable pub mmd2_unbiased : List (List F32) → List (List F32) → F32 → Result F32
  mmd2_unbiased x y bandwidth = plain_statistic (rbf bandwidth) x y

  unfoldable pub energy_distance : List (List F32) → List (List F32) → Result F32
  energy_distance x y = plain_statistic energy x y

  -- The rounds of the permutation loop: each shuffles the labels further and records the statistic.
  nulls_loop : (List ℕ → F32) → ℕ → List ℕ → SplitMix64 → Result (List F32)
  nulls_loop stat zero perm rng = ok []
  nulls_loop stat (suc n) perm rng = elim (fisher_yates perm rng) [
    | none ↦ err panicked
    | some (perm', rng') ↦ nulls_loop stat n perm' rng' >>= λ nulls. ok (stat perm' ∷ nulls)
  ]

  -- The statistic of a labelling of the pooled points.
  abbrev pub labelled : Kernel F32 → List (List F32) → List (List F32) → List ℕ → F32
  labelled kernel baseline run perm =
      let pooled = baseline ++ run in
      narrow (
        statistic_from_gram (gram_matrix fl pooled kernel) (length pooled) perm (length baseline)
          (is_unbiased kernel))

  unfoldable pub permutation_nulls :
      List (List F32) → List (List F32) → Kernel F32 → ℕ → ℕ → Result (F32 × List F32)
  unfolding nulls_loop
  permutation_nulls baseline run kernel n_permutations seed = validate baseline run >>= λ dim.
      let identity = range 0 (length (baseline ++ run)) in
      let stat = labelled kernel baseline run in
      nulls_loop stat n_permutations identity (new seed) >>= λ nulls. ok (stat identity, nulls)

  abbrev pub permutation_tolerance : F32
  permutation_tolerance = single.decimal 1 6

  abbrev pub std_floor : F32
  std_floor = single.decimal 1 6

  -- The number of nulls that reach the observed statistic, less the tolerance.
  abbrev pub at_least : F32 → List F32 → ℕ
  at_least observed = count_if (λ s. single.le (single.sub observed permutation_tolerance) s)

  -- `(1 + k) / (1 + n)` of two counts.
  abbrev pub count_ratio : ℕ → ℕ → F32
  count_ratio k n =
      single.div (single.add (single.of_nat 1) (single.of_nat k))
        (single.add (single.of_nat 1) (single.of_nat n))

  -- Mean and floored standard deviation, in 64 bits.
  abbrev pub mean_of : List F32 → F64
  mean_of xs = double.div (sum_of double (map widen xs)) (double.of_nat (length xs))

  abbrev pub sd_of : List F32 → F64
  sd_of xs =
      let mean = mean_of xs in
      let squares = map (λ x. let d = double.sub (widen x) mean in double.mul d d) xs in
      double.max (double.sqrt (double.div (sum_of double squares) (double.of_nat (length xs))))
        (widen std_floor)

  unfoldable pub standardized_excursion : F32 → List F32 → F32
  standardized_excursion observed nulls =
      if length nulls == 0
      then single.of_nat 0
      else narrow (
          double.max (double.div (double.sub (widen observed) (mean_of nulls)) (sd_of nulls))
            (double.of_nat 0))

  abbrev pub outcome_of :
      List (List F32) → List (List F32) → ℕ → F32 → List F32 → TwoSampleOutcome F32
  outcome_of baseline run n_permutations observed nulls = record {
    statistic = observed;
    p_value = count_ratio (at_least observed nulls) n_permutations;
    effect_size = standardized_excursion observed nulls;
    n_baseline = length baseline;
    n_run = length run;
    n_permutations = n_permutations;
  }

  unfoldable pub two_sample_test :
      List (List F32) → List (List F32) → Kernel F32 → ℕ → ℕ → Result (TwoSampleOutcome F32)
  two_sample_test baseline run kernel n_permutations seed = do
    (observed, nulls) ← permutation_nulls baseline run kernel n_permutations seed
    ok (outcome_of baseline run n_permutations observed nulls)
