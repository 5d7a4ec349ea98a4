-- ===== src/Tests/Drift.antt =====
-- Tests of the drift calculation (crates/core/src/drift).
use modelsentry.Base.{
  ℕ, ◌≡◌, refl, ◌↔◌, ◌≤◌, ◌<◌, ◌+◌, ◌*◌, List, [], ◌∷◌, ◌++◌, map, Option, none, some, All, length,
  get_elem?, true, false, all, arith, String, ◌≢◌,
}
use modelsentry.Base.Int.{ℤ, pos}
use modelsentry.Base.Loops.{range}
use modelsentry.Common.Models.{low, is_current, embedding_dim}
use modelsentry.Common.Error.{ok}
use modelsentry.Common.Time.{hours}
use modelsentry.Float.Fixed.{fixed, fixed_ops, fixed_laws, fixed_both}
use modelsentry.Drift.Rng.{SplitMix64, next_u64, next_bounded, next_bounded-lt}
use modelsentry.Drift.Rng
use modelsentry.Drift.Shuffle.{fisher_yates, SameItems, fisher_yates-SameItems}
use modelsentry.Drift.Kernel.{Kernel, energy, rbf, gram_matrix, two_sigma_sq_of, bandwidth_of}
use modelsentry.Drift.Kernel.Gram.{kernel_of, gram_matrix-get_elem?}
use modelsentry.Drift.TwoSample.{
  TwoSampleOutcome, validate, two_sample_test, permutation_nulls, labelled,
}
use modelsentry.Drift.TwoSample.PValue.{IsPValue, IsNonneg, two_sample_test-IsPValue}
use modelsentry.Drift.Assessment.{
  assess, DriftAssessment, PromptDrift, severity_from_p, usable_from, method_per_prompt,
  UsablePrompt,
}
use modelsentry.Drift.Assessment.Gate.{IsVerdict, assess-IsVerdict}
use modelsentry.Drift.Assessment.Total.{IsScorable, assess_total, entry_index, index_of}
use modelsentry.Drift.Embedding.{Embedding}
use modelsentry.Drift.Calculator.{compute, report_of}
use modelsentry.Drift.Calculator.Report.{IsComputed, compute-IsComputed}
use modelsentry.Tests.Data.{
  origin, east, north, far, clouds, run_embeddings, config, baseline, probe_run, render,
}

-- The first output for the seed 0 of the generator's published test vectors.
known_output : (next_u64 (modelsentry.Drift.Rng.new 0)).0 ≡ 16294208416658607535
unfolding next_u64 modelsentry.Drift.Rng.new
known_output = refl

next_bounded-lt_example : (next_bounded (modelsentry.Drift.Rng.new 42) 6).0 < 6
next_bounded-lt_example = next_bounded-lt (modelsentry.Drift.Rng.new 42) 6 (omega arith)

fisher_yates-SameItems_example :
    (ys : List ℕ) × (out : SplitMix64) × (fisher_yates
        (5 ∷ 7 ∷ 9 ∷ [])
        (modelsentry.Drift.Rng.new 42)
      ≡ some (ys, out))
    × SameItems (5 ∷ 7 ∷ 9 ∷ []) ys
fisher_yates-SameItems_example =
    fisher_yates-SameItems (5 ∷ 7 ∷ 9 ∷ []) (modelsentry.Drift.Rng.new 42)

gram_matrix-get_elem?_example :
    get_elem? (gram_matrix fixed (origin ∷ east ∷ north ∷ []) energy) (2 * 3 + 1)
    ≡ some (
        kernel_of fixed energy
          (two_sigma_sq_of fixed (bandwidth_of fixed energy (origin ∷ east ∷ north ∷ [])))
          north
          east)
gram_matrix-get_elem?_example =
    gram_matrix-get_elem? fixed fixed_both (origin ∷ east ∷ north ∷ []) energy 2 1 refl refl

two_sample_test-IsPValue_example :
    (out : TwoSampleOutcome ℤ) × (two_sample_test fixed
        (origin ∷ east ∷ [])
        (north ∷ far ∷ [])
        energy
        5
        42
      ≡ ok out)
    × IsPValue fixed fixed_both 5 out.p_value
    × IsNonneg fixed fixed_both out.effect_size
    × (out.n_baseline ≡ 2)
    × (out.n_run ≡ 2)
    × (out.n_permutations ≡ 5)
unfolding validate
two_sample_test-IsPValue_example =
    two_sample_test-IsPValue fixed fixed_both (origin ∷ east ∷ []) (north ∷ far ∷ []) energy 5 42
      {d = 2} refl

abbrev found : DriftAssessment ℤ
found = record {
  combined_p_value = pos 333333;
  statistic = pos 1000000;
  effect_size = pos 2065170;
  level = low;
  method = method_per_prompt;
  per_prompt =
      record {
        prompt_index = 0;
        p_value = pos 333333;
        n_baseline = 3;
        low_variance_baseline = false;
      }
      ∷ record {
        prompt_index = 1;
        p_value = pos 333333;
        n_baseline = 2;
        low_variance_baseline = false;
      }
      ∷ [];
}

assessed : assess fixed clouds run_embeddings config ≡ ok found
unfolding modelsentry.Float.Fixed.sqrt_ℤ modelsentry.Float.Fixed.digits_below assess
    modelsentry.Drift.Assessment.assess_usable usable_from
    modelsentry.Drift.Assessment.assess_per_prompt modelsentry.Drift.Scores.check_dims
    modelsentry.Drift.Scores.prompt_score permutation_nulls validate
    modelsentry.Drift.Assessment.min_perms_for_resolution fisher_yates next_bounded next_u64
    modelsentry.Drift.Rng.new modelsentry.Drift.Assessment.stratified_permutation_p
    modelsentry.Drift.Assessment.drift_score severity_from_p modelsentry.Base.Int.◌+ℤ◌
    modelsentry.Base.Int.◌-ℤ◌ modelsentry.Base.Int.◌*ℤ◌
    modelsentry.Drift.TwoSample.statistic_from_gram modelsentry.Base.Loops.for_range bandwidth_of
    gram_matrix modelsentry.Drift.Kernel.median_heuristic_bandwidth modelsentry.Drift.Kernel.sq_dist
    modelsentry.Drift.Scores.augmented_scores modelsentry.Drift.Scores.cloud_spread
    modelsentry.Drift.Scores.conformal_from_scores modelsentry.Drift.Scores.euclidean
    modelsentry.Drift.Scores.mean_std modelsentry.Drift.Scores.standardize
    modelsentry.Drift.TwoSample.standardized_excursion two_sample_test
assessed = refl

assess-IsVerdict_example : IsVerdict fixed config found
assess-IsVerdict_example =
    assess-IsVerdict fixed fixed_both clouds run_embeddings config found assessed

scorable : All IsScorable (usable_from 0 clouds run_embeddings)
unfolding usable_from
scorable = (
  record {
    dim = 2;
    positive = omega arith;
    same_dim = (refl, (refl, (refl, (refl, (refl, tt)))));
    deep = omega arith;
    sampled = omega arith;
  },
  (
    record {
      dim = 2;
      positive = omega arith;
      same_dim = (refl, (refl, (refl, tt)));
      deep = omega arith;
      sampled = omega arith;
    },
    tt,
  ),
)

assess_total_example :
    (a : DriftAssessment ℤ) × (assess fixed clouds run_embeddings config ≡ ok a)
    × (a.method ≡ method_per_prompt)
    × (map entry_index a.per_prompt ≡ map index_of (usable_from 0 clouds run_embeddings))
unfolding usable_from
assess_total_example = assess_total fixed clouds run_embeddings config refl (omega arith) scorable

abbrev halfway : Embedding ℤ
halfway = record { values = pos 500000 ∷ pos 0 ∷ [] }

computed :
    compute fixed render config probe_run baseline (hours 3)
    ≡ ok (report_of fixed render config probe_run baseline (hours 3) found)
unfolding compute is_current embedding_dim
computed = rw assessed refl

compute-IsComputed_example :
    IsComputed fixed render config probe_run baseline
      (compute fixed render config probe_run baseline (hours 3))
compute-IsComputed_example =
    compute-IsComputed fixed render fixed_both config probe_run baseline (hours 3)
