-- ===== src/Drift/Scores.antt =====
-- The scores of one prompt (crates/core/src/drift/assessment.rs): distances to a cloud, conformal
-- ranks, standardized values and the two-sample score.
use modelsentry.Base.{
  ℕ, zero, suc, ◌-◌, List, [], ◌∷◌, ◌++◌, map, none, some, ◌||◌, length, first, replicate, count_if,
  foldl, zip_with, leb, ltb, ◌==◌, if◌then◌else◌,
}
use modelsentry.Common.Error.{Result, ok, err, ◌>>=◌}
use modelsentry.Float.{Floats}
use modelsentry.Drift.Kernel.{sum_of, energy}
use modelsentry.Drift.TwoSample.{
  permutation_nulls, count_ratio, at_least, mean_of, sd_of, std_floor, panicked, check_all,
  dim_of_first,
}

pub record PromptScore (F : Type 0) : Type 0 where
  pub z_obs : F
  pub null_pool : List F
  pub attribution_p : F

-- The list without its j-th item.
abbrev pub without : {A : Type 0} → ℕ → List A → List A
without j [] = []
without zero (x ∷ xs) = xs
without (suc j) (x ∷ xs) = x ∷ without j xs

-- Every cloud vector and sample has the dimension of the first sample.
unfoldable pub check_dims : {F : Type 0} → List (List F) → List (List F) → Result (Unit {0})
check_dims cloud samples = check_all (dim_of_first samples) (cloud ++ samples)

module _ {F32 F64 : Type 0} (fl : Floats F32 F64) where
  open fl use {single, double, widen, narrow}

  unfoldable pub euclidean : List F32 → List F32 → F32
  euclidean a b = narrow (
      double.sqrt (
        sum_of double
          (zip_with (λ x y. let d = double.sub (widen x) (widen y) in double.mul d d) a b)))

  -- The score of cloud point `c`, the j-th: its mean distance to the other points and the run's.
  abbrev pub cloud_score : List F32 → List (List F32) → ℕ → List F32 → F32
  cloud_score point cloud j c =
      single.div
        (single.add (sum_of single (map (euclidean c) (without j cloud))) (euclidean c point))
        (single.of_nat (length cloud))

  cloud_scores : List F32 → List (List F32) → ℕ → List (List F32) → List F32
  cloud_scores point cloud j [] = []
  cloud_scores point cloud j (c ∷ rest) =
      cloud_score point cloud j c ∷ cloud_scores point cloud (suc j) rest

  unfoldable pub augmented_scores : List F32 → List (List F32) → List F32
  unfolding cloud_scores
  augmented_scores point cloud =
      single.div (sum_of single (map (euclidean point) cloud)) (single.of_nat (length cloud))
      ∷ cloud_scores point cloud 0 cloud

  abbrev pub first_or_zero : List F32 → F32
  first_or_zero xs = elim (first xs) [ none ↦ single.of_nat 0 | some x ↦ x ]

  abbrev pub tail_of : List F32 → List F32
  tail_of [] = []
  tail_of (x ∷ xs) = xs

  unfoldable pub conformal_from_scores : List F32 → F32
  conformal_from_scores scores =
      count_ratio fl (count_if (λ s. single.le (first_or_zero scores) s) (tail_of scores))
        (length scores - 1)

  unfoldable pub standardize : List F32 → List F32
  standardize scores =
      map (λ s. narrow (double.div (double.sub (widen s) (mean_of fl scores)) (sd_of fl scores)))
        scores

  unfoldable pub mean_std : List F32 → F32 × F32
  mean_std xs =
      if length xs == 0
      then (single.of_nat 0, std_floor fl)
      else (narrow (mean_of fl xs), narrow (sd_of fl xs))

  -- The score from at least two run samples: an energy permutation test.
  abbrev pub energy_score : F32 → List F32 → PromptScore F32
  energy_score observed nulls =
      let (mean, sd) = mean_std nulls in
      record {
        z_obs = single.div (single.sub observed mean) sd;
        null_pool = map (λ e. single.div (single.sub e mean) sd) nulls;
        attribution_p = count_ratio fl (at_least fl observed nulls) (length nulls);
      }

  -- The score from a single run sample: its conformal rank.
  abbrev pub rank_score : List F32 → List (List F32) → PromptScore F32
  rank_score point cloud =
      let scores = augmented_scores point cloud in
      record {
        z_obs = first_or_zero (standardize scores);
        null_pool = standardize scores;
        attribution_p = conformal_from_scores scores;
      }

  unfoldable pub prompt_score : List (List F32) → List (List F32) → ℕ → ℕ → Result (PromptScore F32)
  prompt_score cloud samples n_perm seed =
      let two_sample =
        permutation_nulls fl cloud samples energy n_perm seed >>= λ r. ok (energy_score r.0 r.1) in
      let ranked : Result (PromptScore F32) = elim (first samples) [
        | none ↦ err panicked
        | some point ↦ ok (rank_score point cloud)
      ] in
      if leb 2 (length samples) then two_sample else ranked

  -- The centroid of a cloud, coordinate by coordinate, then the root mean squared distance to it.
  abbrev pub add_point : List F64 → List F32 → List F64
  add_point [] point = []
  add_point (c ∷ cs) [] = c ∷ cs
  add_point (c ∷ cs) (x ∷ xs) = double.add c (widen x) ∷ add_point cs xs

  abbrev pub centroid_sums : ℕ → List (List F32) → List F64
  centroid_sums dim = foldl add_point (replicate dim (double.of_nat 0))

  abbrev pub squared_distance_to : List F64 → List F32 → F64
  squared_distance_to centroid point =
      sum_of double
        (zip_with (λ x c. let diff = double.sub (widen x) c in double.mul diff diff) point centroid)

  unfoldable pub cloud_spread : List (List F32) → F32
  cloud_spread cloud =
      let k = length cloud in
      let dim = dim_of_first cloud in
      let count = double.of_nat k in
      let centroid = map (λ c. double.div c count) (centroid_sums dim cloud) in
      let sum_sq = sum_of double (map (squared_distance_to centroid) cloud) in
      if ltb k 2 || dim == 0
      then single.of_nat 0
      else narrow (double.sqrt (double.div sum_sq count))
