-- ===== src/Drift/Assessment.antt =====
-- The run-level verdict (crates/core/src/drift/assessment.rs).
pub mod Severity
pub mod Usable
pub mod Gate
pub mod Total
use modelsentry.Base.{
  ℕ, zero, suc, ◌+◌, List, [], ◌∷◌, ◌++◌, map, Bool, not, ◌&&◌, String, length, is_empty, get_or,
  leb, ltb, ◌==◌, if◌then◌else◌,
}
use modelsentry.Common.Error.{ModelSentryError, Result, ok, ◌>>=◌, ◌>>◌, fail_if, says, says_with}
use modelsentry.Common.Models.{DriftLevel, no_drift, low, medium, high, critical, flatten}
use modelsentry.Float.{Floats}
use modelsentry.Drift.Rng.{SplitMix64, new, next_bounded, u64}
use modelsentry.Drift.Kernel.{Kernel}
use modelsentry.Drift.TwoSample.{
  TwoSampleOutcome, two_sample_test, count_ratio, permutation_tolerance,
}
use modelsentry.Drift.Scores.{PromptScore, check_dims, prompt_score, cloud_spread}

pub record AssessmentConfig (F : Type 0) : Type 0 where
  pub target_fpr : F
  pub kernel : Kernel F
  pub n_permutations : ℕ
  pub seed : ℕ

pub record PromptDrift (F : Type 0) : Type 0 where
  pub prompt_index : ℕ
  pub p_value : F
  pub n_baseline : ℕ
  pub low_variance_baseline : Bool

pub record DriftAssessment (F : Type 0) : Type 0 where
  pub combined_p_value : F
  pub statistic : F
  pub effect_size : F
  pub level : DriftLevel
  pub method : String
  pub per_prompt : List (PromptDrift F)

abbrev pub method_per_prompt : String
method_per_prompt = "per_prompt_conformal"

abbrev pub method_pooled : String
method_pooled = "pooled_two_sample"

pub record UsablePrompt (F : Type 0) : Type 0 where
  pub index : ℕ
  pub cloud : List (List F)
  pub samples : List (List F)

module _ {F : Type 0} where
  -- The prompts from the i-th on that have both a cloud and samples.
  unfoldable pub usable_from :
      ℕ → List (List (List F)) → List (List (List F)) → List (UsablePrompt F)
  usable_from i [] run = []
  usable_from i (c ∷ cs) [] = []
  usable_from i (c ∷ cs) (s ∷ ss) =
      let rest = usable_from (suc i) cs ss in
      if not (is_empty c) && not (is_empty s)
      then record { index = i; cloud = c; samples = s } ∷ rest
      else rest

  -- The least cloud size, or 0 for no prompt.
  abbrev pub min_cloud : List (UsablePrompt F) → ℕ
  min_cloud [] = 0
  min_cloud (u ∷ []) = length u.cloud
  min_cloud (u ∷ v ∷ us) =
      let rest = min_cloud (v ∷ us) in if ltb rest (length u.cloud) then rest else length u.cloud

abbrev pub max_count : ℕ → ℕ → ℕ
max_count a b = if ltb a b then b else a

module _ {F32 F64 : Type 0} (fl : Floats F32 F64) where
  open fl use {single}

  unfoldable pub drift_score : F32 → F32
  drift_score p = single.neg (single.log10 (single.max p single.min_positive))

  unfoldable pub severity_from_p : F32 → F32 → DriftLevel
  severity_from_p p target_fpr =
      let alpha = single.max target_fpr single.min_positive in
      if single.le alpha p
      then no_drift
      else if single.le (single.div alpha (single.of_nat 10)) p
      then low
      else if single.le (single.div alpha (single.of_nat 100)) p
      then medium
      else if single.le (single.div alpha (single.of_nat 1000)) p
      then high
      else critical

  unfoldable pub min_perms_for_resolution : F32 → ℕ
  min_perms_for_resolution target_fpr =
      single.to_nat
        (single.ceil (single.div (single.of_nat 1) (single.max target_fpr single.min_positive)))

  abbrev pub permutations_for : AssessmentConfig F32 → ℕ
  permutations_for config =
      max_count config.n_permutations (min_perms_for_resolution config.target_fpr)

  -- One draw per stratum, summing the positive parts.
  draw_total : List (List F32) → F32 → SplitMix64 → F32 × SplitMix64
  draw_total [] t rng = (t, rng)
  draw_total (pool ∷ strata) t rng =
      let draw = next_bounded rng (length pool) in
      let pick = get_or pool draw.0 (single.of_nat 0) in
      let moved : F32 × SplitMix64 = (single.add t (single.max pick (single.of_nat 0)), draw.1) in
      let (t', rng') = if is_empty pool then (t, rng) else moved in draw_total strata t' rng'

  permutation_rounds : ℕ → List (List F32) → F32 → SplitMix64 → ℕ → ℕ
  permutation_rounds zero strata observed rng reached = reached
  permutation_rounds (suc n) strata observed rng reached =
      let (t, rng') = draw_total strata (single.of_nat 0) rng in
      permutation_rounds n strata observed rng' (
        if single.le (single.sub observed (permutation_tolerance fl)) t
        then reached + 1
        else reached)

  unfoldable pub stratified_permutation_p : List (List F32) → F32 → ℕ → ℕ → F32
  unfolding permutation_rounds draw_total
  stratified_permutation_p strata observed n_perm seed =
      count_ratio fl (permutation_rounds n_perm strata observed (new seed) 0) n_perm

  abbrev pub baseline_min_cloud_spread : F32
  baseline_min_cloud_spread = single.decimal 1 3

  -- What the loop of `assess_per_prompt` accumulates.
  pub record Tally : Type 0 where
    pub per_prompt : List (PromptDrift F32)
    pub strata : List (List F32)
    pub observed : F32

  abbrev pub entry_of : UsablePrompt F32 → PromptScore F32 → PromptDrift F32
  entry_of u score = record {
    prompt_index = u.index;
    p_value = score.attribution_p;
    n_baseline = length u.cloud;
    low_variance_baseline = single.lt (cloud_spread fl u.cloud) baseline_min_cloud_spread;
  }

  abbrev pub tally_prompt : Tally → UsablePrompt F32 → PromptScore F32 → Tally
  tally_prompt t u score = record {
    per_prompt = t.per_prompt ++ entry_of u score ∷ [];
    strata = t.strata ++ score.null_pool ∷ [];
    observed = single.add t.observed (single.max score.z_obs (single.of_nat 0));
  }

  score_prompts : ℕ → ℕ → List (UsablePrompt F32) → Tally → Result Tally
  score_prompts n_perm seed [] t = ok t
  score_prompts n_perm seed (u ∷ us) t = check_dims u.cloud u.samples >>= λ _.
      prompt_score fl u.cloud u.samples n_perm (u64 (seed + u.index)) >>= λ score.
      score_prompts n_perm seed us (tally_prompt t u score)

  abbrev pub no_tally : Tally
  no_tally = record { per_prompt = []; strata = []; observed = single.of_nat 0 }

  abbrev pub gate : AssessmentConfig F32 → List (UsablePrompt F32) → Tally → DriftAssessment F32
  gate config usable t =
      let n_perm = permutations_for config in
      let p = stratified_permutation_p t.strata t.observed n_perm config.seed in
      record {
        combined_p_value = p;
        statistic = drift_score p;
        effect_size = single.div t.observed (single.of_nat (length usable));
        level = severity_from_p p config.target_fpr;
        method = method_per_prompt;
        per_prompt = t.per_prompt;
      }

  unfoldable pub assess_per_prompt :
      List (UsablePrompt F32) → AssessmentConfig F32 → Result (DriftAssessment F32)
  unfolding score_prompts
  assess_per_prompt usable config =
      score_prompts (permutations_for config) config.seed usable no_tally >>= λ t.
      ok (gate config usable t)

  abbrev pub pooled_verdict : AssessmentConfig F32 → TwoSampleOutcome F32 → DriftAssessment F32
  pooled_verdict config outcome = record {
    combined_p_value = outcome.p_value;
    statistic = drift_score outcome.p_value;
    effect_size = outcome.effect_size;
    level = severity_from_p outcome.p_value config.target_fpr;
    method = method_pooled;
    per_prompt = [];
  }

  unfoldable pub assess_pooled :
      List (UsablePrompt F32) → AssessmentConfig F32 → Result (DriftAssessment F32)
  assess_pooled usable config = do
    let baseline_points = flatten (map (λ (u : UsablePrompt F32). u.cloud) usable)
    let run_points = flatten (map (λ (u : UsablePrompt F32). u.samples) usable)
    outcome ←
        two_sample_test fl baseline_points run_points config.kernel (permutations_for config)
          config.seed
    ok (pooled_verdict config outcome)

  -- The second half of `assess`, from the usable prompts on.
  unfoldable pub assess_usable :
      List (UsablePrompt F32) → AssessmentConfig F32 → Result (DriftAssessment F32)
  assess_usable usable config = do
    fail_if (is_empty usable)
        (ModelSentryError.drift (says "no prompt has both baseline and run embeddings"))
    (if leb 2 (min_cloud usable)
        then assess_per_prompt usable config
        else assess_pooled usable config)

  unfoldable pub assess :
      List (List (List F32))
      → List (List (List F32))
      → AssessmentConfig F32
      → Result (DriftAssessment F32)
  assess baseline run config = do
    fail_if (not (length baseline == length run)) (
        ModelSentryError.drift (
          says_with "baseline/run prompt count mismatch: {} vs {}"
            (length baseline ∷ length run ∷ [])))
    assess_usable (usable_from 0 baseline run) config
