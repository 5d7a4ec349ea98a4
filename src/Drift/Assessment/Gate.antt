-- ===== src/Drift/Assessment/Gate.antt =====
-- The gate of crates/core/src/drift/assessment.rs: when `assess` succeeds, and what its verdict says.
use modelsentry.Base.{
  ℕ, zero, suc, ◌+◌, ◌≤◌, ◌≡◌, refl, true, List, [], ◌∷◌, arith, length, leb, Bool-cases, inl, inr,
  not, ◌==◌,
}
use modelsentry.Common.Error.{ok, >>=-eq-ok}
use modelsentry.Float.{Floats, FloatsLaws}
use modelsentry.Drift.Rng.{SplitMix64, u64, new}
use modelsentry.Drift.TwoSample.{two_sample_test}
use modelsentry.Drift.TwoSample.PValue.{
  IsPValue, IsNonneg, count_ratio-IsPValue, two_sample_test-ok,
}
use modelsentry.Drift.Scores.{check_dims, prompt_score}
use modelsentry.Drift.Assessment.{
  AssessmentConfig, DriftAssessment, UsablePrompt, Tally, tally_prompt, score_prompts,
  permutation_rounds, draw_total, stratified_permutation_p, permutations_for, drift_score,
  severity_from_p, gate, assess_per_prompt, assess_pooled, assess_usable, assess, usable_from,
  min_cloud, no_tally, pooled_verdict,
}

module _ {F32 F64 : Type 0} (fl : Floats F32 F64) where
  open fl use {single}

  permutation_rounds-le :
      (n : ℕ) (strata : List (List F32)) (observed : F32) (rng : SplitMix64) (reached : ℕ)
      → permutation_rounds fl n strata observed rng reached ≤ reached + n
  unfolding permutation_rounds
  permutation_rounds-le zero strata observed rng reached = omega arith
  permutation_rounds-le (suc n) strata observed rng reached = ground (
    arith,
    permutation_rounds-le n strata observed (draw_total fl strata (single.of_nat 0) rng).1
        (reached + 1),
    permutation_rounds-le n strata observed (draw_total fl strata (single.of_nat 0) rng).1 reached,
  )

  -- What every verdict satisfies: a p-value no finer than the permutations allow, and a score and a
  -- level that are those of this p-value at the configured rate.
  pub record IsVerdict (config : AssessmentConfig F32) (a : DriftAssessment F32) : Type 0 where
    pub resolved :
        single.le
          (single.div
            (single.of_nat 1)
            (single.add (single.of_nat 1) (single.of_nat (permutations_for fl config))))
          a.combined_p_value
        ≡ true
    pub at_most_one : single.le a.combined_p_value (single.of_nat 1) ≡ true
    pub scored : a.statistic ≡ drift_score fl a.combined_p_value
    pub banded : a.level ≡ severity_from_p fl a.combined_p_value config.target_fpr
    pub magnitude : single.le (single.of_nat 0) a.effect_size ≡ true

  module _ (laws : FloatsLaws fl) where
    stratified-IsPValue :
        (strata : List (List F32)) (observed : F32) (n seed : ℕ)
        → IsPValue fl laws n (stratified_permutation_p fl strata observed n seed)
    unfolding stratified_permutation_p
    stratified-IsPValue strata observed n seed =
        count_ratio-IsPValue fl laws _ n
          (omega (arith, permutation_rounds-le n strata observed (new seed) 0))

    zero-IsNonneg : IsNonneg fl laws (single.of_nat 0)
    zero-IsNonneg = laws.on_single.of_nat_mono 0 0 (omega arith)

    score_prompts-IsNonneg :
        (n seed : ℕ) (us : List (UsablePrompt F32)) (t t' : Tally fl)
        → score_prompts fl n seed us t ≡ ok t'
        → IsNonneg fl laws t.observed
        → IsNonneg fl laws t'.observed
    unfolding score_prompts
    score_prompts-IsNonneg n seed [] t t' e h = let same : t ≡ t' = cc in rw (← same) h
    score_prompts-IsNonneg n seed (u ∷ us) t t' e h =
        let (_, _, e₁) = >>=-eq-ok (check_dims u.cloud u.samples) _ e in
        let (score, _, e₂) =
          >>=-eq-ok (prompt_score fl u.cloud u.samples n (u64 (seed + u.index))) _ e₁ in
        score_prompts-IsNonneg n seed us (tally_prompt fl t u score) t' e₂
          (laws.on_single.add_nonneg _ _ h (laws.on_single.le_max_right _ _ zero-IsNonneg))

    gate-IsVerdict :
        (u : UsablePrompt F32) (us : List (UsablePrompt F32)) (config : AssessmentConfig F32)
        (t : Tally fl)
        → IsNonneg fl laws t.observed
        → IsVerdict config (gate fl config (u ∷ us) t)
    gate-IsVerdict u us config t h =
        let (low, high) =
          stratified-IsPValue t.strata t.observed (permutations_for fl config) config.seed in
        record {
          resolved = low;
          at_most_one = high;
          scored = refl;
          banded = refl;
          magnitude = laws.on_single.div_nonneg _ (length (u ∷ us)) h (omega arith);
        }

    assess_per_prompt-IsVerdict :
        (u : UsablePrompt F32) (us : List (UsablePrompt F32)) (config : AssessmentConfig F32)
        (a : DriftAssessment F32)
        → assess_per_prompt fl (u ∷ us) config ≡ ok a
        → IsVerdict config a
    unfolding assess_per_prompt
    assess_per_prompt-IsVerdict u us config a e =
        let (t, e₁, e₂) =
          >>=-eq-ok
            (score_prompts fl (permutations_for fl config) config.seed (u ∷ us) (no_tally fl)) _
            e in
        let same : gate fl config (u ∷ us) t ≡ a = cc in
        rw (← same) (
          gate-IsVerdict u us config t
            (score_prompts-IsNonneg _ config.seed (u ∷ us) (no_tally fl) t e₁ zero-IsNonneg))

    assess_pooled-IsVerdict :
        (us : List (UsablePrompt F32)) (config : AssessmentConfig F32) (a : DriftAssessment F32)
        → assess_pooled fl us config ≡ ok a
        → IsVerdict config a
    unfolding assess_pooled
    assess_pooled-IsVerdict us config a e =
        let (out, e₁, e₂) = >>=-eq-ok (two_sample_test fl _ _ _ _ _) _ e in
        let ((low, high), nonneg) = two_sample_test-ok fl laws _ _ _ _ _ out e₁ in
        let same : pooled_verdict fl config out ≡ a = cc in
        rw (← same) (record {
          resolved = low;
          at_most_one = high;
          scored = refl;
          banded = refl;
          magnitude = nonneg;
        })

    mode-IsVerdict :
        (us : List (UsablePrompt F32)) (config : AssessmentConfig F32) (a : DriftAssessment F32)
        → assess_usable fl us config ≡ ok a
        → IsVerdict config a
    unfolding assess_usable
    mode-IsVerdict [] config a e = absurd (cc)
    mode-IsVerdict (u ∷ us) config a e = elim (Bool-cases (leb 2 (min_cloud (u ∷ us)))) [
      | inl many ↦ assess_per_prompt-IsVerdict u us config a (rw many at e)
      | inr few ↦ assess_pooled-IsVerdict (u ∷ us) config a (rw few at e)
    ]

    -- A successful assessment, in either mode, has a p-value between 1 / (B + 1) and 1 for the number
    -- B of permutations raised to resolve the target rate, a non-negative effect size, and the score
    -- and the severity of exactly that p-value at the target rate.
    pub assess-IsVerdict :
        (baseline run : List (List (List F32))) (config : AssessmentConfig F32)
        (a : DriftAssessment F32)
        → assess fl baseline run config ≡ ok a
        → IsVerdict config a
    unfolding assess
    assess-IsVerdict baseline run config a e =
        elim (Bool-cases (not (length baseline == length run))) [
          | inl differ ↦ absurd (cc (rw differ at e))
          | inr same ↦ mode-IsVerdict (usable_from 0 baseline run) config a (rw same at e)
        ]
