-- ===== src/Drift/Assessment/Total.antt =====
-- The per-prompt assessment of crates/core/src/drift/assessment.rs does not fail on well-formed data.
use mathlib.Core.List.{append-nil, append_assoc, map-append}
use modelsentry.Base.Loops.{range}
use modelsentry.Base.{
  ℕ, ◌+◌, ◌≤◌, ◌<◌, ◌≡◌, refl, true, false, List, [], ◌∷◌, ◌++◌, map, arith, length, All, not, ◌==◌,
  leb, Bool-cases, inl, inr,
}
use modelsentry.Common.Error.{ok}
use modelsentry.Float.{Floats}
use modelsentry.Drift.Rng.{u64}
use modelsentry.Drift.Kernel.{energy}
use modelsentry.Drift.TwoSample.{dim_of_first, labelled}
use modelsentry.Drift.TwoSample.Validate.{HasDim, check_all_complete, validate_complete}
use modelsentry.Drift.TwoSample.Nulls.{permutation_nulls_total}
use modelsentry.Drift.Scores.{PromptScore, check_dims, prompt_score, energy_score, rank_score}
use modelsentry.Drift.Assessment.{
  AssessmentConfig, DriftAssessment, PromptDrift, UsablePrompt, Tally, tally_prompt, score_prompts,
  permutations_for, gate, assess_per_prompt, assess_usable, assess, usable_from, min_cloud,
  no_tally, method_per_prompt,
}

module _ {F : Type 0} where
  -- All of a prompt's vectors have one positive dimension, its cloud at least two of them and its
  -- run at least one.
  pub record IsScorable (u : UsablePrompt F) : Type 0 where
    pub dim : ℕ
    pub positive : 0 < dim
    pub same_dim : All (HasDim dim) (u.cloud ++ u.samples)
    pub deep : 2 ≤ length u.cloud
    pub sampled : 1 ≤ length u.samples

  first_sample_dim :
      (d : ℕ) (cloud samples : List (List F))
      → All (HasDim d) (cloud ++ samples)
      → 1 ≤ length samples
      → dim_of_first samples ≡ d
  first_sample_dim d [] [] h p = absurd (omega arith)
  first_sample_dim d [] (s ∷ ss) h p = h.0
  first_sample_dim d (c ∷ cloud) samples h p = first_sample_dim d cloud samples h.1 p

  check_dims_scorable : (u : UsablePrompt F) → IsScorable u → check_dims u.cloud u.samples ≡ ok tt
  unfolding check_dims
  check_dims_scorable u h =
      rw (first_sample_dim h.dim u.cloud u.samples h.same_dim h.sampled)
        (check_all_complete h.dim (u.cloud ++ u.samples) h.same_dim)

  min_cloud_deep :
      (u : UsablePrompt F) (us : List (UsablePrompt F))
      → All IsScorable (u ∷ us)
      → 2 ≤ min_cloud (u ∷ us)
  min_cloud_deep u [] h = h.0.deep
  min_cloud_deep u (v ∷ us) h = ground (arith, min_cloud_deep v us h.1, h.0.deep)

abbrev pub index_of : {F : Type 0} → UsablePrompt F → ℕ
index_of u = u.index

abbrev pub entry_index : {F : Type 0} → PromptDrift F → ℕ
entry_index e = e.prompt_index

module _ {F32 F64 : Type 0} (fl : Floats F32 F64) where
  ranked_score :
      (cloud samples : List (List F32)) (n seed : ℕ)
      → 1 ≤ length samples
      → leb 2 (length samples) ≡ false
      → (score : PromptScore F32) × (prompt_score fl cloud samples n seed ≡ ok score)
  unfolding prompt_score
  ranked_score cloud [] n seed p q = absurd (omega arith)
  ranked_score cloud (s ∷ ss) n seed p q = (rank_score fl s cloud, rw q refl)

  prompt_score_total :
      (u : UsablePrompt F32) (n seed : ℕ)
      → IsScorable u
      → (score : PromptScore F32) × (prompt_score fl u.cloud u.samples n seed ≡ ok score)
  unfolding prompt_score
  prompt_score_total u n seed h = elim (Bool-cases (leb 2 (length u.samples))) [
    | inl many ↦
        let accepted =
          validate_complete u.cloud u.samples h.dim h.deep (ground arith) h.positive h.same_dim in
        let (nulls, e, _, _) =
          permutation_nulls_total fl u.cloud u.samples energy n seed accepted in
        (
          energy_score fl
              (labelled fl energy u.cloud u.samples (range 0 (length (u.cloud ++ u.samples))))
              nulls,
          rw many (rw e refl),
        )
    | inr few ↦ ranked_score u.cloud u.samples n seed h.sampled few
  ]

  score_prompts_total :
      (n seed : ℕ) (us : List (UsablePrompt F32)) (t : Tally fl)
      → All IsScorable us
      → (t' : Tally fl) × (score_prompts fl n seed us t ≡ ok t')
        × (map entry_index t'.per_prompt ≡ map entry_index t.per_prompt ++ map index_of us)
  unfolding score_prompts
  score_prompts_total n seed [] t h = (t, refl, rw append-nil)
  score_prompts_total n seed (u ∷ us) t h =
      let (score, e) = prompt_score_total u n (u64 (seed + u.index)) h.0 in
      let (t', f, g) = score_prompts_total n seed us (tally_prompt fl t u score) h.1 in
      (t', rw (check_dims_scorable u h.0) (rw e f), rw g (simp (map-append, append_assoc)))

  same_length : (m n : ℕ) → m ≡ n → not (m == n) ≡ false
  same_length m n e = ground arith

  usable_total :
      (us : List (UsablePrompt F32)) (config : AssessmentConfig F32)
      → 1 ≤ length us
      → All IsScorable us
      → (a : DriftAssessment F32) × (assess_usable fl us config ≡ ok a)
        × (a.method ≡ method_per_prompt)
        × (map entry_index a.per_prompt ≡ map index_of us)
  unfolding assess_usable assess_per_prompt
  usable_total [] config p h = absurd (omega arith)
  usable_total (u ∷ us) config p h =
      let (t, e, q) =
        score_prompts_total (permutations_for fl config) config.seed (u ∷ us) (no_tally fl) h in
      let deep : leb 2 (min_cloud (u ∷ us)) ≡ true = ground (arith, min_cloud_deep u us h) in
      (gate fl config (u ∷ us) t, rw deep (rw e refl), refl, q)

  -- If the baseline and the run have one entry per prompt, some prompt is usable and every usable
  -- prompt has at least two baseline vectors of one positive dimension that its samples share, the
  -- assessment succeeds in per-prompt mode and reports exactly the usable prompts, in order.
  pub assess_total :
      (baseline run : List (List (List F32))) (config : AssessmentConfig F32)
      → length baseline ≡ length run
      → 1 ≤ length (usable_from 0 baseline run)
      → All IsScorable (usable_from 0 baseline run)
      → (a : DriftAssessment F32) × (assess fl baseline run config ≡ ok a)
        × (a.method ≡ method_per_prompt)
        × (map entry_index a.per_prompt ≡ map index_of (usable_from 0 baseline run))
  unfolding assess
  assess_total baseline run config same some_usable h =
      let (a, e, m, p) = usable_total (usable_from 0 baseline run) config some_usable h in
      (a, rw (same_length (length baseline) (length run) same) e, m, p)
