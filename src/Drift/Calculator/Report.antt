-- ===== src/Drift/Calculator/Report.antt =====
-- What a successful or refused computation of crates/core/src/drift/calculator.rs says.
use mathlib.Core.Path.{subst, sym, ap}
use text.Mathlib.Text.{◌==◌ as str_eq}
use text.Mathlib.TextEquality.{eq_iff}
use modelsentry.Base.{◌↔◌, map, some, none, Option, Bool-cases, inl, inr, ◌∙◌}
use modelsentry.Drift.Assessment.{DriftAssessment, drift_score}
use modelsentry.Drift.Calculator.{stored, outdated_message}
use modelsentry.Base.{◌≡◌, ◌≢◌, ◌⊎◌, refl, true, false, not, ◌&&◌, List, String, arith, ◌==◌}
use modelsentry.Common.Error.{
  ModelSentryError, ok, err, ◌>>=◌, >>=-eq-ok, fail_if-ok, says, Result, Result-cases,
}
use modelsentry.Common.Models.{
  BaselineSnapshot, ProbeRun, DriftReport, is_current, embedding_dim, dim_of,
}
use modelsentry.Common.Time.{Time}
use modelsentry.Float.{Floats, FloatsLaws}
use modelsentry.Drift.Assessment.{AssessmentConfig, assess, severity_from_p}
use modelsentry.Drift.Assessment.Gate.{assess-IsVerdict}
use modelsentry.Drift.Interpret.{Sentence}
use modelsentry.Drift.Calculator.{model_change, is_some, compute, report_of}

module _ {F32 F64 : Type 0} (fl : Floats F32 F64) (render : List (Sentence F32) → String) where
  open fl use {single}

  -- Two versions that are known and differ.
  abbrev pub DifferentVersions : Option String → Option String → Type 0
  DifferentVersions before after =
      (v : String) × (w : String) × (before ≡ some v) × (after ≡ some w) × (v ≢ w)

  changed_iff :
      (before after : Option String)
      → (is_some (model_change before after) ≡ true) ↔ DifferentVersions before after
  changed_iff none after = (λ h. absurd (cc), λ h. absurd (cc h.2))
  changed_iff (some v) none = (λ h. absurd (cc), λ h. absurd (cc h.3))
  changed_iff (some v) (some w) = elim (Bool-cases (str_eq v w)) [
    | inl t ↦ rw t (λ h. absurd (cc), λ (x, y, e, f, d). absurd (d (cc ((eq_iff v w).0 t))))
    | inr t ↦ rw t (λ h. (v, w, refl, refl, λ d. cc (t, (eq_iff v w).1 d)), λ h. refl)
  ]

  -- What a report says of the run, the baseline and the assessment behind it.
  pub record IsReport (config : AssessmentConfig F32) (run : ProbeRun F32)
      (baseline : BaselineSnapshot F32) (r : DriftReport F32) : Type 0 where
    pub current : is_current baseline ≡ true
    pub some_dim : dim_of run.embeddings ≢ 0
    pub same_dim : (embedding_dim baseline ≡ 0) ⊎ (dim_of run.embeddings ≡ embedding_dim baseline)
    pub of_run : r.run_id ≡ run.id
    pub of_baseline : r.baseline_id ≡ baseline.id
    pub judged_at : r.target_fpr ≡ config.target_fpr
    pub banded : r.drift_level ≡ severity_from_p fl r.combined_p_value config.target_fpr
    pub at_most_one : single.le r.combined_p_value (single.of_nat 1) ≡ true
    pub scored : r.statistic ≡ drift_score fl r.combined_p_value
    pub magnitude : single.le (single.of_nat 0) r.effect_size ≡ true
    pub flagged :
        (r.model_version_changed ≡ true)
        ↔ DifferentVersions baseline.model_version run.model_version
    pub assessed :
        (a : DriftAssessment F32) × (assess fl baseline.prompt_clouds run.embeddings config ≡ ok a)
        × (r.combined_p_value ≡ a.combined_p_value)
        × (r.effect_size ≡ a.effect_size)
        × (r.method ≡ a.method)
        × (r.per_prompt ≡ map (stored fl render) a.per_prompt)

  -- Past the guards, the report is that of the assessment.
  compute_inv :
      (config : AssessmentConfig F32) (run : ProbeRun F32) (baseline : BaselineSnapshot F32)
      (now : Time) (r : DriftReport F32)
      → compute fl render config run baseline now ≡ ok r
      → (is_current baseline ≡ true)
        × (dim_of run.embeddings ≢ 0)
        × ((embedding_dim baseline ≡ 0) ⊎ (dim_of run.embeddings ≡ embedding_dim baseline))
        × ((assess fl baseline.prompt_clouds run.embeddings config >>= λ a.
              ok (report_of fl render config run baseline now a))
            ≡ ok r)
  unfolding compute
  compute_inv config run baseline now r e =
      let (h₁, e₁) = fail_if-ok (not (is_current baseline)) _ _ e in
      let (h₂, e₂) = fail_if-ok (dim_of run.embeddings == 0) _ _ e₁ in
      let (h₃, e₃) =
        fail_if-ok
          (not (embedding_dim baseline == 0)
            && not (dim_of run.embeddings == embedding_dim baseline))
          _ _ e₂ in
      (ground arith, ground arith, ground arith, e₃)

  compute-IsReport :
      (laws : FloatsLaws fl) (config : AssessmentConfig F32) (run : ProbeRun F32)
      (baseline : BaselineSnapshot F32) (now : Time) (r : DriftReport F32)
      → compute fl render config run baseline now ≡ ok r
      → IsReport config run baseline r
  compute-IsReport laws config run baseline now r e =
      let (current, some_dim, same_dim, e₁) = compute_inv config run baseline now r e in
      let (a, e₂, e₃) = >>=-eq-ok (assess fl baseline.prompt_clouds run.embeddings config) _ e₁ in
      let v = assess-IsVerdict fl laws baseline.prompt_clouds run.embeddings config a e₂ in
      let same : report_of fl render config run baseline now a ≡ r = cc in
      subst (IsReport config run baseline) same (record {
        current = current;
        some_dim = some_dim;
        same_dim = same_dim;
        of_run = refl;
        of_baseline = refl;
        judged_at = refl;
        banded = v.banded;
        at_most_one = v.at_most_one;
        scored = v.scored;
        magnitude = v.magnitude;
        flagged = changed_iff baseline.model_version run.model_version;
        assessed = (a, e₂, refl, refl, refl, refl);
      })

  abbrev Dimensions : ProbeRun F32 → BaselineSnapshot F32 → Type 0
  Dimensions run baseline =
      (embedding_dim baseline ≡ 0) ⊎ (dim_of run.embeddings ≡ embedding_dim baseline)

  -- Why a computation is refused: the first guard that does not hold, or the error of the assessment.
  abbrev pub IsRefusal :
      AssessmentConfig F32 → ProbeRun F32 → BaselineSnapshot F32 → ModelSentryError → Type 0
  IsRefusal config run baseline e =
      ((is_current baseline ≡ false) × (e ≡ ModelSentryError.config (says outdated_message)))
      ⊎ ((is_current baseline ≡ true)
          × (dim_of run.embeddings ≡ 0)
          × (e ≡ ModelSentryError.empty_embedding))
      ⊎ ((is_current baseline ≡ true)
          × (dim_of run.embeddings ≢ 0)
          × (embedding_dim baseline ≢ 0)
          × (dim_of run.embeddings ≢ embedding_dim baseline)
          × (e
              ≡ ModelSentryError.baseline_embedding_mismatch (embedding_dim baseline)
                  (dim_of run.embeddings)))
      ⊎ ((is_current baseline ≡ true)
          × (dim_of run.embeddings ≢ 0)
          × Dimensions run baseline
          × (assess fl baseline.prompt_clouds run.embeddings config ≡ err e))

  abbrev pub IsComputed :
      AssessmentConfig F32 → ProbeRun F32 → BaselineSnapshot F32 → Result (DriftReport F32) → Type 0
  IsComputed config run baseline (ok r) = IsReport config run baseline r
  IsComputed config run baseline (err e) = IsRefusal config run baseline e

  not_assessed :
      (config : AssessmentConfig F32) (run : ProbeRun F32) (baseline : BaselineSnapshot F32)
      (now : Time) (x : ModelSentryError)
      → (assess fl baseline.prompt_clouds run.embeddings config >>= λ a.
          ok (report_of fl render config run baseline now a))
        ≡ err x
      → assess fl baseline.prompt_clouds run.embeddings config ≡ err x
  not_assessed config run baseline now x h =
      elim (Result-cases (assess fl baseline.prompt_clouds run.embeddings config)) [
        | inl (a, e) ↦ absurd (cc (rw e at h))
        | inr (y, e) ↦ let refused = rw e at h in let same : y ≡ x = cc in e ∙ ap err same
      ]

  compute-IsRefusal :
      (config : AssessmentConfig F32) (run : ProbeRun F32) (baseline : BaselineSnapshot F32)
      (now : Time) (x : ModelSentryError)
      → compute fl render config run baseline now ≡ err x
      → IsRefusal config run baseline x
  unfolding compute
  compute-IsRefusal config run baseline now x h = elim (Bool-cases (is_current baseline)) [
    | inr old ↦ let e = rw old at h in inl (old, cc)
    | inl current ↦
        let h₁ = rw current at h in
        elim (Bool-cases (dim_of run.embeddings == 0)) [
          | inl z ↦ let e = rw z at h₁ in inr (inl (current, ground arith, cc))
          | inr z ↦
              let h₂ = rw z at h₁ in
              let some_dim : dim_of run.embeddings ≢ 0 = ground arith in
              elim (Bool-cases (
                not (embedding_dim baseline == 0)
                && not (dim_of run.embeddings == embedding_dim baseline))) [
                  | inl d ↦
                      let e = rw d at h₂ in
                      inr (inr (inl (current, some_dim, ground arith, ground arith, cc)))
                  | inr d ↦
                      let e = rw d at h₂ in
                      inr (
                        inr (
                          inr (
                            current,
                            some_dim,
                            ground arith,
                            not_assessed config run baseline now x e,
                          )))
                ]
        ]
  ]

  -- A computation makes a report or is refused. A report exists only for a current baseline and a run
  -- whose dimension (that of its first non-empty output embedding) is not 0 and, where the baseline's
  -- is not 0 either, equal to the baseline's. It names both, is judged at the configured rate, has a
  -- p-value of at most 1 with the severity and the score of exactly that value, and an effect size that
  -- is not negative. It carries the p-value, the effect size, the method and the prompts of a
  -- successful assessment of the clouds against the embeddings, and it flags a model change exactly if
  -- both versions are known and differ. A refusal gives the error of the first of these that fails: the
  -- outdated baseline, the empty embeddings, the two dimensions, or what the assessment says.
  pub compute-IsComputed :
      (laws : FloatsLaws fl) (config : AssessmentConfig F32) (run : ProbeRun F32)
      (baseline : BaselineSnapshot F32) (now : Time)
      → IsComputed config run baseline (compute fl render config run baseline now)
  compute-IsComputed laws config run baseline now =
      elim (Result-cases (compute fl render config run baseline now)) [
        | inl (r, e) ↦
            subst (IsComputed config run baseline) (sym e)
              (compute-IsReport laws config run baseline now r e)
        | inr (x, e) ↦
            subst (IsComputed config run baseline) (sym e)
              (compute-IsRefusal config run baseline now x e)
      ]
