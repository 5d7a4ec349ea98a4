-- ===== src/Drift/Calculator.antt =====
-- `DriftCalculator::compute` (crates/core/src/drift/calculator.rs). `render` stands for the
-- formatting that joins the sentences of an interpretation into text, and `now` for the clock.
pub mod Report
use text.Mathlib.Text.{◌==◌ as str_eq}
use modelsentry.Base.{
  ℕ, Bool, true, false, not, ◌&&◌, List, map, Option, none, some, String, ◌==◌, if◌then◌else◌,
}
use modelsentry.Common.Error.{ModelSentryError, Result, ok, err, ◌>>=◌, ◌>>◌, fail_if, says}
use modelsentry.Common.Models
use modelsentry.Common.Models.{
  BaselineSnapshot, ProbeRun, DriftReport, is_current, embedding_dim, dim_of,
}
use modelsentry.Common.Time.{Time}
use modelsentry.Float.{Floats}
use modelsentry.Drift.Assessment.{AssessmentConfig, DriftAssessment, PromptDrift, assess}
use modelsentry.Drift.Interpret.{Sentence, interpret}

abbrev pub outdated_message : String
outdated_message =
    "baseline uses an outdated schema (captured before output-embedding clouds) — re-capture the baseline for this probe"

-- Both versions known and different.
abbrev pub model_change : Option String → Option String → Option (String × String)
model_change (some before) (some after) = if str_eq before after then none else some (before, after)
model_change (some before) none = none
model_change none after = none

abbrev pub is_some : {A : Type 0} → Option A → Bool
is_some none = false
is_some (some a) = true

module _ {F32 F64 : Type 0} (fl : Floats F32 F64) (render : List (Sentence F32) → String) where
  open fl use {single}

  abbrev pub stored : PromptDrift F32 → Models.PromptDrift F32
  stored p = record {
    prompt_index = p.prompt_index;
    p_value = p.p_value;
    n_baseline = p.n_baseline;
    low_variance_baseline = p.low_variance_baseline;
  }

  abbrev pub report_of :
      AssessmentConfig F32
      → ProbeRun F32
      → BaselineSnapshot F32
      → Time
      → DriftAssessment F32
      → DriftReport F32
  report_of config run baseline now a =
      let change = model_change baseline.model_version run.model_version in
      record {
        run_id = run.id;
        baseline_id = baseline.id;
        combined_p_value = a.combined_p_value;
        statistic = a.statistic;
        effect_size = a.effect_size;
        target_fpr = config.target_fpr;
        method = a.method;
        per_prompt = map stored a.per_prompt;
        drift_level = a.level;
        model_version_changed = is_some change;
        interpretation = render (interpret single a config.target_fpr change);
        computed_at = now;
      }

  unfoldable pub compute :
      AssessmentConfig F32 → ProbeRun F32 → BaselineSnapshot F32 → Time → Result (DriftReport F32)
  compute config run baseline now = do
    fail_if (not (is_current baseline)) (ModelSentryError.config (says outdated_message))
    let run_dim = dim_of run.embeddings
    fail_if (run_dim == 0) ModelSentryError.empty_embedding
    let baseline_dim = embedding_dim baseline
    fail_if (not (baseline_dim == 0) && not (run_dim == baseline_dim))
        (ModelSentryError.baseline_embedding_mismatch baseline_dim run_dim)
    a ← assess fl baseline.prompt_clouds run.embeddings config
    ok (report_of config run baseline now a)
