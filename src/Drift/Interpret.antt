-- ===== src/Drift/Interpret.antt =====
-- The verdict in words (crates/core/src/drift/interpret.rs), as the list of the sentences that the
-- source joins, each with the values that fill its format string.
pub mod Strongest
use text.Mathlib.Text.{◌==◌ as str_eq}
use modelsentry.Base.{
  ℕ, List, [], ◌∷◌, ◌++◌, map, Option, none, some, String, filter, is_empty, if◌then◌else◌,
}
use modelsentry.Common.Models.{DriftLevel, no_drift, low, medium, high, critical}
use modelsentry.Float.{FloatOps}
use modelsentry.Drift.Assessment.{DriftAssessment, PromptDrift, method_per_prompt}

pub data Sentence (F : Type 0) : Type 0 where
  -- method, combined p, target rate
  consistent : String → F → F → Sentence F
  -- lead, method, combined p, target rate, effect size
  rejects : String → String → F → F → F → Sentence F
  -- prompt, its p-value, its baseline size
  strongest_signal : ℕ → F → ℕ → Sentence F
  baseline_health : List ℕ → Sentence F
  version_changed : String → String → Sentence F

abbrev pub lead_of : DriftLevel → String
lead_of low = "Low drift"
lead_of medium = "Medium drift"
lead_of high = "High drift"
lead_of critical = "Critical drift"
lead_of no_drift = "Drift"

module _ {F : Type 0} (o : FloatOps F) where
  -- `min_by` keeps the first of equal minima; without an order between two values neither is less.
  abbrev pub lesser : PromptDrift F → PromptDrift F → PromptDrift F
  lesser best next = if o.lt next.p_value best.p_value then next else best

  least_from : PromptDrift F → List (PromptDrift F) → PromptDrift F
  least_from best [] = best
  least_from best (next ∷ rest) = least_from (lesser best next) rest

  unfoldable pub strongest : List (PromptDrift F) → Option (PromptDrift F)
  unfolding least_from
  strongest [] = none
  strongest (x ∷ xs) = some (least_from x xs)

  abbrev pub signal_note : Option (PromptDrift F) → List (Sentence F)
  signal_note none = []
  signal_note (some pp) = strongest_signal pp.prompt_index pp.p_value pp.n_baseline ∷ []

  abbrev pub degenerate : List (PromptDrift F) → List ℕ
  degenerate pps =
      map (λ (pp : PromptDrift F). pp.prompt_index)
        (filter (λ (pp : PromptDrift F). pp.low_variance_baseline) pps)

  abbrev pub health_note : List ℕ → List (Sentence F)
  health_note [] = []
  health_note (i ∷ is) = baseline_health (i ∷ is) ∷ []

  abbrev pub version_note : Option (String × String) → List (Sentence F)
  version_note none = []
  version_note (some (before, after)) = version_changed before after ∷ []

  abbrev pub method_name : String → String
  method_name m = if str_eq m method_per_prompt then "per-prompt conformal" else "pooled MMD/energy"

  abbrev pub headline : DriftLevel → DriftAssessment F → F → List (Sentence F) → List (Sentence F)
  headline no_drift a target_fpr notes =
      consistent (method_name a.method) a.combined_p_value target_fpr ∷ notes
  headline level a target_fpr notes =
      rejects (lead_of level) (method_name a.method) a.combined_p_value target_fpr a.effect_size
        ∷ signal_note (strongest a.per_prompt)
      ++ notes

  unfoldable pub interpret : DriftAssessment F → F → Option (String × String) → List (Sentence F)
  interpret a target_fpr model_change =
      headline a.level a target_fpr
        (health_note (degenerate a.per_prompt) ++ version_note model_change)
