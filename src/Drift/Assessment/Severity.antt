-- ===== src/Drift/Assessment/Severity.antt =====
-- The severity bands of crates/core/src/drift/assessment.rs.
use modelsentry.Base.{◌≤◌, ◌≡◌, refl, ◌↔◌, true, arith}
use modelsentry.Common.Models.{no_drift, rank}
use modelsentry.Float.{Floats, FloatLaws}
use modelsentry.Drift.Assessment.{severity_from_p}

module _ {F32 F64 : Type 0} (fl : Floats F32 F64) where
  open fl use {single}

  -- The verdict is "no drift" exactly when the p-value reaches the target rate, floored at the
  -- least positive number; a NaN never does.
  pub severity-no_drift_iff :
      (p target_fpr : F32)
      → (severity_from_p fl p target_fpr ≡ no_drift)
        ↔ (single.le (single.max target_fpr single.min_positive) p ≡ true)
  unfolding severity_from_p
  severity-no_drift_iff p target_fpr = (λ h. ground arith, λ h. rw h refl)

  -- Of two p-values against one target rate, the smaller never has the milder level.
  pub severity-antitone :
      (laws : FloatLaws single) (p q target_fpr : F32)
      → single.le p q ≡ true
      → rank (severity_from_p fl q target_fpr) ≤ rank (severity_from_p fl p target_fpr)
  unfolding severity_from_p
  severity-antitone laws p q target_fpr h =
      let alpha = single.max target_fpr single.min_positive in
      ground (
        arith,
        laws.le_trans alpha p q,
        laws.le_trans (single.div alpha (single.of_nat 10)) p q,
        laws.le_trans (single.div alpha (single.of_nat 100)) p q,
        laws.le_trans (single.div alpha (single.of_nat 1000)) p q,
      )
