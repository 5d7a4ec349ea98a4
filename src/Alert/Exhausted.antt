-- ===== src/Alert/Exhausted.antt =====
-- What an exhausted alpha budget does to the loop of crates/core/src/alert.rs, for any floating-point
-- arithmetic with these laws.
use modelsentry.Base.{[], inl, inr, true, false, some, arith, ◌≡◌, All, Bool-cases, filter, suc}
use modelsentry.Float.{Floats, FloatsLaws}
use modelsentry.Alert.Target.{Network}
use modelsentry.Alert.{
  AlertEngine, ℕ, Uuid, DriftReport, Assoc, Time, SequentialControl, or_zero, get, effective_alpha,
  AlertRule, List, uuid_keys, AlertEvent, evaluate_and_fire, ◌∷◌,
}
use modelsentry.Alert.Outcome.{should_fire, events_for, evaluate_and_fire_lem}

-- Facts of IEEE 754 arithmetic with the language's `min` and `max`, which pass over a NaN: a
-- difference that is not positive is cut off at zero, a minimum is no larger than a number on its
-- right, and widening keeps the sign.
pub record BudgetLaws {F32 F64 : Type 0} (fl : Floats F32 F64) : Type 0 where
  pub cut_off :
      (x y : F64)
      → fl.double.le x y ≡ true
      → fl.double.le (fl.double.max (fl.double.sub x y) (fl.double.of_nat 0)) (fl.double.of_nat 0)
        ≡ true
  pub min_le_right :
      (x y z : F64) → fl.double.le y z ≡ true → fl.double.le (fl.double.min x y) z ≡ true
  pub widen_nonneg :
      (x : F32)
      → fl.single.le (fl.single.of_nat 0) x ≡ true
      → fl.double.le (fl.double.of_nat 0) (fl.widen x) ≡ true

module _ {F32 F64 : Type 0} (fl : Floats F32 F64) (net : Network) (engine : AlertEngine F64)
    (fresh : ℕ → Uuid) (report : DriftReport F32) (last_fired : Assoc Uuid Time)
    (spent_alpha : Assoc Uuid F64) (now : Time) where
  open fl use {single, double, widen}

  -- What the map of spent alpha holds for a rule has not reached the budget.
  abbrev pub HasBudget : SequentialControl F64 → Uuid → Type 0
  HasBudget seq rule_id =
      double.le seq.alpha_budget (or_zero fl (get uuid_keys spent_alpha rule_id)) ≡ false

  module _ (seq : SequentialControl F64) (laws : FloatsLaws fl) (budget : BudgetLaws fl)
      (on : engine.sequential ≡ some seq)
      (p : single.le (single.of_nat 0) report.combined_p_value ≡ true) where
    exhausted_level :
        (rule : AlertRule F32)
        → double.le seq.alpha_budget (or_zero fl (get uuid_keys spent_alpha rule.id)) ≡ true
        → double.le (effective_alpha fl engine rule spent_alpha) (widen report.combined_p_value)
          ≡ true
    unfolding effective_alpha
    exhausted_level rule h = rw on (
        laws.on_double.le_trans _ _ _
          (budget.min_le_right (widen rule.target_fpr) _ _ (budget.cut_off _ _ h))
          (budget.widen_nonneg report.combined_p_value p))

    should_fire-HasBudget :
        (rule : AlertRule F32)
        → should_fire fl net engine fresh report last_fired spent_alpha now rule ≡ true
        → HasBudget seq rule.id
    should_fire-HasBudget rule fire =
        elim (Bool-cases
          (double.le seq.alpha_budget (or_zero fl (get uuid_keys spent_alpha rule.id)))) [
            | inl t ↦ let low = exhausted_level rule t in absurd (ground arith)
            | inr t ↦ t
          ]

    events_for-HasBudget :
        (n : ℕ) (rules : List (AlertRule F32))
        → All
            (λ (e : AlertEvent F32). HasBudget seq e.rule_id)
            (events_for fl net engine fresh report last_fired spent_alpha now n
              (filter (should_fire fl net engine fresh report last_fired spent_alpha now) rules))
    events_for-HasBudget n [] = tt
    events_for-HasBudget n (rule ∷ rules) =
        elim (Bool-cases (should_fire fl net engine fresh report last_fired spent_alpha now rule)) [
          | inl t ↦ rw t (should_fire-HasBudget rule t, events_for-HasBudget (suc n) rules)
          | inr t ↦ rw t (events_for-HasBudget n rules)
        ]

  -- Under sequential control no event is of a rule whose spent alpha has reached the budget, whatever
  -- the rules and the map of spent alpha are, where the p-value of the report is not negative (nor a
  -- NaN). It holds of every arithmetic that satisfies the laws, rounding included.
  pub evaluate_and_fire_exhausted :
      (seq : SequentialControl F64) (laws : FloatsLaws fl) (budget : BudgetLaws fl)
      (rules : List (AlertRule F32))
      → engine.sequential ≡ some seq
      → single.le (single.of_nat 0) report.combined_p_value ≡ true
      → All
          (λ (e : AlertEvent F32). HasBudget seq e.rule_id)
          (evaluate_and_fire fl net engine fresh report last_fired spent_alpha now
            rules).outcome.events
  evaluate_and_fire_exhausted seq laws budget rules on p =
      rw (evaluate_and_fire_lem fl net engine fresh report last_fired spent_alpha now rules).0
        (events_for-HasBudget seq laws budget on p 0 rules)
