-- ===== src/Alert/Outcome.antt =====
-- The loop of `AlertEngine::evaluate_and_fire` against a description by filters.
use mathlib.Core.List.{append_assoc, append-nil}
use modelsentry.Base.{
  false, true, none, some, ℕ, suc, ◌≡◌, refl, sym, ◌∙◌, Bool, not, ◌&&◌, List, [], ◌∷◌, ◌++◌, map,
  filter, length, foldl, arith, if◌then◌else◌, Bool-cases, inl, inr, length-append,
}
use modelsentry.Base.Assoc.{Assoc}
use modelsentry.Common.Time.{Time}
use modelsentry.Common.Models.{Uuid, DriftReport, AlertRule, AlertEvent}
use modelsentry.Float.{Floats}
use modelsentry.Alert.{
  AlertEngine, RuleSpend, Firing, Delivery, effective_alpha, in_cooldown, look, evaluate_and_fire,
  fire_channel,
}
use modelsentry.Alert.Target.{Network}

length-snoc {ℓ} : {A : Type ℓ} (xs : List A) (x : A) → length (xs ++ x ∷ []) ≡ suc (length xs)
length-snoc xs x = omega (arith, length-append xs (x ∷ []))

module _ {F32 F64 : Type 0} (fl : Floats F32 F64) (net : Network) (engine : AlertEngine F64)
    (fresh : ℕ → Uuid) (report : DriftReport F32) (last_fired : Assoc Uuid Time)
    (spent_alpha : Assoc Uuid F64) (now : Time) where
  open fl use {double, widen}

  abbrev level : AlertRule F32 → F64
  level rule = effective_alpha fl engine rule spent_alpha

  abbrev pub should_fire : AlertRule F32 → Bool
  should_fire rule =
      rule.active
      && not (double.le (level rule) (widen report.combined_p_value))
      && not (in_cooldown fl engine rule last_fired now)

  abbrev pub should_debit : AlertRule F32 → Bool
  should_debit rule =
      rule.active
      && (elim engine.sequential [ none ↦ false | some seq ↦ true ]
          && double.lt (double.of_nat 0) (level rule))

  abbrev pub spend_of : AlertRule F32 → RuleSpend F64
  spend_of rule = record { rule_id = rule.id; alpha = level rule }

  abbrev event : ℕ → AlertRule F32 → AlertEvent F32
  event n rule = record {
    id = fresh n;
    rule_id = rule.id;
    drift_report = report;
    fired_at = now;
    acknowledged = false;
  }

  abbrev step : Firing F32 F64 → AlertRule F32 → Firing F32 F64
  step st rule = look fl net engine fresh report last_fired spent_alpha now st rule

  abbrev pub events_for : ℕ → List (AlertRule F32) → List (AlertEvent F32)
  events_for n [] = []
  events_for n (rule ∷ rules) = event n rule ∷ events_for (suc n) rules

  abbrev pub deliveries_for : ℕ → List (AlertRule F32) → List (Delivery F32)
  deliveries_for n [] = []
  deliveries_for n (rule ∷ rules) =
      map (fire_channel fl net engine (event n rule)) rule.channels ++ deliveries_for (suc n) rules

  look-events :
      (st : Firing F32 F64) (rule : AlertRule F32)
      → (step st rule).outcome.events ≡ (
          if should_fire rule
          then st.outcome.events ++ event (length st.outcome.events) rule ∷ []
          else st.outcome.events)
  look-events st rule = ground arith

  look-spends :
      (st : Firing F32 F64) (rule : AlertRule F32)
      → (step st rule).outcome.spends
        ≡ (if should_debit rule then st.outcome.spends ++ spend_of rule ∷ [] else st.outcome.spends)
  look-spends st rule = ground arith

  look-deliveries :
      (st : Firing F32 F64) (rule : AlertRule F32)
      → (step st rule).deliveries ≡ (
          if should_fire rule
          then st.deliveries
            ++ map
                (fire_channel fl net engine (event (length st.outcome.events) rule))
                rule.channels
          else st.deliveries)
  look-deliveries st rule = ground arith

  fold-spends :
      (rules : List (AlertRule F32)) (st : Firing F32 F64)
      → (foldl step st rules).outcome.spends
        ≡ st.outcome.spends ++ map spend_of (filter should_debit rules)
  fold-spends [] st = sym (append-nil st.outcome.spends)
  fold-spends (rule ∷ rules) st = elim (Bool-cases (should_debit rule)) [
    | inl t ↦
        fold-spends rules (step st rule)
        ∙ rw (look-spends st rule, t)
            (append_assoc st.outcome.spends (spend_of rule ∷ [])
              (map spend_of (filter should_debit rules)))
    | inr t ↦ fold-spends rules (step st rule) ∙ rw (look-spends st rule, t) refl
  ]

  fold-events :
      (rules : List (AlertRule F32)) (st : Firing F32 F64)
      → (foldl step st rules).outcome.events
        ≡ st.outcome.events ++ events_for (length st.outcome.events) (filter should_fire rules)
  fold-events [] st = sym (append-nil st.outcome.events)
  fold-events (rule ∷ rules) st = elim (Bool-cases (should_fire rule)) [
    | inl t ↦
        fold-events rules (step st rule)
        ∙ rw
            (
              look-events st rule,
              t,
              length-snoc st.outcome.events (event (length st.outcome.events) rule),
            )
            (append_assoc st.outcome.events _ _)
    | inr t ↦ fold-events rules (step st rule) ∙ rw (look-events st rule, t) refl
  ]

  fold-deliveries :
      (rules : List (AlertRule F32)) (st : Firing F32 F64)
      → (foldl step st rules).deliveries
        ≡ st.deliveries ++ deliveries_for (length st.outcome.events) (filter should_fire rules)
  fold-deliveries [] st = sym (append-nil st.deliveries)
  fold-deliveries (rule ∷ rules) st = elim (Bool-cases (should_fire rule)) [
    | inl t ↦
        fold-deliveries rules (step st rule)
        ∙ rw
            (
              look-deliveries st rule,
              look-events st rule,
              t,
              length-snoc st.outcome.events (event (length st.outcome.events) rule),
            )
            (append_assoc st.deliveries _ _)
    | inr t ↦
        fold-deliveries rules (step st rule)
        ∙ rw (look-deliveries st rule, look-events st rule, t) refl
  ]

  -- The events are one for each active rule whose level exceeds the p-value and that is not in its
  -- cooldown, in the order of the rules and with fresh identifiers; the deliveries are those of
  -- their channels, in order; and the debits are one for each active rule looked at with a positive
  -- level under sequential control, whether or not the rule fired.
  pub evaluate_and_fire_lem :
      (rules : List (AlertRule F32))
      → let result =
          evaluate_and_fire fl net engine fresh report last_fired spent_alpha now rules in
        (result.outcome.events ≡ events_for 0 (filter should_fire rules))
        × (result.deliveries ≡ deliveries_for 0 (filter should_fire rules))
        × (result.outcome.spends ≡ map spend_of (filter should_debit rules))
  unfolding evaluate_and_fire
  evaluate_and_fire_lem rules = (fold-events rules _, fold-deliveries rules _, fold-spends rules _)
