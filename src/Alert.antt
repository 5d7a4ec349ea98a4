-- ===== src/Alert.antt =====
-- The alert engine (crates/core/src/alert.rs). Its guard on webhook targets is in Alert/Target.antt,
-- what the guard blocks in Alert/Address.antt. The mailer and the HTTP client are outside of the
-- program: a delivery is an entry in a trace. `fresh` is the stream of identifiers that
-- `Uuid::new_v4` draws, `now` is the clock.
pub mod Address
pub mod Target
pub mod Outcome
pub mod Budget
pub mod Exhausted
pub mod Cooldown
pub mod Guarded
use modelsentry.Base.{
  ℕ, Bool, true, false, not, ◌&&◌, ◌||◌, List, [], ◌∷◌, ◌++◌, Option, none, some, String, length,
  foldl, map, if◌then◌else◌, ◌==◌,
}
use modelsentry.Base.Int.{ℤ, pos, ltb_ℤ, ◌-ℤ◌}
use modelsentry.Base.Assoc.{Assoc, get}
use modelsentry.Common.Time.{Time, Duration}
use modelsentry.Common.Models.{
  Uuid, DriftLevel, DriftReport, AlertRule, AlertEvent, AlertChannel, webhook, slack, email,
  no_drift, low, medium, high, critical, uuid_keys,
}
use modelsentry.Float.{Floats}
use modelsentry.Alert.Target.{Network, Refusal, validate_target, passed, refused}

pub record SequentialControl (F64 : Type 0) : Type 0 where
  pub window : Duration
  pub alpha_budget : F64

pub record RuleSpend (F64 : Type 0) : Type 0 where
  pub rule_id : Uuid
  pub alpha : F64

pub record AlertOutcome (F32 F64 : Type 0) : Type 0 where
  pub events : List (AlertEvent F32)
  pub spends : List (RuleSpend F64)

-- The mailer is only known to be there.
pub record AlertEngine (F64 : Type 0) : Type 0 where
  pub allow_private_targets : Bool
  pub cooldown : Duration
  pub has_mailer : Bool
  pub sequential : Option (SequentialControl F64)

-- What `fire_channel` does: a request or a mail that is sent, with a logged failure if it is not
-- delivered, or a warning in its place.
pub data Delivery (F32 : Type 0) : Type 0 where
  posted : String → AlertEvent F32 → Delivery F32
  mailed : String → String → AlertEvent F32 → Delivery F32
  refused_target : String → Refusal → Delivery F32
  skipped_email : String → Delivery F32

abbrev pub drift_level_label : DriftLevel → String
drift_level_label no_drift = "No"
drift_level_label low = "Low"
drift_level_label medium = "Medium"
drift_level_label high = "High"
drift_level_label critical = "Critical"

-- The outcome so far, and the deliveries made.
pub record Firing (F32 F64 : Type 0) : Type 0 where
  pub outcome : AlertOutcome F32 F64
  pub deliveries : List (Delivery F32)

abbrev pub is_recent : Duration → Time → Option Time → Bool
is_recent cooldown now none = false
is_recent cooldown now (some last) = ltb_ℤ (now -ℤ last) cooldown

module _ {F32 F64 : Type 0} (fl : Floats F32 F64) where
  open fl use {double, widen}

  abbrev pub new : AlertEngine F64
  new = record {
    allow_private_targets = false;
    cooldown = pos 0;
    has_mailer = false;
    sequential = none;
  }

  abbrev pub with_allow_private_targets : AlertEngine F64 → Bool → AlertEngine F64
  with_allow_private_targets engine allow = record engine { allow_private_targets = allow }

  abbrev pub with_cooldown : AlertEngine F64 → Duration → AlertEngine F64
  with_cooldown engine cooldown = record engine { cooldown = cooldown }

  abbrev pub with_mailer : AlertEngine F64 → Bool → AlertEngine F64
  with_mailer engine mailer = record engine { has_mailer = mailer }

  abbrev pub enabled : Option (SequentialControl F64) → Option (SequentialControl F64)
  enabled none = none
  enabled (some s) = if double.lt (double.of_nat 0) s.alpha_budget then some s else none

  abbrev pub with_sequential : AlertEngine F64 → Option (SequentialControl F64) → AlertEngine F64
  with_sequential engine sequential = record engine { sequential = enabled sequential }

  abbrev pub sequential_window : AlertEngine F64 → Option Duration
  sequential_window engine = elim engine.sequential [ none ↦ none | some s ↦ some s.window ]

  abbrev pub or_zero : Option F64 → F64
  or_zero none = double.of_nat 0
  or_zero (some x) = x

  -- The level, given the control of the engine.
  abbrev pub capped : Option (SequentialControl F64) → F64 → F64 → F64
  capped none target spent = target
  capped (some seq) target spent =
      double.min target (double.max (double.sub seq.alpha_budget spent) (double.of_nat 0))

  unfoldable pub effective_alpha : AlertEngine F64 → AlertRule F32 → Assoc Uuid F64 → F64
  effective_alpha engine rule spent_alpha =
      capped engine.sequential (widen rule.target_fpr) (or_zero (get uuid_keys spent_alpha rule.id))

  unfoldable pub in_cooldown : AlertEngine F64 → AlertRule F32 → Assoc Uuid Time → Time → Bool
  in_cooldown engine rule last_fired now =
      ltb_ℤ (pos 0) engine.cooldown
      && is_recent engine.cooldown now (get uuid_keys last_fired rule.id)

  abbrev pub is_sequential : AlertEngine F64 → Bool
  is_sequential engine = elim engine.sequential [ none ↦ false | some s ↦ true ]

module _ {F32 F64 : Type 0} (fl : Floats F32 F64) (net : Network) (engine : AlertEngine F64) where
  open fl use {double, widen}

  abbrev pub send_email : String → AlertEvent F32 → Delivery F32
  send_email address event =
      if engine.has_mailer
      then mailed address (drift_level_label event.drift_report.drift_level) event
      else skipped_email address

  abbrev pub fire_url : String → AlertEvent F32 → Delivery F32
  fire_url url event = elim (validate_target net engine.allow_private_targets url) [
    | passed _ ↦ posted url event
    | refused reason ↦ refused_target url reason
  ]

  abbrev pub fire_channel : AlertEvent F32 → AlertChannel → Delivery F32
  fire_channel event (webhook url) = fire_url url event
  fire_channel event (slack url) = fire_url url event
  fire_channel event (email address) = send_email address event

module _ {F32 F64 : Type 0} (fl : Floats F32 F64) (net : Network) (engine : AlertEngine F64)
    (fresh : ℕ → Uuid) (report : DriftReport F32) (last_fired : Assoc Uuid Time)
    (spent_alpha : Assoc Uuid F64) (now : Time) where
  open fl use {double, widen}

  abbrev pub event_for : ℕ → AlertRule F32 → AlertEvent F32
  event_for n rule = record {
    id = fresh n;
    rule_id = rule.id;
    drift_report = report;
    fired_at = now;
    acknowledged = false;
  }

  -- The debit of one look, made whether or not the rule then fires.
  abbrev pub debit : AlertRule F32 → AlertOutcome F32 F64 → AlertOutcome F32 F64
  debit rule outcome =
      let alpha = effective_alpha fl engine rule spent_alpha in
      if is_sequential fl engine && double.lt (double.of_nat 0) alpha
      then record outcome {
        spends = outcome.spends ++ record { rule_id = rule.id; alpha = alpha } ∷ [];
      }
      else outcome

  abbrev pub fire : AlertRule F32 → Firing F32 F64 → Firing F32 F64
  fire rule st =
      let event = event_for (length st.outcome.events) rule in
      record {
        outcome = record st.outcome { events = st.outcome.events ++ event ∷ [] };
        deliveries = st.deliveries ++ map (fire_channel fl net engine event) rule.channels;
      }

  -- One round of the loop, each early `continue` in its place.
  abbrev pub look : Firing F32 F64 → AlertRule F32 → Firing F32 F64
  look st rule =
      let debited : Firing F32 F64 = record st { outcome = debit rule st.outcome } in
      if not rule.active
      then st
      else if double.le (effective_alpha fl engine rule spent_alpha) (widen report.combined_p_value)
      then debited
      else if in_cooldown fl engine rule last_fired now
      then debited
      else fire rule debited

  unfoldable pub evaluate_and_fire : List (AlertRule F32) → Firing F32 F64
  evaluate_and_fire rules =
      foldl look (record { outcome = record { events = []; spends = [] }; deliveries = [] }) rules
