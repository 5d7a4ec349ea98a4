-- ===== src/Alert/Cooldown.antt =====
-- The de-duplication window of the alert engine (crates/core/src/alert.rs).
use modelsentry.Base.{
  ℕ, suc, ◌≡◌, Bool, true, false, List, [], ◌∷◌, All, filter, Option, none, some, arith, Bool-cases,
  inl, inr,
}
use modelsentry.Base.Int.{pos, ltb_ℤ, ◌-ℤ◌, ◌≤ℤ◌}
use modelsentry.Base.Assoc.{Assoc, get}
use modelsentry.Common.Time.{Time, Duration}
use modelsentry.Common.Models.{Uuid, uuid_keys, DriftReport, AlertRule, AlertEvent}
use modelsentry.Float.{Floats}
use modelsentry.Alert.{AlertEngine, in_cooldown, is_recent, evaluate_and_fire}
use modelsentry.Alert.Outcome.{should_fire, events_for, evaluate_and_fire_lem}
use modelsentry.Alert.Target.{Network}

-- The last event, if any, lies at least a cooldown back.
abbrev pub IsRested : Duration → Time → Option Time → Type 0
IsRested cooldown now none = Unit
IsRested cooldown now (some last) = cooldown ≤ℤ (now -ℤ last)

unrecent-IsRested :
    (cooldown : Duration) (now : Time) (last : Option Time)
    → is_recent cooldown now last ≡ false
    → IsRested cooldown now last
unrecent-IsRested cooldown now none h = tt
unrecent-IsRested cooldown now (some last) h = ground arith

module _ {F32 F64 : Type 0} (fl : Floats F32 F64) (net : Network) (engine : AlertEngine F64)
    (fresh : ℕ → Uuid) (report : DriftReport F32) (last_fired : Assoc Uuid Time)
    (spent_alpha : Assoc Uuid F64) (now : Time) where
  abbrev fires : AlertRule F32 → Bool
  fires rule = should_fire fl net engine fresh report last_fired spent_alpha now rule

  abbrev pub IsRestedEvent : AlertEvent F32 → Type 0
  IsRestedEvent event =
      IsRested engine.cooldown event.fired_at (get uuid_keys last_fired event.rule_id)

  fires-IsRested :
      ltb_ℤ (pos 0) engine.cooldown ≡ true
      → (rule : AlertRule F32) → fires rule ≡ true
      → IsRested engine.cooldown now (get uuid_keys last_fired rule.id)
  unfolding in_cooldown
  fires-IsRested positive rule h =
      unrecent-IsRested engine.cooldown now (get uuid_keys last_fired rule.id) (ground arith)

  events-IsRested :
      ltb_ℤ (pos 0) engine.cooldown ≡ true
      → (n : ℕ) (rules : List (AlertRule F32))
      → All IsRestedEvent
          (events_for fl net engine fresh report last_fired spent_alpha now n (filter fires rules))
  events-IsRested positive n [] = tt
  events-IsRested positive n (rule ∷ rules) = elim (Bool-cases (fires rule)) [
    | inl t ↦ rw t (fires-IsRested positive rule t, events-IsRested positive (suc n) rules)
    | inr t ↦ rw t (events-IsRested positive n rules)
  ]

  -- With a positive cooldown, an event is fired only for a rule that has never fired before or whose
  -- last event lies at least the cooldown before the new one.
  pub evaluate_and_fire-IsRested :
      ltb_ℤ (pos 0) engine.cooldown ≡ true
      → (rules : List (AlertRule F32))
      → All IsRestedEvent
          (evaluate_and_fire fl net engine fresh report last_fired spent_alpha now
            rules).outcome.events
  evaluate_and_fire-IsRested positive rules =
      rw (evaluate_and_fire_lem fl net engine fresh report last_fired spent_alpha now rules).0
        (events-IsRested positive 0 rules)
