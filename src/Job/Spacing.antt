-- ===== src/Job/Spacing.antt =====
-- The cooldown across jobs (crates/daemon/src/scheduler.rs, crates/store/src/alert_store.rs,
-- crates/core/src/alert.rs): the spacing of the events that the store comes to hold.
use mathlib.Core.Path.{subst}
use modelsentry.Base.{
  if◌then◌else◌, ℕ, suc, ◌≡◌, refl, ap, ◌∙◌, Bool, true, false, List, [], ◌∷◌, any, All, filter,
  foldl, Option, none, some, String, arith, Bool-cases, inl, inr, ◌==◌, ==_iff,
}
use modelsentry.Base.Int.{pos, ltb_ℤ, ◌-ℤ◌, ◌≤ℤ◌, int_laws}
use modelsentry.Base.Assoc.{Assoc, get, get-insert}
use modelsentry.Common.Models.{Uuid, uuid_keys, AlertRule, AlertEvent, DriftReport}
use modelsentry.Common.Time.{Time, Duration}
use modelsentry.Float.{Floats}
use modelsentry.Alert.{AlertEngine, evaluate_and_fire, sequential_window}
use modelsentry.Alert.Cooldown.{IsRested, evaluate_and_fire-IsRested}
use modelsentry.Alert.Outcome.{should_fire, events_for, evaluate_and_fire_lem}
use modelsentry.Alert.Target.{Network}
use modelsentry.Drift.Assessment.{AssessmentConfig}
use modelsentry.Drift.Interpret.{Sentence}
use modelsentry.Store.Alerts.{AlertTables, get_rules_for_probe, last_fired_for_rule}
use modelsentry.Store.Alerts.LastFired.{IsUpTo, IsCovered, IsIndexed}
use modelsentry.Job.{Tables, note_fired, load_last_fired, fired_for, load_spent}

get-note :
    (fired : Option Time) (rule_id id : Uuid) (m : Assoc Uuid Time)
    → get uuid_keys (note_fired fired rule_id m) id ≡ (
        if rule_id == id
        then elim fired [ none ↦ get uuid_keys m id | some t ↦ some t ]
        else get uuid_keys m id)
get-note none rule_id id m = ground arith
get-note (some t) rule_id id m = get-insert uuid_keys m rule_id id t

-- Spacing matters between events of one rule.
abbrev pub SpacedIf : Bool → Duration → Time → Time → Type 0
SpacedIf false cooldown before after = Unit
SpacedIf true cooldown before after = cooldown ≤ℤ (after -ℤ before)

rested_spaced :
    (cooldown : Duration) (before after : Time) (last : Option Time)
    → IsUpTo before last
    → IsRested cooldown after last
    → cooldown ≤ℤ (after -ℤ before)
rested_spaced cooldown before after none h k = absurd h
rested_spaced cooldown before after (some t) h k = omega int_laws

module _ {F : Type 0} where
  abbrev has_rule : List (AlertRule F) → Uuid → Bool
  has_rule rules id = any (λ (rule : AlertRule F). rule.id == id) rules

  step_keeps :
      (alerts : AlertTables F) (rule : AlertRule F) (id : Uuid) (m : Assoc Uuid Time)
      → get uuid_keys m id ≡ last_fired_for_rule alerts id
      → get uuid_keys (note_fired (last_fired_for_rule alerts rule.id) rule.id m) id
        ≡ last_fired_for_rule alerts id
  step_keeps alerts rule id m h = elim (Bool-cases (rule.id == id)) [
    | inl e ↦
        let same : last_fired_for_rule alerts rule.id ≡ last_fired_for_rule alerts id =
          ap (last_fired_for_rule alerts) ((==_iff rule.id id).0 e) in
        get-note (last_fired_for_rule alerts rule.id) rule.id id m
        ∙ rw (e, same) (ground (arith, h))
    | inr e ↦ get-note (last_fired_for_rule alerts rule.id) rule.id id m ∙ rw e h
  ]

  step_loads :
      (alerts : AlertTables F) (rule : AlertRule F) (id : Uuid) (m : Assoc Uuid Time)
      → (rule.id == id) ≡ true
      → get uuid_keys m id ≡ none
      → get uuid_keys (note_fired (last_fired_for_rule alerts rule.id) rule.id m) id
        ≡ last_fired_for_rule alerts id
  step_loads alerts rule id m e h =
      let same : last_fired_for_rule alerts rule.id ≡ last_fired_for_rule alerts id =
        ap (last_fired_for_rule alerts) ((==_iff rule.id id).0 e) in
      get-note (last_fired_for_rule alerts rule.id) rule.id id m ∙ rw (e, same) (ground (arith, h))

  -- What was loaded for a rule stays loaded.
  loaded_stays :
      (alerts : AlertTables F) (rules : List (AlertRule F)) (id : Uuid) (m : Assoc Uuid Time)
      → get uuid_keys m id ≡ last_fired_for_rule alerts id
      → get uuid_keys
          (foldl
            (λ m (rule : AlertRule F). note_fired (last_fired_for_rule alerts rule.id) rule.id m)
            m
            rules)
          id
        ≡ last_fired_for_rule alerts id
  loaded_stays alerts [] id m h = h
  loaded_stays alerts (rule ∷ rules) id m h =
      loaded_stays alerts rules id _ (step_keeps alerts rule id m h)

  loaded :
      (alerts : AlertTables F) (rules : List (AlertRule F)) (id : Uuid) (m : Assoc Uuid Time)
      → get uuid_keys m id ≡ none
      → has_rule rules id ≡ true
      → get uuid_keys
          (foldl
            (λ m (rule : AlertRule F). note_fired (last_fired_for_rule alerts rule.id) rule.id m)
            m
            rules)
          id
        ≡ last_fired_for_rule alerts id
  loaded alerts [] id m h k = absurd (cc)
  loaded alerts (rule ∷ rules) id m h k = elim (Bool-cases (rule.id == id)) [
    | inl e ↦ loaded_stays alerts rules id _ (step_loads alerts rule id m e h)
    | inr e ↦
        loaded alerts rules id _
          (get-note (last_fired_for_rule alerts rule.id) rule.id id m ∙ rw e h) (rw e at k)
  ]

  here : (rule : AlertRule F) (rules : List (AlertRule F)) → has_rule (rule ∷ rules) rule.id ≡ true
  here rule rules = ground (arith, (==_iff rule.id rule.id).1 refl)

  self_listed :
      (rules more : List (AlertRule F))
      → ((id : Uuid) → has_rule rules id ≡ true → has_rule more id ≡ true)
      → All (λ (rule : AlertRule F). has_rule more rule.id ≡ true) rules
  self_listed [] more sub = tt
  self_listed (rule ∷ rules) more sub =
      (sub rule.id (here rule rules), self_listed rules more (λ id h. sub id (ground arith)))

  abbrev pub IsSpacedFrom : Duration → Assoc Uuid (AlertEvent F) → AlertEvent F → Type 0
  IsSpacedFrom cooldown old event =
      All
        (λ (entry : Uuid × AlertEvent F).
          SpacedIf (entry.1.rule_id == event.rule_id) cooldown entry.1.fired_at event.fired_at)
        old

  spaced_entries :
      (alerts : AlertTables F) (cooldown : Duration) (event : AlertEvent F)
      → IsRested cooldown event.fired_at (last_fired_for_rule alerts event.rule_id)
      → (old : Assoc Uuid (AlertEvent F)) → All (IsCovered alerts) old
      → IsSpacedFrom cooldown old event
  spaced_entries alerts cooldown event rested [] h = tt
  spaced_entries alerts cooldown event rested ((i, e) ∷ old) h = (
    elim (Bool-cases (e.rule_id == event.rule_id)) [
      | inl same ↦
          let rule : e.rule_id ≡ event.rule_id = (==_iff e.rule_id event.rule_id).0 same in
          rw same (
            rested_spaced cooldown e.fired_at event.fired_at
              (last_fired_for_rule alerts event.rule_id)
              (subst (λ id. IsUpTo e.fired_at (last_fired_for_rule alerts id)) rule h.0) rested)
      | inr other ↦ rw other tt
    ],
    spaced_entries alerts cooldown event rested old h.1,
  )

  spaced_events :
      (alerts : AlertTables F) (rules : List (AlertRule F)) (cooldown : Duration)
      → IsIndexed alerts
      → (events : List (AlertEvent F))
      → All (λ (e : AlertEvent F). has_rule rules e.rule_id ≡ true) events
      → All
          (λ (e : AlertEvent F).
            IsRested cooldown e.fired_at (get uuid_keys (load_last_fired alerts rules) e.rule_id))
          events
      → All (IsSpacedFrom cooldown alerts.events) events
  spaced_events alerts rules cooldown indexed [] k r = tt
  spaced_events alerts rules cooldown indexed (e ∷ events) k r = (
    spaced_entries alerts cooldown e
        (subst (IsRested cooldown e.fired_at) (loaded alerts rules e.rule_id [] refl k.0) r.0)
        alerts.events indexed,
    spaced_events alerts rules cooldown indexed events k.1 r.1,
  )

module _ {F32 F64 : Type 0} (fl : Floats F32 F64) (net : Network) (engine : AlertEngine F64)
    (fresh : ℕ → Uuid) (report : DriftReport F32) (last_fired : Assoc Uuid Time)
    (spent_alpha : Assoc Uuid F64) (now : Time) where
  events_known :
      (keep : AlertRule F32 → Bool) (more : List (AlertRule F32)) (n : ℕ)
      (rules : List (AlertRule F32))
      → All (λ (rule : AlertRule F32). has_rule more rule.id ≡ true) rules
      → All
          (λ (e : AlertEvent F32). has_rule more e.rule_id ≡ true)
          (events_for fl net engine fresh report last_fired spent_alpha now n (filter keep rules))
  events_known keep more n [] h = tt
  events_known keep more n (rule ∷ rules) h = elim (Bool-cases (keep rule)) [
    | inl e ↦ rw e (h.0, events_known keep more (suc n) rules h.1)
    | inr e ↦ rw e (events_known keep more n rules h.1)
  ]

  fired_known :
      (rules : List (AlertRule F32))
      → All
          (λ (e : AlertEvent F32). has_rule rules e.rule_id ≡ true)
          (evaluate_and_fire fl net engine fresh report last_fired spent_alpha now
            rules).outcome.events
  fired_known rules =
      rw (evaluate_and_fire_lem fl net engine fresh report last_fired spent_alpha now rules).0 (
        events_known (should_fire fl net engine fresh report last_fired spent_alpha now) rules 0
          rules (self_listed rules rules (λ id h. h)))

module _ {F32 F64 : Type 0} (fl : Floats F32 F64) (render : List (Sentence F32) → String)
    (net : Network) (engine : AlertEngine F64) (config : AssessmentConfig F32) (fresh : ℕ → Uuid)
    (probe_id : Uuid) (now : Time) where
  -- With a positive cooldown, every event that a job fires lies at least the cooldown after each
  -- event of the same rule that the store held before, if the store's index covers its events.
  pub fired_for-IsSpaced :
      ltb_ℤ (pos 0) engine.cooldown ≡ true
      → (st : Tables F32 F64) (report : DriftReport F32) → IsIndexed st.alerts
      → All
          (IsSpacedFrom engine.cooldown st.alerts.events)
          (fired_for fl render net engine config fresh probe_id now st report).outcome.events
  fired_for-IsSpaced positive st report indexed =
      let rules = get_rules_for_probe st.alerts probe_id in
      let fired_before = load_last_fired st.alerts rules in
      let spent = load_spent fl (sequential_window fl engine) now st.spends rules in
      spaced_events st.alerts rules engine.cooldown indexed _
        (fired_known fl net engine fresh report fired_before spent now rules)
        (evaluate_and_fire-IsRested fl net engine fresh report fired_before spent now positive
          rules)
