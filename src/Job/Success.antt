-- ===== src/Job/Success.antt =====
-- When the job of crates/daemon/src/scheduler.rs succeeds, in terms of the failures of the store, and
-- what it has then done.
use modelsentry.Base.{
  [], refl, inl, inr, none, some, Option, List, ◌≡◌, ◌↔◌, foldl, All, ◌∷◌, Option-cases,
}
use modelsentry.Common.Error.{ok, err, Result, ModelSentryError}
use modelsentry.Float.{Floats}
use modelsentry.Common.Models.{Uuid, AlertRule, AlertEvent}
use modelsentry.Job.{
  Done, Faults, attempt, outcome_of, AlertTables, Entry, RuleSpend, reads, insert_events, record_in,
  record_spends, record_spend, insert_event, ◌-ℤ◌,
}
use modelsentry.Common.Time.{Duration, Time}

-- A step that may fail, and what follows it.
pub attempt_iff :
    {F32 F64 : Type 0} (r : Result (Unit {0})) (d : Done F32 F64)
    (next : Done F32 F64 → Done F32 F64)
    → ((attempt r d next).result ≡ ok tt) ↔ ((r ≡ ok tt) × ((next d).result ≡ ok tt))
attempt_iff (ok u) d next = (λ h. (refl, h), λ h. h.1)
attempt_iff (err e) d next = (λ h. absurd (cc h), λ h. absurd (cc h.0))

pub outcome_of_iff : (fault : Option ModelSentryError) → (outcome_of fault ≡ ok tt) ↔ (fault ≡ none)
outcome_of_iff none = (λ h. refl, λ h. refl)
outcome_of_iff (some e) = (λ h. absurd (cc h), λ h. absurd (cc h))

-- The debits as the ledger records them when none fails.
abbrev pub debited :
    {F32 F64 : Type 0}
    → Floats F32 F64
    → Option Duration
    → Time
    → List (Entry F64)
    → List (RuleSpend F64)
    → List (Entry F64)
debited fl none now table spends = table
debited fl (some window) now table spends =
    foldl
      (λ t (spend : RuleSpend _).
        record_spend fl.double t spend.rule_id now spend.alpha (now -ℤ window))
      table spends

-- No debit that is to be recorded fails.
abbrev pub AllRecorded : {F64 : Type 0} → Faults → Option Duration → List (RuleSpend F64) → Type 0
AllRecorded faults none spends = Unit
AllRecorded faults (some window) spends =
    All (λ (spend : RuleSpend _). faults.record_spend spend.rule_id ≡ none) spends

module _ {F : Type 0} where
  pub reads_iff :
      (fault : Uuid → Option ModelSentryError) (rules : List (AlertRule F))
      → (reads fault rules ≡ ok tt) ↔ All (λ (rule : AlertRule F). fault rule.id ≡ none) rules
  reads_iff fault [] = (λ h. tt, λ h. refl)
  reads_iff fault (rule ∷ rules) = elim (Option-cases (fault rule.id)) [
    | inl none_eq ↦
        rw none_eq (λ h. (refl, (reads_iff fault rules).0 h), λ h. (reads_iff fault rules).1 h.1)
    | inr (e, some_eq) ↦ rw some_eq (λ h. absurd (cc h), λ h. absurd (cc h.0))
  ]

  pub insert_events_iff :
      (faults : Faults) (alerts : AlertTables F) (events : List (AlertEvent F))
      → ((insert_events faults alerts events).1 ≡ ok tt)
        ↔ All (λ (e : AlertEvent F). faults.insert_event e.id ≡ none) events
  insert_events_iff faults alerts [] = (λ h. tt, λ h. refl)
  insert_events_iff faults alerts (event ∷ events) =
      let rest = insert_events_iff faults (insert_event alerts event) events in
      elim (Option-cases (faults.insert_event event.id)) [
        | inl none_eq ↦ rw (none_eq, insert_events) (λ h. (refl, rest.0 h), λ h. rest.1 h.1)
        | inr (e, some_eq) ↦ rw (some_eq, insert_events) (λ h. absurd (cc h), λ h. absurd (cc h.0))
      ]

  pub insert_events-all :
      (faults : Faults) (alerts : AlertTables F) (events : List (AlertEvent F))
      → All (λ (e : AlertEvent F). faults.insert_event e.id ≡ none) events
      → insert_events faults alerts events ≡ (foldl insert_event alerts events, ok tt)
  insert_events-all faults alerts [] h = refl
  insert_events-all faults alerts (event ∷ events) h =
      rw (h.0, insert_events) (insert_events-all faults (insert_event alerts event) events h.1)

module _ {F32 F64 : Type 0} (fl : Floats F32 F64) (faults : Faults) where
  record_in_iff :
      (window : Duration) (now : Time) (table : List (Entry F64)) (spends : List (RuleSpend F64))
      → ((record_in fl faults window now table spends).1 ≡ ok tt)
        ↔ AllRecorded faults (some window) spends
  record_in_iff window now table [] = (λ h. tt, λ h. refl)
  record_in_iff window now table (spend ∷ spends) =
      let rest =
        record_in_iff window now
          (record_spend fl.double table spend.rule_id now spend.alpha (now -ℤ window)) spends in
      elim (Option-cases (faults.record_spend spend.rule_id)) [
        | inl none_eq ↦ rw (none_eq, record_in) (λ h. (refl, rest.0 h), λ h. rest.1 h.1)
        | inr (e, some_eq) ↦ rw (some_eq, record_in) (λ h. absurd (cc h), λ h. absurd (cc h.0))
      ]

  record_in-all :
      (window : Duration) (now : Time) (table : List (Entry F64)) (spends : List (RuleSpend F64))
      → AllRecorded faults (some window) spends
      → record_in fl faults window now table spends
        ≡ (debited fl (some window) now table spends, ok tt)
  record_in-all window now table [] h = refl
  record_in-all window now table (spend ∷ spends) h =
      rw (h.0, record_in)
        (record_in-all window now
          (record_spend fl.double table spend.rule_id now spend.alpha (now -ℤ window)) spends h.1)

  pub record_spends_iff :
      (window : Option Duration) (now : Time) (table : List (Entry F64))
      (spends : List (RuleSpend F64))
      → ((record_spends fl faults window now table spends).1 ≡ ok tt)
        ↔ AllRecorded faults window spends
  record_spends_iff none now table spends = (λ h. tt, λ h. refl)
  record_spends_iff (some window) now table spends = record_in_iff window now table spends

  pub record_spends-all :
      (window : Option Duration) (now : Time) (table : List (Entry F64))
      (spends : List (RuleSpend F64))
      → AllRecorded faults window spends
      → record_spends fl faults window now table spends
        ≡ (debited fl window now table spends, ok tt)
  record_spends-all none now table spends h = refl
  record_spends-all (some window) now table spends h = record_in-all window now table spends h
