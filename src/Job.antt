-- ===== src/Job.antt =====
-- One scheduled run of a probe, `run_probe_job` (crates/daemon/src/scheduler.rs), over the tables of
-- the store. `Faults` tells which calls of the store fail; `baseline` is what it answers for the latest
-- baseline of the probe, and `now` is the one reading of the clock.
pub mod Success
pub mod Spent
pub mod Debits
pub mod Budget
pub mod Windowed
pub mod Clear
pub mod Effects
pub mod Spacing
pub mod Indexed
use modelsentry.Base.{
  Bool, ℕ, true, false, not, List, [], ◌∷◌, ◌++◌, any, is_empty, foldl, Option, none, some, String,
  if◌then◌else◌, ◌==◌,
}
use modelsentry.Base.Int.{◌-ℤ◌}
use modelsentry.Base.Assoc.{Assoc, insert}
use modelsentry.Common.Error.{ModelSentryError, Result, ok, err, ◌>>=◌}
use modelsentry.Runner.{Calls, run, run_completions_only}
use modelsentry.Common.Models.{
  Probe, Uuid, uuid_keys, ProbeRun, BaselineSnapshot, DriftReport, AlertRule, AlertEvent,
}
use modelsentry.Common.Time.{Time, Duration}
use modelsentry.Float.{Floats}
use modelsentry.Alert.{
  is_sequential, AlertEngine, AlertOutcome, RuleSpend, Firing, Delivery, sequential_window,
  evaluate_and_fire,
}
use modelsentry.Alert.Target.{Network}
use modelsentry.Drift.Assessment.{AssessmentConfig}
use modelsentry.Drift.Calculator.{compute}
use modelsentry.Drift.Interpret.{Sentence}
use modelsentry.Store.Alerts.{AlertTables, get_rules_for_probe, last_fired_for_rule, insert_event}
use modelsentry.Store.Ledger.{Entry, spent_since, record_spend}

pub record Tables (F32 F64 : Type 0) : Type 0 where
  pub alerts : AlertTables F32
  pub spends : List (Entry F64)
  pub runs : List (ProbeRun F32)

-- The failures of the store's calls, each with its error; a call on a rule or an event by its
-- identifier.
pub record Faults : Type 0 where
  pub get_baseline : Option ModelSentryError
  pub get_rules : Option ModelSentryError
  pub last_fired : Uuid → Option ModelSentryError
  pub spent : Uuid → Option ModelSentryError
  pub insert_event : Uuid → Option ModelSentryError
  pub record_spend : Uuid → Option ModelSentryError
  pub insert_run : Option ModelSentryError

-- The store and the deliveries when the job returns, and what it returns.
pub record Done (F32 F64 : Type 0) : Type 0 where
  pub tables : Tables F32 F64
  pub deliveries : List (Delivery F32)
  pub result : Result (Unit {0})

-- `call?`
abbrev pub outcome_of : Option ModelSentryError → Result (Unit {0})
outcome_of none = ok tt
outcome_of (some e) = err e

abbrev pub attempt :
    {F32 F64 : Type 0}
    → Result (Unit {0})
    → Done F32 F64
    → (Done F32 F64 → Done F32 F64)
    → Done F32 F64
attempt (ok u) d next = next d
attempt (err e) d next = record d { result = err e }

abbrev pub has_output_embeddings : {F : Type 0} → ProbeRun F → Bool
has_output_embeddings run = any (λ samples. any (λ e. not (is_empty e)) samples) run.embeddings

abbrev pub note_fired : Option Time → Uuid → Assoc Uuid Time → Assoc Uuid Time
note_fired none rule_id m = m
note_fired (some at) rule_id m = insert uuid_keys m rule_id at

module _ {F : Type 0} where
  -- The map of last firings, one read for each rule.
  abbrev pub load_last_fired : AlertTables F → List (AlertRule F) → Assoc Uuid Time
  load_last_fired alerts rules =
      foldl (λ m (rule : AlertRule F). note_fired (last_fired_for_rule alerts rule.id) rule.id m) []
        rules

  -- One read for each rule; the first that fails ends the job.
  abbrev pub reads : (Uuid → Option ModelSentryError) → List (AlertRule F) → Result (Unit {0})
  reads fault [] = ok tt
  reads fault (rule ∷ rules) = outcome_of (fault rule.id) >>= λ u. reads fault rules

  -- The events before the first that cannot be stored are stored.
  abbrev pub insert_events :
      Faults → AlertTables F → List (AlertEvent F) → AlertTables F × Result (Unit {0})
  insert_events faults alerts [] = (alerts, ok tt)
  insert_events faults alerts (event ∷ events) = elim (faults.insert_event event.id) [
    | some e ↦ (alerts, err e)
    | none ↦ insert_events faults (insert_event alerts event) events
  ]

module _ {F32 F64 : Type 0} (fl : Floats F32 F64) where
  open fl use {double}

  abbrev pub load_spent :
      Option Duration → Time → List (Entry F64) → List (AlertRule F32) → Assoc Uuid F64
  load_spent none now table rules = []
  load_spent (some window) now table rules =
      foldl
        (λ m (rule : AlertRule F32).
          let spent = spent_since double table rule.id (now -ℤ window) in
          if double.lt (double.of_nat 0) spent then insert uuid_keys m rule.id spent else m)
        [] rules

  abbrev pub record_in :
      Faults
      → Duration
      → Time
      → List (Entry F64)
      → List (RuleSpend F64)
      → List (Entry F64) × Result (Unit {0})
  record_in faults window now table [] = (table, ok tt)
  record_in faults window now table (spend ∷ spends) = elim (faults.record_spend spend.rule_id) [
    | some e ↦ (table, err e)
    | none ↦
        record_in faults window now
          (record_spend double table spend.rule_id now spend.alpha (now -ℤ window)) spends
  ]

  abbrev pub record_spends :
      Faults
      → Option Duration
      → Time
      → List (Entry F64)
      → List (RuleSpend F64)
      → List (Entry F64) × Result (Unit {0})
  record_spends faults none now table spends = (table, ok tt)
  record_spends faults (some window) now table spends = record_in faults window now table spends

module _ {F32 F64 : Type 0} (fl : Floats F32 F64) (render : List (Sentence F32) → String)
    (net : Network) (engine : AlertEngine F64) (config : AssessmentConfig F32) (fresh : ℕ → Uuid)
    (probe_id : Uuid) (now : Time) where
  abbrev pub fired_for : Tables F32 F64 → DriftReport F32 → Firing F32 F64
  fired_for st report =
      let rules = get_rules_for_probe st.alerts probe_id in
      evaluate_and_fire fl net engine fresh report (load_last_fired st.alerts rules)
        (load_spent fl (sequential_window fl engine) now st.spends rules) now rules

  module _ (faults : Faults) where
    abbrev pub unchanged : Tables F32 F64 → Done F32 F64
    unchanged st = record { tables = st; deliveries = []; result = ok tt }

    abbrev pub store_run : ProbeRun F32 → Done F32 F64 → Done F32 F64
    store_run run done = attempt (outcome_of faults.insert_run) done (λ d. record d {
      tables = record d.tables { runs = d.tables.runs ++ run ∷ [] };
      result = ok tt;
    })

    -- The debits of the looks, then the run.
    abbrev pub after_events : ProbeRun F32 → List (RuleSpend F64) → Done F32 F64 → Done F32 F64
    after_events run spends d =
        let (table, result) =
          record_spends fl faults (sequential_window fl engine) now d.tables.spends spends in
        attempt result (record d { tables = record d.tables { spends = table } }) (store_run run)

    -- The alerts have been delivered when their events are stored.
    abbrev pub fire_alerts : ProbeRun F32 → DriftReport F32 → Done F32 F64 → Done F32 F64
    fire_alerts run report d =
        let firing = fired_for d.tables report in
        let (alerts, result) = insert_events faults d.tables.alerts firing.outcome.events in
        attempt result
          (record d {
            tables = record d.tables { alerts = alerts };
            deliveries = firing.deliveries;
          })
          (after_events run firing.outcome.spends)

    -- The branch of a report: the reads, the alerts and the run with its report.
    abbrev pub with_report : ProbeRun F32 → DriftReport F32 → Tables F32 F64 → Done F32 F64
    with_report run report st =
        let rules = get_rules_for_probe st.alerts probe_id in
        let windowed = if is_sequential fl engine then reads faults.spent rules else ok tt in
        attempt (outcome_of faults.get_rules) (unchanged st) (λ d₁.
          attempt (reads faults.last_fired rules) d₁ (λ d₂.
            attempt windowed d₂ (fire_alerts (record run { drift_report = some report }) report)))

    -- A refused computation is logged and the run is stored without a report.
    abbrev pub judged : ProbeRun F32 → Tables F32 F64 → Result (DriftReport F32) → Done F32 F64
    judged run st (err e) = store_run run (unchanged st)
    judged run st (ok report) = with_report run report st

    abbrev pub against :
        ProbeRun F32 → Tables F32 F64 → Option (BaselineSnapshot F32) → Done F32 F64
    against run st none = store_run run (unchanged st)
    against run st (some baseline) = judged run st (compute fl render config run baseline now)

    -- The job from the run on.
    unfoldable pub finish_run :
        ProbeRun F32 → Option (BaselineSnapshot F32) → Tables F32 F64 → Done F32 F64
    finish_run run baseline st =
        if has_output_embeddings run
        then attempt (outcome_of faults.get_baseline) (unchanged st)
            (λ d. against run d.tables baseline)
        else store_run run (unchanged st)

    abbrev pub finish_sampled :
        Result (ProbeRun F32) → Option (BaselineSnapshot F32) → Tables F32 F64 → Done F32 F64
    finish_sampled (err e) baseline st = record (unchanged st) { result = err e }
    finish_sampled (ok run) baseline st = finish_run run baseline st

    -- `embeds` tells whether the provider has embeddings.
    unfoldable pub run_probe_job :
        Calls F32
        → Bool
        → Uuid
        → Probe
        → ℕ
        → Option (BaselineSnapshot F32)
        → Tables F32 F64
        → Done F32 F64
    run_probe_job calls embeds run_id probe samples baseline st =
        finish_sampled
          (if embeds
            then run calls run_id probe samples now now
            else run_completions_only calls run_id probe now now)
          baseline st
