-- ===== src/Job/Effects.antt =====
-- What every job of crates/daemon/src/scheduler.rs leaves in the store.
use modelsentry.Base.{
  Bool-cases, inl, inr, ap, ℕ, ◌≡◌, refl, List, [], ◌∷◌, ◌++◌, Option, none, some, String,
  if◌then◌else◌, true, false, ◌↔◌,
}
use modelsentry.Store.Alerts.{get_rules_for_probe}
use modelsentry.Common.Error.{ModelSentryError, Result, ok, err}
use modelsentry.Common.Models.{Uuid, ProbeRun, BaselineSnapshot, DriftReport}
use modelsentry.Common.Time.{Time}
use modelsentry.Float.{Floats}
use modelsentry.Alert.{is_sequential, RuleSpend, AlertEngine}
use modelsentry.Alert.Target.{Network}
use modelsentry.Drift.Assessment.{AssessmentConfig}
use modelsentry.Drift.Calculator.{compute}
use modelsentry.Drift.Interpret.{Sentence}
use modelsentry.Job.{
  finish_run, with_report, has_output_embeddings, reads, Faults, attempt, outcome_of, unchanged,
  fired_for, after_events, fire_alerts, store_run, judged, against, Tables, Done,
}
use modelsentry.Job.Clear.{NoneFails, all_stored, with_report-NoneFails, with_report-all_stored}
use modelsentry.Job.Success.{outcome_of_iff, attempt_iff}

module _ {F32 F64 : Type 0} (fl : Floats F32 F64) (render : List (Sentence F32) → String)
    (net : Network) (engine : AlertEngine F64) (config : AssessmentConfig F32) (fresh : ℕ → Uuid)
    (probe_id : Uuid) (now : Time) where
  abbrev ok_of : Result (DriftReport F32) → Option (DriftReport F32)
  ok_of (ok report) = some report
  ok_of (err e) = none

  abbrev report_against : ProbeRun F32 → Option (BaselineSnapshot F32) → Option (DriftReport F32)
  report_against run none = none
  report_against run (some baseline) = ok_of (compute fl render config run baseline now)

  -- The report of a run: it needs an output embedding, a baseline, and a computation that succeeds.
  abbrev pub report_for : ProbeRun F32 → Option (BaselineSnapshot F32) → Option (DriftReport F32)
  report_for run baseline = if has_output_embeddings run then report_against run baseline else none

  -- The run as it is stored.
  abbrev pub with_result : ProbeRun F32 → Option (DriftReport F32) → ProbeRun F32
  with_result run none = run
  with_result run (some report) = record run { drift_report = some report }

  -- The runs of the store: one more after a success, none more after a failure.
  abbrev pub IsSettled : ProbeRun F32 → Tables F32 F64 → Done F32 F64 → Result (Unit {0}) → Type 0
  IsSettled stored st done (ok u) = done.tables.runs ≡ st.runs ++ stored ∷ []
  IsSettled stored st done (err e) = done.tables.runs ≡ st.runs

  -- Without a report nothing else changes and nothing is delivered.
  abbrev pub IsQuiet : Tables F32 F64 → Done F32 F64 → Option (DriftReport F32) → Type 0
  IsQuiet st done none =
      (done.tables.alerts ≡ st.alerts) × (done.tables.spends ≡ st.spends) × (done.deliveries ≡ [])
  IsQuiet st done (some report) = Unit

  attempt-IsSettled :
      (stored : ProbeRun F32) (st : Tables F32 F64) (r : Result (Unit {0})) (d : Done F32 F64)
      (next : Done F32 F64 → Done F32 F64)
      → d.tables.runs ≡ st.runs
      → ((d' : Done F32 F64)
          → d'.tables.runs ≡ st.runs
          → IsSettled stored st (next d') (next d').result)
      → IsSettled stored st (attempt r d next) (attempt r d next).result
  attempt-IsSettled stored st (ok u) d next h k = k d h
  attempt-IsSettled stored st (err e) d next h k = h

  module _ (faults : Faults) where
    abbrev stores : ProbeRun F32 → Done F32 F64 → Done F32 F64
    stores run d = store_run fl render net engine config fresh probe_id now faults run d

    stores-IsSettled :
        (stored : ProbeRun F32) (st : Tables F32 F64) (d : Done F32 F64)
        → d.tables.runs ≡ st.runs
        → IsSettled stored st (stores stored d) (stores stored d).result
    stores-IsSettled stored st d h =
        attempt-IsSettled stored st (outcome_of faults.insert_run) d _ h
          (λ d' h'. ap (λ runs. runs ++ stored ∷ []) h')

    abbrev spends_then : ProbeRun F32 → List (RuleSpend F64) → Done F32 F64 → Done F32 F64
    spends_then run spends d =
        after_events fl render net engine config fresh probe_id now faults run spends d

    spends_then-IsSettled :
        (stored : ProbeRun F32) (st : Tables F32 F64) (spends : List (RuleSpend F64))
        (d : Done F32 F64)
        → d.tables.runs ≡ st.runs
        → IsSettled stored st (spends_then stored spends d) (spends_then stored spends d).result
    spends_then-IsSettled stored st spends d h =
        attempt-IsSettled stored st _ _ (stores stored) h
          (λ d' h'. stores-IsSettled stored st d' h')

    abbrev alerts_then : ProbeRun F32 → DriftReport F32 → Done F32 F64 → Done F32 F64
    alerts_then run report d =
        fire_alerts fl render net engine config fresh probe_id now faults run report d

    alerts_then-IsSettled :
        (stored : ProbeRun F32) (st : Tables F32 F64) (report : DriftReport F32) (d : Done F32 F64)
        → d.tables.runs ≡ st.runs
        → IsSettled stored st (alerts_then stored report d) (alerts_then stored report d).result
    alerts_then-IsSettled stored st report d h =
        attempt-IsSettled stored st _ _
          (spends_then stored
            (fired_for fl render net engine config fresh probe_id now d.tables
              report).outcome.spends)
          h (λ d' h'. spends_then-IsSettled stored st _ d' h')

    abbrev reported : ProbeRun F32 → DriftReport F32 → Tables F32 F64 → Done F32 F64
    reported run report st =
        with_report fl render net engine config fresh probe_id now faults run report st

    reported-IsSettled :
        (run : ProbeRun F32) (report : DriftReport F32) (st : Tables F32 F64)
        → IsSettled
            (with_result run (some report))
            st
            (reported run report st)
            (reported run report st).result
    reported-IsSettled run report st =
        let stored = with_result run (some report) in
        let rules = get_rules_for_probe st.alerts probe_id in
        let windowed = if is_sequential fl engine then reads faults.spent rules else ok tt in
        let fired = alerts_then stored report in
        attempt-IsSettled stored st (outcome_of faults.get_rules)
          (unchanged fl render net engine config fresh probe_id now faults st)
          (λ d₁. attempt (reads faults.last_fired rules) d₁ (λ d₂. attempt windowed d₂ fired)) refl
          (λ d₁ h₁.
            attempt-IsSettled stored st (reads faults.last_fired rules) d₁
              (λ d₂. attempt windowed d₂ fired) h₁
              (λ d₂ h₂.
                attempt-IsSettled stored st windowed d₂ fired h₂
                  (λ d₃ h₃. alerts_then-IsSettled stored st report d₃ h₃)))

    -- When a job with the report `found` succeeds, once its baseline could be read.
    abbrev NoneFailing : Tables F32 F64 → Option (DriftReport F32) → Type 0
    NoneFailing st found = NoneFails fl render net engine config fresh probe_id now faults st found

    -- What a report leads to: all its events and debits and the run are stored, and its alerts have
    -- been delivered.
    abbrev pub IsKept :
        ProbeRun F32 → Tables F32 F64 → Option (DriftReport F32) → Done F32 F64 → Type 0
    IsKept run st none done = Unit
    IsKept run st (some report) done =
        (done.tables
          ≡ all_stored fl render net engine config fresh probe_id now
              (with_result run (some report)) report st)
        × (done.deliveries
            ≡ (fired_for fl render net engine config fresh probe_id now st report).deliveries)

    -- What is known of a job that ends with the report `found`, or none, and that succeeds exactly
    -- under `Success`.
    abbrev pub IsDone :
        Type 0 → ProbeRun F32 → Tables F32 F64 → Option (DriftReport F32) → Done F32 F64 → Type 0
    IsDone Success run st found done =
        IsSettled (with_result run found) st done done.result
        × IsQuiet st done found
        × ((done.result ≡ ok tt) ↔ Success)
        × (done.result ≡ ok tt → IsKept run st found done)

    quiet :
        (fault : Option ModelSentryError) (run : ProbeRun F32) (st : Tables F32 F64)
        → IsQuiet st
            (attempt
              (outcome_of fault)
              (unchanged fl render net engine config fresh probe_id now faults st)
              (λ d. record d {
                tables = record d.tables { runs = d.tables.runs ++ run ∷ [] };
                result = ok tt;
              }))
            none
    quiet none run st = (refl, refl, refl)
    quiet (some e) run st = (refl, refl, refl)

    unreported-IsDone :
        (run : ProbeRun F32) (st : Tables F32 F64)
        → IsDone
            (faults.insert_run ≡ none)
            run
            st
            none
            (stores run (unchanged fl render net engine config fresh probe_id now faults st))
    unreported-IsDone run st =
        let reads = outcome_of_iff faults.insert_run in
        (
          stores-IsSettled run st _ refl,
          quiet faults.insert_run run st,
          (
            λ h. reads.0 ((attempt_iff (outcome_of faults.insert_run) _ _).0 h).0,
            λ h. (attempt_iff _ _ _).1 (reads.1 h, refl),
          ),
          λ h. tt,
        )

    reported-IsDone :
        (run : ProbeRun F32) (report : DriftReport F32) (st : Tables F32 F64)
        → IsDone (NoneFailing st (some report)) run st (some report) (reported run report st)
    reported-IsDone run report st =
        let fails = with_report-NoneFails fl render net engine config fresh probe_id now faults in
        let stored = with_report-all_stored fl render net engine config fresh probe_id now faults in
        (
          reported-IsSettled run report st,
          tt,
          (fails run report st, λ h. ap (λ d. d.result) (stored run report st h)),
          λ h.
              let all = stored run report st (fails run report st h) in
              (ap (λ d. d.tables) all, ap (λ d. d.deliveries) all),
        )

    judged-IsDone :
        (run : ProbeRun F32) (st : Tables F32 F64) (result : Result (DriftReport F32))
        → IsDone
            (NoneFailing st (ok_of result))
            run
            st
            (ok_of result)
            (judged fl render net engine config fresh probe_id now faults run st result)
    judged-IsDone run st (ok report) = reported-IsDone run report st
    judged-IsDone run st (err e) = unreported-IsDone run st

    against-IsDone :
        (run : ProbeRun F32) (st : Tables F32 F64) (baseline : Option (BaselineSnapshot F32))
        → IsDone
            (NoneFailing st (report_against run baseline))
            run
            st
            (report_against run baseline)
            (against fl render net engine config fresh probe_id now faults run st baseline)
    against-IsDone run st none = unreported-IsDone run st
    against-IsDone run st (some b) = judged-IsDone run st (compute fl render config run b now)

    -- A baseline that cannot be read leaves no report.
    abbrev pub report_after :
        Option ModelSentryError → Option (DriftReport F32) → Option (DriftReport F32)
    report_after none found = found
    report_after (some e) found = none

    no_report : (fault : Option ModelSentryError) → report_after fault none ≡ none
    no_report none = refl
    no_report (some e) = refl

    -- The baseline can be read if it is, and no later call fails.
    abbrev pub Succeeds : ProbeRun F32 → Tables F32 F64 → Option (DriftReport F32) → Type 0
    Succeeds run st found =
        (has_output_embeddings run ≡ true → faults.get_baseline ≡ none) × NoneFailing st found

    with_baseline :
        (run : ProbeRun F32) (st : Tables F32 F64) (baseline : Option (BaselineSnapshot F32))
        (fault : Option ModelSentryError)
        → IsDone
            ((true ≡ true → fault ≡ none)
              × NoneFailing st (report_after fault (report_against run baseline)))
            run
            st
            (report_after fault (report_against run baseline))
            (attempt
              (outcome_of fault)
              (unchanged fl render net engine config fresh probe_id now faults st)
              (λ d.
                against fl render net engine config fresh probe_id now faults run d.tables
                  baseline))
    with_baseline run st baseline none =
        let (settled, still, success, all) = against-IsDone run st baseline in
        (settled, still, (λ h. (λ t. refl, success.0 h), λ h. success.1 h.1), all)
    with_baseline run st baseline (some e) =
        (refl, (refl, refl, refl), (λ h. absurd (cc h), λ h. absurd (cc (h.0 refl))), λ h. tt)

    without_embeddings :
        (run : ProbeRun F32) (st : Tables F32 F64)
        → IsDone
            ((false ≡ true → faults.get_baseline ≡ none) × (faults.insert_run ≡ none))
            run
            st
            none
            (stores run (unchanged fl render net engine config fresh probe_id now faults st))
    without_embeddings run st =
        let (settled, still, success, all) = unreported-IsDone run st in
        (settled, still, (λ h. (λ t. absurd (cc t), success.0 h), λ h. success.1 h.1), all)

    -- The job of a run that the runner returned succeeds exactly if no call of the store that it makes
    -- fails: the baseline of a run with an output embedding; then, with a report, the rules, the reads
    -- for each of them and the writes of each event and each debit; and the run. After a success the
    -- run is stored once, with its report if it has one, and with a report every event and every debit
    -- of the firing is stored and its deliveries are made; after any failure the run is not stored. A
    -- job without a report changes nothing else and delivers nothing.
    pub finish_run-IsDone :
        (run : ProbeRun F32) (baseline : Option (BaselineSnapshot F32)) (st : Tables F32 F64)
        → IsDone
            (Succeeds run st (report_after faults.get_baseline (report_for run baseline)))
            run
            st
            (report_after faults.get_baseline (report_for run baseline))
            (finish_run fl render net engine config fresh probe_id now faults run baseline st)
    unfolding finish_run
    finish_run-IsDone run baseline st = elim (Bool-cases (has_output_embeddings run)) [
      | inl e ↦ rw e (with_baseline run st baseline faults.get_baseline)
      | inr e ↦ rw (e, no_report faults.get_baseline) (without_embeddings run st)
    ]
