-- ===== src/Job/Indexed.antt =====
-- The index of last firings through a whole job (crates/daemon/src/scheduler.rs,
-- crates/store/src/alert_store.rs).
use modelsentry.Base.{
  Option-cases, if◌then◌else◌, ℕ, Bool, List, [], ◌∷◌, Option, none, some, String, Bool-cases, inl,
  inr,
}
use modelsentry.Runner.{Calls}
use modelsentry.Common.Models.{Probe, Uuid, AlertEvent, DriftReport, ProbeRun, BaselineSnapshot}
use modelsentry.Common.Time.{Time}
use modelsentry.Float.{Floats}
use modelsentry.Alert.{is_sequential, AlertEngine}
use modelsentry.Alert.Target.{Network}
use modelsentry.Common.Error.{Result, ok, err}
use modelsentry.Drift.Calculator.{compute}
use modelsentry.Drift.Assessment.{AssessmentConfig}
use modelsentry.Drift.Interpret.{Sentence}
use modelsentry.Store.Alerts.{AlertTables, get_rules_for_probe, insert_event}
use modelsentry.Store.Alerts.LastFired.{IsIndexed, insert_event-IsIndexed}
use modelsentry.Job.{
  Faults, Done, attempt, outcome_of, unchanged, store_run, after_events, fire_alerts, reads, judged,
  against, finish_run, finish_sampled, Tables, has_output_embeddings, run_probe_job, insert_events,
  fired_for,
}

module _ {F32 F64 : Type 0} (fl : Floats F32 F64) (render : List (Sentence F32) → String)
    (net : Network) (engine : AlertEngine F64) (config : AssessmentConfig F32) (fresh : ℕ → Uuid)
    (probe_id : Uuid) (now : Time) where
  inserted-IsIndexed :
      (faults : Faults) (events : List (AlertEvent F32)) (alerts : AlertTables F32)
      → IsIndexed alerts
      → IsIndexed (insert_events faults alerts events).0
  inserted-IsIndexed faults [] alerts h = h
  inserted-IsIndexed faults (e ∷ events) alerts h = elim (Option-cases (faults.insert_event e.id)) [
    | inl works ↦
        rw (works, insert_events)
          (inserted-IsIndexed faults events (insert_event alerts e)
            (insert_event-IsIndexed alerts e h))
    | inr (fault, fails) ↦ rw (fails, insert_events) h
  ]

  attempt-IsIndexed :
      (r : Result (Unit {0})) (d : Done F32 F64) (next : Done F32 F64 → Done F32 F64)
      → IsIndexed d.tables.alerts
      → ((d' : Done F32 F64) → IsIndexed d'.tables.alerts → IsIndexed (next d').tables.alerts)
      → IsIndexed (attempt r d next).tables.alerts
  attempt-IsIndexed (ok u) d next h k = k d h
  attempt-IsIndexed (err e) d next h k = h

  module _ (faults : Faults) where
    abbrev stores : ProbeRun F32 → Done F32 F64 → Done F32 F64
    stores run d = store_run fl render net engine config fresh probe_id now faults run d

    stores-IsIndexed :
        (run : ProbeRun F32) (d : Done F32 F64)
        → IsIndexed d.tables.alerts
        → IsIndexed (stores run d).tables.alerts
    stores-IsIndexed run d h = attempt-IsIndexed (outcome_of faults.insert_run) d _ h (λ d' h'. h')

    abbrev alerts_then : ProbeRun F32 → DriftReport F32 → Done F32 F64 → Done F32 F64
    alerts_then run report d =
        fire_alerts fl render net engine config fresh probe_id now faults run report d

    alerts_then-IsIndexed :
        (run : ProbeRun F32) (report : DriftReport F32) (d : Done F32 F64)
        → IsIndexed d.tables.alerts
        → IsIndexed (alerts_then run report d).tables.alerts
    alerts_then-IsIndexed run report d h =
        let firing = fired_for fl render net engine config fresh probe_id now d.tables report in
        attempt-IsIndexed (insert_events faults d.tables.alerts firing.outcome.events).1 _
          (after_events fl render net engine config fresh probe_id now faults run
            firing.outcome.spends)
          (inserted-IsIndexed faults firing.outcome.events d.tables.alerts h)
          (λ d' h'. attempt-IsIndexed _ _ (stores run) h' (λ d'' h''. stores-IsIndexed run d'' h''))

    judged-IsIndexed :
        (run : ProbeRun F32) (st : Tables F32 F64) (result : Result (DriftReport F32))
        → IsIndexed st.alerts
        → IsIndexed
            (judged fl render net engine config fresh probe_id now faults run st
              result).tables.alerts
    judged-IsIndexed run st (err e) h = stores-IsIndexed run _ h
    judged-IsIndexed run st (ok report) h =
        let rules = get_rules_for_probe st.alerts probe_id in
        let windowed = if is_sequential fl engine then reads faults.spent rules else ok tt in
        let fired = alerts_then (record run { drift_report = some report }) report in
        attempt-IsIndexed (outcome_of faults.get_rules)
          (unchanged fl render net engine config fresh probe_id now faults st)
          (λ d₁. attempt (reads faults.last_fired rules) d₁ (λ d₂. attempt windowed d₂ fired)) h
          (λ d₁ h₁.
            attempt-IsIndexed (reads faults.last_fired rules) d₁ (λ d₂. attempt windowed d₂ fired)
              h₁
              (λ d₂ h₂.
                attempt-IsIndexed windowed d₂ fired h₂
                  (λ d₃ h₃. alerts_then-IsIndexed _ report d₃ h₃)))

    against-IsIndexed :
        (run : ProbeRun F32) (st : Tables F32 F64) (baseline : Option (BaselineSnapshot F32))
        → IsIndexed st.alerts
        → IsIndexed
            (against fl render net engine config fresh probe_id now faults run st
              baseline).tables.alerts
    against-IsIndexed run st none h = stores-IsIndexed run _ h
    against-IsIndexed run st (some b) h =
        judged-IsIndexed run st (compute fl render config run b now) h

    finish_run-IsIndexed :
        (run : ProbeRun F32) (baseline : Option (BaselineSnapshot F32)) (st : Tables F32 F64)
        → IsIndexed st.alerts
        → IsIndexed
            (finish_run fl render net engine config fresh probe_id now faults run baseline
              st).tables.alerts
    unfolding finish_run
    finish_run-IsIndexed run baseline st h = elim (Bool-cases (has_output_embeddings run)) [
      | inl e ↦ rw e (
          attempt-IsIndexed (outcome_of faults.get_baseline)
            (unchanged fl render net engine config fresh probe_id now faults st)
            (λ d.
              against fl render net engine config fresh probe_id now faults run d.tables baseline)
            h (λ d' h'. against-IsIndexed run d'.tables baseline h'))
      | inr e ↦ rw e (stores-IsIndexed run _ h)
    ]

    sampled-IsIndexed :
        (sampled : Result (ProbeRun F32)) (baseline : Option (BaselineSnapshot F32))
        (st : Tables F32 F64)
        → IsIndexed st.alerts
        → IsIndexed
            (finish_sampled fl render net engine config fresh probe_id now faults sampled baseline
              st).tables.alerts
    sampled-IsIndexed (ok run) baseline st h = finish_run-IsIndexed run baseline st h
    sampled-IsIndexed (err e) baseline st h = h

    -- Whatever a job does, and whichever calls of the store fail, the index of last firings covers the
    -- stored events afterwards if it did before, so that their spacing carries on from job to job.
    pub run_probe_job-IsIndexed :
        (calls : Calls F32) (embeds : Bool) (run_id : Uuid) (probe : Probe) (samples : ℕ)
        (baseline : Option (BaselineSnapshot F32)) (st : Tables F32 F64)
        → IsIndexed st.alerts
        → IsIndexed
            (run_probe_job fl render net engine config fresh probe_id now faults calls embeds run_id
              probe samples baseline st).tables.alerts
    unfolding run_probe_job
    run_probe_job-IsIndexed calls embeds run_id probe samples baseline st h =
        sampled-IsIndexed _ baseline st h
