-- ===== src/Job/Clear.antt =====
-- The job of crates/daemon/src/scheduler.rs that has a report: when it succeeds, and what it has then
-- done.
use modelsentry.Base.{
  [], refl, true, false, none, some, Bool, ◌≡◌, List, ◌↔◌, if◌then◌else◌, String, ℕ, Option, foldl,
  All, ◌∙◌, ◌++◌, ◌∷◌,
}
use modelsentry.Common.Error.{ok, err, Result}
use modelsentry.Float.{Floats}
use modelsentry.Job.{
  Done, attempt, Sentence, Network, AlertEngine, AssessmentConfig, Uuid, Time, Tables, ProbeRun,
  Faults, DriftReport, Firing, get_rules_for_probe, with_report, fired_for, insert_event, AlertRule,
  reads, sequential_window, is_sequential, outcome_of, AlertEvent,
}
use modelsentry.Job.Success.{
  attempt_iff, outcome_of_iff, debited, reads_iff, insert_events_iff, insert_events-all,
  AllRecorded, record_spends_iff, record_spends-all,
}

attempt-next :
    {F32 F64 : Type 0} (r : Result (Unit {0})) (d : Done F32 F64)
    (next : Done F32 F64 → Done F32 F64)
    → r ≡ ok tt
    → attempt r d next ≡ next d
attempt-next (ok u) d next h = refl
attempt-next (err e) d next h = absurd (cc h)

guarded_iff :
    {P : Type 0} (b : Bool) (r : Result (Unit {0}))
    → ((r ≡ ok tt) ↔ P)
    → ((if b then r else ok tt) ≡ ok tt) ↔ (b ≡ true → P)
guarded_iff true r h = (λ e t. h.0 e, λ p. h.1 (p refl))
guarded_iff false r h = (λ e t. absurd (cc t), λ p. refl)

module _ {F32 F64 : Type 0} (fl : Floats F32 F64) (render : List (Sentence F32) → String)
    (net : Network) (engine : AlertEngine F64) (config : AssessmentConfig F32) (fresh : ℕ → Uuid)
    (probe_id : Uuid) (now : Time) where
  abbrev fired : Tables F32 F64 → DriftReport F32 → Firing F32 F64
  fired st report = fired_for fl render net engine config fresh probe_id now st report

  -- The store when nothing has failed: every event, every debit and the run are in it.
  abbrev pub all_stored : ProbeRun F32 → DriftReport F32 → Tables F32 F64 → Tables F32 F64
  all_stored stored report st =
      let outcome = (fired st report).outcome in
      record {
        alerts = foldl insert_event st.alerts outcome.events;
        spends = debited fl (sequential_window fl engine) now st.spends outcome.spends;
        runs = st.runs ++ stored ∷ [];
      }

  module _ (faults : Faults) where
    -- No call of the store that the job makes after the baseline fails.
    abbrev pub NoneFails : Tables F32 F64 → Option (DriftReport F32) → Type 0
    NoneFails st none = faults.insert_run ≡ none
    NoneFails st (some report) =
        let rules = get_rules_for_probe st.alerts probe_id in
        let outcome = (fired st report).outcome in
        (faults.get_rules ≡ none)
        × All (λ (rule : AlertRule F32). faults.last_fired rule.id ≡ none) rules
        × (is_sequential fl engine ≡ true
            → All (λ (rule : AlertRule F32). faults.spent rule.id ≡ none) rules)
        × All (λ (e : AlertEvent F32). faults.insert_event e.id ≡ none) outcome.events
        × AllRecorded faults (sequential_window fl engine) outcome.spends
        × (faults.insert_run ≡ none)

    abbrev reported : ProbeRun F32 → DriftReport F32 → Tables F32 F64 → Done F32 F64
    reported run report st =
        with_report fl render net engine config fresh probe_id now faults run report st

    abbrev stored_with : ProbeRun F32 → DriftReport F32 → ProbeRun F32
    stored_with run report = record run { drift_report = some report }

    pub with_report-NoneFails :
        (run : ProbeRun F32) (report : DriftReport F32) (st : Tables F32 F64)
        → (reported run report st).result ≡ ok tt
        → NoneFails st (some report)
    with_report-NoneFails run report st h =
        let rules = get_rules_for_probe st.alerts probe_id in
        let outcome = (fired st report).outcome in
        let (h₁, k₁) = (attempt_iff _ _ _).0 h in
        let (h₂, k₂) = (attempt_iff (reads faults.last_fired rules) _ _).0 k₁ in
        let (h₃, k₃) = (attempt_iff _ _ _).0 k₂ in
        let (h₄, k₄) = (attempt_iff _ _ _).0 k₃ in
        let (h₅, k₅) = (attempt_iff _ _ _).0 k₄ in
        let (h₆, k₆) = (attempt_iff (outcome_of faults.insert_run) _ _).0 k₅ in
        (
          (outcome_of_iff faults.get_rules).0 h₁,
          (reads_iff faults.last_fired rules).0 h₂,
          (guarded_iff (is_sequential fl engine) _ (reads_iff faults.spent rules)).0 h₃,
          (insert_events_iff faults st.alerts outcome.events).0 h₄,
          (record_spends_iff fl faults (sequential_window fl engine) now st.spends outcome.spends).0
              h₅,
          (outcome_of_iff faults.insert_run).0 h₆,
        )

    pub with_report-all_stored :
        (run : ProbeRun F32) (report : DriftReport F32) (st : Tables F32 F64)
        → NoneFails st (some report)
        → reported run report st ≡ record {
          tables = all_stored (stored_with run report) report st;
          deliveries = (fired st report).deliveries;
          result = ok tt;
        }
    with_report-all_stored run report st (h₁, h₂, h₃, h₄, h₅, h₆) =
        let rules = get_rules_for_probe st.alerts probe_id in
        let outcome = (fired st report).outcome in
        attempt-next _ _ _ ((outcome_of_iff faults.get_rules).1 h₁)
        ∙ attempt-next _ _ _ ((reads_iff faults.last_fired rules).1 h₂)
        ∙ attempt-next _ _ _
            ((guarded_iff (is_sequential fl engine) _ (reads_iff faults.spent rules)).1 h₃)
        ∙ rw
            (
              insert_events-all faults st.alerts outcome.events h₄,
              record_spends-all fl faults (sequential_window fl engine) now st.spends outcome.spends
                  h₅,
              h₆,
            )
            refl
