-- ===== src/Job/Windowed.antt =====
-- The alpha budget over any sequence of jobs (`run_probe_job` of crates/daemon/src/scheduler.rs), in
-- exact arithmetic.
use modelsentry.Base.Int.{ℤ, pos, ◌≤ℤ◌}
use modelsentry.Base.{
  [], inl, inr, none, some, List, String, ℕ, ◌≡◌, Option, Bool, Bool-cases, ◌++◌, if◌then◌else◌,
  ◌∷◌,
}
use modelsentry.Common.Error.{ok, err, Result}
use modelsentry.Drift.Interpret.{Sentence}
use modelsentry.Alert.Target.{Network}
use modelsentry.Alert.{AlertEngine, SequentialControl, RuleSpend, is_sequential, sequential_window}
use modelsentry.Common.Models.{Uuid, ProbeRun, DriftReport, BaselineSnapshot, Probe}
use modelsentry.Store.Ledger.{Entry, spent_since}
use modelsentry.Common.Time.{Time}
use modelsentry.Drift.Assessment.{AssessmentConfig}
use modelsentry.Job.{
  Faults, Done, finish_run, run_probe_job, Calls, attempt, store_run, Tables, outcome_of,
  get_rules_for_probe, fire_alerts, with_report, judged, against, finish_sampled, reads, compute,
  has_output_embeddings, load_last_fired, fired_for, unchanged, record_spends, insert_events,
  after_events,
}
use modelsentry.Job.Budget.{IsWithinBudget, later-IsWithinBudget, AreRules, fire-IsWithinBudget}
use modelsentry.Float.Fixed.{fixed}

module _ (render : List (Sentence ℤ) → String) (net : Network) (engine : AlertEngine ℤ)
    (fresh : ℕ → Uuid) where
  -- The ledger after the job of a probe, whose tables hold the ledger `table` before it.
  module _ (seq : SequentialControl ℤ) (on : engine.sequential ≡ some seq)
      (config : AssessmentConfig ℤ) (probe_id : Uuid) (now : Time) (faults : Faults) where
    record Keeps (d : Done ℤ ℤ) : Type 0 where
      kept : IsWithinBudget seq d.tables.spends now

    attempt-Keeps :
        (r : Result (Unit {0})) (d : Done ℤ ℤ) (next : Done ℤ ℤ → Done ℤ ℤ)
        → Keeps d
        → Keeps (next d)
        → Keeps (attempt r d next)
    attempt-Keeps (ok u) d next h k = k
    attempt-Keeps (err e) d next h k = record { kept = h.kept }

    stores-Keeps :
        (run : ProbeRun ℤ) (d : Done ℤ ℤ)
        → Keeps d
        → Keeps (store_run fixed render net engine config fresh probe_id now faults run d)
    stores-Keeps run d h =
        attempt-Keeps (outcome_of faults.insert_run) d
          (λ d'. record d' {
            tables = record d'.tables { runs = d'.tables.runs ++ run ∷ [] };
            result = ok tt;
          })
          h (record { kept = h.kept })

    debits-Keeps :
        (run : ProbeRun ℤ) (spends : List (RuleSpend ℤ)) (d : Done ℤ ℤ)
        → IsWithinBudget seq
            (record_spends fixed faults
              (sequential_window fixed engine)
              now
              d.tables.spends
              spends).0
            now
        → Keeps (after_events fixed render net engine config fresh probe_id now faults run spends d)
    debits-Keeps run spends d h =
        let recorded =
          record_spends fixed faults (sequential_window fixed engine) now d.tables.spends spends in
        let d' : Done ℤ ℤ = record d { tables = record d.tables { spends = recorded.0 } } in
        attempt-Keeps recorded.1 d'
          (store_run fixed render net engine config fresh probe_id now faults run)
          (record { kept = h }) (stores-Keeps run d' (record { kept = h }))

    fires-Keeps :
        (run : ProbeRun ℤ) (report : DriftReport ℤ) (d : Done ℤ ℤ)
        → Keeps d
        → AreRules (get_rules_for_probe d.tables.alerts probe_id)
        → Keeps (fire_alerts fixed render net engine config fresh probe_id now faults run report d)
    fires-Keeps run report d h rules =
        let firing = fired_for fixed render net engine config fresh probe_id now d.tables report in
        let stored = insert_events faults d.tables.alerts firing.outcome.events in
        let d' : Done ℤ ℤ = record d {
          tables = record d.tables { alerts = stored.0 };
          deliveries = firing.deliveries;
        } in
        let spent =
          fire-IsWithinBudget net engine seq fresh now on faults report
            (load_last_fired d.tables.alerts (get_rules_for_probe d.tables.alerts probe_id))
            (get_rules_for_probe d.tables.alerts probe_id) d.tables.spends h.kept rules in
        attempt-Keeps stored.1 d'
          (after_events fixed render net engine config fresh probe_id now faults run
            firing.outcome.spends)
          (record { kept = h.kept }) (debits-Keeps run firing.outcome.spends d' spent)

    reported-Keeps :
        (run : ProbeRun ℤ) (report : DriftReport ℤ) (st : Tables ℤ ℤ)
        → IsWithinBudget seq st.spends now
        → AreRules (get_rules_for_probe st.alerts probe_id)
        → Keeps (with_report fixed render net engine config fresh probe_id now faults run report st)
    reported-Keeps run report st h rules =
        let own = get_rules_for_probe st.alerts probe_id in
        let stored : ProbeRun ℤ = record run { drift_report = some report } in
        let windowed = if is_sequential fixed engine then reads faults.spent own else ok tt in
        let fired =
          fire_alerts fixed render net engine config fresh probe_id now faults stored report in
        let d = unchanged fixed render net engine config fresh probe_id now faults st in
        let still : Keeps d = record { kept = h } in
        attempt-Keeps (outcome_of faults.get_rules) d
          (λ d₁. attempt (reads faults.last_fired own) d₁ (λ d₂. attempt windowed d₂ fired)) still
          (attempt-Keeps (reads faults.last_fired own) d (λ d₂. attempt windowed d₂ fired) still
            (attempt-Keeps windowed d fired still (fires-Keeps stored report d still rules)))

    judged-Keeps :
        (run : ProbeRun ℤ) (st : Tables ℤ ℤ) (result : Result (DriftReport ℤ))
        → IsWithinBudget seq st.spends now
        → AreRules (get_rules_for_probe st.alerts probe_id)
        → Keeps (judged fixed render net engine config fresh probe_id now faults run st result)
    judged-Keeps run st (ok report) h rules = reported-Keeps run report st h rules
    judged-Keeps run st (err e) h rules = stores-Keeps run _ (record { kept = h })

    against-Keeps :
        (run : ProbeRun ℤ) (st : Tables ℤ ℤ) (baseline : Option (BaselineSnapshot ℤ))
        → IsWithinBudget seq st.spends now
        → AreRules (get_rules_for_probe st.alerts probe_id)
        → Keeps (against fixed render net engine config fresh probe_id now faults run st baseline)
    against-Keeps run st none h rules = stores-Keeps run _ (record { kept = h })
    against-Keeps run st (some b) h rules =
        judged-Keeps run st (compute fixed render config run b now) h rules

    finished-Keeps :
        (run : ProbeRun ℤ) (baseline : Option (BaselineSnapshot ℤ)) (st : Tables ℤ ℤ)
        → IsWithinBudget seq st.spends now
        → AreRules (get_rules_for_probe st.alerts probe_id)
        → Keeps
            (finish_run fixed render net engine config fresh probe_id now faults run baseline st)
    unfolding finish_run
    finished-Keeps run baseline st h rules = elim (Bool-cases (has_output_embeddings run)) [
      | inl e ↦ rw e (
          attempt-Keeps (outcome_of faults.get_baseline)
            (unchanged fixed render net engine config fresh probe_id now faults st)
            (λ d.
              against fixed render net engine config fresh probe_id now faults run d.tables
                baseline)
            (record { kept = h }) (against-Keeps run st baseline h rules))
      | inr e ↦ rw e (stores-Keeps run _ (record { kept = h }))
    ]

    sampled-Keeps :
        (sampled : Result (ProbeRun ℤ)) (baseline : Option (BaselineSnapshot ℤ)) (st : Tables ℤ ℤ)
        → IsWithinBudget seq st.spends now
        → AreRules (get_rules_for_probe st.alerts probe_id)
        → Keeps (
            finish_sampled fixed render net engine config fresh probe_id now faults sampled baseline
              st)
    sampled-Keeps (ok run) baseline st h rules = finished-Keeps run baseline st h rules
    sampled-Keeps (err e) baseline st h rules = record { kept = h }

    -- Whatever a job does and whichever of its calls fail, the ledger keeps to the budget.
    run_probe_job-Keeps :
        (calls : Calls ℤ) (embeds : Bool) (run_id : Uuid) (probe : Probe) (samples : ℕ)
        (baseline : Option (BaselineSnapshot ℤ)) (st : Tables ℤ ℤ)
        → IsWithinBudget seq st.spends now
        → AreRules (get_rules_for_probe st.alerts probe_id)
        → Keeps (
            run_probe_job fixed render net engine config fresh probe_id now faults calls embeds
              run_id probe samples baseline st)
    unfolding run_probe_job
    run_probe_job-Keeps calls embeds run_id probe samples baseline st h rules =
        sampled-Keeps _ baseline st h rules

  -- The ledgers that jobs lead to, one after the other at instants that do not descend, each with the
  -- instant of the last. Between two jobs the other tables may change in any way.
  pub data Ledgers : List (Entry ℤ) → Time → Type 0 where
    fresh_ledger : (from : Time) → Ledgers [] from
    job :
        (config : AssessmentConfig ℤ) (probe_id : Uuid) (from now : Time) (faults : Faults)
        (calls : Calls ℤ) (embeds : Bool) (run_id : Uuid) (probe : Probe) (samples : ℕ)
        (baseline : Option (BaselineSnapshot ℤ)) (st : Tables ℤ ℤ)
        → Ledgers st.spends from
        → from ≤ℤ now
        → AreRules (get_rules_for_probe st.alerts probe_id)
        → Ledgers
            (run_probe_job fixed render net engine config fresh probe_id now faults calls embeds
              run_id probe samples baseline st).tables.spends
            now

  -- In exact arithmetic (with the rounding of f64 a sum may exceed it by the error of rounding), after
  -- any sequence of jobs, of any probes and whichever of their calls fail, what the ledger holds for
  -- any rule in the window that ends at the last job never exceeds the budget, and no level in it is
  -- negative. The jobs run one after the other at instants that do not descend, the budget is not
  -- negative, and the rules that a job reads have an identifier each and no negative target rate.
  pub Ledgers-IsWithinBudget :
      (seq : SequentialControl ℤ) (table : List (Entry ℤ)) (now : Time)
      → engine.sequential ≡ some seq
      → pos 0 ≤ℤ seq.alpha_budget
      → Ledgers table now
      → IsWithinBudget seq table now
  unfolding spent_since
  Ledgers-IsWithinBudget seq table now on b (fresh_ledger from) = (tt, λ k. b)
  Ledgers-IsWithinBudget seq table now on b
        (job config probe_id from now' faults calls embeds run_id probe samples baseline st before
          later rules) =
      (run_probe_job-Keeps seq on config probe_id now' faults calls embeds run_id probe samples
        baseline st
        (later-IsWithinBudget seq st.spends from now' later
          (Ledgers-IsWithinBudget seq st.spends from on b before))
        rules).kept
