-- ===== src/Tests/Service.antt =====
-- Tests of the runner, the scheduler and its jobs (crates/core/src/probe_runner.rs,
-- crates/daemon/src/scheduler.rs) and of the alert tables (crates/store/src/alert_store.rs).
use modelsentry.Base.{◌≡◌, refl, [], ◌∷◌, All, none, some, true, count, arith}
use modelsentry.Base.Int.{ℤ, ◌+ℤ◌}
use modelsentry.Base.Assoc.{get}
use modelsentry.Common.Error.{ModelSentryError}
use modelsentry.Common.Models.{uuid_keys, Probe, ProbeRun, partial_failure}
use modelsentry.Common.Time.{hours}
use modelsentry.Float.Fixed.{fixed}
use modelsentry.Runner.{run}
use modelsentry.Runner.Status.{IsExplained, run-IsExplained}
use modelsentry.Scheduler.{reconcile, shutdown}
use modelsentry.Scheduler.NextRun.{IsStrict}
use modelsentry.Scheduler.Reconciled.{running_version, reconcile_tracks}
use modelsentry.Scheduler.Tracked.{no_loops, reconciled, shutdown-aborts_all}
use modelsentry.Store.Alerts.{last_fired_for_rule}
use modelsentry.Store.Alerts.LastFired.{IsIndexed}
use modelsentry.Job.{Faults, finish_run, run_probe_job, fired_for, Tables}
use modelsentry.Job.Effects.{finish_run-IsDone, report_after, IsDone, report_for, Succeeds}
use modelsentry.Job.Spacing.{IsSpacedFrom, fired_for-IsSpaced}
use modelsentry.Job.Indexed.{run_probe_job-IsIndexed}
use modelsentry.Tests.Data.{
  far, config, baseline, probe_run, render, net, engine, fresh, report, probe, calls, cron_library,
  tables, control,
}
use modelsentry.Job.Budget.{IsWithinBudget}
use modelsentry.Job.Windowed.{Ledgers-IsWithinBudget, job, fresh_ledger}

-- Two samples of which the first fails, and a prompt with no answer.
abbrev half_run : ProbeRun ℤ
half_run = record {
  id = 5;
  probe_id = 1;
  started_at = hours 2;
  finished_at = hours 2;
  embeddings = (far ∷ []) ∷ [] ∷ [];
  completions = "pong" ∷ "" ∷ [];
  model_version = some "m-1";
  drift_report = none;
  status = partial_failure;
}

run-IsExplained_example : IsExplained calls 5 probe 2 (hours 2) (hours 2) half_run
unfolding run
run-IsExplained_example = run-IsExplained calls 5 probe 2 (hours 2) (hours 2) half_run refl

pub five_minutes_later : IsStrict cron_library
unfolding ◌+ℤ◌
five_minutes_later schedule from = ground arith

reconcile_tracks_example :
    All
      (λ (p : Probe).
        running_version (reconcile (λ id. true) (some (probe ∷ [])) no_loops) p.id
        ≡ some p.updated_at)
      (probe ∷ [])
    × (get uuid_keys (reconcile (λ id. true) (some (probe ∷ [])) no_loops).active 2 ≡ none)
reconcile_tracks_example = reconcile_tracks (λ id. true) (probe ∷ []) no_loops 2 (refl, tt) refl

shutdown-aborts_all_example :
    count 0 (shutdown (reconciled (λ id. true) (some (probe ∷ []) ∷ none ∷ some [] ∷ []))).aborted
    ≡ count 0 (reconciled (λ id. true) (some (probe ∷ []) ∷ none ∷ some [] ∷ [])).spawned
shutdown-aborts_all_example =
    shutdown-aborts_all (λ id. true) (some (probe ∷ []) ∷ none ∷ some [] ∷ []) 0

indexed : IsIndexed tables.alerts
unfolding last_fired_for_rule
indexed = (omega arith, tt)

-- The run cannot be stored after its alerts were delivered.
abbrev full_disk : Faults
full_disk = record {
  get_baseline = none;
  get_rules = none;
  last_fired = λ id. none;
  spent = λ id. none;
  insert_event = λ id. none;
  record_spend = λ id. none;
  insert_run = some (ModelSentryError.storage "disk full");
}

finish_run-IsDone_example :
    IsDone fixed render net engine config fresh 1
      (hours 3)
      full_disk
      (Succeeds fixed render net engine config fresh 1 (hours 3) full_disk probe_run tables (
        report_after fixed render net engine config fresh 1
          (hours 3)
          full_disk
          none
          (report_for fixed render net engine config fresh 1 (hours 3) probe_run (some baseline))))
      probe_run
      tables
      (report_after fixed render net engine config fresh 1
        (hours 3)
        full_disk
        none
        (report_for fixed render net engine config fresh 1 (hours 3) probe_run (some baseline)))
      (finish_run fixed render net engine config fresh 1
        (hours 3)
        full_disk
        probe_run
        (some baseline)
        tables)
finish_run-IsDone_example =
    finish_run-IsDone fixed render net engine config fresh 1 (hours 3) full_disk probe_run
      (some baseline) tables

fired_for-IsSpaced_example :
    All
      (IsSpacedFrom engine.cooldown tables.alerts.events)
      (fired_for fixed render net engine config fresh 1 (hours 3) tables report).outcome.events
fired_for-IsSpaced_example =
    fired_for-IsSpaced fixed render net engine config fresh 1 (hours 3) refl tables report indexed

run_probe_job-IsIndexed_example :
    IsIndexed
      (run_probe_job fixed render net engine config fresh 1
        (hours 3)
        full_disk
        calls
        true
        5
        probe
        2
        (some baseline)
        tables).tables.alerts
run_probe_job-IsIndexed_example =
    run_probe_job-IsIndexed fixed render net engine config fresh 1 (hours 3) full_disk calls true 5
      probe 2 (some baseline) tables indexed

abbrev no_failures : Faults
no_failures = record full_disk { insert_run = none }

-- Two jobs, the second with a full disk; the first spends what the target rate allows.
abbrev second_job : Tables ℤ ℤ
second_job = record tables {
  spends =
      (run_probe_job fixed render net engine config fresh 1 (hours 3) no_failures calls true 31
        probe 2 (some baseline) tables).tables.spends;
}

Ledgers-IsWithinBudget_example :
    IsWithinBudget control
      (run_probe_job fixed render net engine config fresh 1
        (hours 5)
        full_disk
        calls
        true
        32
        probe
        2
        (some baseline)
        second_job).tables.spends
      (hours 5)
Ledgers-IsWithinBudget_example =
    Ledgers-IsWithinBudget render net engine fresh control
      (run_probe_job fixed render net engine config fresh 1 (hours 5) full_disk calls true 32 probe
        2 (some baseline) second_job).tables.spends
      (hours 5) refl (omega arith)
      (job config 1 (hours 3) (hours 5) full_disk calls true 32 probe 2 (some baseline) second_job
        (job config 1 (hours 1) (hours 3) no_failures calls true 31 probe 2 (some baseline) tables
          (fresh_ledger (hours 1)) (omega arith) ((tt, tt), (omega arith, tt)))
        (omega arith) ((tt, tt), (omega arith, tt)))
