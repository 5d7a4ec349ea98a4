-- ===== src/Store/App.antt =====
-- All tables of the store, and the deletion of a probe with what belongs to it (crates/store/src/lib.rs).
-- Each call of the cascade is a transaction of its own; `CascadeFaults` tells which of them fail.
pub mod Cascade
use modelsentry.Store.Probes
use modelsentry.Store.Runs
use modelsentry.Store.Snapshots
use modelsentry.Base.{true, false, none, some, Option, Bool, if◌then◌else◌}
use modelsentry.Common.Error.{ok, err, ModelSentryError, Result}
use modelsentry.Base.Assoc.{Assoc}
use modelsentry.Common.Models.{Uuid, Probe, BaselineSnapshot}
use modelsentry.Store.Runs.{RunTables}
use modelsentry.Common.Time.{Time}

pub record AppTables (F : Type 0) : Type 0 where
  pub probes : Assoc Uuid Probe
  pub baselines : Assoc Uuid (BaselineSnapshot F)
  pub runs : RunTables F
  pub schedule : Assoc Uuid Time

pub record CascadeFaults : Type 0 where
  pub probe : Option ModelSentryError
  pub runs : Option ModelSentryError
  pub baselines : Option ModelSentryError
  pub schedule : Option ModelSentryError

module _ {F : Type 0} where
  -- One call: its effect, unless it fails.
  abbrev pub call :
      Option ModelSentryError
      → AppTables F
      → AppTables F
      → (AppTables F → AppTables F × Result Bool)
      → AppTables F × Result Bool
  call none before after next = next after
  call (some e) before after next = (before, err e)

  abbrev pub without_probe : Uuid → AppTables F → AppTables F
  without_probe id st = record st { probes = (Probes.delete st.probes id).1 }

  abbrev pub without_runs : Uuid → AppTables F → AppTables F
  without_runs id st = record st { runs = (Runs.delete_for_probe st.runs id).1 }

  abbrev pub without_baselines : Uuid → AppTables F → AppTables F
  without_baselines id st = record st { baselines = (Snapshots.delete_for_probe st.baselines id).1 }

  abbrev pub without_schedule : Uuid → AppTables F → AppTables F
  without_schedule id st = record st { schedule = (Probes.delete_next_run st.schedule id).1 }

  -- The calls that follow the deletion of the probe itself.
  abbrev pub delete_rest : CascadeFaults → Uuid → AppTables F → AppTables F × Result Bool
  delete_rest faults id st = call faults.runs st (without_runs id st) λ st₁.
      call faults.baselines st₁ (without_baselines id st₁)
        λ st₂. call faults.schedule st₂ (without_schedule id st₂) λ st₃. (st₃, ok true)

  unfoldable pub delete_probe_cascade :
      CascadeFaults → AppTables F → Uuid → AppTables F × Result Bool
  delete_probe_cascade faults st id =
      call faults.probe st (without_probe id st)
        λ st₁. if (Probes.delete st.probes id).0 then delete_rest faults id st₁ else (st₁, ok false)
