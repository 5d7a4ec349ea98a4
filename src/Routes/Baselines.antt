-- ===== src/Routes/Baselines.antt =====
-- The endpoints of the baselines (crates/daemon/src/routes/baselines.rs). What a capture computes is
-- in Baselines; here are its calls of the store.
pub mod Captured
use modelsentry.Store.Runs
use modelsentry.Store.Runs.{RunTables}
use modelsentry.Store.Snapshots
use modelsentry.Baselines.{capture_baseline}
use modelsentry.Common.Error.{◌>>=◌, ◌>>◌, ok, err, ModelSentryError, Result, ok_or}
use modelsentry.Base.{[], none, some, Option, String, List, ℕ, Bool, ◌∷◌, if◌then◌else◌}
use modelsentry.Common.Models.{Uuid, BaselineSnapshot, ProbeRun}
use modelsentry.Base.Assoc.{Assoc}
use modelsentry.Common.Time.{Time}
use modelsentry.Routes.{parse_probe_id, store_call}

pub record CaptureFaults : Type 0 where
  pub list_runs : Option ModelSentryError
  pub embeddings : Uuid → Option ModelSentryError
  pub insert : Option ModelSentryError

module _ (parse_uuid : String → Option Uuid) where
  abbrev pub parse_baseline_id : String → Result Uuid
  parse_baseline_id s = ok_or (parse_uuid s) (ModelSentryError.baseline_not_found s)

  module _ {F : Type 0} where
    unfoldable pub list_baselines :
        Option ModelSentryError
        → String
        → Assoc Uuid (BaselineSnapshot F)
        → Result (List (BaselineSnapshot F))
    list_baselines fault id table = do
      probe_id ← parse_probe_id parse_uuid id
      store_call fault (Snapshots.list_for_probe table probe_id)

    unfoldable pub get_latest_baseline :
        Option ModelSentryError
        → String
        → Assoc Uuid (BaselineSnapshot F)
        → Result (BaselineSnapshot F)
    get_latest_baseline fault id table = do
      probe_id ← parse_probe_id parse_uuid id
      found ← store_call fault (Snapshots.get_latest_for_probe table probe_id)
      ok_or found (ModelSentryError.baseline_not_found id)

    -- Status 204 if the baseline was there.
    abbrev pub deleted_or :
        String
        → Assoc Uuid (BaselineSnapshot F)
        → Result (Bool × Assoc Uuid (BaselineSnapshot F))
        → Assoc Uuid (BaselineSnapshot F) × Result (Unit {0})
    deleted_or id before (err e) = (before, err e)
    deleted_or id before (ok (found, after)) =
        (after, if found then ok tt else err (ModelSentryError.baseline_not_found id))

    unfoldable pub delete_baseline :
        Option ModelSentryError
        → String
        → Assoc Uuid (BaselineSnapshot F)
        → Assoc Uuid (BaselineSnapshot F) × Result (Unit {0})
    delete_baseline fault id table = deleted_or id table (do
      baseline_id ← parse_baseline_id id
      store_call fault (Snapshots.delete table baseline_id))

    -- The embeddings of all listed runs are read; the first failing read ends the request.
    abbrev pub read_all : (Uuid → Option ModelSentryError) → List (ProbeRun F) → Result (Unit {0})
    read_all fault [] = ok tt
    read_all fault (run ∷ runs) = do store_call (fault run.id) tt; read_all fault runs

    abbrev pub captured :
        CaptureFaults
        → String
        → ℕ
        → String
        → Uuid
        → Time
        → RunTables F
        → Result (BaselineSnapshot F)
    captured faults id capture_runs embedding_model baseline_id now st = do
      probe_id ← parse_probe_id parse_uuid id
      runs ← store_call faults.list_runs (Runs.list_for_probe st probe_id capture_runs)
      read_all faults.embeddings runs
      capture_baseline baseline_id probe_id embedding_model now runs (Runs.embeddings st)

    abbrev pub insert_captured :
        Option ModelSentryError
        → Assoc Uuid (BaselineSnapshot F)
        → Result (BaselineSnapshot F)
        → Assoc Uuid (BaselineSnapshot F) × Result (BaselineSnapshot F)
    insert_captured fault table (err e) = (table, err e)
    insert_captured none table (ok baseline) = (Snapshots.insert table baseline, ok baseline)
    insert_captured (some e) table (ok baseline) = (table, err e)

    -- The handler `capture_baseline`.
    unfoldable pub capture_and_insert :
        CaptureFaults
        → String
        → ℕ
        → String
        → Uuid
        → Time
        → RunTables F
        → Assoc Uuid (BaselineSnapshot F)
        → Assoc Uuid (BaselineSnapshot F) × Result (BaselineSnapshot F)
    capture_and_insert faults id capture_runs embedding_model baseline_id now st table =
        insert_captured faults.insert table
          (captured faults id capture_runs embedding_model baseline_id now st)
