-- ===== src/Routes/Probes.antt =====
-- The endpoints of the probes and the runs (crates/daemon/src/routes/probes.rs, runs.rs).
pub mod Created
pub mod Triggered
use modelsentry.Common.Error.{◌>>=◌, ◌>>◌, fail_if, ok, err, Result, ModelSentryError, ok_or}
use modelsentry.Base.{
  any, is_empty, none, some, String, ℕ, Option, List, Bool, if◌then◌else◌, ltb, [], ◌∷◌, not,
}
use modelsentry.Store.Runs
use modelsentry.Store.Probes
use modelsentry.Scheduler.{Cron, validate_schedule}
use modelsentry.Common.Models.{
  ProviderSpec, Uuid, Probe, ProbePrompt, ProbeRun, ProbeSchedule, every_minutes, cron, model_of,
}
use modelsentry.Common.Time.{Time}
use modelsentry.Base.Assoc.{Assoc}
use modelsentry.Store.App.{AppTables, CascadeFaults, delete_probe_cascade, call}
use modelsentry.Store.Runs.{RunTables}
use modelsentry.Provider.{LlmProvider, config_error}
use modelsentry.Routes.{parse_probe_id, store_call}
use Prim.Native.String.{◌++◌ as append_str}
use modelsentry.Runner.{Calls, run, run_completions_only}
use modelsentry.Base.Text.{is_blank_trimmed, concat}

pub record CreateProbeRequest : Type 0 where
  pub name : String
  pub provider : ProviderSpec
  pub prompts : List ProbePrompt
  pub schedule : ProbeSchedule

-- Without the text of the cron library.
abbrev pub schedule_message : ProbeSchedule → String
schedule_message (every_minutes n) = "schedule.minutes must be at least 1"
schedule_message (cron expression) = concat ("invalid cron expression '" ∷ expression ∷ "'" ∷ [])

module _ {C : Type 0} (c : Cron C) where
  -- The checks of the body, in their order.
  abbrev pub check_request : CreateProbeRequest → Result (Unit {0})
  check_request body = do
    fail_if (is_blank_trimmed body.name) (config_error "name must not be empty")
    fail_if (is_blank_trimmed (model_of body.provider))
        (config_error "model / deployment must not be empty")
    fail_if (is_empty body.prompts) (config_error "prompts must not be empty")
    fail_if (any (λ (p : ProbePrompt). is_blank_trimmed p.text) body.prompts)
        (config_error "each prompt text must not be empty")
    fail_if (not (validate_schedule c body.schedule))
        (config_error (schedule_message body.schedule))
    ok tt

  abbrev pub new_probe : Uuid → Time → CreateProbeRequest → Probe
  new_probe id now body = record {
    id = id;
    name = body.name;
    provider = body.provider;
    prompts = body.prompts;
    schedule = body.schedule;
    created_at = now;
    updated_at = now;
  }

  -- The probe of the response with status 201, and the table of the probes.
  abbrev pub insert_checked :
      Option ModelSentryError
      → Probe
      → Assoc Uuid Probe
      → Result (Unit {0})
      → Assoc Uuid Probe × Result Probe
  insert_checked fault probe table (err e) = (table, err e)
  insert_checked none probe table (ok u) = (Probes.insert table probe, ok probe)
  insert_checked (some e) probe table (ok u) = (table, err e)

  unfoldable pub create_probe :
      Option ModelSentryError
      → Uuid
      → Time
      → CreateProbeRequest
      → Assoc Uuid Probe
      → Assoc Uuid Probe × Result Probe
  create_probe fault id now body table =
      insert_checked fault (new_probe id now body) table (check_request body)

unfoldable pub list_probes : Option ModelSentryError → Assoc Uuid Probe → Result (List Probe)
list_probes fault table = store_call fault (Probes.list_all table)

module _ (parse_uuid : String → Option Uuid) where
  unfoldable pub get_probe : Option ModelSentryError → String → Assoc Uuid Probe → Result Probe
  get_probe fault id table = do
    probe_id ← parse_probe_id parse_uuid id
    found ← store_call fault (Probes.get_probe table probe_id)
    ok_or found (ModelSentryError.probe_not_found id)

  abbrev pub parse_run_id : String → Result Uuid
  parse_run_id s = ok_or (parse_uuid s) (config_error (append_str "invalid run id: " s))

  module _ {F : Type 0} where
    -- Status 204 if the probe was there.
    abbrev pub deleted : String → AppTables F × Result Bool → AppTables F × Result (Unit {0})
    deleted id (st, err e) = (st, err e)
    deleted id (st, ok found) =
        (st, if found then ok tt else err (ModelSentryError.probe_not_found id))

    abbrev pub delete_parsed :
        CascadeFaults → String → AppTables F → Result Uuid → AppTables F × Result (Unit {0})
    delete_parsed faults id st (err e) = (st, err e)
    delete_parsed faults id st (ok probe_id) = deleted id (delete_probe_cascade faults st probe_id)

    unfoldable pub delete_probe :
        CascadeFaults → String → AppTables F → AppTables F × Result (Unit {0})
    delete_probe faults id st = delete_parsed faults id st (parse_probe_id parse_uuid id)

    unfoldable pub list_runs :
        Option ModelSentryError → String → ℕ → RunTables F → Result (List (ProbeRun F))
    list_runs fault id limit runs = do
      probe_id ← parse_probe_id parse_uuid id
      store_call fault (Runs.list_for_probe runs probe_id limit)

    unfoldable pub get_run : Option ModelSentryError → String → RunTables F → Result (ProbeRun F)
    get_run fault id runs = do
      run_id ← parse_run_id id
      found ← store_call fault (Runs.get runs run_id)
      ok_or found (config_error (append_str "run not found: " id))

-- The calls of a provider for one run; `permit` is the semaphore of the run.
abbrev pub calls_of : {F : Type 0} → (ℕ → Result (Unit {0})) → LlmProvider F → Calls F
calls_of permit p = record { permit = permit; complete = p.complete; embed = p.embed }

module _ {F : Type 0} (permit : ℕ → Result (Unit {0})) where
  -- The run of a probe right now: with its embeddings, if the provider has any.
  abbrev pub run_with : LlmProvider F → Uuid → Probe → ℕ → Time → Time → Result (ProbeRun F)
  run_with p run_id probe samples started_at finished_at =
      if ltb 0 p.embedding_dim
      then run (calls_of permit p) run_id probe samples started_at finished_at
      else run_completions_only (calls_of permit p) run_id probe started_at finished_at

-- The failures of the calls of the store.
pub record TriggerFaults : Type 0 where
  pub get_probe : Option ModelSentryError
  pub insert_run : Option ModelSentryError

module _ (parse_uuid : String → Option Uuid) {F : Type 0} (permit : ℕ → Result (Unit {0}))
    (build : ProviderSpec → Result (LlmProvider F)) where
  -- What `run-now` does before it stores the run.
  abbrev pub triggered :
      TriggerFaults → String → Uuid → ℕ → Time → Time → Assoc Uuid Probe → Result (ProbeRun F)
  triggered faults id run_id samples started_at finished_at probes = do
    probe_id ← parse_probe_id parse_uuid id
    found ← store_call faults.get_probe (Probes.get_probe probes probe_id)
    probe ← ok_or found (ModelSentryError.probe_not_found id)
    provider ← build probe.provider
    run_with permit provider run_id probe samples started_at finished_at

  abbrev pub store_triggered :
      Option ModelSentryError
      → RunTables F
      → Result (ProbeRun F)
      → RunTables F × Result (ProbeRun F)
  store_triggered fault runs (err e) = (runs, err e)
  store_triggered none runs (ok r) = (Runs.insert runs r, ok r)
  store_triggered (some e) runs (ok r) = (runs, err e)

  unfoldable pub trigger_probe_run :
      TriggerFaults
      → String
      → Uuid
      → ℕ
      → Time
      → Time
      → Assoc Uuid Probe
      → RunTables F
      → RunTables F × Result (ProbeRun F)
  trigger_probe_run faults id run_id samples started_at finished_at probes runs =
      store_triggered faults.insert_run runs
        (triggered faults id run_id samples started_at finished_at probes)
