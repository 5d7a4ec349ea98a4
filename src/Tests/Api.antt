-- ===== src/Tests/Api.antt =====
-- Tests of the HTTP API (crates/daemon/src/server.rs, crates/daemon/src/routes) and of the tables
-- behind it (crates/store/src/baseline_store.rs and lib.rs).
use modelsentry.Store.Runs
use modelsentry.Base.{
  ◌∷◌, [], refl, true, none, some, String, Option, ℕ, ◌⊎◌, ◌≡◌, if◌then◌else◌, ◌==◌, ◌&&◌,
}
use modelsentry.Base.Int.{ℤ, pos}
use modelsentry.Store.Probes
use modelsentry.Store.Snapshots
use modelsentry.Store.Runs.{insert, list_for_probe, embeddings, RunTables}
use modelsentry.Routes.Probes.{
  create_probe, get_probe, trigger_probe_run, new_probe, CreateProbeRequest, TriggerFaults,
}
use modelsentry.Routes.Rules.{create_rule, CreateRuleRequest}
use modelsentry.Tests.Data.{probe, tables, baseline, probe_run, calls, cron_library, run_embeddings}
use modelsentry.Common.Error.{ok, err, ModelSentryError}
use modelsentry.Server.Auth.{IsAuthorized, auth_middleware_lem}
use modelsentry.Provider.{LlmProvider}
use modelsentry.Routes.Probes.Triggered.{IsTriggered, trigger_probe_run-IsTriggered}
use modelsentry.Routes.Rules.Created.{IsCreated, create_rule-IsCreated}
use modelsentry.Store.Snapshots.Latest.{IsLatestOf, get_latest_for_probe-IsLatestOf}
use modelsentry.Store.App.{AppTables, delete_probe_cascade}
use modelsentry.Store.App.Cascade.{
  IsSound, no_cascade_faults, data_of, no_data, delete_probe_cascade-refines, is_run_of,
}
use modelsentry.Server.{auth_middleware, HeaderMap}
use modelsentry.Routes.Probes.Created.{IsAcceptable, create_probe_outcome}
use modelsentry.Common.Time.{hours}
use modelsentry.Float.Fixed.{fixed_ops}
use text.Mathlib.Text.{◌==◌ as str_eq}
use modelsentry.Base.Table.{is_some}
use text.Mathlib.TextEquality.{eq_iff}
use modelsentry.Routes.Baselines.{CaptureFaults, capture_and_insert, get_latest_baseline}
use modelsentry.Common.Models.{BaselineSnapshot, is_current}
use modelsentry.Baselines.{capture_baseline, clouds_of}
use modelsentry.Routes.Baselines.Captured.{capture_and_insert_latest}

-- Statuses, in place of responses.
abbrev unauthorized : ℕ
unauthorized = 401

abbrev passed : ℕ
passed = 200

abbrev headers : HeaderMap
headers = ("x-api-key", some "old") ∷ ("authorization", some "Bearer key") ∷ []

abbrev no_fault : Option ModelSentryError
no_fault = none

-- The middleware with the texts' own equality.
auth_middleware_lem_example :
    (IsAuthorized ("key" ∷ []) headers
      × (auth_middleware (λ a b. str_eq a b) unauthorized ("key" ∷ []) headers (λ h. passed)
          ≡ passed))
    ⊎ ((¬ IsAuthorized ("key" ∷ []) headers)
        × (auth_middleware (λ a b. str_eq a b) unauthorized ("key" ∷ []) headers (λ h. passed)
            ≡ unauthorized))
auth_middleware_lem_example =
    auth_middleware_lem (λ a b. str_eq a b) eq_iff unauthorized ("key" ∷ []) headers (λ h. passed)

-- Short texts in place of the library's identifiers.
abbrev parse_uuid : String → Option ℕ
parse_uuid s = if str_eq s "p1" then some 1 else if str_eq s "r5" then some 5 else none

abbrev request : CreateProbeRequest
request = record {
  name = "greeting";
  provider = probe.provider;
  prompts = probe.prompts;
  schedule = probe.schedule;
}

create_probe_outcome_example :
    ((e : ModelSentryError) × ((¬ IsAcceptable cron_library request) ⊎ (no_fault ≡ some e))
      × ((create_probe cron_library no_fault 1 (hours 1) request []).1 ≡ err e)
      × ((create_probe cron_library no_fault 1 (hours 1) request []).0 ≡ []))
    ⊎ (IsAcceptable cron_library request
        × (no_fault ≡ none)
        × ((create_probe cron_library no_fault 1 (hours 1) request []).1
            ≡ ok (new_probe cron_library 1 (hours 1) request))
        × (get_probe parse_uuid none "p1"
              (create_probe cron_library no_fault 1 (hours 1) request []).0
            ≡ ok (new_probe cron_library 1 (hours 1) request))
        × (Probes.get_probe (create_probe cron_library no_fault 1 (hours 1) request []).0 2 ≡ (
            if 1 == 2
            then some (new_probe cron_library 1 (hours 1) request)
            else Probes.get_probe [] 2)))
create_probe_outcome_example =
    create_probe_outcome cron_library parse_uuid "p1" no_fault 1 2 (hours 1) request [] refl

abbrev provider : LlmProvider ℤ
provider = record {
  embed = calls.embed;
  complete = calls.complete;
  provider_name = "openai";
  embedding_dim = 2;
}

abbrev no_runs : RunTables ℤ
no_runs = record { runs = []; vectors = []; index = [] }

abbrev no_trigger_faults : TriggerFaults
no_trigger_faults = record { get_probe = none; insert_run = none }

trigger_probe_run-IsTriggered_example :
    IsTriggered parse_uuid
      (λ i. ok tt)
      (λ spec. ok provider)
      no_trigger_faults
      "p1"
      5
      2
      (hours 2)
      (hours 3)
      ((1, probe) ∷ [])
      "r5"
      no_runs
      (trigger_probe_run parse_uuid
        (λ i. ok tt)
        (λ spec. ok provider)
        no_trigger_faults
        "p1"
        5
        2
        (hours 2)
        (hours 3)
        ((1, probe) ∷ [])
        no_runs)
trigger_probe_run-IsTriggered_example =
    trigger_probe_run-IsTriggered parse_uuid (λ i. ok tt) (λ spec. ok provider) no_trigger_faults
      "p1" 5 2 (hours 2) (hours 3) ((1, probe) ∷ []) "r5" no_runs refl tt

abbrev rule_request : CreateRuleRequest ℤ
rule_request = record { target_fpr = pos 10000; channels = []; active = true }

create_rule-IsCreated_example :
    IsCreated parse_uuid fixed_ops none 1 8 rule_request 1 tables.alerts
      (create_rule parse_uuid fixed_ops none "p1" 8 rule_request tables.alerts)
create_rule-IsCreated_example =
    create_rule-IsCreated parse_uuid fixed_ops none "p1" 1 8 1 rule_request tables.alerts refl refl

get_latest_for_probe-IsLatestOf_example :
    IsLatestOf
      (Snapshots.list_for_probe
        ((11, baseline) ∷ (12, record baseline { captured_at = hours 2 }) ∷ [])
        1)
      (Snapshots.get_latest_for_probe
        ((11, baseline) ∷ (12, record baseline { captured_at = hours 2 }) ∷ [])
        1)
get_latest_for_probe-IsLatestOf_example =
    get_latest_for_probe-IsLatestOf
      ((11, baseline) ∷ (12, record baseline { captured_at = hours 2 }) ∷ []) 1

abbrev app_tables : AppTables ℤ
app_tables = record {
  probes = (1, probe) ∷ [];
  baselines = (11, baseline) ∷ [];
  runs = insert no_runs probe_run;
  schedule = (1, hours 3) ∷ (2, hours 4) ∷ [];
}

app_tables-IsSound : IsSound app_tables
unfolding insert
app_tables-IsSound = record { by_id = (tt, tt); by_time = (tt, tt); one_probe = ((λ h. h, tt), tt) }

delete_probe_cascade-refines_example :
    ((delete_probe_cascade no_cascade_faults app_tables 1).1
      ≡ ok (is_some (data_of app_tables 1).probe))
    × (data_of (delete_probe_cascade no_cascade_faults app_tables 1).0 2 ≡ (
        if 2 == 1 && is_some (data_of app_tables 1).probe then no_data else data_of app_tables 2))
    × (Runs.get (delete_probe_cascade no_cascade_faults app_tables 1).0.runs 21 ≡ (
        if is_run_of app_tables 1 21 && is_some (data_of app_tables 1).probe
        then none
        else Runs.get app_tables.runs 21))
    × (Runs.embeddings (delete_probe_cascade no_cascade_faults app_tables 1).0.runs 21 ≡ (
        if is_run_of app_tables 1 21 && is_some (data_of app_tables 1).probe
        then none
        else Runs.embeddings app_tables.runs 21))
delete_probe_cascade-refines_example =
    delete_probe_cascade-refines app_tables 1 2 21 app_tables-IsSound

abbrev no_capture_faults : CaptureFaults
no_capture_faults = record { list_runs = none; embeddings = λ id. none; insert = none }

abbrev captured_baseline : BaselineSnapshot ℤ
captured_baseline = record {
  id = 12;
  probe_id = 1;
  captured_at = hours 4;
  schema_version = 2;
  embedding_model = "embed-small";
  model_version = some "m-2";
  prompt_clouds = run_embeddings;
  n_runs = 1;
  run_id = 21;
}

capture_and_insert_latest_example :
    (is_current captured_baseline ≡ true)
    × (captured_baseline.probe_id ≡ 1)
    × (get_latest_baseline parse_uuid none "p1"
          (capture_and_insert parse_uuid no_capture_faults "p1" 5 "embed-small" 12
            (hours 4)
            app_tables.runs
            app_tables.baselines).0
        ≡ ok captured_baseline)
unfolding capture_and_insert capture_baseline clouds_of insert list_for_probe embeddings
    Snapshots.list_for_probe
capture_and_insert_latest_example =
    capture_and_insert_latest parse_uuid no_capture_faults "p1" 1 5 "embed-small" 12 (hours 4)
      app_tables.runs app_tables.baselines captured_baseline refl refl (refl, tt) refl
