-- ===== src/Cli/Probe.antt =====
-- The commands on probes (crates/cli/src/commands/probe.rs). Reading the file of a new probe is
-- outside; its content is the body of the request.
use modelsentry.Base.{◌∷◌, [], none, some, List, String, Option, if◌then◌else◌, map}
use modelsentry.Provider.{Attempt, Reply}
use modelsentry.Cli.{ProbeAction, CliRequest, probe_request}
use modelsentry.Cli.Output.{
  Format, Output, Printed, line, table, say, and_then, with_json, with_status, drift_label,
}
use modelsentry.Common.Models.{
  ProviderSpec, ProbeSchedule, ProbeRun, Probe, openai_id, cron, DriftReport, anthropic_id,
  every_minutes, model_of, ollama_id, azure_id,
}
use modelsentry.Base.Text.{concat, is_blank}

-- What answers the requests, by the type of the answer.
pub record ProbeServer (F : Type 0) : Type 0 where
  pub probes : CliRequest → Attempt (Reply (List Probe))
  pub probe : CliRequest → Attempt (Reply Probe)
  pub nothing : CliRequest → Attempt (Reply (Unit {0}))
  pub run : CliRequest → Attempt (Reply (ProbeRun F))
  pub runs : CliRequest → Attempt (Reply (List (ProbeRun F)))

abbrev pub provider_label : ProviderSpec → String
provider_label (ProviderSpec.open_ai model) = openai_id
provider_label (ProviderSpec.anthropic model) = anthropic_id
provider_label (ProviderSpec.ollama model base_url) =
    concat (ollama_id ∷ " (" ∷ base_url ∷ ")" ∷ [])
provider_label (ProviderSpec.azure chat_deployment embedding_deployment) =
    concat (azure_id ∷ " (" ∷ chat_deployment ∷ ")" ∷ [])

module _ {F : Type 0} (f : Format F) where
  abbrev pub schedule_label : ProbeSchedule → String
  schedule_label (cron expression) = expression
  schedule_label (every_minutes minutes) = concat ("every " ∷ f.count minutes ∷ "m" ∷ [])

  abbrev pub probe_row : Probe → List String
  probe_row p =
      f.id p.id
      ∷ p.name
      ∷ provider_label p.provider
      ∷ model_of p.provider
      ∷ schedule_label p.schedule
      ∷ []

  abbrev pub interpretation_lines : String → List Printed
  interpretation_lines text = if is_blank text then [] else line "" ∷ line text ∷ []

  abbrev pub report_lines : Option (DriftReport F) → List Printed
  report_lines none = line "(no drift report — baseline may not exist yet)" ∷ []
  report_lines (some report) =
      line ""
      ∷ table (
          ("Drift Level" ∷ drift_label report.drift_level ∷ [])
          ∷ ("Combined p-value" ∷ f.decimals 6 report.combined_p_value ∷ [])
          ∷ ("Target FPR" ∷ f.decimals 6 report.target_fpr ∷ [])
          ∷ ("Drift Score" ∷ f.decimals 4 report.statistic ∷ [])
          ∷ ("Method" ∷ report.method ∷ [])
          ∷ [])
      ∷ interpretation_lines report.interpretation

  unfoldable pub print_run_result : ProbeRun F → List Printed
  print_run_result run =
      line (concat ("Run ID  : " ∷ f.id run.id ∷ []))
      ∷ line (concat ("Status  : " ∷ f.run_status run.status ∷ []))
      ∷ line (concat ("Started : " ∷ f.time run.started_at ∷ []))
      ∷ line (concat ("Finished: " ∷ f.time run.finished_at ∷ []))
      ∷ report_lines run.drift_report

  abbrev pub print_probes : List Probe → List Printed
  print_probes [] = line "No probes configured." ∷ []
  print_probes (p ∷ ps) = table (map probe_row (p ∷ ps)) ∷ []

  abbrev pub print_latest : String → List (ProbeRun F) → List Printed
  print_latest id [] = line (concat ("No runs found for probe " ∷ id ∷ [])) ∷ []
  print_latest id (run ∷ runs) = print_run_result run

  abbrev pub answered : ProbeServer F → ProbeAction → CliRequest → Output
  answered server ProbeAction.list_probes request =
      with_json "GET /api/probes failed" (server.probes request) (λ ps. say (print_probes ps))
  answered server ProbeAction.add request =
      with_json "POST /api/probes failed" (server.probe request) (λ p. say (
        line (concat ("Created probe: " ∷ f.id p.id ∷ []))
        ∷ line (concat ("  Name: " ∷ p.name ∷ []))
        ∷ []))
  answered server (ProbeAction.delete_probe id) request =
      with_status (concat ("DELETE /api/probes/" ∷ id ∷ " failed" ∷ [])) (server.nothing request)
        (say (line (concat ("Deleted probe " ∷ id ∷ [])) ∷ []))
  answered server (ProbeAction.run_now id) request =
      and_then (line (concat ("Triggering run for probe " ∷ id ∷ "…" ∷ [])) ∷ []) (
        with_json (concat ("POST /api/probes/" ∷ id ∷ "/run-now failed" ∷ [])) (server.run request)
          (λ run. say (print_run_result run)))
  answered server (ProbeAction.status id) request =
      with_json (concat ("GET /api/probes/" ∷ id ∷ "/runs failed" ∷ [])) (server.runs request)
        (λ runs. say (print_latest id runs))

  unfoldable pub handle : String → ProbeServer F → ProbeAction → Output
  handle api_url server action = answered server action (probe_request api_url action)
