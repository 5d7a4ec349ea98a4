-- ===== src/Cli/Baseline.antt =====
-- The commands on baselines (crates/cli/src/commands/baseline.rs).
use modelsentry.Base.{◌∷◌, [], String, List, length, map}
use modelsentry.Provider.{Attempt, Reply}
use modelsentry.Cli.{BaselineAction, CliRequest, baseline_request}
use modelsentry.Cli.Output.{Format, Output, Printed, line, table, say, and_then, with_json}
use modelsentry.Common.Models.{BaselineSnapshot, embedding_dim}
use modelsentry.Base.Text.{concat}

pub record BaselineServer (F : Type 0) : Type 0 where
  pub baseline : CliRequest → Attempt (Reply (BaselineSnapshot F))
  pub baselines : CliRequest → Attempt (Reply (List (BaselineSnapshot F)))

module _ {F : Type 0} (f : Format F) where
  abbrev pub to_row : BaselineSnapshot F → List String
  to_row b =
      f.id b.id
      ∷ f.rfc3339 b.captured_at
      ∷ f.count (length b.prompt_clouds)
      ∷ f.count b.n_runs
      ∷ f.id b.run_id
      ∷ []

  abbrev pub print_baselines : String → List (BaselineSnapshot F) → List Printed
  print_baselines id [] = line (concat ("No baselines for probe " ∷ id ∷ "." ∷ [])) ∷ []
  print_baselines id (b ∷ bs) = table (map to_row (b ∷ bs)) ∷ []

  abbrev pub print_baseline : BaselineSnapshot F → List Printed
  print_baseline b =
      line (concat ("Baseline ID  : " ∷ f.id b.id ∷ []))
      ∷ line (concat ("Probe ID     : " ∷ f.id b.probe_id ∷ []))
      ∷ line (concat ("Captured     : " ∷ f.time b.captured_at ∷ []))
      ∷ line (concat ("Run ID       : " ∷ f.id b.run_id ∷ []))
      ∷ line (concat ("Schema ver   : " ∷ f.count b.schema_version ∷ []))
      ∷ line (concat ("Embed model  : " ∷ b.embedding_model ∷ []))
      ∷ line (concat ("Prompts      : " ∷ f.count (length b.prompt_clouds) ∷ []))
      ∷ line (concat ("Runs folded  : " ∷ f.count b.n_runs ∷ []))
      ∷ line (concat ("Embedding dim: " ∷ f.count (embedding_dim b) ∷ []))
      ∷ []

  abbrev pub print_captured : BaselineSnapshot F → List Printed
  print_captured b =
      line (concat ("Captured baseline: " ∷ f.id b.id ∷ []))
      ∷ line (
          concat (
            "  "
            ∷ f.count (length b.prompt_clouds)
            ∷ " prompt cloud(s) aggregated from "
            ∷ f.count b.n_runs
            ∷ " run(s)"
            ∷ []))
      ∷ []

  abbrev pub answered : BaselineServer F → BaselineAction → CliRequest → Output
  answered server (BaselineAction.show id) request =
      with_json (concat ("GET /api/probes/" ∷ id ∷ "/baselines/latest failed" ∷ []))
        (server.baseline request) (λ b. say (print_baseline b))
  answered server (BaselineAction.capture id) request =
      and_then (line (concat ("Capturing baseline for probe " ∷ id ∷ "…" ∷ [])) ∷ []) (
        with_json (concat ("POST /api/probes/" ∷ id ∷ "/baselines failed" ∷ []))
          (server.baseline request) (λ b. say (print_captured b)))
  answered server (BaselineAction.list_baselines id) request =
      with_json (concat ("GET /api/probes/" ∷ id ∷ "/baselines failed" ∷ []))
        (server.baselines request) (λ bs. say (print_baselines id bs))

  unfoldable pub handle : String → BaselineServer F → BaselineAction → Output
  handle api_url server action = answered server action (baseline_request api_url action)
