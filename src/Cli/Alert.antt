-- ===== src/Cli/Alert.antt =====
-- The commands on alert rules and events (crates/cli/src/commands/alert.rs). `short` cuts an
-- identifier to its first eight bytes.
use modelsentry.Base.{◌∷◌, [], List, Bool, String, if◌then◌else◌, map}
use modelsentry.Provider.{Attempt, Reply}
use modelsentry.Cli.{AlertAction, CliRequest, alert_request}
use modelsentry.Cli.Output.{
  Format, Output, Printed, line, table, say, with_json, with_status, drift_label,
}
use modelsentry.Common.Models.{AlertChannel, AlertEvent, webhook, AlertRule, slack, email}
use modelsentry.Base.Text.{concat}

pub record AlertServer (F : Type 0) : Type 0 where
  pub events : CliRequest → Attempt (Reply (List (AlertEvent F)))
  pub rules : CliRequest → Attempt (Reply (List (AlertRule F)))
  pub nothing : CliRequest → Attempt (Reply (Unit {0}))

abbrev pub channel_label : AlertChannel → String
channel_label (webhook url) = "webhook"
channel_label (slack url) = "slack"
channel_label (email address) = "email"

-- The labels with a comma between them.
abbrev pub join : List String → String
join [] = ""
join (s ∷ []) = s
join (s ∷ t ∷ rest) = concat (s ∷ ", " ∷ join (t ∷ rest) ∷ [])

abbrev pub yes_no : Bool → String
yes_no b = if b then "yes" else "no"

module _ {F : Type 0} (f : Format F) (short : String → String) where
  abbrev pub event_row : AlertEvent F → List String
  event_row e =
      short (f.id e.id)
      ∷ drift_label e.drift_report.drift_level
      ∷ f.decimals 4 e.drift_report.combined_p_value
      ∷ f.decimals 2 e.drift_report.statistic
      ∷ f.rfc3339 e.fired_at
      ∷ yes_no e.acknowledged
      ∷ []

  abbrev pub rule_row : AlertRule F → List String
  rule_row r =
      f.id r.id
      ∷ f.decimals 4 r.target_fpr
      ∷ join (map channel_label r.channels)
      ∷ yes_no r.active
      ∷ []

  abbrev pub print_events : List (AlertEvent F) → List Printed
  print_events [] = line "No alert events." ∷ []
  print_events (e ∷ es) = table (map event_row (e ∷ es)) ∷ []

  abbrev pub print_rules : String → List (AlertRule F) → List Printed
  print_rules id [] = line (concat ("No alert rules for probe " ∷ id ∷ "." ∷ [])) ∷ []
  print_rules id (r ∷ rs) = table (map rule_row (r ∷ rs)) ∷ []

  abbrev pub answered : AlertServer F → AlertAction → CliRequest → Output
  answered server (AlertAction.events limit) request =
      with_json "GET /api/alerts/events failed" (server.events request)
        (λ es. say (print_events es))
  answered server (AlertAction.rules id) request =
      with_json (concat ("GET /api/probes/" ∷ id ∷ "/alerts failed" ∷ [])) (server.rules request)
        (λ rs. say (print_rules id rs))
  answered server (AlertAction.ack id) request =
      with_status (concat ("POST /api/alerts/events/" ∷ id ∷ "/ack failed" ∷ []))
        (server.nothing request) (say (line (concat ("Acknowledged alert event " ∷ id ∷ [])) ∷ []))
  answered server (AlertAction.delete_rule id) request =
      with_status (concat ("DELETE /api/alerts/" ∷ id ∷ " failed" ∷ [])) (server.nothing request)
        (say (line (concat ("Deleted alert rule " ∷ id ∷ [])) ∷ []))

  unfoldable pub handle : String → AlertServer F → AlertAction → Output
  handle api_url server action = answered server action (alert_request api_url f.count action)
