-- ===== src/Cli.antt =====
-- The command line (crates/cli/src): the requests its commands send to the daemon, and what they say
-- of the answers. The client that sends a request, and what its library and the framework of the daemon
-- read in the text of a URL, are outside.
pub mod Routed
pub mod Output
pub mod Probe
pub mod Baseline
pub mod Alert
use modelsentry.Base.{◌∷◌, [], String, ℕ, List}
use modelsentry.Base.Text.{concat, trim_end_matches}
use modelsentry.Routes.Router.{Method, get, post, delete}
use modelsentry.Server.{HeaderMap}

pub data ProbeAction : Type 0 where
  list_probes : ProbeAction
  -- The decoded file is the body of the request.
  add : ProbeAction
  delete_probe run_now status : String → ProbeAction

pub data BaselineAction : Type 0 where
  show capture list_baselines : String → BaselineAction

pub data AlertAction : Type 0 where
  events : ℕ → AlertAction
  rules ack delete_rule : String → AlertAction

pub data Commands : Type 0 where
  probe : ProbeAction → Commands
  baseline : BaselineAction → Commands
  alert : AlertAction → Commands

-- The text of the URL and the headers of a request; the client adds none that says who sends it.
pub record CliRequest : Type 0 where
  pub method : Method
  pub url : String
  pub headers : HeaderMap

abbrev pub bare_request : Method → List String → CliRequest
bare_request m pieces = record { method = m; url = concat pieces; headers = [] }

-- The arguments stand in the URL as they are. `api_url` is the address without a slash at its end.
module _ (api_url : String) where
  abbrev pub probe_request : ProbeAction → CliRequest
  probe_request list_probes = bare_request get (api_url ∷ "/api/probes" ∷ [])
  probe_request add = bare_request post (api_url ∷ "/api/probes" ∷ [])
  probe_request (delete_probe id) = bare_request delete (api_url ∷ "/api/probes/" ∷ id ∷ [])
  probe_request (run_now id) = bare_request post (api_url ∷ "/api/probes/" ∷ id ∷ "/run-now" ∷ [])
  probe_request (status id) =
      bare_request get (api_url ∷ "/api/probes/" ∷ id ∷ "/runs?limit=1" ∷ [])

  abbrev pub baseline_request : BaselineAction → CliRequest
  baseline_request (show id) =
      bare_request get (api_url ∷ "/api/probes/" ∷ id ∷ "/baselines/latest" ∷ [])
  baseline_request (capture id) =
      bare_request post (api_url ∷ "/api/probes/" ∷ id ∷ "/baselines" ∷ [])
  baseline_request (list_baselines id) =
      bare_request get (api_url ∷ "/api/probes/" ∷ id ∷ "/baselines" ∷ [])

  -- `count` writes a number.
  abbrev pub alert_request : (ℕ → String) → AlertAction → CliRequest
  alert_request count (events limit) =
      bare_request get (api_url ∷ "/api/alerts/events?limit=" ∷ count limit ∷ [])
  alert_request count (rules id) = bare_request get (api_url ∷ "/api/probes/" ∷ id ∷ "/alerts" ∷ [])
  alert_request count (ack id) =
      bare_request post (api_url ∷ "/api/alerts/events/" ∷ id ∷ "/ack" ∷ [])
  alert_request count (delete_rule id) = bare_request delete (api_url ∷ "/api/alerts/" ∷ id ∷ [])

  abbrev pub request_at : (ℕ → String) → Commands → CliRequest
  request_at count (probe a) = probe_request a
  request_at count (baseline a) = baseline_request a
  request_at count (alert a) = alert_request count a

-- Slashes at the end of the given address are cut off.
unfoldable pub request : (ℕ → String) → String → Commands → CliRequest
request count api_url a = request_at (trim_end_matches b'/' api_url) count a
