-- ===== src/Cli/Routed.antt =====
-- Which commands reach a handler of the daemon (crates/cli/src, crates/daemon/src/routes).
use modelsentry.Base.{
  ◌∷◌, [], false, ◌≢◌, String, none, some, List, Bool, Option, if◌then◌else◌, true, ◌||◌, not,
}
use modelsentry.Routes.Router.{
  Handler, Routed, handled, method_not_allowed, not_found, route_request,
}
use modelsentry.Cli.{Commands, ProbeAction, BaselineAction, AlertAction, CliRequest}
use modelsentry.Server.{api}
use modelsentry.Config.{AuthConfig}

-- The argument of the command is a text, if it has one.
abbrev pub HasArgument : Commands → Type 0
HasArgument (Commands.probe (ProbeAction.delete_probe id)) = id ≢ ""
HasArgument (Commands.probe (ProbeAction.run_now id)) = id ≢ ""
HasArgument (Commands.probe (ProbeAction.status id)) = id ≢ ""
HasArgument (Commands.probe a) = Unit
HasArgument (Commands.baseline (BaselineAction.show id)) = id ≢ ""
HasArgument (Commands.baseline (BaselineAction.capture id)) = id ≢ ""
HasArgument (Commands.baseline (BaselineAction.list_baselines id)) = id ≢ ""
HasArgument (Commands.alert (AlertAction.events limit)) = Unit
HasArgument (Commands.alert (AlertAction.rules id)) = id ≢ ""
HasArgument (Commands.alert (AlertAction.ack id)) = id ≢ ""
HasArgument (Commands.alert (AlertAction.delete_rule id)) = id ≢ ""

-- The segments of the path that each command means.
abbrev pub segments : Commands → List String
segments (Commands.probe ProbeAction.list_probes) = "api" ∷ "probes" ∷ []
segments (Commands.probe ProbeAction.add) = "api" ∷ "probes" ∷ []
segments (Commands.probe (ProbeAction.delete_probe id)) = "api" ∷ "probes" ∷ id ∷ []
segments (Commands.probe (ProbeAction.run_now id)) = "api" ∷ "probes" ∷ id ∷ "run-now" ∷ []
segments (Commands.probe (ProbeAction.status id)) = "api" ∷ "probes" ∷ id ∷ "runs" ∷ []
segments (Commands.baseline (BaselineAction.show id)) =
    "api" ∷ "probes" ∷ id ∷ "baselines" ∷ "latest" ∷ []
segments (Commands.baseline (BaselineAction.capture id)) = "api" ∷ "probes" ∷ id ∷ "baselines" ∷ []
segments (Commands.baseline (BaselineAction.list_baselines id)) =
    "api" ∷ "probes" ∷ id ∷ "baselines" ∷ []
segments (Commands.alert (AlertAction.events limit)) = "api" ∷ "alerts" ∷ "events" ∷ []
segments (Commands.alert (AlertAction.rules id)) = "api" ∷ "probes" ∷ id ∷ "alerts" ∷ []
segments (Commands.alert (AlertAction.ack id)) = "api" ∷ "alerts" ∷ "events" ∷ id ∷ "ack" ∷ []
segments (Commands.alert (AlertAction.delete_rule id)) = "api" ∷ "alerts" ∷ id ∷ []

-- What the daemon makes of each command.
abbrev pub served : Commands → Routed
served (Commands.probe ProbeAction.list_probes) = handled Handler.list_probes []
served (Commands.probe ProbeAction.add) = handled Handler.create_probe []
served (Commands.probe (ProbeAction.delete_probe id)) = handled Handler.delete_probe (id ∷ [])
served (Commands.probe (ProbeAction.run_now id)) = handled Handler.trigger_probe_run (id ∷ [])
served (Commands.probe (ProbeAction.status id)) = handled Handler.list_runs (id ∷ [])
served (Commands.baseline (BaselineAction.show id)) = handled Handler.get_latest_baseline (id ∷ [])
served (Commands.baseline (BaselineAction.capture id)) = handled Handler.capture_baseline (id ∷ [])
served (Commands.baseline (BaselineAction.list_baselines id)) =
    handled Handler.list_baselines (id ∷ [])
served (Commands.alert (AlertAction.events limit)) = method_not_allowed
served (Commands.alert (AlertAction.rules id)) = handled Handler.list_rules (id ∷ [])
served (Commands.alert (AlertAction.ack id)) = not_found
served (Commands.alert (AlertAction.delete_rule id)) = handled Handler.delete_rule (id ∷ [])

-- What the daemon does with a request: 401 from the guard of the API, or what the router makes of it.
pub data Answer : Type 0 where
  unauthorized : Answer
  routed : Routed → Answer

abbrev pub is_not_found : Routed → Bool
is_not_found not_found = true
is_not_found r = false

-- `guards_unmatched` tells whether the framework runs a layer for paths that no route matches.
abbrev at_route : (String → String → Bool) → Bool → AuthConfig → CliRequest → Routed → Answer
at_route ct_eq guards_unmatched auth r found =
    if guards_unmatched || not (is_not_found found)
    then api ct_eq unauthorized auth (λ headers. routed found) r.headers
    else routed found

abbrev at_path :
    (String → String → Bool) → Bool → AuthConfig → CliRequest → Option (List String) → Answer
at_path ct_eq guards_unmatched auth r none = routed not_found
at_path ct_eq guards_unmatched auth r (some path) =
    at_route ct_eq guards_unmatched auth r (route_request r.method path)

-- A request at the daemon. `path_of` is what the libraries make of the text of a URL: the segments of
-- its path, or none for a text that is no URL.
abbrev pub answer_to :
    (String → String → Bool)
    → Bool
    → (String → Option (List String))
    → AuthConfig
    → CliRequest
    → Answer
answer_to ct_eq guards_unmatched path_of auth r =
    at_path ct_eq guards_unmatched auth r (path_of r.url)
