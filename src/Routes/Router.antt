-- ===== src/Routes/Router.antt =====
-- The routers (crates/daemon/src/routes) and their place in the server (`build_router` of
-- crates/daemon/src/server.rs). The framework splits a path into segments and matches it against the
-- patterns, which it refuses when two of them conflict: a parameter takes one segment that is not
-- empty. A request with another method than the matched pattern has is answered 405.
use modelsentry.Base.{
  ◌∷◌, ◌++◌, [], true, false, none, some, String, List, Bool, Option, map, if◌then◌else◌,
}
use text.Mathlib.Text.{◌==◌ as str_eq}
use modelsentry.Base.Text.{is_blank}

pub data Method : Type 0 where
  get post put delete : Method

pub data Segment : Type 0 where
  lit : String → Segment
  param : Segment

pub data Handler : Type 0 where
  health : Handler
  list_probes create_probe get_probe delete_probe trigger_probe_run : Handler
  list_baselines capture_baseline get_latest_baseline delete_baseline : Handler
  list_runs get_run : Handler
  list_rules create_rule delete_rule list_events acknowledge_event : Handler
  list_keys upsert_key delete_key : Handler

pub record Route : Type 0 where
  pub path : List Segment
  pub methods : List (Method × Handler)

abbrev pub probes_router : List Route
probes_router =
    record { path = lit "probes" ∷ []; methods = (get, list_probes) ∷ (post, create_probe) ∷ [] }
    ∷ record {
      path = lit "probes" ∷ param ∷ [];
      methods = (get, get_probe) ∷ (delete, delete_probe) ∷ [];
    }
    ∷ record {
      path = lit "probes" ∷ param ∷ lit "run-now" ∷ [];
      methods = (post, trigger_probe_run) ∷ [];
    }
    ∷ []

abbrev pub baselines_router : List Route
baselines_router =
    record {
      path = lit "probes" ∷ param ∷ lit "baselines" ∷ [];
      methods = (get, list_baselines) ∷ (post, capture_baseline) ∷ [];
    }
    ∷ record {
      path = lit "probes" ∷ param ∷ lit "baselines" ∷ lit "latest" ∷ [];
      methods = (get, get_latest_baseline) ∷ [];
    }
    ∷ record { path = lit "baselines" ∷ param ∷ []; methods = (delete, delete_baseline) ∷ [] }
    ∷ []

abbrev pub runs_router : List Route
runs_router =
    record { path = lit "probes" ∷ param ∷ lit "runs" ∷ []; methods = (get, list_runs) ∷ [] }
    ∷ record { path = lit "runs" ∷ param ∷ []; methods = (get, get_run) ∷ [] }
    ∷ []

abbrev pub alerts_router : List Route
alerts_router =
    record {
      path = lit "probes" ∷ param ∷ lit "alerts" ∷ [];
      methods = (get, list_rules) ∷ (post, create_rule) ∷ [];
    }
    ∷ record { path = lit "alerts" ∷ param ∷ []; methods = (delete, delete_rule) ∷ [] }
    ∷ record { path = lit "events" ∷ []; methods = (get, list_events) ∷ [] }
    ∷ record {
      path = lit "events" ∷ param ∷ lit "acknowledge" ∷ [];
      methods = (post, acknowledge_event) ∷ [];
    }
    ∷ []

abbrev pub vault_router : List Route
vault_router =
    record { path = lit "vault" ∷ lit "keys" ∷ []; methods = (get, list_keys) ∷ [] }
    ∷ record {
      path = lit "vault" ∷ lit "keys" ∷ param ∷ [];
      methods = (put, upsert_key) ∷ (delete, delete_key) ∷ [];
    }
    ∷ []

abbrev pub router : List Route
router = probes_router ++ baselines_router ++ runs_router ++ alerts_router ++ vault_router

-- The API below `/api`, beside the health check.
abbrev pub server_router : List Route
server_router =
    map (λ (r : Route). record r { path = lit "api" ∷ r.path }) router
    ++ record { path = lit "health" ∷ []; methods = (get, health) ∷ [] } ∷ []

abbrev pub add_param : String → Option (List String) → Option (List String)
add_param s none = none
add_param s (some params) = some (s ∷ params)

abbrev pub match_path : List Segment → List String → Option (List String)
match_path [] [] = some []
match_path [] (s ∷ path) = none
match_path (p ∷ pattern') [] = none
match_path (lit name ∷ pattern') (s ∷ path) =
    let rest = match_path pattern' path in if str_eq name s then rest else none
match_path (param ∷ pattern') (s ∷ path) =
    let rest = match_path pattern' path in if is_blank s then none else add_param s rest

abbrev pub same_method : Method → Method → Bool
same_method get get = true
same_method post post = true
same_method put put = true
same_method delete delete = true
same_method m n = false

-- What becomes of a request: its handler with the parameters of the path, or status 405 or 404.
pub data Routed : Type 0 where
  handled : Handler → List String → Routed
  method_not_allowed not_found : Routed

abbrev pub by_method : Method → List (Method × Handler) → List String → Routed
by_method m [] params = method_not_allowed
by_method m ((n, h) ∷ rest) params =
    let later = by_method m rest params in if same_method m n then handled h params else later

abbrev pub at_route : Method → Route → Option (List String) → Routed → Routed
at_route m r none otherwise = otherwise
at_route m r (some params) otherwise = by_method m r.methods params

abbrev pub route_in : List Route → Method → List String → Routed
route_in [] m path = not_found
route_in (r ∷ rs) m path = at_route m r (match_path r.path path) (route_in rs m path)

unfoldable pub route_request : Method → List String → Routed
route_request m path = route_in server_router m path
