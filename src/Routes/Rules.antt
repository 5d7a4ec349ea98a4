-- ===== src/Routes/Rules.antt =====
-- The endpoints of the alert rules and events (crates/daemon/src/routes/alerts.rs).
pub mod Created
use modelsentry.Store.Alerts
use modelsentry.Common.Error.{◌>>=◌, ◌>>◌, fail_if, ok, err, Result, ok_or, ModelSentryError}
use Prim.Native.String.{◌++◌ as append_str, String}
use modelsentry.Base.{none, some, List, Option, Bool, if◌then◌else◌, ℕ, not, ◌&&◌}
use modelsentry.Common.Models.{AlertChannel, Uuid, AlertRule, AlertEvent}
use modelsentry.Float.{FloatOps}
use modelsentry.Provider.{config_error}
use modelsentry.Store.Alerts.{AlertTables}
use modelsentry.Routes.{parse_probe_id, store_call}

pub record CreateRuleRequest (F : Type 0) : Type 0 where
  pub target_fpr : F
  pub channels : List AlertChannel
  pub active : Bool

module _ (parse_uuid : String → Option Uuid) where
  abbrev pub parse_rule_id : String → Result Uuid
  parse_rule_id s = ok_or (parse_uuid s) (config_error (append_str "invalid alert rule id: " s))

  abbrev pub parse_event_id : String → Result Uuid
  parse_event_id s = ok_or (parse_uuid s) (config_error (append_str "invalid event id: " s))

-- Status 204 if the row was there, with the tables after the call.
abbrev pub found_or : {S : Type 0} → String → S → Result (Bool × S) → S × Result (Unit {0})
found_or message before (err e) = (before, err e)
found_or message before (ok (found, after)) =
    (after, if found then ok tt else err (config_error message))

module _ (parse_uuid : String → Option Uuid) {F : Type 0} (o : FloatOps F) where
  unfoldable pub list_rules :
      Option ModelSentryError → String → AlertTables F → Result (List (AlertRule F))
  list_rules fault id st = do
    probe_id ← parse_probe_id parse_uuid id
    store_call fault (Alerts.get_rules_for_probe st probe_id)

  abbrev pub new_rule : Uuid → CreateRuleRequest F → Uuid → AlertRule F
  new_rule rule_id body probe_id = record {
    id = rule_id;
    probe_id = probe_id;
    target_fpr = body.target_fpr;
    channels = body.channels;
    active = body.active;
  }

  abbrev pub check_rule : String → Uuid → CreateRuleRequest F → Result (AlertRule F)
  check_rule id rule_id body = do
    probe_id ← parse_probe_id parse_uuid id
    fail_if (not (o.lt (o.of_nat 0) body.target_fpr && o.lt body.target_fpr (o.of_nat 1)))
        (config_error "target_fpr must be in the open interval (0, 1)")
    ok (new_rule rule_id body probe_id)

  abbrev pub insert_rule_checked :
      Option ModelSentryError
      → AlertTables F
      → Result (AlertRule F)
      → AlertTables F × Result (AlertRule F)
  insert_rule_checked fault st (err e) = (st, err e)
  insert_rule_checked none st (ok rule) = (Alerts.insert_rule st rule, ok rule)
  insert_rule_checked (some e) st (ok rule) = (st, err e)

  unfoldable pub create_rule :
      Option ModelSentryError
      → String
      → Uuid
      → CreateRuleRequest F
      → AlertTables F
      → AlertTables F × Result (AlertRule F)
  create_rule fault id rule_id body st = insert_rule_checked fault st (check_rule id rule_id body)

  unfoldable pub delete_rule :
      Option ModelSentryError → String → AlertTables F → AlertTables F × Result (Unit {0})
  delete_rule fault id st =
      found_or (append_str "alert rule not found: " id) st
        (do rule_id ← parse_rule_id parse_uuid id; store_call fault (Alerts.delete_rule st rule_id))

  unfoldable pub list_events :
      Option ModelSentryError → ℕ → AlertTables F → Result (List (AlertEvent F))
  list_events fault limit st = store_call fault (Alerts.list_events st limit)

  unfoldable pub acknowledge_event :
      Option ModelSentryError → String → AlertTables F → AlertTables F × Result (Unit {0})
  acknowledge_event fault id st = found_or (append_str "alert event not found: " id) st (do
    event_id ← parse_event_id parse_uuid id
    store_call fault (Alerts.acknowledge_event st event_id))
