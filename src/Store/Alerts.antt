-- ===== src/Store/Alerts.antt =====
-- The alert rules and events (crates/store/src/alert_store.rs): three tables, keyed by the
-- identifiers of rules and events and kept in the order of the keys.
pub mod LastFired
use modelsentry.Base.{
  ℕ, zero, suc, Bool, true, false, List, [], ◌∷◌, map, filter, any, Option, none, some, ◌==◌,
  if◌then◌else◌, ltb,
}
use modelsentry.Base.Int.{ltb_ℤ}
use modelsentry.Base.Assoc.{Assoc, get, remove}
use modelsentry.Base.Table.{put, values}
use modelsentry.Common.Models.{Uuid, uuid_keys, AlertRule, AlertEvent}
use modelsentry.Common.Time.{Time, max_time}

pub record AlertTables (F : Type 0) : Type 0 where
  pub rules : Assoc Uuid (AlertRule F)
  pub events : Assoc Uuid (AlertEvent F)
  pub last_fired : Assoc Uuid Time

abbrev pub newest : Option Time → Time → Time
newest none fired_at = fired_at
newest (some prev) fired_at = max_time prev fired_at

module _ {F : Type 0} where
  abbrev pub insert_rule : AlertTables F → AlertRule F → AlertTables F
  insert_rule st rule = record st { rules = put uuid_keys ltb st.rules rule.id rule }

  abbrev pub get_rules_for_probe : AlertTables F → Uuid → List (AlertRule F)
  get_rules_for_probe st probe_id =
      filter (λ (rule : AlertRule F). rule.probe_id == probe_id) (values st.rules)

  abbrev pub delete_rule : AlertTables F → Uuid → Bool × AlertTables F
  delete_rule st id = (
    elim (get uuid_keys st.rules id) [ none ↦ false | some rule ↦ true ],
    record st {
      rules = remove uuid_keys st.rules id;
      last_fired = remove uuid_keys st.last_fired id;
    },
  )

  unfoldable pub insert_event : AlertTables F → AlertEvent F → AlertTables F
  insert_event st event = record st {
    events = put uuid_keys ltb st.events event.id event;
    last_fired =
        put uuid_keys ltb st.last_fired event.rule_id
          (newest (get uuid_keys st.last_fired event.rule_id) event.fired_at);
  }

  unfoldable pub last_fired_for_rule : AlertTables F → Uuid → Option Time
  last_fired_for_rule st rule_id = get uuid_keys st.last_fired rule_id

  -- A sort by descending instant that keeps the order of equal ones.
  abbrev pub insert_by_time : AlertEvent F → List (AlertEvent F) → List (AlertEvent F)
  insert_by_time e [] = e ∷ []
  insert_by_time e (x ∷ xs) =
      let rest = insert_by_time e xs in if ltb_ℤ e.fired_at x.fired_at then x ∷ rest else e ∷ x ∷ xs

  abbrev pub sort_by_time : List (AlertEvent F) → List (AlertEvent F)
  sort_by_time [] = []
  sort_by_time (e ∷ es) = insert_by_time e (sort_by_time es)

  abbrev pub take_first : ℕ → List (AlertEvent F) → List (AlertEvent F)
  take_first zero es = []
  take_first (suc n) [] = []
  take_first (suc n) (e ∷ es) = e ∷ take_first n es

  abbrev pub list_events : AlertTables F → ℕ → List (AlertEvent F)
  list_events st limit = take_first limit (sort_by_time (values st.events))

  abbrev pub acknowledge_found : AlertTables F → Uuid → Option (AlertEvent F) → Bool × AlertTables F
  acknowledge_found st id none = (false, st)
  acknowledge_found st id (some event) = (
    true,
    record st { events = put uuid_keys ltb st.events id (record event { acknowledged = true }) },
  )

  unfoldable pub acknowledge_event : AlertTables F → Uuid → Bool × AlertTables F
  acknowledge_event st id = acknowledge_found st id (get uuid_keys st.events id)
