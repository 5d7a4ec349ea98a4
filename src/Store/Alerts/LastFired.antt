-- ===== src/Store/Alerts/LastFired.antt =====
-- The index of last firings of crates/store/src/alert_store.rs.
use modelsentry.Base.{
  refl, All, [], ◌∷◌, Bool-cases, inl, inr, ==_iff, ◌≡◌, Option, none, some, arith, if◌then◌else◌,
  ◌==◌, ltb,
}
use modelsentry.Base.Int.{◌≤ℤ◌}
use modelsentry.Base.Assoc.{Assoc, get}
use modelsentry.Common.Models.{Uuid, uuid_keys, AlertEvent}
use modelsentry.Common.Time.{Time}
use modelsentry.Store.Alerts.{AlertTables, insert_event, newest, last_fired_for_rule}
use modelsentry.Base.Table.{get-put, put-All}

-- `bound` is at least `at`.
abbrev pub IsUpTo : Time → Option Time → Type 0
IsUpTo at none = ⊥
IsUpTo at (some bound) = at ≤ℤ bound

newest_old : (prev : Option Time) (at t : Time) → IsUpTo t prev → t ≤ℤ newest prev at
newest_old none at t h = absurd h
newest_old (some p) at t h = ground arith

newest_new : (prev : Option Time) (at : Time) → at ≤ℤ newest prev at
newest_new none at = omega arith
newest_new (some p) at = ground arith

module _ {F : Type 0} where
  abbrev pub IsCovered : AlertTables F → Uuid × AlertEvent F → Type 0
  IsCovered st entry = IsUpTo entry.1.fired_at (last_fired_for_rule st entry.1.rule_id)

  -- Each stored event is covered by the index entry of its rule.
  abbrev pub IsIndexed : AlertTables F → Type 0
  IsIndexed st = All (IsCovered st) st.events

  insert_event-last_fired :
      (st : AlertTables F) (event : AlertEvent F) (rule : Uuid)
      → last_fired_for_rule (insert_event st event) rule ≡ (
          if event.rule_id == rule
          then some (newest (last_fired_for_rule st event.rule_id) event.fired_at)
          else last_fired_for_rule st rule)
  unfolding insert_event last_fired_for_rule
  insert_event-last_fired st event rule =
      get-put uuid_keys ltb st.last_fired event.rule_id rule
        (newest (get uuid_keys st.last_fired event.rule_id) event.fired_at)

  grows :
      (st : AlertTables F) (event : AlertEvent F) (rule : Uuid) (at : Time)
      → IsUpTo at (last_fired_for_rule st rule)
      → IsUpTo at (last_fired_for_rule (insert_event st event) rule)
  grows st event rule at h = elim (Bool-cases (event.rule_id == rule)) [
    | inl e ↦
        let same : event.rule_id ≡ rule = (==_iff event.rule_id rule).0 e in
        rw (insert_event-last_fired st event rule, e)
          (newest_old (last_fired_for_rule st event.rule_id) event.fired_at at (rw same h))
    | inr e ↦ rw (insert_event-last_fired st event rule, e) h
  ]

  still-IsCovered :
      (st : AlertTables F) (event : AlertEvent F) (es : Assoc Uuid (AlertEvent F))
      → All (IsCovered st) es
      → All (IsCovered (insert_event st event)) es
  still-IsCovered st event [] h = tt
  still-IsCovered st event ((i, old) ∷ es) h =
      (grows st event old.rule_id old.fired_at h.0, still-IsCovered st event es h.1)

  -- An inserted event keeps the index above every stored event of its rule, in whatever order the
  -- events arrive.
  pub insert_event-IsIndexed :
      (st : AlertTables F) (event : AlertEvent F) → IsIndexed st → IsIndexed (insert_event st event)
  unfolding insert_event
  insert_event-IsIndexed st event h =
      put-All uuid_keys ltb (IsCovered (insert_event st event)) st.events event.id event
        (still-IsCovered st event st.events h)
        (rw
          (
            insert_event-last_fired st event event.rule_id,
            (==_iff event.rule_id event.rule_id).1 refl,
          )
          (newest_new (last_fired_for_rule st event.rule_id) event.fired_at))
