-- ===== src/Store/Snapshots.antt =====
-- The baselines (crates/store/src/baseline_store.rs): a table keyed by the identifier of the
-- snapshot, which is read in the order of the keys.
pub mod Latest
use modelsentry.Base.{
  ltb, none, some, Option, Bool, List, if◌then◌else◌, foldl, ℕ, ◌==◌, filter, length,
}
use modelsentry.Base.Assoc.{Assoc, get, remove}
use modelsentry.Common.Models.{Uuid, BaselineSnapshot, uuid_keys}
use modelsentry.Base.Table.{put, is_some, values}
use modelsentry.Base.Int.{ltb_ℤ}
use modelsentry.Base.Table.Removal.{keys_where, remove_keys}

module _ {F : Type 0} where
  unfoldable pub insert :
      Assoc Uuid (BaselineSnapshot F) → BaselineSnapshot F → Assoc Uuid (BaselineSnapshot F)
  insert table baseline = put uuid_keys ltb table baseline.id baseline

  abbrev pub is_of : Uuid → BaselineSnapshot F → Bool
  is_of probe_id b = b.probe_id == probe_id

  unfoldable pub list_for_probe : Assoc Uuid (BaselineSnapshot F) → Uuid → List (BaselineSnapshot F)
  list_for_probe table probe_id = filter (is_of probe_id) (values table)

  -- `max_by_key`: of equal instants the last one.
  abbrev pub later : Option (BaselineSnapshot F) → BaselineSnapshot F → Option (BaselineSnapshot F)
  later none b = some b
  later (some best) b = if ltb_ℤ b.captured_at best.captured_at then some best else some b

  unfoldable pub get_latest_for_probe :
      Assoc Uuid (BaselineSnapshot F) → Uuid → Option (BaselineSnapshot F)
  unfolding list_for_probe
  get_latest_for_probe table probe_id = foldl later none (list_for_probe table probe_id)

  unfoldable pub delete :
      Assoc Uuid (BaselineSnapshot F) → Uuid → Bool × Assoc Uuid (BaselineSnapshot F)
  delete table id = (is_some (get uuid_keys table id), remove uuid_keys table id)

  abbrev pub delete_ids :
      Assoc Uuid (BaselineSnapshot F) → List Uuid → ℕ × Assoc Uuid (BaselineSnapshot F)
  delete_ids table ids = if length ids == 0 then (0, table) else (length ids, remove_keys table ids)

  unfoldable pub delete_for_probe :
      Assoc Uuid (BaselineSnapshot F) → Uuid → ℕ × Assoc Uuid (BaselineSnapshot F)
  delete_for_probe table probe_id = delete_ids table (keys_where (is_of probe_id) table)
