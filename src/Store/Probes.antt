-- ===== src/Store/Probes.antt =====
-- The probes (crates/store/src/probe_store.rs) and their next runs (schedule_store.rs): a table
-- each, keyed by the identifier of the probe.
use modelsentry.Base.{ltb, Option, List, Bool}
use modelsentry.Base.Assoc.{Assoc, get, remove}
use modelsentry.Common.Models.{Uuid, Probe, uuid_keys}
use modelsentry.Common.Time.{Time}
use modelsentry.Base.Table.{put, values, is_some}

unfoldable pub insert : Assoc Uuid Probe → Probe → Assoc Uuid Probe
insert table probe = put uuid_keys ltb table probe.id probe

unfoldable pub get_probe : Assoc Uuid Probe → Uuid → Option Probe
get_probe table id = get uuid_keys table id

abbrev pub list_all : Assoc Uuid Probe → List Probe
list_all table = values table

unfoldable pub delete : Assoc Uuid Probe → Uuid → Bool × Assoc Uuid Probe
delete table id = (is_some (get uuid_keys table id), remove uuid_keys table id)

unfoldable pub update : Assoc Uuid Probe → Probe → Assoc Uuid Probe
update table probe = insert table probe

unfoldable pub get_next_run : Assoc Uuid Time → Uuid → Option Time
get_next_run table id = get uuid_keys table id

unfoldable pub set_next_run : Assoc Uuid Time → Uuid → Time → Assoc Uuid Time
set_next_run table id next_run = put uuid_keys ltb table id next_run

unfoldable pub delete_next_run : Assoc Uuid Time → Uuid → Bool × Assoc Uuid Time
delete_next_run table id = (is_some (get uuid_keys table id), remove uuid_keys table id)
