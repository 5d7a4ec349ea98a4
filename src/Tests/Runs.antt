-- ===== src/Tests/Runs.antt =====
-- Tests of the store of the runs (crates/store/src/run_store.rs).
use modelsentry.Base.{◌≡◌, refl, [], ◌∷◌, some, not, filter, length, arith}
use modelsentry.Base.Int.{ℤ}
use modelsentry.Common.Models.{ProbeRun}
use modelsentry.Common.Time.{hours}
use modelsentry.Store.Runs.{RunTables, insert, get, embeddings, list_for_probe, delete_for_probe}
use modelsentry.Store.Runs.Deletion.{belongs_to, delete_for_probe_lem}
use modelsentry.Store.Runs.Listing.{
  IsOrdered, insert_lem, runs_of, take_first, list_for_probe-take_first,
}
use modelsentry.Tests.Data.{probe_run}

abbrev later_run : ProbeRun ℤ
later_run = record probe_run { id = 22; started_at = hours 5 }

abbrev other_run : ProbeRun ℤ
other_run = record probe_run { id = 23; probe_id = 2; started_at = hours 9 }

abbrev stored : RunTables ℤ
stored =
    insert (insert (insert (record { runs = []; vectors = []; index = [] }) probe_run) other_run)
      later_run

-- Newest first, and no run of another probe.
newest_first :
    list_for_probe stored 1 5
    ≡ record later_run { embeddings = [] } ∷ record probe_run { embeddings = [] } ∷ []
unfolding list_for_probe insert
newest_first = refl

-- A limit of 0 returns one run.
no_room : list_for_probe stored 1 0 ≡ record later_run { embeddings = [] } ∷ []
unfolding list_for_probe insert
no_room = refl

stored-IsOrdered : IsOrdered stored.index
unfolding insert
stored-IsOrdered = ((refl, (refl, tt)), ((refl, tt), (tt, tt)))

list_for_probe-take_first_example :
    list_for_probe stored 1 1 ≡ take_first 1 (runs_of stored.runs 1 stored.index)
list_for_probe-take_first_example =
    list_for_probe-take_first stored 1 1 (omega arith) stored-IsOrdered

insert_lem_example :
    (get (insert stored probe_run) 21 ≡ some (record probe_run { embeddings = [] }))
    × (embeddings (insert stored probe_run) 21 ≡ some probe_run.embeddings)
    × IsOrdered (insert stored probe_run).index
insert_lem_example = insert_lem stored probe_run stored-IsOrdered

delete_for_probe_lem_example :
    ((delete_for_probe stored 1).0 ≡ length (filter (belongs_to 1) stored.index))
    × ((delete_for_probe stored 1).1.index ≡ filter (λ y. not (belongs_to 1 y)) stored.index)
    × (list_for_probe (delete_for_probe stored 1).1 1 5 ≡ [])
delete_for_probe_lem_example = delete_for_probe_lem stored 1 5 stored-IsOrdered
