-- ===== src/Store/App/Cascade.antt =====
-- What the cascade leaves of each probe (crates/store/src/lib.rs), against its specification: the
-- data of a probe, as the four tables hold it, is emptied.
use modelsentry.Store.Probes
use modelsentry.Store.Runs
use modelsentry.Store.Snapshots
use modelsentry.Base.{
  [], refl, false, none, arith, Option, List, ◌==◌, filter, ◌≡◌, if◌then◌else◌, not, ◌∷◌, ap,
  length, ◌∙◌, inl, inr, true, Bool-cases, ◌&&◌, some, sym, Bool, ==_iff, map,
}
use modelsentry.Store.App.{
  AppTables, Time, CascadeFaults, delete_probe_cascade, without_schedule, without_probe,
  without_baselines, without_runs,
}
use modelsentry.Common.Models.{Uuid, Probe, BaselineSnapshot, uuid_keys, ProbeRun}
use modelsentry.Base.Assoc.{Assoc, get, remove, get-remove}
use modelsentry.Store.Runs.{RunTables, IndexEntry}
use modelsentry.Store.Probes.{get_probe, get_next_run}
use modelsentry.Base.Table.Removal.{IsAscending, remove_keys, keys_where, remove_keys_where}
use modelsentry.Store.Runs.Listing.{IsOrdered}
use modelsentry.Store.Snapshots.{delete_ids, is_of}
use modelsentry.Store.Runs.Deletion.{belongs_to, delete_for_probe_lem}
use modelsentry.Base.Table.{values, is_some}
use modelsentry.Common.Error.{ok}
use modelsentry.Store.Runs.Rows.{HasOneProbe, other_rows, names_run, get-delete_for_probe}

-- What the store holds of one probe.
pub record ProbeData (F : Type 0) : Type 0 where
  pub probe : Option Probe
  pub baselines : List (BaselineSnapshot F)
  pub run_entries : List IndexEntry
  -- Of each entry: the metadata and the embeddings of its run, if they are stored.
  pub runs : List (Option (ProbeRun F))
  pub vectors : List (Option (List (List (List F))))
  pub next_run : Option Time

filter-runs :
    (id j : Uuid) (es : List IndexEntry)
    → filter (belongs_to j) (filter (λ y. not (belongs_to id y)) es)
      ≡ (if j == id then [] else filter (belongs_to j) es)
filter-runs id j [] = ground arith
filter-runs id j (e ∷ es) = ground (arith, filter-runs id j es)

-- No call fails.
abbrev pub no_cascade_faults : CascadeFaults
no_cascade_faults = record { probe = none; runs = none; baselines = none; schedule = none }

get-delete :
    {V : Type 0} (m : Assoc Uuid V) (id j : Uuid)
    → get uuid_keys (remove uuid_keys m id) j ≡ (if j == id then none else get uuid_keys m j)
get-delete m id j = ground (arith, get-remove uuid_keys m id j)

is_some-none : {A : Type 0} (found : Option A) → is_some found ≡ false → found ≡ none
is_some-none none h = refl
is_some-none (some a) h = absurd (cc)

if_absent :
    {V : Type 0} (m : Assoc Uuid V) (id j : Uuid)
    → get uuid_keys m id ≡ none
    → (if j == id then none else get uuid_keys m j) ≡ get uuid_keys m j
if_absent m id j h = elim (Bool-cases (j == id)) [
  | inl t ↦ rw t (sym (ap (get uuid_keys m) ((==_iff j id).0 t) ∙ h))
  | inr t ↦ rw t refl
]

if_and_true :
    {A : Type 0} (b : Bool) (x y : A) → (if b then x else y) ≡ (if b && true then x else y)
if_and_true true x y = refl
if_and_true false x y = refl

if_and_false : {A : Type 0} (b : Bool) (x y : A) → y ≡ (if b && false then x else y)
if_and_false true x y = refl
if_and_false false x y = refl

module _ {F : Type 0} where
  abbrev pub no_data : ProbeData F
  no_data = record {
    probe = none;
    baselines = [];
    run_entries = [];
    runs = [];
    vectors = [];
    next_run = none;
  }

  abbrev pub data_of : AppTables F → Uuid → ProbeData F
  data_of st id = record {
    probe = get_probe st.probes id;
    baselines = Snapshots.list_for_probe st.baselines id;
    run_entries = filter (belongs_to id) st.runs.index;
    runs = map (λ (e : IndexEntry). Runs.get st.runs e.run) (filter (belongs_to id) st.runs.index);
    vectors =
        map (λ (e : IndexEntry). Runs.embeddings st.runs e.run)
          (filter (belongs_to id) st.runs.index);
    next_run = get_next_run st.schedule id;
  }

  -- The keys of the tables are in order, and no run is in the index for two probes.
  pub record IsSound (st : AppTables F) : Type 0 where
    pub by_id : IsAscending st.baselines
    pub by_time : IsOrdered st.runs.index
    pub one_probe : HasOneProbe st.runs.index

  filter-baselines :
      (id j : Uuid) (m : Assoc Uuid (BaselineSnapshot F))
      → filter (is_of j) (values (filter (λ e. not (is_of id e.1)) m))
        ≡ (if j == id then [] else filter (is_of j) (values m))
  filter-baselines id j [] = ground arith
  filter-baselines id j (e ∷ m) = ground (arith, filter-baselines id j m)

  delete_ids-remove :
      (m : Assoc Uuid (BaselineSnapshot F)) (ids : List Uuid)
      → (delete_ids m ids).1 ≡ remove_keys m ids
  delete_ids-remove m [] = refl
  delete_ids-remove m (k ∷ ids) =
      let some_left : (length (k ∷ ids) == 0) ≡ false = ground arith in rw some_left refl

  list-delete :
      (m : Assoc Uuid (BaselineSnapshot F)) (id j : Uuid)
      → IsAscending m
      → Snapshots.list_for_probe (Snapshots.delete_for_probe m id).1 j
        ≡ (if j == id then [] else Snapshots.list_for_probe m j)
  unfolding Snapshots.list_for_probe Snapshots.delete_for_probe
  list-delete m id j h =
      ap (λ r. filter (is_of j) (values r))
        (delete_ids-remove m (keys_where (is_of id) m) ∙ remove_keys_where (is_of id) m h)
      ∙ filter-baselines id j m

  entries-delete :
      (runs : RunTables F) (id j : Uuid)
      → IsOrdered runs.index
      → filter (belongs_to j) (Runs.delete_for_probe runs id).1.index
        ≡ (if j == id then [] else filter (belongs_to j) runs.index)
  entries-delete runs id j h =
      ap (filter (belongs_to j)) (delete_for_probe_lem runs id 0 h).1 ∙ filter-runs id j runs.index

  rows-delete :
      {V : Type 0} (of_run : RunTables F → Uuid → Option V) (runs : RunTables F) (id j : Uuid)
      → IsOrdered runs.index
      → ((j == id) ≡ false
          → map
              (λ (e : IndexEntry). of_run (Runs.delete_for_probe runs id).1 e.run)
              (filter (belongs_to j) runs.index)
            ≡ map (λ (e : IndexEntry). of_run runs e.run) (filter (belongs_to j) runs.index))
      → map
          (λ (e : IndexEntry). of_run (Runs.delete_for_probe runs id).1 e.run)
          (filter (belongs_to j) (Runs.delete_for_probe runs id).1.index)
        ≡ (if j == id
            then []
            else map (λ (e : IndexEntry). of_run runs e.run) (filter (belongs_to j) runs.index))
  rows-delete of_run runs id j h others =
      ap (map (λ (e : IndexEntry). of_run (Runs.delete_for_probe runs id).1 e.run))
        (entries-delete runs id j h)
      ∙ elim (Bool-cases (j == id)) [ inl t ↦ rw t refl | inr t ↦ rw t (others t) ]

  -- The effects of the four calls.
  abbrev pub swept : AppTables F → Uuid → AppTables F
  swept st id = without_schedule id (without_baselines id (without_runs id (without_probe id st)))

  data_of-swept :
      (st : AppTables F) (id j : Uuid)
      → IsSound st
      → data_of (swept st id) j ≡ (if j == id then no_data else data_of st j)
  unfolding Probes.delete get_probe get_next_run Probes.delete_next_run
  data_of-swept st id j sound =
      let p = get-delete st.probes id j in
      let b = list-delete st.baselines id j sound.by_id in
      let r = entries-delete st.runs id j sound.by_time in
      let n = get-delete st.schedule id j in
      let others = other_rows st.runs id j sound.by_time sound.one_probe in
      let m = rows-delete Runs.get st.runs id j sound.by_time (λ t. (others t).0) in
      let v = rows-delete Runs.embeddings st.runs id j sound.by_time (λ t. (others t).1) in
      let fields : data_of (swept st id) j ≡ record {
        probe = if j == id then none else get_probe st.probes j;
        baselines = if j == id then [] else Snapshots.list_for_probe st.baselines j;
        run_entries = if j == id then [] else filter (belongs_to j) st.runs.index;
        runs = if j == id then [] else (data_of st j).runs;
        vectors = if j == id then [] else (data_of st j).vectors;
        next_run = if j == id then none else get_next_run st.schedule j;
      } =
        λ i. record {
          probe = p i;
          baselines = b i;
          run_entries = r i;
          runs = m i;
          vectors = v i;
          next_run = n i;
        } in
      fields ∙ elim (Bool-cases (j == id)) [ inl t ↦ rw t refl | inr t ↦ rw t refl ]

  cascade-found :
      (st : AppTables F) (id : Uuid)
      → is_some (get_probe st.probes id) ≡ true
      → delete_probe_cascade no_cascade_faults st id ≡ (swept st id, ok true)
  unfolding delete_probe_cascade Probes.delete get_probe
  cascade-found st id h = rw h refl

  cascade-absent :
      (st : AppTables F) (id : Uuid)
      → is_some (get_probe st.probes id) ≡ false
      → delete_probe_cascade no_cascade_faults st id ≡ (without_probe id st, ok false)
  unfolding delete_probe_cascade Probes.delete get_probe
  cascade-absent st id h = rw h refl

  data_of-absent :
      (st : AppTables F) (id j : Uuid)
      → is_some (get_probe st.probes id) ≡ false
      → data_of (without_probe id st) j ≡ data_of st j
  unfolding Probes.delete get_probe
  data_of-absent st id j h =
      let p : get uuid_keys (remove uuid_keys st.probes id) j ≡ get uuid_keys st.probes j =
        get-delete st.probes id j ∙ if_absent st.probes id j (is_some-none _ h) in
      λ i. record {
        probe = p i;
        baselines = Snapshots.list_for_probe st.baselines j;
        run_entries = filter (belongs_to j) st.runs.index;
        runs = (data_of st j).runs;
        vectors = (data_of st j).vectors;
        next_run = get_next_run st.schedule j;
      }

  -- An entry of the probe names the run.
  abbrev pub is_run_of : AppTables F → Uuid → Uuid → Bool
  is_run_of st id k = names_run k (filter (belongs_to id) st.runs.index)

  -- Where no call fails, the tables are in order and no run is in the index for two probes, the cascade
  -- answers whether the probe exists. If it does, its data becomes empty, and exactly the runs that its
  -- entries name lose their metadata and their embeddings; the data of every other probe, its runs and
  -- their embeddings included, stays as it is. If it does not, everything stays.
  pub delete_probe_cascade-refines :
      (st : AppTables F) (id j k : Uuid)
      → IsSound st
      → let exists = is_some (data_of st id).probe in
        let after = (delete_probe_cascade no_cascade_faults st id).0 in
        ((delete_probe_cascade no_cascade_faults st id).1 ≡ ok exists)
        × (data_of after j ≡ (if j == id && exists then no_data else data_of st j))
        × (Runs.get after.runs k
            ≡ (if is_run_of st id k && exists then none else Runs.get st.runs k))
        × (Runs.embeddings after.runs k
            ≡ (if is_run_of st id k && exists then none else Runs.embeddings st.runs k))
  delete_probe_cascade-refines st id j k sound =
      elim (Bool-cases (is_some (get_probe st.probes id))) [
        | inl t ↦
            let (found, embedded) = get-delete_for_probe st.runs id k sound.by_time in
            rw (cascade-found st id t, t)
              (
                refl,
                data_of-swept st id j sound ∙ if_and_true (j == id) no_data (data_of st j),
                found ∙ if_and_true (is_run_of st id k) none (Runs.get st.runs k),
                embedded ∙ if_and_true (is_run_of st id k) none (Runs.embeddings st.runs k),
              )
        | inr t ↦
            rw (cascade-absent st id t, t)
              (
                refl,
                data_of-absent st id j t ∙ if_and_false (j == id) no_data (data_of st j),
                if_and_false (is_run_of st id k) none (Runs.get st.runs k),
                if_and_false (is_run_of st id k) none (Runs.embeddings st.runs k),
              )
      ]
