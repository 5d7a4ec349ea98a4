-- ===== src/Store/Runs.antt =====
-- The runs (crates/store/src/run_store.rs): their metadata, their embeddings, and an index whose keys
-- are the texts of a probe, a reversed instant and a run, of fixed widths, in order.
pub mod Listing
pub mod Deletion
pub mod Rows
use modelsentry.Base.{
  ℕ, ◌-◌, Bool, not, ◌&&◌, ◌||◌, List, [], ◌∷◌, ◌++◌, length, Option, none, some, ◌==◌, ltb, leb,
  if◌then◌else◌, filter, foldl,
}
use modelsentry.Base.Int.{pos_part}
use modelsentry.Base.Assoc.{Assoc}
use modelsentry.Base.Assoc
use modelsentry.Common.Models.{Uuid, uuid_keys, ProbeRun}
use modelsentry.Common.Time.{Time}
use modelsentry.Store.Ledger.{max_nanos}

-- A key; the value stored under it is the run again.
pub record IndexEntry : Type 0 where
  pub probe : Uuid
  pub rev : ℕ
  pub run : Uuid

-- An instant before the epoch or past the range counts as the epoch here.
abbrev pub run_nanos : Time → ℕ
run_nanos at = if leb (pos_part at) max_nanos then pos_part at else 0

abbrev pub index_key : Uuid → Time → Uuid → IndexEntry
index_key probe started_at run = record {
  probe = probe;
  rev = max_nanos - run_nanos started_at;
  run = run;
}

abbrev pub key_below : IndexEntry → IndexEntry → Bool
key_below x y =
    ltb x.probe y.probe
    || (x.probe == y.probe && (ltb x.rev y.rev || (x.rev == y.rev && ltb x.run y.run)))

abbrev pub put_key : List IndexEntry → IndexEntry → List IndexEntry
put_key [] e = e ∷ []
put_key (x ∷ xs) e =
    let rest = put_key xs e in
    if key_below e x then e ∷ x ∷ xs else if key_below x e then x ∷ rest else e ∷ xs

pub record RunTables (F : Type 0) : Type 0 where
  pub runs : Assoc Uuid (ProbeRun F)
  pub vectors : Assoc Uuid (List (List (List F)))
  pub index : List IndexEntry

-- From the first key of the probe on.
abbrev pub from_prefix : Uuid → List IndexEntry → List IndexEntry
from_prefix probe [] = []
from_prefix probe (e ∷ es) =
    let rest = from_prefix probe es in if ltb e.probe probe then rest else e ∷ es

abbrev pub same_entry : IndexEntry → IndexEntry → Bool
same_entry x y = x.probe == y.probe && (x.rev == y.rev && x.run == y.run)

abbrev pub remove_key : List IndexEntry → IndexEntry → List IndexEntry
remove_key ks e = filter (λ k. not (same_entry k e)) ks

-- The entries in front that belong to the probe.
abbrev pub block : Uuid → List IndexEntry → List IndexEntry
block probe [] = []
block probe (e ∷ es) = let rest = block probe es in if e.probe == probe then e ∷ rest else []

module _ {F : Type 0} where
  unfoldable pub insert : RunTables F → ProbeRun F → RunTables F
  insert st run = record {
    runs = Assoc.insert uuid_keys st.runs run.id (record run { embeddings = [] });
    vectors = Assoc.insert uuid_keys st.vectors run.id run.embeddings;
    index = put_key st.index (index_key run.probe_id run.started_at run.id);
  }

  unfoldable pub get : RunTables F → Uuid → Option (ProbeRun F)
  get st id = Assoc.get uuid_keys st.runs id

  unfoldable pub embeddings : RunTables F → Uuid → Option (List (List (List F)))
  embeddings st id = Assoc.get uuid_keys st.vectors id

  abbrev pub push_found : List (ProbeRun F) → Option (ProbeRun F) → List (ProbeRun F)
  push_found out none = out
  push_found out (some run) = out ++ run ∷ []

  -- The loop, whose test of the limit follows the push.
  abbrev pub scan :
      Assoc Uuid (ProbeRun F) → Uuid → ℕ → List (ProbeRun F) → List IndexEntry → List (ProbeRun F)
  scan runs probe limit out [] = out
  scan runs probe limit out (e ∷ es) =
      let out' = push_found out (Assoc.get uuid_keys runs e.run) in
      let rest = scan runs probe limit out' es in
      if not (e.probe == probe) then out else if leb limit (length out') then out' else rest

  unfoldable pub list_for_probe : RunTables F → Uuid → ℕ → List (ProbeRun F)
  list_for_probe st probe limit = scan st.runs probe limit [] (from_prefix probe st.index)

  abbrev pub remove_run : RunTables F → IndexEntry → RunTables F
  remove_run st e = record {
    runs = Assoc.remove uuid_keys st.runs e.run;
    vectors = Assoc.remove uuid_keys st.vectors e.run;
    index = remove_key st.index e;
  }

  abbrev pub remove_runs : RunTables F → List IndexEntry → ℕ × RunTables F
  remove_runs st targets =
      if length targets == 0 then (0, st) else (length targets, foldl remove_run st targets)

  unfoldable pub delete_for_probe : RunTables F → Uuid → ℕ × RunTables F
  delete_for_probe st probe = remove_runs st (block probe (from_prefix probe st.index))
