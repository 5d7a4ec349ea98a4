-- ===== src/Store/Runs/Rows.antt =====
-- What the deletion of the runs of a probe leaves of the metadata and of the embeddings
-- (crates/store/src/run_store.rs).
use modelsentry.Base.Assoc
use modelsentry.Base.{
  [], refl, inl, inr, true, false, none, arith, List, Bool, Option, if◌then◌else◌, any, All, ◌==◌,
  ◌≡◌, filter, map, ◌∷◌, foldl, ◌∙◌, Bool-cases,
}
use modelsentry.Common.Models.{Uuid, uuid_keys}
use modelsentry.Store.Runs.{get, RunTables, delete_for_probe, IndexEntry, embeddings, remove_run}
use modelsentry.Base.Assoc.{get-remove}
use modelsentry.Store.Runs.Listing.{IsOrdered}
use modelsentry.Store.Runs.Deletion.{belongs_to, block-from_prefix, remove_runs_lem}

-- An entry of the list names the run.
abbrev pub names_run : Uuid → List IndexEntry → Bool
names_run k es = any (λ (e : IndexEntry). e.run == k) es

-- No run is in the index for two probes.
abbrev pub HasOneProbe : List IndexEntry → Type 0
HasOneProbe es =
    All
      (λ (x : IndexEntry).
        All (λ (y : IndexEntry). (y.run == x.run) ≡ true → (y.probe == x.probe) ≡ true) es)
      es

others_unnamed :
    (probe : Uuid) (x : IndexEntry) (es : List IndexEntry)
    → (x.probe == probe) ≡ false
    → All (λ (y : IndexEntry). (y.run == x.run) ≡ true → (y.probe == x.probe) ≡ true) es
    → names_run x.run (filter (belongs_to probe) es) ≡ false
others_unnamed probe x [] h a = refl
others_unnamed probe x (y ∷ es) h a = elim (Bool-cases (y.probe == probe)) [
  | inr other ↦ rw other (others_unnamed probe x es h a.1)
  | inl own ↦ rw own (elim (Bool-cases (y.run == x.run)) [
    | inr t ↦ rw t (others_unnamed probe x es h a.1)
    | inl t ↦ let same = a.0 t in absurd (ground arith)
  ])
]

all_unnamed :
    (probe j : Uuid) (es xs : List IndexEntry)
    → (j == probe) ≡ false
    → All
        (λ (x : IndexEntry).
          All (λ (y : IndexEntry). (y.run == x.run) ≡ true → (y.probe == x.probe) ≡ true) es)
        xs
    → All
        (λ (x : IndexEntry). names_run x.run (filter (belongs_to probe) es) ≡ false)
        (filter (belongs_to j) xs)
all_unnamed probe j es [] h a = tt
all_unnamed probe j es (x ∷ xs) h a = elim (Bool-cases (x.probe == j)) [
  | inl t ↦
      let other : (x.probe == probe) ≡ false = ground arith in
      rw t (others_unnamed probe x es other a.0, all_unnamed probe j es xs h a.1)
  | inr t ↦ rw t (all_unnamed probe j es xs h a.1)
]

map_agree :
    {A : Type 0} (f g : Uuid → A) (xs : List IndexEntry)
    → All (λ (x : IndexEntry). f x.run ≡ g x.run) xs
    → map (λ (e : IndexEntry). f e.run) xs ≡ map (λ (e : IndexEntry). g e.run) xs
map_agree f g [] a = refl
map_agree f g (x ∷ xs) a = λ i. a.0 i ∷ map_agree f g xs a.1 i

unless_named :
    {V : Type 0} (named : Uuid → Bool) (f g : Uuid → Option V) (xs : List IndexEntry)
    → ((k : Uuid) → f k ≡ (if named k then none else g k))
    → All (λ (x : IndexEntry). named x.run ≡ false) xs
    → All (λ (x : IndexEntry). f x.run ≡ g x.run) xs
unless_named named f g [] h a = tt
unless_named named f g (x ∷ xs) h a = (h x.run ∙ rw a.0 refl, unless_named named f g xs h a.1)

if_same : {A : Type 0} (b : Bool) (x : A) → (if b then x else x) ≡ x
if_same true x = refl
if_same false x = refl

module _ {F : Type 0} where
  get-foldl :
      (st : RunTables F) (ts : List IndexEntry) (k : Uuid)
      → Assoc.get uuid_keys (foldl remove_run st ts).runs k
        ≡ (if names_run k ts then none else Assoc.get uuid_keys st.runs k)
  get-foldl st [] k = refl
  get-foldl st (t ∷ ts) k =
      get-foldl (remove_run st t) ts k
      ∙ rw (get-remove uuid_keys st.runs t.run k) (elim (Bool-cases (t.run == k)) [
        | inl u ↦ rw u (if_same (names_run k ts) none)
        | inr u ↦ rw u refl
      ])

  embeddings-foldl :
      (st : RunTables F) (ts : List IndexEntry) (k : Uuid)
      → Assoc.get uuid_keys (foldl remove_run st ts).vectors k
        ≡ (if names_run k ts then none else Assoc.get uuid_keys st.vectors k)
  embeddings-foldl st [] k = refl
  embeddings-foldl st (t ∷ ts) k =
      embeddings-foldl (remove_run st t) ts k
      ∙ rw (get-remove uuid_keys st.vectors t.run k) (elim (Bool-cases (t.run == k)) [
        | inl u ↦ rw u (if_same (names_run k ts) none)
        | inr u ↦ rw u refl
      ])

  -- From an ordered index, exactly the runs that the entries of the probe name lose their metadata and
  -- their embeddings.
  pub get-delete_for_probe :
      (st : RunTables F) (probe k : Uuid)
      → IsOrdered st.index
      → (get (delete_for_probe st probe).1 k
          ≡ (if names_run k (filter (belongs_to probe) st.index) then none else get st k))
        × (embeddings (delete_for_probe st probe).1 k
            ≡ (if names_run k (filter (belongs_to probe) st.index) then none else embeddings st k))
  unfolding delete_for_probe get embeddings
  get-delete_for_probe st probe k h =
      let own = block-from_prefix probe st.index h in
      rw (own, remove_runs_lem st (filter (belongs_to probe) st.index))
        (
          get-foldl st (filter (belongs_to probe) st.index) k,
          embeddings-foldl st (filter (belongs_to probe) st.index) k,
        )

  -- The runs that the entries of another probe name stay as they are.
  pub other_rows :
      (st : RunTables F) (probe j : Uuid)
      → IsOrdered st.index
      → HasOneProbe st.index
      → (j == probe) ≡ false
      → (map
            (λ (e : IndexEntry). get (delete_for_probe st probe).1 e.run)
            (filter (belongs_to j) st.index)
          ≡ map (λ (e : IndexEntry). get st e.run) (filter (belongs_to j) st.index))
        × (map
              (λ (e : IndexEntry). embeddings (delete_for_probe st probe).1 e.run)
              (filter (belongs_to j) st.index)
            ≡ map (λ (e : IndexEntry). embeddings st e.run) (filter (belongs_to j) st.index))
  other_rows st probe j h one other =
      let named : Uuid → Bool = λ k. names_run k (filter (belongs_to probe) st.index) in
      let unnamed = all_unnamed probe j st.index st.index other one in
      (
        map_agree _ _ _
            (unless_named named _ (get st) _ (λ k. (get-delete_for_probe st probe k h).0) unnamed),
        map_agree _ _ _ (
            unless_named named _ (embeddings st) _ (λ k. (get-delete_for_probe st probe k h).1)
              unnamed),
      )
