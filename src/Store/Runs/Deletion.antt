-- ===== src/Store/Runs/Deletion.antt =====
-- What the deletion of the runs of a probe leaves (crates/store/src/run_store.rs).
use mathlib.Core.Path.{subst}
use modelsentry.Base.{
  ℕ, ◌<◌, ◌≡◌, refl, sym, ap, ◌∙◌, Bool, true, false, not, ◌||◌, List, [], ◌∷◌, length, All, filter,
  foldl, arith, ◌==◌, ltb, Bool-cases, inl, inr,
}
use modelsentry.Common.Models.{Uuid}
use modelsentry.Store.Runs.{
  IndexEntry, RunTables, key_below, from_prefix, same_entry, remove_key, block, remove_run,
  remove_runs, scan, list_for_probe, delete_for_probe,
}
use modelsentry.Store.Runs.Listing.{IsOrdered, later_probes}

abbrev pub belongs_to : Uuid → IndexEntry → Bool
belongs_to probe e = e.probe == probe

abbrev is_in : IndexEntry → List IndexEntry → Bool
is_in y [] = false
is_in y (t ∷ ts) = same_entry y t || is_in y ts

no_block :
    (probe : Uuid) (e : IndexEntry) (es : List IndexEntry)
    → probe < e.probe
    → All (λ y. key_below e y ≡ true) es
    → filter (belongs_to probe) es ≡ []
no_block probe e [] h k = refl
no_block probe e (y ∷ es) h k =
    let other : (y.probe == probe) ≡ false = ground (arith, k.0) in
    rw other (no_block probe e es h k.1)

block_lem :
    (probe : Uuid) (es : List IndexEntry)
    → All (λ y. ltb y.probe probe ≡ false) es
    → IsOrdered es
    → block probe es ≡ filter (belongs_to probe) es
block_lem probe [] low h = refl
block_lem probe (e ∷ es) low h = elim (Bool-cases (e.probe == probe)) [
  | inl u ↦ rw u (ap (λ r. e ∷ r) (block_lem probe es low.1 h.1))
  | inr u ↦ rw u (sym (no_block probe e es (ground (arith, low.0)) h.0))
]

-- In an ordered index the entries of a probe are one block.
pub block-from_prefix :
    (probe : Uuid) (es : List IndexEntry)
    → IsOrdered es
    → (block probe (from_prefix probe es) ≡ filter (belongs_to probe) es)
block-from_prefix probe [] h = refl
block-from_prefix probe (e ∷ es) h = elim (Bool-cases (ltb e.probe probe)) [
  | inl t ↦
      let other : (e.probe == probe) ≡ false = ground arith in
      rw (t, other) (block-from_prefix probe es h.1)
  | inr t ↦ rw t (block_lem probe (e ∷ es) (t, later_probes probe e es t h.0) h)
]

filter_all : (ks : List IndexEntry) → ks ≡ filter (λ y. true) ks
filter_all [] = refl
filter_all (k ∷ ks) = ap (λ r. k ∷ r) (filter_all ks)

filter-remove_key :
    (t : IndexEntry) (ts ks : List IndexEntry)
    → filter (λ y. not (is_in y ts)) (remove_key ks t) ≡ filter (λ y. not (is_in y (t ∷ ts))) ks
filter-remove_key t ts [] = refl
filter-remove_key t ts (k ∷ ks) = elim (Bool-cases (same_entry k t)) [
  | inl u ↦ rw u (filter-remove_key t ts ks)
  | inr u ↦ rw u (elim (Bool-cases (is_in k ts)) [
    | inl v ↦ rw v (filter-remove_key t ts ks)
    | inr v ↦ rw v (ap (λ r. k ∷ r) (filter-remove_key t ts ks))
  ])
]

foldl-remove_key :
    (ts ks : List IndexEntry) → foldl remove_key ks ts ≡ filter (λ y. not (is_in y ts)) ks
foldl-remove_key [] ks = filter_all ks
foldl-remove_key (t ∷ ts) ks = foldl-remove_key ts (remove_key ks t) ∙ filter-remove_key t ts ks

is_in_other :
    (probe : Uuid) (y : IndexEntry) (ks : List IndexEntry)
    → (y.probe == probe) ≡ false
    → is_in y (filter (belongs_to probe) ks) ≡ false
is_in_other probe y [] h = refl
is_in_other probe y (k ∷ ks) h = ground (arith, is_in_other probe y ks h)

is_in_more :
    (probe : Uuid) (k : IndexEntry) (ts es : List IndexEntry)
    → (k.probe == probe) ≡ true
    → All (λ y. is_in y ts ≡ (y.probe == probe)) es
    → All (λ y. is_in y (k ∷ ts) ≡ (y.probe == probe)) es
is_in_more probe k ts [] h a = tt
is_in_more probe k ts (y ∷ es) h a = (ground (arith, a.0), is_in_more probe k ts es h a.1)

is_in-filter :
    (probe : Uuid) (ks : List IndexEntry)
    → All (λ y. is_in y (filter (belongs_to probe) ks) ≡ (y.probe == probe)) ks
is_in-filter probe [] = tt
is_in-filter probe (k ∷ ks) = elim (Bool-cases (k.probe == probe)) [
  | inl u ↦
      let same : k ∷ filter (belongs_to probe) ks ≡ filter (belongs_to probe) (k ∷ ks) =
        rw u refl in
      subst (λ r. All (λ y. is_in y r ≡ (y.probe == probe)) (k ∷ ks)) same
        (ground arith, is_in_more probe k _ ks u (is_in-filter probe ks))
  | inr u ↦
      let same : filter (belongs_to probe) ks ≡ filter (belongs_to probe) (k ∷ ks) = rw u refl in
      subst (λ r. All (λ y. is_in y r ≡ (y.probe == probe)) (k ∷ ks)) same
        (is_in_other probe k ks u ∙ sym u, is_in-filter probe ks)
]

filter_agree :
    (probe : Uuid) (ts ks : List IndexEntry)
    → All (λ y. is_in y ts ≡ (y.probe == probe)) ks
    → filter (λ y. not (is_in y ts)) ks ≡ filter (λ y. not (belongs_to probe y)) ks
filter_agree probe ts [] a = refl
filter_agree probe ts (k ∷ ks) a = rw (a.0, filter_agree probe ts ks a.1) refl

module _ {F : Type 0} where
  foldl-remove_run :
      (st : RunTables F) (ts : List IndexEntry)
      → (foldl remove_run st ts).index ≡ foldl remove_key st.index ts
  foldl-remove_run st [] = refl
  foldl-remove_run st (t ∷ ts) = foldl-remove_run (remove_run st t) ts

  pub remove_runs_lem :
      (st : RunTables F) (ts : List IndexEntry)
      → remove_runs st ts ≡ (length ts, foldl remove_run st ts)
  remove_runs_lem st [] = refl
  remove_runs_lem st (t ∷ ts) =
      let some_left : (length (t ∷ ts) == 0) ≡ false = ground arith in rw some_left refl

  scan_skips :
      (st : RunTables F) (probe : Uuid) (limit : ℕ) (es : List IndexEntry)
      → scan st.runs probe limit [] (from_prefix probe (filter (λ y. not (belongs_to probe y)) es))
        ≡ []
  scan_skips st probe limit [] = refl
  scan_skips st probe limit (e ∷ es) = elim (Bool-cases (e.probe == probe)) [
    | inl t ↦ rw t (scan_skips st probe limit es)
    | inr t ↦ rw t (elim (Bool-cases (ltb e.probe probe)) [
      | inl u ↦ rw u (scan_skips st probe limit es)
      | inr u ↦ rw (u, t) refl
    ])
  ]

  -- From an ordered index the deletion removes exactly the entries of the probe, returns how many
  -- there were, and leaves the probe no run to list.
  pub delete_for_probe_lem :
      (st : RunTables F) (probe : Uuid) (limit : ℕ)
      → IsOrdered st.index
      → ((delete_for_probe st probe).0 ≡ length (filter (belongs_to probe) st.index))
        × ((delete_for_probe st probe).1.index ≡ filter (λ y. not (belongs_to probe y)) st.index)
        × (list_for_probe (delete_for_probe st probe).1 probe limit ≡ [])
  unfolding delete_for_probe list_for_probe
  delete_for_probe_lem st probe limit h =
      let ts = block probe (from_prefix probe st.index) in
      let own : ts ≡ filter (belongs_to probe) st.index = block-from_prefix probe st.index h in
      let left : (remove_runs st ts).1.index ≡ filter (λ y. not (belongs_to probe y)) st.index =
        ap (λ r. r.1.index) (remove_runs_lem st ts)
        ∙ foldl-remove_run st ts
        ∙ foldl-remove_key ts st.index
        ∙ rw own (filter_agree probe _ st.index (is_in-filter probe st.index)) in
      (
        ap (λ r. r.0) (remove_runs_lem st ts) ∙ ap length own,
        left,
        rw left (scan_skips (remove_runs st ts).1 probe limit st.index),
      )
