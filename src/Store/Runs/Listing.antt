-- ===== src/Store/Runs/Listing.antt =====
-- What an insertion keeps and a listing returns (crates/store/src/run_store.rs).
use mathlib.Core.List.{append_assoc, append-nil}
use modelsentry.Base.{
  ℕ, zero, suc, ◌+◌, ◌≤◌, ◌<◌, ◌≡◌, refl, sym, ap, ◌∙◌, true, false, List, [], ◌∷◌, ◌++◌, length,
  length-append, All, some, arith, ◌==◌, ==_iff, ltb, leb, if◌then◌else◌, Bool-cases, Option-cases,
  inl, inr,
}
use modelsentry.Base.Assoc.{Assoc, get-insert}
use modelsentry.Base.Assoc
use modelsentry.Common.Models.{Uuid, uuid_keys, ProbeRun}
use modelsentry.Store.Runs.{
  IndexEntry, RunTables, key_below, put_key, from_prefix, insert, get, embeddings, push_found, scan,
  list_for_probe,
}

-- The keys ascend strictly: by probe, then from the newest run to the oldest.
abbrev pub IsOrdered : List IndexEntry → Type 0
IsOrdered [] = Unit
IsOrdered (x ∷ xs) = All (λ y. key_below x y ≡ true) xs × IsOrdered xs

below_trans :
    (x y z : IndexEntry) → key_below x y ≡ true → key_below y z ≡ true → key_below x z ≡ true
below_trans x y z h k = ground arith

all_below :
    (x e : IndexEntry) (xs : List IndexEntry)
    → key_below x e ≡ true
    → All (λ y. key_below e y ≡ true) xs
    → All (λ y. key_below x y ≡ true) xs
all_below x e [] h k = tt
all_below x e (y ∷ xs) h k = (below_trans x e y h k.0, all_below x e xs h k.1)

all_put :
    (x e : IndexEntry) (xs : List IndexEntry)
    → key_below x e ≡ true
    → All (λ y. key_below x y ≡ true) xs
    → All (λ y. key_below x y ≡ true) (put_key xs e)
all_put x e [] h k = (h, tt)
all_put x e (y ∷ xs) h k = elim (Bool-cases (key_below e y)) [
  | inl t ↦ rw t (h, k)
  | inr t ↦ rw t (elim (Bool-cases (key_below y e)) [
    | inl u ↦ rw u (k.0, all_put x e xs h k.1)
    | inr u ↦ rw u (h, k.1)
  ])
]

-- Neither below the other: the same key.
same_key : (x e : IndexEntry) → key_below e x ≡ false → key_below x e ≡ false → x ≡ e
same_key x e h k =
    let p : x.probe ≡ e.probe = ground arith in
    let q : x.rev ≡ e.rev = ground arith in
    let r : x.run ≡ e.run = ground arith in λ i. record { probe = p i; rev = q i; run = r i }

put_key-IsOrdered :
    (xs : List IndexEntry) (e : IndexEntry) → IsOrdered xs → IsOrdered (put_key xs e)
put_key-IsOrdered [] e h = (tt, tt)
put_key-IsOrdered (x ∷ xs) e h = elim (Bool-cases (key_below e x)) [
  | inl t ↦ rw t ((t, all_below e x xs t h.0), h)
  | inr t ↦ rw t (elim (Bool-cases (key_below x e)) [
    | inl u ↦ rw u (all_put x e xs u h.0, put_key-IsOrdered xs e h.1)
    | inr u ↦ rw (u, ← same_key x e t u) (h.0, h.1)
  ])
]

pub later_probes :
    (probe : Uuid) (e : IndexEntry) (es : List IndexEntry)
    → ltb e.probe probe ≡ false
    → All (λ y. key_below e y ≡ true) es
    → All (λ y. ltb y.probe probe ≡ false) es
later_probes probe e [] h k = tt
later_probes probe e (y ∷ es) h k = (ground (arith, k.0), later_probes probe e es h k.1)

module _ {F : Type 0} where
  -- An inserted run is found again: its metadata without embeddings, and its embeddings. The index
  -- stays in order.
  pub insert_lem :
      (st : RunTables F) (run : ProbeRun F)
      → IsOrdered st.index
      → (get (insert st run) run.id ≡ some (record run { embeddings = [] }))
        × (embeddings (insert st run) run.id ≡ some run.embeddings)
        × IsOrdered (insert st run).index
  unfolding insert get embeddings
  insert_lem st run h = (
    get-insert uuid_keys st.runs run.id run.id _ ∙ rw ((==_iff run.id run.id).1 refl) refl,
    get-insert uuid_keys st.vectors run.id run.id _ ∙ rw ((==_iff run.id run.id).1 refl) refl,
    put_key-IsOrdered st.index _ h,
  )

  -- The runs that the entries of the probe lead to, in the order of the index.
  abbrev pub runs_of : Assoc Uuid (ProbeRun F) → Uuid → List IndexEntry → List (ProbeRun F)
  runs_of runs probe [] = []
  runs_of runs probe (e ∷ es) =
      let rest = runs_of runs probe es in
      if e.probe == probe then push_found [] (Assoc.get uuid_keys runs e.run) ++ rest else rest

  abbrev pub take_first : ℕ → List (ProbeRun F) → List (ProbeRun F)
  take_first zero rs = []
  take_first (suc n) [] = []
  take_first (suc n) (r ∷ rs) = r ∷ take_first n rs

  none_later :
      (runs : Assoc Uuid (ProbeRun F)) (probe : Uuid) (e : IndexEntry) (es : List IndexEntry)
      → probe < e.probe
      → All (λ y. key_below e y ≡ true) es
      → runs_of runs probe es ≡ []
  none_later runs probe e [] h k = refl
  none_later runs probe e (y ∷ es) h k =
      let other : (y.probe == probe) ≡ false = ground (arith, k.0) in
      rw other (none_later runs probe e es h k.1)

  -- A found run is pushed, and the limit tested after it.
  scan_found :
      (runs : Assoc Uuid (ProbeRun F)) (probe : Uuid) (limit m : ℕ) (out : List (ProbeRun F))
      (r : ProbeRun F) (es : List IndexEntry)
      → length out + suc m ≡ limit
      → ((n : ℕ)
          → length (out ++ r ∷ []) + suc n ≡ limit
          → scan runs probe limit (out ++ r ∷ []) es
            ≡ (out ++ r ∷ []) ++ take_first (suc n) (runs_of runs probe es))
      → (if leb limit (length (out ++ r ∷ []))
          then out ++ r ∷ []
          else scan runs probe limit (out ++ r ∷ []) es)
        ≡ out ++ r ∷ take_first m (runs_of runs probe es)
  scan_found runs probe limit zero out r es room next =
      let full : leb limit (length (out ++ r ∷ [])) ≡ true =
        rw (length-append out (r ∷ [])) (ground arith) in
      rw full refl
  scan_found runs probe limit (suc n) out r es room next =
      let len : length (out ++ r ∷ []) ≡ length out + 1 = length-append out (r ∷ []) in
      let open' : leb limit (length (out ++ r ∷ [])) ≡ false = ground arith in
      rw open' (next n (omega arith) ∙ append_assoc out (r ∷ []) _)

  -- What a scan adds to the runs it has, with room for more than none.
  scan-runs_of :
      (runs : Assoc Uuid (ProbeRun F)) (probe : Uuid) (limit m : ℕ) (out : List (ProbeRun F))
      (es : List IndexEntry)
      → length out + suc m ≡ limit
      → All (λ y. ltb y.probe probe ≡ false) es
      → IsOrdered es
      → scan runs probe limit out es ≡ out ++ take_first (suc m) (runs_of runs probe es)
  scan-runs_of runs probe limit m out [] room low h = sym (append-nil out)
  scan-runs_of runs probe limit m out (e ∷ es) room low h = elim (Bool-cases (e.probe == probe)) [
    | inr t ↦
        let later : probe < e.probe = ground (arith, low.0) in
        rw (t, none_later runs probe e es later h.0) (sym (append-nil out))
    | inl t ↦ elim (Option-cases (Assoc.get uuid_keys runs e.run)) [
      | inl g ↦
          let more : leb limit (length out) ≡ false = ground arith in
          rw (t, g, more) (scan-runs_of runs probe limit m out es room low.1 h.1)
      | inr (r, g) ↦
          rw (t, g)
            (scan_found runs probe limit m out r es room
              (λ n room'. scan-runs_of runs probe limit n (out ++ r ∷ []) es room' low.1 h.1))
    ]
  ]

  from_prefix_lem :
      (runs : Assoc Uuid (ProbeRun F)) (probe : Uuid) (es : List IndexEntry)
      → IsOrdered es
      → All (λ y. ltb y.probe probe ≡ false) (from_prefix probe es)
        × IsOrdered (from_prefix probe es)
        × (runs_of runs probe (from_prefix probe es) ≡ runs_of runs probe es)
  from_prefix_lem runs probe [] h = (tt, tt, refl)
  from_prefix_lem runs probe (e ∷ es) h = elim (Bool-cases (ltb e.probe probe)) [
    | inl t ↦
        let other : (e.probe == probe) ≡ false = ground arith in
        rw (t, other) (from_prefix_lem runs probe es h.1)
    | inr t ↦ rw t ((t, later_probes probe e es t h.0), h, refl)
  ]

  -- A listing returns the first `limit` found runs of the probe, from the newest on, when the limit
  -- is positive and the index in order.
  pub list_for_probe-take_first :
      (st : RunTables F) (probe : Uuid) (limit : ℕ)
      → 1 ≤ limit
      → IsOrdered st.index
      → list_for_probe st probe limit ≡ take_first limit (runs_of st.runs probe st.index)
  unfolding list_for_probe
  list_for_probe-take_first st probe zero p h = elim p [ ]
  list_for_probe-take_first st probe (suc m) p h =
      let q = from_prefix_lem st.runs probe st.index h in
      scan-runs_of st.runs probe (suc m) m [] _ (omega arith) q.0 q.1 ∙ ap (take_first (suc m)) q.2
