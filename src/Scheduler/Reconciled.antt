-- ===== src/Scheduler/Reconciled.antt =====
-- `reconcile` of crates/daemon/src/scheduler.rs against the probes of the store.
use modelsentry.Base.{
  ◌≡◌, refl, sym, ap, ◌∙◌, Bool, false, List, [], ◌∷◌, foldl, All, Option, none, some, arith,
  if◌then◌else◌, ◌==◌, ==_iff, Bool-cases, inl, inr,
}
use modelsentry.Base.Int.{eqb_ℤ, eqb_ℤ_iff}
use modelsentry.Base.Assoc.{Assoc, get, remove, get-insert, get-remove}
use modelsentry.Common.Models.{Uuid, uuid_keys, Probe}
use modelsentry.Common.Time.{Time}
use modelsentry.Scheduler.{
  ActiveProbe, Loops, is_current_id, retain, stop_deleted, schedule_probe, visit, reconcile,
}

abbrev updated : Option ActiveProbe → Option Time
updated none = none
updated (some ap) = some ap.updated_at

-- The version of a probe that its loop runs.
abbrev pub running_version : Loops → Uuid → Option Time
running_version st id = updated (get uuid_keys st.active id)

-- The store keys probes by their identifier.
abbrev pub UniqueIds : List Probe → Type 0
UniqueIds [] = Unit
UniqueIds (p ∷ ps) = (is_current_id ps p.id ≡ false) × UniqueIds ps

get-retain :
    (probes : List Probe) (m : Assoc Uuid ActiveProbe) (k : Uuid)
    → get uuid_keys (retain probes m) k
      ≡ (if is_current_id probes k then get uuid_keys m k else none)
get-retain probes [] k = ground arith
get-retain probes ((id, entry) ∷ m) k = elim (Bool-cases (id == k)) [
  | inl e ↦
      let same : is_current_id probes id ≡ is_current_id probes k =
        ap (is_current_id probes) ((==_iff id k).0 e) in
      rw (← same) (ground (arith, get-retain probes m k, same))
  | inr e ↦ ground (arith, get-retain probes m k)
]

module _ (delete_works : Uuid → Bool) where
  schedule-version :
      (st : Loops) (p : Probe) (k : Uuid) (found : Option ActiveProbe)
      → get uuid_keys st.active p.id ≡ found
      → running_version (schedule_probe delete_works p found st) k
        ≡ (if p.id == k then some p.updated_at else running_version st k)
  schedule-version st p k none h = rw (get-insert uuid_keys st.active p.id k) (ground arith)
  schedule-version st p k (some old) h = elim (Bool-cases (eqb_ℤ old.updated_at p.updated_at)) [
    | inl e ↦ rw e (elim (Bool-cases (p.id == k)) [
      | inl at_key ↦ rw at_key (
          ap (λ j. updated (get uuid_keys st.active j)) (sym ((==_iff p.id k).0 at_key))
          ∙ ap updated h
          ∙ ap some ((eqb_ℤ_iff old.updated_at p.updated_at).0 e))
      | inr other ↦ rw other refl
    ])
    | inr e ↦
        rw
          (
            e,
            get-insert uuid_keys (remove uuid_keys st.active p.id) p.id k,
            get-remove uuid_keys st.active p.id k,
          )
          (ground arith)
  ]

  visit-version :
      (st : Loops) (p : Probe) (k : Uuid)
      → running_version (visit delete_works st p) k
        ≡ (if p.id == k then some p.updated_at else running_version st k)
  visit-version st p k = schedule-version st p k (get uuid_keys st.active p.id) refl

  visits-absent :
      (ps : List Probe) (st : Loops) (k : Uuid)
      → is_current_id ps k ≡ false
      → running_version (foldl (visit delete_works) st ps) k ≡ running_version st k
  visits-absent [] st k h = refl
  visits-absent (p ∷ ps) st k h =
      visits-absent ps (visit delete_works st p) k (ground arith)
      ∙ visit-version st p k
      ∙ ground arith

  visits-present :
      (ps : List Probe) (st : Loops)
      → UniqueIds ps
      → All
          (λ (p : Probe).
            running_version (foldl (visit delete_works) st ps) p.id ≡ some p.updated_at)
          ps
  visits-present [] st h = tt
  visits-present (p ∷ ps) st h = (
    visits-absent ps (visit delete_works st p) p.id h.0
        ∙ visit-version st p p.id
        ∙ rw ((==_iff p.id p.id).1 refl) refl,
    visits-present ps (visit delete_works st p) h.1,
  )

  no_entry : (o : Option ActiveProbe) → updated o ≡ none → o ≡ none
  no_entry none h = refl
  no_entry (some ap) h = absurd (cc)

  -- After a reconciliation every probe of the store has a loop that runs its current version, and no
  -- probe that is not in the store has a loop.
  pub reconcile_tracks :
      (probes : List Probe) (st : Loops) (gone : Uuid)
      → UniqueIds probes
      → is_current_id probes gone ≡ false
      → All
          (λ (p : Probe).
            running_version (reconcile delete_works (some probes) st) p.id ≡ some p.updated_at)
          probes
        × (get uuid_keys (reconcile delete_works (some probes) st).active gone ≡ none)
  unfolding reconcile
  reconcile_tracks probes st gone unique absent = (
    visits-present probes (stop_deleted probes st) unique,
    no_entry _ (
        visits-absent probes (stop_deleted probes st) gone absent
        ∙ rw (get-retain probes st.active gone, absent) refl),
  )
