-- ===== src/Routes/Baselines/Captured.antt =====
-- What a captured baseline is and where it is found (crates/daemon/src/routes/baselines.rs).
use modelsentry.Store.Runs
use mathlib.Core.Option.{Option}
use mathlib.Core.List.{Memᴰ, Permᴰ, List}
use mathlib.Core.List.Memᴰ
use mathlib.Core.List.Permᴰ
use modelsentry.Base.{
  ◌∷◌, [], refl, inl, inr, true, none, some, All, ◌≡◌, ltb, ◌==◌, ==_iff, Option-cases, ◌∙◌, String,
  ℕ,
}
use modelsentry.Base.Assoc.{get, Assoc}
use modelsentry.Store.Snapshots
use modelsentry.Store.Snapshots.Latest.{get_latest_for_probe-IsLatestOf}
use modelsentry.Routes.Baselines.{
  capture_and_insert, insert_captured, get_latest_baseline, read_all, Uuid, BaselineSnapshot,
  CaptureFaults, Time, RunTables, parse_probe_id, store_call,
}
use mathlib.Core.Path.{subst, sym, ap}
use modelsentry.Common.Models.{uuid_keys, is_current}
use modelsentry.Base.Int.{ltb_ℤ}
use modelsentry.Base.Table.Rows.{filter-put-new}
use modelsentry.Common.Error.{ok, err, ModelSentryError, Result, >>=-eq-ok, ok_or-ok}
use modelsentry.Baselines.Current.{capture_baseline-given, capture_baseline-current}

All-Memᴰ {ℓ} : {A : Type ℓ} (P : A → Type 0) (xs : List A) (x : A) → All P xs → Memᴰ x xs → P x
All-Memᴰ P [] x h m = absurd (Memᴰ.not-nil m)
All-Memᴰ P (y ∷ ys) x h m = elim (Memᴰ.cases_cons m) [
  | inl e ↦ subst P (sym e) h.0
  | inr later ↦ All-Memᴰ P ys x h.1 later
]

Permᴰ-Memᴰ {ℓ} : {A : Type ℓ} {xs ys : List A} (x : A) → Permᴰ xs ys → Memᴰ x xs → Memᴰ x ys
Permᴰ-Memᴰ x Permᴰ.nil m = m
Permᴰ-Memᴰ x (Permᴰ.cons e d) m = elim (Memᴰ.cases_cons m) [
  | inl here ↦ Memᴰ.head (here ∙ e)
  | inr there ↦ Memᴰ.tail (Permᴰ-Memᴰ x d there)
]
Permᴰ-Memᴰ x (Permᴰ.swap e₁ e₂) m = elim (Memᴰ.cases_cons m) [
  | inl here ↦ Memᴰ.tail (Memᴰ.head (here ∙ e₁))
  | inr there ↦ elim (Memᴰ.cases_cons there) [
    | inl here ↦ Memᴰ.head (here ∙ e₂)
    | inr rest ↦ Memᴰ.tail (Memᴰ.tail rest)
  ]
]
Permᴰ-Memᴰ x (Permᴰ.trans d₁ d₂) m = Permᴰ-Memᴰ x d₂ (Permᴰ-Memᴰ x d₁ m)

module _ {F : Type 0} where
  -- A new snapshot that was taken later than all others of its probe is the latest.
  pub latest_inserted :
      (table : Assoc Uuid (BaselineSnapshot F)) (b : BaselineSnapshot F)
      → get uuid_keys table b.id ≡ none
      → All
          (λ (x : BaselineSnapshot F). ltb_ℤ x.captured_at b.captured_at ≡ true)
          (Snapshots.list_for_probe table b.probe_id)
      → Snapshots.get_latest_for_probe (Snapshots.insert table b) b.probe_id ≡ some b
  unfolding Snapshots.list_for_probe Snapshots.insert
  latest_inserted table b new older =
      let own : (b.probe_id == b.probe_id) ≡ true = (==_iff b.probe_id b.probe_id).1 refl in
      let perm =
        filter-put-new uuid_keys ltb (λ (x : BaselineSnapshot F). x.probe_id == b.probe_id) table
          b.id b new own in
      let here = Permᴰ-Memᴰ b (Permᴰ.symm perm) (Memᴰ.head refl) in
      let latest = get_latest_for_probe-IsLatestOf (Snapshots.insert table b) b.probe_id in
      elim (Option-cases (Snapshots.get_latest_for_probe (Snapshots.insert table b) b.probe_id)) [
        | inl n ↦ absurd (Memᴰ.not-nil (subst (λ l. Memᴰ b l) (rw n at latest) here))
        | inr (x, s) ↦
            let (none_later, (front, back, at)) = rw s at latest in
            let there =
              Permᴰ-Memᴰ x perm
                (subst (λ l. Memᴰ x l) (sym at) (Memᴰ.append_right front (Memᴰ.head refl))) in
            elim (Memᴰ.cases_cons there) [
              | inl e ↦ s ∙ ap some e
              | inr old ↦
                  let before = All-Memᴰ _ _ x older old in
                  let after = All-Memᴰ _ _ b none_later here in absurd (cc (before, after))
            ]
      ]

module _ (parse_uuid : String → Option Uuid) {F : Type 0} where
  inserted :
      (fault : Option ModelSentryError) (table : Assoc Uuid (BaselineSnapshot F))
      (made : Result (BaselineSnapshot F)) (b : BaselineSnapshot F)
      → (insert_captured parse_uuid fault table made).1 ≡ ok b
      → (made ≡ ok b) × ((insert_captured parse_uuid fault table made).0 ≡ Snapshots.insert table b)
  inserted fault table (err e) b h = absurd (cc)
  inserted none table (ok a) b h = let same : a ≡ b = cc in (h, ap (Snapshots.insert table) same)
  inserted (some e) table (ok a) b h = absurd (cc)

  -- A capture that is answered with a baseline made one of the current schema with a cloud that is not
  -- empty (`is_current`), of the probe in the path; and where the identifier is new and every baseline
  -- of the probe is older, the latest baseline of that probe is from then on the captured one.
  pub capture_and_insert_latest :
      (faults : CaptureFaults) (id : String) (probe_id : Uuid) (capture_runs : ℕ)
      (embedding_model : String) (baseline_id : Uuid) (now : Time) (st : RunTables F)
      (table : Assoc Uuid (BaselineSnapshot F)) (b : BaselineSnapshot F)
      → parse_uuid id ≡ some probe_id
      → get uuid_keys table baseline_id ≡ none
      → All
          (λ (x : BaselineSnapshot F). ltb_ℤ x.captured_at now ≡ true)
          (Snapshots.list_for_probe table probe_id)
      → (capture_and_insert parse_uuid faults id capture_runs embedding_model baseline_id now st
          table).1
        ≡ ok b
      → (is_current b ≡ true)
        × (b.probe_id ≡ probe_id)
        × (get_latest_baseline parse_uuid none id
              (capture_and_insert parse_uuid faults id capture_runs embedding_model baseline_id now
                st table).0
            ≡ ok b)
  unfolding capture_and_insert get_latest_baseline
  capture_and_insert_latest faults id probe_id capture_runs model baseline_id now st table b p new
        older h =
      let (made, left) = inserted faults.insert table _ b h in
      let (q, e₁, h₁) = >>=-eq-ok (parse_probe_id parse_uuid id) _ made in
      let (runs, e₂, h₂) =
        >>=-eq-ok (store_call faults.list_runs (Runs.list_for_probe st q capture_runs)) _ h₁ in
      let (u, e₃, h₃) = >>=-eq-ok (read_all parse_uuid faults.embeddings runs) _ h₂ in
      let own : q ≡ probe_id = cc (ok_or-ok (parse_uuid id) _ e₁, p) in
      let (same_id, same_probe, same_time) =
        capture_baseline-given baseline_id q model now runs (Runs.embeddings st) b h₃ in
      let of_probe = same_probe ∙ own in
      let found =
        latest_inserted table b (ap (get uuid_keys table) same_id ∙ new)
          (rw (of_probe, same_time) older) in
      (
        (capture_baseline-current baseline_id q model now runs (Runs.embeddings st) b h₃).0,
        of_probe,
        rw left (rw p (rw (← of_probe, found) refl)),
      )
