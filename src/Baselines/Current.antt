-- ===== src/Baselines/Current.antt =====
-- A captured baseline has the current schema and a cloud that is not empty
-- (crates/daemon/src/routes/baselines.rs, crates/common/src/models.rs).
use mathlib.Core.Path.{subst}
use modelsentry.Base.{
  sym, ==_iff, ℕ, zero, suc, ◌≤◌, ◌≡◌, refl, ap, Bool, true, false, not, List, [], ◌∷◌, ◌++◌, any,
  filter, first, foldl, is_empty, length, replicate, Option, some, String, arith, Bool-cases, inl,
  inr,
}
use modelsentry.Common.Error.{ok_or-ok, ok_or, >>=-eq-ok, ok}
use modelsentry.Common.Models.{dim_of, Uuid, ProbeRun, BaselineSnapshot, is_current, is_nonempty}
use modelsentry.Common.Time.{Time}
use modelsentry.Baselines.{
  same_dim, snapshot, RunVectors, has_vector, usable_runs, or_default, max_prompts, add_run,
  clouds_of, capture_baseline,
}

module _ {F : Type 0} where
  abbrev some_cloud : List (List (List F)) → Bool
  some_cloud clouds = any (λ c. not (is_empty c)) clouds

  appended :
      (cloud more : List (List F)) → is_empty cloud ≡ false → is_empty (cloud ++ more) ≡ false
  appended [] more h = absurd (cc)
  appended (v ∷ cloud) more h = refl

  kept_cloud :
      (clouds e : List (List (List F)))
      → some_cloud clouds ≡ true
      → some_cloud (add_run clouds e) ≡ true
  kept_cloud [] e h = absurd (cc)
  kept_cloud (c ∷ clouds) [] h = h
  kept_cloud (c ∷ clouds) (s ∷ e) h =
      ground (arith, appended c (filter is_nonempty s), kept_cloud clouds e)

  kept_clouds :
      (us : List (RunVectors F)) (clouds : List (List (List F)))
      → some_cloud clouds ≡ true
      → some_cloud (foldl (λ cs (u : RunVectors F). add_run cs u.1) clouds us) ≡ true
  kept_clouds [] clouds h = h
  kept_clouds (u ∷ us) clouds h = kept_clouds us (add_run clouds u.1) (kept_cloud clouds u.1 h)

  some_kept :
      (samples : List (List F))
      → any is_nonempty samples ≡ true
      → is_empty (filter is_nonempty samples) ≡ false
  some_kept [] h = absurd (cc)
  some_kept (v ∷ samples) h = ground (arith, some_kept samples)

  first_clouds :
      (e : List (List (List F))) (n : ℕ)
      → length e ≤ n
      → has_vector e ≡ true
      → some_cloud (add_run (replicate n []) e) ≡ true
  first_clouds [] n h k = absurd (cc)
  first_clouds (s ∷ e) zero h k = absurd (omega arith)
  first_clouds (s ∷ e) (suc n) h k = ground (arith, some_kept s, first_clouds e n)

  clouds_of-some :
      (u : RunVectors F) (us : List (RunVectors F))
      → has_vector u.1 ≡ true
      → some_cloud (clouds_of (u ∷ us)) ≡ true
  unfolding clouds_of
  clouds_of-some u us h =
      kept_clouds us (add_run (replicate (max_prompts (u ∷ us)) []) u.1)
        (first_clouds u.1 (max_prompts (u ∷ us)) (ground arith) h)

  first_usable :
      (embeddings : Uuid → Option (List (List (List F)))) (runs : List (ProbeRun F))
      (u : RunVectors F)
      → first (usable_runs embeddings runs) ≡ some u
      → (rest : List (RunVectors F)) × (usable_runs embeddings runs ≡ u ∷ rest)
        × (has_vector u.1 ≡ true)
  first_usable embeddings [] u h = absurd (cc)
  first_usable embeddings (run ∷ runs) u h =
      elim (Bool-cases (has_vector (or_default (embeddings run.id)))) [
        | inl e ↦
            let same : (run.id, or_default (embeddings run.id)) ≡ u = cc (rw e at h) in
            (usable_runs embeddings runs, rw (e, ← same) refl, rw (← same) e)
        | inr e ↦ rw e (first_usable embeddings runs u (rw e at h))
      ]

  -- A captured baseline is current: it has the current schema and a cloud that is not empty, so the
  -- calculator does not refuse it as outdated; and it names the newest run with an embedding.
  pub capture_baseline-current :
      (id probe_id : Uuid) (embedding_model : String) (now : Time) (runs : List (ProbeRun F))
      (embeddings : Uuid → Option (List (List (List F)))) (b : BaselineSnapshot F)
      → capture_baseline id probe_id embedding_model now runs embeddings ≡ ok b
      → (is_current b ≡ true)
        × (u : RunVectors F) × (first (usable_runs embeddings runs) ≡ some u)
        × (b.run_id ≡ u.0)
  unfolding capture_baseline is_current
  capture_baseline-current id probe_id embedding_model now runs embeddings b h =
      let usable = usable_runs embeddings runs in
      let (u, e₁, e₂) = >>=-eq-ok (ok_or (first usable) _) _ h in
      let found : first usable ≡ some u = ok_or-ok (first usable) _ e₁ in
      let (rest, e₃, some_vector) = first_usable embeddings runs u found in
      let dim = dim_of u.1 in
      let kept : same_dim dim usable ≡ u ∷ same_dim dim rest =
        rw (e₃, (==_iff dim dim).1 refl) refl in
      let taken : snapshot id probe_id embedding_model now runs u.0 (same_dim dim usable) ≡ b =
        cc in
      let current : is_current
            (snapshot id probe_id embedding_model now runs u.0 (same_dim dim usable))
          ≡ true =
        rw kept (clouds_of-some u (same_dim dim rest) some_vector) in
      (
        subst (λ (x : BaselineSnapshot F). is_current x ≡ true) taken current,
        u,
        found,
        ap (λ (x : BaselineSnapshot F). x.run_id) (sym taken),
      )

  -- The fields that the request gives.
  pub capture_baseline-given :
      (id probe_id : Uuid) (embedding_model : String) (now : Time) (runs : List (ProbeRun F))
      (embeddings : Uuid → Option (List (List (List F)))) (b : BaselineSnapshot F)
      → capture_baseline id probe_id embedding_model now runs embeddings ≡ ok b
      → (b.id ≡ id) × (b.probe_id ≡ probe_id) × (b.captured_at ≡ now)
  unfolding capture_baseline
  capture_baseline-given id probe_id embedding_model now runs embeddings b h =
      let usable = usable_runs embeddings runs in
      let (u, e₁, e₂) = >>=-eq-ok (ok_or (first usable) _) _ h in
      let taken : snapshot id probe_id embedding_model now runs u.0 (same_dim (dim_of u.1) usable)
          ≡ b =
        cc e₂ in
      subst
        (λ (x : BaselineSnapshot F). (x.id ≡ id) × (x.probe_id ≡ probe_id) × (x.captured_at ≡ now))
        taken (refl, refl, refl)
