-- ===== src/Baselines.antt =====
-- The capture of a baseline (crates/daemon/src/routes/baselines.rs). `runs` is what the store lists
-- for the probe, newest first, and `embeddings` what it holds for a run.
pub mod Clouds
pub mod Current
use modelsentry.Base.{
  ℕ, Bool, not, List, [], ◌∷◌, ◌++◌, any, filter, find, first, foldl, is_empty, length, replicate,
  Option, none, some, String, ◌==◌, ltb, if◌then◌else◌,
}
use modelsentry.Common.Error.{ModelSentryError, Result, ok, err, ◌>>=◌, ok_or, says}
use modelsentry.Common.Models.{
  Uuid, ProbeRun, BaselineSnapshot, baseline_schema_version, dim_of, is_nonempty,
}
use modelsentry.Common.Time.{Time}

-- The embeddings of a run, by prompt and sample.
abbrev pub RunVectors : Type 0 → Type 0
RunVectors F = Uuid × List (List (List F))

module _ {F : Type 0} where
  abbrev pub or_default : Option (List (List (List F))) → List (List (List F))
  or_default none = []
  or_default (some e) = e

  abbrev pub has_vector : List (List (List F)) → Bool
  has_vector e = any (λ samples. any is_nonempty samples) e

  -- The runs that left an embedding.
  abbrev pub usable_runs :
      (Uuid → Option (List (List (List F)))) → List (ProbeRun F) → List (RunVectors F)
  usable_runs embeddings [] = []
  usable_runs embeddings (run ∷ runs) =
      let rest = usable_runs embeddings runs in
      let e = or_default (embeddings run.id) in if has_vector e then (run.id, e) ∷ rest else rest

  abbrev pub same_dim : ℕ → List (RunVectors F) → List (RunVectors F)
  same_dim dim usable = filter (λ u. dim_of u.1 == dim) usable

  abbrev pub max_prompts : List (RunVectors F) → ℕ
  max_prompts [] = 0
  max_prompts (u ∷ us) =
      let rest = max_prompts us in if ltb rest (length u.1) then length u.1 else rest

  -- `zip` over the clouds and the samples of one run: clouds past its prompts stay.
  abbrev pub add_run : List (List (List F)) → List (List (List F)) → List (List (List F))
  add_run [] e = []
  add_run (cloud ∷ clouds) [] = cloud ∷ clouds
  add_run (cloud ∷ clouds) (samples ∷ e) = (cloud ++ filter is_nonempty samples) ∷ add_run clouds e

  unfoldable pub clouds_of : List (RunVectors F) → List (List (List F))
  clouds_of usable =
      foldl (λ clouds (u : RunVectors F). add_run clouds u.1) (replicate (max_prompts usable) [])
        usable

  abbrev pub version_of : Option (ProbeRun F) → Option String
  version_of none = none
  version_of (some run) = run.model_version

  -- The snapshot, for the usable runs of which the newest comes first.
  abbrev pub snapshot :
      Uuid
      → Uuid
      → String
      → Time
      → List (ProbeRun F)
      → Uuid
      → List (RunVectors F)
      → BaselineSnapshot F
  snapshot id probe_id embedding_model now runs newest_id kept = record {
    id = id;
    probe_id = probe_id;
    captured_at = now;
    schema_version = baseline_schema_version;
    embedding_model = embedding_model;
    model_version = version_of (find (λ (run : ProbeRun F). run.id == newest_id) runs);
    prompt_clouds = clouds_of kept;
    n_runs = length kept;
    run_id = newest_id;
  }

  unfoldable pub capture_baseline :
      Uuid
      → Uuid
      → String
      → Time
      → List (ProbeRun F)
      → (Uuid → Option (List (List (List F))))
      → Result (BaselineSnapshot F)
  capture_baseline id probe_id embedding_model now runs embeddings = do
    let usable = usable_runs embeddings runs
    newest ← ok_or (first usable) (
        ModelSentryError.config
          (says "no runs with embeddings found for probe — run the probe first"))
    ok (snapshot id probe_id embedding_model now runs newest.0 (same_dim (dim_of newest.1) usable))
