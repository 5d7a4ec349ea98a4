-- ===== src/Runner/Status.antt =====
-- What a run of crates/core/src/probe_runner.rs promises: its shape, and a status that its own
-- vectors explain.
use mathlib.Core.Path.{subst}
use modelsentry.Base.{
  ℕ, suc, ◌≡◌, refl, ap, ◌∙◌, ◌↔◌, ◌<◌, ◌≤◌, Bool, true, false, not, List, [], ◌∷◌, map, length,
  length-map, foldl, count_if, count_if-le, zip_with, any, all, arith,
}
use modelsentry.Common.Error.{Result, ok}
use modelsentry.Common.Models.{Uuid, Probe, ProbeRun, success, failed}
use modelsentry.Common.Time.{Time}
use modelsentry.Runner.{
  Calls, Sampled, nothing_collected, collect, classify_status, run, outcomes_from, at_least_one,
  probe_run,
}
use modelsentry.Runner.Outcomes.{
  is_usable, embeddings_of, completion_of, fold-embeddings, fold-completions, fold-failures,
  failures-told, outcomes_from-IsTold, length-outcomes_from,
}

abbrev pub itself : Bool → Bool
itself b = b

none_failed : (us : List Bool) → (count_if not us ≡ 0) ↔ (all itself us ≡ true)
none_failed [] = (λ h. refl, λ h. refl)
none_failed (true ∷ us) =
    (λ h. (none_failed us).0 (omega (arith, h)), λ h. omega (arith, (none_failed us).1 h))
none_failed (false ∷ us) = (λ h. absurd (omega (arith, h)), λ h. absurd (cc))

all_failed : (us : List Bool) → (length us ≤ count_if not us) ↔ (any itself us ≡ false)
all_failed [] = (λ h. refl, λ h. omega arith)
all_failed (true ∷ us) = (λ h. absurd (omega (arith, h, count_if-le not us)), λ h. absurd (cc))
all_failed (false ∷ us) =
    (λ h. (all_failed us).0 (omega (arith, h)), λ h. omega (arith, (all_failed us).1 h))

success_iff :
    (us : List Bool)
    → (classify_status (count_if not us) (length us) ≡ success) ↔ (all itself us ≡ true)
success_iff us = ground (arith, none_failed us)

failed_iff :
    (us : List Bool)
    → (classify_status (count_if not us) (length us) ≡ failed)
      ↔ ((0 < length us) × (any itself us ≡ false))
failed_iff us = ground (arith, all_failed us, none_failed us, count_if-le not us)

-- The prompts of a run that left an embedding and a completion.
abbrev pub usable_prompts : {F : Type 0} → ProbeRun F → List Bool
usable_prompts r = zip_with is_usable r.embeddings r.completions

module _ {F : Type 0} (calls : Calls F) (run_id : Uuid) (probe : Probe) (samples : ℕ)
    (started_at finished_at : Time) where
  abbrev outcomes : List (Result (Sampled F))
  outcomes = outcomes_from calls (at_least_one samples) 0 probe.prompts

  abbrev made : ProbeRun F
  made =
      probe_run calls run_id probe started_at finished_at (length outcomes)
        (foldl collect nothing_collected outcomes)

  ran : (r : ProbeRun F) → run calls run_id probe samples started_at finished_at ≡ ok r → made ≡ r
  unfolding run
  ran r e = cc

  length-prompts : length outcomes ≡ length probe.prompts
  length-prompts = length-outcomes_from calls (at_least_one samples) 0 probe.prompts

  -- A run has one list of sample embeddings and one completion for each prompt of the probe.
  pub run_shape :
      (r : ProbeRun F)
      → run calls run_id probe samples started_at finished_at ≡ ok r
      → (length r.embeddings ≡ length probe.prompts) × (length r.completions ≡ length probe.prompts)
  run_shape r e =
      subst
        (λ (x : ProbeRun F).
          (length x.embeddings ≡ length probe.prompts)
          × (length x.completions ≡ length probe.prompts))
        (ran r e)
        (
          ap length (fold-embeddings outcomes nothing_collected)
              ∙ length-map outcomes embeddings_of
              ∙ length-prompts,
          ap length (fold-completions outcomes nothing_collected)
              ∙ length-map outcomes completion_of
              ∙ length-prompts,
        )

  length-usable :
      (os : List (Result (Sampled F)))
      → length (zip_with is_usable (map embeddings_of os) (map completion_of os)) ≡ length os
  length-usable [] = refl
  length-usable (o ∷ os) = ap suc (length-usable os)

  abbrev left : List Bool
  left = zip_with is_usable (map embeddings_of outcomes) (map completion_of outcomes)

  made-usable : usable_prompts made ≡ left
  made-usable =
      rw (fold-embeddings outcomes nothing_collected, fold-completions outcomes nothing_collected)
        refl

  made-status : made.status ≡ classify_status (count_if not left) (length left)
  made-status =
      let failures : (foldl collect nothing_collected outcomes).failure_count ≡ count_if not left =
        fold-failures outcomes nothing_collected
        ∙ omega (
          arith,
          failures-told outcomes
              (outcomes_from-IsTold calls (at_least_one samples) 0 probe.prompts),
        ) in
      rw (failures, length-usable outcomes) refl

  abbrev pub IsExplained : ProbeRun F → Type 0
  IsExplained r =
      ((r.status ≡ success) ↔ (all itself (usable_prompts r) ≡ true))
      × ((r.status ≡ failed)
          ↔ ((0 < length probe.prompts) × (any itself (usable_prompts r) ≡ false)))

  made-IsExplained : IsExplained made
  made-IsExplained =
      rw (made-usable, made-status, ← length-prompts, ← length-usable outcomes)
        (success_iff left, failed_iff left)

  -- The status is success exactly when every prompt left an embedding and a completion that is not
  -- empty, and failed exactly when there are prompts and none did.
  pub run-IsExplained :
      (r : ProbeRun F)
      → run calls run_id probe samples started_at finished_at ≡ ok r
      → IsExplained r
  run-IsExplained r e = subst IsExplained (ran r e) made-IsExplained
