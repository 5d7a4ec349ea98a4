-- ===== src/Runner/Parts.antt =====
-- What both kinds of run (crates/core/src/probe_runner.rs) say of themselves.
use modelsentry.Base.{
  [], refl, arith, ◌≡◌, ℕ, List, length, ◌∷◌, ap, foldl, suc, ◌+◌, length-append,
}
use modelsentry.Common.Error.{ok, err, Result}
use modelsentry.Common.Models.{Uuid, Probe, ProbeRun, ProbePrompt}
use modelsentry.Runner.{
  Calls, Time, run_completions_only, run, completions_from, Completion, probe_run, Collected,
  collect_completion, nothing_collected, outcomes_from, at_least_one, collect,
}
use modelsentry.Runner.Status.{run_shape}
use mathlib.Core.Path.{subst}

-- The run is the numbered one, of the probe, with a completion for each prompt.
abbrev pub IsRunOf : {F : Type 0} → Uuid → Probe → ProbeRun F → Type 0
IsRunOf run_id probe r =
    (r.id ≡ run_id) × (r.probe_id ≡ probe.id) × (length r.completions ≡ length probe.prompts)

module _ {F : Type 0} (calls : Calls F) (run_id : Uuid) (probe : Probe)
    (started_at finished_at : Time) where
  run_ids :
      (samples : ℕ) (r : ProbeRun F)
      → run calls run_id probe samples started_at finished_at ≡ ok r
      → (r.id ≡ run_id) × (r.probe_id ≡ probe.id)
  unfolding run
  run_ids samples r h =
      let outcomes = outcomes_from calls (at_least_one samples) 0 probe.prompts in
      let made =
        probe_run calls run_id probe started_at finished_at (length outcomes)
          (foldl collect nothing_collected outcomes) in
      let same : made ≡ r = cc in
      subst (λ (x : ProbeRun F). (x.id ≡ run_id) × (x.probe_id ≡ probe.id)) same (refl, refl)

  pub run-IsRunOf :
      (samples : ℕ) (r : ProbeRun F)
      → run calls run_id probe samples started_at finished_at ≡ ok r
      → IsRunOf run_id probe r
  run-IsRunOf samples r h =
      let shape = run_shape calls run_id probe samples started_at finished_at r h in
      let ids = run_ids samples r h in (ids.0, ids.1, shape.1)

  length-completions :
      (os : List (Result Completion)) (st : Collected F)
      → length (foldl collect_completion st os).completions ≡ length st.completions + length os
  length-completions [] st = omega arith
  length-completions (ok o ∷ os) st = omega (
    arith,
    length-completions os (collect_completion st (ok o)),
    length-append st.completions (o.text ∷ []),
  )
  length-completions (err e ∷ os) st = omega (
    arith,
    length-completions os (collect_completion {F = F} st (err e)),
    length-append st.completions ("" ∷ []),
  )

  length-completions_from :
      (i : ℕ) (ps : List ProbePrompt) → length (completions_from calls i ps) ≡ length ps
  length-completions_from i [] = refl
  length-completions_from i (p ∷ ps) = ap suc (length-completions_from (suc i) ps)

  pub run_completions_only-IsRunOf :
      (r : ProbeRun F)
      → run_completions_only calls run_id probe started_at finished_at ≡ ok r
      → IsRunOf run_id probe r
  unfolding run_completions_only
  run_completions_only-IsRunOf r h =
      let os = completions_from calls 0 probe.prompts in
      let made =
        probe_run calls run_id probe started_at finished_at (length os)
          (foldl collect_completion nothing_collected os) in
      let same : made ≡ r = cc in
      subst (IsRunOf run_id probe) same (
        refl,
        refl,
        omega (
          arith,
          length-completions os nothing_collected,
          length-completions_from 0 probe.prompts,
        ),
      )

  pub run_total :
      (samples : ℕ)
      → (r : ProbeRun F) × (run calls run_id probe samples started_at finished_at ≡ ok r)
  unfolding run
  run_total samples = (_, refl)

  pub run_completions_only_total :
      (r : ProbeRun F) × (run_completions_only calls run_id probe started_at finished_at ≡ ok r)
  unfolding run_completions_only
  run_completions_only_total = (_, refl)
