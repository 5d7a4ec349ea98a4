-- ===== src/Baselines/Clouds.antt =====
-- What a captured cloud holds (crates/daemon/src/routes/baselines.rs).
use mathlib.Core.List.{append_assoc, append-nil}
use modelsentry.Base.{
  ℕ, zero, suc, ◌<◌, ◌≡◌, refl, sym, ap, ◌∙◌, List, [], ◌∷◌, ◌++◌, filter, foldl, get_elem?, get_or,
  replicate, some, arith,
}
use modelsentry.Common.Models.{is_nonempty}
use modelsentry.Baselines.{RunVectors, add_run, clouds_of, max_prompts}

module _ {F : Type 0} where
  -- The samples of prompt `i` in all runs, the runs in their order, without the empty ones.
  abbrev pub gathered : ℕ → List (RunVectors F) → List (List F)
  gathered i [] = []
  gathered i (u ∷ us) = filter is_nonempty (get_or u.1 i []) ++ gathered i us

  add_run-get_elem? :
      (clouds e : List (List (List F))) (i : ℕ) {cloud : List (List F)}
      → get_elem? clouds i ≡ some cloud
      → get_elem? (add_run clouds e) i ≡ some (cloud ++ filter is_nonempty (get_or e i []))
  add_run-get_elem? [] e i h = absurd (cc)
  add_run-get_elem? (c ∷ clouds) [] zero {cloud} h = h ∙ ap some (sym (append-nil cloud))
  add_run-get_elem? (c ∷ clouds) [] (suc i) {cloud} h = h ∙ ap some (sym (append-nil cloud))
  add_run-get_elem? (c ∷ clouds) (s ∷ e) zero h = cc
  add_run-get_elem? (c ∷ clouds) (s ∷ e) (suc i) h = add_run-get_elem? clouds e i h

  fold-get_elem? :
      (us : List (RunVectors F)) (clouds : List (List (List F))) (i : ℕ) {cloud : List (List F)}
      → get_elem? clouds i ≡ some cloud
      → get_elem? (foldl (λ cs (u : RunVectors F). add_run cs u.1) clouds us) i
        ≡ some (cloud ++ gathered i us)
  fold-get_elem? [] clouds i {cloud} h = h ∙ ap some (sym (append-nil cloud))
  fold-get_elem? (u ∷ us) clouds i {cloud} h =
      fold-get_elem? us (add_run clouds u.1) i (add_run-get_elem? clouds u.1 i h)
      ∙ ap some (append_assoc cloud (filter is_nonempty (get_or u.1 i [])) (gathered i us))

  replicate-get_elem? :
      (n i : ℕ) → i < n → get_elem? {A = List (List F)} (replicate n []) i ≡ some []
  replicate-get_elem? zero i h = absurd (omega arith)
  replicate-get_elem? (suc n) zero h = refl
  replicate-get_elem? (suc n) (suc i) h = replicate-get_elem? n i (omega arith)

  -- For each prompt that some run has, the captured cloud holds the non-empty samples of that prompt
  -- of every run that is folded in, run by run, and nothing else.
  pub clouds_of-get_elem? :
      (us : List (RunVectors F)) (i : ℕ)
      → i < max_prompts us
      → get_elem? (clouds_of us) i ≡ some (gathered i us)
  unfolding clouds_of
  clouds_of-get_elem? us i h =
      fold-get_elem? us (replicate (max_prompts us) []) i (replicate-get_elem? (max_prompts us) i h)
