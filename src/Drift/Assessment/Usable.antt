-- ===== src/Drift/Assessment/Usable.antt =====
-- Which prompts are assessed (the filter of `assess` in crates/core/src/drift/assessment.rs).
use modelsentry.Base.{
  ℕ, zero, suc, ◌+◌, ◌<◌, ◌≡◌, refl, ◌&&◌, not, Option, none, some, List, [], ◌∷◌, arith, get_elem?,
  find, is_empty, ◌==◌, if◌then◌else◌,
}
use modelsentry.Drift.Assessment.{UsablePrompt, usable_from}

module _ {F : Type 0} where
  -- The prompt numbered `i`, if its cloud and its samples are there and not empty.
  abbrev pub expected :
      ℕ → Option (List (List F)) → Option (List (List F)) → Option (UsablePrompt F)
  expected i (some c) (some s) =
      if not (is_empty c) && not (is_empty s)
      then some (record { index = i; cloud = c; samples = s })
      else none
  expected i (some c) none = none
  expected i none s = none

  expected_no_samples : (i : ℕ) (o : Option (List (List F))) → expected i o none ≡ none
  expected_no_samples i none = refl
  expected_no_samples i (some c) = refl

  abbrev pub numbered : ℕ → List (UsablePrompt F) → Option (UsablePrompt F)
  numbered i = find (λ u. u.index == i)

  numbered_later :
      (i k : ℕ) (cs ss : List (List (List F))) → i < k → numbered i (usable_from k cs ss) ≡ none
  unfolding usable_from
  numbered_later i k [] ss h = refl
  numbered_later i k (c ∷ cs) [] h = refl
  numbered_later i k (c ∷ cs) (s ∷ ss) h = ground (arith, numbered_later i (suc k) cs ss)

  numbered_from :
      (i k j : ℕ) (cs ss : List (List (List F)))
      → k + i ≡ j
      → numbered j (usable_from k cs ss) ≡ expected j (get_elem? cs i) (get_elem? ss i)
  unfolding usable_from
  numbered_from i k j [] ss e = refl
  numbered_from i k j (c ∷ cs) [] e = rw (expected_no_samples j (get_elem? (c ∷ cs) i)) refl
  numbered_from zero k j (c ∷ cs) (s ∷ ss) e = ground (arith, numbered_later j (suc k) cs ss)
  numbered_from (suc i) k j (c ∷ cs) (s ∷ ss) e = ground (arith, numbered_from i (suc k) j cs ss)

  -- Prompt `i` is assessed exactly when the baseline holds a non-empty cloud and the run at least
  -- one sample at place `i`, and then with that cloud, those samples and that number.
  pub usable-numbered :
      (i : ℕ) (baseline run : List (List (List F)))
      → numbered i (usable_from 0 baseline run)
        ≡ expected i (get_elem? baseline i) (get_elem? run i)
  usable-numbered i baseline run = numbered_from i 0 i baseline run (omega arith)
