-- ===== src/Drift/TwoSample/Nulls.antt =====
-- The permutation null of crates/core/src/drift/twosample.rs: as many statistics as asked for, each
-- of a relabelling of the pooled points.
use modelsentry.Base.{ℕ, zero, suc, ◌≡◌, refl, ap, List, [], ◌∷◌, ◌++◌, length, All}
use modelsentry.Base.Loops.{range}
use modelsentry.Common.Error.{ok}
use modelsentry.Float.{Floats}
use modelsentry.Drift.Rng.{SplitMix64, new}
use modelsentry.Drift.Shuffle.{fisher_yates-SameItems, SameItems, SameItems-trans}
use modelsentry.Drift.Kernel.{Kernel}
use modelsentry.Drift.TwoSample.{validate, nulls_loop, labelled, permutation_nulls}

-- A value that the statistic takes on some reordering of the labels.
abbrev pub IsRelabelled : {F : Type 0} → (List ℕ → F) → List ℕ → F → Type 0
IsRelabelled stat labels v = (perm : List ℕ) × SameItems labels perm × (v ≡ stat perm)

module _ {F32 F64 : Type 0} (fl : Floats F32 F64) where
  widen_labels :
      (stat : List ℕ → F32) (labels perm : List ℕ) (vs : List F32)
      → SameItems labels perm
      → All (IsRelabelled stat perm) vs
      → All (IsRelabelled stat labels) vs
  widen_labels stat labels perm [] s h = tt
  widen_labels stat labels perm (v ∷ vs) s ((q, t, e), h) =
      ((q, SameItems-trans labels perm q s t, e), widen_labels stat labels perm vs s h)

  nulls_loop_total :
      (stat : List ℕ → F32) (n : ℕ) (perm : List ℕ) (rng : SplitMix64)
      → (nulls : List F32) × (nulls_loop fl stat n perm rng ≡ ok nulls)
        × (length nulls ≡ n)
        × All (IsRelabelled stat perm) nulls
  unfolding nulls_loop
  nulls_loop_total stat zero perm rng = ([], refl, refl, tt)
  nulls_loop_total stat (suc n) perm rng =
      let (perm', rng', e, s) = fisher_yates-SameItems perm rng in
      let (nulls, f, l, h) = nulls_loop_total stat n perm' rng' in
      (
        stat perm' ∷ nulls,
        rw (e, nulls_loop) (rw f refl),
        ap suc l,
        ((perm', s, refl), widen_labels stat perm perm' nulls s h),
      )

  -- Once the samples are accepted the permutation test cannot fail: it yields the statistic of the
  -- observed labelling and exactly the requested number of nulls, each the statistic of the pooled
  -- points under some reordering of their labels.
  pub permutation_nulls_total :
      (baseline run : List (List F32)) (kernel : Kernel F32) (n seed : ℕ) {d : ℕ}
      → validate baseline run ≡ ok d
      → let labels = range 0 (length (baseline ++ run)) in
        let stat = labelled fl kernel baseline run in
        (nulls : List F32) × (permutation_nulls fl baseline run kernel n seed
          ≡ ok (stat labels, nulls))
        × (length nulls ≡ n)
        × All (IsRelabelled stat labels) nulls
  unfolding permutation_nulls
  permutation_nulls_total baseline run kernel n seed v =
      let labels = range 0 (length (baseline ++ run)) in
      let stat = labelled fl kernel baseline run in
      let (nulls, e, l, h) = nulls_loop_total stat n labels (new seed) in
      (nulls, rw v (rw e refl), l, h)
