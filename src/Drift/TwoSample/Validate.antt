-- ===== src/Drift/TwoSample/Validate.antt =====
-- What `validate` of crates/core/src/drift/twosample.rs accepts.
use modelsentry.Base.{ℕ, ◌≤◌, ◌<◌, ◌≡◌, refl, ◌↔◌, List, [], ◌∷◌, ◌++◌, arith, length, All}
use modelsentry.Common.Error.{ok}
use modelsentry.Drift.TwoSample.{check_all, validate}

module _ {F : Type 0} where
  abbrev pub HasDim : ℕ → List F → Type 0
  HasDim d v = length v ≡ d

  check_all_accepts : (d : ℕ) (vs : List (List F)) → check_all d vs ≡ ok tt → All (HasDim d) vs
  check_all_accepts d [] h = tt
  check_all_accepts d (v ∷ vs) h = ground (arith, check_all_accepts d vs)

  pub check_all_complete : (d : ℕ) (vs : List (List F)) → All (HasDim d) vs → check_all d vs ≡ ok tt
  check_all_complete d [] h = refl
  check_all_complete d (v ∷ vs) h = ground (arith, check_all_complete d vs h.1)

  validate_sound :
      (x y : List (List F)) (d : ℕ)
      → validate x y ≡ ok d
      → (2 ≤ length x) × (2 ≤ length y) × (0 < d) × All (HasDim d) (x ++ y)
  unfolding validate
  validate_sound x y d h = ground (arith, check_all_accepts d (x ++ y))

  pub validate_complete :
      (x y : List (List F)) (d : ℕ)
      → 2 ≤ length x
      → 2 ≤ length y
      → 0 < d
      → All (HasDim d) (x ++ y)
      → validate x y ≡ ok d
  unfolding validate
  validate_complete [] y d p q r h = absurd (omega arith)
  validate_complete (v ∷ x) y d p q r h = ground (arith, check_all_complete d (v ∷ x ++ y) h)

  -- Two samples are accepted at a dimension exactly when each has at least two vectors, the
  -- dimension is positive, and every vector of both has it.
  pub validate_iff :
      (x y : List (List F)) (d : ℕ)
      → (validate x y ≡ ok d)
        ↔ ((2 ≤ length x) × (2 ≤ length y) × (0 < d) × All (HasDim d) (x ++ y))
  validate_iff x y d = (validate_sound x y d, λ h. validate_complete x y d h.0 h.1 h.2 h.3)
