-- ===== src/Drift/Interpret/Strongest.antt =====
-- The prompt that the interpretation names (crates/core/src/drift/interpret.rs).
use modelsentry.Base.{◌≡◌, false, List, [], ◌∷◌, arith, some, All}
use mathlib.Core.Path.{subst}
use modelsentry.Float.{FloatOps, FloatLaws}
use modelsentry.Drift.Assessment.{PromptDrift}
use modelsentry.Drift.Interpret.{least_from, lesser, strongest}

module _ {F : Type 0} (o : FloatOps F) (laws : FloatLaws o) where
  -- No value of the list is below `best`.
  abbrev pub IsLeast : PromptDrift F → List (PromptDrift F) → Type 0
  IsLeast best pps = All (λ (pp : PromptDrift F). o.lt pp.p_value best.p_value ≡ false) pps

  -- A new best is itself below the old one, so what was not below the old is not below the new.
  lesser_le :
      (best next x : PromptDrift F)
      → o.lt x.p_value best.p_value ≡ false
      → o.lt x.p_value (lesser o best next).p_value ≡ false
  lesser_le best next x h = ground (arith, laws.lt_trans x.p_value next.p_value best.p_value)

  lesser_next : (best next : PromptDrift F) → o.lt next.p_value (lesser o best next).p_value ≡ false
  lesser_next best next = ground (arith, laws.lt_irrefl next.p_value)

  least_from_le :
      (best x : PromptDrift F) (pps : List (PromptDrift F))
      → o.lt x.p_value best.p_value ≡ false
      → o.lt x.p_value (least_from o best pps).p_value ≡ false
  unfolding least_from
  least_from_le best x [] h = h
  least_from_le best x (next ∷ rest) h =
      least_from_le (lesser o best next) x rest (lesser_le best next x h)

  least_from-IsLeast :
      (best : PromptDrift F) (pps : List (PromptDrift F)) → IsLeast (least_from o best pps) pps
  unfolding least_from
  least_from-IsLeast best [] = tt
  least_from-IsLeast best (next ∷ rest) = (
    least_from_le (lesser o best next) next rest (lesser_next best next),
    least_from-IsLeast (lesser o best next) rest,
  )

  -- The prompt named as the strongest signal is one below whose p-value no prompt's lies.
  pub strongest-IsLeast :
      (pps : List (PromptDrift F)) (best : PromptDrift F)
      → strongest o pps ≡ some best
      → IsLeast best pps
  unfolding strongest
  strongest-IsLeast [] best h = tt
  strongest-IsLeast (x ∷ xs) best h =
      let same : least_from o x xs ≡ best = cc in
      subst (λ b. IsLeast b (x ∷ xs)) same
        (least_from_le x x xs (laws.lt_irrefl x.p_value), least_from-IsLeast x xs)
