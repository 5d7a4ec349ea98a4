-- ===== src/Base/Loops.antt =====
-- Counted loops: `for k in i..i + n { s = body(k, s) }`.
use modelsentry.Base.{ℕ, zero, suc, ◌+◌, List, [], ◌∷◌}

unfoldable pub for_range {ℓ} : {State : Type ℓ} → ℕ → ℕ → (ℕ → State → State) → State → State
for_range zero k round st = st
for_range (suc rounds) k round st = for_range rounds (k + 1) round (round k st)

-- `(i..i + n).collect()`
abbrev pub range : ℕ → ℕ → List ℕ
range i zero = []
range i (suc n) = i ∷ range (suc i) n
