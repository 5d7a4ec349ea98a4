-- ===== src/Drift/Kernel/Cells.antt =====
-- Cells of a square matrix stored row by row.
use native.Mathlib.Decide.{ℕ_discrete}
use native.Mathlib.Nat.{add-mul-div_left, div-eq_of_lt, add_comm, mul_comm}
use modelsentry.Base.{
  ℕ, ◌+◌, ◌*◌, ◌/◌, ◌<◌, ◌≡◌, ◌∙◌, ap, sym, ◌≢◌, arith, List, some, length, set, get_elem?,
  get_elem?-set_self, get_elem?-set_ne, length-set,
}

-- The place of row `r`, column `c`.
abbrev pub cell : ℕ → ℕ → ℕ → ℕ
cell n r c = r * n + c

pub cell-lt : (n r c : ℕ) → r < n → c < n → cell n r c < n * n
cell-lt n r c p q = grind arith

row_of_cell : (n r c : ℕ) → c < n → cell n r c / n ≡ r
row_of_cell n r c p =
    ap (λ t. t / n) (add_comm (r * n) c ∙ ap (λ t. c + t) (mul_comm r n))
    ∙ add-mul-div_left c r {y = n} (omega arith)
    ∙ omega (arith, div-eq_of_lt p)

-- Different coordinates are different places.
pub cell-injective :
    (n r c r' c' : ℕ) → c < n → c' < n → cell n r c ≡ cell n r' c' → (r ≡ r') × (c ≡ c')
cell-injective n r c r' c' p q e =
    let same : r ≡ r' = sym (row_of_cell n r c p) ∙ ap (λ t. t / n) e ∙ row_of_cell n r' c' q in
    (same, omega (arith, e, ap (λ t. t * n) same))

module _ {F : Type 0} where
  -- The two writes of one pair leave every other place alone.
  pub twice_set_ne :
      (xs : List F) (p q at : ℕ) (k : F)
      → p ≢ at
      → q ≢ at
      → get_elem? (set (set xs p k) q k) at ≡ get_elem? xs at
  twice_set_ne xs p q at k np nq = get_elem?-set_ne (set xs p k) k nq ∙ get_elem?-set_ne xs k np

  pub twice_set_second :
      (xs : List F) (p q : ℕ) (k : F) → q < length xs → get_elem? (set (set xs p k) q k) q ≡ some k
  twice_set_second xs p q k h =
      get_elem?-set_self (set xs p k) q k (omega (arith, length-set xs p k))

  pub twice_set_first :
      (xs : List F) (p q : ℕ) (k : F)
      → p < length xs
      → q < length xs
      → get_elem? (set (set xs p k) q k) p ≡ some k
  twice_set_first xs p q k hp hq = elim (ℕ_discrete q p) [
    | yes e ↦ rw (← e) (twice_set_second xs q q k hq)
    | no n ↦ get_elem?-set_ne (set xs p k) k n ∙ get_elem?-set_self xs p k hp
  ]
