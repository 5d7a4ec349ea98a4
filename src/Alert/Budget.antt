-- ===== src/Alert/Budget.antt =====
-- The level of a look under sequential control (crates/core/src/alert.rs), in exact arithmetic
-- (`fixed`, whose sums and differences do not round).
use modelsentry.Base.{some, arith, ◌≡◌}
use modelsentry.Base.Int.{◌-ℤ◌, ◌+ℤ◌, ◌≤ℤ◌}
use modelsentry.Alert.{
  effective_alpha, AlertEngine, SequentialControl, ℤ, pos, AlertRule, Assoc, capped, Uuid, or_zero,
  get, uuid_keys,
}
use modelsentry.Float.Fixed.{fixed}

capped_bounds :
    (seq : SequentialControl ℤ) (target known spent : ℤ)
    → pos 0 ≤ℤ target
    → spent ≤ℤ known
    → spent ≤ℤ seq.alpha_budget
    → (pos 0 ≤ℤ capped fixed (some seq) target known)
      × (spent +ℤ capped fixed (some seq) target known ≤ℤ seq.alpha_budget)
unfolding ◌-ℤ◌ ◌+ℤ◌
capped_bounds seq target known spent t h k = ground arith

-- Where the map of spent alpha holds at least what a rule has spent, the level is not negative and
-- what is spent with it stays within the budget.
pub effective_alpha_bounds :
    (engine : AlertEngine ℤ) (seq : SequentialControl ℤ) (rule : AlertRule ℤ)
    (spent_alpha : Assoc Uuid ℤ) (spent : ℤ)
    → engine.sequential ≡ some seq
    → pos 0 ≤ℤ rule.target_fpr
    → spent ≤ℤ or_zero fixed (get uuid_keys spent_alpha rule.id)
    → spent ≤ℤ seq.alpha_budget
    → (pos 0 ≤ℤ effective_alpha fixed engine rule spent_alpha)
      × (spent +ℤ effective_alpha fixed engine rule spent_alpha ≤ℤ seq.alpha_budget)
unfolding effective_alpha
effective_alpha_bounds engine seq rule spent_alpha spent on t h k =
    rw on (capped_bounds seq rule.target_fpr _ spent t h k)
