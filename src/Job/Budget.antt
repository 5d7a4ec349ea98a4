-- ===== src/Job/Budget.antt =====
-- The alpha budget over a rolling window, as the jobs of crates/daemon/src/scheduler.rs keep it with the
-- ledger (crates/store/src/spend_store.rs), in exact arithmetic (`fixed`, whose sums and differences
-- do not round).
use modelsentry.Base.Int.{ℤ, ◌≤ℤ◌, ◌-ℤ◌, pos, int_laws, ◌+ℤ◌}
use modelsentry.Base.{[], some, arith, List, ℕ, All, ◌≤◌, ◌≡◌, ◌∷◌, refl, true, ◌==◌, ==_iff, Bool}
use modelsentry.Alert.{
  SequentialControl, AlertEngine, effective_alpha, or_zero, sequential_window, evaluate_and_fire,
}
use modelsentry.Common.Time.{Time}
use modelsentry.Alert.Target.{Network}
use modelsentry.Store.Ledger.{Entry, key_nanos, spent_since}
use modelsentry.Common.Models.{AlertRule, Uuid, uuid_keys, DriftReport}
use modelsentry.Store.Ledger.Window.{IsNonnegative, total, spent_since-total, total-antitone}
use modelsentry.Job.Debits.{
  HaveDistinctIds, spends_at-AreDebits, record_in-total, spends_at, spent_by-le, spent_by,
}
use modelsentry.Float.Fixed.{fixed_ops, fixed}
use modelsentry.Base.Assoc.{Assoc, get}
use modelsentry.Job.{load_spent, Faults, record_spends}
use modelsentry.Alert.Budget.{effective_alpha_bounds}
use mathlib.Core.Path.{subst}
use modelsentry.Alert.Outcome.{should_debit, evaluate_and_fire_lem}
use modelsentry.Job.Spent.{load_spent-covers}

-- The ledger keeps to the budget at an instant: it holds no negative level, and what it holds for the
-- window of any rule that ends then is at most the budget.
abbrev pub IsWithinBudget : SequentialControl ℤ → List (Entry ℤ) → Time → Type 0
IsWithinBudget seq table now =
    IsNonnegative table
    × ((k : Uuid) → spent_since fixed_ops table k (now -ℤ seq.window) ≤ℤ seq.alpha_budget)

-- The rules of a probe have an identifier each, and no negative target rate.
abbrev pub AreRules : List (AlertRule ℤ) → Type 0
AreRules rules =
    HaveDistinctIds rules × All (λ (rule : AlertRule ℤ). pos 0 ≤ℤ rule.target_fpr) rules

key_nanos_mono : (s t : Time) → s ≤ℤ t → key_nanos s ≤ key_nanos t
key_nanos_mono s t h = ground arith

pub later-IsWithinBudget :
    (seq : SequentialControl ℤ) (table : List (Entry ℤ)) (s t : Time)
    → s ≤ℤ t
    → IsWithinBudget seq table s
    → IsWithinBudget seq table t
later-IsWithinBudget seq table s t h (nonneg, within) = (
  nonneg,
  λ k.
      let first = s -ℤ seq.window in
      let next = t -ℤ seq.window in
      let within' : total k (key_nanos first) table ≤ℤ seq.alpha_budget =
        rw (spent_since-total table k first) at (within k) in
      let starts : first ≤ℤ next = omega int_laws in
      let less =
        total-antitone k (key_nanos first) (key_nanos next) table (key_nanos_mono first next starts)
          nonneg in
      rw (spent_since-total table k next) (omega (int_laws, within', less)),
)

module _ (net : Network) (engine : AlertEngine ℤ) (seq : SequentialControl ℤ) (fresh : ℕ → Uuid)
    (now : Time) (on : engine.sequential ≡ some seq) where
  levels_bounded :
      (table : List (Entry ℤ)) (ledger : Assoc Uuid ℤ) (rules : List (AlertRule ℤ))
      → IsWithinBudget seq table now
      → All (λ (rule : AlertRule ℤ). pos 0 ≤ℤ rule.target_fpr) rules
      → All
          (λ (rule : AlertRule ℤ).
            spent_since fixed_ops table rule.id (now -ℤ seq.window)
            ≤ℤ or_zero fixed (get uuid_keys ledger rule.id))
          rules
      → All
          (λ (rule : AlertRule ℤ).
            (pos 0 ≤ℤ effective_alpha fixed engine rule ledger)
            × (spent_since fixed_ops table rule.id (now -ℤ seq.window)
                  +ℤ effective_alpha fixed engine rule ledger
                ≤ℤ seq.alpha_budget))
          rules
  levels_bounded table ledger [] within h c = tt
  levels_bounded table ledger (rule ∷ rules) within h c = (
    effective_alpha_bounds engine seq rule ledger _ on h.0 c.0 (within.1 rule.id),
    levels_bounded table ledger rules within h.1 c.1,
  )

  own_levels :
      (table : List (Entry ℤ)) (ledger : Assoc Uuid ℤ) (k : Uuid) (rules : List (AlertRule ℤ))
      → All
          (λ (rule : AlertRule ℤ).
            (pos 0 ≤ℤ effective_alpha fixed engine rule ledger)
            × (spent_since fixed_ops table rule.id (now -ℤ seq.window)
                  +ℤ effective_alpha fixed engine rule ledger
                ≤ℤ seq.alpha_budget))
          rules
      → All (λ (rule : AlertRule ℤ). pos 0 ≤ℤ effective_alpha fixed engine rule ledger) rules
        × All
            (λ (rule : AlertRule ℤ).
              (rule.id == k) ≡ true
              → effective_alpha fixed engine rule ledger
                ≤ℤ seq.alpha_budget -ℤ spent_since fixed_ops table k (now -ℤ seq.window))
            rules
  own_levels table ledger k [] h = (tt, tt)
  own_levels table ledger k (rule ∷ rules) h =
      let rest = own_levels table ledger k rules h.1 in
      (
        (h.0.0, rest.0),
        (
          λ own.
              subst
                (λ j.
                  effective_alpha fixed engine rule ledger
                  ≤ℤ seq.alpha_budget -ℤ spent_since fixed_ops table j (now -ℤ seq.window))
                ((==_iff rule.id k).0 own) (omega (int_laws, h.0.1)),
          rest.1,
        ),
      )

  -- The firing of the rules and its debits, whichever of them fails.
  pub fire-IsWithinBudget :
      (faults : Faults) (report : DriftReport ℤ) (last_fired : Assoc Uuid Time)
      (rules : List (AlertRule ℤ)) (table : List (Entry ℤ))
      → IsWithinBudget seq table now
      → AreRules rules
      → IsWithinBudget seq
          (record_spends fixed faults
            (sequential_window fixed engine)
            now
            table
            (evaluate_and_fire fixed net engine fresh report last_fired
              (load_spent fixed (sequential_window fixed engine) now table rules)
              now
              rules).outcome.spends).0
          now
  fire-IsWithinBudget faults report last_fired rules table within (distinct, targets) =
      let since = now -ℤ seq.window in
      let ledger = load_spent fixed (some seq.window) now table rules in
      let level : AlertRule ℤ → ℤ = λ rule. effective_alpha fixed engine rule ledger in
      let debits : AlertRule ℤ → Bool =
        should_debit fixed net engine fresh report last_fired ledger now in
      let windowed : sequential_window fixed engine ≡ some seq.window = rw on refl in
      let bounded =
        levels_bounded table ledger rules within targets
          (load_spent-covers seq.window now table rules) in
      let debited =
        spends_at-AreDebits level debits rules (own_levels table ledger 0 rules bounded).0 in
      let added = λ (k : Uuid).
        record_in-total faults seq.window now k (key_nanos since) (spends_at level debits rules)
          table within.0 debited in
      let left = λ (k : Uuid).
        spent_by-le level debits k (seq.alpha_budget -ℤ spent_since fixed_ops table k since) rules
          distinct (omega (int_laws, within.1 k)) (own_levels table ledger k rules bounded).1 in
      let spends =
        (evaluate_and_fire_lem fixed net engine fresh report last_fired ledger now rules).2 in
      rw (windowed, spends)
        (
          (added 0).0,
          λ k.
              let left_in : spent_by k (spends_at level debits rules)
                  ≤ℤ seq.alpha_budget -ℤ total k (key_nanos since) table =
                subst (λ t. spent_by k (spends_at level debits rules) ≤ℤ seq.alpha_budget -ℤ t)
                  (spent_since-total table k since) (left k) in
              rw (spent_since-total _ k since) (omega (int_laws, (added k).1, left_in)),
        )
