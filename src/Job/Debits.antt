-- ===== src/Job/Debits.antt =====
-- What the debits of a job of crates/daemon/src/scheduler.rs add to the windows of the ledger, in exact
-- arithmetic.
use modelsentry.Base.Int.{ℤ, pos, ◌≤ℤ◌, ◌+ℤ◌, int_laws, ◌-ℤ◌}
use modelsentry.Base.{
  [], inl, inr, true, false, arith, List, ℕ, ◌∷◌, Bool, All, map, if◌then◌else◌, ◌==◌, filter,
  Bool-cases, ◌≡◌, ==_iff, Option-cases,
}
use modelsentry.Common.Models.{Uuid, AlertRule}
use modelsentry.Job.{Faults, record_in}
use modelsentry.Store.Ledger.Window.{IsNonnegative, weight, total}
use modelsentry.Float.Fixed.{fixed, fixed_ops}
use mathlib.Core.Path.{subst}
use modelsentry.Store.Ledger.{record_spend, key_nanos, Entry, is_stale, put}
use modelsentry.Base.{not}
use modelsentry.Common.Time.{Time, Duration}
use modelsentry.Alert.{RuleSpend}
use modelsentry.Store.Ledger.Window.{
  total-filter, total-put, put-IsNonnegative, filter-IsNonnegative,
}

-- What the debits spend of a rule.
abbrev pub spent_by : Uuid → List (RuleSpend ℤ) → ℤ
spent_by k [] = pos 0
spent_by k (spend ∷ spends) =
    (if spend.rule_id == k then spend.alpha else pos 0) +ℤ spent_by k spends

abbrev pub AreDebits : List (RuleSpend ℤ) → Type 0
AreDebits spends = All (λ (spend : RuleSpend ℤ). pos 0 ≤ℤ spend.alpha) spends

spent_by-nonneg :
    (k : Uuid) (spends : List (RuleSpend ℤ)) → AreDebits spends → pos 0 ≤ℤ spent_by k spends
spent_by-nonneg k [] h = omega arith
spent_by-nonneg k (spend ∷ spends) h = elim (Bool-cases (spend.rule_id == k)) [
  | inl own ↦ rw own (omega (int_laws, h.0, spent_by-nonneg k spends h.1))
  | inr other ↦ rw other (omega (int_laws, spent_by-nonneg k spends h.1))
]

weight_le :
    (k : Uuid) (lo : ℕ) (e : Entry ℤ)
    → pos 0 ≤ℤ e.alpha
    → weight k lo e ≤ℤ (if e.rule == k then e.alpha else pos 0)
weight_le k lo e h = ground arith

-- One debit adds at most its level to the window of its rule, and nothing to that of another.
record_spend-total :
    (table : List (Entry ℤ)) (at prune_before : Time) (spend : RuleSpend ℤ) (k : Uuid) (lo : ℕ)
    → IsNonnegative table
    → pos 0 ≤ℤ spend.alpha
    → IsNonnegative (record_spend fixed_ops table spend.rule_id at spend.alpha prune_before)
      × (total k lo (record_spend fixed_ops table spend.rule_id at spend.alpha prune_before)
          ≤ℤ (if spend.rule_id == k then spend.alpha else pos 0) +ℤ total k lo table)
unfolding record_spend
record_spend-total table at prune_before spend k lo nonneg h =
    let e : Entry ℤ = record { rule = spend.rule_id; nanos = key_nanos at; alpha = spend.alpha } in
    let keep : Entry ℤ → Bool = λ x. not (is_stale spend.rule_id (key_nanos prune_before) x) in
    let put_nonneg = put-IsNonnegative table e nonneg h in
    let kept = total-filter k lo keep (put table e) put_nonneg in
    let added = total-put k lo table e nonneg in
    let at_most = weight_le k lo e h in
    (filter-IsNonnegative keep (put table e) put_nonneg, omega (int_laws, kept, added, at_most))

-- The debits that are recorded, whichever of them fails, add to the window of a rule at most what they
-- spend of it.
pub record_in-total :
    (faults : Faults) (window : Duration) (now : Time) (k : Uuid) (lo : ℕ)
    (spends : List (RuleSpend ℤ)) (table : List (Entry ℤ))
    → IsNonnegative table
    → AreDebits spends
    → IsNonnegative (record_in fixed faults window now table spends).0
      × (total k lo (record_in fixed faults window now table spends).0
          ≤ℤ spent_by k spends +ℤ total k lo table)
record_in-total faults window now k lo [] table nonneg h = (nonneg, omega int_laws)
record_in-total faults window now k lo (spend ∷ spends) table nonneg h =
    elim (Option-cases (faults.record_spend spend.rule_id)) [
      | inl none_eq ↦
          let next = record_spend fixed_ops table spend.rule_id now spend.alpha (now -ℤ window) in
          let (nonneg', grows) =
            record_spend-total table now (now -ℤ window) spend k lo nonneg h.0 in
          let (all, rest) = record_in-total faults window now k lo spends next nonneg' h.1 in
          rw (none_eq, record_in) (all, omega (int_laws, grows, rest))
      | inr (e, some_eq) ↦
          let sum = spent_by-nonneg k (spend ∷ spends) h in
          rw (some_eq, record_in) (nonneg, omega (int_laws, sum))
    ]

-- No two rules have the same identifier.
abbrev pub HaveDistinctIds : List (AlertRule ℤ) → Type 0
HaveDistinctIds [] = Unit
HaveDistinctIds (rule ∷ rules) =
    All (λ (r : AlertRule ℤ). (r.id == rule.id) ≡ false) rules × HaveDistinctIds rules

module _ (level : AlertRule ℤ → ℤ) (debits : AlertRule ℤ → Bool) where
  abbrev pub spend_at : AlertRule ℤ → RuleSpend ℤ
  spend_at rule = record { rule_id = rule.id; alpha = level rule }

  abbrev pub spends_at : List (AlertRule ℤ) → List (RuleSpend ℤ)
  spends_at rules = map spend_at (filter debits rules)

  pub spends_at-AreDebits :
      (rules : List (AlertRule ℤ))
      → All (λ (rule : AlertRule ℤ). pos 0 ≤ℤ level rule) rules
      → AreDebits (spends_at rules)
  spends_at-AreDebits [] h = tt
  spends_at-AreDebits (rule ∷ rules) h = elim (Bool-cases (debits rule)) [
    | inl t ↦ rw t (h.0, spends_at-AreDebits rules h.1)
    | inr t ↦ rw t (spends_at-AreDebits rules h.1)
  ]

  spent_by-others :
      (k : Uuid) (rules : List (AlertRule ℤ))
      → All (λ (r : AlertRule ℤ). (r.id == k) ≡ false) rules
      → spent_by k (spends_at rules) ≤ℤ pos 0
  spent_by-others k [] h = omega arith
  spent_by-others k (rule ∷ rules) h = elim (Bool-cases (debits rule)) [
    | inl t ↦ rw (t, h.0) (omega (int_laws, spent_by-others k rules h.1))
    | inr t ↦ rw t (spent_by-others k rules h.1)
  ]

  -- With distinct identifiers, a bound on the level of each rule bounds what the debits spend.
  pub spent_by-le :
      (k : Uuid) (left : ℤ) (rules : List (AlertRule ℤ))
      → HaveDistinctIds rules
      → pos 0 ≤ℤ left
      → All (λ (rule : AlertRule ℤ). (rule.id == k) ≡ true → level rule ≤ℤ left) rules
      → spent_by k (spends_at rules) ≤ℤ left
  spent_by-le k left [] d n h = n
  spent_by-le k left (rule ∷ rules) d n h = elim (Bool-cases (debits rule)) [
    | inr t ↦ rw t (spent_by-le k left rules d.1 n h.1)
    | inl t ↦ elim (Bool-cases (rule.id == k)) [
      | inr other ↦ rw (t, other) (omega (int_laws, spent_by-le k left rules d.1 n h.1))
      | inl own ↦
          let id_eq : rule.id ≡ k = (==_iff rule.id k).0 own in
          let others =
            spent_by-others k rules
              (subst (λ j. All (λ (r : AlertRule ℤ). (r.id == j) ≡ false) rules) id_eq d.0) in
          rw (t, own) (omega (int_laws, others, h.0 own))
    ]
  ]
