-- ===== src/Job/Spent.antt =====
-- The map of spent alpha that a job of crates/daemon/src/scheduler.rs loads, in exact arithmetic.
use modelsentry.Base.Int.{ℤ, ◌≤ℤ◌, pos, ltb_ℤ, ◌-ℤ◌}
use modelsentry.Base.{
  [], refl, inl, inr, true, some, arith, List, if◌then◌else◌, ◌==◌, All, ◌≡◌, Bool-cases, foldl,
  ==_iff, ◌∷◌,
}
use modelsentry.Base.Assoc.{Assoc, insert, get, get-insert}
use modelsentry.Common.Time.{Duration, Time}
use modelsentry.Store.Ledger.{Entry, spent_since}
use modelsentry.Common.Models.{Uuid, AlertRule, uuid_keys}
use modelsentry.Float.Fixed.{fixed_ops, fixed}
use modelsentry.Alert.{or_zero}
use mathlib.Core.Path.{subst}
use modelsentry.Job.{load_spent}

-- What the ledger holds for a rule from an instant on.
abbrev spent_in : List (Entry ℤ) → Time → Uuid → ℤ
spent_in table since k = spent_since fixed_ops table k since

-- One read of the loop, and the loop from a map on.
abbrev read_into : List (Entry ℤ) → Time → Assoc Uuid ℤ → AlertRule ℤ → Assoc Uuid ℤ
read_into table since m rule =
    if ltb_ℤ (pos 0) (spent_in table since rule.id)
    then insert uuid_keys m rule.id (spent_in table since rule.id)
    else m

abbrev known : Assoc Uuid ℤ → Uuid → ℤ
known m k = or_zero fixed (get uuid_keys m k)

read_own :
    (table : List (Entry ℤ)) (since : Time) (m : Assoc Uuid ℤ) (rule : AlertRule ℤ) (k : Uuid)
    → (rule.id == k) ≡ true
    → pos 0 ≤ℤ known m k
    → spent_in table since k ≤ℤ known (read_into table since m rule) k
read_own table since m rule k own h =
    let id_eq : rule.id ≡ k = (==_iff rule.id k).0 own in
    subst (λ j. spent_in table since j ≤ℤ known (read_into table since m rule) j) id_eq
      (elim (Bool-cases (ltb_ℤ (pos 0) (spent_in table since rule.id))) [
        | inl t ↦
            rw
              (
                t,
                get-insert uuid_keys m rule.id rule.id (spent_in table since rule.id),
                (==_iff rule.id rule.id).1 refl,
              )
              (omega arith)
        | inr t ↦ let low : pos 0 ≤ℤ known m rule.id = rw (id_eq) h in rw t (ground arith)
      ])

-- A read keeps what the map holds for a rule already read, and never makes it negative.
read_keeps :
    (table : List (Entry ℤ)) (since : Time) (m : Assoc Uuid ℤ) (rule : AlertRule ℤ) (k : Uuid)
    → spent_in table since k ≤ℤ known m k
    → spent_in table since k ≤ℤ known (read_into table since m rule) k
read_keeps table since m rule k h =
    elim (Bool-cases (ltb_ℤ (pos 0) (spent_in table since rule.id))) [
      | inl t ↦
          rw (t, get-insert uuid_keys m rule.id k (spent_in table since rule.id))
            (elim (Bool-cases (rule.id == k)) [
              | inl own ↦ rw (own, (==_iff rule.id k).0 own) (omega arith)
              | inr other ↦ rw other h
            ])
      | inr t ↦ rw t h
    ]

read_nonneg :
    (table : List (Entry ℤ)) (since : Time) (m : Assoc Uuid ℤ) (rule : AlertRule ℤ) (k : Uuid)
    → pos 0 ≤ℤ known m k
    → pos 0 ≤ℤ known (read_into table since m rule) k
read_nonneg table since m rule k h =
    elim (Bool-cases (ltb_ℤ (pos 0) (spent_in table since rule.id))) [
      | inl t ↦
          rw (t, get-insert uuid_keys m rule.id k (spent_in table since rule.id))
            (elim (Bool-cases (rule.id == k)) [
              | inl own ↦ rw own (ground arith)
              | inr other ↦ rw other h
            ])
      | inr t ↦ rw t h
    ]

fold_keeps :
    (table : List (Entry ℤ)) (since : Time) (rules : List (AlertRule ℤ)) (m : Assoc Uuid ℤ)
    (k : Uuid)
    → spent_in table since k ≤ℤ known m k
    → spent_in table since k ≤ℤ known (foldl (read_into table since) m rules) k
fold_keeps table since [] m k h = h
fold_keeps table since (rule ∷ rules) m k h =
    fold_keeps table since rules (read_into table since m rule) k
      (read_keeps table since m rule k h)

fold_reads :
    (table : List (Entry ℤ)) (since : Time) (rules : List (AlertRule ℤ)) (m : Assoc Uuid ℤ)
    → ((k : Uuid) → pos 0 ≤ℤ known m k)
    → All
        (λ (rule : AlertRule ℤ).
          spent_in table since rule.id ≤ℤ known (foldl (read_into table since) m rules) rule.id)
        rules
fold_reads table since [] m h = tt
fold_reads table since (rule ∷ rules) m h = (
  fold_keeps table since rules (read_into table since m rule) rule.id
      (read_own table since m rule rule.id ((==_iff rule.id rule.id).1 refl) (h rule.id)),
  fold_reads table since rules (read_into table since m rule)
      (λ k. read_nonneg table since m rule k (h k)),
)

-- The map holds at least what the window of each rule does: a read that is not positive leaves no
-- entry, which counts as 0.
pub load_spent-covers :
    (window : Duration) (now : Time) (table : List (Entry ℤ)) (rules : List (AlertRule ℤ))
    → All
        (λ (rule : AlertRule ℤ).
          spent_since fixed_ops table rule.id (now -ℤ window)
          ≤ℤ or_zero fixed (get uuid_keys (load_spent fixed (some window) now table rules) rule.id))
        rules
load_spent-covers window now table rules =
    fold_reads table (now -ℤ window) rules [] (λ k. omega arith)
