-- ===== src/Store/Ledger/Window.antt =====
-- Sums over the rolling window of the ledger (crates/store/src/spend_store.rs), in exact arithmetic.
use modelsentry.Base.{
  ℕ, ◌≤◌, ◌≡◌, refl, ◌∙◌, Bool, List, [], ◌∷◌, All, filter, foldl, arith, if◌then◌else◌, Bool-cases,
  inl, inr,
}
use modelsentry.Base.Int.{ℤ, pos, ◌+ℤ◌, ◌≤ℤ◌, int_laws, +ℤ_assoc}
use modelsentry.Common.Models.{Uuid}
use modelsentry.Common.Time.{Time}
use modelsentry.Float.Fixed.{fixed_ops}
use modelsentry.Store.Ledger.{Entry, key_nanos, put, same_key, key_below, since_lo, spent_since}

abbrev pub weight : Uuid → ℕ → Entry ℤ → ℤ
weight rule lo x = if since_lo rule lo x then x.alpha else pos 0

abbrev pub total : Uuid → ℕ → List (Entry ℤ) → ℤ
total rule lo [] = pos 0
total rule lo (x ∷ xs) = weight rule lo x +ℤ total rule lo xs

abbrev pub IsNonnegative : List (Entry ℤ) → Type 0
IsNonnegative xs = All (λ (x : Entry ℤ). pos 0 ≤ℤ x.alpha) xs

add_weight :
    (rule : Uuid) (lo : ℕ) (acc : ℤ) (x : Entry ℤ)
    → (if since_lo rule lo x then acc +ℤ x.alpha else acc) ≡ acc +ℤ weight rule lo x
add_weight rule lo acc x = elim (Bool-cases (since_lo rule lo x)) [
  | inl e ↦ rw e refl
  | inr e ↦ rw e (omega int_laws)
]

fold-total :
    (rule : Uuid) (lo : ℕ) (xs : List (Entry ℤ)) (acc : ℤ)
    → foldl (λ t (x : Entry ℤ). if since_lo rule lo x then t +ℤ x.alpha else t) acc xs
      ≡ acc +ℤ total rule lo xs
fold-total rule lo [] acc = omega int_laws
fold-total rule lo (x ∷ xs) acc =
    fold-total rule lo xs _
    ∙ rw (add_weight rule lo acc x) (+ℤ_assoc acc (weight rule lo x) (total rule lo xs))

pub spent_since-total :
    (xs : List (Entry ℤ)) (rule : Uuid) (since : Time)
    → spent_since fixed_ops xs rule since ≡ total rule (key_nanos since) xs
unfolding spent_since
spent_since-total xs rule since = fold-total rule (key_nanos since) xs (pos 0) ∙ omega int_laws

pub weight-nonneg :
    (rule : Uuid) (lo : ℕ) (x : Entry ℤ) → pos 0 ≤ℤ x.alpha → pos 0 ≤ℤ weight rule lo x
weight-nonneg rule lo x h = ground arith

weight-antitone :
    (rule : Uuid) (lo hi : ℕ) (x : Entry ℤ)
    → lo ≤ hi
    → pos 0 ≤ℤ x.alpha
    → weight rule hi x ≤ℤ weight rule lo x
weight-antitone rule lo hi x h k = ground arith

pub total-antitone :
    (rule : Uuid) (lo hi : ℕ) (xs : List (Entry ℤ))
    → lo ≤ hi
    → IsNonnegative xs
    → total rule hi xs ≤ℤ total rule lo xs
total-antitone rule lo hi [] h k = omega arith
total-antitone rule lo hi (x ∷ xs) h k =
    omega (int_laws, weight-antitone rule lo hi x h k.0, total-antitone rule lo hi xs h k.1)

pub total-put :
    (rule : Uuid) (lo : ℕ) (xs : List (Entry ℤ)) (e : Entry ℤ)
    → IsNonnegative xs
    → total rule lo (put xs e) ≤ℤ weight rule lo e +ℤ total rule lo xs
total-put rule lo [] e k = omega int_laws
total-put rule lo (x ∷ xs) e k = elim (Bool-cases (same_key x e)) [
  | inl same ↦ rw same (omega (int_laws, weight-nonneg rule lo x k.0))
  | inr other ↦ rw other (elim (Bool-cases (key_below e x)) [
    | inl below ↦ rw below (omega int_laws)
    | inr above ↦ rw above (omega (int_laws, total-put rule lo xs e k.1))
  ])
]

pub total-filter :
    (rule : Uuid) (lo : ℕ) (keep : Entry ℤ → Bool) (xs : List (Entry ℤ))
    → IsNonnegative xs
    → total rule lo (filter keep xs) ≤ℤ total rule lo xs
total-filter rule lo keep [] k = omega arith
total-filter rule lo keep (x ∷ xs) k = elim (Bool-cases (keep x)) [
  | inl e ↦ rw e (omega (int_laws, total-filter rule lo keep xs k.1))
  | inr e ↦ rw e (omega (int_laws, weight-nonneg rule lo x k.0, total-filter rule lo keep xs k.1))
]

pub put-IsNonnegative :
    (xs : List (Entry ℤ)) (e : Entry ℤ)
    → IsNonnegative xs
    → pos 0 ≤ℤ e.alpha
    → IsNonnegative (put xs e)
put-IsNonnegative [] e k h = (h, tt)
put-IsNonnegative (x ∷ xs) e k h = elim (Bool-cases (same_key x e)) [
  | inl same ↦ rw same (h, k.1)
  | inr other ↦ rw other (elim (Bool-cases (key_below e x)) [
    | inl below ↦ rw below (h, k)
    | inr above ↦ rw above (k.0, put-IsNonnegative xs e k.1 h)
  ])
]

pub filter-IsNonnegative :
    (keep : Entry ℤ → Bool) (xs : List (Entry ℤ))
    → IsNonnegative xs
    → IsNonnegative (filter keep xs)
filter-IsNonnegative keep [] k = tt
filter-IsNonnegative keep (x ∷ xs) k = elim (Bool-cases (keep x)) [
  | inl e ↦ rw e (k.0, filter-IsNonnegative keep xs k.1)
  | inr e ↦ rw e (filter-IsNonnegative keep xs k.1)
]
