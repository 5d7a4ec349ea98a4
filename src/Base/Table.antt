-- ===== src/Base/Table.antt =====
-- A table whose entries stand in the order of their keys (the database's tables, the standard
-- library's `BTreeMap`), over a strict Boolean order of the keys.
pub mod Removal
pub mod Rows
use modelsentry.Base.{
  ◌≡◌, Bool, true, false, List, [], ◌∷◌, Option, none, some, map, arith, if◌then◌else◌, refl, inl,
  inr, All, ◌||◌, filter, not, ap, Bool-cases, ◌∙◌,
}
use modelsentry.Base.Assoc.{Keys, Assoc, get, remove}

module _ {K : Type 0} (ks : Keys K) (less : K → K → Bool) {V : Type 0} where
  abbrev pub put : Assoc K V → K → V → Assoc K V
  put [] k v = (k, v) ∷ []
  put ((j, w) ∷ m) k v =
      let rest = put m k v in
      if ks.same j k then (k, v) ∷ m else if less k j then (k, v) ∷ (j, w) ∷ m else (j, w) ∷ rest

  pub get-put :
      (m : Assoc K V) (k j : K) (v : V)
      → get ks (put m k v) j ≡ (if ks.same k j then some v else get ks m j)
  get-put [] k j v = ground arith
  get-put ((i, w) ∷ m) k j v =
      ground (arith, ks.same_iff i k, ks.same_iff i j, ks.same_iff k j, get-put m k j v)

  pub put-All :
      (P : K × V → Type 0) (m : Assoc K V) (k : K) (v : V) → All P m → P (k, v) → All P (put m k v)
  put-All P [] k v h p = (p, tt)
  put-All P ((j, w) ∷ m) k v h p = elim (Bool-cases (ks.same j k)) [
    | inl t ↦ rw t (p, h.1)
    | inr t ↦ rw t (elim (Bool-cases (less k j)) [
      | inl u ↦ rw u (p, h)
      | inr u ↦ rw u (h.0, put-All P m k v h.1 p)
    ])
  ]

abbrev pub is_some : {A : Type 0} → Option A → Bool
is_some none = false
is_some (some a) = true

abbrev pub values : {K V : Type 0} → Assoc K V → List V
values m = map (λ entry. entry.1) m

abbrev pub keys : {K V : Type 0} → Assoc K V → List K
keys m = map (λ entry. entry.0) m
