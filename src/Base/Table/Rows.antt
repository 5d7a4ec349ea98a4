-- ===== src/Base/Table/Rows.antt =====
-- The rows of a table in which a new row stands.
use mathlib.Core.List.Permᴰ
use modelsentry.Base.{filter, [], refl, inl, inr, true, false, none, Bool, ◌∷◌, ◌≡◌, Bool-cases}
use modelsentry.Base.Assoc.{Keys, Assoc, get}
use mathlib.Core.List.{Permᴰ}
use modelsentry.Base.Table.{values, put}

module _ {K : Type 0} (ks : Keys K) (less : K → K → Bool) {V : Type 0} where
  absent-tail :
      (j k : K) (w : V) (m : Assoc K V)
      → get ks ((j, w) ∷ m) k ≡ none
      → (ks.same j k ≡ false) × (get ks m k ≡ none)
  absent-tail j k w m h = elim (Bool-cases (ks.same j k)) [
    | inl t ↦ absurd (cc (rw t at h))
    | inr t ↦ (t, rw t at h)
  ]

  -- A row under a new key that passes the filter stands beside the rows that passed it before.
  pub filter-put-new :
      (p : V → Bool) (m : Assoc K V) (k : K) (v : V)
      → get ks m k ≡ none
      → p v ≡ true
      → Permᴰ (filter p (values (put ks less m k v))) (v ∷ filter p (values m))
  filter-put-new p [] k v h t = rw t (Permᴰ.refl _)
  filter-put-new p ((j, w) ∷ m) k v h t =
      let (other, later) = absent-tail j k w m h in
      rw other (elim (Bool-cases (less k j)) [
        | inl u ↦ rw (u, t) (Permᴰ.refl _)
        | inr u ↦ rw u (elim (Bool-cases (p w)) [
          | inl q ↦ rw q (
              Permᴰ.trans (Permᴰ.cons refl (filter-put-new p m k v later t)) (Permᴰ.swap refl refl))
          | inr q ↦ rw q (filter-put-new p m k v later t)
        ])
      ])

  -- One that does not pass it changes nothing.
  pub filter-put-other :
      (p : V → Bool) (m : Assoc K V) (k : K) (v : V)
      → get ks m k ≡ none
      → p v ≡ false
      → filter p (values (put ks less m k v)) ≡ filter p (values m)
  filter-put-other p [] k v h t = rw t refl
  filter-put-other p ((j, w) ∷ m) k v h t =
      let (other, later) = absent-tail j k w m h in
      rw other (elim (Bool-cases (less k j)) [
        | inl u ↦ rw (u, t) refl
        | inr u ↦ rw (u, filter-put-other p m k v later t) refl
      ])
