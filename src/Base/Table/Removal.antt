-- ===== src/Base/Table/Removal.antt =====
-- Tables keyed by numbers: the ascending order of their keys, and the removal of the entries whose
-- values satisfy a test, key by key.
use modelsentry.Base.{
  refl, inl, inr, true, false, arith, ℕ, Bool, ◌==◌, List, ◌∷◌, ◌<◌, ◌≡◌, All, ==_iff, ◌||◌, ltb,
  filter, Bool-cases, not, ap, ◌∙◌, [],
}
use modelsentry.Base.Assoc.{Keys, Assoc, remove}
use modelsentry.Base.Table.{put, keys}
use mathlib.Core.Path.{subst, sym}

-- Keys as numbers.
abbrev pub nat_keys : Keys ℕ
nat_keys = record { same = λ a b. a == b; same_iff = ==_iff }

abbrev pub has_key : ℕ → List ℕ → Bool
has_key k [] = false
has_key k (j ∷ rest) = k == j || has_key k rest

module _ {V : Type 0} where
  -- The keys ascend strictly.
  abbrev pub IsAscending : Assoc ℕ V → Type 0
  IsAscending [] = Unit
  IsAscending (e ∷ m) = All (λ (x : ℕ × V). e.0 < x.0) m × IsAscending m

  All-put :
      (b k : ℕ) (v : V) (m : Assoc ℕ V)
      → b < k
      → All (λ (x : ℕ × V). b < x.0) m
      → All (λ (x : ℕ × V). b < x.0) (put nat_keys ltb m k v)
  All-put b k v [] lt h = (lt, tt)
  All-put b k v ((j, w) ∷ m) lt h = elim (Bool-cases (j == k)) [
    | inl t ↦ rw t (lt, h.1)
    | inr t ↦ rw t (elim (Bool-cases (ltb k j)) [
      | inl u ↦ rw u (lt, (h.0, h.1))
      | inr u ↦ rw u (h.0, All-put b k v m lt h.1)
    ])
  ]

  All-lt :
      (a b : ℕ) (m : Assoc ℕ V)
      → a < b
      → All (λ (x : ℕ × V). b < x.0) m
      → All (λ (x : ℕ × V). a < x.0) m
  All-lt a b [] lt h = tt
  All-lt a b (x ∷ m) lt h = (omega (arith, h.0), All-lt a b m lt h.1)

  pub put-IsAscending :
      (m : Assoc ℕ V) (k : ℕ) (v : V) → IsAscending m → IsAscending (put nat_keys ltb m k v)
  put-IsAscending [] k v h = (tt, tt)
  put-IsAscending ((j, w) ∷ m) k v h = elim (Bool-cases (j == k)) [
    | inl t ↦
        let same : j ≡ k = (==_iff j k).0 t in
        rw t (subst (λ n. All (λ (x : ℕ × V). n < x.0) m) same h.0, h.1)
    | inr t ↦ rw t (elim (Bool-cases (ltb k j)) [
      | inl u ↦ rw u ((ground arith, All-lt k j m (ground arith) h.0), (h.0, h.1))
      | inr u ↦ rw u (All-put j k v m (ground arith) h.0, put-IsAscending m k v h.1)
    ])
  ]

  abbrev pub remove_keys : Assoc ℕ V → List ℕ → Assoc ℕ V
  remove_keys m [] = m
  remove_keys m (k ∷ rest) = remove_keys (remove nat_keys m k) rest

  filter-remove :
      (k : ℕ) (rest : List ℕ) (m : Assoc ℕ V)
      → filter (λ (e : ℕ × V). not (has_key e.0 rest)) (remove nat_keys m k)
        ≡ filter (λ (e : ℕ × V). not (has_key e.0 (k ∷ rest))) m
  filter-remove k rest [] = refl
  filter-remove k rest ((j, v) ∷ m) = elim (Bool-cases (j == k)) [
    | inl u ↦ rw u (filter-remove k rest m)
    | inr u ↦ rw u (elim (Bool-cases (has_key j rest)) [
      | inl w ↦ rw w (filter-remove k rest m)
      | inr w ↦ rw w (ap (λ r. (j, v) ∷ r) (filter-remove k rest m))
    ])
  ]

  keep_all : (m : Assoc ℕ V) → m ≡ filter (λ e. true) m
  keep_all [] = refl
  keep_all (e ∷ m) = ap (λ r. e ∷ r) (keep_all m)

  remove_keys-filter :
      (m : Assoc ℕ V) (rest : List ℕ)
      → remove_keys m rest ≡ filter (λ (e : ℕ × V). not (has_key e.0 rest)) m
  remove_keys-filter m [] = keep_all m
  remove_keys-filter m (k ∷ rest) =
      remove_keys-filter (remove nat_keys m k) rest ∙ filter-remove k rest m

  module _ (q : V → Bool) where
    abbrev pub keys_where : Assoc ℕ V → List ℕ
    keys_where m = keys (filter (λ (e : ℕ × V). q e.1) m)

    absent :
        (k : ℕ) (m : Assoc ℕ V) → All (λ (x : ℕ × V). k < x.0) m → has_key k (keys_where m) ≡ false
    absent k [] h = refl
    absent k ((j, v) ∷ m) h = ground (arith, h.0, absent k m h.1)

    more :
        (j : ℕ) (rest : List ℕ) (m : Assoc ℕ V)
        → All (λ (x : ℕ × V). j < x.0) m
        → All (λ (x : ℕ × V). has_key x.0 rest ≡ q x.1) m
        → All (λ (x : ℕ × V). has_key x.0 (j ∷ rest) ≡ q x.1) m
    more j rest [] h a = tt
    more j rest (x ∷ m) h a = (ground (arith, h.0, a.0), more j rest m h.1 a.1)

    has_key-keys_where :
        (m : Assoc ℕ V) → IsAscending m → All (λ (x : ℕ × V). has_key x.0 (keys_where m) ≡ q x.1) m
    has_key-keys_where [] h = tt
    has_key-keys_where ((j, v) ∷ m) h = elim (Bool-cases (q v)) [
      | inl t ↦
          let same : j ∷ keys_where m ≡ keys_where ((j, v) ∷ m) = rw t refl in
          subst (λ ks. All (λ (x : ℕ × V). has_key x.0 ks ≡ q x.1) ((j, v) ∷ m)) same
            (ground arith, more j (keys_where m) m h.0 (has_key-keys_where m h.1))
      | inr t ↦
          let same : keys_where m ≡ keys_where ((j, v) ∷ m) = rw t refl in
          subst (λ ks. All (λ (x : ℕ × V). has_key x.0 ks ≡ q x.1) ((j, v) ∷ m)) same
            (absent j m h.0 ∙ sym t, has_key-keys_where m h.1)
    ]

    agree :
        (ks : List ℕ) (m : Assoc ℕ V)
        → All (λ (x : ℕ × V). has_key x.0 ks ≡ q x.1) m
        → filter (λ (e : ℕ × V). not (has_key e.0 ks)) m ≡ filter (λ (e : ℕ × V). not (q e.1)) m
    agree ks [] a = refl
    agree ks (x ∷ m) a = rw (a.0, agree ks m a.1) refl

    -- Removing the keys of the entries that satisfy a test leaves the others, in their order.
    pub remove_keys_where :
        (m : Assoc ℕ V)
        → IsAscending m
        → remove_keys m (keys_where m) ≡ filter (λ (e : ℕ × V). not (q e.1)) m
    remove_keys_where m h =
        remove_keys-filter m (keys_where m) ∙ agree (keys_where m) m (has_key-keys_where m h)
