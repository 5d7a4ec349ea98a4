-- ===== src/Base/Assoc.antt =====
-- A keyed map as an association list (the standard library's `HashMap`, whose iteration order the
-- source never relies on), over keys with a Boolean equality.
use modelsentry.Base.{◌≡◌, ◌↔◌, Bool, true, Option, none, some, List, [], ◌∷◌, arith, if◌then◌else◌}

pub record Keys (K : Type 0) : Type 0 where
  pub same : K → K → Bool
  pub same_iff : (j k : K) → (same j k ≡ true) ↔ (j ≡ k)

abbrev pub Assoc : Type 0 → Type 0 → Type 0
Assoc K V = List (K × V)

module _ {K : Type 0} (ks : Keys K) {V : Type 0} where
  abbrev pub get : Assoc K V → K → Option V
  get [] k = none
  get ((j, v) ∷ m) k = if ks.same j k then some v else get m k

  abbrev pub remove : Assoc K V → K → Assoc K V
  remove [] k = []
  remove ((j, v) ∷ m) k = let rest = remove m k in if ks.same j k then rest else (j, v) ∷ rest

  abbrev pub insert : Assoc K V → K → V → Assoc K V
  insert m k v = (k, v) ∷ remove m k

  pub get-remove :
      (m : Assoc K V) (k j : K) → get (remove m k) j ≡ (if ks.same k j then none else get m j)
  get-remove [] k j = ground arith
  get-remove ((i, w) ∷ m) k j =
      ground (arith, ks.same_iff i k, ks.same_iff i j, ks.same_iff k j, get-remove m k j)

  pub get-insert :
      (m : Assoc K V) (k j : K) (v : V)
      → get (insert m k v) j ≡ (if ks.same k j then some v else get m j)
  get-insert m k j v = ground (arith, get-remove m k j)
