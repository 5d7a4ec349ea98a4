-- ===== src/Drift/Shuffle.antt =====
-- The Fisher-Yates shuffle of crates/core/src/drift/twosample.rs. `swap` panics out of bounds, which
-- is `none` here.
use native.Mathlib.Decide.{ℕ_discrete}
use modelsentry.Base.{
  ℕ, zero, suc, ◌+◌, ◌-◌, ◌<◌, ◌≡◌, refl, ◌∙◌, arith, Option, none, some, List, [], ◌∷◌, length,
  get_elem?, set, count, count-set, length-set, get_elem?-lt, get_elem?-set_self, get_elem?-set_ne,
}
use modelsentry.Drift.Rng.{SplitMix64, next_bounded, next_bounded-lt}

-- `slice.swap(i, j)`
swap : List ℕ → ℕ → ℕ → Option (List ℕ)
swap xs i j = elim (get_elem? xs i) [
  | none ↦ none
  | some a ↦ elim (get_elem? xs j) [ none ↦ none | some b ↦ some (set (set xs i b) j a) ]
]

-- The rounds `i = n, …, 1` of the loop.
shuffle_from : ℕ → List ℕ → SplitMix64 → Option (List ℕ × SplitMix64)
shuffle_from zero xs rng = some (xs, rng)
shuffle_from (suc i) xs rng =
    let draw = next_bounded rng (suc i + 1) in
    elim (swap xs (suc i) draw.0) [ none ↦ none | some ys ↦ shuffle_from i ys draw.1 ]

unfoldable pub fisher_yates : List ℕ → SplitMix64 → Option (List ℕ × SplitMix64)
unfolding swap shuffle_from
fisher_yates xs rng = shuffle_from (length xs - 1) xs rng

-- The same numbers, each as often, in a list of the same length.
abbrev pub SameItems : List ℕ → List ℕ → Type 0
SameItems xs ys = (length ys ≡ length xs) × ((a : ℕ) → count a ys ≡ count a xs)

pub SameItems-trans : (xs ys zs : List ℕ) → SameItems xs ys → SameItems ys zs → SameItems xs zs
SameItems-trans xs ys zs p q = (q.0 ∙ p.0, λ a. q.1 a ∙ p.1 a)

-- In the first write position `i` receives `b`, and position `j` still holds `b` or has received it.
reads_after :
    (xs : List ℕ) (i j : ℕ) (b : ℕ)
    → i < length xs
    → get_elem? xs j ≡ some b
    → get_elem? (set xs i b) j ≡ some b
reads_after xs i j b h e = elim (ℕ_discrete i j) [
  | yes p ↦ rw (← p) (get_elem?-set_self xs i b h)
  | no n ↦ get_elem?-set_ne xs b n ∙ e
]

count-swap :
    (xs : List ℕ) (i j a b c : ℕ)
    → i < length xs
    → get_elem? xs i ≡ some a
    → get_elem? xs j ≡ some b
    → count c (set (set xs i b) j a) ≡ count c xs
count-swap xs i j a b c h p q =
    omega (arith, count-set c xs i b p, count-set c (set xs i b) j a (reads_after xs i j b h q))

swap_total :
    (xs : List ℕ) (i j : ℕ)
    → i < length xs
    → j < length xs
    → (ys : List ℕ) × (swap xs i j ≡ some ys) × SameItems xs ys
unfolding swap
swap_total xs i j hi hj =
    let (a, p) = get_elem?-lt xs i hi in
    let (b, q) = get_elem?-lt xs j hj in
    (
      set (set xs i b) j a,
      rw (p, q, swap),
      (length-set (set xs i b) j a ∙ length-set xs i b, λ c. count-swap xs i j a b c hi p q),
    )

shuffle_from_total :
    (i : ℕ) (xs : List ℕ) (rng : SplitMix64)
    → i < length xs
    → (ys : List ℕ) × (out : SplitMix64) × (shuffle_from i xs rng ≡ some (ys, out))
      × SameItems xs ys
unfolding shuffle_from
shuffle_from_total zero xs rng h = (xs, rng, refl, (refl, λ a. refl))
shuffle_from_total (suc i) xs rng h =
    let j : ℕ = (next_bounded rng (suc i + 1)).0 in
    let (ys, e, s) =
      swap_total xs (suc i) j h (omega (arith, next_bounded-lt rng (suc i + 1) (omega arith))) in
    let (zs, out, f, t) =
      shuffle_from_total i ys (next_bounded rng (suc i + 1)).1 (omega (arith, s.0)) in
    (zs, out, rw (e, shuffle_from) f, SameItems-trans xs ys zs s t)

-- The shuffle never indexes out of bounds, and its result has every number as often as its input,
-- in a list of the same length.
pub fisher_yates-SameItems :
    (xs : List ℕ) (rng : SplitMix64)
    → (ys : List ℕ) × (out : SplitMix64) × (fisher_yates xs rng ≡ some (ys, out)) × SameItems xs ys
unfolding fisher_yates
fisher_yates-SameItems [] rng = ([], rng, refl, (refl, λ a. refl))
fisher_yates-SameItems (x ∷ xs) rng =
    shuffle_from_total (length (x ∷ xs) - 1) (x ∷ xs) rng (omega arith)
