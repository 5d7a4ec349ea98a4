-- ===== src/Drift/Embedding.antt =====
-- Validated embedding vectors (crates/core/src/drift/mod.rs).
use modelsentry.Base.{
  ℕ, ◌<◌, Option, ap, ◌∙◌, length-map, length-replicate, ◌≡◌, refl, ◌↔◌, true, false, not, List, [],
  ◌∷◌, map, none, some, arith, length, first, find, any, All, all, is_empty, replicate, foldl,
  zip_with, ◌==◌,
}
use modelsentry.Common.Error.{ModelSentryError, Result, ok, err, ◌>>=◌, ◌>>◌, fail_if, says, ok_or}
use modelsentry.Float.{FloatOps}
use modelsentry.Drift.Kernel.{sum_of}

pub record Embedding (F : Type 0) : Type 0 where
  pub values : List F

module _ {F : Type 0} (o : FloatOps F) where
  unfoldable pub new : List F → Result (Embedding F)
  new raw = do
    fail_if (is_empty raw) ModelSentryError.empty_embedding
    fail_if (any (λ v. not (o.is_finite v)) raw)
        (ModelSentryError.drift (says "embedding contains non-finite values (NaN or Inf)"))
    ok (record { values = raw })

  abbrev pub dim : Embedding F → ℕ
  dim e = length e.values

  -- `for (s, v) in sum.iter_mut().zip(e)`: the tail of a longer sum stays as it is.
  abbrev pub add_values : List F → List F → List F
  add_values [] vs = []
  add_values (s ∷ ss) [] = s ∷ ss
  add_values (s ∷ ss) (v ∷ vs) = o.add s v ∷ add_values ss vs

  abbrev pub sums_of : ℕ → List (Embedding F) → List F
  sums_of d es =
      foldl (λ sums (e : Embedding F). add_values sums e.values) (replicate d (o.of_nat 0)) es

  -- The mean, unless an embedding of another dimension was found.
  abbrev pub mean_unless : ℕ → List (Embedding F) → Option (Embedding F) → Result (Embedding F)
  mean_unless d es none = new (map (λ s. o.div s (o.of_nat (length es))) (sums_of d es))
  mean_unless d es (some other) = err (ModelSentryError.dimension_mismatch d (dim other))

  unfoldable pub centroid : List (Embedding F) → Result (Embedding F)
  centroid embeddings = do
    head ← ok_or (first embeddings) ModelSentryError.empty_embedding
    let d = dim head
    mean_unless d embeddings (find (λ e. not (dim e == d)) embeddings)

  unfoldable pub dot : Embedding F → Embedding F → Result F
  dot a b = do
    fail_if (not (dim a == dim b)) (ModelSentryError.dimension_mismatch (dim a) (dim b))
    ok (sum_of o (zip_with o.mul a.values b.values))

  unfoldable pub l2_norm : Embedding F → F
  l2_norm e = o.sqrt (sum_of o (map (λ v. o.mul v v) e.values))

  -- What the constructor promises of every embedding.
  abbrev pub IsEmbedding : Embedding F → Type 0
  IsEmbedding e = (0 < dim e) × (all o.is_finite e.values ≡ true)

  all_finite_iff :
      (xs : List F) → (any (λ v. not (o.is_finite v)) xs ≡ false) ↔ (all o.is_finite xs ≡ true)
  all_finite_iff [] = (λ h. refl, λ h. refl)
  all_finite_iff (x ∷ xs) =
      (λ h. ground (arith, (all_finite_iff xs).0), λ h. ground (arith, (all_finite_iff xs).1))

  -- `new` accepts a vector exactly when it is not empty and every value is finite, and then holds
  -- that vector.
  pub new_iff :
      (raw : List F) (e : Embedding F)
      → (new raw ≡ ok e) ↔ ((e.values ≡ raw) × (0 < length raw) × (all o.is_finite raw ≡ true))
  unfolding new
  new_iff [] e = (λ h. absurd (cc), λ h. absurd (omega (arith, h.1)))
  new_iff (x ∷ xs) e = (
    λ h. ground (arith, (all_finite_iff (x ∷ xs)).0),
    λ h. ground (arith, (all_finite_iff (x ∷ xs)).1, h.0),
  )

  length-add_values : (ss vs : List F) → length (add_values ss vs) ≡ length ss
  length-add_values [] vs = refl
  length-add_values (s ∷ ss) [] = refl
  length-add_values (s ∷ ss) (v ∷ vs) = ground (arith, length-add_values ss vs)

  length-foldl :
      (es : List (Embedding F)) (sums : List F)
      → length (foldl (λ sums (e : Embedding F). add_values sums e.values) sums es) ≡ length sums
  length-foldl [] sums = refl
  length-foldl (e ∷ es) sums =
      ground (arith, length-foldl es (add_values sums e.values), length-add_values sums e.values)

  same_dims :
      (d : ℕ) (es : List (Embedding F))
      → find (λ e. not (dim e == d)) es ≡ none
      → All (λ e. dim e ≡ d) es
  same_dims d [] h = tt
  same_dims d (e ∷ es) h = ground (arith, same_dims d es)

  mean_shape :
      (d : ℕ) (es : List (Embedding F)) (c : Embedding F)
      → new (map (λ s. o.div s (o.of_nat (length es))) (sums_of d es)) ≡ ok c
      → (dim c ≡ d) × (all o.is_finite c.values ≡ true)
  mean_shape d es c h =
      let mean = map (λ s. o.div s (o.of_nat (length es))) (sums_of d es) in
      let (values, some_value, finite) = (new_iff mean c).0 h in
      (
        ap length values
            ∙ length-map (sums_of d es) _
            ∙ length-foldl es (replicate d (o.of_nat 0))
            ∙ length-replicate d (o.of_nat 0),
        rw values finite,
      )

  unless_shape :
      (d : ℕ) (es : List (Embedding F)) (c : Embedding F) (other : Option (Embedding F))
      → find (λ e. not (dim e == d)) es ≡ other
      → mean_unless d es other ≡ ok c
      → All (λ x. dim x ≡ d) es × (dim c ≡ d) × (all o.is_finite c.values ≡ true)
  unless_shape d es c none same h =
      let (m₁, m₂) = mean_shape d es c h in (same_dims d es same, m₁, m₂)
  unless_shape d es c (some x) same h = absurd (cc)

  -- A centroid exists only of embeddings that all have the dimension of the first; it has that
  -- dimension too, and only finite values.
  pub centroid_shape :
      (e : Embedding F) (es : List (Embedding F)) (c : Embedding F)
      → centroid (e ∷ es) ≡ ok c
      → All (λ x. dim x ≡ dim e) (e ∷ es) × (dim c ≡ dim e) × (all o.is_finite c.values ≡ true)
  unfolding centroid
  centroid_shape e es c h = unless_shape (dim e) (e ∷ es) c _ refl h
