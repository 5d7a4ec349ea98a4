-- ===== src/Drift/Kernel.antt =====
-- Distances, the median bandwidth and the kernel matrix of
-- crates/core/src/drift/twosample.rs.
pub mod Cells
pub mod Gram
use modelsentry.Base.{
  ℕ, suc, ◌+◌, ◌-◌, ◌*◌, ◌/◌, ◌%◌, ◌&&◌, List, [], ◌∷◌, ◌++◌, map, length, get_or, set, replicate,
  foldl, zip_with, is_empty, ◌==◌, if◌then◌else◌,
}
use modelsentry.Float.{Floats, FloatOps}

pub data Kernel (F : Type 0) : Type 0 where
  rbf : F → Kernel F
  energy : Kernel F

-- `iter().sum()`
abbrev pub sum_of : {F : Type 0} → FloatOps F → List F → F
sum_of o = foldl o.add (o.of_nat 0)

module _ {F32 F64 : Type 0} (fl : Floats F32 F64) where
  open fl use {single, double, widen}

  unfoldable pub rbf_median : Kernel F32
  rbf_median = rbf single.nan

  abbrev pub sq_diff : F32 → F32 → F64
  sq_diff x y = let d = double.sub (widen x) (widen y) in double.mul d d

  unfoldable pub sq_dist : List F32 → List F32 → F64
  sq_dist a b = sum_of double (zip_with sq_diff a b)

  -- The distances of every pair, the earlier point first.
  abbrev pub pair_distances : List (List F32) → List F64
  pair_distances [] = []
  pair_distances (a ∷ rest) = map (λ b. double.sqrt (sq_dist a b)) rest ++ pair_distances rest

  -- A stable sort; where `partial_cmp` has no answer the two count as equal.
  abbrev pub insert_sorted : F64 → List F64 → List F64
  insert_sorted x [] = x ∷ []
  insert_sorted x (y ∷ ys) =
      let rest = insert_sorted x ys in if double.lt x y then x ∷ y ∷ ys else y ∷ rest

  abbrev pub sort_floats : List F64 → List F64
  sort_floats = foldl (λ sorted x. insert_sorted x sorted) []

  abbrev pub bandwidth_floor : F32
  bandwidth_floor = single.decimal 1 6

  abbrev pub midpoint : F64 → F64 → F64
  midpoint a b = double.div (double.add a b) (double.of_nat 2)

  abbrev pub median_of : List F64 → F64
  median_of dists =
      let mid = length dists / 2 in
      let zero_f = double.of_nat 0 in
      if length dists % 2 == 0
      then midpoint (get_or dists (mid - 1) zero_f) (get_or dists mid zero_f)
      else get_or dists mid zero_f

  unfoldable pub median_heuristic_bandwidth : List (List F32) → F64
  median_heuristic_bandwidth points =
      let dists = pair_distances points in
      if is_empty dists
      then widen bandwidth_floor
      else double.max (median_of (sort_floats dists)) (widen bandwidth_floor)

  unfoldable pub bandwidth_of : Kernel F32 → List (List F32) → F64
  bandwidth_of (rbf bandwidth) points =
      if single.is_finite bandwidth && single.lt (single.of_nat 0) bandwidth
      then widen bandwidth
      else median_heuristic_bandwidth points
  bandwidth_of energy points = double.of_nat 0

  -- The kernel of two points, from their squared distance.
  abbrev pub kernel_value : Kernel F32 → F64 → F64 → F64
  kernel_value (rbf bandwidth) two_sigma_sq d2 =
      double.exp (double.div (double.neg d2) two_sigma_sq)
  kernel_value energy two_sigma_sq d2 = double.neg (double.sqrt d2)

  abbrev pub two_sigma_sq_of : F64 → F64
  two_sigma_sq_of bandwidth = double.mul (double.mul (double.of_nat 2) bandwidth) bandwidth

  -- One row of the upper triangle: entry (i, j) and its mirror image for each point `b`, the `j`-th.
  gram_row : Kernel F32 → F64 → ℕ → List F32 → ℕ → ℕ → List (List F32) → List F64 → List F64
  gram_row kernel sigma n a i j [] gram = gram
  gram_row kernel sigma n a i j (b ∷ bs) gram =
      let k = kernel_value kernel sigma (sq_dist a b) in
      gram_row kernel sigma n a i (suc j) bs (set (set gram (i * n + j) k) (j * n + i) k)

  gram_rows : Kernel F32 → F64 → ℕ → ℕ → List (List F32) → List F64 → List F64
  gram_rows kernel sigma n i [] gram = gram
  gram_rows kernel sigma n i (a ∷ rest) gram =
      gram_rows kernel sigma n (suc i) rest (gram_row kernel sigma n a i i (a ∷ rest) gram)

  unfoldable pub gram_matrix : List (List F32) → Kernel F32 → List F64
  unfolding gram_row gram_rows
  gram_matrix points kernel =
      let n = length points in
      gram_rows kernel (two_sigma_sq_of (bandwidth_of kernel points)) n 0 points
        (replicate (n * n) (double.of_nat 0))
