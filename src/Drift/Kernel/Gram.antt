-- ===== src/Drift/Kernel/Gram.antt =====
-- The mirrored upper triangle of `gram_matrix` is the full kernel matrix.
use modelsentry.Base.{
  ℕ, zero, suc, ◌+◌, ◌*◌, ◌≤◌, ◌<◌, ◌≡◌, ◌≢◌, refl, ap, ◌∙◌, ◌⊎◌, inl, inr, arith, List, [], ◌∷◌,
  some, length, get_elem?, length-replicate, lt_of_get_elem?, length-set, zip_with,
}
use modelsentry.Float.{Floats, FloatsLaws}
use modelsentry.Drift.Kernel.{
  Kernel, sum_of, sq_diff, sq_dist, kernel_value, two_sigma_sq_of, bandwidth_of, gram_row,
  gram_rows, gram_matrix,
}
use modelsentry.Drift.Kernel.Cells.{
  cell, cell-lt, cell-injective, twice_set_ne, twice_set_first, twice_set_second,
}

module _ {F32 F64 : Type 0} (fl : Floats F32 F64) where
  open fl use {double}

  -- The value for two points.
  abbrev pub kernel_of : Kernel F32 → F64 → List F32 → List F32 → F64
  kernel_of kernel sigma a b = kernel_value fl kernel sigma (sq_dist fl a b)

  module _ (kernel : Kernel F32) (sigma : F64) (n : ℕ) where
    length-gram_row :
        (a : List F32) (i j : ℕ) (bs : List (List F32)) (g : List F64)
        → length (gram_row fl kernel sigma n a i j bs g) ≡ length g
    unfolding gram_row
    length-gram_row a i j [] g = refl
    length-gram_row a i j (b ∷ bs) g =
        length-gram_row a i (suc j) bs _ ∙ length-set _ (j * n + i) _ ∙ length-set g (i * n + j) _

    -- Row `i` from column `j` on leaves the cells of earlier rows and columns alone, and those of
    -- its own row and column that come before `j`.
    abbrev IsBefore : ℕ → ℕ → ℕ → ℕ → Type 0
    IsBefore i j r c = (r < i) ⊎ ((c < i) ⊎ (((r ≡ i) × (c < j)) ⊎ ((c ≡ i) × (r < j))))

    misses :
        (i j r c : ℕ)
        → i ≤ j
        → j < n
        → c < n
        → IsBefore i j r c
        → (cell n i j ≢ cell n r c) × (cell n j i ≢ cell n r c)
    misses i j r c h hj hc before = (
      λ e. ground (arith, cell-injective n i j r c hj hc e),
      λ e. ground (arith, cell-injective n j i r c (omega arith) hc e),
    )

    gram_row_keeps :
        (a : List F32) (i j : ℕ) (bs : List (List F32)) (g : List F64) (r c : ℕ)
        → i ≤ j
        → j + length bs ≡ n
        → c < n
        → IsBefore i j r c
        → get_elem? (gram_row fl kernel sigma n a i j bs g) (cell n r c) ≡ get_elem? g (cell n r c)
    unfolding gram_row
    gram_row_keeps a i j [] g r c h e hc before = refl
    gram_row_keeps a i j (b ∷ bs) g r c h e hc before =
        let (p, q) = misses i j r c h (omega arith) hc before in
        gram_row_keeps a i (suc j) bs _ r c (omega arith) (omega arith) hc (ground arith)
        ∙ twice_set_ne g (cell n i j) (cell n j i) (cell n r c) _ p q

    gram_row_head :
        (a b : List F32) (i j : ℕ) (bs : List (List F32)) (g : List F64)
        → i ≤ j
        → j + suc (length bs) ≡ n
        → length g ≡ n * n
        → let out = gram_row fl kernel sigma n a i j (b ∷ bs) g in
          (get_elem? out (cell n i j) ≡ some (kernel_of kernel sigma a b))
          × (get_elem? out (cell n j i) ≡ some (kernel_of kernel sigma a b))
    unfolding gram_row
    gram_row_head a b i j bs g h e len =
        let p = cell-lt n i j (omega arith) (omega arith) in
        let q = cell-lt n j i (omega arith) (omega arith) in
        (
          gram_row_keeps a i (suc j) bs _ i j (omega arith) (omega arith) (omega arith)
                (inr (inr (inl (refl, omega arith))))
              ∙ twice_set_first g (cell n i j) (cell n j i) _ (omega (arith, p)) (omega (arith, q)),
          gram_row_keeps a i (suc j) bs _ j i (omega arith) (omega arith) (omega arith)
                (inr (inr (inr (refl, omega arith))))
              ∙ twice_set_second g (cell n i j) (cell n j i) _ (omega (arith, q)),
        )

    -- Row `i` fills its own cells and their mirror images.
    gram_row_fills :
        (a : List F32) (i j : ℕ) (bs : List (List F32)) (g : List F64) (l m : ℕ) (b : List F32)
        → i ≤ j
        → j + length bs ≡ n
        → length g ≡ n * n
        → get_elem? bs l ≡ some b
        → j + l ≡ m
        → let out = gram_row fl kernel sigma n a i j bs g in
          (get_elem? out (cell n i m) ≡ some (kernel_of kernel sigma a b))
          × (get_elem? out (cell n m i) ≡ some (kernel_of kernel sigma a b))
    unfolding gram_row
    gram_row_fills a i j [] g l m b h e len at sum = absurd (cc)
    gram_row_fills a i j (b' ∷ bs) g zero m b h e len at sum =
        let em : m ≡ j = omega arith in
        let eb : b ≡ b' = cc in rw (em, eb) (gram_row_head a b' i j bs g h e len)
    gram_row_fills a i j (b' ∷ bs) g (suc l) m b h e len at sum =
        gram_row_fills a i (suc j) bs _ l m b (omega arith) (omega arith)
          (length-set _ (j * n + i) _ ∙ length-set g (i * n + j) _ ∙ len) at (omega arith)

    -- The later rows leave the earlier rows and columns alone.
    gram_rows_keeps :
        (i : ℕ) (rest : List (List F32)) (g : List F64) (r c : ℕ)
        → i + length rest ≡ n
        → c < n
        → (r < i) ⊎ (c < i)
        → get_elem? (gram_rows fl kernel sigma n i rest g) (cell n r c) ≡ get_elem? g (cell n r c)
    unfolding gram_rows
    gram_rows_keeps i [] g r c e hc before = refl
    gram_rows_keeps i (a ∷ rest) g r c e hc before =
        gram_rows_keeps (suc i) rest _ r c (omega arith) hc (omega arith)
        ∙ gram_row_keeps a i i (a ∷ rest) g r c (omega arith) e hc (ground arith)

    module _ (sq_comm : (a b : List F32) → sq_dist fl a b ≡ sq_dist fl b a) where
      gram_rows_fills :
          (i : ℕ) (rest : List (List F32)) (g : List F64) (u v r c : ℕ) (p q : List F32)
          → i + length rest ≡ n
          → length g ≡ n * n
          → get_elem? rest u ≡ some p
          → get_elem? rest v ≡ some q
          → i + u ≡ r
          → i + v ≡ c
          → c < n
          → get_elem? (gram_rows fl kernel sigma n i rest g) (cell n r c)
            ≡ some (kernel_of kernel sigma p q)
      unfolding gram_rows
      gram_rows_fills i [] g u v r c p q e len eu ev er ec hc = absurd (cc)
      gram_rows_fills i (a ∷ rest) g zero v r c p q e len eu ev er ec hc =
          let er' : r ≡ i = omega arith in
          let ep : p ≡ a = cc in
          rw (er', ep)
            (gram_rows_keeps (suc i) rest _ i c (omega arith) hc (inl (omega arith))
              ∙ (gram_row_fills a i i (a ∷ rest) g v c q (omega arith) e len ev ec).0)
      gram_rows_fills i (a ∷ rest) g (suc u) zero r c p q e len eu ev er ec hc =
          let ec' : c ≡ i = omega arith in
          let eq : q ≡ a = cc in
          rw (ec', eq)
            (gram_rows_keeps (suc i) rest _ r i (omega arith) (omega arith) (inr (omega arith))
              ∙ (gram_row_fills a i i (a ∷ rest) g (suc u) r p (omega arith) e len eu er).1
              ∙ ap (λ d. some (kernel_value fl kernel sigma d)) (sq_comm a p))
      gram_rows_fills i (a ∷ rest) g (suc u) (suc v) r c p q e len eu ev er ec hc =
          gram_rows_fills (suc i) rest _ u v r c p q (omega arith)
            (length-gram_row a i i (a ∷ rest) g ∙ len) eu ev (omega arith) (omega arith) hc

  module _ (laws : FloatsLaws fl) where
    zip_comm : (a b : List F32) → zip_with (sq_diff fl) a b ≡ zip_with (sq_diff fl) b a
    zip_comm [] [] = refl
    zip_comm [] (y ∷ b) = refl
    zip_comm (x ∷ a) [] = refl
    zip_comm (x ∷ a) (y ∷ b) =
        cc (laws.on_double.sub_square (fl.widen x) (fl.widen y), zip_comm a b)

    -- The squared distance does not depend on the order of its arguments, rounding included.
    pub sq_dist_comm : (a b : List F32) → sq_dist fl a b ≡ sq_dist fl b a
    unfolding sq_dist
    sq_dist_comm a b = ap (sum_of double) (zip_comm a b)

    -- Every cell (i, j) of the matrix that `gram_matrix` builds by halves holds the kernel of the
    -- i-th and the j-th point, at the bandwidth chosen for all points.
    pub gram_matrix-get_elem? :
        (points : List (List F32)) (kernel : Kernel F32) (i j : ℕ) {a b : List F32}
        → get_elem? points i ≡ some a
        → get_elem? points j ≡ some b
        → get_elem? (gram_matrix fl points kernel) (i * length points + j)
          ≡ some (kernel_of kernel (two_sigma_sq_of fl (bandwidth_of fl kernel points)) a b)
    unfolding gram_matrix
    gram_matrix-get_elem? points kernel i j ei ej =
        gram_rows_fills kernel _ (length points) sq_dist_comm 0 points _ i j i j _ _ (omega arith)
          (length-replicate _ _) ei ej (omega arith) (omega arith) (lt_of_get_elem? points j ej)
