-- ===== src/Store/Snapshots/Latest.antt =====
-- Which baseline is the latest, and what the deletion of a probe's baselines leaves
-- (crates/store/src/baseline_store.rs).
use modelsentry.Base.{
  [], false, none, some, List, Option, ◌≡◌, ◌++◌, All, ◌∷◌, refl, inl, inr, arith, foldl,
  Bool-cases, All-append, ◌∙◌,
}
use modelsentry.Common.Models.{BaselineSnapshot, Uuid}
use modelsentry.Store.Snapshots.{later, ltb_ℤ, get_latest_for_probe, Assoc, list_for_probe}
use mathlib.Core.Path.{subst, sym, ap}
use mathlib.Core.List.{append-nil, append_assoc}

module _ {F : Type 0} where
  -- No earlier than any of the list, and one of it.
  abbrev pub IsLatestOf : List (BaselineSnapshot F) → Option (BaselineSnapshot F) → Type 0
  IsLatestOf bs none = bs ≡ []
  IsLatestOf bs (some b) =
      All (λ (x : BaselineSnapshot F). ltb_ℤ b.captured_at x.captured_at ≡ false) bs
      × ((front : List (BaselineSnapshot F)) × (back : List (BaselineSnapshot F)) × (bs
            ≡ front ++ b ∷ back))

  no_later :
      (best b : BaselineSnapshot F) (bs : List (BaselineSnapshot F))
      → ltb_ℤ b.captured_at best.captured_at ≡ false
      → All (λ (x : BaselineSnapshot F). ltb_ℤ best.captured_at x.captured_at ≡ false) bs
      → All (λ (x : BaselineSnapshot F). ltb_ℤ b.captured_at x.captured_at ≡ false) bs
  no_later best b [] t h = tt
  no_later best b (x ∷ bs) t h = (ground (arith, h.0), no_later best b bs t h.1)

  latest_snoc :
      (bs : List (BaselineSnapshot F)) (best : Option (BaselineSnapshot F)) (b : BaselineSnapshot F)
      → IsLatestOf bs best
      → IsLatestOf (bs ++ b ∷ []) (later best b)
  latest_snoc bs none b h =
      subst (λ r. IsLatestOf (r ++ b ∷ []) (some b)) (sym h) ((ground arith, tt), ([], [], refl))
  latest_snoc bs (some best) b (none_after, (front, back, at)) =
      elim (Bool-cases (ltb_ℤ b.captured_at best.captured_at)) [
        | inl t ↦ rw t (
          All-append _ bs (b ∷ []) none_after (ground arith, tt),
          (front, back ++ b ∷ [], ap (λ r. r ++ b ∷ []) at ∙ append_assoc front (best ∷ back) _),
        )
        | inr t ↦ rw t (
          All-append _ bs (b ∷ []) (no_later best b bs t none_after) (ground arith, tt),
          (bs, [], refl),
        )
      ]

  latest_foldl :
      (es bs : List (BaselineSnapshot F)) (best : Option (BaselineSnapshot F))
      → IsLatestOf bs best
      → IsLatestOf (bs ++ es) (foldl later best es)
  latest_foldl [] bs best h = subst (λ r. IsLatestOf r best) (sym (append-nil bs)) h
  latest_foldl (e ∷ es) bs best h =
      subst (λ r. IsLatestOf r (foldl later (later best e) es)) (append_assoc bs (e ∷ []) es)
        (latest_foldl es (bs ++ e ∷ []) (later best e) (latest_snoc bs best e h))

  -- The latest baseline of a probe is one of those listed for it, and none of them was captured
  -- later; there is none exactly when none is listed.
  pub get_latest_for_probe-IsLatestOf :
      (table : Assoc Uuid (BaselineSnapshot F)) (probe_id : Uuid)
      → IsLatestOf (list_for_probe table probe_id) (get_latest_for_probe table probe_id)
  unfolding get_latest_for_probe
  get_latest_for_probe-IsLatestOf table probe_id =
      latest_foldl (list_for_probe table probe_id) [] none refl
