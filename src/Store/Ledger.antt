-- ===== src/Store/Ledger.antt =====
-- The ledger of spent alpha (crates/store/src/spend_store.rs). A key is the text of a rule's
-- identifier and a zero-padded count of nanoseconds, both of fixed width: their order is that of the
-- pair. The table is kept in the order of its keys, the order that a range scan has.
pub mod Window
use modelsentry.Base.{
  ℕ, ◌-◌, ◌^◌, Bool, not, ◌&&◌, ◌||◌, List, [], ◌∷◌, filter, foldl, ◌==◌, ltb, leb, if◌then◌else◌,
}
use modelsentry.Base.Int.{pos_part}
use modelsentry.Common.Models.{Uuid}
use modelsentry.Common.Time.{Time}
use modelsentry.Float.{FloatOps}

pub record Entry (F64 : Type 0) : Type 0 where
  pub rule : Uuid
  pub nanos : ℕ
  pub alpha : F64

-- `nanos_of` with the `max(0)` of `key_at`: an instant before the epoch counts as the epoch, one
-- past the range of the type as its end.
abbrev pub max_nanos : ℕ
max_nanos = 9223372036854775807

abbrev pub key_nanos : Time → ℕ
key_nanos at = if leb (pos_part at) max_nanos then pos_part at else max_nanos

module _ {F64 : Type 0} where
  abbrev pub same_key : Entry F64 → Entry F64 → Bool
  same_key x y = x.rule == y.rule && x.nanos == y.nanos

  abbrev pub key_below : Entry F64 → Entry F64 → Bool
  key_below x y = ltb x.rule y.rule || (x.rule == y.rule && ltb x.nanos y.nanos)

  -- `table.insert`
  abbrev pub put : List (Entry F64) → Entry F64 → List (Entry F64)
  put [] e = e ∷ []
  put (x ∷ xs) e =
      let rest = put xs e in
      if same_key x e then e ∷ xs else if key_below e x then e ∷ x ∷ xs else x ∷ rest

  -- From `key_at(rule, lo)` to the end of the rule's keys.
  abbrev pub since_lo : Uuid → ℕ → Entry F64 → Bool
  since_lo rule lo x = x.rule == rule && leb lo x.nanos

  abbrev pub is_stale : Uuid → ℕ → Entry F64 → Bool
  is_stale rule hi x = x.rule == rule && ltb x.nanos hi

module _ {F64 : Type 0} (o : FloatOps F64) where
  unfoldable pub spent_since : List (Entry F64) → Uuid → Time → F64
  spent_since table rule since =
      foldl
        (λ total (x : Entry F64).
          if since_lo rule (key_nanos since) x then o.add total x.alpha else total)
        (o.of_nat 0) table

  unfoldable pub record_spend : List (Entry F64) → Uuid → Time → F64 → Time → List (Entry F64)
  record_spend table rule at alpha prune_before =
      filter (λ x. not (is_stale rule (key_nanos prune_before) x))
        (put table (record { rule = rule; nanos = key_nanos at; alpha = alpha }))
