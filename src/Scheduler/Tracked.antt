-- ===== src/Scheduler/Tracked.antt =====
-- No loop is lost: each task that the scheduler of crates/daemon/src/scheduler.rs spawns is either
-- the one that its map holds for a probe or has been aborted.
use mathlib.Core.Path.{subst}
use modelsentry.Base.{
  ℕ, ◌+◌, ◌≡◌, refl, Bool, false, ◌||◌, List, [], ◌∷◌, ◌++◌, map, foldl, Option, none, some, arith,
  count, ◌==◌, ==_iff, Bool-cases, inl, inr,
}
use modelsentry.Base.Int.{eqb_ℤ}
use modelsentry.Base.Assoc.{Assoc, get, remove}
use modelsentry.Common.Models.{Uuid, uuid_keys, Probe}
use modelsentry.Scheduler.{
  ActiveProbe, Loops, is_current_id, retain, dropped, stop_deleted, spawn, stop_old, schedule_probe,
  visit, reconcile, shutdown,
}

abbrev has_key : Assoc Uuid ActiveProbe → Uuid → Bool
has_key [] k = false
has_key ((j, entry) ∷ m) k = (j == k) || has_key m k

abbrev pub UniqueKeys : Assoc Uuid ActiveProbe → Type 0
UniqueKeys [] = Unit
UniqueKeys ((j, entry) ∷ m) = (has_key m j ≡ false) × UniqueKeys m

abbrev pub handles : Assoc Uuid ActiveProbe → List ℕ
handles m = map (λ entry. entry.1.handle) m

-- Each spawned task is tracked once, as aborted or as running.
abbrev pub IsTracked : Loops → Type 0
IsTracked st =
    UniqueKeys st.active
    × ((t : ℕ) → count t st.spawned ≡ count t st.aborted + count t (handles st.active))

count-append : (t : ℕ) (xs ys : List ℕ) → count t (xs ++ ys) ≡ count t xs + count t ys
count-append t [] ys = omega arith
count-append t (x ∷ xs) ys = ground (arith, count-append t xs ys)

has_key-remove :
    (m : Assoc Uuid ActiveProbe) (k j : Uuid)
    → has_key m j ≡ false
    → has_key (remove uuid_keys m k) j ≡ false
has_key-remove [] k j h = refl
has_key-remove ((i, entry) ∷ m) k j h = ground (arith, has_key-remove m k j)

removed_key : (m : Assoc Uuid ActiveProbe) (k : Uuid) → has_key (remove uuid_keys m k) k ≡ false
removed_key [] k = refl
removed_key ((i, entry) ∷ m) k = ground (arith, removed_key m k)

remove-UniqueKeys :
    (m : Assoc Uuid ActiveProbe) (k : Uuid) → UniqueKeys m → UniqueKeys (remove uuid_keys m k)
remove-UniqueKeys [] k h = tt
remove-UniqueKeys ((i, entry) ∷ m) k h = elim (Bool-cases (i == k)) [
  | inl e ↦ rw e (remove-UniqueKeys m k h.1)
  | inr e ↦ rw e (has_key-remove m k i h.0, remove-UniqueKeys m k h.1)
]

has_key-retain :
    (probes : List Probe) (m : Assoc Uuid ActiveProbe) (j : Uuid)
    → has_key m j ≡ false
    → has_key (retain probes m) j ≡ false
has_key-retain probes [] j h = refl
has_key-retain probes ((i, entry) ∷ m) j h = ground (arith, has_key-retain probes m j)

retain-UniqueKeys :
    (probes : List Probe) (m : Assoc Uuid ActiveProbe) → UniqueKeys m → UniqueKeys (retain probes m)
retain-UniqueKeys probes [] h = tt
retain-UniqueKeys probes ((i, entry) ∷ m) h = elim (Bool-cases (is_current_id probes i)) [
  | inl e ↦ rw e (has_key-retain probes m i h.0, retain-UniqueKeys probes m h.1)
  | inr e ↦ rw e (retain-UniqueKeys probes m h.1)
]

-- What is not retained is dropped.
count-retain :
    (probes : List Probe) (m : Assoc Uuid ActiveProbe) (t : ℕ)
    → count t (handles m) ≡ count t (dropped probes m) + count t (handles (retain probes m))
count-retain probes [] t = refl
count-retain probes ((i, entry) ∷ m) t = ground (arith, count-retain probes m t)

count-remove_absent :
    (m : Assoc Uuid ActiveProbe) (k : Uuid) (t : ℕ)
    → has_key m k ≡ false
    → count t (handles (remove uuid_keys m k)) ≡ count t (handles m)
count-remove_absent [] k t h = refl
count-remove_absent ((i, entry) ∷ m) k t h = ground (arith, count-remove_absent m k t)

absent_key :
    (m : Assoc Uuid ActiveProbe) (k : Uuid) → get uuid_keys m k ≡ none → has_key m k ≡ false
absent_key [] k h = refl
absent_key ((i, entry) ∷ m) k h = ground (arith, absent_key m k)

-- Removing a key drops the one entry it has.
count-remove :
    (m : Assoc Uuid ActiveProbe) (k : Uuid) (old : ActiveProbe) (t : ℕ)
    → UniqueKeys m
    → get uuid_keys m k ≡ some old
    → count t (handles m) ≡ count t (old.handle ∷ []) + count t (handles (remove uuid_keys m k))
count-remove [] k old t h e = absurd (cc)
count-remove ((i, entry) ∷ m) k old t h e = elim (Bool-cases (i == k)) [
  | inl at_key ↦
      let same : has_key m k ≡ false =
        subst (λ j. has_key m j ≡ false) ((==_iff i k).0 at_key) h.0 in
      let found : entry ≡ old = cc (rw at_key at e) in
      rw (at_key, ← found) (omega (arith, count-remove_absent m k t same))
  | inr other ↦ rw other (omega (arith, count-remove m k old t h.1 (rw other at e)))
]

spawn-IsTracked :
    (p : Probe) (st : Loops)
    → has_key st.active p.id ≡ false
    → IsTracked st
    → IsTracked (spawn p st)
spawn-IsTracked p st absent (unique, told) = (
  (removed_key st.active p.id, remove-UniqueKeys st.active p.id unique),
  λ t. omega (
    arith,
    told t,
    count-append t st.spawned (st.next_task ∷ []),
    count-remove_absent st.active p.id t absent,
  ),
)

module _ (delete_works : Uuid → Bool) where
  stop_old-IsTracked :
      (p : Probe) (old : ActiveProbe) (st : Loops)
      → get uuid_keys st.active p.id ≡ some old
      → IsTracked st
      → IsTracked (stop_old delete_works p old st)
  stop_old-IsTracked p old st h (unique, told) = (
    remove-UniqueKeys st.active p.id unique,
    λ t. omega (
      arith,
      told t,
      count-append t st.aborted (old.handle ∷ []),
      count-remove st.active p.id old t unique h,
    ),
  )

  schedule-IsTracked :
      (p : Probe) (st : Loops) (found : Option ActiveProbe)
      → get uuid_keys st.active p.id ≡ found
      → IsTracked st
      → IsTracked (schedule_probe delete_works p found st)
  schedule-IsTracked p st none h k = spawn-IsTracked p st (absent_key st.active p.id h) k
  schedule-IsTracked p st (some old) h k = elim (Bool-cases (eqb_ℤ old.updated_at p.updated_at)) [
    | inl e ↦ rw e k
    | inr e ↦ rw e (
        spawn-IsTracked p (stop_old delete_works p old st) (removed_key st.active p.id)
          (stop_old-IsTracked p old st h k))
  ]

  visits-IsTracked :
      (ps : List Probe) (st : Loops) → IsTracked st → IsTracked (foldl (visit delete_works) st ps)
  visits-IsTracked [] st k = k
  visits-IsTracked (p ∷ ps) st k =
      visits-IsTracked ps (visit delete_works st p)
        (schedule-IsTracked p st (get uuid_keys st.active p.id) refl k)

  -- A reconciliation keeps every task it ever spawned tracked exactly once, as running or as
  -- aborted, and keeps one entry for each probe.
  pub reconcile-IsTracked :
      (probes : Option (List Probe)) (st : Loops)
      → IsTracked st
      → IsTracked (reconcile delete_works probes st)
  unfolding reconcile
  reconcile-IsTracked none st k = k
  reconcile-IsTracked (some probes) st (unique, told) =
      visits-IsTracked probes (stop_deleted probes st) (
        retain-UniqueKeys probes st.active unique,
        λ t. omega (
          arith,
          told t,
          count-append t st.aborted (dropped probes st.active),
          count-retain probes st.active t,
        ),
      )

abbrev pub no_loops : Loops
no_loops = record { active = []; schedule = []; next_task = 0; aborted = []; spawned = [] }

abbrev pub reconciled : (Uuid → Bool) → List (Option (List Probe)) → Loops
reconciled delete_works ticks = foldl (λ st probes. reconcile delete_works probes st) no_loops ticks

ticks-IsTracked :
    (delete_works : Uuid → Bool) (ticks : List (Option (List Probe))) (st : Loops)
    → IsTracked st
    → IsTracked (foldl (λ st probes. reconcile delete_works probes st) st ticks)
ticks-IsTracked delete_works [] st k = k
ticks-IsTracked delete_works (probes ∷ ticks) st k =
    ticks-IsTracked delete_works ticks (reconcile delete_works probes st)
      (reconcile-IsTracked delete_works probes st k)

-- After any number of reconciliations from an empty map, a shutdown has aborted every task that was
-- spawned, each once.
pub shutdown-aborts_all :
    (delete_works : Uuid → Bool) (ticks : List (Option (List Probe))) (task : ℕ)
    → let st = reconciled delete_works ticks in
      count task (shutdown st).aborted ≡ count task st.spawned
shutdown-aborts_all delete_works ticks task =
    let st = reconciled delete_works ticks in
    let tracked = ticks-IsTracked delete_works ticks no_loops (tt, λ t. refl) in
    omega (arith, tracked.1 task, count-append task st.aborted (handles st.active))
