-- ===== src/Scheduler/Fleet/Permits.antt =====
-- The limit on the runs in flight (crates/daemon/src/scheduler.rs).
use modelsentry.Base.{
  [], arith, List, ℕ, ◌+◌, ◌∷◌, ◌++◌, ◌≡◌, ◌≤◌, ap, ◌<◌, ◌⊎◌, inl, inr, Bool-cases, ltb, ltb→lt,
}
use modelsentry.Scheduler.{Cron}
use modelsentry.Scheduler.Fleet.{
  Fleet, Loop, Step, Reach, pass, start, released, permits_for, spawned, next, aborted, planned,
  skipped, queued, began, finished,
}

abbrev pub count_running : List Loop → ℕ
count_running [] = 0
count_running (l ∷ ls) = released l.phase + count_running ls

count_running-append :
    (front : List Loop) (l : Loop) (back : List Loop)
    → count_running (front ++ l ∷ back)
      ≡ count_running front + released l.phase + count_running back
count_running-append [] l back = omega arith
count_running-append (x ∷ front) l back = omega (arith, count_running-append front l back)

count_running-drop :
    (front back : List Loop)
    → count_running (front ++ back) ≡ count_running front + count_running back
count_running-drop [] back = omega arith
count_running-drop (x ∷ front) back = omega (arith, count_running-drop front back)

-- Every permit is free or held by a run in flight.
abbrev pub IsAccounted : ℕ → Fleet → Type 0
IsAccounted max s = s.permits + count_running s.loops ≡ permits_for max

-- A step changes the free permits and the loops like this.
moved :
    (max : ℕ) (s t : Fleet) (front back : List Loop) (l l' : Loop)
    → s.loops ≡ front ++ l ∷ back
    → t.loops ≡ front ++ l' ∷ back
    → t.permits + released l'.phase ≡ s.permits + released l.phase
    → IsAccounted max s
    → IsAccounted max t
moved max s t front back l l' from to same h = omega (
  arith,
  count_running-append front l back,
  count_running-append front l' back,
  ap count_running from,
  ap count_running to,
)

Step-IsAccounted :
    {C : Type 0} (c : Cron C) (max : ℕ) (s t : Fleet)
    → Step c s t
    → IsAccounted max s
    → IsAccounted max t
Step-IsAccounted c max s t (pass later p e) h = rw e h
Step-IsAccounted c max s t (spawned probe e) h = rw e (omega arith)
Step-IsAccounted c max s t (aborted front back l at e) h = rw e (
    omega (
      arith,
      count_running-append front l back,
      count_running-drop front back,
      ap count_running at,
    ))
Step-IsAccounted c max s t (planned front back probe r w at e) h =
    moved max s t front back _ _ at (ap (λ (f : Fleet). f.loops) e)
      (ap (λ (f : Fleet). f.permits + 0) e) h
Step-IsAccounted c max s t (skipped front back probe at' w at p e) h =
    moved max s t front back _ _ at (ap (λ (f : Fleet). f.loops) e)
      (ap (λ (f : Fleet). f.permits + 0) e) h
Step-IsAccounted c max s t (queued front back probe at' at p e) h =
    moved max s t front back _ _ at (ap (λ (f : Fleet). f.loops) e)
      (ap (λ (f : Fleet). f.permits + 0) e) h
Step-IsAccounted c max s t (began front back probe rest at p e) h =
    moved max s t front back _ _ at (ap (λ (f : Fleet). f.loops) e)
      (omega (arith, ap (λ (f : Fleet). f.permits) e)) h
Step-IsAccounted c max s t (finished front back probe w at e) h =
    moved max s t front back _ _ at (ap (λ (f : Fleet). f.loops) e)
      (omega (arith, ap (λ (f : Fleet). f.permits) e)) h

Reach-IsAccounted :
    {C : Type 0} (c : Cron C) (max : ℕ) (s : Fleet) → Reach c max s → IsAccounted max s
Reach-IsAccounted c max s (start now schedule) = omega arith
Reach-IsAccounted c max s (next {s = r} reach step) =
    Step-IsAccounted c max r s step (Reach-IsAccounted c max r reach)

-- In every reachable state no more runs are in flight than the limit (at least 1) allows, and while
-- all permits are taken some run is in flight that will release one.
pub Reach-bounded :
    {C : Type 0} (c : Cron C) (max : ℕ) (s : Fleet)
    → Reach c max s
    → (count_running s.loops ≤ permits_for max) × ((0 < s.permits) ⊎ (0 < count_running s.loops))
Reach-bounded c max s r =
    let all = Reach-IsAccounted c max s r in
    let some_permit : 0 < permits_for max = ground arith in
    (
      omega arith,
      elim (Bool-cases (ltb 0 s.permits)) [
        | inl t ↦ inl (ltb→lt 0 s.permits t)
        | inr t ↦ let taken : s.permits ≡ 0 = ground arith in inr (omega arith)
      ],
    )
