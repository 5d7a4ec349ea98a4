-- ===== src/Scheduler/NextRun.antt =====
-- Instants of the next runs (crates/daemon/src/scheduler.rs).
use modelsentry.Base.{ℕ, ◌≡◌, refl, true, Option, none, some, arith, if◌then◌else◌, ltb}
use modelsentry.Base.Int.{◌+ℤ◌, ltb_ℤ}
use modelsentry.Common.Models.{ProbeSchedule, cron, every_minutes}
use modelsentry.Common.Time.{Time, minutes}
use modelsentry.Scheduler.{
  or_an_hour, Cron, next_firing, next_run_after, parse_cron_schedule, scheduled_next_run,
}

-- What the documentation of the cron library says of `after`: the firings lie strictly later.
abbrev pub IsAfter : Time → Option Time → Type 0
IsAfter from none = Unit
IsAfter from (some at) = ltb_ℤ from at ≡ true

abbrev pub IsStrict : {C : Type 0} → Cron C → Type 0
IsStrict {C} c = (schedule : C) (from : Time) → IsAfter from (c.next_after schedule from)

module _ {C : Type 0} (c : Cron C) where
  later_by_minutes :
      (from : Time) (n : ℕ) → ltb_ℤ from (from +ℤ minutes (if ltb n 1 then 1 else n)) ≡ true
  unfolding ◌+ℤ◌
  later_by_minutes from n = ground arith

  or_later :
      (from : Time) (firing : Option Time)
      → IsAfter from firing
      → ltb_ℤ from (or_an_hour c firing from) ≡ true
  or_later from none h = later_by_minutes from 60
  or_later from (some at) h = h

  firing_later :
      IsStrict c → (parsed : Option C) (from : Time) → ltb_ℤ from (next_firing c parsed from) ≡ true
  firing_later strict none from = later_by_minutes from 60
  firing_later strict (some schedule) from =
      or_later from (c.next_after schedule from) (strict schedule from)

  -- Whatever the schedule, valid or not, the next run lies strictly after the given instant, so a
  -- loop that waits for it never spins.
  pub next_run_after-later :
      IsStrict c
      → (schedule : ProbeSchedule) (from : Time)
      → ltb_ℤ from (next_run_after c schedule from) ≡ true
  unfolding next_run_after
  next_run_after-later strict (every_minutes n) from = later_by_minutes from n
  next_run_after-later strict (cron expression) from =
      firing_later strict (parse_cron_schedule c expression) from

  -- The loop of a probe that restarts before its run waits for the same instant and leaves the store
  -- as it is; this is after a read that found an entry or a write that worked.
  pub scheduled_next_run-resumes :
      (schedule : ProbeSchedule) (stored : Option Time) (now later : Time)
      → let first_wait = scheduled_next_run c true schedule now stored in
        scheduled_next_run c true schedule later first_wait.1 ≡ first_wait
  scheduled_next_run-resumes schedule none now later = refl
  scheduled_next_run-resumes schedule (some at) now later = refl
