-- ===== src/Scheduler/Fleet/Waits.antt =====
-- What a loop waits for after a run (crates/daemon/src/scheduler.rs).
use modelsentry.Store.Probes.{get_next_run, set_next_run}
use modelsentry.Base.{refl, true, false, some, Bool, ◌≡◌, ◌↔◌, ◌==◌, ==_iff, ltb}
use modelsentry.Scheduler.{Cron, Probe, Time, Assoc, Uuid, uuid_keys, next_run_after}
use modelsentry.Scheduler.Fleet.{plan, advance, ltb_ℤ}
use modelsentry.Scheduler.NextRun.{IsStrict, next_run_after-later}
use modelsentry.Base.Table.{get-put}

module _ {C : Type 0} (c : Cron C) where
  -- After a run of a probe whose stored instant was due, the loop waits for a later instant exactly
  -- when the write that advances the schedule works: a failed write makes it run again at once. This
  -- is with a store that can be read and a cron library whose firings lie strictly later.
  pub plan-advance_iff :
      (probe : Probe) (now at : Time) (schedule : Assoc Uuid Time) (advanced planned : Bool)
      → IsStrict c
      → get_next_run schedule probe.id ≡ some at
      → ltb_ℤ now at ≡ false
      → (ltb_ℤ now (plan c true planned probe now (advance c advanced probe now schedule)).0 ≡ true)
        ↔ (advanced ≡ true)
  unfolding plan advance get_next_run set_next_run
  plan-advance_iff probe now at schedule true planned strict stored due =
      let own : (probe.id == probe.id) ≡ true = (==_iff probe.id probe.id).1 refl in
      let found =
        get-put uuid_keys ltb schedule probe.id probe.id (next_run_after c probe.schedule now) in
      (λ h. refl, λ h. rw (found, own) (next_run_after-later c strict probe.schedule now))
  plan-advance_iff probe now at schedule false planned strict stored due =
      (λ h. cc (due, rw stored at h), λ h. absurd (cc))
