-- ===== src/Scheduler.antt =====
-- The scheduler (crates/daemon/src/scheduler.rs). The cron library is the record `Cron`. A spawned
-- loop is a task with a number; whether the write that resets a schedule succeeds is a parameter.
pub mod NextRun
pub mod Reconciled
pub mod Tracked
pub mod Fleet
use Prim.Native.String.{◌++◌ as append_str}
use modelsentry.Base.{
  ℕ, zero, suc, ◌+◌, Bool, true, false, not, List, [], ◌∷◌, ◌++◌, map, filter, any, foldl, Option,
  none, some, String, ◌==◌, ltb, if◌then◌else◌,
}
use modelsentry.Base.Int.{ℤ, ◌+ℤ◌, eqb_ℤ}
use modelsentry.Base.Assoc.{Assoc, get, remove, insert}
use modelsentry.Common.Models.{Uuid, uuid_keys, Probe, ProbeSchedule, cron, every_minutes}
use modelsentry.Common.Time.{Time, minutes, hours}

-- A parser of cron expressions, and the next firing of a parsed one after an instant.
pub record Cron (C : Type 0) : Type 0 where
  pub from_str : String → Option C
  pub next_after : C → Time → Option Time

module _ {C : Type 0} (c : Cron C) where
  abbrev pub or_else : Option C → Option C → Option C
  or_else none other = other
  or_else (some x) other = some x

  -- Five fields are read as six with a zero for the seconds.
  abbrev pub parse_cron_schedule : String → Option C
  parse_cron_schedule expression =
      or_else (c.from_str expression) (c.from_str (append_str "0 " expression))

  abbrev pub is_parsed : Option C → Bool
  is_parsed none = false
  is_parsed (some x) = true

  -- Whether the answer is `Ok`.
  unfoldable pub validate_schedule : ProbeSchedule → Bool
  validate_schedule (every_minutes n) = not (n == 0)
  validate_schedule (cron expression) = is_parsed (parse_cron_schedule expression)

  abbrev pub or_an_hour : Option Time → Time → Time
  or_an_hour none from = from +ℤ hours 1
  or_an_hour (some at) from = at

  abbrev pub next_firing : Option C → Time → Time
  next_firing none from = from +ℤ hours 1
  next_firing (some schedule) from = or_an_hour (c.next_after schedule from) from

  unfoldable pub next_run_after : ProbeSchedule → Time → Time
  next_run_after (every_minutes n) from = from +ℤ minutes (if ltb n 1 then 1 else n)
  next_run_after (cron expression) from = next_firing (parse_cron_schedule expression) from

pub record ActiveProbe : Type 0 where
  pub updated_at : Time
  pub handle : ℕ

-- The loops, the persisted next runs, the number of the next task, the tasks that were aborted and
-- those that were spawned, in order.
pub record Loops : Type 0 where
  pub active : Assoc Uuid ActiveProbe
  pub schedule : Assoc Uuid Time
  pub next_task : ℕ
  pub aborted : List ℕ
  pub spawned : List ℕ

abbrev pub is_current_id : List Probe → Uuid → Bool
is_current_id probes id = any (λ (p : Probe). p.id == id) probes

-- `active.retain(..)`, which aborts what it drops.
abbrev pub retain : List Probe → Assoc Uuid ActiveProbe → Assoc Uuid ActiveProbe
retain probes [] = []
retain probes ((id, ap) ∷ m) =
    let rest = retain probes m in if is_current_id probes id then (id, ap) ∷ rest else rest

abbrev pub dropped : List Probe → Assoc Uuid ActiveProbe → List ℕ
dropped probes [] = []
dropped probes ((id, ap) ∷ m) =
    let rest = dropped probes m in if is_current_id probes id then rest else ap.handle ∷ rest

abbrev pub stop_deleted : List Probe → Loops → Loops
stop_deleted probes st = record st {
  active = retain probes st.active;
  aborted = st.aborted ++ dropped probes st.active;
}

abbrev pub spawn : Probe → Loops → Loops
spawn probe st = record st {
  active =
      insert uuid_keys st.active probe.id
        (record { updated_at = probe.updated_at; handle = st.next_task });
  next_task = suc st.next_task;
  spawned = st.spawned ++ st.next_task ∷ [];
}

module _ (delete_works : Uuid → Bool) where
  abbrev pub stop_old : Probe → ActiveProbe → Loops → Loops
  stop_old probe old st = record st {
    active = remove uuid_keys st.active probe.id;
    aborted = st.aborted ++ old.handle ∷ [];
    schedule = if delete_works probe.id then remove uuid_keys st.schedule probe.id else st.schedule;
  }

  abbrev pub schedule_probe : Probe → Option ActiveProbe → Loops → Loops
  schedule_probe probe none st = spawn probe st
  schedule_probe probe (some old) st =
      if eqb_ℤ old.updated_at probe.updated_at then st else spawn probe (stop_old probe old st)

  abbrev pub visit : Loops → Probe → Loops
  visit st probe = schedule_probe probe (get uuid_keys st.active probe.id) st

  -- `none` is a store that cannot list its probes.
  unfoldable pub reconcile : Option (List Probe) → Loops → Loops
  reconcile none st = st
  reconcile (some probes) st = foldl visit (stop_deleted probes st) probes

abbrev pub shutdown : Loops → Loops
shutdown st = record st {
  active = [];
  aborted = st.aborted ++ map (λ entry. entry.1.handle) st.active;
}

-- The next run of one probe in the store. `stored` is what the read of it answers; a read that
-- fails is treated like a missing entry. A write may fail.
module _ {C : Type 0} (c : Cron C) (write_works : Bool) where
  abbrev pub advance_schedule_to : Option Time → Time → Option Time
  advance_schedule_to stored next_at = if write_works then some next_at else stored

  abbrev pub advance_schedule : ProbeSchedule → Time → Option Time → Option Time
  advance_schedule schedule now stored = advance_schedule_to stored (next_run_after c schedule now)

  -- The instant to wait for, and the entry of the store afterwards.
  abbrev pub scheduled_next_run : ProbeSchedule → Time → Option Time → Time × Option Time
  scheduled_next_run schedule now (some next_at) = (next_at, some next_at)
  scheduled_next_run schedule now none =
      let next_at = next_run_after c schedule now in (next_at, advance_schedule_to none next_at)
