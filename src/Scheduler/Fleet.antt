-- ===== src/Scheduler/Fleet.antt =====
-- The loops of all probes side by side, `run_probe_loop` (crates/daemon/src/scheduler.rs): they share
-- the table of next runs and a semaphore with a permit for each run in flight, which nothing closes.
-- A step is what one loop does up to its next wait; the environment chooses the loop, whether the
-- provider can be built, and whether the store can be read and written.
use modelsentry.Base.{
  [], false, none, some, Bool, Option, ℕ, List, if◌then◌else◌, ltb, ◌≡◌, ◌∷◌, ◌++◌, ◌+◌, suc,
}
use modelsentry.Common.Time.{Time}
use modelsentry.Common.Models.{Probe, Uuid}
use modelsentry.Scheduler.{Cron, Assoc, scheduled_next_run, next_run_after}
use modelsentry.Base.Int.{ltb_ℤ}
use modelsentry.Store.Probes.{set_next_run, get_next_run}
pub mod Permits
pub mod Waits

pub data Phase : Type 0 where
  starting : Phase
  sleeping : Time → Phase
  waiting running : Phase

pub record Loop : Type 0 where
  pub probe : Probe
  pub phase : Phase

pub record Fleet : Type 0 where
  pub now : Time
  pub permits : ℕ
  pub loops : List Loop
  pub schedule : Assoc Uuid Time

abbrev pub persist : Bool → Assoc Uuid Time → Uuid → Time → Assoc Uuid Time
persist write_works schedule id next_at =
    if write_works then set_next_run schedule id next_at else schedule

-- What a read of the table answers; a failing one is treated like a missing entry.
abbrev pub read_entry : Bool → Assoc Uuid Time → Uuid → Option Time
read_entry read_works schedule id = if read_works then get_next_run schedule id else none

abbrev pub at_most_first : Option Time → Assoc Uuid Time → Assoc Uuid Time → Assoc Uuid Time
at_most_first none before after = after
at_most_first (some at) before after = before

module _ {C : Type 0} (c : Cron C) where
  -- The instant that a loop sleeps until, and the table afterwards.
  unfoldable pub plan : Bool → Bool → Probe → Time → Assoc Uuid Time → Time × Assoc Uuid Time
  plan read_works write_works probe now schedule =
      let found = read_entry read_works schedule probe.id in
      let next_at = (scheduled_next_run c write_works probe.schedule now found).0 in
      (next_at, at_most_first found schedule (persist write_works schedule probe.id next_at))

  unfoldable pub advance : Bool → Probe → Time → Assoc Uuid Time → Assoc Uuid Time
  advance write_works probe now schedule =
      persist write_works schedule probe.id (next_run_after c probe.schedule now)

  abbrev pub in_phase : Phase → Loop → Loop
  in_phase phase l = record l { phase = phase }

-- The permits of a new scheduler.
abbrev pub permits_for : ℕ → ℕ
permits_for max_concurrent_runs = if ltb max_concurrent_runs 1 then 1 else max_concurrent_runs

-- A permit that a dropped loop held is free again.
abbrev pub released : Phase → ℕ
released starting = 0
released (sleeping at) = 0
released waiting = 0
released running = 1

pub data Step {C : Type 0} (c : Cron C) (s t : Fleet) : Type 0 where
  -- Time passes.
  pass : (later : Time) → ltb_ℤ later s.now ≡ false → t ≡ record s { now = later } → Step c s t
  -- A reconciliation spawns a loop.
  spawned :
      (probe : Probe)
      → t ≡ record s { loops = record { probe = probe; phase = starting } ∷ s.loops }
      → Step c s t
  -- A reconciliation or the shutdown aborts one.
  aborted :
      (front back : List Loop) (l : Loop)
      → s.loops ≡ front ++ l ∷ back
      → t ≡ record s { loops = front ++ back; permits = s.permits + released l.phase }
      → Step c s t
  -- The head of the loop.
  planned :
      (front back : List Loop) (probe : Probe) (read_works write_works : Bool)
      → s.loops ≡ front ++ record { probe = probe; phase = starting } ∷ back
      → t ≡ record s {
        loops =
            front
            ++ record {
              probe = probe;
              phase = sleeping (plan c read_works write_works probe s.now s.schedule).0;
            }
              ∷ back;
        schedule = (plan c read_works write_works probe s.now s.schedule).1;
      }
      → Step c s t
  -- The sleep is over, but the provider cannot be built.
  skipped :
      (front back : List Loop) (probe : Probe) (at : Time) (write_works : Bool)
      → s.loops ≡ front ++ record { probe = probe; phase = sleeping at } ∷ back
      → ltb_ℤ s.now at ≡ false
      → t ≡ record s {
        loops = front ++ record { probe = probe; phase = starting } ∷ back;
        schedule = advance c write_works probe s.now s.schedule;
      }
      → Step c s t
  -- The sleep is over and the provider is built.
  queued :
      (front back : List Loop) (probe : Probe) (at : Time)
      → s.loops ≡ front ++ record { probe = probe; phase = sleeping at } ∷ back
      → ltb_ℤ s.now at ≡ false
      → t ≡ record s { loops = front ++ record { probe = probe; phase = waiting } ∷ back }
      → Step c s t
  -- A free permit is taken for the job.
  began :
      (front back : List Loop) (probe : Probe) (rest : ℕ)
      → s.loops ≡ front ++ record { probe = probe; phase = waiting } ∷ back
      → s.permits ≡ suc rest
      → t ≡ record s {
        loops = front ++ record { probe = probe; phase = running } ∷ back;
        permits = rest;
      }
      → Step c s t
  -- The job returned: the permit is released and the schedule advanced.
  finished :
      (front back : List Loop) (probe : Probe) (write_works : Bool)
      → s.loops ≡ front ++ record { probe = probe; phase = running } ∷ back
      → t ≡ record s {
        loops = front ++ record { probe = probe; phase = starting } ∷ back;
        permits = s.permits + 1;
        schedule = advance c write_works probe s.now s.schedule;
      }
      → Step c s t

-- What can come of a new scheduler with the limit `max`, over the stored next runs.
pub data Reach {C : Type 0} (c : Cron C) (max : ℕ) : Fleet → Type 0 where
  start :
      (now : Time) (schedule : Assoc Uuid Time)
      → Reach c max
          (record { now = now; permits = permits_for max; loops = []; schedule = schedule })
  next : {s t : Fleet} → Reach c max s → Step c s t → Reach c max t
