-- ===== src/Tests/Fleet.antt =====
-- Tests of the loops side by side (crates/daemon/src/scheduler.rs).
use modelsentry.Base.{◌∷◌, refl, true, false, ℕ, ◌≤◌, ◌<◌, ◌≡◌, ◌⊎◌, ◌↔◌, []}
use modelsentry.Tests.Data.{probe, cron_library}
use modelsentry.Scheduler.Fleet.{
  Fleet, Reach, start, next, spawned, planned, queued, began, Phase, starting, running, permits_for,
  plan, advance,
}
use modelsentry.Store.Probes.{get_next_run}
use modelsentry.Common.Models.{Probe, Uuid}
use modelsentry.Common.Time.{Time, hours}
use modelsentry.Base.Assoc.{Assoc}
use modelsentry.Scheduler.Fleet.Permits.{count_running, Reach-bounded}
use modelsentry.Base.Int.{ltb_ℤ}
use modelsentry.Scheduler.Fleet.Waits.{plan-advance_iff}
use modelsentry.Tests.Service.{five_minutes_later}

abbrev other_probe : Probe
other_probe = record probe { id = 2 }

-- At two o'clock, with two loops and room for one run: the first is in flight.
abbrev fleet : Time → ℕ → Phase → Phase → Assoc Uuid Time → Fleet
fleet now permits first second schedule = record {
  now = now;
  permits = permits;
  loops =
      record { probe = other_probe; phase = second } ∷ record { probe = probe; phase = first } ∷ [];
  schedule = schedule;
}

abbrev stored : Assoc Uuid Time
stored = (1, hours 1) ∷ []

one_running : Reach cron_library 1 (fleet (hours 2) 0 running starting stored)
unfolding plan get_next_run
one_running =
    next
      (next
        (next (next (next (start (hours 2) stored) (spawned probe refl)) (spawned other_probe refl))
          (planned (record { probe = other_probe; phase = starting } ∷ []) [] probe true true refl
            refl))
        (queued (record { probe = other_probe; phase = starting } ∷ []) [] probe (hours 1) refl refl
          refl))
      (began (record { probe = other_probe; phase = starting } ∷ []) [] probe 0 refl refl refl)

Reach-bounded_example :
    (count_running (fleet (hours 2) 0 running starting stored).loops ≤ permits_for 1)
    × ((0 < (fleet (hours 2) 0 running starting stored).permits)
        ⊎ (0 < count_running (fleet (hours 2) 0 running starting stored).loops))
Reach-bounded_example =
    Reach-bounded cron_library 1 (fleet (hours 2) 0 running starting stored) one_running

plan-advance_iff_example :
    (ltb_ℤ
        (hours 2)
        (plan cron_library true true probe
          (hours 2)
          (advance cron_library false probe (hours 2) stored)).0
      ≡ true)
    ↔ (false ≡ true)
unfolding get_next_run
plan-advance_iff_example =
    plan-advance_iff cron_library probe (hours 2) (hours 1) stored false true five_minutes_later
      refl refl
