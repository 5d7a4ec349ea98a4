-- ===== src/Common/Time.antt =====
-- Instants and durations: `DateTime<Utc>` and `Duration` of the time library as signed counts of
-- nanoseconds, whose documented arithmetic they have. The range of a calendar date is not bounded.
use modelsentry.Base.{ℕ, ◌*◌, if◌then◌else◌}
use modelsentry.Base.Int.{ℤ, pos, ltb_ℤ}

abbrev pub Time : Type 0
Time = ℤ

abbrev pub Duration : Type 0
Duration = ℤ

abbrev pub nanos_per_second : ℕ
nanos_per_second = 1_000_000_000

abbrev pub seconds : ℕ → Duration
seconds n = pos (n * nanos_per_second)

abbrev pub minutes : ℕ → Duration
minutes n = seconds (n * 60)

abbrev pub hours : ℕ → Duration
hours n = minutes (n * 60)

abbrev pub max_time : Time → Time → Time
max_time a b = if ltb_ℤ b a then a else b
