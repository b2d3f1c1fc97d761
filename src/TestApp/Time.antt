-- ===== src/TestApp/Time.antt =====
-- The time difference of the test application.
use beagle_logic.Base.{ℕ, ◌+◌, ◌-◌, ◌*◌, ◌/◌, ◌^◌, ◌≤◌, ◌<◌, ◌≡◌, arith}
use beagle_logic.TestApp.{Timespec, timediff}

-- The nanoseconds of a time.
abbrev pub nanoseconds : Timespec → ℕ
nanoseconds t = t.tv_sec * 1_000_000_000 + t.tv_nsec

-- For a later time, `timediff` is the number of whole microseconds between the two, if both are
-- below 2 ^ 64 nanoseconds: also where the nanoseconds of the later one are fewer, and the
-- difference of these is a large `uint64_t`.
timediff_lem :
    (a b : Timespec)
    → nanoseconds a ≤ nanoseconds b
    → nanoseconds b < 2 ^ 64
    → timediff a b ≡ (nanoseconds b - nanoseconds a) / 1000
unfolding timediff
timediff_lem a b le lt = omega arith
