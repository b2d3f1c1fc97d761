-- ===== src/Pru0/Clock.antt =====
-- The conversions of firmware/pru_defs.h from times to cycles of the PRU, each with what its
-- division leaves. An argument is a `uint32_t`.
use Prim.Native.Nat.{ℕ, ◌*◌, ◌/◌, ◌%◌, ◌^◌, ◌<◌}
use beagle_logic.Base.{◌≡◌, arith, u32, word}

-- For a clock of 200 MHz.
abbrev pru_200_mhz_sec : ℕ → ℕ
pru_200_mhz_sec x = u32 (x * 200_000_000)

abbrev pru_200_mhz_ms : ℕ → ℕ
pru_200_mhz_ms x = u32 (x * 200_000)

abbrev pru_200_mhz_us : ℕ → ℕ
pru_200_mhz_us x = u32 (x * 200)

abbrev pru_200_mhz_ns : ℕ → ℕ
pru_200_mhz_ns x = u32 (x * 2) / 10

abbrev pru_200_mhz_ns_err : ℕ → ℕ
pru_200_mhz_ns_err x = u32 (x * 2) % 10

abbrev u64 : ℕ → ℕ
u64 n = n % 2 ^ 64

-- For a clock of `clk` Hz; `parts` of the unit make a second.
abbrev pru_time : ℕ → ℕ → ℕ → ℕ
pru_time clk parts x = u32 (u64 (x * clk) / parts)

abbrev pru_time_err : ℕ → ℕ → ℕ → ℕ
pru_time_err clk parts x = u32 (u64 (x * clk) % parts)

-- At 200 MHz the special definitions give the cycles of the general ones, the wrap at 2 ^ 32
-- included: for seconds, milliseconds and microseconds at every argument, for nanoseconds below
-- 2 ^ 31. What is left over is 0 in both for milliseconds and microseconds; for nanoseconds the
-- special definition gives it in units of 100000000 of the general one.
conversions_agree :
    (x : ℕ)
    → x < word
    → x * 2 < word
    → (pru_time 200_000_000 1 x ≡ pru_200_mhz_sec x)
      × (pru_time 200_000_000 1000 x ≡ pru_200_mhz_ms x)
      × (pru_time 200_000_000 1_000_000 x ≡ pru_200_mhz_us x)
      × (pru_time 200_000_000 1_000_000_000 x ≡ pru_200_mhz_ns x)
      × (pru_time_err 200_000_000 1000 x ≡ 0)
      × (pru_time_err 200_000_000 1_000_000 x ≡ 0)
      × (pru_time_err 200_000_000 1_000_000_000 x ≡ pru_200_mhz_ns_err x * 100_000_000)
conversions_agree x small half =
    (omega arith, omega arith, omega arith, omega arith, omega arith, omega arith, omega arith)
