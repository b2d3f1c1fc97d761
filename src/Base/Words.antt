-- ===== src/Base/Words.antt =====
-- `uint32_t` values as numbers below 2 ^ 32, with the wrap of each operation written out.
use Prim.Native.Nat.{ℕ, ◌+◌, ◌-◌, ◌*◌, ◌/◌, ◌%◌, ◌^◌}

abbrev pub word : ℕ
word = 2 ^ 32

abbrev pub u32 : ℕ → ℕ
u32 n = n % word

-- The kernel's `DIV_ROUND_UP(n, d)` on `uint32_t`: `(n + d - 1) / d`, the sum wraps.
abbrev pub div_round_up : ℕ → ℕ → ℕ
div_round_up n d = u32 (n + d + word - 1) / d

-- The kernel's `round_up(x, 32)`: `((x - 1) | 31) + 1`, which wraps to 0 at the top.
abbrev pub round_up_32 : ℕ → ℕ
round_up_32 x = u32 ((u32 (x + word - 1) / 32) * 32 + 32)
