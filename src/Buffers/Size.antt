-- ===== src/Buffers/Size.antt =====
-- How many buffers `beaglelogic_memalloc` takes for a request.
use native.Mathlib.Nat.{lt-div-mul-add, mul-le-mul_right, div-eq_of_lt}
use beagle_logic.Base.{ℕ, ◌+◌, ◌-◌, ◌*◌, ◌/◌, ◌≤◌, ◌<◌, ◌≡◌, refl, arith, word, u32, max}
use beagle_logic.Buffers.{buffers_for}

mul_max : (q d : ℕ) → q * d ≤ max q 2 * d
mul_max q d = mul-le-mul_right d (omega arith)

sum_fits : (n d : ℕ) → 0 < d → n + d ≤ word → u32 (n + d + word - 1) ≡ n + d - 1
sum_fits n d positive le = omega arith

sum_wraps : (n d : ℕ) → n < word → d < word → word < n + d → u32 (n + d + word - 1) < d
sum_wraps n d small few lt = omega arith

-- The buffers hold the request, as long as request and unit together stay below 2 ^ 32. Above that
-- the sum wraps, and the request is answered with two buffers, whatever its size.
pub buffers_for_holds :
    (unit bufsize : ℕ)
    → 0 < unit
    → unit < word
    → bufsize < word
    → (bufsize + unit ≤ word → bufsize ≤ buffers_for unit bufsize * unit)
      × (word < bufsize + unit → buffers_for unit bufsize ≡ 2)
buffers_for_holds unit bufsize positive few small = (
  λ le.
      let q : ℕ = (bufsize + unit - 1) / unit in
      let a : bufsize + unit - 1 < q * unit + unit = lt-div-mul-add positive in
      let b : q * unit ≤ max q 2 * unit = mul_max q unit in
      rw (sum_fits bufsize unit positive le) (omega arith),
  λ lt.
      let e : u32 (bufsize + unit + word - 1) / unit ≡ 0 =
        div-eq_of_lt (sum_wraps bufsize unit small few lt) in
      rw e refl,
)
