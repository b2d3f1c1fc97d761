-- ===== src/Tests/Interfaces.antt =====
-- The theorems on ioctl and on the attributes at concrete inputs.
use Prim.Native.Nat.{ℕ, ◌+◌, ◌-◌, ◌*◌, ◌%◌, ◌≤◌, ◌<◌}
use beagle_logic.Base.{
  ◌≡◌, refl, false, Option, none, some, List, [], ◌∷◌, ◌&&◌, arith, leb, ◌==◌, inr, if◌then◌else◌,
  word,
}
use beagle_logic.Device.{Ret, ret, initialized}
use beagle_logic.System.{System, irq, pure, ◌>>=◌}
use beagle_logic.System.Returns.{Returns}
use beagle_logic.Attributes.{nearest_rate}
use beagle_logic.Buffers.{buffers_for}
use beagle_logic.Buffers.Size.{buffers_for_holds}
use beagle_logic.Ioctl.{Answer}
use beagle_logic.Ioctl.Settings.{set_and_get, set_and_get_lem}
use beagle_logic.Sysfs.{Text, bl_memalloc_store, bl_state_store}
use beagle_logic.Sysfs.Buffers.{Reallocated, bl_memalloc_store-Reallocated}
use beagle_logic.Sysfs.Session.{bl_state_store-start_stop}
use beagle_logic.Tests.{granting, idle, loaded, pair, loaded-IsRing}

abbrev decimal_from : ℕ → List ℕ → Option ℕ
decimal_from acc [] = some acc
decimal_from acc (c ∷ cs) =
    let rest = decimal_from (acc * 10 + (c - 48)) cs in
    if leb 48 c && leb c 57 then rest else if c == 10 then some acc else none

-- Decimal numbers are read; what is printed is short and does not matter here.
abbrev pub plain : Text
plain = record {
  kstrtouint = decimal_from 0;
  d_line = λ n. (48 + n % 10) ∷ 10 ∷ [];
  minus_d_line = λ n. 45 ∷ (48 + n % 10) ∷ 10 ∷ [];
  d_colon = λ n. (48 + n % 10) ∷ 58 ∷ [];
  x_u_line = λ a n. (48 + a % 10) ∷ 44 ∷ (48 + n % 10) ∷ 10 ∷ [];
}

-- "64\n"
abbrev sixty_four : List ℕ
sixty_four = 54 ∷ 52 ∷ 10 ∷ []

buffers_for_holds_example :
    (100 + 32 ≤ word → 100 ≤ buffers_for 32 100 * 32) × (word < 100 + 32 → buffers_for 32 100 ≡ 2)
buffers_for_holds_example = buffers_for_holds 32 100 (omega arith) (omega arith) (omega arith)

set_and_get_lem_example :
    Returns
      (λ (r : Answer × Answer × Answer) t.
        r ≡ ((ret 0, some (nearest_rate 200_000_000 7)), (ret 0, some 2), (ret 0, some 1)))
      (set_and_get granting 7 2 1 idle)
set_and_get_lem_example =
    set_and_get_lem granting 7 2 1 idle refl (λ c m. refl) (omega arith) (omega arith) (omega arith)
      (omega arith)

bl_memalloc_store-Reallocated_example :
    Returns
      (Reallocated (buffers_for 32 64) 32 granting 3)
      (bl_memalloc_store plain granting sixty_four 3 loaded)
bl_memalloc_store-Reallocated_example =
    bl_memalloc_store-Reallocated plain sixty_four 64 3 refl granting loaded refl
      (inr (record { id = 5; items = pair }, 2, 32, loaded-IsRing)) (omega arith) (omega arith)
      (omega arith)

-- Two buffers become full, then the PRU stops.
abbrev two_then_end : System
two_then_end = record loaded { events = irq 21 ∷ irq 21 ∷ irq 22 ∷ [] }

bl_state_store-start_stop_example :
    Returns
      (λ (r : Ret × Ret) t.
        (r.0 ≡ ret 2) × (r.1 ≡ ret 2) × (t.dev.mutex ≡ false) × (t.dev.state ≡ initialized))
      ((bl_state_store plain granting (49 ∷ 10 ∷ []) 2 >>= λ a.
          bl_state_store plain granting (48 ∷ 10 ∷ []) 2 >>= λ b. pure (a, b))
        two_then_end)
bl_state_store-start_stop_example =
    bl_state_store-start_stop plain granting (49 ∷ 10 ∷ []) (48 ∷ 10 ∷ []) 2 refl refl 2 32 5 2 pair
      [] two_then_end (ground (arith, loaded-IsRing)) (omega arith) refl (omega arith) refl
