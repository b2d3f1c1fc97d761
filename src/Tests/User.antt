-- ===== src/Tests/User.antt =====
-- The theorems on the user library, on files that poll or outlive their buffers, and on the test
-- pattern.
use beagle_logic.Base.{
  ℕ, ◌≡◌, ◌⊎◌, refl, true, some, List, [], ◌∷◌, pos, arith, replicate, ltb, if◌then◌else◌, negsuc,
  false, zero, suc, ◌+◌, ◌*◌, ◌/◌, ◌%◌, length, length-replicate, get_elem?, u32,
}
use beagle_logic.Device.{ret, err, eagain, LogicBuffer}
use beagle_logic.System.{System, oops, done, ◌>>=◌}
use beagle_logic.System.Returns.{Returns}
use beagle_logic.Buffers.{memfree}
use beagle_logic.Buffers.Ring.{IsRing, AllPlaced}
use beagle_logic.File.{f_poll, f_read, perform_copy, poll_readable}
use beagle_logic.File.Mmap.Pages.{Shows}
use beagle_logic.File.Poll.{f_poll-f_read}
use beagle_logic.File.Stale.{f_read-memfree}
use beagle_logic.Submit.{fill_buffer_testpattern}
use beagle_logic.Submit.Pattern.{Patterned, fill_buffer_testpattern-Patterned}
use beagle_logic.User.{Libc, beaglelogic_mmap}
use beagle_logic.User.Numbers.{Packed, LibraryCalls, library-f_ioctl}
use beagle_logic.User.Mmap.{beaglelogic_mmap-Shows}
use beagle_logic.Tests.{granting, loaded, pair, loaded-IsRing, second, first}

-- 45 is the minus sign. A second one ends the number.
abbrev digits : List ℕ → ℕ
digits [] = 0
digits (a ∷ rest) = if ltb a 48 then 0 else a

abbrev pub libc : Libc
libc = record {
  io = 0x6B00;
  iow = 0x40046B00;
  ior = 0x80046B00;
  result = λ r. elim r [ ret n ↦ pos n | err e ↦ negsuc 0 ];
  file = 3;
  attribute_file = λ a. pos 4;
  mmap_address = 65536;
  page_align = λ n. (n + 4095) / 4096 * 4096;
  munmap = λ a n. pos 0;
  strtoul = digits;
  page = replicate 20 0;
  stack = replicate 16 0;
}

libc-Packed : Packed libc
libc-Packed = record { io_iow = omega arith; iow_ior = omega arith }

library-f_ioctl_example : LibraryCalls libc granting 7
library-f_ioctl_example = library-f_ioctl libc libc-Packed granting 7 (omega arith)

-- Two buffers of a page each.
abbrev page_pair : List LogicBuffer
page_pair =
    record first { phys_addr = 65536; size = 4096; mem = replicate 4096 7 }
    ∷ record second { phys_addr = 131_072; size = 4096; mem = replicate 4096 9 }
    ∷ []

abbrev paged : System
paged = record loaded {
  dev = record loaded.dev {
    buffers = some (record { id = 5; items = page_pair });
    bufunitsize = 4096;
  };
}

page_pair-AllPlaced : AllPlaced 2 4096 page_pair
page_pair-AllPlaced zero b e = ground (arith, length-replicate {A = ℕ} 4096 7)
page_pair-AllPlaced (suc zero) b e = ground (arith, length-replicate {A = ℕ} 4096 9)
page_pair-AllPlaced (suc (suc i)) b e = cc

paged-IsRing : IsRing paged.dev (record { id = 5; items = page_pair }) 2 4096
paged-IsRing = record {
  present = refl;
  count_eq = refl;
  length_eq = refl;
  two = omega arith;
  nonempty = omega arith;
  placed = page_pair-AllPlaced;
}

page_pair_frames :
    (j : ℕ) (b : LogicBuffer) → get_elem? page_pair j ≡ some b → b.phys_addr % 4096 ≡ 0
page_pair_frames zero b e = ground (arith, e)
page_pair_frames (suc zero) b e = ground (arith, e)
page_pair_frames (suc (suc j)) b e = cc

beaglelogic_mmap-Shows_example :
    Returns
      (λ r t.
        (r.0 ≡ some 65536)
        × (4096 * length r.1 ≡ libc.page_align (u32 (4096 * 2)))
        × Shows page_pair 4096 65536 r.1)
      (beaglelogic_mmap libc granting 0 paged)
beaglelogic_mmap-Shows_example =
    beaglelogic_mmap-Shows libc libc-Packed granting paged (λ r. refl) (λ i m. refl)
      (record { id = 5; items = page_pair }) 2 4096 0 (λ i a pfn n aligned. refl)
      (λ n aligned. omega arith) refl paged-IsRing refl (omega arith) refl page_pair_frames

-- A file at the second buffer, which the driver has handed over; one inside it.
abbrev at_second : System
at_second = record loaded {
  reader = record { buf = some (record { array = 5; index = 1 }); pos = 0; remaining = 32 };
}

abbrev inside_second : System
inside_second = record loaded {
  reader = record { buf = some (record { array = 5; index = 1 }); pos = 8; remaining = 24 };
}

f_poll-f_read_example :
    ((f_poll at_second ≡ done (ret poll_readable) at_second)
      × (f_read granting true 8 at_second ≡ perform_copy granting 8 at_second))
    ⊎ ((f_poll at_second ≡ done (ret 0) at_second)
        × (f_read granting true 8 at_second ≡ done (err eagain, []) at_second))
f_poll-f_read_example =
    f_poll-f_read granting 8 at_second (record { array = 5; index = 1 }) second refl refl refl refl
      refl

f_read-memfree_example : (memfree >>= λ _. f_read granting true 8) inside_second ≡ oops
f_read-memfree_example =
    f_read-memfree granting true 8 (record { id = 5; items = pair }) 2 32
      (record { array = 5; index = 1 }) inside_second loaded-IsRing refl refl (omega arith) refl

fill_buffer_testpattern-Patterned_example :
    Returns
      (λ _ t. Patterned 8 (record { id = 5; items = pair }) t × (t.dev.mutex ≡ false))
      (fill_buffer_testpattern loaded)
fill_buffer_testpattern-Patterned_example =
    fill_buffer_testpattern-Patterned (record { id = 5; items = pair }) 2 32 8 loaded loaded-IsRing
      refl refl
