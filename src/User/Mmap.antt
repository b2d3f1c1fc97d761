-- ===== src/User/Mmap.antt =====
-- `beaglelogic_mmap`: the size from the driver, and the mapping of that size.
use native.Mathlib.Nat.{mul-suc}
use beagle_logic.Base.{
  ℕ, ◌+◌, ◌*◌, ◌≡◌, refl, true, pos, some, arith, u32, ==_false, ◌%◌, ◌<◌, ◌≤◌, zero, suc, word, ap,
  sym, ◌∙◌, length, get_elem?,
}
use beagle_logic.Device.{BufferArray, LogicBuffer, ret}
use beagle_logic.System.{Platform, System, done}
use beagle_logic.System.Returns.{Returns, returns, bind}
use beagle_logic.Buffers.Ring.{IsRing}
use beagle_logic.File.Mmap.{f_mmap-Linear}
use beagle_logic.File.Mmap.Pages.{Shows, Linear-Shows}
use beagle_logic.Ioctl
use beagle_logic.Ioctl.{f_ioctl}
use beagle_logic.Ioctl.Settings.{give_granted}
use beagle_logic.User.{Libc, beaglelogic_get_buffersize, beaglelogic_mmap}
use beagle_logic.User.Numbers.{Packed, ioctl-number}

multiple : (size : ℕ) → size % 4096 ≡ 0 → (n : ℕ) → size * n % 4096 ≡ 0
multiple size whole zero = omega arith
multiple size whole (suc n) = omega (arith, mul-suc size n, multiple size whole n, whole)

positive : (size n : ℕ) → 0 < size → 2 ≤ n → 0 < size * n
positive size zero some_byte two = absurd (omega arith)
positive size (suc n) some_byte two = omega (arith, mul-suc size n, some_byte)

total_size :
    (unit count size cnt : ℕ)
    → unit ≡ size
    → count ≡ cnt
    → size * cnt < word
    → u32 (unit * count) ≡ size * cnt
total_size unit count size cnt e f small = rw (e, f) (omega (arith, small))

module _ (c : Libc) (h : Packed c) (k : Platform) (s : System)
    (plain : (r : ℕ) → c.result (ret r) ≡ pos r)
    (copies : (i m : ℕ) → k.copy_to_user i m ≡ true) where
  get_buffersize_lem :
      beaglelogic_get_buffersize c k s
      ≡ done
          (pos 0, some (u32 (s.dev.bufunitsize * s.dev.bufcount)))
          (record s { calls = s.calls + 1 })
  unfolding beaglelogic_get_buffersize f_ioctl
  get_buffersize_lem =
      rw (ioctl-number c h k Ioctl.get_buffer_size s (omega arith))
        (rw (give_granted k copies 4 _ s) (rw (plain 0) refl))

  -- On a ring of buffers of the unit's size, a whole number of pages, at bus addresses that are
  -- multiples of the page, less than 2 ^ 32 bytes together: if no copy fails and the kernel maps
  -- every range that begins at a page, and puts the range of `mmap` at one, `beaglelogic_mmap`
  -- returns its address. The mappings then fill the range, and each byte `o` of each buffer `j`
  -- stands at the address `j * size + o` of the range.
  pub beaglelogic_mmap-Shows :
      (arr : BufferArray) (cnt size before : ℕ)
      → ((i a pfn n : ℕ) → a % 4096 ≡ 0 → k.remap_pfn_range i a pfn n ≡ true)
      → ((n : ℕ) → n % 4096 ≡ 0 → c.page_align n ≡ n)
      → c.mmap_address % 4096 ≡ 0
      → IsRing s.dev arr cnt size
      → s.dev.bufunitsize ≡ size
      → size * cnt < word
      → size % 4096 ≡ 0
      → ((j : ℕ) (b : LogicBuffer) → get_elem? arr.items j ≡ some b → b.phys_addr % 4096 ≡ 0)
      → Returns
          (λ r t.
            (r.0 ≡ some c.mmap_address)
            × (size * length r.1 ≡ c.page_align (u32 (s.dev.bufunitsize * s.dev.bufcount)))
            × Shows arr.items size c.mmap_address r.1)
          (beaglelogic_mmap c k before s)
  unfolding beaglelogic_mmap
  beaglelogic_mmap-Shows arr cnt size before maps aligns at_page ring unit small whole frames =
      let total : u32 (s.dev.bufunitsize * s.dev.bufcount) ≡ size * cnt =
        total_size s.dev.bufunitsize s.dev.bufcount size cnt unit ring.count_eq small in
      let exact : c.page_align (u32 (s.dev.bufunitsize * s.dev.bufcount)) ≡ size * cnt =
        ap c.page_align total ∙ aligns (size * cnt) (multiple size whole cnt) in
      rw get_buffersize_lem (
        rw
          (==_false (u32 (s.dev.bufunitsize * s.dev.bufcount)) 0
            (λ e. omega (arith, e, total, positive size cnt ring.nonempty ring.two)))
          (bind
            (f_mmap-Linear k arr cnt size maps whole c.mmap_address _
              (record s { calls = s.calls + 1 }) ring (omega (arith, exact, total)) at_page)
            (λ r t (fine, linear, _). returns (
              rw fine refl,
              ap (λ m. size * m) (omega (arith, linear.reaches, ring.length_eq)) ∙ sym exact,
              Linear-Shows arr.items size whole frames c.mmap_address r.1 at_page linear,
            ))))
