-- ===== src/TestApp.antt =====
-- The test application, testapp/beaglelogictestapp.c, as it is built (NONBLOCK): it maps the
-- device, starts a capture and copies what ten rounds of reads report. Its messages are left out.
pub mod Time
pub mod Reads
use beagle_logic.Base.{
  ℕ, zero, suc, ◌+◌, ◌-◌, ◌*◌, ◌/◌, ◌%◌, ◌^◌, Bool, true, false, ℤ, pos, negsuc, Option, none, some,
  ltb, leb, ◌==◌, ◌&&◌, not, if◌then◌else◌, u32, word, List, [], ◌∷◌,
}
use beagle_logic.System.{Platform, M, pure, ◌>>=◌, ◌>>◌, ignoring, undefined, spinning}
use beagle_logic.File.{f_read, UserMapping}
use beagle_logic.User.{
  Libc, or_before, beaglelogic_open, beaglelogic_mmap, beaglelogic_get_buffersize,
  beaglelogic_set_buffersize, beaglelogic_set_samplerate, beaglelogic_set_sampleunit,
  beaglelogic_set_triggerflags, beaglelogic_start, beaglelogic_munmap, beaglelogic_close,
}

-- `struct timespec`
pub record Timespec : Type 0 where
  pub tv_sec : ℕ
  pub tv_nsec : ℕ

abbrev pub u64 : ℕ → ℕ
u64 n = n % 2 ^ 64

-- A difference of two `long`, as a `uint64_t`.
abbrev pub difference : ℕ → ℕ → ℕ
difference a b = u64 (a + 2 ^ 64 - b)

unfoldable pub timediff : Timespec → Timespec → ℕ
timediff tv1 tv2 =
    u64
      (u64 (difference tv2.tv_sec tv1.tv_sec * 1_000_000_000) + difference tv2.tv_nsec tv1.tv_nsec)
    / 1000

-- What the C library and the kernel do for the application besides `Libc`.
pub record Host : Type 0 where
  -- `poll(&pollfd, 1, 500)`: whether `revents` is not 0 after it. What it waits for may happen.
  pub poll : M Bool
  -- Whether that many bytes are granted.
  pub calloc : ℕ → Bool
  -- The times before and after the reads.
  pub before : Timespec
  pub after : Timespec
  -- What `sz_to_read` holds before it is set.
  pub stack : ℕ

abbrev pub read_size : ℕ
read_size = 64 * 1024

abbrev pub least_size : ℕ
least_size = 32 * 1024 * 1024

-- The address space that the copies use: the bytes of `buf`, and those of `bl_mem`, `none` where
-- `bl_mem` is MAP_FAILED.
pub record Areas : Type 0 where
  pub room : ℕ
  pub mapped : Option ℕ

-- `memcpy(buf2, buf3, n)` with both pointers at offset `at`: no access is outside its area.
abbrev pub memcpy : Areas → ℕ → ℕ → M (Unit {0})
memcpy a at zero = pure tt
memcpy a at (suc n) = elim a.mapped [
  | none ↦ undefined
  | some len ↦ if leb (at + suc n) a.room && leb (at + suc n) len then pure tt else undefined
]

-- A `ssize_t` as the `size_t` that it is assigned to.
abbrev pub to_size : ℤ → ℕ
to_size (pos n) = n
to_size (negsuc n) = word - 1 - n

abbrev pub mapped_bytes : List UserMapping → ℕ
mapped_bytes [] = 0
mapped_bytes (m ∷ ms) = m.size + mapped_bytes ms

-- The application's variables `sz_to_read`, `buf` and `bl_mem` once the buffers are set up.
abbrev pub areas : ℕ → Option ℕ → Areas
areas size mapped = record { room = size / 32 * 32; mapped = mapped }

module _ (c : Libc) (k : Platform) (h : Host) where
  -- What follows `memcpy` in the loop, `again` being the next round. `read` returns -1 for an
  -- error.
  abbrev pub after_read : (ℕ → Bool → M ℕ) → ℕ → Bool → ℤ → M ℕ
  after_read again cnt1 revents (pos zero) = pure cnt1
  after_read again cnt1 revents (pos (suc n)) = again (cnt1 + suc n) revents
  after_read again cnt1 revents (negsuc n) = h.poll >>= λ ready. again cnt1 ready

  -- The inner loop with `cnt1` and `pollfd.revents`; `buf2` and `buf3` are `cnt1` bytes on. The
  -- result is `cnt1` at the end. What is copied is in bounds or the application does what C leaves
  -- undefined.
  unfoldable pub read_loop : ℕ → ℕ → Areas → ℕ → Bool → M ℕ
  read_loop zero size a cnt1 revents = spinning
  read_loop (suc fuel) size a cnt1 revents = elim (ltb cnt1 size && revents) [
    | false ↦ pure cnt1
    | true ↦ do
      r ← f_read k true read_size
      memcpy a cnt1 (to_size (c.result r.0))
      after_read (read_loop fuel size a) cnt1 revents (c.result r.0)
  ]

  -- The rounds that are left, with `cnt`.
  unfoldable pub rounds : ℕ → ℕ → ℕ → Areas → ℕ → M ℕ
  rounds fuel zero size a cnt = pure cnt
  rounds fuel (suc n) size a cnt = do
    ready ← h.poll
    cnt1 ← read_loop fuel size a 0 ready
    rounds fuel n size a (u32 (cnt + cnt1))

  -- `sz_to_read`: the buffers are made larger if they are below 32 MB.
  unfoldable pub buffer_size : M ℕ
  buffer_size = do
    r ← beaglelogic_get_buffersize c k
    if ltb (or_before c k h.stack r.1) least_size
        then (do
          ignoring (beaglelogic_set_buffersize c k least_size)
          again ← beaglelogic_get_buffersize c k
          pure (or_before c k least_size again.1))
        else pure (or_before c k h.stack r.1)

  unfoldable pub start_capture : M (Unit {0})
  start_capture = do
    ignoring (beaglelogic_set_samplerate c k (50 * 1000 * 1000))
    ignoring (beaglelogic_set_sampleunit c k 1)
    ignoring (beaglelogic_set_triggerflags c k 1)
    ignoring (beaglelogic_start c k)

  -- The speed is a division by the time.
  unfoldable pub finish : M ℤ
  finish = if timediff h.before h.after == 0 then undefined else do
    ignoring (beaglelogic_munmap c k h.stack c.mmap_address)
    ignoring (beaglelogic_close c k)
    pure (pos 0)

  -- From the allocation of `buf` on. `memset` writes `size` bytes.
  unfoldable pub capture : ℕ → ℕ → Option ℕ → M ℤ
  capture fuel size mapped =
      if not (h.calloc (size / 32 * 32) && (size % 32 == 0))
      then undefined
      else do start_capture; ignoring (rounds fuel 10 size (areas size mapped) 0); finish

  unfoldable pub main_nonblock : ℕ → M ℤ
  main_nonblock fuel = do
    bfd ← beaglelogic_open c k
    if to_size bfd == word - 1 then pure (negsuc 0) else do
      m ← beaglelogic_mmap c k h.stack
      size ← buffer_size
      capture fuel size (elim m.0 [ none ↦ none | some addr ↦ some (mapped_bytes m.1) ])

  -- The two handlers of signals close the file and end the application.
  unfoldable pub exithandler : M ℤ
  exithandler = ignoring (beaglelogic_close c k) >> pure (negsuc 0)

  unfoldable pub segfaulthandler : M ℤ
  segfaulthandler = ignoring (beaglelogic_close c k) >> pure (negsuc 0)
