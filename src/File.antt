-- ===== src/File.antt =====
-- The file operations of kernel/beaglelogic.c, except ioctl. `reader` of the state is the open
-- file's `struct logic_buffer_reader`.
pub mod Walk
pub mod Reader
pub mod Read
pub mod Seek
pub mod Mmap
pub mod Poll
pub mod Stale
pub mod Wait
pub mod Blocking
pub mod Events
use Prim.Native.Nat.{ℕ, zero, suc, ◌+◌, ◌-◌, ◌*◌, ◌/◌, ◌^◌, min}
use beagle_logic.Base.{
  Bool, true, false, Option, none, some, List, [], ◌&&◌, not, ltb, ◌==◌, if◌then◌else◌, take, drop,
  u32, ℤ, pos, negsuc, ◌⊎◌, inl, inr, ◌∷◌,
}
use beagle_logic.Device.{
  LogicBuffer, BufPtr, Ret, ret, err, Errno, is_failure, is_running, is_initialized, is_error,
  is_mapped, is_unmapped, same_ptr, enomem, eio, enoexec, eagain, erestartsys, efault, einval,
}
use beagle_logic.Device.BufState.{dropped}
use beagle_logic.System.{
  Platform, M, pure, ◌>>=◌, ◌>>◌, ignoring, read_dev, read_reader, update_dev, update_reader,
  undefined, spinning, element, load, store, devm_kzalloc, copy_to_user, remap_pfn_range,
}
use beagle_logic.Buffers.{map_buffer}
use beagle_logic.Irq.{next_ptr, wait_event_interruptible}
use beagle_logic.Capture.{start, stop}

-- `sizeof(struct logic_buffer_reader)` on 32-bit ARM.
abbrev pub sizeof_logic_buffer_reader : ℕ
sizeof_logic_buffer_reader = 16

-- The lines that `f_read` and `f_llseek` share: a mapped buffer is marked as dropped. An index is
-- below 2 ^ 16, so `0x10000 | index` is a sum.
unfoldable pub detect_drop : Option BufPtr → M (Unit {0})
detect_drop p = do
  b ← load p
  if is_mapped b.state
      then store p (record b { state = dropped })
        >> update_dev (λ d. record d { lasterror = 0x10000 + b.index })
      else pure tt

-- The other lines that they share: `n` bytes of the present buffer `buf` are passed; at its end the
-- reader goes on to the next one. `n` is at most `remaining`.
unfoldable pub pass_bytes : ℕ → Option BufPtr → ℕ → ℕ → M (Unit {0})
pass_bytes n buf offset remaining = do
  b ← load buf
  if remaining - n == 0
      then (do
        following ← load (next_ptr buf b)
        update_reader (λ r. record r { buf = next_ptr buf b; pos = 0; remaining = following.size }))
      else update_reader (λ r. record r { pos = offset + n; remaining = remaining - n })

unfoldable pub advance : ℕ → M (Unit {0})
advance n = read_reader >>= λ r. pass_bytes n r.buf r.pos r.remaining

-- One range that `remap_pfn_range` has mapped: its arguments.
pub record UserMapping : Type 0 where
  pub start : ℕ
  pub pfn : ℕ
  pub size : ℕ

abbrev pub map_pages : ℕ → ℕ → ℕ → UserMapping
map_pages addr frame bytes = record { start = addr; pfn = frame; size = bytes }

module _ (k : Platform) where
  unfoldable pub f_open : M Ret
  f_open = do
    d ← read_dev
    if d.bufcount == 0 then pure (err enomem) else do
      block ← devm_kzalloc k sizeof_logic_buffer_reader
      elim block [
        | none ↦ undefined
        | some id ↦ do
          update_reader (λ x. record { buf = none; pos = 0; remaining = 0 })
          elim d.buffers [
            | none ↦ pure (err enomem)
            | some arr ↦ ignoring (map_buffer k (element d 0)) >> pure (ret 0)
          ]
      ]

  -- From the label `perform_copy` on: the number of bytes returned, and the bytes.
  unfoldable pub perform_copy : ℕ → M (Ret × List ℕ)
  perform_copy sz = do
    r ← read_reader
    b ← load r.buf
    copied ← copy_to_user k (min r.remaining sz)
    if copied
        then (do
          detect_drop r.buf
          advance (min r.remaining sz)
          pure (ret (min r.remaining sz), take (min r.remaining sz) (drop r.pos b.mem)))
        else pure (err efault, [])

  -- A read that would block fails, or waits until the present buffer is handed over.
  unfoldable pub await_buffer : Bool → ℕ → M (Ret × List ℕ)
  await_buffer true sz = do
    r ← read_reader
    b ← load r.buf
    if is_unmapped b.state then perform_copy sz else pure (err eagain, [])
  await_buffer false sz = do
    woken ←
        wait_event_interruptible k
          (read_reader >>= λ r. load r.buf >>= λ b. pure (is_unmapped b.state))
    if woken then perform_copy sz else pure (err erestartsys, [])

  -- "First time init": the reader is put at the first buffer, and the capture is started.
  unfoldable pub first_read : M Ret
  first_read = do
    d ← read_dev
    b ← load (element d 0)
    update_reader (λ x. record x { buf = element d 0; remaining = b.size })
    if is_running d.state then pure (ret 0) else start k

  -- A read at the start of a buffer, or the first read of all.
  unfoldable pub begin_buffer : Bool → ℕ → Option BufPtr → M (Ret × List ℕ)
  begin_buffer nonblock sz none = do
    rc ← first_read
    if is_failure rc then pure (err enoexec, []) else await_buffer nonblock sz
  begin_buffer nonblock sz (some p) = do
    d ← read_dev
    if same_ptr (some p) (element d 0) && is_initialized d.state
        then pure (ret 0, [])
        else await_buffer nonblock sz

  unfoldable pub f_read : Bool → ℕ → M (Ret × List ℕ)
  f_read nonblock sz = do
    d ← read_dev
    r ← read_reader
    if is_error d.state
        then pure (err eio, [])
        else if not (r.pos == 0)
        then perform_copy sz
        else begin_buffer nonblock sz r.buf

  -- The loop of `f_mmap` over the `n` buffers from `i` on, the first at the user's address `addr`;
  -- page frames of 4096 bytes. With the result come the mappings that have been made.
  unfoldable pub remap_from : ℕ → ℕ → ℕ → M (Ret × List UserMapping)
  remap_from zero i addr = pure (ret 0, [])
  remap_from (suc n) i addr = do
    d ← read_dev
    b ← load (element d i)
    fine ← remap_pfn_range k addr (b.phys_addr / 4096) b.size
    elim fine [
      | true ↦ remap_from n (i + 1) (addr + b.size) >>= λ r.
          pure (r.0, map_pages addr (b.phys_addr / 4096) b.size ∷ r.1)
      | false ↦ pure (err einval, [])
    ]

  -- `start` is the user's address, `len` the length of the range.
  unfoldable pub f_mmap : ℕ → ℕ → M (Ret × List UserMapping)
  f_mmap start len = do
    d ← read_dev
    if ltb (u32 (d.bufunitsize * d.bufcount)) len
        then pure (err einval, [])
        else remap_from d.bufcount 0 start

  unfoldable pub f_release : M Ret
  f_release = stop k >> pure (ret 0)

-- The loop of `SEEK_CUR`: `i` bytes are left to pass.
unfoldable pub seek_loop : ℕ → ℕ → M (Unit {0})
seek_loop fuel zero = pure tt
seek_loop zero (suc i) = spinning
seek_loop (suc fuel) (suc i) = do
  r ← read_reader
  detect_drop r.buf
  advance (min (u32 (suc i)) r.remaining)
  seek_loop fuel (suc i - min (u32 (suc i)) r.remaining)

pub data Whence : Type 0 where
  seek_set seek_cur seek_end : Whence

module _ (k : Platform) where
  -- The offset reached, or an error number. `fuel` bounds the rounds of the loop.
  unfoldable pub f_llseek : ℕ → ℤ → Whence → M (ℤ ⊎ Errno)
  f_llseek fuel (pos n) seek_cur = seek_loop fuel n >> pure (inl (pos n))
  f_llseek fuel (negsuc n) seek_cur = pure (inl (negsuc n))
  f_llseek fuel (pos zero) seek_set = do
    update_reader (λ x. record x { buf = none; pos = 0; remaining = 0 })
    stop k
    d ← read_dev
    ignoring (map_buffer k (element d 0))
    pure (inl (pos 0))
  f_llseek fuel offset whence = pure (inr einval)

-- `POLLIN | POLLRDNORM`
abbrev pub poll_readable : ℕ
poll_readable = 0x41

unfoldable pub f_poll : M Ret
f_poll = do
  d ← read_dev
  r ← read_reader
  elim r.buf [
    | none ↦ if is_running d.state then undefined else pure (err enoexec)
    | some p ↦ do b ← load (some p); pure (ret (if is_unmapped b.state then poll_readable else 0))
  ]
