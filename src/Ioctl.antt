-- ===== src/Ioctl.antt =====
-- `beaglelogic_f_ioctl` of kernel/beaglelogic.c with the commands of kernel/beaglelogic.h.
pub mod Settings
use Prim.Native.Nat.{ℕ, ◌*◌}
use beagle_logic.Base.{Option, none, some, ltb, if◌then◌else◌, u32, round_up_32}
use beagle_logic.Device.{Ret, ret, err, is_failure, einval, efault, enotty}
use beagle_logic.System.{
  Platform, M, pure, ◌>>=◌, ◌>>◌, ignoring, read_dev, update_dev, update_reader, element, load,
  copy_to_user,
}
use beagle_logic.Buffers.{memalloc, memfree}
use beagle_logic.Submit.{map_and_submit_all_buffers, fill_buffer_testpattern, unmap_from}
use beagle_logic.Attributes.{set_samplerate, set_sampleunit, set_triggerflags}
use beagle_logic.Capture.{start, stop}

-- The commands, with the argument of those that take a number. `other` is any other number.
pub data IoctlCmd : Type 0 where
  get_version get_sample_rate get_sample_unit get_trigger_flags get_cur_index : IoctlCmd
  cache_invalidate get_buffer_size get_bufunit_size fill_test_pattern : IoctlCmd
  start_capture stop_capture other : IoctlCmd
  set_sample_rate set_sample_unit set_trigger_flags set_buffer_size set_bufunit_size : ℕ → IoctlCmd

-- The value returned, and the number that was copied to the user, if one was.
abbrev pub Answer : Type 0
Answer = Ret × Option ℕ

abbrev answer : M Ret → M Answer
answer m = m >>= λ rc. pure (rc, none)

-- `if (setter(...)) return -EFAULT; return 0;`
abbrev pub or_efault : Ret → Ret
or_efault rc = if is_failure rc then err efault else ret 0

module _ (k : Platform) where
  -- `copy_to_user` of a value of `n` bytes.
  abbrev pub give : ℕ → ℕ → M Answer
  give n value = do
    fine ← copy_to_user k n
    if fine then pure (ret 0, some value) else pure (err efault, none)

  unfoldable pub set_buffer_size_ioctl : ℕ → M Ret
  set_buffer_size_ioctl arg = do
    memfree
    val ← memalloc k arg
    if is_failure val then pure val else map_and_submit_all_buffers k

  unfoldable pub set_bufunit_size_ioctl : ℕ → M Ret
  set_bufunit_size_ioctl arg =
      if ltb arg 32
      then pure (err einval)
      else (do update_dev (λ d. record d { bufunitsize = round_up_32 arg }); memfree; pure (ret 0))

  unfoldable pub start_ioctl : M Ret
  start_ioctl = do
    d ← read_dev
    update_reader (λ r. record r { buf = element d 0; pos = 0 })
    b ← load (element d 0)
    update_reader (λ r. record r { remaining = b.size })
    ignoring (start k)
    pure (ret 0)

  unfoldable pub f_ioctl : IoctlCmd → M Answer
  f_ioctl get_version = pure (ret 0, none)
  f_ioctl get_sample_rate = read_dev >>= λ d. give 4 d.samplerate
  f_ioctl get_sample_unit = read_dev >>= λ d. give 4 d.sampleunit
  f_ioctl get_trigger_flags = read_dev >>= λ d. give 4 d.triggerflags
  f_ioctl get_cur_index = read_dev >>= λ d. load d.bufbeingread >>= λ b. give 2 b.index
  f_ioctl cache_invalidate = read_dev >>= λ d. unmap_from d.bufcount 0 >> pure (ret 0, none)
  f_ioctl get_buffer_size = read_dev >>= λ d. give 4 (u32 (d.bufunitsize * d.bufcount))
  f_ioctl get_bufunit_size = read_dev >>= λ d. give 4 d.bufunitsize
  f_ioctl fill_test_pattern = fill_buffer_testpattern >> pure (ret 0, none)
  f_ioctl start_capture = answer start_ioctl
  f_ioctl stop_capture = stop k >> pure (ret 0, none)
  f_ioctl other = pure (err enotty, none)
  f_ioctl (set_sample_rate n) = answer (set_samplerate n >>= λ rc. pure (or_efault rc))
  f_ioctl (set_sample_unit n) = answer (set_sampleunit n >>= λ rc. pure (or_efault rc))
  f_ioctl (set_trigger_flags n) = answer (set_triggerflags n >>= λ rc. pure (or_efault rc))
  f_ioctl (set_buffer_size n) = answer (set_buffer_size_ioctl n)
  f_ioctl (set_bufunit_size n) = answer (set_bufunit_size_ioctl n)
