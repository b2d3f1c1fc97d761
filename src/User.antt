-- ===== src/User.antt =====
-- The user library, testapp/beaglelogic.c: each function is a system call on the device file or on
-- a file of an attribute, which reaches the driver.
pub mod Numbers
pub mod Mmap
pub mod State
use beagle_logic.Base.{
  ℕ, ◌+◌, min, Bool, true, false, ℤ, pos, negsuc, Option, none, some, List, [], ◌++◌, ◌==◌, not,
  if◌then◌else◌, take, u32,
}
use beagle_logic.Device.{Ret, ret, err, is_failure}
use beagle_logic.System.{Platform, M, pure, ◌>>=◌, ignoring}
use beagle_logic.File.{f_open, f_read, f_mmap, f_release, UserMapping}
use beagle_logic.Ioctl
use beagle_logic.Ioctl.{IoctlCmd, f_ioctl}
use beagle_logic.Sysfs.{Text, Attribute, bl_lasterror_show, bl_state_show, state, lasterror, Shown}
use beagle_logic.Probe.{is_zero, to_int}

-- What the C library and the kernel do around the driver.
pub record Libc : Type 0 where
  -- `_IO('k', 0)`, `_IOW('k', 0, u32)` and `_IOR('k', 0, u32)`; the number is added to them.
  pub io : ℕ
  pub iow : ℕ
  pub ior : ℕ
  -- What `ioctl`, `read` and `close` return for what the driver has returned.
  pub result : Ret → ℤ
  -- The descriptor of a file that is opened, and of an attribute's file, or -1.
  pub file : ℕ
  pub attribute_file : Attribute → ℤ
  -- Where `mmap` puts a range, and the length that it asks the driver for.
  pub mmap_address : ℕ
  pub page_align : ℕ → ℕ
  pub munmap : ℕ → ℕ → ℤ
  -- `strtoul(buf, &endptr, 10)`.
  pub strtoul : List ℕ → ℕ
  -- The page that an attribute is shown in, and what stands on the stack.
  pub page : List ℕ
  pub stack : List ℕ

-- The numbers of kernel/beaglelogic.h; `other` stands for the numbers of no command, here one of
-- them.
abbrev pub number : Libc → IoctlCmd → ℕ
number c Ioctl.get_version = c.ior + 0x20
number c Ioctl.get_sample_rate = c.ior + 0x21
number c (Ioctl.set_sample_rate n) = c.iow + 0x21
number c Ioctl.get_sample_unit = c.ior + 0x22
number c (Ioctl.set_sample_unit n) = c.iow + 0x22
number c Ioctl.get_trigger_flags = c.ior + 0x23
number c (Ioctl.set_trigger_flags n) = c.iow + 0x23
number c Ioctl.get_cur_index = c.ior + 0x24
number c Ioctl.cache_invalidate = c.io + 0x25
number c Ioctl.get_buffer_size = c.ior + 0x26
number c (Ioctl.set_buffer_size n) = c.iow + 0x26
number c Ioctl.get_bufunit_size = c.ior + 0x27
number c (Ioctl.set_bufunit_size n) = c.iow + 0x27
number c Ioctl.fill_test_pattern = c.io + 0x28
number c Ioctl.start_capture = c.io + 0x29
number c Ioctl.stop_capture = c.io + 0x2A
number c Ioctl.other = c.io

-- `switch (cmd)` of the driver, with the argument as a `uint32_t`.
unfoldable pub decode : Libc → ℕ → ℕ → IoctlCmd
decode c cmd arg =
    if cmd == c.ior + 0x20
    then Ioctl.get_version
    else if cmd == c.ior + 0x21
    then Ioctl.get_sample_rate
    else if cmd == c.iow + 0x21
    then Ioctl.set_sample_rate (u32 arg)
    else if cmd == c.ior + 0x22
    then Ioctl.get_sample_unit
    else if cmd == c.iow + 0x22
    then Ioctl.set_sample_unit (u32 arg)
    else if cmd == c.ior + 0x23
    then Ioctl.get_trigger_flags
    else if cmd == c.iow + 0x23
    then Ioctl.set_trigger_flags (u32 arg)
    else if cmd == c.ior + 0x24
    then Ioctl.get_cur_index
    else if cmd == c.io + 0x25
    then Ioctl.cache_invalidate
    else if cmd == c.ior + 0x26
    then Ioctl.get_buffer_size
    else if cmd == c.iow + 0x26
    then Ioctl.set_buffer_size (u32 arg)
    else if cmd == c.ior + 0x27
    then Ioctl.get_bufunit_size
    else if cmd == c.iow + 0x27
    then Ioctl.set_bufunit_size (u32 arg)
    else if cmd == c.io + 0x28
    then Ioctl.fill_test_pattern
    else if cmd == c.io + 0x29
    then Ioctl.start_capture
    else if cmd == c.io + 0x2A
    then Ioctl.stop_capture
    else Ioctl.other

-- A call's `int`, and the number that the driver has copied to the caller, if it has.
abbrev pub Reply : Type 0
Reply = ℤ × Option ℕ

module _ (c : Libc) (k : Platform) where
  unfoldable pub ioctl : ℕ → ℕ → M Reply
  ioctl request arg = f_ioctl k (decode c request arg) >>= λ a. pure (c.result a.0, a.1)

  -- The descriptor, or -1; with O_NONBLOCK or without.
  unfoldable pub beaglelogic_open : M ℤ
  beaglelogic_open = f_open k >>= λ rc. pure (if is_failure rc then negsuc 0 else pos c.file)

  unfoldable pub beaglelogic_close : M ℤ
  beaglelogic_close = f_release k >>= λ rc. pure (c.result rc)

  unfoldable pub beaglelogic_read : Bool → ℕ → M (ℤ × List ℕ)
  beaglelogic_read nonblock bytes = f_read k nonblock bytes >>= λ r. pure (c.result r.0, r.1)

  unfoldable pub beaglelogic_get_buffersize : M Reply
  beaglelogic_get_buffersize = ioctl (c.ior + 0x26) 0

  unfoldable pub beaglelogic_set_buffersize : ℕ → M Reply
  beaglelogic_set_buffersize bufsize = ioctl (c.iow + 0x26) bufsize

  unfoldable pub beaglelogic_get_samplerate : M Reply
  beaglelogic_get_samplerate = ioctl (c.ior + 0x21) 0

  unfoldable pub beaglelogic_set_samplerate : ℕ → M Reply
  beaglelogic_set_samplerate samplerate = ioctl (c.iow + 0x21) samplerate

  unfoldable pub beaglelogic_get_sampleunit : M Reply
  beaglelogic_get_sampleunit = ioctl (c.ior + 0x22) 0

  unfoldable pub beaglelogic_set_sampleunit : ℕ → M Reply
  beaglelogic_set_sampleunit sampleunit = ioctl (c.iow + 0x22) sampleunit

  unfoldable pub beaglelogic_get_triggerflags : M Reply
  beaglelogic_get_triggerflags = ioctl (c.ior + 0x23) 0

  unfoldable pub beaglelogic_set_triggerflags : ℕ → M Reply
  beaglelogic_set_triggerflags triggerflags = ioctl (c.iow + 0x23) triggerflags

  unfoldable pub beaglelogic_start : M Reply
  beaglelogic_start = ioctl (c.io + 0x29) 0

  unfoldable pub beaglelogic_stop : M Reply
  beaglelogic_stop = ioctl (c.io + 0x2A) 0

  unfoldable pub beaglelogic_memcacheinvalidate : M Reply
  beaglelogic_memcacheinvalidate = ioctl (c.io + 0x25) 0

  -- The variable keeps what stood on the stack (`before`) where the driver has not written it.
  abbrev pub or_before : ℕ → Option ℕ → ℕ
  or_before before none = before
  or_before before (some v) = v

  unfoldable pub beaglelogic_getbufunitsize : ℕ → M ℤ
  beaglelogic_getbufunitsize before =
      ioctl (c.ior + 0x27) 0 >>= λ r. pure (to_int (u32 (or_before before r.1)))

  -- The address, or MAP_FAILED, with the mappings that the driver has made. `mmap` refuses a length
  -- of 0.
  unfoldable pub beaglelogic_mmap : ℕ → M (Option ℕ × List UserMapping)
  beaglelogic_mmap before = do
    r ← beaglelogic_get_buffersize
    if not (is_zero r.0)
        then pure (none, [])
        else if or_before before r.1 == 0
        then pure (none, [])
        else do
          p ← f_mmap k c.mmap_address (c.page_align (or_before before r.1))
          pure (if is_failure p.0 then none else some c.mmap_address, p.1)

  unfoldable pub beaglelogic_munmap : ℕ → ℕ → M ℤ
  beaglelogic_munmap before addr = do
    r ← beaglelogic_get_buffersize
    pure (if not (is_zero r.0) then negsuc 0 else c.munmap addr (or_before before r.1))

-- The two functions that read a number from the file of an attribute: `read` fails on the
-- descriptor -1. What is read is not ended by a 0.
abbrev pub read_number : Libc → ℤ → M Shown → M ℤ
read_number c (negsuc n) shown = pure (negsuc 0)
read_number c (pos fd) shown =
    if fd == 0
    then pure (negsuc 0)
    else shown >>= λ r. pure (to_int (u32 (c.strtoul (take 16 (take (min 16 r.0) r.1 ++ c.stack)))))

module _ (x : Text) (c : Libc) (k : Platform) where
  unfoldable pub beaglelogic_getlasterror : M ℤ
  beaglelogic_getlasterror =
      read_number c (c.attribute_file lasterror) (bl_lasterror_show x k c.page)

  unfoldable pub beaglelogic_waitfornextbuffer : M ℤ
  beaglelogic_waitfornextbuffer = read_number c (c.attribute_file state) (bl_state_show x k c.page)
