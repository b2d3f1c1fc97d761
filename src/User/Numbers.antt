-- ===== src/User/Numbers.antt =====
-- The numbers of the commands: the driver's `switch` undoes them.
use beagle_logic.Base.{
  ℕ, ◌+◌, ◌≤◌, ◌<◌, ◌≡◌, refl, arith, word, ap, pos, ◌/◌, true, false, none, some, u32,
}
use beagle_logic.Device.{ret}
use beagle_logic.System.{Platform, System, pure, and_then, ◌>>=◌, M, Run, done, sleeps, spins, oops}
use beagle_logic.System.Returns.{Returns, returns}
use beagle_logic.Attributes.{nearest_rate}
use beagle_logic.Attributes.Rates.{set_samplerate-Setting, rejected, busy, stored}
use beagle_logic.Ioctl.Settings.{give_granted}
use beagle_logic.Ioctl
use beagle_logic.Ioctl.{IoctlCmd, f_ioctl, Answer}
use beagle_logic.Probe.{to_int}
use beagle_logic.User.{
  Libc, number, decode, ioctl, Reply, beaglelogic_set_samplerate, beaglelogic_get_samplerate,
  beaglelogic_get_buffersize, beaglelogic_set_buffersize, beaglelogic_get_sampleunit,
  beaglelogic_set_sampleunit, beaglelogic_get_triggerflags, beaglelogic_set_triggerflags,
  beaglelogic_start, beaglelogic_stop, beaglelogic_memcacheinvalidate, beaglelogic_getbufunitsize,
  or_before,
}

-- The kernel packs the direction above the number: none, write, read.
pub record Packed (c : Libc) : Type 0 where
  pub io_iow : c.io + 256 ≤ c.iow
  pub iow_ior : c.iow + 256 ≤ c.ior

-- The argument of a command, 0 where it takes none.
abbrev pub argument : IoctlCmd → ℕ
argument (Ioctl.set_sample_rate n) = n
argument (Ioctl.set_sample_unit n) = n
argument (Ioctl.set_trigger_flags n) = n
argument (Ioctl.set_buffer_size n) = n
argument (Ioctl.set_bufunit_size n) = n
argument _ = 0

-- The call does what the driver does for the command.
abbrev pub Does : Libc → Platform → M Reply → IoctlCmd → Type 0
Does c k m cmd = (s : System) → m s ≡ and_then (f_ioctl k cmd s) (λ a. pure (c.result a.0, a.1))

-- Every function of the library that is one `ioctl` and no other system call, with the value `n`
-- where it sets one. `beaglelogic_getbufunitsize` returns the number that the driver has copied, or
-- what stood on the stack, `n`.
pub record LibraryCalls (c : Libc) (k : Platform) (n : ℕ) : Type 0 where
  pub get_buffersize_does : Does c k (beaglelogic_get_buffersize c k) Ioctl.get_buffer_size
  pub set_buffersize_does : Does c k (beaglelogic_set_buffersize c k n) (Ioctl.set_buffer_size n)
  pub get_samplerate_does : Does c k (beaglelogic_get_samplerate c k) Ioctl.get_sample_rate
  pub set_samplerate_does : Does c k (beaglelogic_set_samplerate c k n) (Ioctl.set_sample_rate n)
  pub get_sampleunit_does : Does c k (beaglelogic_get_sampleunit c k) Ioctl.get_sample_unit
  pub set_sampleunit_does : Does c k (beaglelogic_set_sampleunit c k n) (Ioctl.set_sample_unit n)
  pub get_triggerflags_does : Does c k (beaglelogic_get_triggerflags c k) Ioctl.get_trigger_flags
  pub set_triggerflags_does :
      Does c k (beaglelogic_set_triggerflags c k n) (Ioctl.set_trigger_flags n)
  pub start_does : Does c k (beaglelogic_start c k) Ioctl.start_capture
  pub stop_does : Does c k (beaglelogic_stop c k) Ioctl.stop_capture
  pub memcacheinvalidate_does : Does c k (beaglelogic_memcacheinvalidate c k) Ioctl.cache_invalidate
  pub getbufunitsize_does :
      (s : System)
      → beaglelogic_getbufunitsize c k n s
        ≡ and_then
            (f_ioctl k Ioctl.get_bufunit_size s)
            (λ a. pure (to_int (u32 (elim a.1 [ none ↦ n | some v ↦ v ]))))

module _ (c : Libc) (h : Packed c) where
  -- The driver's `switch` undoes the numbers.
  pub decode-number :
      (cmd : IoctlCmd) → argument cmd < word → decode c (number c cmd) (argument cmd) ≡ cmd
  unfolding decode
  decode-number Ioctl.get_version lt = ground (arith, h)
  decode-number cmd lt = ground (arith, h)

  -- A system call with the number of a command is that command of the driver.
  pub ioctl-number :
      (k : Platform) (cmd : IoctlCmd) (s : System)
      → argument cmd < word
      → ioctl c k (number c cmd) (argument cmd) s
        ≡ and_then (f_ioctl k cmd s) (λ a. pure (c.result a.0, a.1))
  unfolding ioctl
  ioctl-number k cmd s lt =
      ap (λ d. and_then (f_ioctl k d s) (λ a. pure (c.result a.0, a.1))) (decode-number cmd lt)

  bufunit_answer :
      (k : Platform) (q : Run Answer) (n : ℕ) {r : Run Reply}
      → r ≡ and_then q (λ a. pure (c.result a.0, a.1))
      → and_then r (λ a. pure (to_int (u32 (or_before c k n a.1))))
        ≡ and_then q (λ a. pure (to_int (u32 (elim a.1 [ none ↦ n | some v ↦ v ]))))
  bufunit_answer k (done (rc, none) t) n e = rw e refl
  bufunit_answer k (done (rc, some v) t) n e = rw e refl
  bufunit_answer k (sleeps t) n e = rw e refl
  bufunit_answer k spins n e = rw e refl
  bufunit_answer k oops n e = rw e refl

  -- Each of the twelve functions of the library that are one `ioctl` and no other system call
  -- reaches the driver as the command that its name says, with its argument, if that is below 2 ^ 32
  -- and the kernel packs the direction of a command above its number. Eleven return what `ioctl`
  -- returns; `beaglelogic_getbufunitsize` returns the number that the driver has copied, as an
  -- `int`, and what stood on the stack where it has copied none.
  pub library-f_ioctl : (k : Platform) (n : ℕ) → n < word → LibraryCalls c k n
  unfolding beaglelogic_get_buffersize beaglelogic_set_buffersize beaglelogic_get_samplerate
      beaglelogic_set_samplerate beaglelogic_get_sampleunit beaglelogic_set_sampleunit
      beaglelogic_get_triggerflags beaglelogic_set_triggerflags beaglelogic_start beaglelogic_stop
      beaglelogic_memcacheinvalidate beaglelogic_getbufunitsize
  library-f_ioctl k n lt = record {
    get_buffersize_does = λ s. ioctl-number k Ioctl.get_buffer_size s (omega arith);
    set_buffersize_does = λ s. ioctl-number k (Ioctl.set_buffer_size n) s lt;
    get_samplerate_does = λ s. ioctl-number k Ioctl.get_sample_rate s (omega arith);
    set_samplerate_does = λ s. ioctl-number k (Ioctl.set_sample_rate n) s lt;
    get_sampleunit_does = λ s. ioctl-number k Ioctl.get_sample_unit s (omega arith);
    set_sampleunit_does = λ s. ioctl-number k (Ioctl.set_sample_unit n) s lt;
    get_triggerflags_does = λ s. ioctl-number k Ioctl.get_trigger_flags s (omega arith);
    set_triggerflags_does = λ s. ioctl-number k (Ioctl.set_trigger_flags n) s lt;
    start_does = λ s. ioctl-number k Ioctl.start_capture s (omega arith);
    stop_does = λ s. ioctl-number k Ioctl.stop_capture s (omega arith);
    memcacheinvalidate_does = λ s. ioctl-number k Ioctl.cache_invalidate s (omega arith);
    getbufunitsize_does = λ s.
        bufunit_answer k (f_ioctl k Ioctl.get_bufunit_size s) n
          (ioctl-number k Ioctl.get_bufunit_size s (omega arith));
  }

  module _ (k : Platform) (n : ℕ) (s : System) where
    -- A sample rate from 1 to half the clock that is set with the library while no capture runs is
    -- read back with the library as the nearest rate, if the copy to the user succeeds, and both
    -- calls return 0.
    pub beaglelogic_get_samplerate-set :
        ((r : ℕ) → c.result (ret r) ≡ pos r)
        → s.dev.mutex ≡ false
        → ((i m : ℕ) → k.copy_to_user i m ≡ true)
        → n < word
        → 1 ≤ n
        → n ≤ s.dev.coreclockfreq / 2
        → Returns
            (λ (r : Reply × Reply) t.
              r ≡ ((pos 0, none), (pos 0, some (nearest_rate s.dev.coreclockfreq n))))
            ((beaglelogic_set_samplerate c k n >>= λ a.
                beaglelogic_get_samplerate c k >>= λ b. pure (a, b))
              s)
    unfolding beaglelogic_set_samplerate beaglelogic_get_samplerate f_ioctl
    beaglelogic_get_samplerate-set plain free grants lt ge le =
        rw (ioctl-number k (Ioctl.set_sample_rate n) s lt) (elim (set_samplerate-Setting n s) [
          | rejected bad e ↦ absurd (bad (ge, le))
          | busy _ taken e ↦ cc
          | stored _ _ e ↦ rw e (
              rw (ioctl-number k Ioctl.get_sample_rate _ (omega arith))
                (rw (give_granted k grants 4 _ _) (returns (rw (plain 0) refl))))
        ])
