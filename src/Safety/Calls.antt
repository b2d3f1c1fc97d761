-- ===== src/Safety/Calls.antt =====
-- Every call that the driver answers keeps the invariant.
use beagle_logic.Base.{ℕ, ◌*◌, refl, none, some, ltb, u32, round_up_32}
use beagle_logic.Device.{Ret, ret, err, is_failure, einval, efault, enotty}
use beagle_logic.System.{Platform, M, pure, ◌>>=◌, ◌>>◌, update_dev, element}
use beagle_logic.System.Keeps.{
  Keeps, Keeps-bind, Keeps-pure, Keeps-if, Keeps-read_dev, Keeps-ignoring,
}
use beagle_logic.Buffers.{memfree}
use beagle_logic.Ioctl.{
  IoctlCmd, f_ioctl, or_efault, give, set_buffer_size_ioctl, set_bufunit_size_ioctl, start_ioctl,
  Answer, get_version, get_sample_rate, get_sample_unit, get_trigger_flags, get_cur_index,
  cache_invalidate, get_buffer_size, get_bufunit_size, fill_test_pattern, start_capture,
  stop_capture, other, set_sample_rate, set_sample_unit, set_trigger_flags, set_buffer_size,
  set_bufunit_size,
}
use beagle_logic.Safety.{SoundIn, Anything}
use beagle_logic.Safety.Frame.{Keeps-fields, Keeps-update_reader}
use beagle_logic.Safety.Store.{Keeps-look}
use beagle_logic.Safety.Locks.{Keeps-set_samplerate, Keeps-set_sampleunit, Keeps-set_triggerflags}
use beagle_logic.Safety.Buffers.{
  Keeps-memfree, Keeps-replace, Keeps-map_and_submit, Keeps-testpattern, Keeps-unmap_from,
}
use beagle_logic.Safety.Capture.{Keeps-start, Keeps-stop}
use beagle_logic.Safety.File.{Keeps-copy_to_user}

abbrev Kept : {A : Type 0} → M A → Type 0
Kept m = Keeps (SoundIn Anything) m

-- The new unit, and then the buffers freed.
pub Keeps-resized :
    {A : Type 0} (n : ℕ) (a : A)
    → Keeps
        (SoundIn Anything)
        (update_dev (λ d. record d { bufunitsize = round_up_32 n }) >> (memfree >> pure a))
Keeps-resized n a =
    Keeps-bind _ _
      (Keeps-fields Anything (λ d. record d { bufunitsize = round_up_32 n }) (λ d. refl))
      (λ _. Keeps-bind _ _ Keeps-memfree (λ _. Keeps-pure a))

module _ (k : Platform) where
  Keeps-give : (n value : ℕ) → Kept (give k n value)
  Keeps-give n value =
      Keeps-bind _ _ (Keeps-copy_to_user k n)
        (λ fine. Keeps-if fine _ _ (Keeps-pure (ret 0, some value)) (Keeps-pure (err efault, none)))

  Keeps-set_buffer_size_ioctl : (n : ℕ) → Kept (set_buffer_size_ioctl k n)
  unfolding set_buffer_size_ioctl
  Keeps-set_buffer_size_ioctl n =
      Keeps-replace k n _
        (λ rc. Keeps-if (is_failure rc) _ _ (Keeps-pure rc) (Keeps-map_and_submit k))

  Keeps-set_bufunit_size_ioctl : (n : ℕ) → Kept (set_bufunit_size_ioctl k n)
  unfolding set_bufunit_size_ioctl
  Keeps-set_bufunit_size_ioctl n =
      Keeps-if (ltb n 32) _ _ (Keeps-pure (err einval)) (Keeps-resized n (ret 0))

  Keeps-start_ioctl : Kept (start_ioctl k)
  unfolding start_ioctl
  Keeps-start_ioctl = Keeps-bind _ _ Keeps-read_dev (λ d.
      Keeps-bind _ _ (Keeps-update_reader Anything (λ r. record r { buf = element d 0; pos = 0 }))
        (λ _. Keeps-look Anything (element d 0) _ (λ b.
          Keeps-bind _ _ (Keeps-update_reader Anything (λ r. record r { remaining = b.size }))
            (λ _. Keeps-bind _ _ (Keeps-ignoring _ (Keeps-start k)) (λ _. Keeps-pure (ret 0))))))

  answered :
      (m : M Ret) → Kept m → Keeps (SoundIn Anything) (m >>= λ rc. pure {A = Answer} (rc, none))
  answered m h = Keeps-bind m _ h (λ rc. Keeps-pure (rc, none))

  or_efaulted : (m : M Ret) → Kept m → Keeps (SoundIn Anything) (m >>= λ rc. pure (or_efault rc))
  or_efaulted m h = Keeps-bind m _ h (λ rc. Keeps-pure (or_efault rc))

  quietly : (m : M (Unit {0})) (a : Answer) → Kept m → Kept (m >> pure a)
  quietly m a h = Keeps-bind m _ h (λ _. Keeps-pure a)

  pub Keeps-f_ioctl : (c : IoctlCmd) → Keeps (SoundIn Anything) (f_ioctl k c)
  unfolding f_ioctl
  Keeps-f_ioctl get_version = Keeps-pure (ret 0, none)
  Keeps-f_ioctl get_sample_rate = Keeps-bind _ _ Keeps-read_dev (λ d. Keeps-give 4 d.samplerate)
  Keeps-f_ioctl get_sample_unit = Keeps-bind _ _ Keeps-read_dev (λ d. Keeps-give 4 d.sampleunit)
  Keeps-f_ioctl get_trigger_flags = Keeps-bind _ _ Keeps-read_dev (λ d. Keeps-give 4 d.triggerflags)
  Keeps-f_ioctl get_cur_index =
      Keeps-bind _ _ Keeps-read_dev
        (λ d. Keeps-look Anything d.bufbeingread _ (λ b. Keeps-give 2 b.index))
  Keeps-f_ioctl cache_invalidate =
      Keeps-bind _ _ Keeps-read_dev
        (λ d. quietly _ (ret 0, none) (Keeps-unmap_from Anything d.bufcount 0))
  Keeps-f_ioctl get_buffer_size =
      Keeps-bind _ _ Keeps-read_dev (λ d. Keeps-give 4 (u32 (d.bufunitsize * d.bufcount)))
  Keeps-f_ioctl get_bufunit_size = Keeps-bind _ _ Keeps-read_dev (λ d. Keeps-give 4 d.bufunitsize)
  Keeps-f_ioctl fill_test_pattern = quietly _ (ret 0, none) Keeps-testpattern
  Keeps-f_ioctl start_capture = answered _ Keeps-start_ioctl
  Keeps-f_ioctl stop_capture = quietly _ (ret 0, none) (Keeps-stop k)
  Keeps-f_ioctl other = Keeps-pure (err enotty, none)
  Keeps-f_ioctl (set_sample_rate n) = answered _ (or_efaulted _ (Keeps-set_samplerate n))
  Keeps-f_ioctl (set_sample_unit n) = answered _ (or_efaulted _ (Keeps-set_sampleunit n))
  Keeps-f_ioctl (set_trigger_flags n) = answered _ (or_efaulted _ (Keeps-set_triggerflags n))
  Keeps-f_ioctl (set_buffer_size n) = answered _ (Keeps-set_buffer_size_ioctl n)
  Keeps-f_ioctl (set_bufunit_size n) = answered _ (Keeps-set_bufunit_size_ioctl n)
