-- ===== src/Use/Calls.antt =====
-- The ioctl commands, less those that replace the buffers.
use beagle_logic.Base.{ℕ, ◌*◌, inl, none, some, u32, arith}
use beagle_logic.Device.{Ret, ret, err, efault, enotty}
use beagle_logic.System.{Platform, M, pure, ◌>>=◌, ◌>>◌, element, copy_to_user}
use beagle_logic.Ioctl.{
  IoctlCmd, f_ioctl, or_efault, give, start_ioctl, Answer, get_version, get_sample_rate,
  get_sample_unit, get_trigger_flags, get_cur_index, cache_invalidate, get_buffer_size,
  get_bufunit_size, fill_test_pattern, start_capture, stop_capture, other, set_sample_rate,
  set_sample_unit, set_trigger_flags, set_buffer_size, set_bufunit_size,
}
use beagle_logic.Use.{InRing, Standing, OnOpened}
use beagle_logic.Use.Rules.{
  Safe-bind, Safe-pure, Safe-ignoring, Safe-read_dev, Safe-if, Safe-load, Safe-update_reader,
  Safe-filed, InRing-element,
}
use beagle_logic.Use.Writes.{Safe-counted}
use beagle_logic.Use.Driver.{Safe-start, Safe-stop}
use beagle_logic.Use.Settings.{
  Safe-set_samplerate, Safe-set_sampleunit, Safe-set_triggerflags, Safe-testpattern,
  Safe-unmap_from,
}

-- The commands that leave the buffers where they are.
unfoldable pub KeepsBuffers : IoctlCmd → Type 0
KeepsBuffers get_version = Unit
KeepsBuffers get_sample_rate = Unit
KeepsBuffers get_sample_unit = Unit
KeepsBuffers get_trigger_flags = Unit
KeepsBuffers get_cur_index = Unit
KeepsBuffers cache_invalidate = Unit
KeepsBuffers get_buffer_size = Unit
KeepsBuffers get_bufunit_size = Unit
KeepsBuffers fill_test_pattern = Unit
KeepsBuffers start_capture = Unit
KeepsBuffers stop_capture = Unit
KeepsBuffers other = Unit
KeepsBuffers (set_sample_rate n) = Unit
KeepsBuffers (set_sample_unit n) = Unit
KeepsBuffers (set_trigger_flags n) = Unit
KeepsBuffers (set_buffer_size n) = ⊥
KeepsBuffers (set_bufunit_size n) = ⊥

module _ (k : Platform) (cnt size id : ℕ) where
  Safe-give : (n value : ℕ) → OnOpened cnt size id (give k n value)
  unfolding copy_to_user
  Safe-give n value =
      Safe-bind _ _ (Safe-counted (λ s. k.copy_to_user s.calls n))
        (λ fine. Safe-if fine _ _ (Safe-pure (ret 0, some value)) (Safe-pure (err efault, none)))

  -- The start puts the reader at the first buffer, whether or not it was at one.
  pub Safe-start_ioctl : OnOpened cnt size id (start_ioctl k)
  unfolding start_ioctl
  Safe-start_ioctl =
      Safe-filed _ (λ _ g. inl g)
        (Safe-read_dev _ (λ d h.
          let first = InRing-element d 0 h (omega (arith, h.ring.two)) in
          Safe-update_reader {G = λ r. InRing cnt size id r.buf}
            (λ r. record r { buf = element d 0; pos = 0 }) _ (λ _ _. first)
            (Safe-load (element d 0) _ first (λ _ _ _ b placed.
              Safe-update_reader (λ r. record r { remaining = b.size }) _
                (λ _ g. record {
                  buf_in = g;
                  some_left = omega (arith, placed.size_eq, h.ring.nonempty);
                })
                (Safe-bind _ _ (Safe-ignoring _ (Safe-start k cnt size id (Standing cnt size id)))
                  (λ _. Safe-pure (ret 0)))))))

  answered :
      (m : M Ret)
      → OnOpened cnt size id m
      → OnOpened cnt size id (m >>= λ rc. pure {A = Answer} (rc, none))
  answered m h = Safe-bind m _ h (λ rc. Safe-pure (rc, none))

  or_efaulted :
      (m : M Ret) → OnOpened cnt size id m → OnOpened cnt size id (m >>= λ rc. pure (or_efault rc))
  or_efaulted m h = Safe-bind m _ h (λ rc. Safe-pure (or_efault rc))

  quietly :
      (m : M (Unit {0})) (a : Answer) → OnOpened cnt size id m → OnOpened cnt size id (m >> pure a)
  quietly m a h = Safe-bind m _ h (λ _. Safe-pure a)

  pub Safe-f_ioctl : (c : IoctlCmd) → KeepsBuffers c → OnOpened cnt size id (f_ioctl k c)
  unfolding f_ioctl KeepsBuffers
  Safe-f_ioctl get_version _ = Safe-pure (ret 0, none)
  Safe-f_ioctl get_sample_rate _ = Safe-read_dev _ (λ d _. Safe-give 4 d.samplerate)
  Safe-f_ioctl get_sample_unit _ = Safe-read_dev _ (λ d _. Safe-give 4 d.sampleunit)
  Safe-f_ioctl get_trigger_flags _ = Safe-read_dev _ (λ d _. Safe-give 4 d.triggerflags)
  Safe-f_ioctl get_cur_index _ =
      Safe-read_dev _
        (λ d h. Safe-load d.bufbeingread _ h.reading (λ _ _ _ b _. Safe-give 2 b.index))
  Safe-f_ioctl cache_invalidate _ = Safe-read_dev _ (λ d h.
      quietly _ (ret 0, none) (Safe-unmap_from k d.bufcount 0 (omega (arith, h.ring.count_eq))))
  Safe-f_ioctl get_buffer_size _ =
      Safe-read_dev _ (λ d _. Safe-give 4 (u32 (d.bufunitsize * d.bufcount)))
  Safe-f_ioctl get_bufunit_size _ = Safe-read_dev _ (λ d _. Safe-give 4 d.bufunitsize)
  Safe-f_ioctl fill_test_pattern _ = quietly _ (ret 0, none) Safe-testpattern
  Safe-f_ioctl start_capture _ = answered _ Safe-start_ioctl
  Safe-f_ioctl stop_capture _ = quietly _ (ret 0, none) (Safe-stop k cnt size id _)
  Safe-f_ioctl other _ = Safe-pure (err enotty, none)
  Safe-f_ioctl (set_sample_rate n) _ = answered _ (or_efaulted _ (Safe-set_samplerate n))
  Safe-f_ioctl (set_sample_unit n) _ = answered _ (or_efaulted _ (Safe-set_sampleunit n))
  Safe-f_ioctl (set_trigger_flags n) _ = answered _ (or_efaulted _ (Safe-set_triggerflags n))
  Safe-f_ioctl (set_buffer_size n) impossible = absurd impossible
  Safe-f_ioctl (set_bufunit_size n) impossible = absurd impossible
