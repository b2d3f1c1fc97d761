-- ===== src/Ioctl/Settings.antt =====
-- The ioctl commands that set a value, followed by those that read it back.
use beagle_logic.Base.{ℕ, ◌+◌, ◌/◌, ◌≤◌, ◌≡◌, refl, true, false, some}
use beagle_logic.Device.{ret}
use beagle_logic.System.{copy_to_user, Platform, System, done, M, pure, ◌>>=◌, ignoring, ◌>>◌}
use beagle_logic.System.Returns.{Returns, returns}
use beagle_logic.Attributes.{nearest_rate}
use beagle_logic.Attributes.Rates.{
  accepted, set_samplerate-Setting, set_sampleunit-Setting, set_triggerflags-Setting,
}
use beagle_logic.Ioctl.{
  f_ioctl, give, Answer, set_sample_rate, get_sample_rate, set_sample_unit, get_sample_unit,
  set_trigger_flags, get_trigger_flags,
}

module _ (k : Platform) (grants : (c m : ℕ) → k.copy_to_user c m ≡ true) where
  pub give_granted :
      (m v : ℕ) (u : System)
      → give k m v u ≡ done (ret 0, some v) (record u { calls = u.calls + 1 })
  unfolding copy_to_user
  give_granted m v u = rw (grants u.calls m) refl

-- The three settings, and then what is read back of each.
unfoldable pub set_and_get : Platform → ℕ → ℕ → ℕ → M (Answer × Answer × Answer)
set_and_get k rate unit flags = do
  ignoring (f_ioctl k (set_sample_rate rate))
  ignoring (f_ioctl k (set_sample_unit unit))
  ignoring (f_ioctl k (set_trigger_flags flags))
  a ← f_ioctl k get_sample_rate
  b ← f_ioctl k get_sample_unit
  c ← f_ioctl k get_trigger_flags
  pure (a, b, c)

-- While no capture runs, a sample rate of 1 to half the clock, a sample unit up to 2 and trigger
-- flags up to 1 that are set one after the other are read back as the nearest rate, that unit and
-- those flags, if the copies to the user succeed.
pub set_and_get_lem :
    (k : Platform) (rate unit flags : ℕ) (s : System)
    → s.dev.mutex ≡ false
    → ((c m : ℕ) → k.copy_to_user c m ≡ true)
    → 1 ≤ rate
    → rate ≤ s.dev.coreclockfreq / 2
    → unit ≤ 2
    → flags ≤ 1
    → Returns
        (λ (r : Answer × Answer × Answer) t. r ≡ (
          (ret 0, some (nearest_rate s.dev.coreclockfreq rate)),
          (ret 0, some unit),
          (ret 0, some flags),
        ))
        (set_and_get k rate unit flags s)
unfolding set_and_get f_ioctl
set_and_get_lem k rate unit flags s free grants ge le unit_le flags_le =
    let u : System = record s {
      dev = record s.dev { samplerate = nearest_rate s.dev.coreclockfreq rate };
    } in
    let v : System = record u { dev = record u.dev { sampleunit = unit } } in
    let w : System = record v { dev = record v.dev { triggerflags = flags } } in
    let x : System = record w { calls = s.calls + 1 } in
    rw
      (
        accepted (set_samplerate-Setting rate s) (ge, le) free,
        accepted (set_sampleunit-Setting unit u) unit_le free,
        accepted (set_triggerflags-Setting flags v) flags_le free,
        give_granted k grants 4 u.dev.samplerate w,
        give_granted k grants 4 unit x,
        give_granted k grants 4 flags (record x { calls = x.calls + 1 }),
      )
      (returns refl)
