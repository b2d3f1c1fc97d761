-- ===== src/Attributes.antt =====
-- The "Device Attributes Configuration" section of kernel/beaglelogic.c.
pub mod Rates
use beagle_logic.Base.{ℕ, ◌/◌, ◌||◌, ltb, if◌then◌else◌}
use beagle_logic.Device.{BeagleLogicDev, Ret, ret, err, einval, ebusy}
use beagle_logic.System.{M, pure, ◌>>=◌, ◌>>◌, read_dev, update_dev, mutex_trylock, mutex_unlock}

-- The sample rate that the hardware can do for a request: half the clock over a whole divisor.
abbrev pub nearest_rate : ℕ → ℕ → ℕ
nearest_rate clock rate = clock / 2 / (clock / 2 / rate)

-- `mutex_trylock`, one assignment, `mutex_unlock`, or -EBUSY.
abbrev pub assign_locked : (BeagleLogicDev → BeagleLogicDev) → M Ret
assign_locked f = do
  locked ← mutex_trylock
  if locked then update_dev f >> mutex_unlock >> pure (ret 0) else pure (err ebusy)

unfoldable pub get_samplerate : BeagleLogicDev → ℕ
get_samplerate d = d.samplerate

unfoldable pub set_samplerate : ℕ → M Ret
set_samplerate rate = do
  d ← read_dev
  if ltb (d.coreclockfreq / 2) rate || ltb rate 1
      then pure (err einval)
      else assign_locked (λ e. record e { samplerate = nearest_rate e.coreclockfreq rate })

unfoldable pub get_sampleunit : BeagleLogicDev → ℕ
get_sampleunit d = d.sampleunit

unfoldable pub set_sampleunit : ℕ → M Ret
set_sampleunit unit =
    if ltb 2 unit then pure (err einval) else assign_locked (λ e. record e { sampleunit = unit })

unfoldable pub get_triggerflags : BeagleLogicDev → ℕ
get_triggerflags d = d.triggerflags

unfoldable pub set_triggerflags : ℕ → M Ret
set_triggerflags flags =
    if ltb 1 flags
    then pure (err einval)
    else assign_locked (λ e. record e { triggerflags = flags })
