-- ===== src/Use/Writes.antt =====
-- The rules for calls that write to the device, the mutex and the calls outside the driver.
use mathlib.Core.Path.{subst}
use beagle_logic.Base.{ℕ, ◌+◌, ◌≡◌, ◌≢◌, refl, sym, true, false, Option, Bool-cases, inl, inr}
use beagle_logic.Device.{BufPtr, BeagleLogicDev, LogicBufferReader}
use beagle_logic.System.{System, done, update_dev, mutex_lock, mutex_unlock}
use beagle_logic.System.Settles.{ended, asleep}
use beagle_logic.Use.{InRing, DeviceInUse, InUse, Safe}
use beagle_logic.System.Mutex.{lock_taken, lock_free}
use beagle_logic.Use.Rules.{DeviceInUse-frame}

module _ {cnt size id : ℕ} {F : LogicBufferReader → Type 0} where
  pub Safe-update_dev :
      (f : BeagleLogicDev → BeagleLogicDev)
      → ((d : BeagleLogicDev) → DeviceInUse cnt size id d → DeviceInUse cnt size id (f d))
      → Safe (InUse cnt size id F) (InUse cnt size id F) (update_dev f)
  Safe-update_dev f keeps = record {
    at = λ s h. ended (record { device = keeps s.dev h.device; file = h.file });
  }

  -- Fields that nothing here depends on are written.
  pub Safe-fields :
      (f : BeagleLogicDev → BeagleLogicDev)
      → ((d : BeagleLogicDev)
          → ((f d).buffers ≡ d.buffers)
            × ((f d).bufcount ≡ d.bufcount)
            × ((f d).bufbeingread ≡ d.bufbeingread)
            × ((f d).samplerate ≡ d.samplerate))
      → Safe (InUse cnt size id F) (InUse cnt size id F) (update_dev f)
  Safe-fields f same = Safe-update_dev f (λ d h.
      let (a, b, c, e) = same d in
      DeviceInUse-frame d (f d) a b (subst (InRing cnt size id) (sym c) h.reading)
        (subst (λ x. x ≢ 0) (sym e) h.rate) h)

  pub Safe-bufbeingread :
      (f : BeagleLogicDev → Option BufPtr)
      → ((d : BeagleLogicDev) → DeviceInUse cnt size id d → InRing cnt size id (f d))
      → Safe
          (InUse cnt size id F)
          (InUse cnt size id F)
          (update_dev (λ d. record d { bufbeingread = f d }))
  Safe-bufbeingread f there =
      Safe-update_dev (λ d. record d { bufbeingread = f d })
        (λ d h.
          DeviceInUse-frame d (record d { bufbeingread = f d }) refl refl (there d h) h.rate h)

  -- A call outside the driver counts, and changes nothing else.
  pub Safe-counted :
      {A : Type 0} (f : System → A)
      → Safe
          (InUse cnt size id F)
          (InUse cnt size id F)
          (λ s. done (f s) (record s { calls = s.calls + 1 }))
  Safe-counted f = record { at = λ s h. ended (record { device = h.device; file = h.file }) }

  pub Safe-mutex_unlock : Safe (InUse cnt size id F) (InUse cnt size id F) mutex_unlock
  unfolding mutex_unlock
  Safe-mutex_unlock = Safe-fields (λ d. record d { mutex = false }) (λ d. (refl, refl, refl, refl))

  pub Safe-mutex_lock : Safe (InUse cnt size id F) (InUse cnt size id F) mutex_lock
  Safe-mutex_lock = record {
    at = λ s h. elim (Bool-cases s.dev.mutex) [
      | inl e ↦ rw (lock_taken s e) (asleep h)
      | inr e ↦
          rw (lock_free s e)
            ((Safe-fields (λ d. record d { mutex = true }) (λ d. (refl, refl, refl, refl))).at s h)
    ];
  }
