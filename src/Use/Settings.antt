-- ===== src/Use/Settings.antt =====
-- The setters and the calls that go through all the buffers.
use beagle_logic.Base.{ℕ, zero, suc, ◌+◌, ◌/◌, ◌≤◌, refl, sym, ◌∙◌, arith, u32}
use beagle_logic.Device.{BeagleLogicDev, LogicBuffer, LogicBufferReader, Ret}
use beagle_logic.System.{System, Run, M, element, Platform}
use beagle_logic.System.Settles.{Settles, ended}
use beagle_logic.Attributes.{set_samplerate, set_sampleunit, set_triggerflags, nearest_rate}
use beagle_logic.Attributes.Rates.{
  Setting, rejected, busy, stored, set_samplerate-Setting, set_sampleunit-Setting,
  set_triggerflags-Setting, nearest_rate_bounds,
}
use beagle_logic.Submit.{fill_from, fill_buffer_testpattern, unmap_from}
use beagle_logic.Buffers.Ring.{IsPlaced}
use beagle_logic.Safety.Store.{patterned, patterned-Replaces}
use beagle_logic.Use.{InUse, DeviceInUse, Safe}
use beagle_logic.Use.Rules.{
  Safe-bind, Safe-pure, Safe-read_dev, Safe-load, Safe-store, DeviceInUse-frame, InRing-element,
}
use beagle_logic.Use.Writes.{Safe-mutex_lock, Safe-mutex_unlock}
use beagle_logic.Use.Driver.{Safe-unmap_buffer}

-- A buffer filled with the test pattern stays in its place.
patterned-IsPlaced :
    (cnt size i n : ℕ) (b : LogicBuffer)
    → IsPlaced cnt size i b
    → IsPlaced cnt size i (patterned b n)
patterned-IsPlaced cnt size i n b h =
    let same = patterned-Replaces b n (h.mem_eq ∙ sym h.size_eq) in
    record {
      index_eq = h.index_eq;
      next_eq = h.next_eq;
      size_eq = h.size_eq;
      mem_eq = same.length_same ∙ h.mem_eq;
    }

abbrev Same : ℕ → ℕ → ℕ → (LogicBufferReader → Type 0) → {A : Type 0} → M A → Type 0
Same cnt size id F m = Safe (InUse cnt size id F) (InUse cnt size id F) m

module _ {cnt size id : ℕ} {F : LogicBufferReader → Type 0} where
  Setting-Settles :
      {A : Type 0} (f : BeagleLogicDev → BeagleLogicDev) (s : System) (r : Run Ret)
      → (A → DeviceInUse cnt size id (f s.dev))
      → InUse cnt size id F s
      → Setting A f s r
      → Settles (λ _ t. InUse cnt size id F t) (InUse cnt size id F) r
  Setting-Settles f s r keeps h (rejected _ e) = rw e (ended h)
  Setting-Settles f s r keeps h (busy _ _ e) = rw e (ended h)
  Setting-Settles f s r keeps h (stored a _ e) =
      rw e (ended (record { device = keeps a; file = h.file }))

  pub Safe-set_samplerate : (n : ℕ) → Same cnt size id F (set_samplerate n)
  Safe-set_samplerate n = record {
    at = λ s h.
        Setting-Settles (λ d. record d { samplerate = nearest_rate d.coreclockfreq n }) s _
          (λ (low, high).
            let (above, _, _) = nearest_rate_bounds s.dev.coreclockfreq n low high in
            DeviceInUse-frame s.dev
              (record s.dev { samplerate = nearest_rate s.dev.coreclockfreq n }) refl refl
              h.device.reading (λ e. omega (arith, e, above, low)) h.device)
          h (set_samplerate-Setting n s);
  }

  pub Safe-set_sampleunit : (n : ℕ) → Same cnt size id F (set_sampleunit n)
  Safe-set_sampleunit n = record {
    at = λ s h.
        Setting-Settles (λ d. record d { sampleunit = n }) s _
          (λ _.
            DeviceInUse-frame s.dev (record s.dev { sampleunit = n }) refl refl h.device.reading
              h.device.rate h.device)
          h (set_sampleunit-Setting n s);
  }

  pub Safe-set_triggerflags : (n : ℕ) → Same cnt size id F (set_triggerflags n)
  Safe-set_triggerflags n = record {
    at = λ s h.
        Setting-Settles (λ d. record d { triggerflags = n }) s _
          (λ _.
            DeviceInUse-frame s.dev (record s.dev { triggerflags = n }) refl refl h.device.reading
              h.device.rate h.device)
          h (set_triggerflags-Setting n s);
  }

  pub Safe-fill_from : (n i m : ℕ) → i + n ≤ cnt → Same cnt size id F (fill_from n i m)
  unfolding fill_from
  Safe-fill_from zero i m fits = Safe-pure tt
  Safe-fill_from (suc n) i m fits = Safe-read_dev _ (λ d h.
      Safe-load (element d i) _ (InRing-element d i h (omega arith)) (λ j e lt b placed.
        Safe-bind _ _
          (Safe-store j (element d i) (patterned b m) e (patterned-IsPlaced cnt size j m b placed))
          (λ _. Safe-fill_from n (i + 1) (u32 (m + b.size / 4)) (omega arith))))

  pub Safe-testpattern : Same cnt size id F fill_buffer_testpattern
  unfolding fill_buffer_testpattern
  Safe-testpattern = Safe-bind _ _ Safe-mutex_lock (λ _. Safe-read_dev _ (λ d h.
      Safe-bind _ _ (Safe-fill_from d.bufcount 0 0 (omega (arith, h.ring.count_eq)))
        (λ _. Safe-mutex_unlock)))

  pub Safe-unmap_from : (k : Platform) (n i : ℕ) → i + n ≤ cnt → Same cnt size id F (unmap_from n i)
  unfolding unmap_from
  Safe-unmap_from k zero i fits = Safe-pure tt
  Safe-unmap_from k (suc n) i fits = Safe-read_dev _ (λ d h.
      Safe-bind _ _
        (Safe-unmap_buffer k cnt size id F (element d i) (InRing-element d i h (omega arith)))
        (λ _. Safe-unmap_from k n (i + 1) (omega arith)))
