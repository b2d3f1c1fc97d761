-- ===== src/Probe/Outcome.antt =====
-- How the probe ends.
use beagle_logic.Base.{
  ℕ, ◌≤◌, ◌<◌, ◌≡◌, ◌≢◌, refl, Bool, true, false, ℤ, pos, negsuc, Option, none, some, List, [], ◌∷◌,
  ◌&&◌, leb, if◌then◌else◌,
}
use beagle_logic.Device.{BeagleLogicDev, initialized, CaptureContext}
use beagle_logic.System.{Platform, System, Run, pure, ◌>>◌, update_dev}
use beagle_logic.System.Returns.{Returns, returns}
use beagle_logic.Attributes.{nearest_rate}
use beagle_logic.Capture.{minus_one_word}
use beagle_logic.Probe.{
  Bus, Ledger, Resource, device_memory, pru0_handle, pruss_handle, pru1_handle, dram, pru0_running,
  pru1_running, irq_1, irq_2, misc_device, sysfs_group, is_zero, is_deferred, to_int, bl_fw_magic,
  fail_putmem,
}
use beagle_logic.Probe.Sequence.{checked, pointer, interrupt_number, Probed}

-- Everything that the probe takes, the latest first.
abbrev pub everything : List Resource
everything =
    sysfs_group ∷ misc_device ∷ irq_2 ∷ irq_1 ∷ pru1_running ∷ pru0_running ∷ dram ∷ pru1_handle
    ∷ pruss_handle ∷ pru0_handle ∷ device_memory ∷ []

-- A setting from the device tree where it is there and in range, and else the default.
abbrev pub chosen : (ℕ → Bool) → (ℕ → ℕ) → ℕ → Option ℕ → ℕ
chosen fits f default none = default
chosen fits f default (some v) = if fits v then f v else default

-- A device that is ready for use.
pub record Ready (b : Bus) (s t : System) : Type 0 where
  pub heap_same : t.heap ≡ s.heap
  pub state_eq : t.dev.state ≡ initialized
  pub unlocked : t.dev.mutex ≡ false
  pub no_buffers : t.dev.buffers ≡ none
  pub no_count : t.dev.bufcount ≡ 0
  pub clock_eq : t.dev.coreclockfreq ≡ 200_000_000
  pub unit_eq : t.dev.bufunitsize ≡ 4_194_304
  pub most_ge : 1 ≤ t.dev.maxbufcount
  pub most_le : t.dev.maxbufcount ≤ 255
  pub rate_eq :
      t.dev.samplerate
      ≡ chosen
          (λ r. leb 1 r && leb r 100_000_000)
          (nearest_rate 200_000_000)
          100_000_000
          b.samplerate
  pub sampleunit_eq : t.dev.sampleunit ≡ chosen (λ n. leb n 2) (λ n. n) 1 b.sampleunit
  pub flags_eq : t.dev.triggerflags ≡ chosen (λ n. leb n 1) (λ n. n) 0 b.triggerflags

-- The result of a command: nothing in time, or a response of the firmware.
pub data Said (k : Platform) (r : ℕ) : Type 0 where
  silent : r ≡ minus_one_word → Said k r
  responded : (n : ℕ) (cxt : CaptureContext) → r ≡ k.respond n cxt → Said k r

-- How the probe ends. What the firmware answers wrongly is told apart from the errors.
pub data ProbeOutcome (b : Bus) (k : Platform) (s : System) (r : ℤ) (l : Ledger) (t : System)
    : Type 0 where
  loaded :
      r ≡ pos 0 → l.released ≡ [] → l.acquired ≡ everything → Ready b s t → ProbeOutcome b k s r l t
  failed : is_zero r ≡ false → l.released ≡ l.acquired → t.heap ≡ s.heap → ProbeOutcome b k s r l t
  wrong_magic :
      b.pru0_sram.magic ≢ bl_fw_magic
      → r ≡ pos 0
      → l.released ≡ l.acquired
      → t.heap ≡ s.heap
      → ProbeOutcome b k s r l t
  no_version :
      Said k 0 → r ≡ pos 0 → l.released ≡ l.acquired → t.heap ≡ s.heap → ProbeOutcome b k s r l t
  wrong_max_sg :
      (m : ℕ)
      → Said k m
      → ¬ ((0 < m) × (m < 256))
      → r ≡ to_int m
      → l.released ≡ l.acquired
      → t.heap ≡ s.heap
      → ProbeOutcome b k s r l t

abbrev pub EndsWell : Bus → Platform → System → Run (ℤ × Ledger) → Type 0
EndsWell b k s r = Returns (λ a t. ProbeOutcome b k s a.0 a.1 t) r

module _ (b : Bus) (k : Platform) (s : System) where
  pub checked-Outcome :
      (rc : ℤ) (label : Ledger → Ledger) (l : Ledger) (next : Probed) (u : System)
      → (label l).released ≡ (label l).acquired
      → u.heap ≡ s.heap
      → EndsWell b k s (next u)
      → EndsWell b k s (checked rc label l next u)
  unfolding checked
  checked-Outcome rc label l next u balanced same h = by_test (is_zero rc) refl
    where
      by_test :
          (z : Bool) → is_zero rc ≡ z → EndsWell b k s ((if z then next else pure (rc, label l)) u)
      by_test true e = h
      by_test false e = returns (failed e balanced same)

  pub pointer-Outcome :
      (o : Option ℕ) (label : Ledger → Ledger) (l : Ledger) (next : Probed) (u : System)
      → (label l).released ≡ (label l).acquired
      → u.heap ≡ s.heap
      → EndsWell b k s (next u)
      → EndsWell b k s (pointer o label l next u)
  unfolding pointer
  pointer-Outcome none label l next u balanced same h = h
  pointer-Outcome (some e) label l next u balanced same h = returns (failed refl balanced same)

  deferred_nonzero : (n : ℤ) → is_deferred n ≡ true → is_zero n ≡ false
  deferred_nonzero (pos n) e = cc
  deferred_nonzero (negsuc n) e = refl

  pub interrupt_number-Outcome :
      (n : ℤ) (f : BeagleLogicDev → BeagleLogicDev) (l : Ledger) (next : Probed) (u : System)
      → (fail_putmem l).released ≡ (fail_putmem l).acquired
      → u.heap ≡ s.heap
      → EndsWell b k s (next (record u { dev = f u.dev }))
      → EndsWell b k s (interrupt_number n f l next u)
  unfolding interrupt_number
  interrupt_number-Outcome n f l next u balanced same h = by_test (is_deferred n) refl
    where
      by_test :
          (z : Bool)
          → is_deferred n ≡ z
          → EndsWell b k s ((update_dev f >> (if z then pure (n, fail_putmem l) else next)) u)
      by_test false e = h
      by_test true e = returns (failed (deferred_nonzero n e) balanced same)
