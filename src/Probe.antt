-- ===== src/Probe.antt =====
-- `beaglelogic_probe` and `beaglelogic_remove` of kernel/beaglelogic.c: what they take from the
-- platform and what they give back. The functions themselves are in Probe.Sequence.
pub mod Sequence
pub mod Outcome
pub mod Settings
pub mod Steps
pub mod Remove
use beagle_logic.Base.{
  ℕ, ◌-◌, ◌%◌, ℤ, pos, negsuc, Bool, true, false, Option, none, List, [], ◌∷◌, ◌++◌, ◌==◌, ltb,
  if◌then◌else◌, word,
}
use beagle_logic.Device.{BeagleLogicDev, CaptureContext, disabled}

-- What the probe takes and has to give back.
pub data Resource : Type 0 where
  device_memory pru0_handle pruss_handle pru1_handle dram : Resource
  pru0_running pru1_running irq_1 irq_2 misc_device sysfs_group : Resource

-- The resources taken, the latest first, and those given back, in order; whether `pru0sram.va` is
-- set.
pub record Ledger : Type 0 where
  pub acquired : List Resource
  pub released : List Resource
  pub sram : Bool

abbrev pub nothing_taken : Ledger
nothing_taken = record { acquired = []; released = []; sram = false }

abbrev pub acquire : Resource → Ledger → Ledger
acquire r l = record l { acquired = r ∷ l.acquired }

abbrev pub release : Resource → Ledger → Ledger
release r l = record l { released = l.released ++ (r ∷ []) }

-- What the device tree, the remote processors, the interrupt controller and the registries answer
-- to the probe. A pointer is NULL or an error number, which is negative, or good (`none`). An `int`
-- of these functions is 0 where they succeed, except for the interrupt numbers.
pub record Bus : Type 0 where
  pub of_node : Bool
  pub of_match_device : Bool
  pub kzalloc : Bool
  -- The error number less one, for a PRU by its number.
  pub pru_rproc_get : ℕ → Option ℕ
  pub pruss_get : Option ℕ
  pub pruss_request_mem_region : ℤ
  pub from_bl_1 : ℤ
  pub from_bl_2 : ℤ
  pub to_bl : ℤ
  pub rproc_set_firmware : ℕ → ℤ
  pub rproc_boot : ℕ → ℤ
  pub request_irq : ℤ → ℤ
  pub misc_register : ℤ
  pub sysfs_create_group : ℤ
  -- PRU0's memory, as the firmware has set it up.
  pub pru0_sram : CaptureContext
  -- The settings in the device tree.
  pub samplerate : Option ℕ
  pub sampleunit : Option ℕ
  pub triggerflags : Option ℕ

-- `-ENODEV` and `-EPROBE_DEFER`.
abbrev pub enodev_int : ℤ
enodev_int = negsuc 18

abbrev pub is_deferred : ℤ → Bool
is_deferred (pos n) = false
is_deferred (negsuc n) = n == 516

-- `if (ret)` on an `int`.
abbrev pub is_zero : ℤ → Bool
is_zero (pos n) = n == 0
is_zero (negsuc n) = false

-- The bit pattern of an `int`, and the `int` of a bit pattern.
abbrev pub to_word : ℤ → ℕ
to_word (pos n) = n % word
to_word (negsuc n) = word - 1 - n % word

abbrev pub to_int : ℕ → ℤ
to_int w = if ltb w 0x80000000 then pos w else negsuc (word - 1 - w)

abbrev zeroed_context : CaptureContext
zeroed_context = record {
  magic = 0;
  cmd = 0;
  resp = 0;
  samplediv = 0;
  sampleunit = 0;
  triggerflags = 0;
  list = [];
}

-- The structure from `kzalloc`; the mutex, the state and `cxt_pru` are set later and not read
-- before.
abbrev pub zeroed_dev : BeagleLogicDev
zeroed_dev = record {
  to_bl_irq = 0;
  from_bl_irq_1 = 0;
  from_bl_irq_2 = 0;
  coreclockfreq = 0;
  mutex = false;
  buffers = none;
  lastbufready = none;
  bufbeingread = none;
  bufcount = 0;
  cxt_pru = zeroed_context;
  maxbufcount = 0;
  bufunitsize = 0;
  samplerate = 0;
  triggerflags = 0;
  sampleunit = 0;
  state = disabled;
  lasterror = 0;
}

-- The labels of the clean-up, each going on with the next.
abbrev pub fail_free : Ledger → Ledger
fail_free l = release device_memory l

abbrev pub fail_pru0_put : Ledger → Ledger
fail_pru0_put l = fail_free (release pru0_handle l)

abbrev pub fail_pruss_put : Ledger → Ledger
fail_pruss_put l = fail_pru0_put (release pruss_handle l)

abbrev pub fail_putmem : Ledger → Ledger
fail_putmem l = fail_pruss_put (release pru1_handle (if l.sram then release dram l else l))

abbrev pub fail_shutdown_pru0 : Ledger → Ledger
fail_shutdown_pru0 l = fail_putmem (release pru0_running l)

abbrev pub fail_shutdown_prus : Ledger → Ledger
fail_shutdown_prus l = fail_shutdown_pru0 (release pru1_running l)

abbrev pub fail_free_irq1 : Ledger → Ledger
fail_free_irq1 l = fail_shutdown_prus (release irq_1 l)

abbrev pub fail_free_irqs : Ledger → Ledger
fail_free_irqs l = fail_free_irq1 (release irq_2 l)

abbrev pub faildereg : Ledger → Ledger
faildereg l = fail_free_irqs (release misc_device l)

abbrev pub bl_fw_magic : ℕ
bl_fw_magic = 0xBEA61E10
