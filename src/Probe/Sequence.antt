-- ===== src/Probe/Sequence.antt =====
-- The steps of `beaglelogic_probe`, the last one first, and `beaglelogic_remove`.
use beagle_logic.Base.{
  ℕ, ◌*◌, ℤ, pos, negsuc, Option, none, some, [], ◌∷◌, List, ◌==◌, ◌&&◌, ltb, not, if◌then◌else◌,
  true, false,
}
use beagle_logic.Device.{BeagleLogicDev, Ret, initialized, disabled}
use beagle_logic.System.{Platform, M, pure, ◌>>=◌, ◌>>◌, ignoring, update_dev, read_dev}
use beagle_logic.Buffers.{memfree}
use beagle_logic.Attributes.{set_samplerate, set_sampleunit, set_triggerflags}
use beagle_logic.Capture.{send_cmd, cmd_get_version, cmd_get_max_sg}
use beagle_logic.Probe.{
  Bus, Ledger, Resource, device_memory, pru0_handle, pruss_handle, pru1_handle, dram, pru0_running,
  pru1_running, irq_1, irq_2, misc_device, sysfs_group, acquire, nothing_taken, enodev_int,
  is_deferred, is_zero, to_word, to_int, zeroed_dev, fail_free, fail_pru0_put, fail_pruss_put,
  fail_putmem, fail_shutdown_pru0, fail_shutdown_prus, fail_free_irq1, fail_free_irqs, faildereg,
  bl_fw_magic,
}

-- The `int` that the probe returns.
abbrev pub Probed : Type 0
Probed = M (ℤ × Ledger)

-- `if (ret) goto label;`
unfoldable pub checked : ℤ → (Ledger → Ledger) → Ledger → Probed → Probed
checked rc label l next = if is_zero rc then next else pure (rc, label l)

-- `if (IS_ERR(p)) { ret = PTR_ERR(p); goto label; }`
unfoldable pub pointer : Option ℕ → (Ledger → Ledger) → Ledger → Probed → Probed
pointer none label l next = next
pointer (some e) label l next = pure (negsuc e, label l)

-- An interrupt number: only the error -EPROBE_DEFER ends the probe.
unfoldable pub interrupt_number : ℤ → (BeagleLogicDev → BeagleLogicDev) → Ledger → Probed → Probed
interrupt_number n assign l next =
    update_dev assign >> (if is_deferred n then pure (n, fail_putmem l) else next)

-- `if (!of_property_read_u32(...)) if (setter(dev, val)) dev_warn(...);`
unfoldable pub apply_property : Option ℕ → (ℕ → M Ret) → M (Unit {0})
apply_property none setter = pure tt
apply_property (some val) setter = ignoring (setter val)

abbrev pub defaults : BeagleLogicDev → BeagleLogicDev
defaults d = record d {
  samplerate = 100 * 1000 * 1000;
  sampleunit = 1;
  bufunitsize = 4 * 1024 * 1024;
  triggerflags = 0;
}

module _ (b : Bus) where
  -- From the locks on, once the device is registered.
  abbrev pub power_on : BeagleLogicDev → BeagleLogicDev
  power_on d = record d {
    mutex = false;
    coreclockfreq = 200_000_000;
    state = disabled;
    cxt_pru = b.pru0_sram;
  }

  unfoldable pub configure : Ledger → Probed
  configure l = do
    update_dev defaults
    apply_property b.samplerate set_samplerate
    apply_property b.sampleunit set_sampleunit
    apply_property b.triggerflags set_triggerflags
    update_dev (λ d. record d { state = initialized })
    checked b.sysfs_create_group faildereg l (pure (pos 0, acquire sysfs_group l))

  module _ (k : Platform) where
    unfoldable pub ask_firmware : Ledger → Probed
    ask_firmware l = do
      d ← read_dev
      if not (d.cxt_pru.magic == bl_fw_magic) then pure (pos 0, faildereg l) else do
        version ← send_cmd k cmd_get_version
        if version == 0 then pure (pos 0, faildereg l) else do
          most ← send_cmd k cmd_get_max_sg
          if ltb 0 most && ltb most 256
              then (do update_dev (λ e. record e { maxbufcount = most }); configure l)
              else pure (to_int most, faildereg l)

    -- From the installation of the interrupt handlers on.
    unfoldable pub register : Ledger → Probed
    register l = do
      d ← read_dev
      checked (b.request_irq (to_int d.from_bl_irq_1)) fail_shutdown_prus l (
          checked (b.request_irq (to_int d.from_bl_irq_2)) fail_free_irq1 (acquire irq_1 l) (
            checked b.misc_register fail_free_irqs (acquire irq_2 (acquire irq_1 l)) (do
              update_dev power_on
              ask_firmware (acquire misc_device (acquire irq_2 (acquire irq_1 l))))))

    unfoldable pub boot : Ledger → Probed
    boot l = checked (b.rproc_set_firmware 0) fail_putmem l (
        checked (b.rproc_set_firmware 1) fail_putmem l (
          checked (b.rproc_boot 0) fail_putmem l (
            checked (b.rproc_boot 1) fail_shutdown_pru0 (acquire pru0_running l)
              (register (acquire pru1_running (acquire pru0_running l))))))

    unfoldable pub get_interrupts : Ledger → Probed
    get_interrupts l =
        interrupt_number b.from_bl_1 (λ d. record d { from_bl_irq_1 = to_word b.from_bl_1 }) l
          (interrupt_number b.from_bl_2 (λ d. record d { from_bl_irq_2 = to_word b.from_bl_2 }) l
            (interrupt_number b.to_bl (λ d. record d { to_bl_irq = to_word b.to_bl }) l (boot l)))

    unfoldable pub get_handles : Ledger → Probed
    get_handles l = pointer (b.pru_rproc_get 0) fail_free l (
        pointer b.pruss_get fail_pru0_put (acquire pru0_handle l) (
          pointer (b.pru_rproc_get 1) fail_pruss_put (acquire pruss_handle (acquire pru0_handle l))
            (get_memory (acquire pru1_handle (acquire pruss_handle (acquire pru0_handle l))))))
      where
        get_memory : Ledger → Probed
        get_memory m =
            checked b.pruss_request_mem_region fail_putmem m
              (get_interrupts (acquire dram (record m { sram = true })))

    unfoldable pub probe : Probed
    probe =
        if not b.of_node
        then pure (enodev_int, nothing_taken)
        else if not b.of_match_device
        then pure (enodev_int, nothing_taken)
        else if not b.kzalloc
        then pure (negsuc 0, nothing_taken)
        else (do update_dev (λ _. zeroed_dev); get_handles (acquire device_memory nothing_taken))

-- What `beaglelogic_remove` gives back, in order.
unfoldable pub remove : M (List Resource)
remove = do
  memfree
  pure (
      sysfs_group ∷ misc_device ∷ pru1_running ∷ pru0_running ∷ irq_2 ∷ irq_1 ∷ dram ∷ pru1_handle
      ∷ pruss_handle ∷ pru0_handle ∷ device_memory ∷ [])
