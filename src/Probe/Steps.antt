-- ===== src/Probe/Steps.antt =====
-- The steps of the probe, the last one first.
use mathlib.Core.Path.{subst}
use beagle_logic.Base.{
  ℕ, ◌≤◌, ◌≡◌, refl, inl, inr, Bool, true, false, Bool-cases, ℤ, pos, none, [], ◌∷◌, ◌==◌, ◌&&◌,
  not, ltb, if◌then◌else◌, arith,
}
use beagle_logic.System.{Platform, System, pure, ◌>>=◌, ◌>>◌, update_dev}
use beagle_logic.System.Returns.{Returns, returns, bind}
use beagle_logic.Capture.{send_cmd, poll_loop, timeout, cmd_get_version, cmd_get_max_sg}
use beagle_logic.Probe.{
  Bus, Ledger, device_memory, pru0_handle, pruss_handle, pru1_handle, dram, pru0_running,
  pru1_running, irq_1, irq_2, misc_device, acquire, is_zero, to_int, bl_fw_magic, faildereg,
  nothing_taken,
}
use beagle_logic.Probe.Sequence.{
  defaults, configure, ask_firmware, register, boot, get_interrupts, get_handles, probe, Probed,
  power_on,
}
use beagle_logic.Probe.Settings.{then_done, apply_samplerate, apply_sampleunit, apply_triggerflags}
use beagle_logic.Probe.Outcome.{
  EndsWell, Said, silent, responded, loaded, failed, wrong_magic, no_version, wrong_max_sg,
  checked-Outcome, pointer-Outcome, interrupt_number-Outcome,
}

-- A device that the firmware has answered for, before it is configured.
record PoweredOn (s u : System) : Type 0 where
  heap_same : u.heap ≡ s.heap
  unlocked : u.dev.mutex ≡ false
  no_buffers : u.dev.buffers ≡ none
  no_count : u.dev.bufcount ≡ 0
  clock_eq : u.dev.coreclockfreq ≡ 200_000_000

module _ (b : Bus) (k : Platform) (s : System) where
  -- The resources that are taken before the attributes are made.
  abbrev registered : Ledger
  registered = record {
    acquired =
        misc_device ∷ irq_2 ∷ irq_1 ∷ pru1_running ∷ pru0_running ∷ dram ∷ pru1_handle
        ∷ pruss_handle ∷ pru0_handle ∷ device_memory ∷ [];
    released = [];
    sram = true;
  }

  configure-Outcome :
      (u : System)
      → PoweredOn s u
      → 1 ≤ u.dev.maxbufcount
      → u.dev.maxbufcount ≤ 255
      → EndsWell b k s (configure b registered u)
  unfolding configure
  configure-Outcome u on ge le =
      then_done _
        (apply_samplerate (record u { dev = defaults u.dev }) on.unlocked b.samplerate on.clock_eq)
        (then_done _ (apply_sampleunit _ on.unlocked b.sampleunit) (
          then_done _ (apply_triggerflags _ on.unlocked b.triggerflags) (
            checked-Outcome b k s b.sysfs_create_group faildereg registered _ _ refl on.heap_same (
              returns (
                loaded refl refl refl (record {
                  heap_same = on.heap_same;
                  state_eq = refl;
                  unlocked = on.unlocked;
                  no_buffers = on.no_buffers;
                  no_count = on.no_count;
                  clock_eq = on.clock_eq;
                  unit_eq = refl;
                  most_ge = ge;
                  most_le = le;
                  rate_eq = refl;
                  sampleunit_eq = refl;
                  flags_eq = refl;
                }))))))

  -- What a command to the firmware leaves.
  send_cmd-PoweredOn :
      (c : ℕ) (u : System)
      → PoweredOn s u
      → Returns (λ r t. Said k r × PoweredOn s t) (send_cmd k c u)
  unfolding send_cmd
  send_cmd-PoweredOn c u on = elim (Bool-cases (poll_loop timeout (k.answers_after u.calls) == 0)) [
    | inl e ↦ rw e (returns (silent refl, ground (arith, on)))
    | inr e ↦ rw e (returns (responded _ _ refl, ground (arith, on)))
  ]

  sized :
      (m : ℕ) (u : System)
      → Said k m
      → PoweredOn s u
      → EndsWell b k s (
          (if ltb 0 m && ltb m 256
              then (do update_dev (λ e. record e { maxbufcount = m }); configure b registered)
              else pure (to_int m, faildereg registered))
            u)
  sized m u said on = elim (Bool-cases (ltb 0 m && ltb m 256)) [
    | inl e ↦ rw e (configure-Outcome _ (ground (arith, on)) (ground arith) (ground arith))
    | inr e ↦ rw e (returns (wrong_max_sg m said (λ h. ground arith) refl refl on.heap_same))
  ]

  versioned :
      (v : ℕ) (u : System)
      → Said k v
      → PoweredOn s u
      → EndsWell b k s (
          (if v == 0 then pure (pos 0, faildereg registered) else (do
            most ← send_cmd k cmd_get_max_sg
            if ltb 0 most && ltb most 256
                then (do update_dev (λ e. record e { maxbufcount = most }); configure b registered)
                else pure (to_int most, faildereg registered)))
            u)
  versioned v u said on = elim (Bool-cases (v == 0)) [
    | inl e ↦
        rw e (returns (no_version (subst (Said k) (ground arith) said) refl refl on.heap_same))
    | inr e ↦ rw e (
        bind (send_cmd-PoweredOn cmd_get_max_sg u on)
          (λ m t (answer, still). sized m t answer still))
  ]

  ask_firmware-Outcome :
      (u : System)
      → PoweredOn s u
      → u.dev.cxt_pru ≡ b.pru0_sram
      → EndsWell b k s (ask_firmware b k registered u)
  unfolding ask_firmware
  ask_firmware-Outcome u on e = elim (Bool-cases (u.dev.cxt_pru.magic == bl_fw_magic)) [
    | inl f ↦ rw f (
        bind (send_cmd-PoweredOn cmd_get_version u on)
          (λ v t (answer, still). versioned v t answer still))
    | inr f ↦ rw f (returns (wrong_magic (ground (arith, e)) refl refl on.heap_same))
  ]

  refused-Outcome :
      (granted : Bool) (r : ℤ) (next : Probed) (u : System)
      → is_zero r ≡ false
      → u.heap ≡ s.heap
      → EndsWell b k s (next u)
      → EndsWell b k s ((if not granted then pure (r, nothing_taken) else next) u)
  refused-Outcome true r next u nonzero same h = h
  refused-Outcome false r next u nonzero same h = returns (failed nonzero refl same)

  -- The ledgers between the steps.
  abbrev with_handles : Ledger
  with_handles =
      acquire pru1_handle
        (acquire pruss_handle (acquire pru0_handle (acquire device_memory nothing_taken)))

  abbrev with_memory : Ledger
  with_memory = acquire dram (record with_handles { sram = true })

  abbrev with_prus : Ledger
  with_prus = acquire pru1_running (acquire pru0_running with_memory)

  -- Before the device is powered on: the zeroed structure, but for the interrupt numbers.
  record Blank (u : System) : Type 0 where
    heap_same : u.heap ≡ s.heap
    no_buffers : u.dev.buffers ≡ none
    no_count : u.dev.bufcount ≡ 0

  register-Outcome : (u : System) → Blank u → EndsWell b k s (register b k with_prus u)
  unfolding register
  register-Outcome u h = checked-Outcome b k s _ _ _ _ u refl h.heap_same (
      checked-Outcome b k s _ _ _ _ u refl h.heap_same (
        checked-Outcome b k s _ _ _ _ u refl h.heap_same
          (ask_firmware-Outcome (record u { dev = power_on b u.dev }) (ground (arith, h)) refl)))

  boot-Outcome : (u : System) → Blank u → EndsWell b k s (boot b k with_memory u)
  unfolding boot
  boot-Outcome u h = checked-Outcome b k s _ _ _ _ u refl h.heap_same (
      checked-Outcome b k s _ _ _ _ u refl h.heap_same (
        checked-Outcome b k s _ _ _ _ u refl h.heap_same
          (checked-Outcome b k s _ _ _ _ u refl h.heap_same (register-Outcome u h))))

  get_interrupts-Outcome :
      (u : System) → Blank u → EndsWell b k s (get_interrupts b k with_memory u)
  unfolding get_interrupts
  get_interrupts-Outcome u h = interrupt_number-Outcome b k s _ _ _ _ u refl h.heap_same (
      interrupt_number-Outcome b k s _ _ _ _ _ refl h.heap_same (
        interrupt_number-Outcome b k s _ _ _ _ _ refl h.heap_same
          (boot-Outcome _ (ground (arith, h)))))

  get_handles-Outcome :
      (u : System)
      → Blank u
      → EndsWell b k s (get_handles b k (acquire device_memory nothing_taken) u)
  unfolding get_handles
  get_handles-Outcome u h = pointer-Outcome b k s _ _ _ _ u refl h.heap_same (
      pointer-Outcome b k s _ _ _ _ u refl h.heap_same (
        pointer-Outcome b k s _ _ _ _ u refl h.heap_same
          (checked-Outcome b k s _ _ _ _ u refl h.heap_same (get_interrupts-Outcome u h))))

  -- The probe returns, whatever the platform and the firmware answer: with 0 and a device that is
  -- ready for use, everything taken and nothing given back; or with an `int` other than 0; or,
  -- where the firmware has a wrong magic number, gives 0 as its version or a number of entries out
  -- of 1 to 255, with 0, 0 and that number. In all but the first case what was taken has been given
  -- back, the latest first, and no block has been kept.
  pub probe-Outcome : EndsWell b k s (probe b k s)
  unfolding probe
  probe-Outcome = refused-Outcome b.of_node _ _ s refl refl (
      refused-Outcome b.of_match_device _ _ s refl refl (
        refused-Outcome b.kzalloc _ _ s refl refl (
          get_handles-Outcome _ (record { heap_same = refl; no_buffers = refl; no_count = refl }))))
