-- ===== src/Tests/Safety.antt =====
-- The probe, the life of a device and its removal, at a concrete platform.
use mathlib.Core.List.{Perm}
use beagle_logic.Base.{
  ◌≡◌, refl, inl, true, none, some, [], ◌∷◌, pos, arith, ◌==◌, if◌then◌else◌, Option, inr,
}
use beagle_logic.System.{
  Platform, System, done, signal, mutex_lock, mutex_trylock, mutex_unlock, load,
}
use beagle_logic.System.Returns.{Returns}
use beagle_logic.Probe.{Bus}
use beagle_logic.Probe.Sequence.{
  probe, remove, get_handles, get_interrupts, boot, register, ask_firmware, configure, checked,
  pointer, interrupt_number, apply_property,
}
use beagle_logic.Probe.Outcome.{everything, ProbeOutcome}
use beagle_logic.Probe.Remove.{probe-remove, taken_all}
use beagle_logic.Ioctl.{start_capture, set_sample_rate, f_ioctl, start_ioctl}
use beagle_logic.Safety.{Sound}
use beagle_logic.Safety.Reach.{next, start, returned, elsewhere, ioctl, Reach-Sound, perform}
use beagle_logic.Tests.{granting, idle, closed, loaded, loaded-IsRing}
use beagle_logic.Capture.{start as start_device, write_configuration, send_cmd, poll_loop}
use beagle_logic.Attributes.{set_samplerate, set_sampleunit, set_triggerflags}
use beagle_logic.Tests.Interfaces.{plain}
use beagle_logic.Device.{BufPtr, running}
use beagle_logic.Probe.Steps.{probe-Outcome}

abbrev answering : Platform
answering = record granting { respond = λ c cxt. if cxt.cmd == 1 then 3 else 7 }

-- A board on which all goes well, with a sample rate of 50 MHz in its device tree.
abbrev board : Bus
board = record {
  of_node = true;
  of_match_device = true;
  kzalloc = true;
  pru_rproc_get = λ n. none;
  pruss_get = none;
  pruss_request_mem_region = pos 0;
  from_bl_1 = pos 21;
  from_bl_2 = pos 22;
  to_bl = pos 20;
  rproc_set_firmware = λ n. pos 0;
  rproc_boot = λ n. pos 0;
  request_irq = λ n. pos 0;
  misc_register = pos 0;
  sysfs_create_group = pos 0;
  pru0_sram = idle.dev.cxt_pru;
  samplerate = some 50_000_000;
  sampleunit = none;
  triggerflags = some 1;
}

idle-Sound : Sound idle
idle-Sound = record {
  ring = inl refl;
  owned = λ a. refl;
  rate_pos = omega arith;
  rate_le = omega arith;
  unit_le = omega arith;
  flags_le = omega arith;
  running_locked = λ e. cc;
}

-- Two buffers, whose blocks are in use.
abbrev stocked : System
stocked = record loaded { heap = 8192 ∷ 4096 ∷ [] }

stocked-Sound : Sound stocked
stocked-Sound = record {
  ring = inr (_, 2, 32, loaded-IsRing);
  owned = λ a. ground arith;
  rate_pos = omega arith;
  rate_le = omega arith;
  unit_le = omega arith;
  flags_le = omega arith;
  running_locked = λ e. cc;
}

abbrev first_buffer : Option BufPtr
first_buffer = some (record { array = 5; index = 0 })

-- A capture has been started by an ioctl.
abbrev started : System
started = record stocked {
  reader = record { buf = first_buffer; pos = 0; remaining = 32 };
  calls = 2;
  dev = record stocked.dev {
    mutex = true;
    bufbeingread = first_buffer;
    state = running;
    cxt_pru = record stocked.dev.cxt_pru { samplediv = 1; sampleunit = 1; resp = 7 };
  };
}

start_returns : perform plain answering (ioctl start_capture) stocked ≡ done tt started
unfolding perform f_ioctl start_ioctl start_device write_configuration send_cmd poll_loop mutex_lock
    load
start_returns = refl

-- Then another file is turned to.
Reach-Sound_example : Sound (record started { reader = closed; events = signal ∷ [] })
Reach-Sound_example = Reach-Sound plain answering stocked-Sound (
    next (next start (returned (ioctl start_capture) start_returns))
      (elsewhere closed (signal ∷ []) refl))

-- What the probe leaves on that board.
abbrev ready : System
ready = record idle {
  calls = 2;
  dev = record idle.dev {
    maxbufcount = 7;
    bufunitsize = 4_194_304;
    samplerate = 50_000_000;
    triggerflags = 1;
    cxt_pru = record idle.dev.cxt_pru { resp = 7 };
  };
}

probe_succeeds : probe board answering idle ≡ done (pos 0, taken_all) ready
unfolding probe get_handles get_interrupts boot register ask_firmware configure checked pointer
    interrupt_number apply_property send_cmd poll_loop set_samplerate set_sampleunit
    set_triggerflags mutex_trylock mutex_unlock
probe_succeeds = refl

rate_returns :
    perform plain answering (ioctl (set_sample_rate 20_000_000)) ready
    ≡ done tt (record ready { dev = record ready.dev { samplerate = 20_000_000 } })
unfolding perform f_ioctl set_samplerate mutex_trylock mutex_unlock
rate_returns = refl

probe-remove_example :
    Returns
      (λ q v. (v.heap ≡ []) × (v.dev.buffers ≡ none) × Perm q everything)
      (remove (record ready { dev = record ready.dev { samplerate = 20_000_000 } }))
probe-remove_example =
    probe-remove plain answering board idle refl probe_succeeds
      (next start (returned (ioctl (set_sample_rate 20_000_000)) rate_returns)) refl

probe-Outcome_example :
    Returns (λ a t. ProbeOutcome board granting idle a.0 a.1 t) (probe board granting idle)
probe-Outcome_example = probe-Outcome board granting idle
