-- ===== src/Tests/Firmware.antt =====
-- The theorems on PRU0 at concrete inputs.
use Prim.Native.Nat.{ℕ, ◌+◌}
use beagle_logic.Base.{
  ◌≡◌, refl, ◌∷◌, arith, replicate, Bool, none, some, ltb, ◌==◌, if◌then◌else◌, get_elem?, zero,
  suc, [],
}
use beagle_logic.System.{Platform}
use beagle_logic.System.Returns.{Returns}
use beagle_logic.Capture.{send_cmd, with_cmd}
use beagle_logic.Pru0.{
  Core, fw_magic, configure_capture, process_command, write_reg, read_reg, main_loop,
  resume_other_pru,
}
use beagle_logic.Pru0.Command.{
  Configuring, Answering, configure_capture-Configuring, process_command-Answering,
  send_cmd-Answering,
}
use beagle_logic.Pru0.Loop.{triggered, finished, main_loop-start}
use beagle_logic.Pru0.Access.{
  OtherPru, pru_other_read_reg, pru_other_write_reg, pru_other_and_or_reg,
}
use beagle_logic.Pru0.Registers.{Shows, Enabled, Leaves, registers-Leaves}
use beagle_logic.Tests.{granting, context, loaded}

-- PRU1 halts after two looks each time.
abbrev two_looks : ℕ → ℕ
two_looks n = 2

-- PRU1 waits for its settings, and the driver has asked for them to be handed over.
abbrev waiting : Core
waiting = record {
  cxt = record context { cmd = 3; samplediv = 1; sampleunit = 1 };
  state_run = 0;
  control = 1;
  status = 7;
  regs = fw_magic ∷ replicate 31 0;
  waits = 0;
  signals = [];
}

abbrev answering : Platform
answering = record granting {
  respond = λ n cxt. (process_command two_looks (record waiting { cxt = cxt })).cxt.resp;
}

configure_capture-Configuring_example :
    Configuring two_looks waiting
      (configure_capture two_looks waiting).0
      (configure_capture two_looks waiting).1
configure_capture-Configuring_example =
    configure_capture-Configuring two_looks waiting (omega arith)

process_command-Answering_example :
    Answering two_looks 3 waiting (process_command two_looks waiting)
process_command-Answering_example =
    process_command-Answering two_looks waiting (omega arith) (omega arith)

send_cmd-Answering_example :
    Returns
      (λ r t.
        (u : Core) × Answering two_looks 4 (record waiting { cxt = with_cmd 4 context }) u
        × (r ≡ u.cxt.resp)
        × (t.dev.cxt_pru.cmd ≡ 0))
      (send_cmd answering 4 loaded)
send_cmd-Answering_example =
    send_cmd-Answering two_looks waiting answering 4 loaded (omega arith) (omega arith)
      (λ n cxt. refl) (omega arith)

-- A sampling program that counts its calls in register 20.
abbrev counting : Core → Core
counting s = write_reg 20 (read_reg s 20 + 1) s

abbrev commanded : Core
commanded = record waiting { cxt = record context { cmd = 4 } }

counting_quiet : (counting (triggered commanded)).cxt.cmd ≡ 0
unfolding resume_other_pru
counting_quiet = refl

main_loop-start_example :
    main_loop two_looks counting 6 commanded ≡ finished (counting (triggered commanded))
main_loop-start_example = main_loop-start two_looks counting commanded refl counting_quiet 5

-- The registers of `waiting` at the debug interface; PRU1 is found stopped from the third look on.
abbrev debugged : OtherPru
debugged = record { control = 32770; debug = λ o. if o == 0 then fw_magic else 0; looks = 0 }

abbrev runs_for_two : ℕ → Bool
runs_for_two n = ltb n 2

-- All registers but the first are 0.
zeroes :
    (n r : ℕ) → ◌≡◌ {A = ℕ} (elim (get_elem? {A = ℕ} (replicate n 0) r) [ none ↦ 0 | some v ↦ v ]) 0
zeroes zero r = refl
zeroes (suc n) zero = refl
zeroes (suc n) (suc r) = zeroes n r

debugged-Shows : Shows runs_for_two waiting (omega arith) 4 debugged waiting debugged
debugged-Shows zero less = refl
debugged-Shows (suc r) less = ground (arith, zeroes 31 r)

registers-Leaves_example :
    ((t : OtherPru) × (pru_other_read_reg runs_for_two 4 14 debugged ≡ some (0, t))
      × Shows runs_for_two waiting (omega arith) 4 debugged waiting t
      × Enabled runs_for_two debugged t)
    × Leaves runs_for_two waiting
        (omega arith)
        4
        debugged
        (write_reg 14 3 waiting)
        (pru_other_write_reg runs_for_two 4 14 3 debugged)
    × Leaves runs_for_two waiting
        (omega arith)
        4
        debugged
        (write_reg 14 5 waiting)
        (pru_other_and_or_reg runs_for_two 4 14 1 5 debugged)
registers-Leaves_example =
    registers-Leaves runs_for_two waiting (omega arith) 4 debugged 14 3 1 5 (omega arith)
      (1, omega arith, refl) debugged-Shows
