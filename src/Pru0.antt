-- ===== src/Pru0.antt =====
-- The command handler of PRU0, firmware/beaglelogic-pru0.c. The sampling program (`run`, modelled
-- in Pru0.Sampling) and how long PRU1 runs until it halts are parameters.
pub mod Command
pub mod Loop
pub mod Access
pub mod Routing
pub mod Registers
pub mod Sampling
pub mod Clock
use Prim.Native.Nat.{ℕ, zero, suc, ◌+◌, ◌-◌, ◌*◌, ◌/◌, ◌%◌}
use beagle_logic.Base.{
  Bool, true, false, Option, none, some, List, not, ◌==◌, if◌then◌else◌, get_elem?, set, u32, ◌++◌,
  ◌∷◌, [],
}
use beagle_logic.Device.{CaptureContext}
use beagle_logic.Pru0.Routing.{pru0_to_arm_b}

abbrev pub fw_magic : ℕ
fw_magic = 0xBEA61E10

abbrev pub max_buflist_entries : ℕ
max_buflist_entries = 128

-- `MINORVER | (MAJORVER << 8)` for version 0.3.
abbrev pub version : ℕ
version = 3

-- What PRU0 reads and writes: its memory, `state_run`, and PRU1's control and status registers and
-- general registers. `waits` counts the waits for PRU1 that have ended; `signals` are the values
-- written to R31, in order.
pub record Core : Type 0 where
  pub cxt : CaptureContext
  pub state_run : ℕ
  pub control : ℕ
  pub status : ℕ
  pub regs : List ℕ
  pub waits : ℕ
  pub signals : List ℕ

-- `CONTROL_ENABLE` set and `CONTROL_SOFT_RST_N` cleared in the low half of the control register.
abbrev pub enabled : ℕ → ℕ
enabled c = (c / 4) * 4 + 2

-- PRU1 goes on after its HALT instruction: the high half is the program counter to start from.
unfoldable pub resume_other_pru : Core → Core
resume_other_pru s = record s {
  control = u32 ((s.status % 65536 + 1) * 65536) + enabled (s.control % 65536);
}

-- Whether PRU1 is seen halted: `looks` of the looks at it find it running.
unfoldable pub wait_other_pru_timeout : ℕ → ℕ → Bool
wait_other_pru_timeout timeout zero = true
wait_other_pru_timeout zero (suc looks) = false
wait_other_pru_timeout (suc timeout) (suc looks) = wait_other_pru_timeout timeout looks

-- `pru_other_read_reg` and `pru_other_write_reg`. Both stop PRU1 and enable it again; one that
-- stands at a HALT instruction is then still there, and the two control bits are set anew before it
-- goes on.
abbrev pub read_reg : Core → ℕ → ℕ
read_reg s r = elim (get_elem? s.regs r) [ none ↦ 0 | some v ↦ v ]

abbrev pub write_reg : ℕ → ℕ → Core → Core
write_reg r v s = record s { regs = set s.regs r v }

-- `SIGNAL_EVENT`: `(1 << 5) | (x - 16)`, where `x` is one of the events 16 to 31.
abbrev pub signal_event : ℕ → Core → Core
signal_event x s = record s { signals = s.signals ++ ((32 + (x - 16)) ∷ []) }

-- `-1` as a word.
abbrev pub failed : ℕ
failed = 0xFFFFFFFF

-- The end of `configure_capture`: PRU1 is resumed and has to halt again.
abbrev pub hand_over : Bool → Core → ℕ × Core
hand_over halted s = (if halted then 0 else failed, record s { waits = s.waits + 1 })

-- The settings go to registers 14 and 15 of PRU1.
abbrev pub write_settings : Core → Core
write_settings s = resume_other_pru (write_reg 15 s.cxt.sampleunit (write_reg 14 s.cxt.samplediv s))

-- `looks n` says after how many looks PRU1 is halted in the wait number `n`.
module _ (looks : ℕ → ℕ) where
  -- After the first wait, which has found PRU1 halted or not.
  unfoldable pub configure_halted : Bool → Core → ℕ × Core
  configure_halted false s = (failed, s)
  configure_halted true s =
      if read_reg s 0 == fw_magic
      then hand_over (wait_other_pru_timeout 200 (looks s.waits)) (write_settings s)
      else (failed, s)

  unfoldable pub configure_capture : Core → ℕ × Core
  configure_capture s =
      configure_halted (wait_other_pru_timeout 200 (looks s.waits))
        (record s { waits = s.waits + 1 })

  unfoldable pub handle_command : ℕ → Core → ℕ × Core
  handle_command cmd s =
      if cmd == 1
      then (version, s)
      else if cmd == 2
      then (max_buflist_entries, s)
      else if cmd == 3
      then configure_capture s
      else if cmd == 4
      then (0, record s { state_run = 1 })
      else (failed, s)

  -- `cxt.resp = …; cxt.cmd = 0;`
  abbrev pub answered : ℕ × Core → Core
  answered (resp, s) = record s { cxt = record s.cxt { resp = resp; cmd = 0 } }

  -- The first half of a round of the main loop.
  unfoldable pub process_command : Core → Core
  process_command s = if s.cxt.cmd == 0 then s else answered (handle_command s.cxt.cmd s)

  -- The second half; `run` is the sampling program. It ends by signalling that
  -- the capture is complete and resetting PRU1.
  unfoldable pub process_run : (Core → Core) → Core → Core
  process_run run s =
      if s.state_run == 1
      then (let t = run (resume_other_pru s) in
          let u = signal_event pru0_to_arm_b t in
          record u { state_run = 0; control = (u.control % 65536 / 2) * 2 })
      else s

  -- The endless loop of `main`, for its first `n` rounds.
  unfoldable pub main_loop : (Core → Core) → ℕ → Core → Core
  main_loop run zero s = s
  main_loop run (suc n) s = main_loop run n (process_run run (process_command s))

  -- `main` from the start: the magic number is written before the loop.
  unfoldable pub main : (Core → Core) → ℕ → Core → Core
  main run n s = main_loop run n (record s { cxt = record s.cxt { magic = fw_magic } })
