-- ===== src/Pru0/Access.antt =====
-- The access of PRU0 to the registers of PRU1, firmware/pru_defs.h, as the debug interface of PRU1
-- gives it: the registers can be read and written only while PRU1 is stopped.
use Prim.Native.Nat.{ℕ, zero, suc, ◌+◌, ◌-◌, ◌*◌, ◌/◌, ◌%◌, ◌^◌, bit_and, bit_or}
use mathlib.Core.Option
use beagle_logic.Base.{Bool, true, false, Option, none, some, ◌==◌, if◌then◌else◌, u32}

-- `PCTRL_OTHER(0)`, the words at `PDBG_OTHER`, by their offset in bytes, and how often the control
-- register has been read. Bit 1 is CONTROL_ENABLE, bit 15 is CONTROL_RUNSTATE.
pub record OtherPru : Type 0 where
  pub control : ℕ
  pub debug : ℕ → ℕ
  pub looks : ℕ

abbrev pub enable_bit : ℕ → ℕ
enable_bit c = c / 2 % 2

abbrev pub runstate_bit : ℕ → ℕ
runstate_bit c = c / 32768 % 2

-- `c & ~CONTROL_ENABLE` and `c | CONTROL_ENABLE`
abbrev pub clear_enable : ℕ → ℕ
clear_enable c = c - 2 * enable_bit c

abbrev pub set_enable : ℕ → ℕ
set_enable c = clear_enable c + 2

abbrev pub u16 : ℕ → ℕ
u16 n = n % 2 ^ 16

abbrev pub set_debug : ℕ → ℕ → (ℕ → ℕ) → ℕ → ℕ
set_debug offset v debug o = if o == offset then v else debug o

-- CONTROL_RUNSTATE is read only: it shows whether PRU1 runs, whatever was written.
abbrev pub with_runstate : Bool → ℕ → ℕ
with_runstate true c = c - 32768 * runstate_bit c + 32768
with_runstate false c = c - 32768 * runstate_bit c

-- The hardware: whether PRU1 is found running when its control register is read for the `n`th time.
module _ (running : ℕ → Bool) where
  abbrev pub read_control : OtherPru → ℕ
  read_control s = with_runstate (running s.looks) s.control

  abbrev pub write_control : ℕ → OtherPru → OtherPru
  write_control c s = record s { control = c; looks = s.looks + 1 }

  -- The loop of `pru_other_halt`, which has no bound: `none` where it goes on after `fuel` looks.
  unfoldable pub wait_halted : ℕ → OtherPru → Option OtherPru
  wait_halted zero s = none
  wait_halted (suc fuel) s = elim (runstate_bit (read_control s) == 0) [
    | true ↦ some (record s { looks = s.looks + 1 })
    | false ↦ wait_halted fuel (record s { looks = s.looks + 1 })
  ]

  unfoldable pub pru_other_halt : ℕ → OtherPru → Option OtherPru
  pru_other_halt fuel s = wait_halted fuel (write_control (clear_enable (read_control s)) s)

  unfoldable pub pru_other_resume : OtherPru → OtherPru
  pru_other_resume s = write_control (set_enable (read_control s)) s

  unfoldable pub pru_other_read_reg : ℕ → ℕ → OtherPru → Option (ℕ × OtherPru)
  pru_other_read_reg fuel reg s =
      Option.map (λ t. (t.debug (u16 (reg * 4)), pru_other_resume t)) (pru_other_halt fuel s)

  -- What stands between the halt and the resumption in the two functions that write.
  abbrev pub write_debug : ℕ → ℕ → OtherPru → OtherPru
  write_debug reg v t = record t { debug = set_debug (u16 (reg * 4)) v t.debug }

  abbrev pub and_or_debug : ℕ → ℕ → ℕ → OtherPru → OtherPru
  and_or_debug reg andmsk ormsk t =
      write_debug reg (bit_or (bit_and (t.debug (u16 (reg * 4))) andmsk) ormsk) t

  unfoldable pub pru_other_write_reg : ℕ → ℕ → ℕ → OtherPru → Option OtherPru
  pru_other_write_reg fuel reg v s =
      Option.map (λ t. pru_other_resume (write_debug reg v t)) (pru_other_halt fuel s)

  unfoldable pub pru_other_and_or_reg : ℕ → ℕ → ℕ → ℕ → OtherPru → Option OtherPru
  pru_other_and_or_reg fuel reg andmsk ormsk s =
      Option.map (λ t. pru_other_resume (and_or_debug reg andmsk ormsk t)) (pru_other_halt fuel s)

-- The loop of DELAY_CYCLES, `do { } while (--t)`: how many rounds it makes, `none` where it goes
-- on.
unfoldable pub delay_loop : ℕ → ℕ → Option ℕ
delay_loop zero t = none
delay_loop (suc fuel) t = elim (u32 (t + 2 ^ 32 - 1) == 0) [
  | true ↦ some 1
  | false ↦ Option.map suc (delay_loop fuel (u32 (t + 2 ^ 32 - 1)))
]

abbrev pub delay_cycles : ℕ → ℕ → Option ℕ
delay_cycles fuel x = delay_loop fuel (x / 2)
