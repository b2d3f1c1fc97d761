-- ===== src/Pru0/Registers.antt =====
-- The functions of firmware/pru_defs.h that read and write the registers of PRU1, against the plain
-- list of registers that the command handler works on.
use Prim.Native.Nat.{bit_and, bit_or}
use native.Mathlib.Decide.{ℕ_discrete}
use beagle_logic.Base.{
  ℕ, zero, suc, ◌+◌, ◌-◌, ◌*◌, ◌^◌, ◌≤◌, ◌<◌, ◌≡◌, refl, ap, ◌∙◌, inl, inr, Bool, true, false,
  Bool-cases, Option, some, arith, ◌==◌, if◌then◌else◌, length, get_elem?-set_self,
  get_elem?-set_ne, ==_false,
}
use beagle_logic.Pru0.{Core, read_reg, write_reg}
use beagle_logic.Pru0.Access.{
  OtherPru, u16, enable_bit, runstate_bit, clear_enable, set_enable, with_runstate, read_control,
  write_control, wait_halted, pru_other_halt, pru_other_resume, pru_other_read_reg, write_debug,
  pru_other_write_reg, pru_other_and_or_reg, delay_loop,
}

-- Everything in the control register but CONTROL_ENABLE and CONTROL_RUNSTATE.
abbrev pub other_bits : ℕ → ℕ
other_bits c = with_runstate false (clear_enable c)

abbrev Resumes : ℕ → ℕ → Type 0
Resumes c d = (enable_bit d ≡ 1) × (other_bits d ≡ other_bits c)

of_runs :
    (a b : Bool) (c d : ℕ)
    → d ≡ clear_enable (with_runstate a c)
    → Resumes c (set_enable (with_runstate b d))
of_runs true true c d e = (omega arith, omega arith)
of_runs true false c d e = (omega arith, omega arith)
of_runs false true c d e = (omega arith, omega arith)
of_runs false false c d e = (omega arith, omega arith)

module _ (running : ℕ → Bool) where
  -- The loop ends after fewer than `fuel` looks.
  abbrev pub StopsWithin : ℕ → OtherPru → Type 0
  StopsWithin fuel s = (n : ℕ) × (n < fuel) × (running (s.looks + n) ≡ false)

  not_running :
      (s : OtherPru) → running s.looks ≡ false → (runstate_bit (read_control running s) == 0) ≡ true
  not_running s e = rw e (ground arith)

  wait_halted-some :
      (fuel : ℕ) (s : OtherPru)
      → StopsWithin fuel s
      → (t : OtherPru) × (wait_halted running fuel s ≡ some t)
        × (t.control ≡ s.control)
        × (t.debug ≡ s.debug)
  unfolding wait_halted
  wait_halted-some zero s (n, lt, e) = elim lt [ ]
  wait_halted-some (suc fuel) s (n, lt, e) =
      elim (Bool-cases (runstate_bit (read_control running s) == 0)) [
        | inl h ↦ rw (wait_halted, h) (record s { looks = s.looks + 1 }, refl, refl, refl)
        | inr h ↦
            rw (wait_halted, h)
              (wait_halted-some fuel (record s { looks = s.looks + 1 }) (later n lt e h))
      ]
    where
      later :
          (n : ℕ)
          → n < suc fuel
          → running (s.looks + n) ≡ false
          → (runstate_bit (read_control running s) == 0) ≡ false
          → StopsWithin fuel (record s { looks = s.looks + 1 })
      later zero lt e h = ground (arith, not_running s)
      later (suc n) lt e h = (
        n,
        omega arith,
        ap running (let q : s.looks + 1 + n ≡ s.looks + suc n = omega arith in q) ∙ e,
      )

  -- PRU1 is enabled again, and no other bit of its control register has changed.
  abbrev pub Enabled : OtherPru → OtherPru → Type 0
  Enabled s t = (enable_bit t.control ≡ 1) × (other_bits t.control ≡ other_bits s.control)

  other_bits_resume :
      (s t : OtherPru)
      → t.control ≡ clear_enable (read_control running s)
      → Enabled s (pru_other_resume running t)
  unfolding pru_other_resume
  other_bits_resume s t e = of_runs (running s.looks) (running t.looks) s.control t.control e

  module _ (core : Core) (small : length core.regs ≤ 2 ^ 14) (fuel : ℕ) (s : OtherPru) where
    -- The debug interface shows the registers of `core`.
    abbrev pub Shows : Core → OtherPru → Type 0
    Shows c t = (r : ℕ) → r < length core.regs → t.debug (r * 4) ≡ read_reg c r

    -- A call that returns a state with PRU1 enabled again and the registers of `c`.
    abbrev pub Leaves : Core → Option OtherPru → Type 0
    Leaves c o = (t : OtherPru) × (o ≡ some t) × Shows c t × Enabled s t

    written-Shows :
        (reg v : ℕ) (t : OtherPru)
        → reg < length core.regs
        → Shows core t
        → Shows (write_reg reg v core) (write_debug running reg v t)
    written-Shows reg v t lt shows r less = elim (ℕ_discrete reg r) [
      | yes e ↦ ground (arith, e, get_elem?-set_self core.regs r v less)
      | no ne ↦ ground (arith, shows r less, get_elem?-set_ne core.regs v ne)
    ]

    halted-some :
        StopsWithin fuel (record s { looks = s.looks + 1 })
        → Shows core s
        → (t : OtherPru) × (pru_other_halt running fuel s ≡ some t)
          × (t.control ≡ clear_enable (read_control running s))
          × Shows core t
    unfolding pru_other_halt
    halted-some stops shows =
        let (t, e, c, d) =
          wait_halted-some fuel (write_control running (clear_enable (read_control running s)) s)
            stops in
        (t, e, c, λ r less. ap (λ f. f (r * 4)) d ∙ shows r less)

    -- The offset in bytes does not wrap.
    no_wrap : (reg : ℕ) → reg < length core.regs → u16 (reg * 4) ≡ reg * 4
    no_wrap reg lt = omega (arith, small)

    -- For at most 2 ^ 14 registers, a register among them, and PRU1 stopping while the loop looks:
    -- the functions read the register, replace it, and combine it with the two masks, as the list
    -- of registers has it. No other register changes. PRU1 is enabled again afterwards, and the
    -- other bits of its control register are as before.
    pub registers-Leaves :
        (reg v andmsk ormsk : ℕ)
        → reg < length core.regs
        → StopsWithin fuel (record s { looks = s.looks + 1 })
        → Shows core s
        → ((t : OtherPru) × (pru_other_read_reg running fuel reg s ≡ some (read_reg core reg, t))
            × Shows core t
            × Enabled s t)
          × Leaves (write_reg reg v core) (pru_other_write_reg running fuel reg v s)
          × Leaves
              (write_reg reg (bit_or (bit_and (read_reg core reg) andmsk) ormsk) core)
              (pru_other_and_or_reg running fuel reg andmsk ormsk s)
    unfolding pru_other_read_reg pru_other_write_reg pru_other_and_or_reg pru_other_resume
    registers-Leaves reg v andmsk ormsk lt stops shows =
        let (t, e, c, there) = halted-some stops shows in
        let new : ℕ = bit_or (bit_and (read_reg core reg) andmsk) ormsk in
        let here : t.debug (u16 (reg * 4)) ≡ read_reg core reg =
          ap t.debug (no_wrap reg lt) ∙ there reg lt in
        (
          rw e (
            pru_other_resume running t,
            ap (λ x. some (x, pru_other_resume running t)) here,
            there,
            other_bits_resume s t c,
          ),
          rw e (
            pru_other_resume running (write_debug running reg v t),
            refl,
            written-Shows reg v t lt there,
            other_bits_resume s (write_debug running reg v t) c,
          ),
          rw e (
            pru_other_resume running (write_debug running reg new t),
            ap
                (λ x. some (
                  pru_other_resume running
                    (write_debug running reg (bit_or (bit_and x andmsk) ormsk) t)))
                here,
            written-Shows reg new t lt there,
            other_bits_resume s (write_debug running reg new t) c,
          ),
        )

delay_loop-some : (fuel t : ℕ) → 0 < t → t < 2 ^ 32 → t ≤ fuel → delay_loop fuel t ≡ some t
unfolding delay_loop
delay_loop-some zero t positive lt enough = absurd (omega arith)
delay_loop-some (suc fuel) zero positive lt enough = elim positive [ ]
delay_loop-some (suc fuel) (suc zero) positive lt enough = ground arith
delay_loop-some (suc fuel) (suc (suc t)) positive lt enough =
    ground (arith, delay_loop-some fuel (suc t) (omega arith) (omega arith) (omega arith))

-- `DELAY_CYCLES` with a count `t` from 1 on makes `t` rounds. With 0, the half of 0 and of 1, it
-- makes 2 ^ 32, since `t` is decremented before it is tested.
pub delay_loop_lem :
    (fuel t : ℕ)
    → t < 2 ^ 32
    → 2 ^ 32 < fuel
    → delay_loop fuel t ≡ some (if t == 0 then 2 ^ 32 else t)
unfolding delay_loop
delay_loop_lem fuel (suc t) lt enough =
    rw (==_false (suc t) 0 (omega arith))
      (delay_loop-some fuel (suc t) (omega arith) lt (omega arith))
delay_loop_lem (suc fuel) zero lt enough =
    ground (arith, delay_loop-some fuel (2 ^ 32 - 1) (omega arith) (omega arith) (omega arith))
delay_loop_lem zero zero lt enough = absurd (omega arith)
