-- ===== src/Pru0/Sampling.antt =====
-- The sampling program of PRU0, firmware/beaglelogic-pru0-core.asm: one function for each label,
-- which runs up to the jump that leaves it. `&cxt`, its first argument, is 0, so that the list
-- begins at address 24.
pub mod Fill
pub mod Capture
pub mod Outcome
pub mod Sessions
pub mod Runs
pub mod Table
use beagle_logic.Base.{
  ℕ, zero, suc, ◌+◌, ◌-◌, ◌*◌, ◌/◌, ◌%◌, Bool, true, false, Option, none, some, List, [], ◌∷◌, ◌++◌,
  ◌==◌, ltb, if◌then◌else◌, get_elem?, u32, ◌≡◌, refl,
}
use beagle_logic.Device.{BufList}
use beagle_logic.Pru0.{max_buflist_entries}
use beagle_logic.Pru0.Routing.{pru0_to_arm_a}

-- What PRU1 hands over at a time, as `XIN` reads it: the 32 bytes of R21 to R28, and R29.
pub record Bank : Type 0 where
  pub samples : List ℕ
  pub overflow : ℕ

-- What the program does to the rest of the system: it writes bytes at an address of the main
-- memory, or raises an event for the driver.
pub data Action : Type 0 where
  write : ℕ → List ℕ → Action
  event : ℕ → Action

-- The registers that the program uses, and R29; the list in the memory of PRU0; what PRU1 will hand
-- over, in order; what has been done, in order; and how often the stop signal has been looked at.
pub record Sampler : Type 0 where
  pub r14 : ℕ
  pub r15 : ℕ
  pub r16 : ℕ
  pub r17 : ℕ
  pub r18 : ℕ
  pub r19 : ℕ
  pub r29 : ℕ
  pub list : List BufList
  pub banks : List Bank
  pub actions : List Action
  pub looks : ℕ

pub data Label : Type 0 where
  run_0 run_1 run_2 canexit : Label

-- Where the program is: at a label, waiting for PRU1 for ever, or back in `main`.
pub data At : Type 0 where
  label : Label → Sampler → At
  waits : Sampler → At
  returns : Sampler → At

-- `LBBO &R18, R16, 0, 8`. What stands past the list is not known here.
abbrev pub entry_at : (ℕ → BufList) → Sampler → BufList
entry_at beyond s = elim (get_elem? s.list ((s.r16 - 24) / 8)) [ none ↦ beyond s.r16 | some e ↦ e ]

abbrev pub with_entry : BufList → Sampler → Sampler
with_entry e s = record s { r18 = e.dma_start_addr; r19 = e.dma_end_addr }

-- `SBBO &R21, R18, 0, 32` and the move to the next address.
abbrev pub write_bank : Bank → List Bank → Sampler → Sampler
write_bank b bs s = record s {
  banks = bs;
  r29 = b.overflow;
  actions = s.actions ++ (write s.r18 b.samples ∷ []);
  r18 = u32 (s.r18 + 32);
}

-- `$run$1` on: the next entry of the list, whose start address is 0 at the end mark.
unfoldable pub load_entry : BufList → Sampler → At
load_entry e s =
    if e.dma_start_addr == 0 then label canexit (with_entry e s) else label run_2 (with_entry e s)

-- `Move to next buffer`
abbrev pub next_entry : Sampler → At
next_entry s =
    if ltb (u32 (s.r16 + 8)) s.r17
    then label run_1 (record s { r16 = u32 (s.r16 + 8) })
    else returns (record s { r16 = u32 (s.r16 + 8); r14 = 0 })

-- `Signal ARM that one buffer is now ready` and the look at the stop signal, bit 31 of R31.
unfoldable pub buffer_done : Bool → Sampler → At
buffer_done stop s =
    let t = record s { actions = s.actions ++ (event pru0_to_arm_a ∷ []); looks = s.looks + 1 } in
    if stop then returns t else next_entry t

-- `run` is entered.
abbrev pub enter : Sampler → At
enter s = label run_0 (record s { r17 = max_buflist_entries * 8 })

-- `stop n` says whether the stop signal is seen at the look number `n`.
module _ (beyond : ℕ → BufList) (stop : ℕ → Bool) where
  -- The wait for PRU1's signal, and what it hands over then.
  unfoldable pub take_bank : List Bank → Sampler → At
  take_bank [] s = waits s
  take_bank (b ∷ bs) s =
      let t = write_bank b bs s in
      if ltb t.r18 s.r19 then label run_2 t else buffer_done (stop s.looks) t

  unfoldable pub step : Label → Sampler → At
  step run_0 s = label run_1 (record s { r16 = u32 (s.r14 + 24) })
  step run_1 s = load_entry (entry_at beyond s) s
  step run_2 s = take_bank s.banks s
  step canexit s = if s.r15 % 2 == 1 then label run_0 s else returns (record s { r14 = s.r29 })

  unfoldable pub execute : ℕ → At → At
  execute zero a = a
  execute (suc fuel) (label l s) = execute fuel (step l s)
  execute (suc fuel) (waits s) = waits s
  execute (suc fuel) (returns s) = returns s

  -- From there the program comes back to `main`, in a state that satisfies `P`.
  pub data Finishes (P : Sampler → Type 0) : At → Type 0 where
    back : {t : Sampler} → P t → Finishes P (returns t)
    onward : {l : Label} {s : Sampler} → Finishes P (step l s) → Finishes P (label l s)

  -- So it does in a number of steps.
  pub Finishes-execute :
      (P : Sampler → Type 0) {a : At}
      → Finishes P a
      → (fuel : ℕ) × (t : Sampler) × (execute fuel a ≡ returns t) × P t
  unfolding execute
  Finishes-execute P (back {t} p) = (0, t, refl, p)
  Finishes-execute P (onward h) = let (fuel, t, e, p) = Finishes-execute P h in (suc fuel, t, e, p)
