-- ===== src/Pru0/Command.antt =====
-- What PRU0 answers to the driver's commands.
use beagle_logic.Base.{
  ℕ, zero, suc, ◌<◌, ◌≡◌, refl, ap, ◌∙◌, ◌≢◌, ◌⊎◌, inl, inr, Bool, true, false, Bool-cases, some,
  length, get_elem?, get_elem?-set_self, get_elem?-set_ne, length-set, set, arith, ◌==◌,
  if◌then◌else◌, ◌≤◌, ◌+◌,
}
use beagle_logic.Device.{CaptureContext}
use beagle_logic.System.{Platform, System}
use beagle_logic.System.Returns.{Returns, weaken}
use beagle_logic.Capture.{send_cmd, with_cmd}
use beagle_logic.Capture.Session.{send_cmd_lem}
use beagle_logic.Pru0.{
  Core, fw_magic, failed, version, max_buflist_entries, read_reg, wait_other_pru_timeout,
  configure_halted, configure_capture, handle_command, process_command, answered, write_settings,
  resume_other_pru,
}

-- How `configure_capture` ends; `looks n` of the looks of the wait number `n` find PRU1 running.
pub data Configuring (looks : ℕ → ℕ) (s : Core) (r : ℕ) (t : Core) : Type 0 where
  refused :
      (200 < looks s.waits) ⊎ (read_reg s 0 ≢ fw_magic)
      → r ≡ failed
      → t.regs ≡ s.regs
      → t.cxt ≡ s.cxt
      → t.state_run ≡ s.state_run
      → Configuring looks s r t
  handed_over :
      looks s.waits ≤ 200
      → read_reg s 0 ≡ fw_magic
      → ((looks (s.waits + 1) ≤ 200) × (r ≡ 0)) ⊎ ((200 < looks (s.waits + 1)) × (r ≡ failed))
      → get_elem? t.regs 14 ≡ some s.cxt.samplediv
      → get_elem? t.regs 15 ≡ some s.cxt.sampleunit
      → t.cxt ≡ s.cxt
      → t.state_run ≡ s.state_run
      → Configuring looks s r t

-- The wait finds PRU1 halted when at most `timeout` looks find it running.
wait_halted_in : (timeout looks : ℕ) → wait_other_pru_timeout timeout looks ≡ true → looks ≤ timeout
unfolding wait_other_pru_timeout
wait_halted_in timeout zero e = omega arith
wait_halted_in zero (suc looks) e = cc
wait_halted_in (suc timeout) (suc looks) e = omega (arith, wait_halted_in timeout looks e)

wait_running_past :
    (timeout looks : ℕ) → wait_other_pru_timeout timeout looks ≡ false → timeout < looks
unfolding wait_other_pru_timeout
wait_running_past timeout zero e = cc
wait_running_past zero (suc looks) e = omega arith
wait_running_past (suc timeout) (suc looks) e = omega (arith, wait_running_past timeout looks e)

answer_cases :
    (looks : ℕ) (b : Bool)
    → wait_other_pru_timeout 200 looks ≡ b
    → ((looks ≤ 200) × ((if b then 0 else failed) ≡ 0))
      ⊎ ((200 < looks) × ((if b then 0 else failed) ≡ failed))
answer_cases looks true e = inl (wait_halted_in 200 looks e, refl)
answer_cases looks false e = inr (wait_running_past 200 looks e, refl)

module _ (looks : ℕ → ℕ) (s : Core) (wide : 15 < length s.regs) where
  settings_written :
      (get_elem? (write_settings s).regs 14 ≡ some s.cxt.samplediv)
      × (get_elem? (write_settings s).regs 15 ≡ some s.cxt.sampleunit)
  unfolding resume_other_pru
  settings_written = (
    get_elem?-set_ne (set s.regs 14 s.cxt.samplediv) s.cxt.sampleunit (omega arith)
        ∙ get_elem?-set_self s.regs 14 s.cxt.samplediv (omega arith),
    get_elem?-set_self (set s.regs 14 s.cxt.samplediv) 15 s.cxt.sampleunit
        (omega (arith, length-set s.regs 14 s.cxt.samplediv)),
  )

  -- `configure_capture` writes the settings to PRU1's registers if at most 200 looks find PRU1
  -- running, so that it is then halted, and its register 0 holds the magic number. It then answers 0
  -- if PRU1 halts again after at most 200 looks that find it running, else -1. Where PRU1 runs for
  -- longer at first, or the magic number is not there, it answers -1 and leaves PRU1's registers
  -- alone.
  pub configure_capture-Configuring :
      Configuring looks s (configure_capture looks s).0 (configure_capture looks s).1
  unfolding configure_capture configure_halted resume_other_pru
  configure_capture-Configuring = elim (Bool-cases (wait_other_pru_timeout 200 (looks s.waits))) [
    | inr e ↦ rw e (refused (inl (wait_running_past 200 (looks s.waits) e)) refl refl refl refl)
    | inl e ↦ rw e (elim (Bool-cases (read_reg s 0 == fw_magic)) [
      | inr f ↦ rw f (refused (inr (ground (arith, f))) refl refl refl refl)
      | inl f ↦ rw f (
          handed_over (wait_halted_in 200 (looks s.waits) e) (ground arith)
            (answer_cases (looks (s.waits + 1)) _ refl) settings_written.0 settings_written.1 refl
            refl)
    ])
  ]

Configuring-cxt :
    (looks : ℕ → ℕ) (s : Core) (r : ℕ) (t : Core) → Configuring looks s r t → t.cxt ≡ s.cxt
Configuring-cxt looks s r t (refused _ _ _ e _) = e
Configuring-cxt looks s r t (handed_over _ _ _ _ _ e _) = e

-- What PRU0 answers to a command.
pub data Answering (looks : ℕ → ℕ) (cmd : ℕ) (s t : Core) : Type 0 where
  told_version :
      cmd ≡ 1
      → t ≡ record s { cxt = record s.cxt { cmd = 0; resp = version } }
      → Answering looks cmd s t
  told_entries :
      cmd ≡ 2
      → t ≡ record s { cxt = record s.cxt { cmd = 0; resp = max_buflist_entries } }
      → Answering looks cmd s t
  configured :
      cmd ≡ 3
      → (u : Core) → Configuring looks s t.cxt.resp u
      → t ≡ record u { cxt = record s.cxt { cmd = 0; resp = t.cxt.resp } }
      → Answering looks cmd s t
  will_run :
      cmd ≡ 4
      → t ≡ record s { state_run = 1; cxt = record s.cxt { cmd = 0; resp = 0 } }
      → Answering looks cmd s t
  unknown :
      4 < cmd
      → t ≡ record s { cxt = record s.cxt { cmd = 0; resp = failed } }
      → Answering looks cmd s t

module _ (looks : ℕ → ℕ) (s : Core) (wide : 15 < length s.regs) where
  process_eq :
      s.cxt.cmd ≢ 0 → process_command looks s ≡ answered looks (handle_command looks s.cxt.cmd s)
  unfolding process_command
  process_eq ne = ground arith

  handle-Answering :
      (c : ℕ) → 0 < c → Answering looks c s (answered looks (handle_command looks c s))
  unfolding handle_command
  handle-Answering zero positive = absurd (omega arith)
  handle-Answering (suc zero) positive = told_version refl refl
  handle-Answering (suc (suc zero)) positive = told_entries refl refl
  handle-Answering (suc (suc (suc zero))) positive =
      configured refl (configure_capture looks s).1 (configure_capture-Configuring looks s wide) (
        ap
          (λ x. record (configure_capture looks s).1 {
            cxt = record x { cmd = 0; resp = (configure_capture looks s).0 };
          })
          (Configuring-cxt looks _ _ _ (configure_capture-Configuring looks s wide)))
  handle-Answering (suc (suc (suc (suc zero)))) positive = will_run refl refl
  handle-Answering (suc (suc (suc (suc (suc c))))) positive = unknown (omega arith) (ground arith)

  -- Whatever command other than 0 it finds, PRU0 answers it in one round: the command is taken
  -- back, the response is there, and only the command 4 makes it run.
  pub process_command-Answering :
      0 < s.cxt.cmd → Answering looks s.cxt.cmd s (process_command looks s)
  process_command-Answering positive =
      rw (process_eq (omega arith)) (handle-Answering s.cxt.cmd positive)

-- The driver's command reaches PRU0 and its answer the driver: on a platform whose responses are
-- those of PRU0, in time, `send_cmd` returns the response of the round in which PRU0 has answered.
pub send_cmd-Answering :
    (looks : ℕ → ℕ) (core : Core) (k : Platform) (c : ℕ) (s : System)
    → 15 < length core.regs
    → 0 < c
    → ((n : ℕ) (cxt : CaptureContext)
        → k.respond n cxt ≡ (process_command looks (record core { cxt = cxt })).cxt.resp)
    → k.answers_after s.calls < 199
    → Returns
        (λ r t.
          (u : Core) × Answering looks c (record core { cxt = with_cmd c s.dev.cxt_pru }) u
          × (r ≡ u.cxt.resp)
          × (t.dev.cxt_pru.cmd ≡ 0))
        (send_cmd k c s)
send_cmd-Answering looks core k c s wide positive responds in_time =
    weaken ((send_cmd_lem k s c).0 in_time) (λ r t (e, cmd_eq, _). (
      process_command looks (record core { cxt = with_cmd c s.dev.cxt_pru }),
      process_command-Answering looks (record core { cxt = with_cmd c s.dev.cxt_pru }) wide
          positive,
      e ∙ responds s.calls (with_cmd c s.dev.cxt_pru),
      cmd_eq,
    ))
