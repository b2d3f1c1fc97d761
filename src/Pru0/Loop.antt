-- ===== src/Pru0/Loop.antt =====
-- The main loop of PRU0.
use beagle_logic.Base.{ℕ, zero, suc, ◌*◌, ◌/◌, ◌%◌, ◌≡◌, refl, ◌∙◌, ap, arith, ◌++◌, ◌∷◌, []}
use beagle_logic.Pru0.{
  Core, resume_other_pru, handle_command, process_command, process_run, main_loop,
}

-- PRU0 with a start command taken: the state in which the sampling program is called.
abbrev pub triggered : Core → Core
triggered s =
    resume_other_pru (record s { state_run = 1; cxt = record s.cxt { resp = 0; cmd = 0 } })

-- After the sampling program: PRU1 is reset, no start is pending, and the event 24 has been raised.
abbrev pub finished : Core → Core
finished t = record t {
  state_run = 0;
  control = (t.control % 65536 / 2) * 2;
  signals = t.signals ++ (40 ∷ []);
}

module _ (looks : ℕ → ℕ) (run : Core → Core) where
  idle_round :
      (s : Core)
      → s.cxt.cmd ≡ 0
      → s.state_run ≡ 0
      → process_run looks run (process_command looks s) ≡ s
  unfolding process_run process_command
  idle_round s no_cmd stopped = ground (arith, no_cmd, stopped)

  idle_rounds : (n : ℕ) (s : Core) → s.cxt.cmd ≡ 0 → s.state_run ≡ 0 → main_loop looks run n s ≡ s
  unfolding main_loop
  idle_rounds zero s no_cmd stopped = refl
  idle_rounds (suc n) s no_cmd stopped =
      ap (main_loop looks run n) (idle_round s no_cmd stopped) ∙ idle_rounds n s no_cmd stopped

  start_round :
      (s : Core)
      → s.cxt.cmd ≡ 4
      → process_run looks run (process_command looks s) ≡ finished (run (triggered s))
  unfolding process_run process_command handle_command
  start_round s cmd = ground (arith, cmd)

  -- A start command makes PRU0 run the sampling program once, on the state in which the command has
  -- been answered and PRU1 resumed, raise the event for the end of a capture, and then wait: so it is after each number of rounds from the
  -- first on, if the sampling program writes no command.
  pub main_loop-start :
      (s : Core)
      → s.cxt.cmd ≡ 4
      → (run (triggered s)).cxt.cmd ≡ 0
      → (n : ℕ) → main_loop looks run (suc n) s ≡ finished (run (triggered s))
  unfolding main_loop
  main_loop-start s cmd quiet n =
      ap (main_loop looks run n) (start_round s cmd) ∙ idle_rounds n _ quiet refl
