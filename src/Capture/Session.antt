-- ===== src/Capture/Session.antt =====
-- A capture from `beaglelogic_start` to `beaglelogic_stop`.
use beagle_logic.Base.{
  ℕ, zero, suc, ◌-◌, ◌/◌, ◌≤◌, ◌<◌, ◌≡◌, refl, ◌≢◌, inl, inr, true, false, Bool-cases, ◌==◌,
  ==_true, ==_false, arith,
}
use beagle_logic.Device.{BeagleLogicDev, CaptureContext, Ret, ret, running}
use beagle_logic.System.{Platform, System, sleeps, element, ignoring}
use beagle_logic.System.Mutex.{locked, lock_free, lock_taken}
use beagle_logic.System.Returns.{Returns, returns, bind}
use beagle_logic.Capture.{
  poll_loop, timeout, send_cmd, write_configuration, start, with_cmd, minus_one_word,
  cmd_set_config, cmd_start,
}

-- The loop leaves what is left of the timeout after the looks that found `cmd` still set.
pub poll_loop_lem : (t polls : ℕ) → poll_loop (suc t) polls ≡ t - polls
unfolding poll_loop
poll_loop_lem zero polls = omega arith
poll_loop_lem (suc t) zero = omega arith
poll_loop_lem (suc t) (suc polls) = omega (arith, poll_loop_lem t polls)

-- What the PRU is told by `write_configuration`.
pub record Configured (d : BeagleLogicDev) (cxt : CaptureContext) : Type 0 where
  pub samplediv_eq : cxt.samplediv ≡ d.coreclockfreq / 2 / d.samplerate
  pub sampleunit_eq : cxt.sampleunit ≡ d.sampleunit
  pub triggerflags_eq : cxt.triggerflags ≡ d.triggerflags

-- What `start` leaves.
pub record Started (s : System) (r : Ret) (t : System) : Type 0 where
  pub result : r ≡ ret 0
  pub frame : t ≡ record s {
    calls = t.calls;
    dev = record s.dev {
      mutex = true;
      bufbeingread = element s.dev 0;
      state = running;
      lasterror = 0;
      cxt_pru = t.dev.cxt_pru;
    };
  }
  pub configured : Configured s.dev t.dev.cxt_pru

module _ (k : Platform) (s : System) where
  -- The configuration and the rest of the state after a command.
  record Sent (u t : System) : Type 0 where
    frame : t ≡ record u { calls = t.calls; dev = record u.dev { cxt_pru = t.dev.cxt_pru } }
    div_same : t.dev.cxt_pru.samplediv ≡ u.dev.cxt_pru.samplediv
    unit_same : t.dev.cxt_pru.sampleunit ≡ u.dev.cxt_pru.sampleunit
    flags_same : t.dev.cxt_pru.triggerflags ≡ u.dev.cxt_pru.triggerflags

  send_cmd-Sent : (c : ℕ) (u : System) → Returns (λ _ t. Sent u t) (send_cmd k c u)
  unfolding send_cmd
  send_cmd-Sent c u = elim (Bool-cases (poll_loop timeout (k.answers_after u.calls) == 0)) [
    | inl e ↦ rw e (returns (ground arith))
    | inr e ↦ rw e (returns (ground arith))
  ]

  sent : (c : ℕ) (u : System) → Returns (λ _ t. Sent u t) (ignoring (send_cmd k c) u)
  sent c u = bind (send_cmd-Sent c u) (λ _ _ p. returns p)

  -- What `write_configuration` leaves of `u`.
  record Written (u : System) (r : Ret) (t : System) : Type 0 where
    result : r ≡ ret 0
    frame : t ≡ record u { calls = t.calls; dev = record u.dev { cxt_pru = t.dev.cxt_pru } }
    configured : Configured u.dev t.dev.cxt_pru

  write_configuration-Written :
      (u : System) → u.dev.samplerate ≢ 0 → Returns (Written u) (write_configuration k u)
  unfolding write_configuration
  write_configuration-Written u ne = rw (==_false u.dev.samplerate 0 ne) (
      bind (sent cmd_set_config _) (λ _ t p. returns (record {
        result = refl;
        frame = ground (arith, p.frame);
        configured = record {
          samplediv_eq = p.div_same;
          sampleunit_eq = p.unit_same;
          triggerflags_eq = p.flags_same;
        };
      })))

  -- With the mutex free and a sample rate that is not 0, `start` returns 0 with the device running,
  -- the mutex taken, the first buffer in work and the settings handed over. This holds whatever the
  -- firmware answers, also if it does not answer.
  pub start-Started : s.dev.mutex ≡ false → s.dev.samplerate ≢ 0 → Returns (Started s) (start k s)
  unfolding start
  start-Started free ne = rw (lock_free s free) (
      bind (write_configuration-Written (locked s) ne) (λ r u w. rw w.result (
        bind (sent cmd_start _) (λ _ t p. returns (record {
          result = refl;
          frame = ground (arith, w.frame, p.frame);
          configured =
              ground (arith, w.frame, p.frame, w.configured, p.div_same, p.unit_same, p.flags_same);
        })))))

  -- `send_cmd` returns the response of the firmware, with the command taken back, exactly when the
  -- firmware has answered within 198 looks after the first one; else it returns -1, and the command
  -- stays in place.
  pub send_cmd_lem :
      (c : ℕ)
      → (k.answers_after s.calls < 199
          → Returns
              (λ r t.
                (r ≡ k.respond s.calls (with_cmd c s.dev.cxt_pru))
                × (t.dev.cxt_pru.cmd ≡ 0)
                × (t.dev.cxt_pru.resp ≡ r))
              (send_cmd k c s))
        × (199 ≤ k.answers_after s.calls
            → Returns (λ r t. (r ≡ minus_one_word) × (t.dev.cxt_pru.cmd ≡ c)) (send_cmd k c s))
  unfolding send_cmd
  send_cmd_lem c = (
    λ h.
        rw
          (==_false (poll_loop timeout (k.answers_after s.calls)) 0
            (omega (arith, poll_loop_lem 199 (k.answers_after s.calls))))
          (returns (refl, refl, refl)),
    λ h.
        rw
          (==_true (poll_loop timeout (k.answers_after s.calls)) 0
            (omega (arith, poll_loop_lem 199 (k.answers_after s.calls))))
          (returns (refl, refl)),
  )

  -- A capture that is under way keeps a second `start` asleep.
  pub start_sleeps : s.dev.mutex ≡ true → start k s ≡ sleeps s
  unfolding start
  start_sleeps e = rw (lock_taken s e)
