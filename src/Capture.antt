-- ===== src/Capture.antt =====
-- Commands to the PRU, and the start and stop of a capture, of kernel/beaglelogic.c.
pub mod Session
pub mod Stop
pub mod Freed
use beagle_logic.Base.{ℕ, zero, suc, ◌+◌, ◌/◌, Bool, true, false, ◌==◌, if◌then◌else◌, none}
use beagle_logic.Device.{
  BeagleLogicDev, CaptureContext, Ret, ret, err, is_failure, is_running, is_initialized, minus_one,
  running, request_stop,
}
use beagle_logic.System.{
  Platform, M, pure, ◌>>=◌, ◌>>◌, ignoring, read_dev, update_dev, undefined, element, done,
  mutex_lock, mutex_unlock,
}
use beagle_logic.Irq.{wait_event_interruptible}

abbrev pub cmd_get_version : ℕ
cmd_get_version = 1

abbrev pub cmd_get_max_sg : ℕ
cmd_get_max_sg = 2

abbrev pub cmd_set_config : ℕ
cmd_set_config = 3

abbrev pub cmd_start : ℕ
cmd_start = 4

-- `-1` as the bit pattern of an `int`.
abbrev pub minus_one_word : ℕ
minus_one_word = 0xFFFFFFFF

-- `while (--timeout && cmd != 0)`: what is left of `timeout` if `cmd` reads as 0 after `polls`
-- looks at it. The loop is never entered with a `timeout` of 0.
unfoldable pub poll_loop : ℕ → ℕ → ℕ
poll_loop zero polls = 0
poll_loop (suc zero) polls = 0
poll_loop (suc (suc t)) zero = suc t
poll_loop (suc (suc t)) (suc polls) = poll_loop (suc t) polls

abbrev pub timeout : ℕ
timeout = 200

abbrev pub with_cmd : ℕ → CaptureContext → CaptureContext
with_cmd c cxt = record cxt { cmd = c }

module _ (k : Platform) where
  -- The `int` that is returned is given as its bit pattern. An answer that comes after the timeout
  -- is not seen by this call.
  unfoldable pub send_cmd : ℕ → M ℕ
  send_cmd c s =
      let cxt = with_cmd c s.dev.cxt_pru in
      let answer = k.respond s.calls cxt in
      if poll_loop timeout (k.answers_after s.calls) == 0
      then done minus_one_word
          (record s { calls = s.calls + 1; dev = record s.dev { cxt_pru = cxt } })
      else done answer (record s {
        calls = s.calls + 1;
        dev = record s.dev { cxt_pru = record cxt { cmd = 0; resp = answer } };
      })

  -- The divisor is computed by a division by the sample rate.
  unfoldable pub write_configuration : M Ret
  write_configuration = do
    d ← read_dev
    if d.samplerate == 0 then undefined else do
      update_dev (λ e. record e {
        cxt_pru = record e.cxt_pru {
          samplediv = e.coreclockfreq / 2 / e.samplerate;
          sampleunit = e.sampleunit;
          triggerflags = e.triggerflags;
        };
      })
      ignoring (send_cmd cmd_set_config)
      pure (ret 0)

  unfoldable pub start : M Ret
  start = do
    mutex_lock
    rc ← write_configuration
    if is_failure rc then mutex_unlock >> pure (err minus_one) else do
      update_dev (λ d. record d { bufbeingread = element d 0 })
      ignoring (send_cmd cmd_start)
      update_dev (λ d. record d { state = running; lasterror = 0 })
      pure (ret 0)

  -- `beaglelogic_request_stop` raises an interrupt of the PRU and changes nothing here.
  unfoldable pub stop_running : M (Unit {0})
  stop_running = do
    update_dev (λ d. record d { state = request_stop })
    ignoring (wait_event_interruptible k (read_dev >>= λ d. pure (is_initialized d.state)))

  unfoldable pub stop : M (Unit {0})
  stop = do
    d ← read_dev
    if d.mutex
        then (do if is_running d.state then stop_running else pure tt; mutex_unlock)
        else pure tt
