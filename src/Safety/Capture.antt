-- ===== src/Safety/Capture.antt =====
-- Commands to the PRU, and the start and stop of a capture.
use beagle_logic.Base.{ℕ, refl, inl, inr, Bool, true, false, Bool-cases, ◌==◌, if◌then◌else◌, arith}
use beagle_logic.Device.{
  BeagleLogicDev, DeviceState, CaptureContext, ret, err, minus_one, is_failure, is_running,
  is_initialized, running, request_stop, Ret,
}
use beagle_logic.System.{
  Platform, System, M, pure, ◌>>◌, update_dev, ignoring, element, mutex_unlock,
}
use beagle_logic.System.Keeps.{
  After, Keeps, After-bind_weaken, Keeps-bind, Keeps-pure, Keeps-if, Keeps-read_dev,
  Keeps-undefined, Keeps-ignoring,
}
use beagle_logic.Capture.{
  poll_loop, timeout, send_cmd, write_configuration, start, stop_running, stop, cmd_set_config,
  cmd_start,
}
use beagle_logic.Safety.{Sound, SoundIn, Anything, NotRunning, Sound-rest, Critical}
use beagle_logic.Safety.Frame.{Sound-dev, Keeps-fields}
use beagle_logic.Safety.Locks.{Keeps-critical, unlock-Sound, then_after}
use beagle_logic.Safety.Irq.{after_stop_irq-running, Keeps-wait_event}

Sound-cxt :
    (n : ℕ) (cxt : CaptureContext) (s : System)
    → Sound s
    → Sound (record s { calls = n; dev = record s.dev { cxt_pru = cxt } })
Sound-cxt n cxt s h = Sound-rest s.reader n s.events _ (
    Sound-dev s.dev.mutex s.dev.lastbufready s.dev.bufbeingread cxt s.dev.maxbufcount
      s.dev.bufunitsize s.dev.lasterror s.dev.state s h.running_locked h)

module _ (R : Bool → DeviceState → Type 0) (k : Platform) where
  pub Keeps-send_cmd : (c : ℕ) → Keeps (SoundIn R) (send_cmd k c)
  unfolding send_cmd
  Keeps-send_cmd c = record {
    at = λ s (h, q). elim (Bool-cases (poll_loop timeout (k.answers_after s.calls) == 0)) [
      | inl e ↦ rw (e, After) (Sound-cxt _ _ s h, q)
      | inr e ↦ rw (e, After) (Sound-cxt _ _ s h, q)
    ];
  }

  Keeps-write_configuration : Keeps (SoundIn R) (write_configuration k)
  unfolding write_configuration
  Keeps-write_configuration = Keeps-bind _ _ Keeps-read_dev (λ d.
      Keeps-if (d.samplerate == 0) _ _ Keeps-undefined (
        Keeps-bind _ _ (Keeps-fields R _ (λ e. refl)) (λ _.
          Keeps-bind _ _ (Keeps-ignoring _ (Keeps-send_cmd cmd_set_config))
            (λ _. Keeps-pure (ret 0)))))

abbrev run_state : BeagleLogicDev → BeagleLogicDev
run_state d = record d { state = running; lasterror = 0 }

-- The last assignments of `start`: the mutex is held.
Keeps-run_state :
    (s : System)
    → SoundIn Critical s
    → After (SoundIn Anything) (SoundIn Anything) (update_dev run_state s)
Keeps-run_state s (h, (m, _)) = (
  Sound-dev s.dev.mutex s.dev.lastbufready s.dev.bufbeingread s.dev.cxt_pru s.dev.maxbufcount
      s.dev.bufunitsize 0 running s (λ _. m) h,
  tt,
)

unlocked_with :
    {A : Type 0} (a : A) (s : System)
    → SoundIn NotRunning s
    → After (SoundIn Anything) (SoundIn Anything) ((mutex_unlock >> pure a) s)
unlocked_with a s h =
    After-bind_weaken (SoundIn Anything) (SoundIn Anything) (SoundIn Anything) (SoundIn Anything)
      (mutex_unlock s) _ (unlock-Sound s h) (λ _ g. g) (λ _ _ g. g)

abbrev from_first : BeagleLogicDev → BeagleLogicDev
from_first d = record d { bufbeingread = element d 0 }

module _ (k : Platform) where
  abbrev commanded : M Ret
  commanded = ignoring (send_cmd k cmd_start) >> (update_dev run_state >> pure (ret 0))

  -- What `start` does once the configuration is written.
  Keeps-launch :
      (s : System)
      → SoundIn Critical s
      → After (SoundIn Anything) (SoundIn Anything) (
          (update_dev from_first
              >> (ignoring (send_cmd k cmd_start) >> (update_dev run_state >> pure (ret 0))))
            s)
  Keeps-launch s h =
      then_after Critical (update_dev from_first) (λ _. commanded) s
        (Keeps-fields Critical from_first (λ d. refl)) h
        (λ _ t g.
          then_after Critical (ignoring (send_cmd k cmd_start))
            (λ _. update_dev run_state >> pure (ret 0)) t
            (Keeps-ignoring _ (Keeps-send_cmd Critical k cmd_start)) g
            (λ _ u c. Keeps-run_state u c))

  pub Keeps-start : Keeps (SoundIn Anything) (start k)
  unfolding start
  Keeps-start = Keeps-critical _ (λ s h.
      then_after Critical (write_configuration k) _ s (Keeps-write_configuration Critical k) h
        (λ rc t g. elim (Bool-cases (is_failure rc)) [
          | inl e ↦ rw e (unlocked_with (err minus_one) t (g.0, g.1.1))
          | inr e ↦ rw e (Keeps-launch t g)
        ]))

  stopping :
      (s : System)
      → SoundIn Anything s
      → After (SoundIn NotRunning) (SoundIn NotRunning) (stop_running k s)
  unfolding stop_running
  stopping s (h, _) =
      (Keeps-ignoring _ (
          Keeps-wait_event NotRunning k (λ _ st _. after_stop_irq-running st) _
            (Keeps-bind _ _ Keeps-read_dev (λ d. Keeps-pure (is_initialized d.state))))).at
        _
        (
          Sound-dev s.dev.mutex s.dev.lastbufready s.dev.bufbeingread s.dev.cxt_pru
              s.dev.maxbufcount s.dev.bufunitsize s.dev.lasterror request_stop s
              (λ r. absurd (ground (arith, r))) h,
          refl,
        )

  stop_locked :
      (held : Bool) (s : System)
      → SoundIn Anything s
      → After (SoundIn Anything) (SoundIn Anything) (
          (if held
              then ((if is_running s.dev.state then stop_running k else pure tt) >> mutex_unlock)
              else pure tt)
            s)
  stop_locked false s h = h
  stop_locked true s h = elim (Bool-cases (is_running s.dev.state)) [
    | inl f ↦ rw f (
        After-bind_weaken (SoundIn NotRunning) (SoundIn Anything) (SoundIn NotRunning)
          (SoundIn Anything) (stop_running k s) (λ _. mutex_unlock) (stopping s h)
          (λ _ g. (g.0, tt)) (λ _ t g. unlock-Sound t g))
    | inr f ↦ rw f (unlock-Sound s (h.0, f))
  ]

  pub Keeps-stop : Keeps (SoundIn Anything) (stop k)
  unfolding stop
  Keeps-stop = record { at = λ s h. stop_locked s.dev.mutex s h }
