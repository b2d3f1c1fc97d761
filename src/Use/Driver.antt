-- ===== src/Use/Driver.antt =====
-- The interrupt handler, the waits during which it runs, and the start and the stop of a capture.
use beagle_logic.Base.{
  ℕ, ◌/◌, ◌≡◌, refl, inl, inr, Bool, true, false, Bool-cases, Option, none, some, List, [], ◌∷◌,
  ◌==◌, arith,
}
use beagle_logic.Device.{
  BufPtr, LogicBuffer, LogicBufferReader, Ret, ret, err, is_failure, is_mapped, is_initialized,
  is_running, minus_one, running, request_stop,
}
use beagle_logic.Device.BufState.{mapped}
use beagle_logic.System.{
  Platform, System, Event, irq, signal, M, pure, ◌>>◌, store, element, dma_map_single, undefined,
}
use beagle_logic.System.Settles.{ended, asleep}
use beagle_logic.Buffers.{map_buffer, unmap_buffer}
use beagle_logic.Buffers.Ring.{IsPlaced}
use beagle_logic.Irq.{
  next_ptr, goes_on, move_on, take_buffer, buffer_ready, after_stop_irq, serve_irq, wait_for,
  wait_event_interruptible,
}
use beagle_logic.Capture.{
  send_cmd, poll_loop, timeout, write_configuration, start, stop_running, stop, cmd_set_config,
  cmd_start,
}
use beagle_logic.Use.{InRing, InUse, Safe}
use beagle_logic.Use.Rules.{
  Safe-bind, Safe-pure, Safe-ignoring, Safe-read_dev, Safe-if, Safe-when, Safe-load, Safe-store,
  InRing-element, InRing-next,
}
use beagle_logic.Use.Writes.{
  Safe-fields, Safe-bufbeingread, Safe-counted, Safe-mutex_lock, Safe-mutex_unlock,
}

module _ (k : Platform) (cnt size id : ℕ) (F : LogicBufferReader → Type 0) where
  abbrev pub Runs : {A : Type 0} → M A → Type 0
  Runs m = Safe (InUse cnt size id F) (InUse cnt size id F) m

  pub Safe-map_buffer : (p : Option BufPtr) → InRing cnt size id p → Runs (map_buffer k p)
  unfolding map_buffer dma_map_single
  Safe-map_buffer p there = Safe-load p _ there (λ j e lt b placed.
      Safe-if (is_mapped b.state) _ _ (Safe-pure (ret 0))
        (Safe-bind _ _ (Safe-counted _) (λ o. mapping o j b e placed)))
    where
      mapping :
          (o : Option ℕ) (j : ℕ) (b : LogicBuffer)
          → p ≡ some (record { array = id; index = j })
          → IsPlaced cnt size j b
          → Runs {A = Ret} (elim o [
            | none ↦ pure (err minus_one)
            | some a ↦ store p (record b { phys_addr = a; state = mapped }) >> pure (ret 0)
          ])
      mapping none j b e placed = Safe-pure _
      mapping (some a) j b e placed =
          Safe-bind _ _ (Safe-store j p _ e (ground (arith, placed))) (λ _. Safe-pure (ret 0))

  pub Safe-unmap_buffer : (p : Option BufPtr) → InRing cnt size id p → Runs (unmap_buffer p)
  unfolding unmap_buffer
  Safe-unmap_buffer p there =
      Safe-load p _ there (λ j e lt b placed. Safe-store j p _ e (ground (arith, placed)))

  Safe-goes_on : (flags : ℕ) (p : Option BufPtr) → InRing cnt size id p → Runs (goes_on flags p)
  unfolding goes_on
  Safe-goes_on flags p there =
      Safe-if (flags == 0) _ _ (Safe-load p _ there (λ _ _ _ b _. Safe-pure _)) (Safe-pure true)

  Safe-move_on : (more : Bool) (p : Option BufPtr) → InRing cnt size id p → Runs (move_on k more p)
  unfolding move_on
  Safe-move_on false p there = Safe-pure tt
  Safe-move_on true p there =
      Safe-bind _ _ (Safe-bufbeingread (λ _. p) (λ _ _. there))
        (λ _. Safe-ignoring _ (Safe-map_buffer p there))

  Safe-take_buffer :
      (flags : ℕ) (p : Option BufPtr) → InRing cnt size id p → Runs (take_buffer k flags p)
  unfolding take_buffer
  Safe-take_buffer flags p there =
      Safe-bind _ _
        (Safe-fields (λ e. record e { lastbufready = p }) (λ d. (refl, refl, refl, refl)))
        (λ _. Safe-bind _ _ (Safe-unmap_buffer p there) (λ _.
          Safe-load p _ there (λ j e lt b placed.
            let onwards = InRing-next p j b e lt placed in
            Safe-bind _ _ (Safe-goes_on flags (next_ptr p b) onwards)
              (λ more. Safe-move_on more (next_ptr p b) onwards))))

  pub Safe-serve_irq : (n : ℕ) → Runs (serve_irq k n)
  unfolding serve_irq buffer_ready
  Safe-serve_irq n = Safe-read_dev _ (λ d h.
      Safe-if (n == d.from_bl_irq_1) _ _
        (Safe-read_dev _ (λ e g. Safe-take_buffer e.triggerflags e.bufbeingread g.reading))
        (Safe-if (n == d.from_bl_irq_2) _ _
          (Safe-fields (λ e. record e { state = after_stop_irq e.state })
            (λ d. (refl, refl, refl, refl)))
          (Safe-pure tt)))

  InUse-events :
      (es : List Event) (s : System)
      → InUse cnt size id F s
      → InUse cnt size id F (record s { events = es })
  InUse-events es s h = record { device = h.device; file = h.file }

  Safe-answer : (r : Bool) (m : M Bool) → Runs m → Runs (elim r [ true ↦ pure true | false ↦ m ])
  Safe-answer true m h = Safe-pure true
  Safe-answer false m h = h

  -- A wait for a condition that can be looked at runs over whatever comes.
  Safe-wait_for : (ready : M Bool) (es : List Event) → Runs ready → Runs (wait_for k ready es)
  unfolding wait_for
  Safe-wait_for ready [] h =
      Safe-bind _ _ h (λ r. Safe-if r _ _ (Safe-pure true) (record { at = λ s g. asleep g }))
  Safe-wait_for ready (irq n ∷ es) h = Safe-bind _ _ h (λ r.
      Safe-answer r (λ s. (serve_irq k n >> wait_for k ready es) (record s { events = es }))
        (record {
          at = λ s g.
              (Safe-bind (serve_irq k n) (λ _. wait_for k ready es) (Safe-serve_irq n)
                  (λ _. Safe-wait_for ready es h)).at
                (record s { events = es }) (InUse-events es s g);
        }))
  Safe-wait_for ready (signal ∷ es) h =
      Safe-bind _ _ h
        (λ r. Safe-if r _ _ (Safe-pure true) (record { at = λ s g. ended (InUse-events es s g) }))

  pub Safe-wait_event : (ready : M Bool) → Runs ready → Runs (wait_event_interruptible k ready)
  unfolding wait_event_interruptible
  Safe-wait_event ready h = record { at = λ s g. (Safe-wait_for ready s.events h).at s g }

  Safe-send_cmd : (c : ℕ) → Runs (send_cmd k c)
  unfolding send_cmd
  Safe-send_cmd c = record {
    at = λ s h. elim (Bool-cases (poll_loop timeout (k.answers_after s.calls) == 0)) [
      | inl e ↦ rw e (ended (record { device = ground (arith, h.device); file = h.file }))
      | inr e ↦ rw e (ended (record { device = ground (arith, h.device); file = h.file }))
    ];
  }

  Safe-write_configuration : Runs (write_configuration k)
  unfolding write_configuration
  Safe-write_configuration = Safe-read_dev _ (λ d h.
      Safe-when (d.samplerate == 0) undefined _ (λ e. absurd (h.rate (ground arith)))
        (λ _.
          Safe-bind _ _
            (Safe-fields
              (λ e. record e {
                cxt_pru = record e.cxt_pru {
                  samplediv = e.coreclockfreq / 2 / e.samplerate;
                  sampleunit = e.sampleunit;
                  triggerflags = e.triggerflags;
                };
              })
              (λ d. (refl, refl, refl, refl)))
            (λ _.
              Safe-bind _ _ (Safe-ignoring _ (Safe-send_cmd cmd_set_config))
                (λ _. Safe-pure (ret 0)))))

  pub Safe-start : Runs (start k)
  unfolding start
  Safe-start = Safe-bind _ _ Safe-mutex_lock (λ _. Safe-bind _ _ Safe-write_configuration (λ rc.
      Safe-if (is_failure rc) _ _ (Safe-bind _ _ Safe-mutex_unlock (λ _. Safe-pure (err minus_one)))
        (Safe-bind _ _
          (Safe-bufbeingread (λ d. element d 0)
            (λ d h. InRing-element d 0 h (omega (arith, h.ring.two))))
          (λ _. Safe-bind _ _ (Safe-ignoring _ (Safe-send_cmd cmd_start)) (λ _.
            Safe-bind _ _
              (Safe-fields (λ d. record d { state = running; lasterror = 0 })
                (λ d. (refl, refl, refl, refl)))
              (λ _. Safe-pure (ret 0)))))))

  Safe-stop_running : Runs (stop_running k)
  unfolding stop_running
  Safe-stop_running =
      Safe-bind _ _
        (Safe-fields (λ d. record d { state = request_stop }) (λ d. (refl, refl, refl, refl)))
        (λ _.
          Safe-ignoring _
            (Safe-wait_event _ (Safe-read_dev _ (λ d h. Safe-pure (is_initialized d.state)))))

  pub Safe-stop : Runs (stop k)
  unfolding stop
  Safe-stop = Safe-read_dev _ (λ d h.
      Safe-if d.mutex _ _
        (Safe-bind _ _ (Safe-if (is_running d.state) _ _ Safe-stop_running (Safe-pure tt))
          (λ _. Safe-mutex_unlock))
        (Safe-pure tt))
