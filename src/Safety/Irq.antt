-- ===== src/Safety/Irq.antt =====
-- The interrupt handler, and the waits during which it runs.
use beagle_logic.Base.{ℕ, ◌≡◌, refl, Bool, true, false, Option, List, [], ◌∷◌, ◌==◌, arith}
use beagle_logic.Device.{
  DeviceState, BufPtr, is_running, disabled, initialized, memallocd, armed, running, request_stop,
  error,
}
use beagle_logic.System.{Platform, Event, irq, signal, M, pure, ◌>>◌}
use beagle_logic.System.Keeps.{
  Keeps, Keeps-bind, Keeps-pure, Keeps-if, Keeps-read_dev, Keeps-ignoring,
}
use beagle_logic.Irq.{
  goes_on, move_on, take_buffer, buffer_ready, after_stop_irq, serve_irq, wait_for,
  wait_event_interruptible, next_ptr,
}
use beagle_logic.Safety.{SoundIn, Sound-rest}
use beagle_logic.Safety.Frame.{Sound-dev, Keeps-fields}
use beagle_logic.Safety.Store.{Keeps-look, Keeps-map_buffer, Keeps-unmap_buffer}

-- The second interrupt never makes a device run.
pub after_stop_irq-running : (st : DeviceState) → is_running (after_stop_irq st) ≡ false
unfolding after_stop_irq
after_stop_irq-running disabled = refl
after_stop_irq-running initialized = refl
after_stop_irq-running memallocd = refl
after_stop_irq-running armed = refl
after_stop_irq-running running = refl
after_stop_irq-running request_stop = refl
after_stop_irq-running error = refl

module _ (R : Bool → DeviceState → Type 0) where
  Keeps-goes_on : (flags : ℕ) (p : Option BufPtr) → Keeps (SoundIn R) (goes_on flags p)
  unfolding goes_on
  Keeps-goes_on flags p =
      Keeps-if (flags == 0) _ _ (Keeps-look R p _ (λ b. Keeps-pure _)) (Keeps-pure true)

  Keeps-move_on :
      (k : Platform) (more : Bool) (p : Option BufPtr) → Keeps (SoundIn R) (move_on k more p)
  unfolding move_on
  Keeps-move_on k false p = Keeps-pure tt
  Keeps-move_on k true p =
      Keeps-bind _ _ (Keeps-fields R _ (λ d. refl)) (λ _. Keeps-ignoring _ (Keeps-map_buffer R k p))

  Keeps-take_buffer :
      (k : Platform) (flags : ℕ) (p : Option BufPtr) → Keeps (SoundIn R) (take_buffer k flags p)
  unfolding take_buffer
  Keeps-take_buffer k flags p =
      Keeps-bind _ _ (Keeps-fields R (λ e. record e { lastbufready = p }) (λ d. refl)) (λ _.
        Keeps-bind _ _ (Keeps-unmap_buffer R p) (λ _. Keeps-look R p _ (λ b.
          Keeps-bind _ _ (Keeps-goes_on flags (next_ptr p b))
            (λ more. Keeps-move_on k more (next_ptr p b)))))

  Keeps-buffer_ready : (k : Platform) → Keeps (SoundIn R) (buffer_ready k)
  unfolding buffer_ready
  Keeps-buffer_ready k =
      Keeps-bind _ _ Keeps-read_dev (λ d. Keeps-take_buffer k d.triggerflags d.bufbeingread)

  module _ (k : Platform)
      (stops : (m : Bool) (st : DeviceState) → R m st → R m (after_stop_irq st)) where
    pub Keeps-serve_irq : (n : ℕ) → Keeps (SoundIn R) (serve_irq k n)
    unfolding serve_irq
    Keeps-serve_irq n = Keeps-bind _ _ Keeps-read_dev (λ d.
        Keeps-if (n == d.from_bl_irq_1) _ _ (Keeps-buffer_ready k) (
          Keeps-if (n == d.from_bl_irq_2) _ _
            (record {
              at = λ s (h, c). (
                Sound-dev s.dev.mutex s.dev.lastbufready s.dev.bufbeingread s.dev.cxt_pru
                    s.dev.maxbufcount s.dev.bufunitsize s.dev.lasterror (after_stop_irq s.dev.state)
                    s (λ r. absurd (ground (arith, after_stop_irq-running s.dev.state))) h,
                stops s.dev.mutex s.dev.state c,
              );
            })
            (Keeps-pure tt)))

    Keeps-answer :
        (r : Bool) (m : M Bool)
        → Keeps (SoundIn R) m
        → Keeps (SoundIn R) (elim r [ true ↦ pure true | false ↦ m ])
    Keeps-answer true m h = Keeps-pure true
    Keeps-answer false m h = h

    -- A wait keeps what its condition and the interrupts keep.
    pub Keeps-wait_for :
        (ready : M Bool) (es : List Event)
        → Keeps (SoundIn R) ready
        → Keeps (SoundIn R) (wait_for k ready es)
    unfolding wait_for
    Keeps-wait_for ready [] h =
        Keeps-bind _ _ h (λ r. Keeps-if r _ _ (Keeps-pure true) (record { at = λ s g. g }))
    Keeps-wait_for ready (irq n ∷ es) h = Keeps-bind _ _ h (λ r.
        Keeps-answer r (λ s. (serve_irq k n >> wait_for k ready es) (record s { events = es }))
          (record {
            at = λ s (g, c).
                (Keeps-bind _ _ (Keeps-serve_irq n) (λ _. Keeps-wait_for ready es h)).at
                  (record s { events = es }) (Sound-rest s.reader s.calls es s g, c);
          }))
    Keeps-wait_for ready (signal ∷ es) h = Keeps-bind _ _ h (λ r.
        Keeps-if r _ _ (Keeps-pure true)
          (record { at = λ s (g, c). (Sound-rest s.reader s.calls es s g, c) }))

    pub Keeps-wait_event :
        (ready : M Bool)
        → Keeps (SoundIn R) ready
        → Keeps (SoundIn R) (wait_event_interruptible k ready)
    unfolding wait_event_interruptible
    Keeps-wait_event ready h = record { at = λ s g. (Keeps-wait_for ready s.events h).at s g }
