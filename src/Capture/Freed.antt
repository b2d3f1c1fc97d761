-- ===== src/Capture/Freed.antt =====
-- A stop that is broken off, and what the buffers are then exposed to.
use beagle_logic.Base.{ℕ, ◌≡◌, ◌∙◌, none, some, List, ◌∷◌, ◌++◌, arith, replicate}
use beagle_logic.Device.{BufPtr}
use beagle_logic.System.{Platform, System, Event, irq, signal, oops, ◌>>=◌, load}
use beagle_logic.System.Returns.{bind_eq}
use beagle_logic.Buffers.{memfree, unmap_buffer}
use beagle_logic.Buffers.Free.{memfree-Released}
use beagle_logic.Irq.{serve_irq, buffer_ready, take_buffer}
use beagle_logic.Irq.Progress.{serve_irq_first}
use beagle_logic.Capture.{stop}
use beagle_logic.Capture.Stop.{IsCapturing, stop_interrupted}

module _ (k : Platform) where
  -- The handler goes through `bufbeingread`.
  buffer_ready_null :
      (p : BufPtr) (s : System)
      → s.dev.bufbeingread ≡ some p
      → s.dev.buffers ≡ none
      → buffer_ready k s ≡ oops
  unfolding buffer_ready take_buffer unmap_buffer load
  buffer_ready_null p s reading null = ground (arith, reading, null)

  -- When a capture that runs on a ring is stopped, and a signal comes after `m` full buffers and
  -- before the end, `stop` lets the buffers be freed; the PRU's next interrupt for a full buffer
  -- then makes the handler write to freed memory.
  pub stop-memfree-serve_irq :
      (cnt size id p m : ℕ) (rest : List Event) (s : System)
      → IsCapturing cnt size id p s
      → s.events ≡ replicate m (irq s.dev.from_bl_irq_1) ++ signal ∷ rest
      → (stop k >>= λ _. memfree >>= λ _. serve_irq k s.dev.from_bl_irq_1) s ≡ oops
  stop-memfree-serve_irq cnt size id p m rest s on coming =
      bind_eq (stop_interrupted k cnt size id p m rest s on coming) (λ _ t (free, q, h).
        bind_eq (memfree-Released (record { id = id; items = h.items }) cnt size t free h.ring)
          (λ _ u f.
            serve_irq_first k u s.dev.from_bl_irq_1 (ground (arith, f.frame, h.irq_1))
            ∙ buffer_ready_null (record { array = id; index = q }) u
                (ground (arith, f.frame, h.reading)) (ground (arith, f.frame))))
