-- ===== src/Irq.antt =====
-- `beaglelogic_serve_irq` of kernel/beaglelogic.c, and the waits that it ends.
pub mod Ring
pub mod Progress
use beagle_logic.Base.{
  ℕ, ◌+◌, Bool, true, false, Option, none, some, List, [], ◌∷◌, ◌||◌, not, leb, ◌==◌, if◌then◌else◌,
}
use beagle_logic.Device.{
  LogicBuffer, BufPtr, DeviceState, state_code, is_request_stop, is_running, initialized, error,
}
use beagle_logic.System.{
  Platform, Event, irq, signal, M, pure, ◌>>=◌, ◌>>◌, ignoring, read_dev, update_dev, sleeps, load,
}
use beagle_logic.Buffers.{map_buffer, unmap_buffer}

-- `buf->next`, for a buffer `b` that `p` points to.
abbrev pub next_ptr : Option BufPtr → LogicBuffer → Option BufPtr
next_ptr none b = none
next_ptr (some p) b = some (record p { index = b.next })

-- `triggerflags != BL_TRIGGERFLAGS_ONESHOT || bufbeingread->next->index != 0`
unfoldable pub goes_on : ℕ → Option BufPtr → M Bool
goes_on flags following =
    if flags == 0 then (load following >>= λ b. pure (not (b.index == 0))) else pure true

-- The second interrupt: the PRU has taken its configuration, or has stopped.
unfoldable pub after_stop_irq : DeviceState → DeviceState
unfolding state_code
after_stop_irq st =
    if leb (state_code st) 3
    then st
    else if is_request_stop st || is_running st
    then initialized
    else error

module _ (k : Platform) where
  -- `if (more) { bufbeingread = following; map }`
  unfoldable pub move_on : Bool → Option BufPtr → M (Unit {0})
  move_on false following = pure tt
  move_on true following = do
    update_dev (λ e. record e { bufbeingread = following })
    ignoring (map_buffer k following)

  -- The first interrupt, with the fields that it reads: `filled` is `bufbeingread`.
  unfoldable pub take_buffer : ℕ → Option BufPtr → M (Unit {0})
  take_buffer flags filled = do
    update_dev (λ e. record e { lastbufready = filled })
    unmap_buffer filled
    b ← load filled
    more ← goes_on flags (next_ptr filled b)
    move_on more (next_ptr filled b)

  unfoldable pub buffer_ready : M (Unit {0})
  buffer_ready = read_dev >>= λ d. take_buffer d.triggerflags d.bufbeingread

  unfoldable pub serve_irq : ℕ → M (Unit {0})
  serve_irq irqno = do
    d ← read_dev
    if irqno == d.from_bl_irq_1
        then buffer_ready
        else if irqno == d.from_bl_irq_2
        then update_dev (λ e. record e { state = after_stop_irq e.state })
        else pure tt

  -- The wait over the events to come: true once the condition holds, false for a signal.
  unfoldable pub wait_for : M Bool → List Event → M Bool
  wait_for ready [] = do r ← ready; if r then pure true else sleeps
  wait_for ready (irq n ∷ es) = do
    r ← ready
    elim r [
      | true ↦ pure true
      | false ↦ λ s. (serve_irq n >> wait_for ready es) (record s { events = es })
    ]
  wait_for ready (signal ∷ es) = do
    r ← ready
    if r then pure true else λ s. pure false (record s { events = es })

  -- `wait_event_interruptible`
  unfoldable pub wait_event_interruptible : M Bool → M Bool
  wait_event_interruptible ready s = wait_for ready s.events s
