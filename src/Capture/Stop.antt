-- ===== src/Capture/Stop.antt =====
-- `beaglelogic_stop` and the interrupts that come while it waits.
use mathlib.Core.Path.{subst}
use beagle_logic.Base.{
  ℕ, zero, suc, ◌<◌, ◌≡◌, refl, sym, ◌∙◌, ◌≢◌, Bool, true, false, some, List, [], ◌∷◌, ◌++◌, arith,
  replicate,
}
use beagle_logic.Device.{LogicBuffer, is_initialized, initialized, running, request_stop}
use beagle_logic.System.{
  Platform, System, Event, irq, signal, done, M, pure, ◌>>=◌, read_dev, mutex_unlock,
}
use beagle_logic.System.Returns.{Returns, returns, bind, weaken}
use beagle_logic.Buffers.Ring.{IsRing}
use beagle_logic.Irq.{serve_irq, wait_for, wait_event_interruptible, after_stop_irq}
use beagle_logic.Irq.Ring.{following, buffer_ready-Served}
use beagle_logic.Irq.Progress.{serve_irq_first}
use beagle_logic.Capture.{stop, stop_running}

-- What `stop` waits for.
abbrev has_stopped : M Bool
has_stopped = read_dev >>= λ d. pure (is_initialized d.state)

-- A capture on a ring whose end has been asked for: buffer `p` is being filled.
pub record IsStopping (cnt size id p a b : ℕ) (s : System) : Type 0 where
  pub items : List LogicBuffer
  pub ring : IsRing s.dev (record { id = id; items = items }) cnt size
  pub reading : s.dev.bufbeingread ≡ some (record { array = id; index = p })
  pub p_lt : p < cnt
  pub irq_1 : s.dev.from_bl_irq_1 ≡ a
  pub irq_2 : s.dev.from_bl_irq_2 ≡ b
  pub stopping : s.dev.state ≡ request_stop

pub following-lt : (cnt flags p : ℕ) → 0 < cnt → p < cnt → following cnt flags p < cnt
following-lt cnt flags p h lt = ground arith

module _ (k : Platform) where
  wait_over :
      (es : List Event) (s : System)
      → s.dev.state ≡ initialized
      → wait_for k has_stopped es s ≡ done true s
  unfolding wait_for
  wait_over [] s e = ground arith
  wait_over (irq n ∷ es) s e = ground arith
  wait_over (signal ∷ es) s e = ground arith

  serve_irq_second :
      (s : System) (b : ℕ)
      → s.dev.from_bl_irq_2 ≡ b
      → s.dev.from_bl_irq_1 ≢ b
      → s.dev.state ≡ request_stop
      → serve_irq k b s ≡ done tt (record s { dev = record s.dev { state = initialized } })
  unfolding serve_irq after_stop_irq
  serve_irq_second s b e ne st = ground arith

  not_stopped : (s : System) → s.dev.state ≡ request_stop → is_initialized s.dev.state ≡ false
  not_stopped s e = ground arith

  module _ (cnt size id a b : ℕ) (a_ne_b : a ≢ b) where
    wait_step :
        (n : ℕ) (es : List Event) (s : System)
        → s.dev.state ≡ request_stop
        → wait_for k has_stopped (irq n ∷ es) s
          ≡ (serve_irq k n >>= λ _. wait_for k has_stopped es) (record s { events = es })
    unfolding wait_for
    wait_step n es s e = ground arith

    -- Interrupts for full buffers leave the capture stopping: what follows them decides.
    wait_after_buffers :
        (P : Bool → System → Type 0) (last : List Event)
        → ((p : ℕ) (s : System)
            → IsStopping cnt size id p a b s
            → Returns P (wait_for k has_stopped last s))
        → (m p : ℕ) (s : System) → IsStopping cnt size id p a b s
        → Returns P (wait_for k has_stopped (replicate m (irq a) ++ last) s)
    wait_after_buffers P last final zero p s h = final p s h
    wait_after_buffers P last final (suc m) p s h =
        let es : List Event = replicate m (irq a) ++ last in
        rw (wait_step a es s h.stopping) (
          rw (serve_irq_first k (record s { events = es }) a h.irq_1) (
            bind
              (buffer_ready-Served k cnt size (record { id = id; items = h.items }) p
                (record s { events = es }) h.reading h.ring h.p_lt)
              (λ _ t v.
                wait_after_buffers P last final m (following cnt s.dev.triggerflags p) t (record {
                  items = v.items;
                  ring = v.ring;
                  reading = ground (arith, v.frame);
                  p_lt = following-lt cnt s.dev.triggerflags p (omega (arith, h.p_lt)) h.p_lt;
                  irq_1 = ground (arith, v.frame, h.irq_1);
                  irq_2 = ground (arith, v.frame, h.irq_2);
                  stopping = ground (arith, v.frame, h.stopping);
                }))))

    wait_for_completion :
        (rest : List Event) (p : ℕ) (s : System)
        → IsStopping cnt size id p a b s
        → Returns (λ r t. t.dev.state ≡ initialized) (wait_for k has_stopped (irq b ∷ rest) s)
    wait_for_completion rest p s h = rw (wait_step b rest s h.stopping) (
        rw
          (serve_irq_second (record s { events = rest }) b h.irq_2 (λ q. a_ne_b (sym h.irq_1 ∙ q))
            h.stopping)
          (rw
            (wait_over rest (record s { events = rest; dev = record s.dev { state = initialized } })
              refl)
            (returns refl)))

    wait_for_signal :
        (rest : List Event) (p : ℕ) (s : System)
        → IsStopping cnt size id p a b s
        → Returns
            (λ r t. (q : ℕ) × IsStopping cnt size id q a b t)
            (wait_for k has_stopped (signal ∷ rest) s)
    unfolding wait_for
    wait_for_signal rest p s h = rw (not_stopped s h.stopping) (
        returns (
          p,
          record {
            items = h.items;
            ring = ground (arith, h.ring);
            reading = h.reading;
            p_lt = h.p_lt;
            irq_1 = h.irq_1;
            irq_2 = h.irq_2;
            stopping = h.stopping;
          },
        ))

-- A capture that runs on a ring: the mutex is taken, and buffer `p` is being filled.
pub record IsCapturing (cnt size id p : ℕ) (s : System) : Type 0 where
  pub items : List LogicBuffer
  pub ring : IsRing s.dev (record { id = id; items = items }) cnt size
  pub reading : s.dev.bufbeingread ≡ some (record { array = id; index = p })
  pub p_lt : p < cnt
  pub two_irqs : s.dev.from_bl_irq_1 ≢ s.dev.from_bl_irq_2
  pub taken : s.dev.mutex ≡ true
  pub is_on : s.dev.state ≡ running

module _ (k : Platform) (cnt size id p m : ℕ) (rest : List Event) (s : System)
    (on : IsCapturing cnt size id p s) where
  IsStopping-now :
      IsStopping cnt size id p s.dev.from_bl_irq_1 s.dev.from_bl_irq_2
        (record s { dev = record s.dev { state = request_stop } })
  IsStopping-now = record {
    items = on.items;
    ring = ground (arith, on.ring);
    reading = on.reading;
    p_lt = on.p_lt;
    irq_1 = refl;
    irq_2 = refl;
    stopping = refl;
  }

  -- The state in which `stop` begins to wait.
  abbrev asked : System
  asked = record s { dev = record s.dev { state = request_stop } }

  stop_runs : stop k s ≡ (stop_running k >>= λ _. mutex_unlock) s
  unfolding stop
  stop_runs = ground (arith, on.taken, on.is_on)

  stop_after :
      (Q : System → Type 0)
      → Returns (λ r t. Q t) (wait_for k has_stopped s.events asked)
      → Returns
          (λ _ t. (u : System) × Q u × (t ≡ record u { dev = record u.dev { mutex = false } }))
          (stop k s)
  unfolding stop_running wait_event_interruptible mutex_unlock
  stop_after Q w = rw stop_runs (bind (bind w (λ _ _ e. returns e)) (λ _ u e. returns (u, e, refl)))

  -- When a capture that runs on a ring is stopped, and `m` more buffers become full before the PRU
  -- signals the end, `stop` returns with the device initialized and the mutex free.
  pub stop-Initialized :
      s.events ≡ replicate m (irq s.dev.from_bl_irq_1) ++ irq s.dev.from_bl_irq_2 ∷ rest
      → Returns (λ _ t. (t.dev.mutex ≡ false) × (t.dev.state ≡ initialized)) (stop k s)
  stop-Initialized e =
      weaken
        (stop_after (λ t. t.dev.state ≡ initialized)
          (subst
            (λ es. Returns (λ r t. t.dev.state ≡ initialized) (wait_for k has_stopped es asked))
            (sym e)
            (wait_after_buffers k cnt size id s.dev.from_bl_irq_1 s.dev.from_bl_irq_2 on.two_irqs _
              _ (wait_for_completion k cnt size id _ _ on.two_irqs rest) m p asked IsStopping-now)))
        (λ _ t (u, st, q). (ground (arith, q), ground (arith, q, st)))

  -- When a capture that runs on a ring is stopped, a signal that comes after `m` full buffers and
  -- before the end makes `stop` return with the mutex free while the device is still stopping, and
  -- a buffer of the ring still in work.
  pub stop_interrupted :
      s.events ≡ replicate m (irq s.dev.from_bl_irq_1) ++ signal ∷ rest
      → Returns
          (λ _ t.
            (t.dev.mutex ≡ false)
            × (q : ℕ) × IsStopping cnt size id q s.dev.from_bl_irq_1 s.dev.from_bl_irq_2 t)
          (stop k s)
  stop_interrupted e =
      weaken
        (stop_after Still (
          subst (λ es. Returns (λ r t. Still t) (wait_for k has_stopped es asked)) (sym e)
            (wait_after_buffers k cnt size id s.dev.from_bl_irq_1 s.dev.from_bl_irq_2 on.two_irqs _
              _ (wait_for_signal k cnt size id _ _ on.two_irqs rest) m p asked IsStopping-now)))
        (λ _ t (u, (q, h), e). (ground (arith, e), q, IsStopping-unlocked q u t h e))
    where
      Still : System → Type 0
      Still t = (q : ℕ) × IsStopping cnt size id q s.dev.from_bl_irq_1 s.dev.from_bl_irq_2 t

      IsStopping-unlocked :
          (q : ℕ) (u t : System)
          → IsStopping cnt size id q s.dev.from_bl_irq_1 s.dev.from_bl_irq_2 u
          → t ≡ record u { dev = record u.dev { mutex = false } }
          → IsStopping cnt size id q s.dev.from_bl_irq_1 s.dev.from_bl_irq_2 t
      IsStopping-unlocked q u t h e = rw e (record {
        items = h.items;
        ring = ground (arith, h.ring);
        reading = h.reading;
        p_lt = h.p_lt;
        irq_1 = h.irq_1;
        irq_2 = h.irq_2;
        stopping = h.stopping;
      })
