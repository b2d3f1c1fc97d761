-- ===== src/File/Events.antt =====
-- A read that blocks, whatever happens while it waits.
use mathlib.Core.Path.{subst}
use beagle_logic.Base.{
  ℕ, ◌<◌, ◌≡◌, refl, sym, ap, ◌∙◌, inl, inr, true, false, Bool-cases, some, List, [], ◌∷◌, ◌==◌,
  ◌&&◌, arith, ◌⊎◌,
}
use beagle_logic.Device.{
  eio, erestartsys, is_unmapped, is_error, is_initialized, same_ptr, DeviceState,
}
use beagle_logic.System.{Platform, System, Event, irq, signal, done, element}
use beagle_logic.System.Returns.{Returns, returns, weaken}
use beagle_logic.System.Settles.{
  Settles, ended, asleep, Settles-bind, Settles-after, Returns-Settles,
}
use beagle_logic.Irq.{serve_irq, wait_for, wait_event_interruptible, after_stop_irq}
use beagle_logic.Irq.Ring.{following, buffer_ready-Served}
use beagle_logic.Capture.Stop.{following-lt}
use beagle_logic.File.{await_buffer, begin_buffer, f_read}
use beagle_logic.File.Walk.{Position}
use beagle_logic.File.Reader.{IsAt, here}
use beagle_logic.File.Read.{ReadOutcome, end_of_capture, failed, perform_copy-Outcome}
use beagle_logic.File.Wait.{handed_over, handed_over_lem, Served-IsAt}

module _ (cnt size id : ℕ) (bytes : ℕ → List ℕ) (p : Position) where
  -- The reader stands at `p`, and the driver has a buffer of the ring in work.
  pub record InWork (s : System) : Type 0 where
    pub at : IsAt cnt size id bytes p s
    pub q : ℕ
    pub reading : s.dev.bufbeingread ≡ some (record { array = id; index = q })
    pub q_lt : q < cnt

  InWork-state :
      (f : DeviceState → DeviceState) (s : System)
      → InWork s
      → InWork (record s { dev = record s.dev { state = f s.dev.state } })
  InWork-state f s h = record {
    at = record {
      items = h.at.items;
      ring = ground (arith, h.at.ring);
      same_bytes = h.at.same_bytes;
      buf_eq = h.at.buf_eq;
      pos_eq = h.at.pos_eq;
      remaining_eq = h.at.remaining_eq;
      buffer_lt = h.at.buffer_lt;
      offset_lt = h.at.offset_lt;
    };
    q = h.q;
    reading = h.reading;
    q_lt = h.q_lt;
  }

  InWork-events : (es : List Event) (s : System) → InWork s → InWork (record s { events = es })
  InWork-events es s h = record {
    at = record {
      items = h.at.items;
      ring = ground (arith, h.at.ring);
      same_bytes = h.at.same_bytes;
      buf_eq = h.at.buf_eq;
      pos_eq = h.at.pos_eq;
      remaining_eq = h.at.remaining_eq;
      buffer_lt = h.at.buffer_lt;
      offset_lt = h.at.offset_lt;
    };
    q = h.q;
    reading = h.reading;
    q_lt = h.q_lt;
  }

module _ (k : Platform) (cnt size id : ℕ) (bytes : ℕ → List ℕ) (p : Position) where
  abbrev Working : System → Type 0
  Working = InWork cnt size id bytes p

  serve_irq-InWork : (n : ℕ) (s : System) → Working s → Returns (λ _ t. Working t) (serve_irq k n s)
  unfolding serve_irq
  serve_irq-InWork n s h = elim (Bool-cases (n == s.dev.from_bl_irq_1)) [
    | inl e ↦ rw e (
        weaken
          (buffer_ready-Served k cnt size (record { id = id; items = h.at.items }) h.q s h.reading
            h.at.ring h.q_lt)
          (λ _ t v. record {
            at = Served-IsAt k cnt size id 0 bytes p s.events h.q _ s t h.at v;
            q = following cnt s.dev.triggerflags h.q;
            reading = ground (arith, v.frame);
            q_lt = following-lt cnt s.dev.triggerflags h.q (omega (arith, h.q_lt)) h.q_lt;
          }))
    | inr e ↦ rw e (elim (Bool-cases (n == s.dev.from_bl_irq_2)) [
      | inl g ↦ rw g (returns (InWork-state cnt size id bytes p after_stop_irq s h))
      | inr g ↦ rw g (returns h)
    ])
  ]

  ready_or_not :
      (s : System) → Working s → (handed_over s ≡ done true s) ⊎ (handed_over s ≡ done false s)
  ready_or_not s h =
      let same = handed_over_lem k cnt size id 0 bytes p s h.at in
      elim (Bool-cases (is_unmapped (here cnt size id bytes p s h.at).0.state)) [
        | inl e ↦ inl (same ∙ ap (λ x. done x s) e)
        | inr e ↦ inr (same ∙ ap (λ x. done x s) e)
      ]

  wait_for-InWork :
      (es : List Event) (s : System)
      → Working s
      → Settles (λ r t. Working t) Working (wait_for k handed_over es s)
  unfolding wait_for
  wait_for-InWork [] s h = elim (ready_or_not s h) [
    | inl e ↦ rw e (ended h)
    | inr e ↦ rw e (asleep h)
  ]
  wait_for-InWork (irq n ∷ es) s h = elim (ready_or_not s h) [
    | inl e ↦ rw e (ended h)
    | inr e ↦ rw e (
        Settles-after
          (serve_irq-InWork n (record s { events = es }) (InWork-events cnt size id bytes p es s h))
          (λ _ t g. wait_for-InWork es t g))
  ]
  wait_for-InWork (signal ∷ es) s h = elim (ready_or_not s h) [
    | inl e ↦ rw e (ended h)
    | inr e ↦ rw e (ended (InWork-events cnt size id bytes p es s h))
  ]

  module _ (sz : ℕ) (s : System) (h : Working s) where
    await_buffer-Settles :
        Settles (ReadOutcome cnt size id bytes p sz s) Working (await_buffer k false sz s)
    unfolding await_buffer wait_event_interruptible
    await_buffer-Settles = Settles-bind (wait_for-InWork s.events s h) (λ woken t g.
        elim (Bool-cases woken) [
          | inl e ↦ rw e (Returns-Settles (perform_copy-Outcome cnt size id bytes p k sz t g.at s))
          | inr e ↦ rw e (ended (failed erestartsys refl g.at))
        ])

    begin_buffer-Settles :
        s.reader.pos ≡ 0
        → Settles
            (ReadOutcome cnt size id bytes p sz s)
            Working
            (begin_buffer k false sz (some (record { array = id; index = p.buffer })) s)
    unfolding begin_buffer
    begin_buffer-Settles z =
        elim (Bool-cases (
          same_ptr (some (record { array = id; index = p.buffer })) (element s.dev 0)
          && is_initialized s.dev.state)) [
            | inl e ↦ rw e (
                ended (
                  end_of_capture refl (ground arith)
                    (ground (arith, h.at.ring.present, h.at.pos_eq)) h.at))
            | inr e ↦ rw e await_buffer-Settles
          ]

    -- A read that blocks, on a ring of which the driver has a buffer in work: whichever interrupts
    -- and signals come while it waits, and in whatever order, it sleeps with the reader where it
    -- was, or it returns in one of the ways in which a read that does not block returns. So it
    -- neither stays in a loop nor goes through a stale pointer.
    pub f_read-Settles :
        Settles (ReadOutcome cnt size id bytes p sz s) Working (f_read k false sz s)
    unfolding f_read
    f_read-Settles = elim (Bool-cases (is_error s.dev.state)) [
      | inl e ↦ rw e (ended (failed eio refl h.at))
      | inr e ↦ rw e (elim (Bool-cases (s.reader.pos == 0)) [
        | inl z ↦ rw z (
            subst
              (λ q.
                Settles (ReadOutcome cnt size id bytes p sz s) Working
                  (begin_buffer k false sz q s))
              (sym h.at.buf_eq) (begin_buffer-Settles (ground arith)))
        | inr z ↦ rw z (Returns-Settles (perform_copy-Outcome cnt size id bytes p k sz s h.at s))
      ])
    ]
