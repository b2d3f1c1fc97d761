-- ===== src/File/Wait.antt =====
-- The wait of a read for the driver, and the copy that follows.
use mathlib.Core.Path.{subst}
use native.Mathlib.Nat.{mod-eq_of_lt, mod-add-mod}
use beagle_logic.Base.{
  ℕ, zero, suc, ◌+◌, ◌%◌, ◌<◌, min, ◌≡◌, refl, sym, ap, ◌∙◌, ◌≢◌, inl, inr, Bool, true, false,
  Bool-cases, some, List, [], ◌∷◌, ◌++◌, arith, replicate,
}
use beagle_logic.Device.{ret, is_unmapped}
use beagle_logic.System.{
  Platform, System, Event, irq, signal, done, M, pure, ◌>>=◌, read_reader, load,
}
use beagle_logic.System.Returns.{Returns, returns, bind}
use beagle_logic.Irq.{serve_irq, wait_for, wait_event_interruptible}
use beagle_logic.Irq.Ring.{following, Served, buffer_ready-Served}
use beagle_logic.Irq.Progress.{serve_irq_first}
use beagle_logic.File.{await_buffer, perform_copy}
use beagle_logic.File.Walk.{Position, walk, bytes_from}
use beagle_logic.File.Reader.{IsAt, here, load-reader}
use beagle_logic.File.Read.{Copied, perform_copy-Copied}

-- What a read waits for.
abbrev pub handed_over : M Bool
handed_over = read_reader >>= λ r. load r.buf >>= λ b. pure (is_unmapped b.state)

module _ (k : Platform) where
  wait_over :
      (es : List Event) (s : System)
      → handed_over s ≡ done true s
      → wait_for k handed_over es s ≡ done true s
  unfolding wait_for
  wait_over [] s e = rw e refl
  wait_over (irq n ∷ es) s e = rw e refl
  wait_over (signal ∷ es) s e = rw e refl

  module _ (cnt size id a : ℕ) (bytes : ℕ → List ℕ) (p : Position) where
    pub Served-IsAt :
        (es : List Event) (i n : ℕ) (s t : System) (h : IsAt cnt size id bytes p s)
        → Served k cnt size (record { id = id; items = h.items }) i n (record s { events = es }) t
        → IsAt cnt size id bytes p t
    Served-IsAt es i n s t h v = record {
      items = v.items;
      ring = v.ring;
      same_bytes = λ j. v.same_bytes j ∙ h.same_bytes j;
      buf_eq = ground (arith, v.frame, h.buf_eq);
      pos_eq = ground (arith, v.frame, h.pos_eq);
      remaining_eq = ground (arith, v.frame, h.remaining_eq);
      buffer_lt = h.buffer_lt;
      offset_lt = h.offset_lt;
    }

    pub handed_over_lem :
        (s : System) (h : IsAt cnt size id bytes p s)
        → handed_over s ≡ done (is_unmapped (here cnt size id bytes p s h).0.state) s
    handed_over_lem s h = rw (load-reader cnt size id bytes p s h) refl

    -- A capture that fills buffer `q`.
    pub record Filling (q : ℕ) (s : System) : Type 0 where
      pub reading : s.dev.bufbeingread ≡ some (record { array = id; index = q })
      pub q_lt : q < cnt
      pub irq_1 : s.dev.from_bl_irq_1 ≡ a

    wait_step :
        (n : ℕ) (es : List Event) (s : System)
        → handed_over s ≡ done false s
        → wait_for k handed_over (irq n ∷ es) s
          ≡ (serve_irq k n >>= λ _. wait_for k handed_over es) (record s { events = es })
    unfolding wait_for
    wait_step n es s e = rw e refl

    abbrev pub Woken : Bool → System → Type 0
    Woken r t = (r ≡ true) × IsAt cnt size id bytes p t

    -- The buffer that the read waits for is the one that was just served.
    wait_for-Woken :
        (es : List Event) (n : ℕ) (s t : System) (h : IsAt cnt size id bytes p s)
        → Served k cnt size
            (record { id = id; items = h.items })
            p.buffer
            n
            (record s { events = es })
            t
        → Returns Woken (wait_for k handed_over es t)
    unfolding Served-IsAt
    wait_for-Woken es n s t h v =
        let g : IsAt cnt size id bytes p t = Served-IsAt es p.buffer n s t h v in
        let (b, found) = here cnt size id bytes p t g in
        rw
          (wait_over es t
            (handed_over_lem t g ∙ ap (λ x. done (is_unmapped x) t) (v.filled b found)))
          (returns (refl, g))

    Filling-next :
        (es : List Event) (q : ℕ) (s t : System) (h : IsAt cnt size id bytes p s)
        → Filling q s
        → s.dev.triggerflags ≢ 0
        → Served k cnt size
            (record { id = id; items = h.items })
            q
            (following cnt s.dev.triggerflags q)
            (record s { events = es })
            t
        → Filling ((q + 1) % cnt) t
    Filling-next es q s t h fill round v = record {
      reading = ground (arith, v.frame, round);
      q_lt = omega (arith, fill.q_lt);
      irq_1 = ground (arith, v.frame, fill.irq_1);
    }

    -- A read that is not woken at once goes on after the next interrupt.
    serve_first :
        (es : List Event) (q : ℕ) (s : System) (h : IsAt cnt size id bytes p s)
        → Filling q s
        → ((t : System)
            → Served k cnt size
                (record { id = id; items = h.items })
                q
                (following cnt s.dev.triggerflags q)
                (record s { events = es })
                t
            → Returns Woken (wait_for k handed_over es t))
        → Returns Woken (wait_for k handed_over (irq a ∷ es) s)
    serve_first es q s h fill next =
        elim (Bool-cases (is_unmapped (here cnt size id bytes p s h).0.state)) [
          | inl e ↦
              rw (wait_over (irq a ∷ es) s (handed_over_lem s h ∙ ap (λ x. done x s) e))
                (returns (refl, h))
          | inr e ↦
              rw
                (
                  wait_step a es s (handed_over_lem s h ∙ ap (λ x. done x s) e),
                  serve_irq_first k (record s { events = es }) a fill.irq_1,
                )
                (bind
                  (buffer_ready-Served k cnt size (record { id = id; items = h.items }) q
                    (record s { events = es }) fill.reading (ground (arith, h.ring)) fill.q_lt)
                  (λ _ t v. next t v))
        ]

    -- With `m` buffers still to fill before it, in one-shot mode none, the read is woken.
    pub wait_for_buffer :
        (m q : ℕ) (rest : List Event) (s : System)
        → IsAt cnt size id bytes p s
        → Filling q s
        → (0 < m → s.dev.triggerflags ≢ 0)
        → (q + m) % cnt ≡ p.buffer
        → Returns Woken (wait_for k handed_over (replicate (suc m) (irq a) ++ rest) s)
    wait_for_buffer zero q rest s h fill round e = serve_first rest q s h fill (λ t v.
        let here_now : p.buffer ≡ q =
          sym e ∙ ap (λ (x : ℕ). x % cnt) (omega arith) ∙ mod-eq_of_lt fill.q_lt in
        wait_for-Woken rest (following cnt s.dev.triggerflags q) s t h (
          subst
            (λ x.
              Served k cnt size (record { id = id; items = h.items }) x
                (following cnt s.dev.triggerflags q) (record s { events = rest }) t)
            (sym here_now) v))
    wait_for_buffer (suc m) q rest s h fill round e =
        let es : List Event = replicate (suc m) (irq a) ++ rest in
        serve_first es q s h fill (λ t v.
          wait_for_buffer m ((q + 1) % cnt) rest t (Served-IsAt es q _ s t h v)
            (Filling-next es q s t h fill (round (omega arith)) v)
            (λ _. ground (arith, v.frame, round))
            (rw mod-add-mod (ap (λ (x : ℕ). x % cnt) (omega arith) ∙ e)))

    -- Once woken, the read copies the bytes.
    pub await_buffer-walk :
        (sz : ℕ) (s : System)
        → p.offset ≡ 0
        → ((c n : ℕ) → k.copy_to_user c n ≡ true)
        → Returns Woken (wait_for k handed_over s.events s)
        → Returns
            (λ r t.
              (r ≡ (ret (min size sz), bytes_from cnt size bytes (min size sz) p))
              × IsAt cnt size id bytes (walk cnt size (min size sz) p) t)
            (await_buffer k false sz s)
    unfolding await_buffer wait_event_interruptible
    await_buffer-walk sz s start grants woken = bind woken (λ r t (e, g). rw e (
        subst (λ n. Returns (Copied cnt size id bytes p k sz t g n) (perform_copy k sz t))
          (whole t g) (perform_copy-Copied cnt size id bytes p k sz t g (grants _ _))))
      where
        whole : (t : System) → IsAt cnt size id bytes p t → min t.reader.remaining sz ≡ min size sz
        whole t g = omega (arith, g.remaining_eq, start)
