-- ===== src/File/Reader.antt =====
-- The reader's position in the ring, and the two pieces of code that `beaglelogic_f_read` and
-- `beaglelogic_f_llseek` share: neither loses the position.
use mathlib.Core.Path.{subst}
use native.Mathlib.Decide.{ℕ_discrete}
use beagle_logic.Base.{
  ℕ, ◌+◌, ◌-◌, ◌%◌, ◌≤◌, ◌<◌, ◌≡◌, refl, sym, ◌∙◌, inl, inr, Bool-cases, some, List, ==_true,
  ==_false, arith, get_elem?, get_elem?-some,
}
use beagle_logic.Device.{LogicBuffer, BufferArray, is_mapped}
use beagle_logic.Device.BufState.{dropped}
use beagle_logic.System.{System, done, load}
use beagle_logic.System.Returns.{Returns, returns, bind}
use beagle_logic.Buffers.Ring.{IsRing, load-at, content}
use beagle_logic.Buffers.Update.{Updated, Updated-content, store-Updated}
use beagle_logic.File.{detect_drop, pass_bytes, advance}
use beagle_logic.File.Walk.{Position, walk, walk_inside, walk_to_end}

-- The open file stands at `p` in a ring `id` with the bytes `bytes`.
pub record IsAt (cnt size id : ℕ) (bytes : ℕ → List ℕ) (p : Position) (s : System) : Type 0 where
  pub items : List LogicBuffer
  pub ring : IsRing s.dev (record { id = id; items = items }) cnt size
  pub same_bytes : (j : ℕ) → content items j ≡ bytes j
  pub buf_eq : s.reader.buf ≡ some (record { array = id; index = p.buffer })
  pub pos_eq : s.reader.pos ≡ p.offset
  pub remaining_eq : s.reader.remaining + p.offset ≡ size
  pub buffer_lt : p.buffer < cnt
  pub offset_lt : p.offset < size

module _ (cnt size id : ℕ) (bytes : ℕ → List ℕ) (p : Position) where
  -- The buffer that the reader is in.
  pub here :
      (s : System) (h : IsAt cnt size id bytes p s)
      → (b : LogicBuffer) × (get_elem? h.items p.buffer ≡ some b)
  here s h = get_elem?-some h.items p.buffer (omega (arith, h.ring.length_eq, h.buffer_lt))

  Updated-IsAt :
      {P : LogicBuffer → Type 0} {s t : System} (h : IsAt cnt size id bytes p s) (b : LogicBuffer)
      → get_elem? h.items p.buffer ≡ some b
      → ((c : LogicBuffer) → P c → c.mem ≡ b.mem)
      → Updated cnt size (record { id = id; items = h.items }) p.buffer P s t
      → IsAt cnt size id bytes p t
  Updated-IsAt h b found keeps u = record {
    items = u.items;
    ring = u.ring;
    same_bytes = λ j. Updated-content found h.buffer_lt keeps u j ∙ h.same_bytes j;
    buf_eq = ground (arith, u.frame, h.buf_eq);
    pos_eq = ground (arith, u.frame, h.pos_eq);
    remaining_eq = ground (arith, u.frame, h.remaining_eq);
    buffer_lt = h.buffer_lt;
    offset_lt = h.offset_lt;
  }

  IsAt-lasterror :
      (n : ℕ) (s : System)
      → IsAt cnt size id bytes p s
      → IsAt cnt size id bytes p (record s { dev = record s.dev { lasterror = n } })
  IsAt-lasterror n s h = record {
    items = h.items;
    ring = ground (arith, h.ring);
    same_bytes = h.same_bytes;
    buf_eq = h.buf_eq;
    pos_eq = h.pos_eq;
    remaining_eq = h.remaining_eq;
    buffer_lt = h.buffer_lt;
    offset_lt = h.offset_lt;
  }

  pub IsAt-calls :
      (n : ℕ) (s : System)
      → IsAt cnt size id bytes p s
      → IsAt cnt size id bytes p (record s { calls = n })
  IsAt-calls n s h = record {
    items = h.items;
    ring = h.ring;
    same_bytes = h.same_bytes;
    buf_eq = h.buf_eq;
    pos_eq = h.pos_eq;
    remaining_eq = h.remaining_eq;
    buffer_lt = h.buffer_lt;
    offset_lt = h.offset_lt;
  }

  abbrev Kept : System → Unit {0} → System → Type 0
  Kept s _ t = IsAt cnt size id bytes p t × (t.reader ≡ s.reader)

  detect_drop-Kept :
      (s : System) (h : IsAt cnt size id bytes p s)
      → Returns (Kept s) (detect_drop (some (record { array = id; index = p.buffer })) s)
  unfolding detect_drop
  detect_drop-Kept s h =
      let arr : BufferArray = record { id = id; items = h.items } in
      let (b, found) = here s h in
      rw (load-at s arr p.buffer h.ring.present found) (elim (Bool-cases (is_mapped b.state)) [
        | inl e ↦ rw e (
            bind
              (store-Updated cnt size arr p.buffer (λ c. c.mem ≡ b.mem) s h.ring b found
                (record b { state = dropped }) (ground (arith, h.ring.placed p.buffer b found))
                refl)
              (λ _ t u. returns (
                IsAt-lasterror _ t (Updated-IsAt h b found (λ _ q. q) u),
                ground (arith, u.frame),
              )))
        | inr e ↦ rw e (returns (h, refl))
      ])

  pub load-reader :
      (s : System) (h : IsAt cnt size id bytes p s) → load s.reader.buf s ≡ done (here s h).0 s
  load-reader s h =
      subst (λ q. load q s ≡ done (here s h).0 s) (sym h.buf_eq)
        (load-at s (record { id = id; items = h.items }) p.buffer h.ring.present (here s h).1)

  -- Marking the buffer as dropped moves nothing and changes no byte.
  pub detect_drop-IsAt :
      (s : System) → IsAt cnt size id bytes p s → Returns (Kept s) (detect_drop s.reader.buf s)
  detect_drop-IsAt s h =
      subst (λ q. Returns (Kept s) (detect_drop q s)) (sym h.buf_eq) (detect_drop-Kept s h)

  pass_bytes-IsAt :
      (n : ℕ) (s : System) (h : IsAt cnt size id bytes p s)
      → p.offset + n ≤ size
      → Returns
          (λ _ t. IsAt cnt size id bytes (walk cnt size n p) t)
          (pass_bytes n
            (some (record { array = id; index = p.buffer }))
            s.reader.pos
            s.reader.remaining
            s)
  unfolding pass_bytes
  pass_bytes-IsAt n s h fits =
      let arr : BufferArray = record { id = id; items = h.items } in
      let (b, found) = here s h in
      let m : ℕ = (p.buffer + 1) % cnt in
      let (c, there) = get_elem?-some h.items m (omega (arith, h.ring.length_eq, h.ring.two)) in
      rw (load-at s arr p.buffer h.ring.present found, (h.ring.placed p.buffer b found).next_eq)
        (elim (ℕ_discrete (p.offset + n) size) [
          | yes e ↦
              rw
                (
                  ==_true (s.reader.remaining - n) 0 (omega (arith, h.remaining_eq)),
                  load-at s arr m h.ring.present there,
                )
                (returns (
                  rw (walk_to_end cnt size n p (omega (arith, h.offset_lt)) e) (record {
                    items = h.items;
                    ring = h.ring;
                    same_bytes = h.same_bytes;
                    buf_eq = refl;
                    pos_eq = refl;
                    remaining_eq = omega (arith, (h.ring.placed m c there).size_eq);
                    buffer_lt = omega (arith, h.ring.two);
                    offset_lt = h.ring.nonempty;
                  })))
          | no e ↦ rw (==_false (s.reader.remaining - n) 0 (omega (arith, h.remaining_eq))) (
              returns (
                rw (walk_inside cnt size n p (omega arith)) (record {
                  items = h.items;
                  ring = h.ring;
                  same_bytes = h.same_bytes;
                  buf_eq = h.buf_eq;
                  pos_eq = omega (arith, h.pos_eq);
                  remaining_eq = omega (arith, h.remaining_eq);
                  buffer_lt = h.buffer_lt;
                  offset_lt = omega arith;
                })))
        ])

  -- Passing `n` bytes of the present buffer takes the reader to the position `n` bytes further on.
  pub advance-IsAt :
      (n : ℕ) (s : System)
      → IsAt cnt size id bytes p s
      → p.offset + n ≤ size
      → Returns (λ _ t. IsAt cnt size id bytes (walk cnt size n p) t) (advance n s)
  unfolding advance
  advance-IsAt n s h fits =
      subst
        (λ q.
          Returns (λ _ t. IsAt cnt size id bytes (walk cnt size n p) t)
            (pass_bytes n q s.reader.pos s.reader.remaining s))
        (sym h.buf_eq) (pass_bytes-IsAt n s h fits)
