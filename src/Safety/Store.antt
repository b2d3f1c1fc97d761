-- ===== src/Safety/Store.antt =====
-- Operations on one buffer: a store that leaves the placement and the block of a buffer, mapping
-- and unmapping, and the test pattern.
use mathlib.Core.Option.{some-injective}
use beagle_logic.Base.{
  ℕ, zero, suc, ◌+◌, ◌≡◌, refl, sym, ap, ◌∙◌, inl, inr, Bool-cases, Option-cases, Option, none,
  some, List, [], ◌∷◌, arith, count, get_elem?, set, length, length-set, ◌*◌, ◌/◌, ◌++◌,
  length-append, length-drop, drop, u32, Bool,
}
use beagle_logic.Device.{
  LogicBuffer, DeviceState, BufState, BufferArray, BufPtr, BeagleLogicDev, is_mapped,
}
use beagle_logic.System.{
  Platform, System, M, element, read_dev, load, store, set_at, set_buffer, set_in, find_buffer,
  find_in, dma_map_single, ◌>>=◌,
}
use beagle_logic.Device.BufState.{mapped, unmapped}
use beagle_logic.System.Keeps.{After, Keeps, After-bind, Keeps-bind, Keeps-pure, Keeps-read_dev}
use beagle_logic.Submit.{fill_from, pattern_bytes}
use beagle_logic.Buffers.{map_buffer, unmap_buffer}
use beagle_logic.Buffers.Ring.{IsRing, AllPlaced-set, HoldsRing}
use beagle_logic.Buffers.Alloc.{blocks}
use beagle_logic.Safety.{Sound, SoundIn, held, Sound-rest}

-- The buffer may be stored in place of the other one.
pub record Replaces (b' b : LogicBuffer) : Type 0 where
  pub index_same : b'.index ≡ b.index
  pub next_same : b'.next ≡ b.next
  pub size_same : b'.size ≡ b.size
  pub length_same : length b'.mem ≡ length b.mem
  pub buf_same : b'.buf ≡ b.buf

blocks-set :
    (items : List LogicBuffer) (i : ℕ) (b b' : LogicBuffer)
    → get_elem? items i ≡ some b
    → b'.buf ≡ b.buf
    → blocks (set items i b') ≡ blocks items
blocks-set [] i b b' e same = refl
blocks-set (x ∷ xs) zero b b' e same =
    ap (λ o. elim o [ none ↦ blocks xs | some p ↦ p ∷ blocks xs ])
      (same ∙ ap (λ (c : LogicBuffer). c.buf) (sym (some-injective x b e)))
blocks-set (x ∷ xs) (suc i) b b' e same =
    ap (λ ys. elim x.buf [ none ↦ ys | some p ↦ p ∷ ys ]) (blocks-set xs i b b' e same)

-- A buffer that is found is an element of the ring.
found_in :
    (p : BufPtr) (arr : BufferArray) (d : BeagleLogicDev) {b : LogicBuffer}
    → d.buffers ≡ some arr
    → find_buffer d (some p) ≡ some b
    → get_elem? arr.items p.index ≡ some b
found_in p arr d e f = ground arith

set_buffer-IsRing :
    (p : BufPtr) (arr : BufferArray) (cnt size : ℕ) (b b' : LogicBuffer) (d : BeagleLogicDev)
    → IsRing d arr cnt size
    → get_elem? arr.items p.index ≡ some b
    → Replaces b' b
    → IsRing (set_buffer d p b') (record arr { items = set arr.items p.index b' }) cnt size
set_buffer-IsRing p arr cnt size b b' d ring e r = record {
  present = ground (arith, ring.present);
  count_eq = ring.count_eq;
  length_eq = length-set arr.items p.index b' ∙ ring.length_eq;
  two = ring.two;
  nonempty = ring.nonempty;
  placed =
      AllPlaced-set cnt size arr.items p.index b' ring.placed
        (ground (arith, ring.placed p.index b e, r));
}

set_at-HoldsRing :
    (p : BufPtr) (b b' : LogicBuffer) (s : System)
    → find_buffer s.dev (some p) ≡ some b
    → Replaces b' b
    → HoldsRing s.dev
    → HoldsRing (set_buffer s.dev p b')
set_at-HoldsRing p b b' s e r (inl none_there) = inl (ground arith)
set_at-HoldsRing p b b' s e r (inr (arr, cnt, size, ring)) = inr (
  record arr { items = set arr.items p.index b' },
  cnt,
  size,
  set_buffer-IsRing p arr cnt size b b' s.dev ring (found_in p arr s.dev ring.present e) r,
)

held-set :
    (p : BufPtr) (b b' : LogicBuffer) (o : Option BufferArray)
    → find_in p o ≡ some b
    → b'.buf ≡ b.buf
    → held (set_in p b' o) ≡ held o
held-set p b b' none e same = refl
held-set p b b' (some arr) e same = blocks-set arr.items p.index b b' (ground arith) same

pub set_at-Sound :
    (p : Option BufPtr) (b b' : LogicBuffer) (s : System)
    → find_buffer s.dev p ≡ some b
    → Replaces b' b
    → Sound s
    → Sound (record s { dev = set_at s.dev p b' })
set_at-Sound none b b' s e r h = cc
set_at-Sound (some p) b b' s e r h = record {
  ring = set_at-HoldsRing p b b' s e r h.ring;
  owned = λ a. h.owned a ∙ ap (count a) (sym (held-set p b b' s.dev.buffers e r.buf_same));
  rate_pos = h.rate_pos;
  rate_le = h.rate_le;
  unit_le = h.unit_le;
  flags_le = h.flags_le;
  running_locked = h.running_locked;
}

-- The bytes of a buffer that is found.
loaded_length :
    (p : Option BufPtr) (b : LogicBuffer) (s : System)
    → find_buffer s.dev p ≡ some b
    → HoldsRing s.dev
    → length b.mem ≡ b.size
loaded_length none b s e h = cc
loaded_length (some p) b s e (inl none_there) = absurd (ground arith)
loaded_length (some p) b s e (inr (arr, cnt, size, ring)) =
    let q = ring.placed p.index b (found_in p arr s.dev ring.present e) in q.mem_eq ∙ sym q.size_eq

pub length-pattern_bytes : (n cnt : ℕ) → length (pattern_bytes n cnt) ≡ 4 * n
unfolding pattern_bytes
length-pattern_bytes zero cnt = refl
length-pattern_bytes (suc n) cnt = omega (arith, length-pattern_bytes n (u32 (cnt + 1)))

-- A buffer with the test pattern over its words.
abbrev pub patterned : LogicBuffer → ℕ → LogicBuffer
patterned b cnt = record b { mem = pattern_bytes (b.size / 4) cnt ++ drop (4 * (b.size / 4)) b.mem }

pub patterned-Replaces :
    (b : LogicBuffer) (cnt : ℕ) → length b.mem ≡ b.size → Replaces (patterned b cnt) b
patterned-Replaces b cnt e = record {
  index_same = refl;
  next_same = refl;
  size_same = refl;
  length_same =
      length-append (pattern_bytes (b.size / 4) cnt) (drop (4 * (b.size / 4)) b.mem)
      ∙ omega (arith, length-pattern_bytes (b.size / 4) cnt, length-drop (4 * (b.size / 4)) b.mem);
  buf_same = refl;
}

pub same-Replaces :
    (b : LogicBuffer) (st : BufState) (a : ℕ) → Replaces (record b { state = st; phys_addr = a }) b
same-Replaces b st a = record {
  index_same = refl;
  next_same = refl;
  size_same = refl;
  length_same = refl;
  buf_same = refl;
}

module _ (R : Bool → DeviceState → Type 0) where
  -- Code that goes on with a buffer that it has loaded.
  pub Keeps-load :
      {A : Type 0} (p : Option BufPtr) (f : LogicBuffer → M A)
      → ((b : LogicBuffer) (s : System)
          → find_buffer s.dev p ≡ some b
          → SoundIn R s
          → After (SoundIn R) (SoundIn R) (f b s))
      → Keeps (SoundIn R) (load p >>= f)
  unfolding load
  Keeps-load p f h = record {
    at = λ s g. elim (Option-cases (find_buffer s.dev p)) [
      | inl e ↦ rw (e, After) tt
      | inr (b, e) ↦ rw (e, After) (h b s e g)
    ];
  }

  -- Code that only reads a buffer.
  pub Keeps-look :
      {A : Type 0} (p : Option BufPtr) (f : LogicBuffer → M A)
      → ((b : LogicBuffer) → Keeps (SoundIn R) (f b))
      → Keeps (SoundIn R) (load p >>= f)
  Keeps-look p f h = Keeps-load p f (λ b s e g. (h b).at s g)

  pub store-SoundIn :
      (p : Option BufPtr) (b b' : LogicBuffer) (s : System)
      → find_buffer s.dev p ≡ some b
      → Replaces b' b
      → SoundIn R s
      → After (SoundIn R) (SoundIn R) (store p b' s)
  unfolding store
  store-SoundIn none b b' s e r (h, c) = cc
  store-SoundIn (some p) b b' s e r (h, c) = (set_at-Sound (some p) b b' s e r h, c)

  pub Keeps-unmap_buffer : (p : Option BufPtr) → Keeps (SoundIn R) (unmap_buffer p)
  unfolding unmap_buffer
  Keeps-unmap_buffer p =
      Keeps-load p _ (λ b s e g. store-SoundIn p b _ s e (same-Replaces b unmapped b.phys_addr) g)

  pub Keeps-map_buffer : (k : Platform) (p : Option BufPtr) → Keeps (SoundIn R) (map_buffer k p)
  unfolding map_buffer dma_map_single
  Keeps-map_buffer k p = Keeps-load p _ (λ b s e g. elim (Bool-cases (is_mapped b.state)) [
    | inl f ↦ rw (f, After) g
    | inr f ↦ elim (Option-cases (k.dma_map_single s.calls b.buf b.size)) [
      | inl o ↦ rw (f, o, After) (Sound-rest s.reader (s.calls + 1) s.events s g.0, g.1)
      | inr (a, o) ↦
          rw (f, o, After)
            (After-bind _ _ _
              (store p (record b { state = mapped; phys_addr = a })
                (record s { calls = s.calls + 1 }))
              _
              (store-SoundIn p b _ (record s { calls = s.calls + 1 }) e (same-Replaces b mapped a)
                (Sound-rest s.reader (s.calls + 1) s.events s g.0, g.1))
              (λ _ t h. h))
    ]
  ])

  pub Keeps-fill_from : (n i cnt : ℕ) → Keeps (SoundIn R) (fill_from n i cnt)
  unfolding fill_from
  Keeps-fill_from zero i cnt = Keeps-pure tt
  Keeps-fill_from (suc n) i cnt = Keeps-bind read_dev _ Keeps-read_dev (λ d.
      Keeps-load (element d i) _ (λ b s e g.
        After-bind _ _ _ (store (element d i) (patterned b cnt) s) _
          (store-SoundIn (element d i) b (patterned b cnt) s e
            (patterned-Replaces b cnt (loaded_length (element d i) b s e g.0.ring)) g)
          (λ _ t h. (Keeps-fill_from n (i + 1) (u32 (cnt + b.size / 4))).at t h)))
