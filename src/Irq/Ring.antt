-- ===== src/Irq/Ring.antt =====
-- The first interrupt on a ring of buffers: where the driver goes, and what becomes of the buffers.
use mathlib.Core.Path.{subst}
use native.Mathlib.Decide.{dec_lt}
use native.Mathlib.Nat.{mod-eq_of_lt, mod_self}
use beagle_logic.Base.{
  ℕ, ◌+◌, ◌%◌, ◌≤◌, ◌<◌, ◌≡◌, refl, sym, ap, ◌∙◌, ◌≢◌, inl, inr, Bool, true, Bool-cases, Option,
  none, some, List, not, ◌==◌, if◌then◌else◌, arith, get_elem?, get_elem?-some,
}
use beagle_logic.Device.{LogicBuffer, BufferArray, Ret}
use beagle_logic.Device.BufState.{mapped, unmapped}
use beagle_logic.System.{Platform, System, done, load, ◌>>=◌}
use beagle_logic.System.Returns.{Returns, returns, bind, weaken}
use beagle_logic.Buffers.Ring.{IsRing, at, load-at, content}
use beagle_logic.Buffers.Update.{
  Updated, Updated-content, Updated-weaken, unmap_buffer-Updated, Mapping, fine, refused,
  map_buffer-Mapping,
}
use beagle_logic.Irq.{goes_on, move_on, take_buffer, buffer_ready, next_ptr}

-- Whether a capture with these flags goes on to buffer `n`: a one-shot capture does not go round.
abbrev pub continues : ℕ → ℕ → Bool
continues flags n = if flags == 0 then not (n == 0) else true

-- The buffer that is being filled after buffer `i` is full.
abbrev pub following : ℕ → ℕ → ℕ → ℕ
following cnt flags i = if continues flags ((i + 1) % cnt) then (i + 1) % cnt else i

-- DMA mapping never reports an error.
abbrev pub MapsAlways : Platform → Type 0
MapsAlways k = (c : ℕ) (va : Option ℕ) (size : ℕ) → k.dma_map_single c va size ≢ none

-- From `s` to `t` the interrupt for buffer `i` has been served.
pub record Served (k : Platform) (cnt size : ℕ) (arr : BufferArray) (i n : ℕ) (s t : System)
    : Type 0 where
  pub items : List LogicBuffer
  pub frame : t ≡ record s {
    calls = t.calls;
    dev = record s.dev {
      buffers = some (record { id = arr.id; items = items });
      lastbufready = some (at arr i);
      bufbeingread = some (at arr n);
    };
  }
  pub ring : IsRing t.dev (record { id = arr.id; items = items }) cnt size
  pub filled : (b : LogicBuffer) → get_elem? items i ≡ some b → b.state ≡ unmapped
  pub next_mapped :
      MapsAlways k → n ≢ i → (b : LogicBuffer) → get_elem? items n ≡ some b → b.state ≡ mapped
  pub others : (j : ℕ) → j ≢ i → j ≢ n → get_elem? items j ≡ get_elem? arr.items j
  pub same_bytes : (j : ℕ) → content items j ≡ content arr.items j

goes_on_lem :
    (arr : BufferArray) (flags n : ℕ) (s : System) {b : LogicBuffer}
    → s.dev.buffers ≡ some arr
    → get_elem? arr.items n ≡ some b
    → b.index ≡ n
    → goes_on flags (some (at arr n)) s ≡ done (continues flags n) s
unfolding goes_on
goes_on_lem arr flags n s e f g = elim (Bool-cases (flags == 0)) [
  | inl h ↦ rw (h, load-at s arr n e f, g)
  | inr h ↦ rw h
]

succ_mod_ne : (i cnt : ℕ) → i < cnt → 2 ≤ cnt → (i + 1) % cnt ≢ i
succ_mod_ne i cnt lt two = elim (dec_lt (i + 1) cnt) [
  | yes p ↦ omega (arith, mod-eq_of_lt p)
  | no p ↦ omega (arith, mod_self cnt, ap (λ (x : ℕ). x % cnt) (one_round p))
]
  where
    one_round : ¬ (i + 1 < cnt) → i + 1 ≡ cnt
    one_round p = omega arith

module _ (k : Platform) (cnt size : ℕ) (arr : BufferArray) where
  -- From `u`, where buffer `i` has been unmapped, the driver moves on to buffer `n`.
  abbrev Between : ℕ → System → System → Type 0
  Between i s u =
      (b : Updated cnt size arr i (λ c. c.state ≡ unmapped)
        (record s { dev = record s.dev { lastbufready = some (at arr i) } }) u)
      × ((j : ℕ) → content b.items j ≡ content arr.items j)

  stay-Served :
      (i : ℕ) (s u : System)
      → s.dev.bufbeingread ≡ some (at arr i)
      → Between i s u
      → Served k cnt size arr i i s u
  stay-Served i s u e b = record {
    items = b.0.items;
    frame = ground (arith, b.0.frame);
    ring = b.0.ring;
    filled = b.0.new;
    next_mapped = λ _ ne. absurd (ne refl);
    others = λ j ne _. b.0.others j (λ q. ne (sym q));
    same_bytes = b.1;
  }

  abbrev moved : ℕ → System → System
  moved n u = record u { dev = record u.dev { bufbeingread = some (at arr n) } }

  abbrev middle : List LogicBuffer → BufferArray
  middle items = record { id = arr.id; items = items }

  mapped-Served :
      (i n : ℕ) (s u : System) (b : Between i s u)
      → n ≢ i
      → n < cnt
      → (ring : IsRing (moved n u).dev (middle b.0.items) cnt size) (c : LogicBuffer)
      → (found : get_elem? b.0.items n ≡ some c) (t : System) {r : Ret}
      → Mapping k cnt size (middle b.0.items) n (moved n u) ring c found r t
      → Served k cnt size arr i n s t
  mapped-Served i n s u b ne n_lt ring c found t (fine _ m) = record {
    items = m.items;
    frame = ground (arith, b.0.frame, m.frame);
    ring = m.ring;
    filled = λ x e. b.0.new x (sym (m.others i ne) ∙ e);
    next_mapped = λ _ _ x e. (m.new x e).0;
    others = λ j ni nn. m.others j (λ q. nn (sym q)) ∙ b.0.others j (λ q. ni (sym q));
    same_bytes = λ j. Updated-content found n_lt (λ _ q. q.1) m j ∙ b.1 j;
  }
  mapped-Served i n s u b ne n_lt ring c found t (refused _ e none_given) = record {
    items = b.0.items;
    frame = ground (arith, b.0.frame, e);
    ring = ground (arith, ring);
    filled = b.0.new;
    next_mapped = λ always. absurd (always _ _ _ none_given);
    others = λ j ni _. b.0.others j (λ q. ni (sym q));
    same_bytes = b.1;
  }

  move-Served :
      (i n : ℕ) (s u : System)
      → n ≢ i
      → n < cnt
      → Between i s u
      → Returns (λ _ t. Served k cnt size arr i n s t) (move_on k true (some (at arr n)) u)
  unfolding move_on
  move-Served i n s u ne lt b =
      let (c, found) = get_elem?-some b.0.items n (omega (arith, b.0.ring.length_eq)) in
      bind
        (map_buffer-Mapping k cnt size (middle b.0.items) n (moved n u) (ground (arith, b.0.ring)) c
          found)
        (λ _ t m. returns (mapped-Served i n s u b ne lt (ground (arith, b.0.ring)) c found t m))

  rest-Served :
      (flags i : ℕ) (s u : System)
      → s.dev.bufbeingread ≡ some (at arr i)
      → i < cnt
      → (h : Between i s u)
      → Returns
          (λ _ t. Served k cnt size arr i (following cnt flags i) s t)
          ((load (some (at arr i)) >>= λ b. goes_on flags (next_ptr (some (at arr i)) b) >>= λ more.
              move_on k more (next_ptr (some (at arr i)) b))
            u)
  unfolding move_on
  rest-Served flags i s u e lt h =
      let n : ℕ = (i + 1) % cnt in
      let (b, found) = get_elem?-some h.0.items i (omega (arith, h.0.ring.length_eq)) in
      let (c, there) =
        get_elem?-some h.0.items n (omega (arith, h.0.ring.length_eq, h.0.ring.two)) in
      rw
        (load-at u (middle h.0.items) i h.0.ring.present found, (h.0.ring.placed i b found).next_eq)
        (rw
          (goes_on_lem (middle h.0.items) flags n u h.0.ring.present there
            (h.0.ring.placed n c there).index_eq)
          (elim (Bool-cases (continues flags n)) [
            | inl go ↦ rw go (
                move-Served i n s u (omega (arith, succ_mod_ne i cnt lt h.0.ring.two))
                  (omega (arith, h.0.ring.two)) h)
            | inr stop ↦ rw stop (returns (stay-Served i s u e h))
          ]))

  -- Serving the interrupt for buffer `i` of a ring returns, with buffer `i` unmapped and buffer
  -- `following cnt flags i` being filled.
  take_buffer-Served :
      (flags i : ℕ) (s : System)
      → s.dev.bufbeingread ≡ some (at arr i)
      → IsRing s.dev arr cnt size
      → i < cnt
      → Returns
          (λ _ t. Served k cnt size arr i (following cnt flags i) s t)
          (take_buffer k flags (some (at arr i)) s)
  unfolding take_buffer Updated-weaken
  take_buffer-Served flags i s e ring lt =
      let (b, found) = get_elem?-some arr.items i (omega (arith, ring.length_eq)) in
      bind
        (weaken (unmap_buffer-Updated cnt size arr i _ (ground (arith, ring)) b found) (λ _ u h. (
          Updated-weaken (λ c q. ap (λ (x : LogicBuffer). x.state) q) h,
          Updated-content found lt (λ c q. ap (λ (x : LogicBuffer). x.mem) q) h,
        )))
        (λ _ u h. rest-Served flags i s u e lt h)

  pub buffer_ready-Served :
      (i : ℕ) (s : System)
      → s.dev.bufbeingread ≡ some (at arr i)
      → IsRing s.dev arr cnt size
      → i < cnt
      → Returns
          (λ _ t. Served k cnt size arr i (following cnt s.dev.triggerflags i) s t)
          (buffer_ready k s)
  unfolding buffer_ready
  buffer_ready-Served i s e ring lt =
      subst
        (λ p.
          Returns (λ _ t. Served k cnt size arr i (following cnt s.dev.triggerflags i) s t)
            (take_buffer k s.dev.triggerflags p s))
        (sym e) (take_buffer-Served s.dev.triggerflags i s e ring lt)
