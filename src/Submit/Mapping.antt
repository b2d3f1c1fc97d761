-- ===== src/Submit/Mapping.antt =====
-- The mapping loop of `beaglelogic_map_and_submit_all_buffers`, and its undoing.
use native.Mathlib.Decide.{ℕ_discrete}
use beagle_logic.Base.{
  ℕ, zero, suc, ◌+◌, ◌≤◌, ◌<◌, ◌≡◌, refl, sym, ap, ◌∙◌, inl, inr, ◌⊎◌, Option, none, some, List,
  arith, get_elem?, get_elem?-some,
}
use beagle_logic.Device.{LogicBuffer, BufferArray, BufState, Ret, is_failure}
use beagle_logic.Device.BufState.{mapped, unmapped}
use beagle_logic.System.{Platform, System, element}
use beagle_logic.System.Returns.{Returns, returns, bind, weaken}
use beagle_logic.Buffers.Ring.{IsRing, at}
use beagle_logic.Buffers.Update.{
  Updated, unmap_buffer-Updated, Mapping, fine, refused, map_buffer-Mapping,
}
use beagle_logic.Submit.{map_from, unmap_from, go_on_or_fail}

-- From `s` to `t` the elements from `i` up to `m` have come to the buffer state `st`; the others
-- are as they were, and so is the rest of the device.
pub record Swept (cnt size id : ℕ) (old : List LogicBuffer) (st : BufState) (i m : ℕ) (s t : System)
    : Type 0 where
  pub items : List LogicBuffer
  pub frame : t ≡ record s {
    calls = t.calls;
    dev = record s.dev { buffers = some (record { id = id; items = items }) };
  }
  pub ring : IsRing t.dev (record { id = id; items = items }) cnt size
  pub swept : (j : ℕ) (b : LogicBuffer) → i ≤ j → j < m → get_elem? items j ≡ some b → b.state ≡ st
  pub others : (j : ℕ) → (j < i) ⊎ (m ≤ j) → get_elem? items j ≡ get_elem? old j

module _ (cnt size id : ℕ) where
  abbrev array : List LogicBuffer → BufferArray
  array items = record { id = id; items = items }

  Swept-none :
      (old : List LogicBuffer) (st : BufState) (i m : ℕ) (s t : System)
      → m ≤ i
      → IsRing s.dev (array old) cnt size
      → t ≡ record s { calls = t.calls }
      → Swept cnt size id old st i m s t
  Swept-none old st i m s t le ring e = record {
    items = old;
    frame = ground (arith, ring.present);
    ring = ground (arith, ring);
    swept = λ j b le' lt _. absurd (omega arith);
    others = λ j _. refl;
  }

  -- One element more, at the front.
  Swept-cons :
      (old : List LogicBuffer) (st : BufState) (i m : ℕ) (s u t : System)
      → {P : LogicBuffer → Type 0} → i < m
      → ((c : LogicBuffer) → P c → c.state ≡ st)
      → (up : Updated cnt size (array old) i P s u) → Swept cnt size id up.items st (i + 1) m u t
      → Swept cnt size id old st i m s t
  Swept-cons old st i m s u t lt keeps up sw = record {
    items = sw.items;
    frame = ground (arith, up.frame, sw.frame);
    ring = sw.ring;
    swept = λ j b le lt' e. by_place j b le lt' e (ℕ_discrete i j);
    others = λ j out. outside j out;
  }
    where
      by_place :
          (j : ℕ) (b : LogicBuffer)
          → i ≤ j
          → j < m
          → get_elem? sw.items j ≡ some b
          → Dec (i ≡ j)
          → b.state ≡ st
      by_place j b le lt' e (yes q) =
          keeps b (up.new b (sym (sw.others i (inl (omega arith))) ∙ ap (get_elem? sw.items) q ∙ e))
      by_place j b le lt' e (no q) = sw.swept j b (omega arith) lt' e

      outside : (j : ℕ) → (j < i) ⊎ (m ≤ j) → get_elem? sw.items j ≡ get_elem? old j
      outside j (inl h) = sw.others j (inl (omega arith)) ∙ up.others j (omega arith)
      outside j (inr h) = sw.others j (inr h) ∙ up.others j (omega arith)

  -- The platform has refused to map the buffer `m` when it was asked to.
  abbrev pub Refuses : Platform → List LogicBuffer → ℕ → Type 0
  Refuses k old m =
      (b : LogicBuffer) × (c : ℕ) × (get_elem? old m ≡ some b)
      × (k.dma_map_single c b.buf b.size ≡ none)

  -- How far the mapping loop has come.
  pub data Mapped (k : Platform) (old : List LogicBuffer) (i : ℕ) (s : System) (o : Option ℕ)
      (t : System) : Type 0 where
    all : o ≡ none → Swept cnt size id old mapped i cnt s t → Mapped k old i s o t
    up_to :
        (m : ℕ)
        → Refuses k old m
        → o ≡ some m
        → i ≤ m
        → m < cnt
        → Swept cnt size id old mapped i m s t
        → Mapped k old i s o t

  element-at :
      (items : List LogicBuffer) (s : System) (i : ℕ)
      → IsRing s.dev (array items) cnt size
      → element s.dev i ≡ some (at (array items) i)
  element-at items s i ring = ground (arith, ring.present)

  pub map_from-Mapped :
      (k : Platform) (n i : ℕ) (old : List LogicBuffer) (s : System)
      → i + n ≡ cnt
      → IsRing s.dev (array old) cnt size
      → Returns (λ o t. Mapped k old i s o t) (map_from k n i s)
  unfolding map_from
  map_from-Mapped k zero i old s e ring =
      returns (all refl (Swept-none old mapped i cnt s s (omega arith) ring refl))
  map_from-Mapped k (suc n) i old s e ring =
      let (b, found) = get_elem?-some old i (omega (arith, ring.length_eq)) in
      rw (element-at old s i ring) (
        bind (map_buffer-Mapping k cnt size (array old) i s ring b found)
          (λ r u m. go r u b found (map_from-Mapped k n (i + 1)) m))
    where
      go :
          (r : Ret) (u : System) (b : LogicBuffer) (found : get_elem? old i ≡ some b)
          → ((now : List LogicBuffer) (v : System)
              → i + 1 + n ≡ cnt
              → IsRing v.dev (array now) cnt size
              → Returns (λ o t. Mapped k now (i + 1) v o t) (map_from k n (i + 1) v))
          → Mapping k cnt size (array old) i s ring b found r u
          → Returns
              (λ o t. Mapped k old i s o t)
              (go_on_or_fail (is_failure r) i (map_from k n (i + 1)) u)
      go r u b found next (fine f up) =
          rw f (weaken (next up.items u (omega arith) up.ring) (λ o t m. extend o t m))
        where
          extend :
              (o : Option ℕ) (t : System) → Mapped k up.items (i + 1) u o t → Mapped k old i s o t
          extend o t (all q sw) =
              all q (Swept-cons old mapped i cnt s u t (omega arith) (λ c p. p.0) up sw)
          extend o t (up_to m (c, n, there, none_given) q le lt sw) =
              up_to m (c, n, sym (up.others m (omega arith)) ∙ there, none_given) q (omega arith) lt
                (Swept-cons old mapped i m s u t (omega arith) (λ c p. p.0) up sw)
      go r u b found next (refused f q none_given) = rw f (
          returns (
            up_to i (b, _, found, none_given) refl (omega arith) (omega arith)
              (Swept-none old mapped i i s u (omega arith) ring q)))

  pub unmap_from-Swept :
      (n i m : ℕ) (old : List LogicBuffer) (s : System)
      → i + n ≡ m
      → m ≤ cnt
      → IsRing s.dev (array old) cnt size
      → Returns (λ _ t. Swept cnt size id old unmapped i m s t) (unmap_from n i s)
  unfolding unmap_from
  unmap_from-Swept zero i m old s e le ring =
      returns (Swept-none old unmapped i m s s (omega arith) ring refl)
  unmap_from-Swept (suc n) i m old s e le ring =
      let (b, found) = get_elem?-some old i (omega (arith, ring.length_eq)) in
      rw (element-at old s i ring) (
        bind (unmap_buffer-Updated cnt size (array old) i s ring b found) (λ _ u up.
          weaken (unmap_from-Swept n (i + 1) m up.items u (omega arith) le up.ring) (λ _ t sw.
            Swept-cons old unmapped i m s u t (omega arith)
              (λ c q. ap (λ (x : LogicBuffer). x.state) q) up sw)))
