-- ===== src/Buffers/Update.antt =====
-- Operations that rewrite one element of the ring: a store, `beaglelogic_map_buffer` and
-- `beaglelogic_unmap_buffer`.
use beagle_logic.Base.{
  ℕ, ◌+◌, ◌≡◌, refl, sym, ◌∙◌, ◌≢◌, inl, inr, false, Bool-cases, Option, none, some, arith,
  get_elem?, set, length-set, get_elem?-set_self, get_elem?-set_ne, get_elem?_lt, List, ◌<◌, [],
  get_elem?-some, ap,
}
use mathlib.Core.Path.{subst}
use mathlib.Core.Option.{some-injective}
use native.Mathlib.Decide.{ℕ_discrete}
use beagle_logic.Device.{LogicBuffer, BufferArray, Ret, ret, err, minus_one, is_mapped}
use beagle_logic.Device.BufState.{mapped, unmapped}
use beagle_logic.System.{Platform, System, store, dma_map_single}
use beagle_logic.System.Returns.{Returns, returns, bind}
use beagle_logic.Buffers.{map_buffer, unmap_buffer}
use beagle_logic.Buffers.Ring.{IsPlaced, IsRing, AllPlaced-set, at, load-at, content, content_of}

-- From `s` to `t` element `i` of the ring `arr` has become one that satisfies `P`; the other
-- elements are as they were, and the rest of the state too, up to the count of platform calls.
pub record Updated (cnt size : ℕ) (arr : BufferArray) (i : ℕ) (P : LogicBuffer → Type 0)
    (s t : System) : Type 0 where
  pub items : List LogicBuffer
  pub frame : t ≡ record s {
    calls = t.calls;
    dev = record s.dev { buffers = some (record { id = arr.id; items = items }) };
  }
  pub ring : IsRing t.dev (record { id = arr.id; items = items }) cnt size
  pub new : (b : LogicBuffer) → get_elem? items i ≡ some b → P b
  pub others : (j : ℕ) → i ≢ j → get_elem? items j ≡ get_elem? arr.items j

module _ (cnt size : ℕ) (arr : BufferArray) (i : ℕ) (P : LogicBuffer → Type 0) (s : System)
    (ring : IsRing s.dev arr cnt size) (b : LogicBuffer)
    (found : get_elem? arr.items i ≡ some b) where
  untouched : P b → Updated cnt size arr i P s s
  untouched p = record {
    items = arr.items;
    frame = ground (arith, ring.present);
    ring = ring;
    new = λ c e. subst P (some-injective _ _ (sym found ∙ e)) p;
    others = λ j _. refl;
  }

  pub store-Updated :
      (b' : LogicBuffer)
      → IsPlaced cnt size i b'
      → P b'
      → Returns (λ _ t. Updated cnt size arr i P s t) (store (some (at arr i)) b' s)
  unfolding store
  store-Updated b' placed p = returns (record {
    items = set arr.items i b';
    frame = ground (arith, ring.present);
    ring = record {
      present = ground (arith, ring.present);
      count_eq = ring.count_eq;
      length_eq = length-set arr.items i b' ∙ ring.length_eq;
      two = ring.two;
      nonempty = ring.nonempty;
      placed = AllPlaced-set cnt size arr.items i b' ring.placed placed;
    };
    new = λ c e.
        subst P
          (some-injective _ _
            (sym (get_elem?-set_self arr.items i b' (get_elem?_lt arr.items i found)) ∙ e))
          p;
    others = λ j ne. get_elem?-set_ne arr.items b' ne;
  })

unfoldable pub Updated-weaken :
    {cnt size : ℕ} {arr : BufferArray} {i : ℕ} {P Q : LogicBuffer → Type 0} {s t : System}
    → ((c : LogicBuffer) → P c → Q c)
    → Updated cnt size arr i P s t
    → Updated cnt size arr i Q s t
Updated-weaken f u = record {
  items = u.items;
  frame = u.frame;
  ring = u.ring;
  new = λ c e. f c (u.new c e);
  others = u.others;
}

Updated-calls :
    {cnt size : ℕ} {arr : BufferArray} {i : ℕ} {P : LogicBuffer → Type 0} {s t : System} (n : ℕ)
    → Updated cnt size arr i P (record s { calls = n }) t
    → Updated cnt size arr i P s t
Updated-calls n u = record {
  items = u.items;
  frame = ground (arith, u.frame);
  ring = u.ring;
  new = u.new;
  others = u.others;
}

-- If the new element has the bytes of the old one, no byte of the ring has changed.
pub Updated-content :
    {cnt size : ℕ} {arr : BufferArray} {i : ℕ} {P : LogicBuffer → Type 0} {s t : System}
    {b : LogicBuffer}
    → get_elem? arr.items i ≡ some b
    → i < cnt
    → ((c : LogicBuffer) → P c → c.mem ≡ b.mem)
    → (u : Updated cnt size arr i P s t) (j : ℕ) → content u.items j ≡ content arr.items j
Updated-content {arr} {i} found lt same u j = elim (ℕ_discrete i j) [
  | yes e ↦
      let (c, there) = get_elem?-some u.items i (omega (arith, u.ring.length_eq)) in
      subst (λ x. content u.items x ≡ content arr.items x) e
        (content_of u.items i there ∙ same c (u.new c there) ∙ sym (content_of arr.items i found))
  | no e ↦ ap (λ (o : Option LogicBuffer). elim o [ none ↦ [] | some x ↦ x.mem ]) (u.others j e)
]

module _ (cnt size : ℕ) (arr : BufferArray) (i : ℕ) (s : System) (ring : IsRing s.dev arr cnt size)
    (b : LogicBuffer) (found : get_elem? arr.items i ≡ some b) where
  pub unmap_buffer-Updated :
      Returns
        (λ _ t. Updated cnt size arr i (λ c. c ≡ record b { state = unmapped }) s t)
        (unmap_buffer (some (at arr i)) s)
  unfolding unmap_buffer
  unmap_buffer-Updated = rw (load-at s arr i ring.present found) (
      store-Updated cnt size arr i _ s ring b found (record b { state = unmapped })
        (ground (arith, ring.placed i b found)) refl)

module _ (k : Platform) (cnt size : ℕ) (arr : BufferArray) (i : ℕ) (s : System)
    (ring : IsRing s.dev arr cnt size) (b : LogicBuffer)
    (found : get_elem? arr.items i ≡ some b) where
  -- The element is the old one, except for what the mapping sets.
  abbrev pub IsMappedFrom : LogicBuffer → Type 0
  IsMappedFrom c = (c.state ≡ mapped) × (c.mem ≡ b.mem) × (c.buf ≡ b.buf)

  -- What `map_buffer` does: the element is mapped, or the platform has refused and nothing changed.
  pub data Mapping (r : Ret) (t : System) : Type 0 where
    fine : r ≡ ret 0 → Updated cnt size arr i IsMappedFrom s t → Mapping r t
    refused :
        r ≡ err minus_one
        → t ≡ record s { calls = t.calls }
        → k.dma_map_single s.calls b.buf b.size ≡ none
        → Mapping r t

  map_unmapped :
      is_mapped b.state ≡ false
      → (o : Option ℕ) → k.dma_map_single s.calls b.buf b.size ≡ o
      → Returns Mapping (map_buffer k (some (at arr i)) s)
  unfolding map_buffer dma_map_single
  map_unmapped e none f =
      rw (load-at s arr i ring.present found, e, f) (returns (refused refl refl f))
  map_unmapped e (some a) f =
      rw (load-at s arr i ring.present found, e, f)
        (bind
          (store-Updated cnt size arr i IsMappedFrom (record s { calls = s.calls + 1 }) ring b found
            (record b { phys_addr = a; state = mapped }) (ground (arith, ring.placed i b found))
            (refl, refl, refl))
          (λ _ t u. returns (fine refl (Updated-calls (s.calls + 1) u))))

  pub map_buffer-Mapping : Returns Mapping (map_buffer k (some (at arr i)) s)
  unfolding map_buffer
  map_buffer-Mapping = elim (Bool-cases (is_mapped b.state)) [
    | inl e ↦
        rw (load-at s arr i ring.present found, e)
          (returns
            (fine refl (untouched cnt size arr i _ s ring b found (ground arith, refl, refl))))
    | inr e ↦ map_unmapped e _ refl
  ]
