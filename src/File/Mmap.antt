-- ===== src/File/Mmap.antt =====
-- `beaglelogic_f_mmap`: the buffers stand one behind the other in the user's memory.
pub mod Pages
use mathlib.Core.Path.{subst}
use mathlib.Core.Option.{some-injective}
use native.Mathlib.Nat.{suc-mul}
use beagle_logic.Base.{
  ℕ, zero, suc, ◌+◌, ◌*◌, ◌/◌, ◌≤◌, ◌≡◌, refl, true, List, ◌∷◌, some, arith, length, get_elem?,
  get_elem?-some, ltb-false, u32, ap, sym, ◌∙◌, get_elem?_lt, ◌%◌,
}
use beagle_logic.Device.{BufferArray, LogicBuffer, ret}
use beagle_logic.System.{Platform, System, remap_pfn_range, done}
use beagle_logic.System.Returns.{Returns, returns, bind}
use beagle_logic.Buffers.Ring.{IsRing, AllPlaced, load-element}
use beagle_logic.File.{f_mmap, remap_from, UserMapping, map_pages}

-- From the user's address `addr` on, buffer `i` and those behind it.
pub record Linear (items : List LogicBuffer) (i size addr : ℕ) (maps : List UserMapping)
    : Type 0 where
  pub reaches : i + length maps ≡ length items
  pub placed :
      (j : ℕ) (b : LogicBuffer)
      → get_elem? items (i + j) ≡ some b
      → get_elem? maps j ≡ some (map_pages (addr + j * size) (b.phys_addr / 4096) size)

Linear-cons :
    (items : List LogicBuffer) (i size addr : ℕ) (b : LogicBuffer) (maps : List UserMapping)
    → get_elem? items i ≡ some b
    → Linear items (i + 1) size (addr + size) maps
    → Linear items i size addr (map_pages addr (b.phys_addr / 4096) size ∷ maps)
Linear-cons items i size addr b maps e h = record {
  reaches = omega (arith, h.reaches);
  placed = by_index;
}
  where
    same : (j : ℕ) (c : LogicBuffer) → get_elem? items (i + j) ≡ some c → j ≡ 0 → b ≡ c
    same j c f zero_j =
        some-injective b c (sym e ∙ subst (λ m. get_elem? items m ≡ some c) (omega arith) f)

    by_index :
        (j : ℕ) (c : LogicBuffer)
        → get_elem? items (i + j) ≡ some c
        → get_elem? (map_pages addr (b.phys_addr / 4096) size ∷ maps) j
          ≡ some (map_pages (addr + j * size) (c.phys_addr / 4096) size)
    by_index zero c f = ap some (
        ap (λ a. map_pages a (b.phys_addr / 4096) size) (omega arith)
        ∙ ap (λ (d : LogicBuffer). map_pages (addr + 0 * size) (d.phys_addr / 4096) size)
            (same zero c f (omega arith)))
    by_index (suc j) c f =
        h.placed j c (subst (λ m. get_elem? items m ≡ some c) (omega arith) f)
        ∙ ap (λ a. some (map_pages a (c.phys_addr / 4096) size)) (omega (arith, suc-mul j size))

module _ (k : Platform) (arr : BufferArray) (cnt size : ℕ)
    (grants : (c a pfn n : ℕ) → a % 4096 ≡ 0 → k.remap_pfn_range c a pfn n ≡ true)
    (whole : size % 4096 ≡ 0) where
  remap_granted :
      (a pfn n : ℕ) (s : System)
      → a % 4096 ≡ 0
      → remap_pfn_range k a pfn n s ≡ done true (record s { calls = s.calls + 1 })
  unfolding remap_pfn_range
  remap_granted a pfn n s aligned =
      ap (λ g. done g (record s { calls = s.calls + 1 })) (grants s.calls a pfn n aligned)

  remap_from-Linear :
      (n i addr : ℕ) (s : System)
      → s.dev.buffers ≡ some arr
      → AllPlaced cnt size arr.items
      → i + n ≡ length arr.items
      → addr % 4096 ≡ 0
      → Returns
          (λ r t.
            (r.0 ≡ ret 0) × Linear arr.items i size addr r.1 × (t ≡ record s { calls = t.calls }))
          (remap_from k n i addr s)
  unfolding remap_from
  remap_from-Linear zero i addr s e placed h aligned = returns (
    refl,
    record {
      reaches = omega (arith, h);
      placed = λ j b f. absurd (omega (arith, get_elem?_lt arr.items (i + j) f));
    },
    refl,
  )
  remap_from-Linear (suc n) i addr s e placed h aligned =
      let (b, at_i) = get_elem?-some arr.items i (omega arith) in
      rw (load-element s arr i e at_i) (
        rw (remap_granted addr (b.phys_addr / 4096) b.size s aligned) (
          rw ((placed i b at_i).size_eq) (
            bind
              (remap_from-Linear n (i + 1) (addr + size) (record s { calls = s.calls + 1 }) e placed
                (omega arith) (omega (arith, aligned, whole)))
              (λ r t (fine, rest, frame).
                returns (
                  fine,
                  Linear-cons arr.items i size addr b r.1 at_i rest,
                  ground (arith, frame),
                )))))

  pub f_mmap-Linear :
      (start len : ℕ) (s : System)
      → IsRing s.dev arr cnt size
      → len ≤ u32 (s.dev.bufunitsize * s.dev.bufcount)
      → start % 4096 ≡ 0
      → Returns
          (λ r t.
            (r.0 ≡ ret 0) × Linear arr.items 0 size start r.1 × (t ≡ record s { calls = t.calls }))
          (f_mmap k start len s)
  unfolding f_mmap
  f_mmap-Linear start len s ring le aligned =
      rw (ltb-false (u32 (s.dev.bufunitsize * s.dev.bufcount)) len le) (
        remap_from-Linear s.dev.bufcount 0 start s ring.present ring.placed
          (omega (arith, ring.count_eq, ring.length_eq)) aligned)
