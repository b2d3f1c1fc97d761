-- ===== src/File/Mmap/Pages.antt =====
-- What the user sees through the mappings, page by page.
use mathlib.Core.Option.{some-injective}
use native.Mathlib.Nat.{suc-mul}
use beagle_logic.Base.{
  ℕ, zero, suc, ◌+◌, ◌-◌, ◌*◌, ◌/◌, ◌%◌, ◌≤◌, ◌<◌, ◌≡◌, ap, ◌∙◌, Option, none, some, List, [], ◌∷◌,
  ◌&&◌, leb, ltb, if◌then◌else◌, arith, get_elem?, get_elem?-some, get_elem?_lt,
}
use beagle_logic.Device.{LogicBuffer}
use beagle_logic.File.{UserMapping, map_pages}
use beagle_logic.File.Mmap.{Linear}

-- `remap_pfn_range` maps whole pages: those from the page of its address on, as many as the bytes
-- take, to the page frames from `pfn` on, in order. What stands in a page does not move in it.
unfoldable pub translate : List UserMapping → ℕ → Option ℕ
translate [] a = none
translate (m ∷ ms) a =
    let page = a / 4096 - m.start / 4096 in
    let rest = translate ms a in
    if leb (m.start / 4096) (a / 4096) && ltb page ((m.size + 4095) / 4096)
    then some ((m.pfn + page) * 4096 + a % 4096)
    else rest

-- Each byte of each buffer stands at the user's address for it.
pub record Shows (items : List LogicBuffer) (size addr : ℕ) (maps : List UserMapping) : Type 0 where
  pub shown :
      (j o : ℕ) (b : LogicBuffer)
      → get_elem? items j ≡ some b
      → o < size
      → translate maps (addr + j * size + o) ≡ some (b.phys_addr + o)

translate_first :
    (addr size phys o : ℕ) (ms : List UserMapping)
    → addr % 4096 ≡ 0
    → phys % 4096 ≡ 0
    → o < size
    → translate (map_pages addr (phys / 4096) size ∷ ms) (addr + o) ≡ some (phys + o)
unfolding translate
translate_first addr size phys o ms aligned frame inside = ground (arith, aligned, frame, inside)

translate_past :
    (addr size pfn a : ℕ) (ms : List UserMapping)
    → addr % 4096 ≡ 0
    → size % 4096 ≡ 0
    → addr + size ≤ a
    → translate (map_pages addr pfn size ∷ ms) a ≡ translate ms a
unfolding translate
translate_past addr size pfn a ms aligned whole past = ground (arith, aligned, whole, past)

Linear-tail :
    (items : List LogicBuffer) (i size addr : ℕ) (m : UserMapping) (ms : List UserMapping)
    → Linear items i size addr (m ∷ ms)
    → Linear items (i + 1) size (addr + size) ms
Linear-tail items i size addr m ms h = record {
  reaches = omega (arith, h.reaches);
  placed = λ j b e.
      h.placed (suc j) b (ap (get_elem? items) (shift j) ∙ e)
      ∙ ap (λ a. some (map_pages a (b.phys_addr / 4096) size)) (omega (arith, suc-mul j size));
}
  where
    shift : (j : ℕ) → i + suc j ≡ i + 1 + j
    shift j = omega arith

first_mapping :
    (items : List LogicBuffer) (i size addr : ℕ) (m : UserMapping) (ms : List UserMapping)
    (b : LogicBuffer)
    → Linear items i size addr (m ∷ ms)
    → get_elem? items i ≡ some b
    → m ≡ map_pages addr (b.phys_addr / 4096) size
first_mapping items i size addr m ms b h e =
    some-injective _ _ (h.placed 0 b (ap (get_elem? items) same ∙ e))
    ∙ ap (λ a. map_pages a (b.phys_addr / 4096) size) (omega arith)
  where
    same : i + 0 ≡ i
    same = omega arith

module _ (items : List LogicBuffer) (size : ℕ) (whole : size % 4096 ≡ 0)
    (frames : (j : ℕ) (b : LogicBuffer) → get_elem? items j ≡ some b → b.phys_addr % 4096 ≡ 0) where
  translate-Linear :
      (maps : List UserMapping) (i addr j o : ℕ) (b : LogicBuffer)
      → Linear items i size addr maps
      → addr % 4096 ≡ 0
      → get_elem? items (i + j) ≡ some b
      → o < size
      → translate maps (addr + j * size + o) ≡ some (b.phys_addr + o)
  translate-Linear [] i addr j o b h aligned e inside =
      absurd (omega (arith, h.reaches, get_elem?_lt items (i + j) e))
  translate-Linear (m ∷ ms) i addr zero o b h aligned e inside =
      let here : get_elem? items i ≡ some b = ap (get_elem? items) same ∙ e in
      rw (first_mapping items i size addr m ms b h here) (
        ap (translate (map_pages addr (b.phys_addr / 4096) size ∷ ms)) (at_first)
        ∙ translate_first addr size b.phys_addr o ms aligned (frames i b here) inside)
    where
      same : i ≡ i + 0
      same = omega arith

      at_first : addr + 0 * size + o ≡ addr + o
      at_first = omega arith
  translate-Linear (m ∷ ms) i addr (suc j) o b h aligned e inside =
      let (c, here) = get_elem?-some items i (omega (arith, get_elem?_lt items (i + suc j) e)) in
      rw (first_mapping items i size addr m ms c h here) (
        translate_past addr size (c.phys_addr / 4096) (addr + suc j * size + o) ms aligned whole
          (omega (arith, suc-mul j size))
        ∙ ap (translate ms) onwards
        ∙ translate-Linear ms (i + 1) (addr + size) j o b (Linear-tail items i size addr m ms h)
            (omega (arith, aligned, whole)) (ap (get_elem? items) shift ∙ e) inside)
    where
      onwards : addr + suc j * size + o ≡ addr + size + j * size + o
      onwards = omega (arith, suc-mul j size)

      shift : i + 1 + j ≡ i + suc j
      shift = omega arith

  pub Linear-Shows :
      (addr : ℕ) (maps : List UserMapping)
      → addr % 4096 ≡ 0
      → Linear items 0 size addr maps
      → Shows items size addr maps
  Linear-Shows addr maps aligned h = record {
    shown = λ j o b e inside.
        translate-Linear maps 0 addr j o b h aligned (ap (get_elem? items) (from_zero j) ∙ e)
          inside;
  }
    where
      from_zero : (j : ℕ) → 0 + j ≡ j
      from_zero j = omega arith
