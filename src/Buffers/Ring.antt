-- ===== src/Buffers/Ring.antt =====
-- The ring of sample buffers: an array in which element `i` has index `i` and links to the next
-- one round the end.
use beagle_logic.Base.{
  ℕ, ◌+◌, ◌%◌, ◌≤◌, ◌<◌, ◌≡◌, ◌⊎◌, none, sym, ◌∙◌, some, List, [], arith, length, get_elem?, set,
  length-set, get_elem?-set_self, get_elem?-set_ne, get_elem?_lt, some,
}
use native.Mathlib.Decide.{ℕ_discrete}
use beagle_logic.Device.{LogicBuffer, BufferArray, BufPtr, BeagleLogicDev}
use beagle_logic.System.{System, done, load, element}

-- What the allocation sets in element `i` of a ring of `cnt` buffers of `size` bytes.
pub record IsPlaced (cnt size i : ℕ) (b : LogicBuffer) : Type 0 where
  pub index_eq : b.index ≡ i
  pub next_eq : b.next ≡ (i + 1) % cnt
  pub size_eq : b.size ≡ size
  pub mem_eq : length b.mem ≡ size

abbrev pub AllPlaced : ℕ → ℕ → List LogicBuffer → Type 0
AllPlaced cnt size items =
    (i : ℕ) (b : LogicBuffer) → get_elem? items i ≡ some b → IsPlaced cnt size i b

pub record IsRing (d : BeagleLogicDev) (arr : BufferArray) (cnt size : ℕ) : Type 0 where
  pub present : d.buffers ≡ some arr
  pub count_eq : d.bufcount ≡ cnt
  pub length_eq : length arr.items ≡ cnt
  pub two : 2 ≤ cnt
  pub nonempty : 0 < size
  pub placed : AllPlaced cnt size arr.items

-- The device holds no buffers, or a ring of them.
abbrev pub HoldsRing : BeagleLogicDev → Type 0
HoldsRing d =
    (d.buffers ≡ none) ⊎ ((arr : BufferArray) × (cnt : ℕ) × (size : ℕ) × IsRing d arr cnt size)

pub AllPlaced-set :
    (cnt size : ℕ) (items : List LogicBuffer) (i : ℕ) (b : LogicBuffer)
    → AllPlaced cnt size items
    → IsPlaced cnt size i b
    → AllPlaced cnt size (set items i b)
AllPlaced-set cnt size items i b h p j c e = elim (ℕ_discrete i j) [
  | yes q ↦
      ground (
        arith,
        get_elem?-set_self items i b,
        length-set items i b,
        get_elem?_lt (set items i b) j e,
      )
  | no q ↦ h j c (sym (get_elem?-set_ne items b q) ∙ e)
]

abbrev pub at : BufferArray → ℕ → BufPtr
at arr i = record { array = arr.id; index = i }

pub load-at :
    (s : System) (arr : BufferArray) (i : ℕ) {b : LogicBuffer}
    → s.dev.buffers ≡ some arr
    → get_elem? arr.items i ≡ some b
    → load (some (at arr i)) s ≡ done b s
unfolding load
load-at s arr i e h = ground arith

pub load-element :
    (s : System) (arr : BufferArray) (i : ℕ) {b : LogicBuffer}
    → s.dev.buffers ≡ some arr
    → get_elem? arr.items i ≡ some b
    → load (element s.dev i) s ≡ done b s
unfolding load
load-element s arr i e h = ground arith

-- The bytes of element `j`.
abbrev pub content : List LogicBuffer → ℕ → List ℕ
content items j = elim (get_elem? items j) [ none ↦ [] | some b ↦ b.mem ]

pub content_of :
    (items : List LogicBuffer) (j : ℕ) {b : LogicBuffer}
    → get_elem? items j ≡ some b
    → content items j ≡ b.mem
content_of items j e = rw (e, content)
