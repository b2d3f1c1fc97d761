-- ===== src/Submit/Pattern.antt =====
-- The test pattern counts on from buffer to buffer.
use native.Mathlib.Decide.{ℕ_discrete}
use mathlib.Core.Option.{some-injective}
use native.Mathlib.Nat.{suc-mul}
use mathlib.Core.List.{append-nil}
use beagle_logic.Base.{
  ℕ, zero, suc, ◌+◌, ◌-◌, ◌*◌, ◌/◌, ◌≤◌, ◌<◌, ◌≡◌, ◌≢◌, refl, sym, ◌∙◌, ap, some, false, List, ◌++◌,
  arith, length, get_elem?, get_elem?-some, get_elem?-set_self, get_elem?-set_ne, length-set, set,
  u32, drop, drop_all, get_elem?_lt, ◌∷◌,
}
use beagle_logic.Device.{BufferArray, LogicBuffer}
use beagle_logic.System.{System, store, mutex_unlock, element, set_at}
use beagle_logic.System.Mutex.{locked, lock_free}
use beagle_logic.System.Returns.{Returns, returns, bind, weaken}
use beagle_logic.Buffers.Ring.{IsRing, load-element}
use beagle_logic.Submit.{pattern_bytes, fill_from, fill_buffer_testpattern}

-- The elements from `i` on have `w` words of memory.
abbrev HasWords : (w i : ℕ) → List LogicBuffer → Type 0
HasWords w i items =
    (j : ℕ) (b : LogicBuffer)
    → i ≤ j
    → get_elem? items j ≡ some b
    → (b.size ≡ 4 * w) × (length b.mem ≡ 4 * w)

-- From element `i` on the memory is the pattern that starts with the word `x`.
record Filled (w i x : ℕ) (arr : BufferArray) (t : System) : Type 0 where
  pub items : List LogicBuffer
  pub present : t.dev.buffers ≡ some (record arr { items = items })
  pub length_same : length items ≡ length arr.items
  pub below : (j : ℕ) → j < i → get_elem? items j ≡ get_elem? arr.items j
  pub counted :
      (j : ℕ) (b : LogicBuffer)
      → i ≤ j
      → get_elem? items j ≡ some b
      → b.mem ≡ pattern_bytes w (u32 (x + (j - i) * w))

module _ (w : ℕ) where
  -- Buffer `b` with the words from `x` on.
  abbrev counted_from : ℕ → LogicBuffer → LogicBuffer
  counted_from x b = record b { mem = pattern_bytes w (u32 x) }

  whole_buffer :
      (b : LogicBuffer) (x : ℕ)
      → b.size ≡ 4 * w
      → length b.mem ≡ 4 * w
      → record b { mem = pattern_bytes (b.size / 4) (u32 x) ++ drop (4 * (b.size / 4)) b.mem }
        ≡ counted_from x b
  whole_buffer b x size_eq length_eq =
      ap (λ m. record b { mem = m })
        (ap (λ v. pattern_bytes v (u32 x) ++ drop (4 * v) b.mem) words
          ∙ ap (λ rest. pattern_bytes w (u32 x) ++ rest) (drop_all (4 * w) b.mem (omega arith))
          ∙ append-nil (pattern_bytes w (u32 x)))
    where
      words : b.size / 4 ≡ w
      words = omega arith

  Filled-cons :
      (i x : ℕ) (arr : BufferArray) (b : LogicBuffer) (t : System)
      → get_elem? arr.items i ≡ some b
      → Filled w (i + 1) (x + w) (record arr { items = set arr.items i (counted_from x b) }) t
      → Filled w i x arr t
  Filled-cons i x arr b t at_i h = record {
    items = h.items;
    present = h.present;
    length_same = h.length_same ∙ length-set arr.items i (counted_from x b);
    below = λ j lt.
        h.below j (omega arith) ∙ get_elem?-set_ne arr.items (counted_from x b) (λ e. omega arith);
    counted = λ j c le e. by_index j c le e (ℕ_discrete i j);
  }
    where
      no_gap : (j : ℕ) → i ≡ j → j - i ≡ 0
      no_gap j q = omega arith

      gap : (j : ℕ) → i ≤ j → i ≢ j → j - i ≡ suc (j - (i + 1))
      gap j le q = omega arith

      by_index :
          (j : ℕ) (c : LogicBuffer)
          → i ≤ j
          → get_elem? h.items j ≡ some c
          → Dec (i ≡ j)
          → c.mem ≡ pattern_bytes w (u32 (x + (j - i) * w))
      by_index j c le e (yes q) =
          ap (λ (d : LogicBuffer). d.mem)
            (some-injective c (counted_from x b) (
              sym e
              ∙ h.below j (omega arith)
              ∙ ap (get_elem? (set arr.items i (counted_from x b))) (sym q)
              ∙ get_elem?-set_self arr.items i (counted_from x b) (get_elem?_lt arr.items i at_i)))
          ∙ ap (λ m. pattern_bytes w (u32 m)) (omega (arith, ap (λ m. m * w) (no_gap j q)))
      by_index j c le e (no q) =
          h.counted j c (omega arith) e
          ∙ ap (λ m. pattern_bytes w (u32 m))
              (omega (arith, suc-mul (j - (i + 1)) w, ap (λ m. m * w) (gap j le q)))

  -- The state after the store.
  abbrev stored_at : ℕ → BufferArray → LogicBuffer → System → System
  stored_at i arr c s = record s {
    dev = record s.dev { buffers = some (record arr { items = set arr.items i c }) };
  }

  set_element :
      (i : ℕ) (arr : BufferArray) (c : LogicBuffer) (s : System)
      → s.dev.buffers ≡ some arr
      → record s { dev = set_at s.dev (element s.dev i) c } ≡ stored_at i arr c s
  set_element i arr c s e = ground (arith, e)

  fill_step :
      (n i x : ℕ) (arr : BufferArray) (s : System) (b : LogicBuffer)
      → s.dev.buffers ≡ some arr
      → get_elem? arr.items i ≡ some b
      → b.size ≡ 4 * w
      → length b.mem ≡ 4 * w
      → fill_from (suc n) i (u32 x) s
        ≡ fill_from n (i + 1) (u32 (x + w)) (record s {
          dev = record s.dev {
            buffers = some (record arr { items = set arr.items i (counted_from x b) });
          };
        })
  unfolding fill_from store
  fill_step n i x arr s b e at_i size_eq length_eq = rw (load-element s arr i e at_i) (
      rw (whole_buffer b x size_eq length_eq) (
        ap (fill_from n (i + 1) (u32 (u32 x + b.size / 4)))
          (set_element i arr (counted_from x b) s e)
        ∙ ap (λ v. fill_from n (i + 1) v (stored_at i arr (counted_from x b) s))
            (omega (arith, size_eq))))

  fill_from-Filled :
      (n i x : ℕ) (arr : BufferArray) (s : System)
      → s.dev.buffers ≡ some arr
      → i + n ≡ length arr.items
      → HasWords w i arr.items
      → Returns
          (λ _ t.
            Filled w i x arr t × (t ≡ record s { dev = record s.dev { buffers = t.dev.buffers } }))
          (fill_from n i (u32 x) s)
  unfolding fill_from
  fill_from-Filled zero i x arr s e h words = returns (
    record {
      items = arr.items;
      present = e;
      length_same = refl;
      below = λ j lt. refl;
      counted = λ j b le f. absurd (omega (arith, get_elem?_lt arr.items j f));
    },
    refl,
  )
  fill_from-Filled (suc n) i x arr s e h words =
      let (b, at_i) = get_elem?-some arr.items i (omega arith) in
      let (size_eq, length_eq) = words i b (omega arith) at_i in
      rw (fill_step n i x arr s b e at_i size_eq length_eq) (
        weaken
          (fill_from-Filled n (i + 1) (x + w)
            (record arr { items = set arr.items i (counted_from x b) }) _ refl
            (omega (arith, length-set arr.items i (counted_from x b)))
            (λ j c le f.
              words j c (omega arith)
                (sym (get_elem?-set_ne arr.items (counted_from x b) (λ q. omega arith)) ∙ f)))
          (λ _ t (h, frame). (Filled-cons i x arr b t at_i h, ground (arith, frame))))

-- The word number `n` of a memory, little-endian.
unfoldable pub word_at : List ℕ → ℕ → ℕ
word_at (a ∷ b ∷ c ∷ d ∷ rest) zero = a + 256 * b + 65536 * c + 16777216 * d
word_at (a ∷ b ∷ c ∷ d ∷ rest) (suc n) = word_at rest n
word_at mem n = 0

pattern_bytes-word_at : (w n x : ℕ) → n < w → word_at (pattern_bytes w (u32 x)) n ≡ u32 (x + n)
unfolding word_at pattern_bytes
pattern_bytes-word_at zero n x lt = absurd (omega arith)
pattern_bytes-word_at (suc w) zero x lt = omega arith
pattern_bytes-word_at (suc w) (suc n) x lt =
    ap (λ v. word_at (pattern_bytes w v) n) wrapped
    ∙ pattern_bytes-word_at w n (x + 1) (omega arith)
    ∙ ap u32 shift
  where
    wrapped : u32 (u32 x + 1) ≡ u32 (x + 1)
    wrapped = omega arith

    shift : x + 1 + n ≡ x + suc n
    shift = omega arith

pattern_bytes-length : (w x : ℕ) → length (pattern_bytes w x) ≡ 4 * w
unfolding pattern_bytes
pattern_bytes-length zero x = omega arith
pattern_bytes-length (suc w) x = omega (arith, pattern_bytes-length w (u32 (x + 1)))

-- The array keeps its place and its number of buffers, and the words of each buffer count up from
-- where those of the buffer before it end, `w` of them in each.
pub record Patterned (w : ℕ) (arr : BufferArray) (t : System) : Type 0 where
  pub items : List LogicBuffer
  pub present : t.dev.buffers ≡ some (record arr { items = items })
  pub count_same : length items ≡ length arr.items
  pub size_eq : (j : ℕ) (b : LogicBuffer) → get_elem? items j ≡ some b → length b.mem ≡ 4 * w
  pub counted :
      (j n : ℕ) (b : LogicBuffer)
      → get_elem? items j ≡ some b
      → n < w
      → word_at b.mem n ≡ u32 (j * w + n)

Filled-Patterned : (w : ℕ) (arr : BufferArray) (t : System) → Filled w 0 0 arr t → Patterned w arr t
Filled-Patterned w arr t h = record {
  items = h.items;
  present = h.present;
  count_same = h.length_same;
  size_eq = λ j b e. rw (h.counted j b (omega arith) e) (pattern_bytes-length w _);
  counted = λ j n b e lt.
      ap (λ m. word_at m n) (h.counted j b (omega arith) e)
      ∙ pattern_bytes-word_at w n (0 + (j - 0) * w) lt
      ∙ ap (λ x. u32 (x + n)) (start_of j);
}
  where
    from_zero : (j : ℕ) → j - 0 ≡ j
    from_zero j = omega arith

    start_of : (j : ℕ) → 0 + (j - 0) * w ≡ j * w
    start_of j = omega (arith, ap (λ m. m * w) (from_zero j))

module _ (arr : BufferArray) (cnt size w : ℕ) (s : System) where
  -- On a ring of buffers of `w` words each, with the mutex free, the test pattern returns, keeps
  -- the number of buffers and their sizes and frees the mutex, and the word number `n` of the buffer
  -- `j`, little-endian, is then `j * w + n` modulo 2 ^ 32: the words count up through each buffer,
  -- and the first of a buffer follows the last of the buffer before it.
  pub fill_buffer_testpattern-Patterned :
      IsRing s.dev arr cnt size
      → size ≡ 4 * w
      → s.dev.mutex ≡ false
      → Returns (λ _ t. Patterned w arr t × (t.dev.mutex ≡ false)) (fill_buffer_testpattern s)
  unfolding fill_buffer_testpattern mutex_unlock
  fill_buffer_testpattern-Patterned ring words free = rw (lock_free s free) (
      bind
        (fill_from-Filled w s.dev.bufcount 0 0 arr (locked s) ring.present
          (omega (arith, ring.count_eq, ring.length_eq))
          (λ j b le e. ((ring.placed j b e).size_eq ∙ words, (ring.placed j b e).mem_eq ∙ words)))
        (λ _ t (h, frame). returns (
          Filled-Patterned w arr _ (record {
            items = h.items;
            present = h.present;
            length_same = h.length_same;
            below = h.below;
            counted = h.counted;
          }),
          refl,
        )))
