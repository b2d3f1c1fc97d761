-- ===== src/Buffers/Alloc.antt =====
-- `beaglelogic_memalloc`: the ring that it builds, and what it leaves when it fails.
use beagle_logic.Base.{
  ℕ, zero, suc, ◌+◌, ◌-◌, ◌*◌, ◌≤◌, ◌<◌, ◌≡◌, refl, ◌≢◌, inl, inr, Bool, true, false, Option-cases,
  Bool-cases, ap, Option, none, some, List, [], ◌∷◌, if◌then◌else◌, arith, length, get_elem?,
  replicate, length-replicate, count, count-erase,
}
use beagle_logic.Device.{LogicBuffer, BufferArray, Ret, ret, err, ebusy, enomem}
use beagle_logic.System.{Platform, System, done, kmalloc, kfree, mutex_unlock, devm_kzalloc}
use native.Mathlib.Decide.{dec_lt}
use beagle_logic.System.Mutex.{locked, unlocked, trylock_free, trylock_taken}
use beagle_logic.System.Returns.{Returns, returns, bind, weaken}
use beagle_logic.Buffers.{
  alloc_buffers, free_buffers, buffers_for, fill_array, finish_array, sizeof_logic_buffer,
  memalloc_locked, memalloc, fresh_buffer, zeroed,
}
use beagle_logic.Buffers.Ring.{IsPlaced, IsRing}

-- The blocks that the elements hold.
abbrev pub blocks : List LogicBuffer → List ℕ
blocks [] = []
blocks (b ∷ bs) = elim b.buf [ none ↦ blocks bs | some p ↦ p ∷ blocks bs ]

-- What the allocation loop has done, from element `i` on, when it is over.
record Allocated (k : Platform) (cnt unit i n : ℕ) (s : System) (r : Bool × List LogicBuffer)
    (t : System) : Type 0 where
  frame : t ≡ record s { calls = t.calls; heap = t.heap }
  granted : ((c : ℕ) → k.kmalloc c unit ≢ none) → r.0 ≡ true
  count_same : length r.1 ≡ n
  heap_grows : (a : ℕ) → count a t.heap ≡ count a s.heap + count a (blocks r.1)
  placed :
      r.0 ≡ true
      → (j : ℕ) (b : LogicBuffer) → get_elem? r.1 j ≡ some b
      → IsPlaced cnt unit (i + j) b

blocks-zeroed : (n : ℕ) → blocks (replicate n zeroed) ≡ []
blocks-zeroed zero = refl
blocks-zeroed (suc n) = blocks-zeroed n

fresh_buffer-IsPlaced :
    (k : Platform) (cnt unit i va : ℕ) → IsPlaced cnt unit i (fresh_buffer k cnt unit i va)
fresh_buffer-IsPlaced k cnt unit i va = record {
  index_eq = refl;
  next_eq = refl;
  size_eq = refl;
  mem_eq = length-replicate unit 0xFF;
}

IsPlaced-cons :
    (k : Platform) (cnt unit i va : ℕ) (items : List LogicBuffer)
    → ((j : ℕ) (b : LogicBuffer) → get_elem? items j ≡ some b → IsPlaced cnt unit (i + 1 + j) b)
    → (j : ℕ) (b : LogicBuffer) → get_elem? (fresh_buffer k cnt unit i va ∷ items) j ≡ some b
    → IsPlaced cnt unit (i + j) b
IsPlaced-cons k cnt unit i va items h zero b e = ground (arith, length-replicate {A = ℕ} unit 0xFF)
IsPlaced-cons k cnt unit i va items h (suc j) b e = ground (arith, h j b e)

-- What giving back the blocks of some elements does.
pub record Freed (items : List LogicBuffer) (s : System) (t : System) : Type 0 where
  pub frame : t ≡ record s { heap = t.heap }
  pub heap_shrinks : (a : ℕ) → count a t.heap ≡ count a s.heap - count a (blocks items)

pub kfree-Freed :
    (b : LogicBuffer) (s : System) → Returns (λ _ t. Freed (b ∷ []) s t) (kfree b.buf s)
unfolding kfree
kfree-Freed b s = elim (Option-cases b.buf) [
  | inl e ↦ rw (e, kfree) (returns (record { frame = refl; heap_shrinks = λ a. ground arith }))
  | inr (p, e) ↦
      rw (e, kfree)
        (returns
          (record { frame = refl; heap_shrinks = λ a. ground (arith, count-erase a p s.heap) }))
]

free_buffers-Freed :
    (items : List LogicBuffer) (s : System)
    → Returns (λ _ t. Freed items s t) (free_buffers items s)
unfolding free_buffers
free_buffers-Freed [] s = returns (record { frame = refl; heap_shrinks = λ a. omega arith })
free_buffers-Freed (b ∷ bs) s = bind (kfree-Freed b s) (λ _ u first.
    weaken (free_buffers-Freed bs u) (λ _ t rest. record {
      frame = ground (arith, first.frame, rest.frame);
      heap_shrinks = λ a. ground (arith, first.heap_shrinks a, rest.heap_shrinks a);
    }))

module _ (k : Platform) where
  alloc_buffers-Allocated :
      (cnt unit i n : ℕ) (s : System)
      → Returns (Allocated k cnt unit i n s) (alloc_buffers k cnt unit i (replicate n zeroed) s)
  unfolding alloc_buffers kmalloc
  alloc_buffers-Allocated cnt unit i zero s = returns (record {
    frame = refl;
    granted = λ _. refl;
    count_same = refl;
    heap_grows = λ a. omega arith;
    placed = λ _ j b e. cc;
  })
  alloc_buffers-Allocated cnt unit i (suc n) s = elim (Option-cases (k.kmalloc s.calls unit)) [
    | inl refused ↦
        rw (refused, alloc_buffers, kmalloc)
          (returns (record {
            frame = refl;
            granted = λ g. absurd (g s.calls refused);
            count_same = omega (arith, length-replicate n zeroed);
            heap_grows = λ a. omega (arith, ap (count a) (blocks-zeroed n));
            placed = λ h. cc;
          }))
    | inr (va, granted) ↦
        rw (granted, alloc_buffers, kmalloc)
          (bind (alloc_buffers-Allocated cnt unit (i + 1) n _) (λ r t h. returns (record {
            frame = ground (arith, h.frame);
            granted = h.granted;
            count_same = ap suc h.count_same;
            heap_grows = λ a. omega (arith, h.heap_grows a);
            placed = λ fine. IsPlaced-cons k cnt unit i va r.1 (h.placed fine);
          })))
  ]

module _ (k : Platform) (s : System) (bufsize : ℕ) where
  abbrev cnt : ℕ
  cnt = buffers_for s.dev.bufunitsize bufsize

  -- How a call of `memalloc` ends.
  pub data Outcome (r : Ret) (t : System) : Type 0 where
    busy : s.dev.mutex ≡ true → r ≡ err ebusy → t ≡ s → Outcome r t
    too_large : s.dev.mutex ≡ false → s.dev.maxbufcount < cnt → r ≡ err enomem → t ≡ s → Outcome r t
    no_list :
        s.dev.mutex ≡ false
        → r ≡ err enomem
        → t ≡ record s { calls = t.calls; dev = record s.dev { bufcount = cnt; buffers = none } }
        → Outcome r t
    no_block :
        s.dev.mutex ≡ false
        → r ≡ err enomem
        → t ≡ record s {
          calls = t.calls;
          heap = t.heap;
          dev = record s.dev { bufcount = 0; buffers = none };
        }
        → ((a : ℕ) → count a t.heap ≡ count a s.heap)
        → Outcome r t
    allocated :
        s.dev.mutex ≡ false
        → cnt ≤ s.dev.maxbufcount
        → r ≡ ret 0
        → (arr : BufferArray) → IsRing t.dev arr cnt s.dev.bufunitsize
        → t ≡ record s {
          calls = t.calls;
          heap = t.heap;
          dev = record s.dev { bufcount = cnt; buffers = some arr };
        }
        → ((a : ℕ) → count a t.heap ≡ count a s.heap + count a (blocks arr.items))
        → Outcome r t

  -- The state in which `fill_array` is called.
  abbrev counted : System → System
  counted u = record s { calls = u.calls; dev = record s.dev { mutex = true; bufcount = cnt } }

  IsPlaced-at :
      {n size i j : ℕ} {b : LogicBuffer} → i ≡ j → IsPlaced n size i b → IsPlaced n size j b
  IsPlaced-at e p = ground (arith, p)

  finish_array-Outcome :
      (id : ℕ) (fine : Bool) (items : List LogicBuffer) (u t : System)
      → s.dev.mutex ≡ false
      → cnt ≤ s.dev.maxbufcount
      → 0 < s.dev.bufunitsize
      → u ≡ counted u
      → Allocated k cnt s.dev.bufunitsize 0 cnt u (fine, items) t
      → Returns Outcome (finish_array id fine items t)
  unfolding finish_array mutex_unlock
  finish_array-Outcome id true items u t free small positive e h = returns (
      allocated free small refl (record { id = id; items = items })
        (record {
          present = refl;
          count_eq = ground (arith, h.frame);
          length_eq = h.count_same;
          two = omega arith;
          nonempty = positive;
          placed = λ j b g. IsPlaced-at (omega arith) (h.placed refl j b g);
        })
        (ground (arith, h.frame)) (λ a. ground (arith, h.heap_grows a)))
  finish_array-Outcome id false items u t free small positive e h =
      bind (free_buffers-Freed items t) (λ _ v f. returns (
        no_block free refl (ground (arith, h.frame, f.frame))
          (λ a. ground (arith, h.heap_grows a, f.heap_shrinks a))))

  fill_array-Outcome :
      (o : Option ℕ) (u : System)
      → s.dev.mutex ≡ false
      → cnt ≤ s.dev.maxbufcount
      → 0 < s.dev.bufunitsize
      → u ≡ counted u
      → Returns Outcome (fill_array k cnt s.dev.bufunitsize o u)
  unfolding fill_array mutex_unlock
  fill_array-Outcome none u free small positive e = returns (no_list free refl (ground arith))
  fill_array-Outcome (some id) u free small positive e =
      bind (alloc_buffers-Allocated k cnt s.dev.bufunitsize 0 cnt u)
        (λ r t h. finish_array-Outcome id r.0 r.1 u t free small positive e h)

  memalloc_locked_large :
      0 < s.dev.bufunitsize
      → s.dev.maxbufcount < cnt
      → memalloc_locked k bufsize (locked s) ≡ done (err enomem) (unlocked (locked s))
  unfolding memalloc_locked mutex_unlock
  memalloc_locked_large positive large = ground arith

  memalloc_locked_small :
      0 < s.dev.bufunitsize
      → cnt ≤ s.dev.maxbufcount
      → memalloc_locked k bufsize (locked s)
        ≡ fill_array k cnt s.dev.bufunitsize
            (if k.devm_kzalloc s.calls (sizeof_logic_buffer * cnt) then some s.calls else none)
            (record s { calls = s.calls + 1; dev = record s.dev { mutex = true; bufcount = cnt } })
  unfolding memalloc_locked devm_kzalloc
  memalloc_locked_small positive small = ground arith

  -- With a buffer unit that is not 0 every call of `memalloc` returns, in one of these ways: -EBUSY
  -- and -ENOMEM for a request that is too large change nothing; a failed allocation of a block
  -- leaves no block behind and no buffers; one of the array leaves no buffers, but their count;
  -- otherwise the new buffers are a ring of as many as the request asks for.
  pub memalloc-Outcome : 0 < s.dev.bufunitsize → Returns Outcome (memalloc k bufsize s)
  unfolding memalloc
  memalloc-Outcome positive = elim (Bool-cases s.dev.mutex) [
    | inl taken ↦ rw (trylock_taken s taken) (returns (busy taken refl refl))
    | inr free ↦ rw (trylock_free s free) (elim (dec_lt s.dev.maxbufcount cnt) [
      | yes large ↦
          rw (memalloc_locked_large positive large)
            (returns (too_large free large refl (ground arith)))
      | no fits ↦
          rw (memalloc_locked_small positive (omega arith))
            (fill_array-Outcome _ _ free (omega arith) positive refl)
    ])
  ]
