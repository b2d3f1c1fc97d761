-- ===== src/Buffers/Free.antt =====
-- `beaglelogic_memfree`: every block goes back to the allocator.
use native.Mathlib.Numerals.{add-one}
use beagle_logic.Base.{
  ℕ, zero, suc, ◌+◌, ◌-◌, ◌<◌, ◌≡◌, refl, false, Option, none, some, List, arith, length, drop,
  count, get_elem?-some, drop_all, drop-get_elem?,
}
use beagle_logic.Device.{LogicBuffer, BufferArray, Ret}
use beagle_logic.System.{Platform, System, done, ◌>>=◌, mutex_unlock}
use beagle_logic.System.Mutex.{locked, lock_free}
use beagle_logic.System.Returns.{Returns, returns, bind, weaken}
use beagle_logic.Buffers.{free_from, free_array, memfree, memalloc}
use beagle_logic.Buffers.Ring.{IsRing, load-element}
use beagle_logic.Buffers.Alloc.{
  blocks, Freed, kfree-Freed, Outcome, busy, too_large, no_list, no_block, allocated,
  memalloc-Outcome,
}

free_from-Freed :
    (arr : BufferArray) (n i : ℕ) (s : System)
    → s.dev.buffers ≡ some arr
    → i + n ≡ length arr.items
    → Returns (λ _ t. Freed (drop i arr.items) s t) (free_from n i s)
unfolding free_from
free_from-Freed arr zero i s e h = returns (record {
  frame = refl;
  heap_shrinks = λ a. rw (drop_all i arr.items (omega arith)) (omega arith);
})
free_from-Freed arr (suc n) i s e h =
    let (b, at_i) = get_elem?-some arr.items i (omega arith) in
    rw (load-element s arr i e at_i) (
      bind (kfree-Freed b s) (λ _ u first.
        weaken (free_from-Freed arr n (i + 1) u (ground (arith, first.frame)) (omega arith))
          (λ _ t rest. record {
            frame = ground (arith, first.frame, rest.frame);
            heap_shrinks = λ a. ground (
              arith,
              first.heap_shrinks a,
              rest.heap_shrinks a,
              drop-get_elem? i arr.items at_i,
              add-one i,
            );
          })))

-- What `memfree` leaves of a ring.
pub record Released (items : List LogicBuffer) (s : System) (t : System) : Type 0 where
  pub frame : t ≡ record s { heap = t.heap; dev = record s.dev { buffers = none; bufcount = 0 } }
  pub heap_shrinks : (a : ℕ) → count a t.heap ≡ count a s.heap - count a (blocks items)

free_array-Released :
    (arr : BufferArray) (o : Option BufferArray) (s : System)
    → o ≡ some arr
    → s.dev.buffers ≡ some arr
    → s.dev.bufcount ≡ length arr.items
    → Returns (λ _ t. Released arr.items s t) (free_array o s)
unfolding free_array
free_array-Released arr o s h e n = rw h (
    bind (free_from-Freed arr s.dev.bufcount 0 s e (omega arith)) (λ _ t f.
      returns (record { frame = ground (arith, f.frame); heap_shrinks = f.heap_shrinks })))

pub memfree-Released :
    (arr : BufferArray) (cnt size : ℕ) (s : System)
    → s.dev.mutex ≡ false
    → IsRing s.dev arr cnt size
    → Returns (λ _ t. Released arr.items s t) (memfree s)
unfolding memfree mutex_unlock
memfree-Released arr cnt size s free ring = rw (lock_free s free) (
    bind
      (free_array-Released arr _ (locked s) ring.present ring.present
        (omega (arith, ring.count_eq, ring.length_eq)))
      (λ _ t f.
        returns (record { frame = ground (arith, f.frame); heap_shrinks = f.heap_shrinks })))

pub memfree_null : (s : System) → s.dev.mutex ≡ false → s.dev.buffers ≡ none → memfree s ≡ done tt s
unfolding memfree mutex_unlock free_array
memfree_null s free e = rw (lock_free s free) (ground arith)

module _ (k : Platform) (s : System) (bufsize : ℕ) where
  -- What an allocation takes is what a later `memfree` gives back: the same blocks are in use as
  -- before both, and the driver holds no buffers. This needs a free mutex, no buffers before and a
  -- buffer unit that is not 0; it holds also where the allocation fails.
  pub memfree-memalloc :
      s.dev.mutex ≡ false
      → s.dev.buffers ≡ none
      → 0 < s.dev.bufunitsize
      → Returns
          (λ _ t.
            (t.dev.buffers ≡ none)
            × (t.dev.mutex ≡ false)
            × ((a : ℕ) → count a t.heap ≡ count a s.heap))
          ((memalloc k bufsize >>= λ _. memfree) s)
  memfree-memalloc free null positive = bind (memalloc-Outcome k s bufsize positive) after
    where
      after :
          (r : Ret) (u : System)
          → Outcome k s bufsize r u
          → Returns
              (λ _ t.
                (t.dev.buffers ≡ none)
                × (t.dev.mutex ≡ false)
                × ((a : ℕ) → count a t.heap ≡ count a s.heap))
              (memfree u)
      after r u (busy taken _ _) = cc
      after r u (too_large _ _ _ e) =
          rw (memfree_null u (ground arith) (ground arith))
            (returns (ground arith, ground arith, λ a. ground arith))
      after r u (no_list _ _ e) =
          rw (memfree_null u (ground arith) (ground arith))
            (returns (ground arith, ground arith, λ a. ground arith))
      after r u (no_block _ _ e h) =
          rw (memfree_null u (ground arith) (ground arith))
            (returns (ground arith, ground arith, λ a. h a))
      after r u (allocated _ _ _ arr ring e h) =
          weaken (memfree-Released arr _ _ u (ground arith) ring) (λ _ t f. (
            ground (arith, f.frame),
            ground (arith, f.frame),
            λ a. omega (arith, h a, f.heap_shrinks a),
          ))
