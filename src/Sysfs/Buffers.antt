-- ===== src/Sysfs/Buffers.antt =====
-- The attributes that replace the buffers: bufunitsize and memalloc.
use beagle_logic.Base.{
  ℕ, ◌+◌, ◌*◌, ◌%◌, ◌≤◌, ◌<◌, ◌≡◌, refl, ap, inl, inr, true, false, Bool-cases, none, some, List,
  arith, length, if◌then◌else◌, ltb-false, u32, word, round_up_32,
}
use beagle_logic.Device.{Ret, ret, err, is_failure, enomem, LogicBuffer}
use beagle_logic.System.{Platform, System, sleeps, and_then, pure, ◌>>=◌}
use beagle_logic.System.Returns.{Returns, returns, bind, weaken, ignored}
use beagle_logic.System.Mutex.{lock_taken}
use beagle_logic.System.Runs.{and_then-same_effect, replaced_result}
use beagle_logic.Buffers.{memalloc, memfree, buffers_for}
use beagle_logic.Buffers.Ring.{HoldsRing}
use beagle_logic.Buffers.Alloc.{
  Outcome, busy, too_large, no_list, no_block, allocated, memalloc-Outcome,
}
use beagle_logic.Buffers.Free.{memfree-Released, memfree_null}
use beagle_logic.Submit.{map_and_submit_all_buffers}
use beagle_logic.Submit.Table.{Submitted, map_and_submit-Submitted}
use beagle_logic.Ioctl.{set_buffer_size_ioctl}
use beagle_logic.Sysfs.{
  Text, with_value, resize, reallocate, submit_new, bl_bufunitsize_store, bl_memalloc_store,
}

-- What `memfree` leaves in either case.
pub record Emptied (s t : System) : Type 0 where
  pub frame :
      t
      ≡ record s { heap = t.heap; dev = record s.dev { buffers = none; bufcount = t.dev.bufcount } }

pub memfree-Emptied :
    (s : System) → s.dev.mutex ≡ false → HoldsRing s.dev → Returns (λ _ t. Emptied s t) (memfree s)
memfree-Emptied s free (inl e) =
    rw (memfree_null s free e) (returns (record { frame = ground (arith, e) }))
memfree-Emptied s free (inr (arr, cnt, size, ring)) =
    weaken (memfree-Released arr cnt size s free ring)
      (λ _ t f. record { frame = ground (arith, f.frame) })

memfree_taken : (s : System) → s.dev.mutex ≡ true → memfree s ≡ sleeps s
unfolding memfree
memfree_taken s taken = rw (lock_taken s taken) refl

abbrev resized : System → ℕ → System
resized s val = record s { dev = record s.dev { bufunitsize = round_up_32 val } }

HoldsRing-resized : (s : System) (val : ℕ) → HoldsRing s.dev → HoldsRing (resized s val).dev
HoldsRing-resized s val (inl e) = inl e
HoldsRing-resized s val (inr (arr, cnt, size, ring)) = inr (arr, cnt, size, ground (arith, ring))

-- What follows a successful allocation is the same but for the result.
submit_new-same_effect :
    (k : Platform) (count : ℕ) (rc : Ret) (s : System)
    → and_then (submit_new k count rc s) (λ _. pure tt)
      ≡ and_then
          ((if is_failure rc then pure rc else map_and_submit_all_buffers k) s)
          (λ _. pure tt)
submit_new-same_effect k count rc s = elim (Bool-cases (is_failure rc)) [
  | inl e ↦ rw e refl
  | inr e ↦ rw e (replaced_result (map_and_submit_all_buffers k s) (ret count))
]

-- The unit after a write of 32 or more.
round_up_32_bounds :
    (n : ℕ)
    → 32 ≤ n
    → n + 31 < word
    → (round_up_32 n % 32 ≡ 0) × (n ≤ round_up_32 n) × (round_up_32 n < n + 32)
round_up_32_bounds n large small = (omega arith, omega arith, omega arith)

module _ (x : Text) (text : List ℕ) (val count : ℕ) (reads : x.kstrtouint text ≡ some val) where
  resize_eq : (s : System) → bl_bufunitsize_store x text count s ≡ resize val count s
  unfolding bl_bufunitsize_store
  resize_eq s = ap (λ o. with_value o (λ v. resize v count) s) reads

  reallocate_eq :
      (k : Platform) (s : System) → bl_memalloc_store x k text count s ≡ reallocate k val count s
  unfolding bl_memalloc_store
  reallocate_eq k s = ap (λ o. with_value o (λ v. reallocate k v count) s) reads

  -- A write of 32 or more to `bufunitsize`, below 2 ^ 32 - 31, while no capture runs, sets the unit
  -- to the next multiple of 32 and frees the buffers.
  pub bl_bufunitsize_store-Emptied :
      (s : System)
      → s.dev.mutex ≡ false
      → HoldsRing s.dev
      → 32 ≤ val
      → val + 31 < word
      → Returns
          (λ r t.
            (r ≡ ret count)
            × (t.dev.buffers ≡ none)
            × (t.dev.bufunitsize % 32 ≡ 0)
            × (val ≤ t.dev.bufunitsize)
            × (t.dev.bufunitsize < val + 32))
          (bl_bufunitsize_store x text count s)
  unfolding resize
  bl_bufunitsize_store-Emptied s free ring large small =
      let (whole, ge, lt) = round_up_32_bounds val large small in
      rw (resize_eq s, ltb-false val 32 large)
        (bind (memfree-Emptied (resized s val) free (HoldsRing-resized s val ring)) (λ _ t m.
          returns (
            refl,
            ground (arith, m.frame),
            ground (arith, m.frame, whole),
            ground (arith, m.frame, ge),
            ground (arith, m.frame, lt),
          )))

  -- A write of 32 or more to `bufunitsize` during a capture has changed the unit by the time that
  -- it sleeps on the mutex.
  bl_bufunitsize_store_sleeps :
      (s : System)
      → s.dev.mutex ≡ true
      → 32 ≤ val
      → bl_bufunitsize_store x text count s
        ≡ sleeps (record s { dev = record s.dev { bufunitsize = round_up_32 val } })
  unfolding resize
  bl_bufunitsize_store_sleeps s taken large =
      rw (resize_eq s, ltb-false val 32 large)
        (ap (λ r. and_then r (λ _. pure (ret count))) (memfree_taken (resized s val) taken))

  module _ (k : Platform) (s : System) where
    -- A write to `memalloc` that passes the check of the size does the same to the device as the
    -- ioctl SET_BUFFER_SIZE with that number, however either ends.
    bl_memalloc_store-set_buffer_size_ioctl :
        val ≤ u32 (s.dev.maxbufcount * s.dev.bufunitsize)
        → (bl_memalloc_store x k text count >>= λ _. pure tt) s
          ≡ (set_buffer_size_ioctl k val >>= λ _. pure tt) s
    unfolding reallocate set_buffer_size_ioctl
    bl_memalloc_store-set_buffer_size_ioctl fits =
        rw (reallocate_eq k s, ltb-false (u32 (s.dev.maxbufcount * s.dev.bufunitsize)) val fits)
          (and_then-same_effect (memfree s) _ _ (λ _ t.
            and_then-same_effect (memalloc k val t) _ _
              (λ rc u. submit_new-same_effect k count rc u)))

-- How a write to `memalloc` ends that passes the check of the size: with -ENOMEM and no buffers, or
-- with a ring of `cnt` buffers of `size` bytes that has been submitted. In the second case the
-- number of bytes written is returned also where the mapping has failed.
pub data Reallocated (cnt size : ℕ) (k : Platform) (count : ℕ) (r : Ret) (t : System) : Type 0 where
  no_memory : r ≡ err enomem → t.dev.buffers ≡ none → Reallocated cnt size k count r t
  replaced :
      r ≡ ret count
      → (id : ℕ) (fresh : List LogicBuffer) (rc : Ret) → Submitted cnt size id fresh k rc t
      → Reallocated cnt size k count r t

module _ (k : Platform) (val count : ℕ) (s t : System) (m : Emptied s t)
    (room : s.dev.maxbufcount < length s.dev.cxt_pru.list) where
  submit_new-Reallocated :
      (rc : Ret) (u : System)
      → s.dev.mutex ≡ false
      → Outcome k t val rc u
      → Returns
          (Reallocated (buffers_for s.dev.bufunitsize val) s.dev.bufunitsize k count)
          (submit_new k count rc u)
  submit_new-Reallocated rc u free (busy taken _ _) = absurd (ground (arith, m.frame))
  submit_new-Reallocated rc u free (too_large _ _ e f) =
      rw e (returns (no_memory refl (ground (arith, f, m.frame))))
  submit_new-Reallocated rc u free (no_list _ e f) =
      rw e (returns (no_memory refl (ground (arith, f))))
  submit_new-Reallocated rc u free (no_block _ e f _) =
      rw e (returns (no_memory refl (ground (arith, f))))
  submit_new-Reallocated rc u free (allocated _ few e arr ring f _) = rw e (
      bind
        (ignored (
          map_and_submit-Submitted k (buffers_for s.dev.bufunitsize val) s.dev.bufunitsize arr.id
            arr.items u (ground (arith, ring, m.frame)) (ground (arith, m.frame, f, few, room))))
        (λ _ v (r, w). returns (replaced refl arr.id arr.items r w)))

-- A write to `memalloc` of a number that passes the check of the size, while no capture runs, ends
-- with -ENOMEM and no buffers, or returns the number of bytes written after a ring of as many
-- buffers as the number asks for has been mapped and submitted or its mapping refused, if the unit
-- is not 0 and the PRU's table has room for one entry more than the most buffers that the device
-- may have.
pub bl_memalloc_store-Reallocated :
    (x : Text) (text : List ℕ) (val count : ℕ)
    → x.kstrtouint text ≡ some val
    → (k : Platform) (s : System) → s.dev.mutex ≡ false
    → HoldsRing s.dev
    → 0 < s.dev.bufunitsize
    → s.dev.maxbufcount < length s.dev.cxt_pru.list
    → val ≤ u32 (s.dev.maxbufcount * s.dev.bufunitsize)
    → Returns
        (Reallocated (buffers_for s.dev.bufunitsize val) s.dev.bufunitsize k count)
        (bl_memalloc_store x k text count s)
unfolding reallocate
bl_memalloc_store-Reallocated x text val count reads k s free ring positive room fits =
    rw
      (
        reallocate_eq x text val count reads k s,
        ltb-false (u32 (s.dev.maxbufcount * s.dev.bufunitsize)) val fits,
      )
      (bind (memfree-Emptied s free ring) (λ _ t m.
        bind (memalloc-Outcome k t val (ground (arith, m.frame, positive)))
          (λ rc u o. submit_new-Reallocated k val count s t m room rc u free o)))
