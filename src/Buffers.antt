-- ===== src/Buffers.antt =====
-- The "Buffer Management" section of kernel/beaglelogic.c: the sample buffers are allocated,
-- linked into a ring, mapped for DMA, handed to the PRU and freed.
pub mod Ring
pub mod Alloc
pub mod Free
pub mod Update
pub mod Size
use beagle_logic.Base.{
  ℕ, zero, suc, ◌+◌, ◌*◌, ◌%◌, max, Bool, true, false, Option, none, some, List, [], ◌∷◌, ltb, ◌==◌,
  if◌then◌else◌, replicate, div_round_up,
}
use beagle_logic.Device.{
  LogicBuffer, BufferArray, BufPtr, Ret, ret, err, is_mapped, ebusy, enomem, minus_one,
}
use beagle_logic.Device.BufState.{alloc, mapped, unmapped}
use beagle_logic.System.{
  Platform, M, pure, ◌>>=◌, ◌>>◌, read_dev, update_dev, undefined, element, load, store, mutex_lock,
  mutex_unlock, mutex_trylock, kfree, kmalloc, devm_kzalloc, dma_map_single,
}

-- `sizeof(struct logic_buffer)` on 32-bit ARM.
abbrev pub sizeof_logic_buffer : ℕ
sizeof_logic_buffer = 20

-- An element of the zeroed array.
abbrev pub zeroed : LogicBuffer
zeroed = record {
  buf = none;
  phys_addr = 0;
  size = 0;
  state = alloc;
  index = 0;
  next = 0;
  mem = [];
}

-- `buffers[i]` once its block `va` of `unit` bytes is there, filled with 0xFF.
abbrev pub fresh_buffer : Platform → ℕ → ℕ → ℕ → ℕ → LogicBuffer
fresh_buffer k cnt unit i va = record {
  buf = some va;
  phys_addr = k.virt_to_phys va;
  size = unit;
  state = alloc;
  index = i;
  next = (i + 1) % cnt;
  mem = replicate unit 0xFF;
}

-- The loop of `failrelease` and of `memfree`, over the elements: those with a block give it back.
unfoldable pub free_buffers : List LogicBuffer → M (Unit {0})
free_buffers [] = pure tt
free_buffers (b ∷ bs) = do kfree b.buf; free_buffers bs

unfoldable pub map_buffer : Platform → Option BufPtr → M Ret
map_buffer k p = do
  b ← load p
  if is_mapped b.state then pure (ret 0) else do
    addr ← dma_map_single k b.buf b.size
    elim addr [
      | none ↦ pure (err minus_one)
      | some a ↦ store p (record b { phys_addr = a; state = mapped }) >> pure (ret 0)
    ]

unfoldable pub unmap_buffer : Option BufPtr → M (Unit {0})
unmap_buffer p = do b ← load p; store p (record b { state = unmapped })

-- What follows the allocation loop: the end of the function, or the label `failrelease`.
unfoldable pub finish_array : ℕ → Bool → List LogicBuffer → M Ret
finish_array id true items = do
  update_dev (λ d. record d { buffers = some (record { id = id; items = items }) })
  mutex_unlock
  pure (ret 0)
finish_array id false items = do
  free_buffers items
  update_dev (λ d. record d { bufcount = 0; buffers = none })
  mutex_unlock
  pure (err enomem)

-- The number of buffers for a request of that many bytes.
abbrev pub buffers_for : ℕ → ℕ → ℕ
buffers_for unit bufsize = max (div_round_up bufsize unit) 2

module _ (k : Platform) where
  -- The allocation loop from element `i` on: whether every block was granted, and the elements.
  unfoldable pub alloc_buffers : ℕ → ℕ → ℕ → List LogicBuffer → M (Bool × List LogicBuffer)
  alloc_buffers cnt unit i [] = pure (true, [])
  alloc_buffers cnt unit i (b ∷ bs) = do
    block ← kmalloc k unit
    elim block [
      | none ↦ pure (false, b ∷ bs)
      | some va ↦
          alloc_buffers cnt unit (i + 1) bs >>= λ r. pure (r.0, fresh_buffer k cnt unit i va ∷ r.1)
    ]

  -- From the allocation of the buffer list on; `id` is the number of that allocation.
  unfoldable pub fill_array : ℕ → ℕ → Option ℕ → M Ret
  fill_array cnt unit none = do
    update_dev (λ d. record d { buffers = none })
    mutex_unlock
    pure (err enomem)
  fill_array cnt unit (some id) =
      alloc_buffers cnt unit 0 (replicate cnt zeroed) >>= λ r. finish_array id r.0 r.1

  unfoldable pub memalloc_locked : ℕ → M Ret
  memalloc_locked bufsize = do
    d ← read_dev
    if d.bufunitsize == 0
        then undefined
        else if ltb d.maxbufcount (buffers_for d.bufunitsize bufsize)
        then mutex_unlock >> pure (err enomem)
        else do
          update_dev (λ e. record e { bufcount = buffers_for d.bufunitsize bufsize })
          id ← devm_kzalloc k (sizeof_logic_buffer * buffers_for d.bufunitsize bufsize)
          fill_array (buffers_for d.bufunitsize bufsize) d.bufunitsize id

  unfoldable pub memalloc : ℕ → M Ret
  memalloc bufsize = do
    locked ← mutex_trylock
    if locked then memalloc_locked bufsize else pure (err ebusy)

-- The loop over `i < bufcount` with its element's `buf` test.
unfoldable pub free_from : ℕ → ℕ → M (Unit {0})
free_from zero i = pure tt
free_from (suc n) i = do d ← read_dev; b ← load (element d i); kfree b.buf; free_from n (i + 1)

-- `if (bldev->buffers) { … }` of `memfree`.
unfoldable pub free_array : Option BufferArray → M (Unit {0})
free_array none = pure tt
free_array (some arr) = do
  d ← read_dev
  free_from d.bufcount 0
  update_dev (λ e. record e { buffers = none; bufcount = 0 })

unfoldable pub memfree : M (Unit {0})
memfree = do mutex_lock; d ← read_dev; free_array d.buffers; mutex_unlock
