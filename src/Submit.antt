-- ===== src/Submit.antt =====
-- The rest of the "Buffer Management" section of kernel/beaglelogic.c: the test pattern, and the
-- mapping of all buffers with their submission to the PRU.
pub mod Mapping
pub mod Table
pub mod Pattern
use Prim.Native.Nat.{ℕ, zero, suc, ◌+◌, ◌*◌, ◌/◌, ◌%◌}
use beagle_logic.Base.{
  Bool, true, false, Option, none, some, List, [], ◌∷◌, ◌++◌, ◌==◌, if◌then◌else◌, set, drop, u32,
}
use beagle_logic.Device.{BufList, BeagleLogicDev, Ret, ret, err, is_failure, armed, error}
use beagle_logic.System.{
  Platform, M, pure, ◌>>=◌, ◌>>◌, read_dev, update_dev, element, load, store, mutex_lock,
  mutex_unlock,
}
use beagle_logic.Buffers.{map_buffer, unmap_buffer}

-- A `uint32_t` in memory, little-endian.
abbrev pub word_bytes : ℕ → List ℕ
word_bytes w = w % 256 ∷ w / 256 % 256 ∷ w / 65536 % 256 ∷ w / 16777216 % 256 ∷ []

-- `*addr++ = cnt++` for `n` rounds.
unfoldable pub pattern_bytes : ℕ → ℕ → List ℕ
pattern_bytes zero cnt = []
pattern_bytes (suc n) cnt = word_bytes cnt ++ pattern_bytes n (u32 (cnt + 1))

-- The outer loop of the test pattern, for the `n` buffers from `i` on.
unfoldable pub fill_from : ℕ → ℕ → ℕ → M (Unit {0})
fill_from zero i cnt = pure tt
fill_from (suc n) i cnt = do
  d ← read_dev
  b ← load (element d i)
  store (element d i)
      (record b { mem = pattern_bytes (b.size / 4) cnt ++ drop (4 * (b.size / 4)) b.mem })
  fill_from n (i + 1) (u32 (cnt + b.size / 4))

unfoldable pub fill_buffer_testpattern : M (Unit {0})
fill_buffer_testpattern = do mutex_lock; d ← read_dev; fill_from d.bufcount 0 0; mutex_unlock

-- `pru_buflist[i] = …` in the memory of PRU0.
abbrev pub put_entry : ℕ → ℕ → ℕ → BeagleLogicDev → BeagleLogicDev
put_entry i start end d = record d {
  cxt_pru = record d.cxt_pru {
    list = set d.cxt_pru.list i (record { dma_start_addr = start; dma_end_addr = end });
  };
}

unfoldable pub unmap_from : ℕ → ℕ → M (Unit {0})
unmap_from zero j = pure tt
unmap_from (suc n) j = do d ← read_dev; unmap_buffer (element d j); unmap_from n (j + 1)

unfoldable pub write_table : ℕ → ℕ → M (Unit {0})
write_table zero i = pure tt
write_table (suc n) i = do
  d ← read_dev
  b ← load (element d i)
  update_dev (put_entry i b.phys_addr (u32 (b.phys_addr + b.size)))
  write_table n (i + 1)

-- `goto fail` at index `i`, or the rest of the loop.
abbrev pub go_on_or_fail : Bool → ℕ → M (Option ℕ) → M (Option ℕ)
go_on_or_fail true i rest = pure (some i)
go_on_or_fail false i rest = rest

module _ (k : Platform) where
  -- Maps the `n` buffers from `i` on; the index of the first that cannot be mapped, if any.
  unfoldable pub map_from : ℕ → ℕ → M (Option ℕ)
  map_from zero i = pure none
  map_from (suc n) i = do
    d ← read_dev
    rc ← map_buffer k (element d i)
    go_on_or_fail (is_failure rc) i (map_from n (i + 1))

  -- What follows the mapping loop: the table and its end mark, or the label `fail`.
  unfoldable pub submit : Option ℕ → M Ret
  submit none = do
    d ← read_dev
    write_table d.bufcount 0
    update_dev (put_entry d.bufcount 0 0)
    if d.bufcount == 0 then pure tt else update_dev (λ e. record e { state = armed })
    pure (ret 0)
  submit (some i) = do unmap_from i 0; update_dev (λ e. record e { state = error }); pure (ret 1)

  unfoldable pub map_and_submit_all_buffers : M Ret
  map_and_submit_all_buffers = do d ← read_dev; failed ← map_from d.bufcount 0; submit failed
