-- ===== src/Sysfs.antt =====
-- The device attributes of kernel/beaglelogic.c ("begin sysfs attrs"): what a write to the text
-- file of an attribute does, and what a read shows.
pub mod Buffers
pub mod Session
use Prim.Native.Nat.{ℕ, zero, suc, ◌+◌, ◌-◌, ◌*◌}
use beagle_logic.Base.{
  Option, none, some, List, [], ◌∷◌, ◌++◌, ltb, not, ◌==◌, if◌then◌else◌, drop, length, u32, word,
  round_up_32, take,
}
use beagle_logic.Device.{
  BeagleLogicDev, Ret, ret, err, is_failure, is_running, is_unmapped, einval, state_code,
}
use beagle_logic.System.{
  Platform, M, pure, ◌>>=◌, ◌>>◌, ignoring, read_dev, update_dev, element, load, undefined,
}
use beagle_logic.Buffers.{memalloc, memfree}
use beagle_logic.Submit.{map_and_submit_all_buffers, fill_buffer_testpattern}
use beagle_logic.Attributes.{
  get_samplerate, set_samplerate, get_sampleunit, set_sampleunit, get_triggerflags,
  set_triggerflags,
}
use beagle_logic.Irq.{wait_event_interruptible}
use beagle_logic.Capture.{start, stop}

-- The kernel's conversions of text: `kstrtouint` in base 10, `none` where it reports an error, and
-- the bytes that `scnprintf` makes of each format for 32-bit words.
pub record Text : Type 0 where
  pub kstrtouint : List ℕ → Option ℕ
  pub d_line : ℕ → List ℕ  -- "%d\n"
  pub minus_d_line : ℕ → List ℕ  -- "-%d\n"
  pub d_colon : ℕ → List ℕ  -- "%d:"
  pub x_u_line : ℕ → ℕ → List ℕ  -- "%08x,%u\n"

-- A write's result, and a read's with the page it has filled.
abbrev pub Shown : Type 0
Shown = ℕ × List ℕ

-- `scnprintf(buf, PAGE_SIZE, …)`: the text and its end mark over the start of the page.
abbrev pub print : List ℕ → List ℕ → Shown
print page text = (length text, text ++ 0 ∷ drop (length text + 1) page)

-- `PAGE_SIZE`: the page that an attribute is shown in has that many bytes.
abbrev pub page_size : ℕ
page_size = 4096

-- The page after a text and its end mark have been put at `offset`.
abbrev pub print_at : ℕ → List ℕ → List ℕ → List ℕ
print_at offset page text = take offset page ++ text ++ 0 ∷ drop (offset + length text + 1) page

-- `if (kstrtouint(buf, 10, &val)) return -EINVAL;` and the rest of the function.
abbrev pub with_value : Option ℕ → (ℕ → M Ret) → M Ret
with_value none rest = pure (err einval)
with_value (some val) rest = rest val

abbrev pub parsed : Text → List ℕ → (ℕ → M Ret) → M Ret
parsed x text rest = with_value (x.kstrtouint text) rest

-- `count`, or the error number of a setter.
abbrev pub count_or : ℕ → Ret → Ret
count_or count (ret zero) = ret count
count_or count (ret (suc n)) = ret (suc n)
count_or count (err e) = err e

-- "16bit\n" and "8bit\n"
abbrev pub unit_name : ℕ → Option (List ℕ)
unit_name unit =
    if unit == 0
    then some (49 ∷ 54 ∷ 98 ∷ 105 ∷ 116 ∷ 10 ∷ [])
    else if unit == 1
    then some (56 ∷ 98 ∷ 105 ∷ 116 ∷ 10 ∷ [])
    else none

-- "0:oneshot\n" and "1:continuous\n"
abbrev pub flags_line : ℕ → Option (List ℕ)
flags_line flags =
    if flags == 0
    then some (48 ∷ 58 ∷ 111 ∷ 110 ∷ 101 ∷ 115 ∷ 104 ∷ 111 ∷ 116 ∷ 10 ∷ [])
    else if flags == 1
    then some (49 ∷ 58 ∷ 99 ∷ 111 ∷ 110 ∷ 116 ∷ 105 ∷ 110 ∷ 117 ∷ 111 ∷ 117 ∷ 115 ∷ 10 ∷ [])
    else none

-- `bl_bufunitsize_store` once the number is read.
unfoldable pub resize : ℕ → ℕ → M Ret
resize val count = if ltb val 32 then pure (err einval) else (do
  update_dev (λ d. record d { bufunitsize = round_up_32 val })
  memfree
  pure (ret count))

-- The new buffers are submitted; the result of the mapping is not looked at.
abbrev pub submit_new : Platform → ℕ → Ret → M Ret
submit_new k count rc =
    if is_failure rc then pure rc else ignoring (map_and_submit_all_buffers k) >> pure (ret count)

-- `bl_memalloc_store` once the number is read.
unfoldable pub reallocate : Platform → ℕ → ℕ → M Ret
reallocate k val count = do
  d ← read_dev
  if ltb (u32 (d.maxbufcount * d.bufunitsize)) val
      then pure (err einval)
      else (do memfree; rc ← memalloc k val; submit_new k count rc)

module _ (x : Text) where
  unfoldable pub bl_bufunitsize_show : List ℕ → M Shown
  bl_bufunitsize_show page = read_dev >>= λ d. pure (print page (x.d_line d.bufunitsize))

  unfoldable pub bl_bufunitsize_store : List ℕ → ℕ → M Ret
  bl_bufunitsize_store text count = parsed x text (λ val. resize val count)

  unfoldable pub bl_memalloc_show : List ℕ → M Shown
  bl_memalloc_show page =
      read_dev >>= λ d. pure (print page (x.d_line (u32 (d.bufcount * d.bufunitsize))))

  unfoldable pub bl_samplerate_show : List ℕ → M Shown
  bl_samplerate_show page = read_dev >>= λ d. pure (print page (x.d_line (get_samplerate d)))

  unfoldable pub bl_samplerate_store : List ℕ → ℕ → M Ret
  bl_samplerate_store text count =
      parsed x text
        (λ val. do rc ← set_samplerate val; pure (if is_failure rc then err einval else ret count))

  -- The name is printed over the number, at the start of the page; the counts are added.
  unfoldable pub bl_sampleunit_show : List ℕ → M Shown
  bl_sampleunit_show page = do
    d ← read_dev
    let number = print page (x.d_colon (get_sampleunit d)) in
        elim (unit_name (get_sampleunit d)) [
          | none ↦ pure number
          | some name ↦ pure (number.0 + length name, (print number.1 name).1)
        ]

  unfoldable pub bl_sampleunit_store : List ℕ → ℕ → M Ret
  bl_sampleunit_store text count =
      parsed x text (λ val. set_sampleunit val >>= λ rc. pure (count_or count rc))

  unfoldable pub bl_triggerflags_show : List ℕ → M Shown
  bl_triggerflags_show page = do
    d ← read_dev
    elim (flags_line (get_triggerflags d)) [
      | none ↦ pure (0, page)
      | some line ↦ pure (print page line)
    ]

  unfoldable pub bl_triggerflags_store : List ℕ → ℕ → M Ret
  bl_triggerflags_store text count =
      parsed x text (λ val. set_triggerflags val >>= λ rc. pure (count_or count rc))

  -- The loop of `bl_buffers_show`, for the `n` buffers from `i` on, with `cnt` bytes already in the
  -- page. Each line may be as long as a page wherever it starts, so that a line which does not fit
  -- in what is left is written past the end of the page.
  unfoldable pub buffer_lines : ℕ → ℕ → ℕ → List ℕ → M Shown
  buffer_lines zero i cnt page = pure (cnt, page)
  buffer_lines (suc n) i cnt page = do
    d ← read_dev
    b ← load (element d i)
    let line = x.x_u_line b.phys_addr b.size in
        if ltb page_size (cnt + length line + 1)
        then undefined
        else buffer_lines n (i + 1) (cnt + length line) (print_at cnt page line)

  unfoldable pub bl_buffers_show : List ℕ → M Shown
  bl_buffers_show page = read_dev >>= λ d. buffer_lines d.bufcount 0 0 page

  unfoldable pub bl_testpattern_store : List ℕ → ℕ → M Ret
  bl_testpattern_store text count = parsed x text (λ val.
      if val == 12_345_678 then fill_buffer_testpattern >> pure (ret count) else pure (ret count))

  module _ (k : Platform) where
    unfoldable pub bl_memalloc_store : List ℕ → ℕ → M Ret
    bl_memalloc_store text count = parsed x text (λ val. reallocate k val count)

    unfoldable pub bl_state_show : List ℕ → M Shown
    bl_state_show page = do
      d ← read_dev
      if is_running d.state
          then (do
            ignoring (
                wait_event_interruptible k
                  (load d.bufbeingread >>= λ b. pure (is_unmapped b.state)))
            b ← load d.bufbeingread
            pure (print page (x.d_line b.index)))
          else pure (print page (x.minus_d_line (u32 (word - state_code d.state))))

    unfoldable pub bl_state_store : List ℕ → ℕ → M Ret
    bl_state_store text count = parsed x text (λ val.
        if ltb 1 val
        then pure (err einval)
        else if val == 1
        then ignoring (start k) >> pure (ret count)
        else stop k >> pure (ret count))

    unfoldable pub bl_lasterror_show : List ℕ → M Shown
    bl_lasterror_show page = do
      ignoring (wait_event_interruptible k (read_dev >>= λ d. pure (not (is_running d.state))))
      d ← read_dev
      pure (print page (x.d_line d.lasterror))

-- The attributes of the group `beaglelogic_attr_group`.
pub data Attribute : Type 0 where
  bufunitsize memalloc_size samplerate sampleunit triggerflags state buffers : Attribute
  lasterror filltestpattern : Attribute

module _ (x : Text) (k : Platform) where
  -- What reads an attribute's file, or NULL.
  unfoldable pub show_attr : Attribute → Option (List ℕ → M Shown)
  show_attr bufunitsize = some (bl_bufunitsize_show x)
  show_attr memalloc_size = some (bl_memalloc_show x)
  show_attr samplerate = some (bl_samplerate_show x)
  show_attr sampleunit = some (bl_sampleunit_show x)
  show_attr triggerflags = some (bl_triggerflags_show x)
  show_attr state = some (bl_state_show x k)
  show_attr buffers = some (bl_buffers_show x)
  show_attr lasterror = some (bl_lasterror_show x k)
  show_attr filltestpattern = none

  -- What writes an attribute's file, or NULL.
  unfoldable pub store_attr : Attribute → Option (List ℕ → ℕ → M Ret)
  store_attr bufunitsize = some (bl_bufunitsize_store x)
  store_attr memalloc_size = some (bl_memalloc_store x k)
  store_attr samplerate = some (bl_samplerate_store x)
  store_attr sampleunit = some (bl_sampleunit_store x)
  store_attr triggerflags = some (bl_triggerflags_store x)
  store_attr state = some (bl_state_store x k)
  store_attr buffers = none
  store_attr lasterror = none
  store_attr filltestpattern = some (bl_testpattern_store x)
