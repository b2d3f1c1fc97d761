-- ===== src/System.antt =====
-- The state that a call of the driver works on, and how a call ends.
-- What is not the driver's code is the parameter `Platform`: the answers of the kernel's functions
-- and of the firmware. Each answer may depend on the number of the call.
pub mod Settles
pub mod Returns
pub mod Mutex
pub mod Runs
pub mod Keeps
use beagle_logic.Base.{
  ℕ, ◌+◌, Bool, true, false, Option, none, some, List, ◌∷◌, ◌==◌, if◌then◌else◌, get_elem?, set,
  erase,
}
use beagle_logic.Device.{
  BeagleLogicDev, LogicBuffer, LogicBufferReader, BufferArray, BufPtr, CaptureContext,
}

-- What the driver calls outside its own code. The first argument counts the calls made so far.
pub record Platform : Type 0 where
  -- The address of a new block of that size, or NULL.
  pub kmalloc : ℕ → ℕ → Option ℕ
  -- Whether the zeroed array of that many bytes is granted.
  pub devm_kzalloc : ℕ → ℕ → Bool
  pub virt_to_phys : ℕ → ℕ
  -- The bus address for an address and a size; `none` where `dma_mapping_error` reports an error.
  pub dma_map_single : ℕ → Option ℕ → ℕ → Option ℕ
  -- Whether all of that many bytes are copied to the user.
  pub copy_to_user : ℕ → ℕ → Bool
  -- Whether a range of the user's, by its address, is mapped to a page frame and those after it, for
  -- that many bytes.
  pub remap_pfn_range : ℕ → ℕ → ℕ → ℕ → Bool
  -- After how many looks at `cmd` the firmware has answered, and the response.
  pub answers_after : ℕ → ℕ
  pub respond : ℕ → CaptureContext → ℕ

-- What can end a wait: an interrupt of that number, or a signal to the waiting task.
pub data Event : Type 0 where
  irq : ℕ → Event
  signal : Event

-- The device, the file that a file operation was called on, the number of platform calls made, the
-- addresses that are allocated, and what will happen while calls wait, in order.
pub record System : Type 0 where
  pub dev : BeagleLogicDev
  pub reader : LogicBufferReader
  pub calls : ℕ
  pub heap : List ℕ
  pub events : List Event

-- A call returns, sleeps for ever in the state shown (no event that is to come wakes it), is still
-- in a loop when the fuel of that loop is used up, or does what C leaves undefined: an access
-- through NULL or to freed memory, a division by 0.
pub data Run (A : Type 0) : Type 0 where
  done : A → System → Run A
  sleeps : System → Run A
  spins : Run A
  oops : Run A

abbrev pub M : Type 0 → Type 0
M A = System → Run A

abbrev pub pure : {A : Type 0} → A → M A
pure a s = done a s

abbrev pub and_then : {A B : Type 0} → Run A → (A → M B) → Run B
and_then (done a t) f = f a t
and_then (sleeps t) f = sleeps t
and_then spins f = spins
and_then oops f = oops

infixl 5 ◌>>=◌ ◌>>◌
abbrev pub ◌>>=◌ : {A B : Type 0} → M A → (A → M B) → M B
◌>>=◌ m f s = and_then (m s) f

abbrev pub ◌>>◌ : {B : Type 0} → M (Unit {0}) → M B → M B
m >> k = m >>= λ _. k

-- A call whose result is not looked at.
abbrev pub ignoring : {A : Type 0} → M A → M (Unit {0})
ignoring m = m >>= λ _. pure tt

abbrev pub read_dev : M BeagleLogicDev
read_dev s = done s.dev s

abbrev pub read_reader : M LogicBufferReader
read_reader s = done s.reader s

abbrev pub update_dev : (BeagleLogicDev → BeagleLogicDev) → M (Unit {0})
update_dev f s = done tt (record s { dev = f s.dev })

abbrev pub update_reader : (LogicBufferReader → LogicBufferReader) → M (Unit {0})
update_reader f s = done tt (record s { reader = f s.reader })

abbrev pub spinning : {A : Type 0} → M A
spinning s = spins

abbrev pub undefined : {A : Type 0} → M A
undefined s = oops

-- `&bldev->buffers[i]`.
abbrev pub element : BeagleLogicDev → ℕ → Option BufPtr
element d i = elim d.buffers [
  | none ↦ none
  | some arr ↦ some (record { array = arr.id; index = i })
]

abbrev pub find_in : BufPtr → Option BufferArray → Option LogicBuffer
find_in p none = none
find_in p (some arr) = if p.array == arr.id then get_elem? arr.items p.index else none

-- The buffer at a pointer, if the pointer is into the present array.
abbrev pub find_buffer : BeagleLogicDev → Option BufPtr → Option LogicBuffer
find_buffer d none = none
find_buffer d (some p) = find_in p d.buffers

unfoldable pub load : Option BufPtr → M LogicBuffer
load p s = elim (find_buffer s.dev p) [ none ↦ oops | some b ↦ done b s ]

abbrev pub set_in : BufPtr → LogicBuffer → Option BufferArray → Option BufferArray
set_in p b none = none
set_in p b (some arr) = some (record arr { items = set arr.items p.index b })

abbrev pub set_buffer : BeagleLogicDev → BufPtr → LogicBuffer → BeagleLogicDev
set_buffer d p b = record d { buffers = set_in p b d.buffers }

abbrev pub set_at : BeagleLogicDev → Option BufPtr → LogicBuffer → BeagleLogicDev
set_at d none b = d
set_at d (some p) b = set_buffer d p b

-- A write through a pointer that has just been read through.
unfoldable pub store : Option BufPtr → LogicBuffer → M (Unit {0})
store p b s = done tt (record s { dev = set_at s.dev p b })

-- `mutex_lock`: sleeps while the mutex is locked. No event of the model unlocks it.
unfoldable pub mutex_lock : M (Unit {0})
mutex_lock s =
    if s.dev.mutex then sleeps s else done tt (record s { dev = record s.dev { mutex = true } })

unfoldable pub mutex_unlock : M (Unit {0})
mutex_unlock s = done tt (record s { dev = record s.dev { mutex = false } })

-- `mutex_trylock`: whether the mutex was free, and is now taken.
unfoldable pub mutex_trylock : M Bool
mutex_trylock s =
    if s.dev.mutex
    then done false s
    else done true (record s { dev = record s.dev { mutex = true } })

-- `if (p) kfree(p);`
unfoldable pub kfree : Option ℕ → M (Unit {0})
kfree none s = done tt s
kfree (some p) s = done tt (record s { heap = erase p s.heap })

module _ (k : Platform) where
  unfoldable pub kmalloc : ℕ → M (Option ℕ)
  kmalloc size s = elim (k.kmalloc s.calls size) [
    | none ↦ done none (record s { calls = s.calls + 1 })
    | some p ↦ done (some p) (record s { calls = s.calls + 1; heap = p ∷ s.heap })
  ]

  -- The number of the allocation, or `none` for NULL.
  unfoldable pub devm_kzalloc : ℕ → M (Option ℕ)
  devm_kzalloc size s =
      done (if k.devm_kzalloc s.calls size then some s.calls else none)
        (record s { calls = s.calls + 1 })

  unfoldable pub dma_map_single : Option ℕ → ℕ → M (Option ℕ)
  dma_map_single va size s =
      done (k.dma_map_single s.calls va size) (record s { calls = s.calls + 1 })

  unfoldable pub copy_to_user : ℕ → M Bool
  copy_to_user n s = done (k.copy_to_user s.calls n) (record s { calls = s.calls + 1 })

  unfoldable pub remap_pfn_range : ℕ → ℕ → ℕ → M Bool
  remap_pfn_range addr pfn size s =
      done (k.remap_pfn_range s.calls addr pfn size) (record s { calls = s.calls + 1 })
