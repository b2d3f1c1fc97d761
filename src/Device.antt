-- ===== src/Device.antt =====
-- The data of the kernel driver: the enumerations of kernel/beaglelogic.h and the structures at
-- the top of kernel/beaglelogic.c.
-- A `struct logic_buffer *` is the array it points into, by the number of its allocation, with the
-- element's index: a pointer that outlives its array can be told from one into the next array.
-- NULL is `none`. A link `next` stays inside its array and is an index. A byte address is a number.
-- Integers are `uint32_t` unless a comment says otherwise.
use beagle_logic.Base.{ℕ, Bool, true, false, Option, none, some, List, ◌&&◌, ◌==◌, not}

pub data DeviceState : Type 0 where
  disabled initialized memallocd armed running request_stop error : DeviceState

-- The value of the enumerator.
unfoldable pub state_code : DeviceState → ℕ
state_code disabled = 0
state_code initialized = 1
state_code memallocd = 2
state_code armed = 3
state_code running = 4
state_code request_stop = 5
state_code error = 6

pub data BufState : Type 0 where
  alloc mapped unmapped dropped : BufState

-- Tests by `==` and `!=` on the two enumerations.
abbrev pub is_running : DeviceState → Bool
is_running running = true
is_running _ = false

abbrev pub is_initialized : DeviceState → Bool
is_initialized initialized = true
is_initialized _ = false

abbrev pub is_request_stop : DeviceState → Bool
is_request_stop request_stop = true
is_request_stop _ = false

abbrev pub is_error : DeviceState → Bool
is_error error = true
is_error _ = false

abbrev pub is_mapped : BufState → Bool
is_mapped mapped = true
is_mapped _ = false

abbrev pub is_unmapped : BufState → Bool
is_unmapped unmapped = true
is_unmapped _ = false

-- `struct logic_buffer`, with the bytes that `buf` points to in `mem`.
pub record LogicBuffer : Type 0 where
  pub buf : Option ℕ
  pub phys_addr : ℕ
  pub size : ℕ
  pub state : BufState
  pub index : ℕ  -- unsigned short
  pub next : ℕ
  pub mem : List ℕ

-- The array that `bldev->buffers` points to, with the number of its allocation.
pub record BufferArray : Type 0 where
  pub id : ℕ
  pub items : List LogicBuffer

pub record BufPtr : Type 0 where
  pub array : ℕ
  pub index : ℕ

abbrev pub same_ptr : Option BufPtr → Option BufPtr → Bool
same_ptr none none = true
same_ptr none (some q) = false
same_ptr (some p) none = false
same_ptr (some p) (some q) = p.array == q.array && p.index == q.index

-- `struct buflist`: one entry of the list that the PRU works through.
pub record BufList : Type 0 where
  pub dma_start_addr : ℕ
  pub dma_end_addr : ℕ

-- `struct capture_context`, in PRU0's memory. `list` is the memory from `list_head` on.
pub record CaptureContext : Type 0 where
  pub magic : ℕ
  pub cmd : ℕ
  pub resp : ℕ
  pub samplediv : ℕ
  pub sampleunit : ℕ
  pub triggerflags : ℕ
  pub list : List BufList

-- `struct beaglelogicdev`. `mutex` says whether the mutex is locked; of the handles to the platform
-- (misc device, PRUs, firmware names) the operations below use none.
pub record BeagleLogicDev : Type 0 where
  pub to_bl_irq : ℕ
  pub from_bl_irq_1 : ℕ
  pub from_bl_irq_2 : ℕ
  pub coreclockfreq : ℕ
  pub mutex : Bool
  pub buffers : Option BufferArray
  pub lastbufready : Option BufPtr
  pub bufbeingread : Option BufPtr
  pub bufcount : ℕ
  pub cxt_pru : CaptureContext
  pub maxbufcount : ℕ
  pub bufunitsize : ℕ
  pub samplerate : ℕ
  pub triggerflags : ℕ
  pub sampleunit : ℕ
  pub state : DeviceState
  pub lasterror : ℕ

-- `struct logic_buffer_reader`: one open file.
pub record LogicBufferReader : Type 0 where
  pub buf : Option BufPtr
  pub pos : ℕ
  pub remaining : ℕ

-- The error numbers that the driver returns, each a negative `int`; `minus_one` is a plain -1.
pub data Errno : Type 0 where
  minus_one ebusy enomem einval eio eagain efault enoexec enotty erestartsys enodev : Errno

-- A returned `int`: not negative, or an error number.
pub data Ret : Type 0 where
  ret : ℕ → Ret
  err : Errno → Ret

-- `if (rc)`: a return value other than 0.
abbrev pub is_failure : Ret → Bool
is_failure (ret n) = not (n == 0)
is_failure (err e) = true
