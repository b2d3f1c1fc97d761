-- ===== src/Safety.antt =====
-- What every operation of the driver keeps: the invariant, one rule for each operation, and the
-- states that a device can reach.
pub mod Frame
pub mod Store
pub mod Locks
pub mod Irq
pub mod Buffers
pub mod Capture
pub mod File
pub mod Calls
pub mod Attributes
pub mod Reach
use beagle_logic.Base.{ℕ, ◌/◌, ◌≤◌, ◌≡◌, true, false, Option, none, some, List, [], count, Bool}
use beagle_logic.Device.{DeviceState, BufferArray, is_running, LogicBufferReader}
use beagle_logic.System.{System, Event}
use beagle_logic.Buffers.Ring.{HoldsRing}
use beagle_logic.Buffers.Alloc.{blocks}

-- The blocks that the buffers of the device hold.
abbrev pub held : Option BufferArray → List ℕ
held none = []
held (some arr) = blocks arr.items

-- The settings are in range, the buffers form a ring, the blocks in use are those of the ring, each
-- once, and a running capture has the mutex.
pub record Sound (s : System) : Type 0 where
  pub ring : HoldsRing s.dev
  pub owned : (a : ℕ) → count a s.heap ≡ count a (held s.dev.buffers)
  pub rate_pos : 1 ≤ s.dev.samplerate
  pub rate_le : s.dev.samplerate ≤ s.dev.coreclockfreq / 2
  pub unit_le : s.dev.sampleunit ≤ 2
  pub flags_le : s.dev.triggerflags ≤ 1
  pub running_locked : is_running s.dev.state ≡ true → s.dev.mutex ≡ true

-- Sound, in a device state that satisfies `R`.
abbrev pub SoundIn : (Bool → DeviceState → Type 0) → System → Type 0
SoundIn R s = Sound s × R s.dev.mutex s.dev.state

abbrev pub Anything : Bool → DeviceState → Type 0
Anything m st = Unit {0}

abbrev pub NotRunning : Bool → DeviceState → Type 0
NotRunning m st = is_running st ≡ false

-- The code holds the mutex, and no capture runs yet.
abbrev pub Critical : Bool → DeviceState → Type 0
Critical m st = (m ≡ true) × (is_running st ≡ false)

-- What the invariant does not read.
pub Sound-rest :
    (r : LogicBufferReader) (n : ℕ) (es : List Event) (s : System)
    → Sound s
    → Sound (record s { reader = r; calls = n; events = es })
Sound-rest r n es s h = record {
  ring = h.ring;
  owned = h.owned;
  rate_pos = h.rate_pos;
  rate_le = h.rate_le;
  unit_le = h.unit_le;
  flags_le = h.flags_le;
  running_locked = h.running_locked;
}
