-- ===== src/Use.antt =====
-- A device in use: a capture has been started on a ring of buffers, which stays. Here is what then
-- keeps every call from an access through NULL or to freed memory, and a rule for each way to build a
-- call.
pub mod Rules
pub mod Writes
pub mod Driver
pub mod Files
pub mod Opening
pub mod Settings
pub mod Calls
pub mod Attributes
pub mod Start
pub mod Reach
use beagle_logic.Base.{ℕ, ◌≤◌, ◌<◌, ◌≡◌, ◌≢◌, ◌⊎◌, Option, none, some, List}
use beagle_logic.Device.{BufPtr, LogicBuffer, BeagleLogicDev, LogicBufferReader}
use beagle_logic.System.{System, M}
use beagle_logic.System.Settles.{Settles}
use beagle_logic.Buffers.Ring.{IsRing}

module _ (cnt size id : ℕ) where
  -- A pointer to a buffer of the ring.
  abbrev pub InRing : Option BufPtr → Type 0
  InRing p = (j : ℕ) × (p ≡ some (record { array = id; index = j })) × (j < cnt)

  pub record DeviceInUse (d : BeagleLogicDev) : Type 0 where
    pub items : List LogicBuffer
    pub ring : IsRing d (record { id = id; items = items }) cnt size
    pub reading : InRing d.bufbeingread
    pub rate : d.samplerate ≢ 0

  -- A reader that has been put at a buffer, and one that has not.
  pub record Standing (r : LogicBufferReader) : Type 0 where
    pub buf_in : InRing r.buf
    pub some_left : 1 ≤ r.remaining

  pub record Fresh (r : LogicBufferReader) : Type 0 where
    pub no_buf : r.buf ≡ none
    pub at_start : r.pos ≡ 0

  abbrev pub Opened : LogicBufferReader → Type 0
  Opened r = Standing r ⊎ Fresh r

  -- The device in use, with an open file that satisfies `F`.
  pub record InUse (F : LogicBufferReader → Type 0) (s : System) : Type 0 where
    pub device : DeviceInUse s.dev
    pub file : F s.reader

-- From a state that satisfies `P` the call returns or sleeps, in one that satisfies `Q`.
pub record Safe {A : Type 0} (P Q : System → Type 0) (m : M A) : Type 0 where
  pub at : (s : System) → P s → Settles (λ _ t. Q t) Q (m s)

module _ (cnt size id : ℕ) where
  -- Calls on a file that stands in the ring, and on any open file.
  abbrev pub OnFile : {A : Type 0} → M A → Type 0
  OnFile m =
      Safe (InUse cnt size id (Standing cnt size id)) (InUse cnt size id (Standing cnt size id)) m

  abbrev pub OnOpened : {A : Type 0} → M A → Type 0
  OnOpened m =
      Safe (InUse cnt size id (Opened cnt size id)) (InUse cnt size id (Opened cnt size id)) m
