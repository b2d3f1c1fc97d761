-- ===== src/Use/Reach.antt =====
-- A device in use through any sequence of calls.
use beagle_logic.Base.{ℕ, ◌^◌, ◌≤◌, ◌<◌, ◌≡◌, List, ℤ, pos}
use beagle_logic.Device.{LogicBufferReader}
use beagle_logic.System.{Platform, System, Event, Run, done, sleeps}
use beagle_logic.System.Settles.{Settles}
use beagle_logic.File.{Whence, seek_cur}
use beagle_logic.Sysfs.{Text}
use beagle_logic.Safety.Reach.{
  Call, poll_file, llseek, ioctl, read_attribute, write_attribute, perform,
}
use beagle_logic.Use.{InUse, Standing, Opened}
use beagle_logic.Use.Calls.{KeepsBuffers}
use beagle_logic.Use.Attributes.{KeepsRing, FitsPage}

module _ (cnt size id : ℕ) where
  -- A seek forward, for which the reader has to stand at a buffer. The offset is a 32-bit number.
  unfoldable pub SeeksWell : ℕ → ℤ → Whence → LogicBufferReader → Type 0
  SeeksWell fuel (pos n) seek_cur r = Standing cnt size id r × (n ≤ fuel) × (n < 2 ^ 32)
  SeeksWell fuel offset whence r = Unit

  -- The calls that a program may make of a device in use: no call replaces the buffers, and a file
  -- that has not been read is neither polled nor sought forward, and the list of the buffers is read
  -- only where it fits in a page, with lines of at most `width` bytes.
  unfoldable pub FitsFile : ℕ → Call → LogicBufferReader → Type 0
  FitsFile width poll_file r = Standing cnt size id r
  FitsFile width (llseek fuel offset whence) r = SeeksWell fuel offset whence r
  FitsFile width (ioctl c) r = KeepsBuffers c
  FitsFile width (read_attribute a page) r = FitsPage cnt width a
  FitsFile width (write_attribute a text count) r = KeepsRing a
  FitsFile width c r = Unit

module _ (x : Text) (k : Platform) (cnt size id width : ℕ) where
  abbrev InUseOpened : System → Type 0
  InUseOpened = InUse cnt size id (Opened cnt size id)

  abbrev Settled : {A : Type 0} → Run A → Type 0
  Settled r = Settles (λ _ t. InUseOpened t) InUseOpened r

  -- A call that fits returns; such a call goes to sleep and others come meanwhile; the next call is
  -- on another open file, or comes with other interrupts and signals ahead.
  pub data UseStep (s t : System) : Type 0 where
    returned :
        (c : Call)
        → FitsFile cnt size id width c s.reader
        → perform x k c s ≡ done tt t
        → UseStep s t
    slept :
        (c : Call)
        → FitsFile cnt size id width c s.reader
        → perform x k c s ≡ sleeps t
        → UseStep s t
    elsewhere :
        (r : LogicBufferReader) (es : List Event)
        → Opened cnt size id r
        → t ≡ record s { reader = r; events = es }
        → UseStep s t

  pub data UseReach (s : System) : System → Type 0 where
    start : UseReach s s
    next : {t u : System} → UseReach s t → UseStep t u → UseReach s u
