-- ===== src/Safety/Reach.antt =====
-- The states that a device reaches by calls of the driver, by interrupts and by what its users do.
use beagle_logic.Base.{ℕ, ◌≡◌, Bool, List, ℤ, sym}
use beagle_logic.Device.{LogicBufferReader}
use beagle_logic.System.{Platform, System, Event, M, done, sleeps, ignoring}
use beagle_logic.System.Keeps.{After, Keeps, Keeps-ignoring}
use beagle_logic.Irq.{serve_irq}
use beagle_logic.File.{f_open, f_read, f_mmap, f_release, f_llseek, f_poll, Whence}
use beagle_logic.Ioctl.{IoctlCmd, f_ioctl}
use beagle_logic.Sysfs.{Text, Attribute, show_attr, store_attr}
use beagle_logic.Safety.{Sound, SoundIn, Anything, Sound-rest}
use beagle_logic.Safety.Irq.{Keeps-serve_irq}
use beagle_logic.Safety.File.{
  Keeps-f_open, Keeps-f_read, Keeps-f_mmap, Keeps-f_release, Keeps-f_llseek, Keeps-f_poll,
}
use beagle_logic.Safety.Calls.{Keeps-f_ioctl}
use beagle_logic.Safety.Attributes.{read_file, write_file, Keeps-read_file, Keeps-write_file}
use mathlib.Core.Path.{subst}

-- What the driver is called for.
pub data Call : Type 0 where
  open_file release_file poll_file : Call
  read : Bool → ℕ → Call
  mmap : ℕ → ℕ → Call
  llseek : ℕ → ℤ → Whence → Call
  ioctl : IoctlCmd → Call
  read_attribute : Attribute → List ℕ → Call
  write_attribute : Attribute → List ℕ → ℕ → Call
  interrupt : ℕ → Call

module _ (x : Text) (k : Platform) where
  unfoldable pub perform : Call → M (Unit {0})
  perform open_file = ignoring (f_open k)
  perform release_file = ignoring (f_release k)
  perform poll_file = ignoring f_poll
  perform (read nonblock sz) = ignoring (f_read k nonblock sz)
  perform (mmap addr len) = ignoring (f_mmap k addr len)
  perform (llseek fuel offset whence) = ignoring (f_llseek k fuel offset whence)
  perform (ioctl c) = ignoring (f_ioctl k c)
  perform (read_attribute a page) = read_file page (show_attr x k a)
  perform (write_attribute a text count) = write_file text count (store_attr x k a)
  perform (interrupt n) = serve_irq k n

  -- A call returns; a call goes to sleep and others come meanwhile; the next call is on another
  -- file, or comes with other interrupts and signals ahead.
  pub data Step (s t : System) : Type 0 where
    returned : (c : Call) → perform c s ≡ done tt t → Step s t
    slept : (c : Call) → perform c s ≡ sleeps t → Step s t
    elsewhere :
        (r : LogicBufferReader) (es : List Event)
        → t ≡ record s { reader = r; events = es }
        → Step s t

  pub data Reach (s : System) : System → Type 0 where
    start : Reach s s
    next : {t u : System} → Reach s t → Step t u → Reach s u

  Keeps-perform : (c : Call) → Keeps (SoundIn Anything) (perform c)
  unfolding perform
  Keeps-perform open_file = Keeps-ignoring _ (Keeps-f_open k)
  Keeps-perform release_file = Keeps-ignoring _ (Keeps-f_release k)
  Keeps-perform poll_file = Keeps-ignoring _ Keeps-f_poll
  Keeps-perform (read nonblock sz) = Keeps-ignoring _ (Keeps-f_read k nonblock sz)
  Keeps-perform (mmap addr len) = Keeps-ignoring _ (Keeps-f_mmap k addr len)
  Keeps-perform (llseek fuel offset whence) = Keeps-ignoring _ (Keeps-f_llseek k fuel offset whence)
  Keeps-perform (ioctl c) = Keeps-ignoring _ (Keeps-f_ioctl k c)
  Keeps-perform (read_attribute a page) = Keeps-read_file x k page a
  Keeps-perform (write_attribute a text count) = Keeps-write_file x k text count a
  Keeps-perform (interrupt n) = Keeps-serve_irq Anything k (λ _ _ _. tt) n

  Step-Sound : {s t : System} → Step s t → Sound s → Sound t
  Step-Sound {s} {t} (returned c e) h =
      (subst (After (SoundIn Anything) (SoundIn Anything)) e ((Keeps-perform c).at s (h, tt))).0
  Step-Sound {s} {t} (slept c e) h =
      (subst (After (SoundIn Anything) (SoundIn Anything)) e ((Keeps-perform c).at s (h, tt))).0
  Step-Sound {s} {t} (elsewhere r es e) h = subst Sound (sym e) (Sound-rest r s.calls es s h)

  -- Every state that is reached from a sound one is sound: the settings are in range, the buffers
  -- are none or form a ring, the blocks in use are those of the ring, each once, and a running
  -- capture holds the mutex. This holds whatever the platform answers, for calls on any number of
  -- open files, and also while calls sleep.
  pub Reach-Sound : {s t : System} → Sound s → Reach s t → Sound t
  Reach-Sound h start = h
  Reach-Sound h (next r st) = Step-Sound st (Reach-Sound h r)
