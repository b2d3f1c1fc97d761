-- ===== src/Tests/Use.antt =====
-- A device in use, at a concrete input.
use beagle_logic.Base.{◌≡◌, refl, some, [], ◌∷◌, pos}
use beagle_logic.Device.BufState.{mapped}
use beagle_logic.System.{System, irq, oops, load}
use beagle_logic.System.Returns.{Returns}
use beagle_logic.System.Settles.{Settles}
use beagle_logic.File.{f_llseek, seek_cur, seek_loop, detect_drop}
use beagle_logic.Ioctl.{f_ioctl, get_cur_index}
use beagle_logic.Tests.{granting, closed, loaded, first, second}
use beagle_logic.Tests.Reading.{waiting_reader}

-- The first buffer is full, and the second one is in work.
abbrev after_first : System
after_first = record waiting_reader {
  dev = record waiting_reader.dev {
    buffers = some (record { id = 5; items = first ∷ record second { state = mapped } ∷ [] });
    lastbufready = some (record { array = 5; index = 0 });
    bufbeingread = some (record { array = 5; index = 1 });
  };
}

-- Then a file that has just been opened is read, while a buffer becomes full and the PRU stops.
abbrev another_file : System
another_file = record after_first { reader = closed; events = irq 21 ∷ irq 22 ∷ [] }

-- On a device with buffers that has not captured, two calls that a device in use answers do what C
-- leaves undefined.
before_capture :
    (f_ioctl granting get_cur_index loaded ≡ oops)
    × (f_llseek granting 8 (pos 8) seek_cur loaded ≡ oops)
unfolding f_ioctl f_llseek seek_loop detect_drop load
before_capture = (refl, refl)
