-- ===== src/Tests/Reading.antt =====
-- A read that blocks, at a concrete input.
use Prim.Native.Nat.{zero, suc}
use beagle_logic.Base.{refl, some, List, [], ◌∷◌, arith, true, false}
use beagle_logic.Device.{LogicBuffer, running}
use beagle_logic.Device.BufState.{mapped}
use beagle_logic.System.{System, irq}
use beagle_logic.System.Returns.{Returns}
use beagle_logic.Buffers.Ring.{IsRing, AllPlaced, content}
use beagle_logic.File.{f_read}
use beagle_logic.File.Walk.{Position}
use beagle_logic.File.Reader.{IsAt}
use beagle_logic.File.Events.{InWork, f_read-Settles}
use beagle_logic.File.Read.{ReadOutcome}
use beagle_logic.System.Settles.{Settles}
use beagle_logic.Tests.{granting, loaded, first, second}

abbrev pub mapped_pair : List LogicBuffer
mapped_pair = record first { state = mapped } ∷ record second { state = mapped } ∷ []

abbrev at_second : Position
at_second = record { buffer = 1; offset = 0 }

-- A continuous capture that fills the first buffer; the reader is at the second.
abbrev pub waiting_reader : System
waiting_reader = record loaded {
  dev = record loaded.dev {
    buffers = some (record { id = 5; items = mapped_pair });
    bufbeingread = some (record { array = 5; index = 0 });
    mutex = true;
    triggerflags = 1;
    state = running;
  };
  reader = record { buf = some (record { array = 5; index = 1 }); pos = 0; remaining = 32 };
  events = irq 21 ∷ irq 21 ∷ irq 22 ∷ [];
}

mapped_pair-AllPlaced : AllPlaced 2 32 mapped_pair
mapped_pair-AllPlaced zero b e = ground arith
mapped_pair-AllPlaced (suc zero) b e = ground arith
mapped_pair-AllPlaced (suc (suc i)) b e = cc

pub waiting_reader-Ring : IsRing waiting_reader.dev (record { id = 5; items = mapped_pair }) 2 32
waiting_reader-Ring = record {
  present = refl;
  count_eq = refl;
  length_eq = refl;
  two = omega arith;
  nonempty = omega arith;
  placed = mapped_pair-AllPlaced;
}

waiting_reader-IsAt : IsAt 2 32 5 (content mapped_pair) at_second waiting_reader
waiting_reader-IsAt = record {
  items = mapped_pair;
  ring = waiting_reader-Ring;
  same_bytes = λ j. refl;
  buf_eq = refl;
  pos_eq = refl;
  remaining_eq = refl;
  buffer_lt = omega arith;
  offset_lt = omega arith;
}

-- The file has just been opened, and no capture runs.
abbrev just_opened : System
just_opened = record loaded {
  dev = record loaded.dev { buffers = some (record { id = 5; items = mapped_pair }) };
  events = irq 21 ∷ irq 22 ∷ [];
}

f_read-Settles_example :
    Settles
      (ReadOutcome 2 32 5 (content mapped_pair) at_second 10 waiting_reader)
      (InWork 2 32 5 (content mapped_pair) at_second)
      (f_read granting false 10 waiting_reader)
f_read-Settles_example =
    f_read-Settles granting 2 32 5 (content mapped_pair) at_second 10 waiting_reader
      (record { at = waiting_reader-IsAt; q = 0; reading = refl; q_lt = omega arith })
