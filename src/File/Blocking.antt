-- ===== src/File/Blocking.antt =====
-- `beaglelogic_f_read` where it blocks: a read that waits for the PRU, and the first read of all.
use beagle_logic.Base.{ℕ, List}
use beagle_logic.Device.{LogicBuffer}
use beagle_logic.System.{Platform, System, element}
use beagle_logic.System.Returns.{Returns}
use beagle_logic.Buffers.Ring.{IsRing}
use beagle_logic.File.Walk.{Position}

module _ (k : Platform) where
  module _ (cnt size id : ℕ) (items : List LogicBuffer) (s : System)
      (ring : IsRing s.dev (record { id = id; items = items }) cnt size) where
    abbrev the_start : Position
    the_start = record { buffer = 0; offset = 0 }

    -- The reader is put at the first buffer.
    abbrev placed : System
    placed = record s { reader = record s.reader { buf = element s.dev 0; remaining = size } }
