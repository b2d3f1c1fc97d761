-- ===== src/Tests.antt =====
-- A small device on a platform that grants every request, for the examples of the theorems.
mod Driver
mod Interfaces
mod Firmware
mod Safety
mod User
mod TestApp
mod Reading
mod Use
mod Sampling
use beagle_logic.Base.{
  ℕ, zero, suc, ◌+◌, ◌*◌, ◌≡◌, refl, true, false, Option, none, some, List, [], ◌∷◌, arith,
  get_elem?, replicate,
}
use beagle_logic.Device.{
  BeagleLogicDev, LogicBuffer, LogicBufferReader, BufferArray, CaptureContext, initialized, running,
}
use beagle_logic.Device.BufState.{unmapped, mapped}
use beagle_logic.System.{Platform, System}
use beagle_logic.Buffers.Ring.{IsRing, IsPlaced, AllPlaced}

abbrev pub granting : Platform
granting = record {
  kmalloc = λ c size. some (4096 * (c + 1));
  devm_kzalloc = λ c size. true;
  virt_to_phys = λ va. va;
  dma_map_single = λ c va size. some (65536 + 32 * c);
  copy_to_user = λ c n. true;
  remap_pfn_range = λ c addr pfn size. true;
  answers_after = λ c. 3;
  respond = λ c cxt. 0;
}

abbrev pub context : CaptureContext
context = record {
  magic = 0xBEA61E10;
  cmd = 0;
  resp = 0;
  samplediv = 0;
  sampleunit = 0;
  triggerflags = 0;
  list = replicate 8 (record { dma_start_addr = 0; dma_end_addr = 0 });
}

-- After the probe: no buffers, the mutex free.
abbrev pub probed : BeagleLogicDev
probed = record {
  to_bl_irq = 20;
  from_bl_irq_1 = 21;
  from_bl_irq_2 = 22;
  coreclockfreq = 200_000_000;
  mutex = false;
  buffers = none;
  lastbufready = none;
  bufbeingread = none;
  bufcount = 0;
  cxt_pru = context;
  maxbufcount = 7;
  bufunitsize = 32;
  samplerate = 100_000_000;
  triggerflags = 0;
  sampleunit = 1;
  state = initialized;
  lasterror = 0;
}

abbrev pub closed : LogicBufferReader
closed = record { buf = none; pos = 0; remaining = 0 }

abbrev pub idle : System
idle = record { dev = probed; reader = closed; calls = 0; heap = []; events = [] }

abbrev pub first : LogicBuffer
first = record {
  buf = some 4096;
  phys_addr = 4096;
  size = 32;
  state = unmapped;
  index = 0;
  next = 1;
  mem = replicate 32 7;
}

abbrev pub second : LogicBuffer
second = record {
  buf = some 8192;
  phys_addr = 8192;
  size = 32;
  state = unmapped;
  index = 1;
  next = 0;
  mem = replicate 32 9;
}

abbrev pub pair : List LogicBuffer
pair = first ∷ second ∷ []

-- Two buffers, no capture.
abbrev pub loaded : System
loaded = record idle {
  dev = record probed { buffers = some (record { id = 5; items = pair }); bufcount = 2 };
}

pub pair-AllPlaced : AllPlaced 2 32 pair
pair-AllPlaced zero b e = ground arith
pair-AllPlaced (suc zero) b e = ground arith
pair-AllPlaced (suc (suc i)) b e = cc

pub loaded-IsRing : IsRing loaded.dev (record { id = 5; items = pair }) 2 32
loaded-IsRing = record {
  present = refl;
  count_eq = refl;
  length_eq = refl;
  two = omega arith;
  nonempty = omega arith;
  placed = pair-AllPlaced;
}
