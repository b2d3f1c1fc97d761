-- ===== src/Tests/TestApp.antt =====
-- The theorems on the test application at concrete inputs.
use beagle_logic.Base.{◌≡◌, refl, true, false, some, arith}
use beagle_logic.Device.{running}
use beagle_logic.System.{System, Platform, pure, oops}
use beagle_logic.Buffers.Ring.{content}
use beagle_logic.File.Reader.{IsAt}
use beagle_logic.File.Walk.{Position}
use beagle_logic.TestApp.{Timespec, Host, read_loop}
use beagle_logic.TestApp.Reads.{read_loop_null}
use beagle_logic.Tests.{granting, loaded, pair, loaded-IsRing}
use beagle_logic.Tests.User.{libc}

abbrev half_past : Timespec
half_past = record { tv_sec = 4; tv_nsec = 900_000_000 }

abbrev next_second : Timespec
next_second = record { tv_sec = 5; tv_nsec = 100_000_000 }

-- A platform that copies nothing to the user.
abbrev refusing : Platform
refusing = record granting { copy_to_user = λ c n. false }

abbrev host : Host
host = record {
  poll = pure true;
  calloc = λ n. true;
  before = half_past;
  after = next_second;
  stack = 0;
}

-- A reader 30 bytes into the first of two buffers, while a capture runs.
abbrev reading : System
reading = record loaded {
  dev = record loaded.dev { state = running };
  reader = record { buf = some (record { array = 5; index = 0 }); pos = 30; remaining = 2 };
}

abbrev at_30 : Position
at_30 = record { buffer = 0; offset = 30 }

reading-IsAt : IsAt 2 32 5 (content pair) at_30 reading
reading-IsAt = record {
  items = pair;
  ring = ground (arith, loaded-IsRing);
  same_bytes = λ j. refl;
  buf_eq = refl;
  pos_eq = refl;
  remaining_eq = refl;
  buffer_lt = omega arith;
  offset_lt = omega arith;
}

read_loop_null_example :
    read_loop libc refusing host 5 64 (record { room = 64; mapped = some 64 }) 0 true reading ≡ oops
read_loop_null_example =
    read_loop_null refusing 2 32 5 (content pair) at_30 (λ i n positive. refl) reading reading-IsAt
      refl libc host 4 64 0 (record { room = 64; mapped = some 64 }) (λ e. refl) (omega arith)
      (omega arith)
