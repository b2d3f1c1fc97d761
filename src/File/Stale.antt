-- ===== src/File/Stale.antt =====
-- A file whose buffers have been freed.
use beagle_logic.Base.{ℕ, ◌≡◌, ◌≢◌, Bool, false, none, some, arith}
use beagle_logic.Device.{BufferArray, BufPtr, is_error}
use beagle_logic.System.{Platform, System, oops, load, ◌>>=◌}
use beagle_logic.System.Returns.{bind_eq}
use beagle_logic.Buffers.{memfree}
use beagle_logic.Buffers.Ring.{IsRing}
use beagle_logic.Buffers.Free.{memfree-Released}
use beagle_logic.File.{f_read, perform_copy}

module _ (k : Platform) (nonblock : Bool) (sz : ℕ) where
  read_null :
      (p : BufPtr) (s : System)
      → s.reader.buf ≡ some p
      → s.reader.pos ≢ 0
      → is_error s.dev.state ≡ false
      → s.dev.buffers ≡ none
      → f_read k nonblock sz s ≡ oops
  unfolding f_read perform_copy load
  read_null p s at_buf inside fine null = ground (arith, at_buf, inside, fine, null)

  -- A read from the middle of a buffer that `memfree` has freed in the meantime goes through a
  -- pointer to freed memory: for a file that stands inside a buffer, with the mutex free and no
  -- error, on a ring.
  pub f_read-memfree :
      (arr : BufferArray) (cnt size : ℕ) (p : BufPtr) (s : System)
      → IsRing s.dev arr cnt size
      → s.dev.mutex ≡ false
      → s.reader.buf ≡ some p
      → s.reader.pos ≢ 0
      → is_error s.dev.state ≡ false
      → (memfree >>= λ _. f_read k nonblock sz) s ≡ oops
  f_read-memfree arr cnt size p s ring free at_buf inside fine =
      bind_eq (memfree-Released arr cnt size s free ring) (λ _ t f.
        read_null p t (ground (arith, f.frame, at_buf)) (ground (arith, f.frame, inside))
          (ground (arith, f.frame, fine)) (ground (arith, f.frame)))
