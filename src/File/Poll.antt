-- ===== src/File/Poll.antt =====
-- `beaglelogic_f_poll` tells what a read that must not wait would do.
use beagle_logic.Base.{ℕ, ◌≡◌, ◌⊎◌, inl, inr, true, false, Bool-cases, some, [], ◌&&◌, arith}
use beagle_logic.Device.{
  LogicBuffer, BufPtr, ret, err, eagain, is_error, is_initialized, is_unmapped, same_ptr,
}
use beagle_logic.System.{Platform, System, done, load, find_buffer, element}
use beagle_logic.File.{f_poll, f_read, begin_buffer, await_buffer, perform_copy, poll_readable}

module _ (k : Platform) (sz : ℕ) (s : System) (p : BufPtr) (b : LogicBuffer)
    (at_buf : s.reader.buf ≡ some p) (found : find_buffer s.dev (some p) ≡ some b) where
  -- For a file that stands at the start of a buffer of the present array, where the device is not
  -- in error and the capture has not ended at the first buffer: either poll says readable and a
  -- read that must not wait goes on to copy bytes, or poll says nothing and such a read returns
  -- -EAGAIN.
  pub f_poll-f_read :
      s.reader.pos ≡ 0
      → is_error s.dev.state ≡ false
      → (same_ptr (some p) (element s.dev 0) && is_initialized s.dev.state) ≡ false
      → ((f_poll s ≡ done (ret poll_readable) s) × (f_read k true sz s ≡ perform_copy k sz s))
        ⊎ ((f_poll s ≡ done (ret 0) s) × (f_read k true sz s ≡ done (err eagain, []) s))
  unfolding f_poll f_read begin_buffer await_buffer load
  f_poll-f_read start fine going = elim (Bool-cases (is_unmapped b.state)) [
    | inl e ↦ inl (ground (arith, e), ground (arith, e))
    | inr e ↦ inr (ground (arith, e), ground (arith, e))
  ]
