-- ===== src/User/State.antt =====
-- `beaglelogic_waitfornextbuffer` where no capture runs.
use beagle_logic.Base.{
  ℕ, ◌-◌, ◌≤◌, ◌<◌, ◌≡◌, ◌≢◌, refl, false, pos, List, ◌∷◌, ◌++◌, take, arith, word, suc, ap, min,
  u32, length, drop, ◌+◌, ==_false, ◌∙◌,
}
use beagle_logic.Device.{is_running, disabled, DeviceState, initialized, state_code}
use beagle_logic.System.{Platform, System, done, M}
use beagle_logic.Sysfs.{Text, state, bl_state_show, Shown, print}
use beagle_logic.Probe.{to_int}
use beagle_logic.User.{Libc, beaglelogic_waitfornextbuffer, read_number}

abbrev two_minus : List ℕ → List ℕ
two_minus rest = 45 ∷ 45 ∷ rest

-- Two minus signs at the start of a page stand at the start of what is read of it.
read_start :
    (n : ℕ) (rest stack : List ℕ)
    → 2 ≤ n
    → (more : List ℕ) × (take 16 (take (min 16 n) (two_minus rest) ++ stack) ≡ two_minus more)
read_start n rest stack le = (
  take 14 (take (min 16 n - 2) rest ++ stack),
  ap (λ m. take 16 (take m (two_minus rest) ++ stack)) two_more,
)
  where
    two_more : min 16 n ≡ suc (suc (min 16 n - 2))
    two_more = omega arith

-- The state of a device that is neither running nor disabled, negated, as a word.
negated_state :
    (st : DeviceState)
    → st ≢ disabled
    → (0x80000000 ≤ u32 (word - state_code st)) × (u32 (word - state_code st) < word)
unfolding state_code
negated_state disabled ne = absurd (ne refl)
negated_state initialized ne = (omega arith, omega arith)
negated_state st ne = (omega arith, omega arith)

-- What is read from an open file.
read_open :
    (c : Libc) (fd : ℕ) (m : M Shown) (s : System) {r : Shown}
    → m s ≡ done r s
    → read_number c (pos (suc fd)) m s
      ≡ done (to_int (u32 (c.strtoul (take 16 (take (min 16 r.0) r.1 ++ c.stack))))) s
read_open c fd m s e = rw (==_false (suc fd) 0 (omega arith)) (rw e refl)

shown_state :
    (x : Text) (k : Platform) (page : List ℕ) (s : System) {text : List ℕ}
    → is_running s.dev.state ≡ false
    → x.minus_d_line (u32 (word - state_code s.dev.state)) ≡ text
    → bl_state_show x k page s ≡ done (print page text) s
unfolding bl_state_show
shown_state x k page s idle e = rw (idle, e) refl

module _ (x : Text) (c : Libc) (k : Platform) (s : System) where
  -- Where no capture runs and the device is not disabled, `beaglelogic_waitfornextbuffer` returns
  -- 0, whichever the state is, as it does for the buffer 0: the driver prints two minus signs, and
  -- `strtoul` makes 0 of a text that starts with them.
  beaglelogic_waitfornextbuffer_zero :
      (fd : ℕ)
      → c.attribute_file state ≡ pos (suc fd)
      → ((n : ℕ)
          → 0x80000000 ≤ n
          → n < word
          → (rest : List ℕ) × (x.minus_d_line n ≡ 45 ∷ 45 ∷ rest))
      → ((rest : List ℕ) → c.strtoul (45 ∷ 45 ∷ rest) ≡ 0)
      → is_running s.dev.state ≡ false
      → s.dev.state ≢ disabled
      → beaglelogic_waitfornextbuffer x c k s ≡ done (pos 0) s
  unfolding beaglelogic_waitfornextbuffer
  beaglelogic_waitfornextbuffer_zero fd opened prints reads idle enabled =
      let (ge, lt) = negated_state s.dev.state enabled in
      let (rest, printed) = prints (u32 (word - state_code s.dev.state)) ge lt in
      let (more, read) =
        read_start (length (two_minus rest)) (rest ++ 0 ∷ drop (length (two_minus rest) + 1) c.page)
          c.stack (omega arith) in
      rw opened (
        read_open c fd _ s (shown_state x k c.page s idle printed)
        ∙ ap (λ t. done (to_int (u32 t)) s) (ap c.strtoul read ∙ reads more))
