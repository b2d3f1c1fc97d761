-- ===== src/File/Seek.antt =====
-- The loop of `beaglelogic_f_llseek` with `SEEK_CUR`: it passes bytes without copying them.
use mathlib.Core.Path.{subst}
use beagle_logic.Base.{
  ℕ, zero, suc, ◌+◌, ◌-◌, ◌≤◌, ◌<◌, min, ◌≡◌, refl, sym, ap, ◌∙◌, List, arith, word, u32, inl, pos,
}
use beagle_logic.System.{Platform, System, spins, and_then, pure}
use beagle_logic.System.Returns.{Returns, returns, bind, bind_eq}
use beagle_logic.File.{seek_loop, f_llseek, seek_cur}
use beagle_logic.File.Walk.{Position, walk, walk-add}
use beagle_logic.File.Reader.{IsAt, detect_drop-IsAt, advance-IsAt}

module _ (cnt size id : ℕ) (bytes : ℕ → List ℕ) where
  -- A round of the loop, with `i` bytes left.
  abbrev chunk : ℕ → System → ℕ
  chunk i s = min (u32 i) s.reader.remaining

  chunk_fits :
      (i : ℕ) (p : Position) (s : System) → IsAt cnt size id bytes p s → p.offset + chunk i s ≤ size
  chunk_fits i p s h = omega (arith, h.remaining_eq)

  rest :
      (m i : ℕ) (p : Position)
      → m ≤ suc i
      → walk cnt size (suc i - m) (walk cnt size m p) ≡ walk cnt size (suc i) p
  rest m i p le =
      let e : suc i ≡ m + (suc i - m) = omega arith in
      sym (ap (λ (x : ℕ). walk cnt size x p) e ∙ walk-add cnt size m (suc i - m) p)

  seek_loop-IsAt :
      (fuel n : ℕ) (p : Position) (s : System)
      → n ≤ fuel
      → n < word
      → IsAt cnt size id bytes p s
      → Returns (λ _ t. IsAt cnt size id bytes (walk cnt size n p) t) (seek_loop fuel n s)
  unfolding seek_loop walk
  seek_loop-IsAt fuel zero p s le lt h = returns h
  seek_loop-IsAt zero (suc i) p s le lt h = absurd (omega arith)
  seek_loop-IsAt (suc fuel) (suc i) p s le lt h =
      bind (detect_drop-IsAt cnt size id bytes p s h) (λ _ t (g, same).
        bind (advance-IsAt cnt size id bytes p (chunk (suc i) s) t g (chunk_fits (suc i) p s h))
          (λ _ u w.
            subst
              (λ x.
                Returns (λ _ v. IsAt cnt size id bytes x v)
                  (seek_loop fuel (suc i - chunk (suc i) s) u))
              (rest (chunk (suc i) s) i p (omega arith))
              (seek_loop-IsAt fuel (suc i - chunk (suc i) s) (walk cnt size (chunk (suc i) s) p) u
                (omega (arith, h.remaining_eq, h.offset_lt)) (omega arith) w)))

  seek_loop_hangs :
      (fuel n : ℕ) (p : Position) (s : System)
      → word ≤ n
      → IsAt cnt size id bytes p s
      → seek_loop fuel n s ≡ spins
  unfolding seek_loop
  seek_loop_hangs fuel zero p s le h = absurd (omega arith)
  seek_loop_hangs zero (suc i) p s le h = refl
  seek_loop_hangs (suc fuel) (suc i) p s le h =
      bind_eq (detect_drop-IsAt cnt size id bytes p s h) (λ _ t (g, same).
        bind_eq (advance-IsAt cnt size id bytes p (chunk (suc i) s) t g (chunk_fits (suc i) p s h))
          (λ _ u w. seek_loop_hangs fuel (suc i - chunk (suc i) s) _ u (omega arith) w))

module _ (k : Platform) (cnt size id : ℕ) (bytes : ℕ → List ℕ) (fuel n : ℕ) (p : Position)
    (s : System) (at_p : IsAt cnt size id bytes p s) where
  -- For an open file that stands in a ring, a seek of less than 2 ^ 32 bytes forward from the
  -- current position ends within that many rounds, returns its offset and takes the reader that
  -- many bytes on.
  pub f_llseek-IsAt :
      n ≤ fuel
      → n < word
      → Returns
          (λ r t. (r ≡ inl (pos n)) × IsAt cnt size id bytes (walk cnt size n p) t)
          (f_llseek k fuel (pos n) seek_cur s)
  unfolding f_llseek
  f_llseek-IsAt le lt =
      bind (seek_loop-IsAt cnt size id bytes fuel n p s le lt at_p) (λ _ t h. returns (refl, h))

  -- For an open file that stands in a ring, a seek of 2 ^ 32 bytes or more forward from the current
  -- position never ends, whatever the number of rounds that are waited for.
  pub f_llseek_hangs : word ≤ n → f_llseek k fuel (pos n) seek_cur s ≡ spins
  unfolding f_llseek
  f_llseek_hangs le =
      ap (λ r. and_then r (λ _. pure (inl (pos n))))
        (seek_loop_hangs cnt size id bytes fuel n p s le at_p)
