-- ===== src/TestApp/Reads.antt =====
-- The reads of the test application, each with the null pointer as its buffer.
use mathlib.Core.Path.{subst}
use beagle_logic.Base.{
  ℕ, zero, suc, ◌+◌, ◌-◌, ◌<◌, ◌≡◌, refl, sym, inl, inr, true, false, Bool-cases, Option, none,
  some, List, negsuc, arith, word, min, ltb-true, ◌==◌,
}
use beagle_logic.Device.{
  Ret, err, Errno, efault, eagain, eio, is_error, is_unmapped, is_initialized, same_ptr,
}
use beagle_logic.System.{Platform, System, oops, copy_to_user, element}
use beagle_logic.System.Returns.{Returns, returns, bind_eq}
use beagle_logic.File.{f_read, begin_buffer, await_buffer, perform_copy}
use beagle_logic.File.Walk.{Position}
use beagle_logic.File.Reader.{IsAt, here, load-reader}
use beagle_logic.User.{Libc}
use beagle_logic.TestApp.{Host, Areas, read_size, memcpy, read_loop}

-- A copy that ends past the first area.
memcpy_past : (a : Areas) (at n : ℕ) (s : System) → 0 < n → a.room < at + n → memcpy a at n s ≡ oops
memcpy_past a at zero s positive past = elim positive [ ]
memcpy_past a at (suc n) s positive past = of_map a.mapped
  where
    of_map : (m : Option ℕ) → memcpy (record a { mapped = m }) at (suc n) s ≡ oops
    of_map none = refl
    of_map (some len) = ground arith

module _ (k : Platform) (cnt size id : ℕ) (bytes : ℕ → List ℕ) (p : Position) where
  abbrev Fails : Ret × List ℕ → System → Type 0
  Fails r t = (e : Errno) × (r.0 ≡ err e)

  module _ (refused : (i n : ℕ) → 0 < n → k.copy_to_user i n ≡ false) (s : System)
      (at : IsAt cnt size id bytes p s) (capturing : is_initialized s.dev.state ≡ false) where
    perform_copy-Fails : Returns Fails (perform_copy k read_size s)
    unfolding perform_copy copy_to_user
    perform_copy-Fails =
        rw
          (
            load-reader cnt size id bytes p s at,
            refused s.calls (min s.reader.remaining read_size)
                (omega (arith, at.remaining_eq, at.offset_lt)),
          )
          (returns (efault, refl))

    await_buffer-Fails : Returns Fails (await_buffer k true read_size s)
    unfolding await_buffer
    await_buffer-Fails =
        rw (load-reader cnt size id bytes p s at)
          (elim (Bool-cases (is_unmapped (here cnt size id bytes p s at).0.state)) [
            | inl e ↦ rw e perform_copy-Fails
            | inr e ↦ rw e (returns (eagain, refl))
          ])

    begin_buffer-Fails :
        Returns Fails
          (begin_buffer k true read_size (some (record { array = id; index = p.buffer })) s)
    unfolding begin_buffer
    begin_buffer-Fails =
        elim (Bool-cases
          (same_ptr (some (record { array = id; index = p.buffer })) (element s.dev 0))) [
            | inl e ↦ rw (e, capturing) await_buffer-Fails
            | inr e ↦ rw e await_buffer-Fails
          ]

    f_read-Fails : Returns Fails (f_read k true read_size s)
    unfolding f_read
    f_read-Fails = elim (Bool-cases (is_error s.dev.state)) [
      | inl e ↦ rw e (returns (eio, refl))
      | inr e ↦ rw e (elim (Bool-cases (s.reader.pos == 0)) [
        | inl z ↦ rw z (
            subst (λ q. Returns Fails (begin_buffer k true read_size q s)) (sym at.buf_eq)
              begin_buffer-Fails)
        | inr z ↦ rw z perform_copy-Fails
      ])
    ]

    -- The application reads to the null pointer, to which no byte is copied. So while a capture is
    -- under way, or the device is in its error state, the read fails, its result -1 becomes the
    -- length of `memcpy` before it is tested, and no area of memory is that large.
    pub read_loop_null :
        (c : Libc) (h : Host) (fuel total cnt1 : ℕ) (a : Areas)
        → ((e : Errno) → c.result (err e) ≡ negsuc 0)
        → cnt1 < total
        → a.room < word - 1
        → read_loop c k h (suc fuel) total a cnt1 true s ≡ oops
    unfolding read_loop
    read_loop_null c h fuel total cnt1 a minus_one more small =
        rw (read_loop, ltb-true cnt1 total more)
          (bind_eq f_read-Fails (λ r t (e, q).
            rw (q, minus_one e, memcpy_past a cnt1 (word - 1) t (omega arith) (omega arith)) refl))
