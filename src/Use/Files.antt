-- ===== src/Use/Files.antt =====
-- The file operations.
use mathlib.Core.Path.{subst}
use beagle_logic.Base.{
  ℕ, zero, suc, ◌+◌, ◌-◌, ◌^◌, ◌≤◌, ◌<◌, ◌≡◌, refl, sym, inl, inr, min, Bool, true, false, Option,
  none, some, List, [], ◌==◌, ◌&&◌, not, if◌then◌else◌, u32, take, drop, arith, ==_true,
}
use beagle_logic.Device.{
  BufPtr, LogicBufferReader, Ret, ret, err, is_failure, is_running, is_error, is_initialized,
  is_unmapped, is_mapped, same_ptr, efault, eagain, eio, enoexec, erestartsys,
}
use beagle_logic.System.{Platform, M, pure, element, copy_to_user}
use beagle_logic.Irq.{next_ptr}
use beagle_logic.File.{
  detect_drop, pass_bytes, advance, perform_copy, await_buffer, first_read, begin_buffer, f_read,
  seek_loop,
}
use beagle_logic.Use.{InRing, InUse, Standing, Fresh, Opened, Safe, OnFile, OnOpened}
use beagle_logic.Use.Rules.{
  Safe-bind, Safe-pure, Safe-read_dev, Safe-read_reader, Safe-exact_reader, Safe-knowing, Safe-if,
  Safe-when, Safe-load, Safe-store, Safe-update_reader, Safe-set_reader, Safe-file, Safe-filed,
  InRing-element, InRing-next,
}
use beagle_logic.Use.Writes.{Safe-fields, Safe-counted}
use beagle_logic.Use.Driver.{Safe-wait_event, Safe-start}

module _ (cnt size id : ℕ) where
  Safe-detect_drop : (p : Option BufPtr) → InRing cnt size id p → OnFile cnt size id (detect_drop p)
  unfolding detect_drop
  Safe-detect_drop p there = Safe-load p _ there (λ j e lt b placed.
      Safe-if (is_mapped b.state) _ _
        (Safe-bind _ _ (Safe-store j p _ e (ground (arith, placed))) (λ _.
          Safe-fields (λ d. record d { lasterror = 0x10000 + b.index })
            (λ d. (refl, refl, refl, refl))))
        (Safe-pure tt))

  Safe-pass_bytes :
      (n : ℕ) (p : Option BufPtr) (offset remaining : ℕ)
      → InRing cnt size id p
      → OnFile cnt size id (pass_bytes n p offset remaining)
  unfolding pass_bytes
  Safe-pass_bytes n p offset remaining there = Safe-knowing _ (λ d h.
      Safe-load p _ there (λ j e lt b placed.
        let onwards = InRing-next p j b e lt placed in
        Safe-when (remaining - n == 0) _ _
          (λ _. Safe-load (next_ptr p b) _ onwards (λ _ _ _ c next. Safe-set_reader _ (λ r _.
            record { buf_in = onwards; some_left = omega (arith, next.size_eq, h.ring.nonempty) })))
          (λ more.
            Safe-set_reader _
              (λ r g. record { buf_in = g.buf_in; some_left = ground (arith, more) }))))

  Safe-advance : (n : ℕ) → OnFile cnt size id (advance n)
  unfolding advance
  Safe-advance n = Safe-read_reader _ (λ r h. Safe-pass_bytes n r.buf r.pos r.remaining h.buf_in)

  pub Safe-seek_loop : (fuel n : ℕ) → n ≤ fuel → n < 2 ^ 32 → OnFile cnt size id (seek_loop fuel n)
  unfolding seek_loop
  Safe-seek_loop fuel zero enough small = Safe-pure tt
  Safe-seek_loop zero (suc i) enough small = absurd (omega arith)
  Safe-seek_loop (suc fuel) (suc i) enough small = Safe-read_reader _ (λ r h.
      Safe-bind _ _ (Safe-detect_drop r.buf h.buf_in) (λ _.
        Safe-bind _ _ (Safe-advance (min (u32 (suc i)) r.remaining)) (λ _.
          Safe-seek_loop fuel (suc i - min (u32 (suc i)) r.remaining) (omega (arith, h.some_left))
            (omega arith))))

  module _ (k : Platform) where
    Safe-copy_to_user : (n : ℕ) → OnFile cnt size id (copy_to_user k n)
    unfolding copy_to_user
    Safe-copy_to_user n = Safe-counted _

    Safe-perform_copy : (sz : ℕ) → OnFile cnt size id (perform_copy k sz)
    unfolding perform_copy
    Safe-perform_copy sz = Safe-read_reader _ (λ r h. Safe-load r.buf _ h.buf_in (λ _ _ _ b _.
        Safe-bind _ _ (Safe-copy_to_user (min r.remaining sz)) (λ copied.
          Safe-if copied _ _
            (Safe-bind _ _ (Safe-detect_drop r.buf h.buf_in) (λ _.
              Safe-bind _ _ (Safe-advance (min r.remaining sz)) (λ _.
                Safe-pure
                  (ret (min r.remaining sz), take (min r.remaining sz) (drop r.pos b.mem)))))
            (Safe-pure (err efault, [])))))

    Safe-await_buffer : (nonblock : Bool) (sz : ℕ) → OnFile cnt size id (await_buffer k nonblock sz)
    unfolding await_buffer
    Safe-await_buffer true sz = Safe-read_reader _ (λ r h. Safe-load r.buf _ h.buf_in (λ _ _ _ b _.
        Safe-if (is_unmapped b.state) _ _ (Safe-perform_copy sz) (Safe-pure (err eagain, []))))
    Safe-await_buffer false sz =
        Safe-bind _ _
          (Safe-wait_event k cnt size id _ _ (
            Safe-read_reader _
              (λ r h. Safe-load r.buf _ h.buf_in (λ _ _ _ b _. Safe-pure (is_unmapped b.state)))))
          (λ woken. Safe-if woken _ _ (Safe-perform_copy sz) (Safe-pure (err erestartsys, [])))

    abbrev FromFresh : {A : Type 0} → M A → Type 0
    FromFresh m =
        Safe (InUse cnt size id (Fresh cnt size id)) (InUse cnt size id (Standing cnt size id)) m

    Safe-first_read : FromFresh (first_read k)
    unfolding first_read
    Safe-first_read = Safe-read_dev _ (λ d h.
        let start_ptr = InRing-element d 0 h (omega (arith, h.ring.two)) in
        Safe-load (element d 0) _ start_ptr (λ _ _ _ b placed.
          Safe-update_reader (λ x. record x { buf = element d 0; remaining = b.size }) _
            (λ _ _. record {
              buf_in = start_ptr;
              some_left = omega (arith, placed.size_eq, h.ring.nonempty);
            })
            (Safe-if (is_running d.state) _ _ (Safe-pure (ret 0)) (Safe-start k cnt size id _))))

    Safe-begin_fresh : (nonblock : Bool) (sz : ℕ) → FromFresh (begin_buffer k nonblock sz none)
    unfolding begin_buffer
    Safe-begin_fresh nonblock sz = Safe-bind _ _ Safe-first_read (λ rc.
        Safe-if (is_failure rc) _ _ (Safe-pure (err enoexec, [])) (Safe-await_buffer nonblock sz))

    Safe-begin_standing :
        (nonblock : Bool) (sz j : ℕ)
        → OnFile cnt size id (begin_buffer k nonblock sz (some (record { array = id; index = j })))
    unfolding begin_buffer
    Safe-begin_standing nonblock sz j = Safe-read_dev _ (λ d h.
        Safe-if
          (same_ptr (some (record { array = id; index = j })) (element d 0)
            && is_initialized d.state)
          _ _ (Safe-pure (ret 0, [])) (Safe-await_buffer nonblock sz))

    Safe-read_from :
        (nonblock : Bool) (sz : ℕ) (failed : Bool) (r : LogicBufferReader)
        → Opened cnt size id r
        → Safe (InUse cnt size id (λ x. x ≡ r)) (InUse cnt size id (Opened cnt size id)) (
            if failed
            then pure {A = Ret × List ℕ} (err eio, [])
            else if not (r.pos == 0)
            then perform_copy k sz
            else begin_buffer k nonblock sz r.buf)
    Safe-read_from nonblock sz failed r (inl h) =
        Safe-file _ (λ x e. subst (Standing cnt size id) (sym e) h)
          (Safe-filed _ (λ _ g. inl g)
            (Safe-if failed _ _ (Safe-pure (err eio, [])) (
              Safe-if (not (r.pos == 0)) _ _ (Safe-perform_copy sz) (
                let (j, e, lt) = h.buf_in in
                subst (λ q. OnFile cnt size id (begin_buffer k nonblock sz q)) (sym e)
                  (Safe-begin_standing nonblock sz j)))))
    Safe-read_from nonblock sz failed r (inr h) =
        Safe-file _ (λ x e. subst (Fresh cnt size id) (sym e) h)
          (Safe-if failed _ _ (Safe-filed _ (λ _ g. inr g) (Safe-pure (err eio, []))) (
            rw (==_true r.pos 0 h.at_start, h.no_buf)
              (Safe-filed _ (λ _ g. inl g) (Safe-begin_fresh nonblock sz))))

    pub Safe-f_read : (nonblock : Bool) (sz : ℕ) → OnOpened cnt size id (f_read k nonblock sz)
    unfolding f_read
    Safe-f_read nonblock sz =
        Safe-read_dev _
          (λ d h. Safe-exact_reader _ (λ r o. Safe-read_from nonblock sz (is_error d.state) r o))
