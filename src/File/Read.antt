-- ===== src/File/Read.antt =====
-- `beaglelogic_f_read` without blocking: what each call returns, and what a sequence of calls does.
use mathlib.Core.Path.{subst}
use beagle_logic.Base.{
  ℕ, ◌+◌, ◌-◌, ◌≤◌, min, ◌≡◌, refl, sym, ap, ◌∙◌, inl, inr, true, Bool-cases, some, List, [], ◌∷◌,
  ◌++◌, ◌==◌, ◌&&◌, arith, length, take, drop,
}
use beagle_logic.Device.{
  Ret, ret, err, Errno, efault, eagain, eio, is_error, is_unmapped, is_initialized, same_ptr,
  initialized,
}
use beagle_logic.System.{Platform, System, M, pure, ◌>>=◌, copy_to_user, element}
use beagle_logic.System.Returns.{Returns, returns, bind, weaken}
use beagle_logic.File.{detect_drop, advance, perform_copy, await_buffer, begin_buffer, f_read}
use beagle_logic.Buffers.Ring.{content_of}
use beagle_logic.File.Walk.{Position, walk, bytes_from, bytes_from_inside, bytes_from-add, walk-add}
use beagle_logic.File.Reader.{IsAt, here, load-reader, IsAt-calls, detect_drop-IsAt, advance-IsAt}

module _ (cnt size id : ℕ) (bytes : ℕ → List ℕ) (p : Position) where
  -- How a read of `sz` bytes from `p` ends: with the next bytes of the walk round the ring, as many
  -- as asked for up to the end of the buffer, and the reader past them; with no byte at the end of
  -- a capture; or with an error. The last two leave the reader where it was.
  pub data ReadOutcome (sz : ℕ) (s : System) (r : Ret × List ℕ) (t : System) : Type 0 where
    some_bytes :
        (n : ℕ)
        → n ≡ min (size - p.offset) sz
        → r ≡ (ret n, bytes_from cnt size bytes n p)
        → IsAt cnt size id bytes (walk cnt size n p) t
        → ReadOutcome sz s r t
    end_of_capture :
        r ≡ (ret 0, [])
        → s.dev.state ≡ initialized
        → p ≡ record { buffer = 0; offset = 0 }
        → IsAt cnt size id bytes p t
        → ReadOutcome sz s r t
    failed : (e : Errno) → r ≡ (err e, []) → IsAt cnt size id bytes p t → ReadOutcome sz s r t

  module _ (k : Platform) (sz : ℕ) (s : System) (h : IsAt cnt size id bytes p s) where
    copied_bytes :
        (n : ℕ)
        → p.offset + n ≤ size
        → take n (drop s.reader.pos (here cnt size id bytes p s h).0.mem)
          ≡ bytes_from cnt size bytes n p
    copied_bytes n fits =
        let (b, found) = here cnt size id bytes p s h in
        let e : b.mem ≡ bytes p.buffer =
          sym (content_of h.items p.buffer found) ∙ h.same_bytes p.buffer in
        ap (λ xs. take n (drop s.reader.pos xs)) e
        ∙ ap (λ o. take n (drop o (bytes p.buffer))) h.pos_eq
        ∙ sym (
            bytes_from_inside cnt size bytes n p fits
              (ap length (sym e) ∙ (h.ring.placed p.buffer b found).mem_eq))

    -- The next `n` bytes have been copied, and the reader is past them.
    abbrev pub Copied : ℕ → Ret × List ℕ → System → Type 0
    Copied n r t =
        (r ≡ (ret n, bytes_from cnt size bytes n p)) × IsAt cnt size id bytes (walk cnt size n p) t

    -- The copy into the user's buffer, after which the reader has moved on.
    after_copy :
        (n c : ℕ)
        → n ≡ min (size - p.offset) sz
        → Returns (Copied n) (
            (detect_drop s.reader.buf >>= λ _. advance n >>= λ _.
            pure (ret n, take n (drop s.reader.pos (here cnt size id bytes p s h).0.mem)))
              (record s { calls = c }))
    after_copy n c e =
        let fits : p.offset + n ≤ size = omega (arith, h.offset_lt) in
        bind (detect_drop-IsAt cnt size id bytes p _ (IsAt-calls cnt size id bytes p c s h))
          (λ _ v g.
            bind (advance-IsAt cnt size id bytes p n v g.0 fits)
              (λ _ t w. returns (ap (λ xs. (ret n, xs)) (copied_bytes n fits), w)))

    pub perform_copy-Copied :
        k.copy_to_user s.calls (min s.reader.remaining sz) ≡ true
        → Returns (Copied (min s.reader.remaining sz)) (perform_copy k sz s)
    unfolding perform_copy copy_to_user
    perform_copy-Copied e =
        rw (load-reader cnt size id bytes p s h, e)
          (after_copy (min s.reader.remaining sz) _ (omega (arith, h.remaining_eq)))

    pub perform_copy-Outcome :
        (before : System) → Returns (ReadOutcome sz before) (perform_copy k sz s)
    unfolding perform_copy copy_to_user
    perform_copy-Outcome before =
        elim (Bool-cases (k.copy_to_user s.calls (min s.reader.remaining sz))) [
          | inl e ↦
              weaken (perform_copy-Copied e)
                (λ r t (f, w). some_bytes _ (omega (arith, h.remaining_eq)) f w)
          | inr e ↦
              rw (load-reader cnt size id bytes p s h, e)
                (returns (failed efault refl (IsAt-calls cnt size id bytes p _ s h)))
        ]

    await_buffer-Outcome : Returns (ReadOutcome sz s) (await_buffer k true sz s)
    unfolding await_buffer
    await_buffer-Outcome =
        rw (load-reader cnt size id bytes p s h)
          (elim (Bool-cases (is_unmapped (here cnt size id bytes p s h).0.state)) [
            | inl e ↦ rw e (perform_copy-Outcome s)
            | inr e ↦ rw e (returns (failed eagain refl h))
          ])

    begin_buffer-Outcome :
        s.reader.pos ≡ 0
        → Returns
            (ReadOutcome sz s)
            (begin_buffer k true sz (some (record { array = id; index = p.buffer })) s)
    unfolding begin_buffer
    begin_buffer-Outcome z =
        elim (Bool-cases (
          same_ptr (some (record { array = id; index = p.buffer })) (element s.dev 0)
          && is_initialized s.dev.state)) [
            | inl e ↦ rw e (
                returns
                  (end_of_capture refl (ground arith) (ground (arith, h.ring.present, h.pos_eq)) h))
            | inr e ↦ rw e await_buffer-Outcome
          ]

    -- A non-blocking read of an open file that stands in a ring returns: with the next bytes of the
    -- ring, as many as asked for up to the end of the buffer, and the reader past them; with no
    -- byte at buffer 0 of an initialized device; or with an error. The last two do not move the
    -- reader.
    pub f_read-Outcome : Returns (ReadOutcome sz s) (f_read k true sz s)
    unfolding f_read
    f_read-Outcome = elim (Bool-cases (is_error s.dev.state)) [
      | inl e ↦ rw e (returns (failed eio refl h))
      | inr e ↦ rw e (elim (Bool-cases (s.reader.pos == 0)) [
        | inl z ↦ rw z (
            subst (λ q. Returns (ReadOutcome sz s) (begin_buffer k true sz q s)) (sym h.buf_eq)
              (begin_buffer-Outcome (ground arith)))
        | inr z ↦ rw z (perform_copy-Outcome s)
      ])
    ]

abbrev returned : Ret → ℕ
returned (ret n) = n
returned (err e) = 0

-- Non-blocking reads of the given sizes, one after the other: the number of bytes that they return,
-- and the bytes. One that fails adds nothing.
pub read_all : Platform → List ℕ → M (ℕ × List ℕ)
read_all k [] = pure (0, [])
read_all k (sz ∷ rest) =
    f_read k true sz >>= λ r. read_all k rest >>= λ q. pure (returned r.0 + q.0, r.1 ++ q.1)

module _ (cnt size id : ℕ) (bytes : ℕ → List ℕ) where
  -- The bytes that were returned, and where the reader is now.
  abbrev Delivered : Position → ℕ → List ℕ → System → Type 0
  Delivered p n xs t =
      (xs ≡ bytes_from cnt size bytes n p) × IsAt cnt size id bytes (walk cnt size n p) t

  outcome-Delivered :
      (p : Position) (sz : ℕ) (s : System) (r : Ret × List ℕ) (t : System)
      → ReadOutcome cnt size id bytes p sz s r t
      → Delivered p (returned r.0) r.1 t
  unfolding bytes_from walk
  outcome-Delivered p sz s r t (some_bytes n _ e h) =
      subst (λ x. Delivered p (returned x.0) x.1 t) (sym e) (refl, h)
  outcome-Delivered p sz s r t (end_of_capture e _ _ h) =
      subst (λ x. Delivered p (returned x.0) x.1 t) (sym e) (refl, h)
  outcome-Delivered p sz s r t (failed _ e h) =
      subst (λ x. Delivered p (returned x.0) x.1 t) (sym e) (refl, h)

  -- For an open file that stands in a ring: whatever the sizes, and whichever of the reads fail,
  -- the bytes of a sequence of non-blocking reads are those of the ring from the reader's position
  -- on, in order and without a gap, and the reader ends just past them.
  pub read_all-bytes_from :
      (k : Platform) (sizes : List ℕ) (p : Position) (s : System)
      → IsAt cnt size id bytes p s
      → Returns (λ r t. Delivered p r.0 r.1 t) (read_all k sizes s)
  unfolding read_all bytes_from walk
  read_all-bytes_from k [] p s h = returns (refl, h)
  read_all-bytes_from k (sz ∷ rest) p s h =
      bind (f_read-Outcome cnt size id bytes p k sz s h) (λ r t o.
        let (same, g) = outcome-Delivered p sz s r t o in
        bind (read_all-bytes_from k rest (walk cnt size (returned r.0) p) t g) (λ q u (more, w).
          returns (
            rw (same, more) (sym (bytes_from-add cnt size bytes (returned r.0) q.0 p)),
            subst (λ x. IsAt cnt size id bytes x u) (sym (walk-add cnt size (returned r.0) q.0 p))
                w,
          )))
