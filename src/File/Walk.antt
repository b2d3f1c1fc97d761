-- ===== src/File/Walk.antt =====
-- The sample memory as a reader is meant to see it: an endless walk round the ring, byte by byte.
-- It names no pointer, no count of remaining bytes and no buffer state.
use beagle_logic.Base.{
  ℕ, zero, suc, ◌+◌, ◌%◌, ◌≤◌, ◌<◌, ◌≡◌, refl, ap, List, [], ◌∷◌, ◌++◌, ◌==◌, if◌then◌else◌, arith,
  length, take, drop,
}

-- A buffer, and an offset into it.
pub record Position : Type 0 where
  pub buffer : ℕ
  pub offset : ℕ

abbrev pub byte_or : List ℕ → ℕ → ℕ
byte_or [] o = 0
byte_or (x ∷ xs) zero = x
byte_or (x ∷ xs) (suc o) = byte_or xs o

drop-byte_or : (xs : List ℕ) (o : ℕ) → o < length xs → drop o xs ≡ byte_or xs o ∷ drop (o + 1) xs
drop-byte_or [] o h = elim h [ ]
drop-byte_or (x ∷ xs) zero h = refl
drop-byte_or (x ∷ xs) (suc o) h =
    let e : suc o + 1 ≡ suc (o + 1) = omega arith in rw e (drop-byte_or xs o (omega arith))

module _ (cnt size : ℕ) where
  abbrev pub next_position : Position → Position
  next_position p =
      if p.offset + 1 == size
      then record { buffer = (p.buffer + 1) % cnt; offset = 0 }
      else record p { offset = p.offset + 1 }

  -- The position `n` bytes further on.
  unfoldable pub walk : ℕ → Position → Position
  walk zero p = p
  walk (suc n) p = walk n (next_position p)

  -- The `n` bytes from a position on; `content` gives the bytes of each buffer.
  unfoldable pub bytes_from : (ℕ → List ℕ) → ℕ → Position → List ℕ
  bytes_from content zero p = []
  bytes_from content (suc n) p =
      byte_or (content p.buffer) p.offset ∷ bytes_from content n (next_position p)

  pub walk-add : (m n : ℕ) (p : Position) → walk (m + n) p ≡ walk n (walk m p)
  unfolding walk
  walk-add zero n p = let e : zero + n ≡ n = omega arith in rw e
  walk-add (suc m) n p =
      let e : suc m + n ≡ suc (m + n) = omega arith in rw e (walk-add m n (next_position p))

  pub bytes_from-add :
      (content : ℕ → List ℕ) (m n : ℕ) (p : Position)
      → bytes_from content (m + n) p ≡ bytes_from content m p ++ bytes_from content n (walk m p)
  unfolding walk bytes_from
  bytes_from-add content zero n p = let e : zero + n ≡ n = omega arith in rw e
  bytes_from-add content (suc m) n p =
      let e : suc m + n ≡ suc (m + n) = omega arith in
      rw e (
        ap (◌∷◌ (byte_or (content p.buffer) p.offset))
          (bytes_from-add content m n (next_position p)))

  -- Inside a buffer the offset grows; the end of a buffer is the start of the next one.
  pub walk_inside :
      (n : ℕ) (p : Position) → p.offset + n < size → walk n p ≡ record p { offset = p.offset + n }
  unfolding walk
  walk_inside zero p h = ground arith
  walk_inside (suc n) p h = ground (arith, walk_inside n (record p { offset = p.offset + 1 }))

  pub walk_to_end :
      (n : ℕ) (p : Position)
      → 0 < n
      → p.offset + n ≡ size
      → walk n p ≡ record { buffer = (p.buffer + 1) % cnt; offset = 0 }
  unfolding walk
  walk_to_end zero p h e = elim h [ ]
  walk_to_end (suc zero) p h e = ground arith
  walk_to_end (suc (suc n)) p h e =
      ground (arith, walk_to_end (suc n) (record p { offset = p.offset + 1 }))

  -- Inside a buffer the bytes are a slice of its content.
  pub bytes_from_inside :
      (content : ℕ → List ℕ) (n : ℕ) (p : Position)
      → p.offset + n ≤ size
      → length (content p.buffer) ≡ size
      → bytes_from content n p ≡ take n (drop p.offset (content p.buffer))
  unfolding bytes_from
  bytes_from_inside content zero p h e = refl
  bytes_from_inside content (suc zero) p h e =
      rw (drop-byte_or (content p.buffer) p.offset (omega arith))
  bytes_from_inside content (suc (suc n)) p h e = ground (
    arith,
    drop-byte_or (content p.buffer) p.offset,
    bytes_from_inside content (suc n) (record p { offset = p.offset + 1 }),
  )
