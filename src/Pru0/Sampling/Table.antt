-- ===== src/Pru0/Sampling/Table.antt =====
-- The sampling program on the table that the driver has written.
use beagle_logic.Base.{
  ℕ, ◌+◌, ◌*◌, ◌%◌, ◌≤◌, ◌<◌, ◌≡◌, refl, ap, ◌∙◌, Bool, false, none, some, List, arith, length,
  get_elem?, get_elem?-some, word,
}
use beagle_logic.Device.{BufList, LogicBuffer, ret}
use beagle_logic.System.{Platform, System, element, find_buffer}
use beagle_logic.Buffers.Ring.{IsRing}
use beagle_logic.Submit.Table.{Submitted, submitted, undone, entry_of, end_mark}
use beagle_logic.Pru0.Sampling.{Sampler}
use beagle_logic.Pru0.Sampling.Capture.{IsListed}
use beagle_logic.Pru0.Sampling.Outcome.{HasMark}
use beagle_logic.Pru0.Sampling.Runs.{Captures, run-one_shot}

-- The bus address of the driver's buffer `j`.
abbrev pub bus_address : System → ℕ → ℕ
bus_address t j = elim (find_buffer t.dev (element t.dev j)) [ none ↦ 0 | some b ↦ b.phys_addr ]

bus_address_lem :
    (cnt size id : ℕ) (items : List LogicBuffer) (t : System) (j : ℕ) (b : LogicBuffer)
    → IsRing t.dev (record { id = id; items = items }) cnt size
    → get_elem? items j ≡ some b
    → bus_address t j ≡ b.phys_addr
bus_address_lem cnt size id items t j b ring found = ground (arith, ring.present, found)

entry_eq :
    (b : LogicBuffer) (a e : ℕ)
    → a ≡ b.phys_addr
    → a + b.size ≡ e
    → e < word
    → entry_of b ≡ record { dma_start_addr = a; dma_end_addr = e }
entry_eq b a e p q small = ground (arith, p, q, small)

module _ (cnt size id n : ℕ) (old : List LogicBuffer) (k : Platform) (t : System) where
  Submitted-IsListed :
      Submitted cnt size id old k (ret 0) t
      → size ≡ 32 * n
      → ((j : ℕ) → j < cnt → (0 < bus_address t j) × (bus_address t j + size < word))
      → IsListed (bus_address t) n cnt t.dev.cxt_pru.list × HasMark cnt t.dev.cxt_pru.list
  Submitted-IsListed (undone _ e _ _ _ _ _ _ _ _) whole fits = cc
  Submitted-IsListed (submitted _ _ items ring entries ends) whole fits = (
    record {
      entries = λ j lt.
          let (b, found) = get_elem?-some items j (omega (arith, ring.length_eq, lt)) in
          (entries j b found).1
          ∙ ap some (
              entry_eq b (bus_address t j) (bus_address t j + 32 * n)
                (bus_address_lem cnt size id items t j b ring found)
                (omega (arith, (ring.placed j b found).size_eq, whole))
                (omega (arith, (fits j lt).1, whole)));
      somewhere = λ j lt. (fits j lt).0;
      below = λ j lt. omega (arith, (fits j lt).1, whole);
    },
    record { mark = end_mark; mark_at = ends; mark_zero = refl },
  )

  -- The sampling program in one-shot mode, called with the table that the driver has submitted for
  -- its ring of at most 124 buffers of `n` banks of 32 bytes each, `n` at least 1, where no buffer
  -- has the bus address 0 or reaches 2 ^ 32. With no stop signal, and once PRU1 has handed over the
  -- banks for all the buffers, the program returns. It has filled the buffers of the driver one
  -- after the other, each from its bus address on with the next `n` banks, and has signalled each
  -- right after; the other banks have not been taken.
  pub run-Submitted :
      (beyond : ℕ → BufList) (stop : ℕ → Bool) (s : Sampler)
      → Submitted cnt size id old k (ret 0) t
      → size ≡ 32 * n
      → ((j : ℕ) → j < cnt → (0 < bus_address t j) × (bus_address t j + size < word))
      → 0 < n
      → cnt ≤ 124
      → s.r14 ≡ 0
      → s.list ≡ t.dev.cxt_pru.list
      → s.r15 % 2 ≡ 0
      → ((j : ℕ) → stop j ≡ false)
      → cnt * n ≤ length s.banks
      → Captures beyond stop (bus_address t) n s (λ j. j + 1) cnt
  run-Submitted beyond stop s done whole fits positive short context same even unstopped enough =
      let (listed, mark) = Submitted-IsListed done whole fits in
      run-one_shot beyond stop (bus_address t) n cnt s positive short context (rw same listed)
        (rw same mark) even unstopped enough
