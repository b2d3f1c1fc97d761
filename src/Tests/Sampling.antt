-- ===== src/Tests/Sampling.antt =====
-- The sampling program at concrete inputs.
use beagle_logic.Base.{
  ℕ, zero, suc, ◌+◌, ◌*◌, ◌%◌, ◌<◌, ◌≡◌, refl, Bool, false, some, List, [], ◌∷◌, arith, ◌==◌, ap,
  ◌∙◌, length-replicate, get_elem?, replicate, word,
}
use beagle_logic.Device.{BufList, armed, ret}
use beagle_logic.Device.BufState.{mapped}
use beagle_logic.System.{System, done, load, store, dma_map_single}
use beagle_logic.System.Returns.{at_done}
use beagle_logic.Buffers.{map_buffer}
use beagle_logic.Submit.{map_and_submit_all_buffers, map_from, submit, write_table}
use beagle_logic.Submit.Table.{Submitted, map_and_submit-Submitted}
use beagle_logic.Pru0.Sampling.{Bank, Sampler}
use beagle_logic.Pru0.Sampling.Capture.{IsListed}
use beagle_logic.Pru0.Sampling.Outcome.{HasMark}
use beagle_logic.Pru0.Sampling.Runs.{Captures, run-continuous, run-limit}
use beagle_logic.Pru0.Sampling.Table.{bus_address, run-Submitted}
use beagle_logic.Tests.{granting, context, loaded, first, second, pair, loaded-IsRing}

abbrev bank : Bank
bank = record { samples = replicate 32 5; overflow = 0 }

abbrev span : ℕ → ℕ → BufList
span a e = record { dma_start_addr = a; dma_end_addr = e }

-- What stands past the list.
abbrev nothing_there : ℕ → BufList
nothing_there a = span 0 0

-- Two buffers of two banks each, in continuous mode.
abbrev called : Sampler
called = record {
  r14 = 0;
  r15 = 1;
  r16 = 0;
  r17 = 0;
  r18 = 0;
  r19 = 0;
  r29 = 0;
  list = span 4096 4160 ∷ span 4160 4224 ∷ span 0 0 ∷ [];
  banks = replicate 7 bank;
  actions = [];
  looks = 0;
}

abbrev two_spans : ℕ → ℕ
two_spans i = 4096 + 64 * i

called-IsListed : IsListed two_spans 2 2 called.list
called-IsListed = record {
  entries = by_index;
  somewhere = λ i lt. omega arith;
  below = λ i lt. omega arith;
}
  where
    by_index :
        (i : ℕ) → i < 2 → get_elem? called.list i ≡ some (span (two_spans i) (two_spans i + 32 * 2))
    by_index zero lt = refl
    by_index (suc zero) lt = refl
    by_index (suc (suc i)) lt = absurd (omega arith)

called-HasMark : HasMark 2 called.list
called-HasMark = record { mark = span 0 0; mark_at = refl; mark_zero = refl }

-- The stop signal is seen after the third buffer.
abbrev at_third : ℕ → Bool
at_third j = j == 2

run-continuous_example : Captures nothing_there at_third two_spans 2 called (λ j. (j + 1) % 2) 3
run-continuous_example =
    run-continuous nothing_there at_third two_spans 2 2 2 called (omega arith) (omega arith)
      (omega arith) refl called-IsListed called-HasMark refl (λ j lt. ground (arith, lt)) refl
      (omega arith)

-- A list of more buffers than the program reaches, one bank each.
abbrev one_span : ℕ → ℕ
one_span i = 4096 + 32 * i

spans : ℕ → ℕ → List BufList
spans zero i = []
spans (suc n) i = span (one_span i) (one_span i + 32 * 1) ∷ spans n (i + 1)

spans-get_elem? :
    (n i j : ℕ)
    → j < n
    → get_elem? (spans n i) j ≡ some (span (one_span (i + j)) (one_span (i + j) + 32 * 1))
unfolding spans
spans-get_elem? zero i j lt = absurd (omega arith)
spans-get_elem? (suc n) i zero lt =
    ap (λ x. some (span (one_span x) (one_span x + 32 * 1))) (omega arith)
spans-get_elem? (suc n) i (suc j) lt =
    spans-get_elem? n (i + 1) j (omega arith)
    ∙ ap (λ x. some (span (one_span x) (one_span x + 32 * 1))) shift
  where
    shift : i + 1 + j ≡ i + suc j
    shift = omega arith

abbrev long_list : Sampler
long_list = record called { list = spans 128 0; banks = replicate 125 bank }

run-limit_example : Captures nothing_there (λ j. false) one_span 1 long_list (λ j. j + 1) 125
run-limit_example =
    run-limit nothing_there (λ j. false) one_span 1 128 long_list (omega arith) (omega arith) refl
      (record {
        entries = λ i lt.
            spans-get_elem? 128 0 i lt
            ∙ ap (λ x. some (span (one_span x) (one_span x + 32 * 1))) (omega arith);
        somewhere = λ i lt. omega arith;
        below = λ i lt. omega arith;
      })
      (λ j. refl) (omega (arith, length-replicate 125 bank))

-- What the driver leaves after it has submitted its two buffers.
abbrev submitted_pair : System
submitted_pair = record loaded {
  calls = 2;
  dev = record loaded.dev {
    state = armed;
    buffers = some (record {
      id = 5;
      items =
          record first { phys_addr = 65536; state = mapped }
          ∷ record second { phys_addr = 65568; state = mapped }
          ∷ [];
    });
    cxt_pru = record context {
      list = span 65536 65568 ∷ span 65568 65600 ∷ replicate 6 (span 0 0);
    };
  };
}

pair_submitted : map_and_submit_all_buffers granting loaded ≡ done (ret 0) submitted_pair
unfolding map_and_submit_all_buffers map_from submit write_table map_buffer load store
    dma_map_single
pair_submitted = refl

submitted_pair-Submitted : Submitted 2 32 5 pair granting (ret 0) submitted_pair
submitted_pair-Submitted =
    at_done (map_and_submit-Submitted granting 2 32 5 pair loaded loaded-IsRing (omega arith))
      pair_submitted

-- PRU0 is then called in one-shot mode.
abbrev sampling_pair : Sampler
sampling_pair = record called { r15 = 0; list = submitted_pair.dev.cxt_pru.list }

pair_addresses :
    (j : ℕ)
    → j < 2
    → (0 < bus_address submitted_pair j) × (bus_address submitted_pair j + 32 < word)
pair_addresses zero lt = (omega arith, omega arith)
pair_addresses (suc zero) lt = (omega arith, omega arith)
pair_addresses (suc (suc j)) lt = absurd (omega arith)

run-Submitted_example :
    Captures nothing_there (λ j. false) (bus_address submitted_pair) 1 sampling_pair (λ j. j + 1) 2
run-Submitted_example =
    run-Submitted 2 32 5 1 pair granting submitted_pair nothing_there (λ j. false) sampling_pair
      submitted_pair-Submitted (omega arith) pair_addresses (omega arith) (omega arith) refl refl
      refl (λ j. refl) (omega arith)
