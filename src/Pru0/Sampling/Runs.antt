-- ===== src/Pru0/Sampling/Runs.antt =====
-- The sampling program from its call to its return.
use beagle_logic.Base.{
  ℕ, zero, suc, ◌+◌, ◌*◌, ◌%◌, ◌≤◌, ◌<◌, ◌≡◌, refl, Bool, true, false, arith, length, u32,
}
use beagle_logic.Device.{BufList}
use beagle_logic.Pru0.Sampling.{
  Sampler, label, returns, run_1, step, execute, enter, Finishes, onward, Finishes-execute,
}
use beagle_logic.Pru0.Sampling.Capture.{IsListed, IsAtEntry}
use beagle_logic.Pru0.Sampling.Sessions.{Finishes-list, Finishes-until, Finishes-limit}
use beagle_logic.Pru0.Sampling.Outcome.{HasMark, HasCaptured}

module _ (beyond : ℕ → BufList) (stop : ℕ → Bool) (start : ℕ → ℕ) (n : ℕ) (s : Sampler) where
  -- The program returns, after a capture of `count` buffers from the first on.
  abbrev pub Captures : (ℕ → ℕ) → ℕ → Type 0
  Captures after count =
      (fuel : ℕ) × (t : Sampler) × (execute beyond stop fuel (enter s) ≡ returns t)
      × HasCaptured start n after count 0 s t

module _ (beyond : ℕ → BufList) (stop : ℕ → Bool) (start : ℕ → ℕ) where
  -- The first entry is at address 24.
  abbrev at_list : Sampler → Sampler
  at_list s = record s { r17 = 1024; r16 = u32 (s.r14 + 24) }

  at_list-IsAtEntry :
      (c m : ℕ) (s : Sampler)
      → s.r14 ≡ 0
      → IsListed start (suc c) m s.list
      → IsAtEntry start c m 0 (at_list s)
  at_list-IsAtEntry c m s zero_context listed = record {
    context_at = zero_context;
    entry_eq = omega (arith, zero_context);
    limit_eq = refl;
    listed = listed;
  }

  Captures-Finishes :
      (c : ℕ) (s : Sampler) (after : ℕ → ℕ) (count : ℕ)
      → Finishes beyond stop
          (HasCaptured start (suc c) after count 0 (at_list s))
          (label run_1 (at_list s))
      → Captures beyond stop start (suc c) s after count
  unfolding step
  Captures-Finishes c s after count h =
      let (fuel, t, e, g) = Finishes-execute beyond stop _ (onward h) in
      (fuel, t, e, record { actions_eq = g.actions_eq; banks_eq = g.banks_eq })

  -- The same in one-shot mode with no stop signal: each buffer of the list is filled once.
  pub run-one_shot :
      (n m : ℕ) (s : Sampler)
      → 0 < n
      → m ≤ 124
      → s.r14 ≡ 0
      → IsListed start n m s.list
      → HasMark m s.list
      → s.r15 % 2 ≡ 0
      → ((j : ℕ) → stop j ≡ false)
      → m * n ≤ length s.banks
      → Captures beyond stop start n s (λ j. j + 1) m
  run-one_shot zero m s positive short context listed mark even unstopped enough =
      absurd (omega arith)
  run-one_shot (suc c) m s positive short context listed mark even unstopped enough =
      Captures-Finishes c s _ m (
        Finishes-list beyond stop start c m m 0 (at_list s) (omega arith) short
          (at_list-IsAtEntry c m s context listed) mark even unstopped enough)

  -- The sampling program in continuous mode, on a list of 1 to 124 buffers that ends in the mark,
  -- each of `n` banks, at least one, none at address 0 and none that reaches 2 ^ 32. Where the stop
  -- signal is first seen at the look after buffer number `k` (counted from 0), and PRU1 hands over
  -- as many banks as these buffers take, the program returns. It has then gone round the list from
  -- its first buffer on and filled `k + 1` buffers, no more: each with the next `n` banks at
  -- consecutive addresses from its start, and signalled to the driver right after. The other banks
  -- have not been taken.
  pub run-continuous :
      (n m k : ℕ) (s : Sampler)
      → 0 < n
      → 0 < m
      → m ≤ 124
      → s.r14 ≡ 0
      → IsListed start n m s.list
      → HasMark m s.list
      → s.r15 % 2 ≡ 1
      → ((j : ℕ) → j < k → stop (s.looks + j) ≡ false)
      → stop (s.looks + k) ≡ true
      → suc k * n ≤ length s.banks
      → Captures beyond stop start n s (λ j. (j + 1) % m) (suc k)
  run-continuous zero m k s positive some_buffer short context listed mark odd before stopped
        enough =
      absurd (omega arith)
  run-continuous (suc c) m k s positive some_buffer short context listed mark odd before stopped
        enough =
      Captures-Finishes c s _ (suc k) (
        Finishes-until beyond stop start c m k 0 (at_list s) some_buffer short
          (at_list-IsAtEntry c m s context listed) mark odd before stopped enough)

  -- With a list of more than 124 buffers, each of `n` banks, at least one, none at address 0 and
  -- none that reaches 2 ^ 32, in either mode and with no stop signal, the sampling program returns
  -- after it has filled and signalled the first 125 of them in order, if PRU1 hands over the banks
  -- for these: it uses no later entry of the list.
  pub run-limit :
      (n m : ℕ) (s : Sampler)
      → 0 < n
      → 124 < m
      → s.r14 ≡ 0
      → IsListed start n m s.list
      → ((j : ℕ) → stop j ≡ false)
      → 125 * n ≤ length s.banks
      → Captures beyond stop start n s (λ j. j + 1) 125
  run-limit zero m s positive long context listed unstopped enough = absurd (omega arith)
  run-limit (suc c) m s positive long context listed unstopped enough =
      Captures-Finishes c s _ 125 (
        Finishes-limit beyond stop start c m 124 0 (at_list s) refl long
          (at_list-IsAtEntry c m s context listed) unstopped enough)
