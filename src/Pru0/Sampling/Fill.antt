-- ===== src/Pru0/Sampling/Fill.antt =====
-- One buffer, filled bank by bank.
use mathlib.Core.List.{append_assoc}
use beagle_logic.Base.{
  ℕ, zero, suc, ◌+◌, ◌*◌, ◌≤◌, ◌<◌, ◌≡◌, refl, sym, ap, Bool, List, [], ◌∷◌, ◌++◌, arith, u32, word,
  length, take, drop, ltb-true, ltb-false,
}
use mathlib.Core.Path.{subst}
use beagle_logic.Device.{BufList}
use beagle_logic.Pru0.Sampling.{
  Bank, Action, write, Sampler, label, run_2, write_bank, buffer_done, take_bank, step, Finishes,
  onward,
}

-- What filling from the address `a` on writes: each bank of samples after the one before.
unfoldable pub fill : ℕ → List Bank → List Action
fill a [] = []
fill a (b ∷ bs) = write a b.samples ∷ fill (a + 32) bs

-- A sampler whose buffer is full: `n` banks have been taken.
abbrev pub full : ℕ → ℕ → Sampler → Sampler
full n overflow s = record s {
  banks = drop n s.banks;
  r29 = overflow;
  actions = s.actions ++ fill s.r18 (take n s.banks);
  r18 = s.r18 + 32 * n;
}

u32_small : (n : ℕ) → n < word → u32 n ≡ n
u32_small n small = ground (arith, small)

-- One bank, and `n` more.
full_write :
    (n overflow : ℕ) (b : Bank) (bs : List Bank) (s : Sampler)
    → s.banks ≡ b ∷ bs
    → s.r18 + 32 < word
    → full n overflow (write_bank b bs s) ≡ full (suc n) overflow s
unfolding fill
full_write n overflow b bs s e small =
    rw
      (
        u32_small (s.r18 + 32) small,
        e,
        append_assoc s.actions (write s.r18 b.samples ∷ []) (fill (s.r18 + 32) (take n bs)),
      )
      (ap
        (λ a. record s {
          banks = drop n bs;
          r29 = overflow;
          actions = s.actions ++ (write s.r18 b.samples ∷ fill (s.r18 + 32) (take n bs));
          r18 = a;
        })
        (omega arith))

full_one :
    (b : Bank) (bs : List Bank) (s : Sampler)
    → s.banks ≡ b ∷ bs
    → s.r18 + 32 < word
    → write_bank b bs s ≡ full 1 b.overflow s
unfolding fill
full_one b bs s e small = rw (u32_small (s.r18 + 32) small, e) refl

module _ (beyond : ℕ → BufList) (stop : ℕ → Bool) (P : Sampler → Type 0) where
  abbrev Done : Sampler → Type 0
  Done t = Finishes beyond stop P (buffer_done (stop t.looks) t)

  -- From a state with `n + 1` banks of room, and as many to come, the buffer is filled.
  pub Finishes-fill :
      (n : ℕ) (bs : List Bank) (s : Sampler)
      → s.banks ≡ bs
      → suc n ≤ length bs
      → s.r19 ≡ s.r18 + 32 * suc n
      → s.r19 < word
      → ((overflow : ℕ) → Done (full (suc n) overflow s))
      → Finishes beyond stop P (label run_2 s)
  unfolding step take_bank
  Finishes-fill n [] s e enough room small next = absurd (omega (arith, enough))
  Finishes-fill zero (b ∷ bs) s e enough room small next = onward (
      rw (e, ltb-false (u32 (s.r18 + 32)) s.r19 (omega (arith, room, small)))
        (subst Done (sym (full_one b bs s e (omega arith))) (next b.overflow)))
  Finishes-fill (suc n) (b ∷ bs) s e enough room small next = onward (
      rw (e, ltb-true (u32 (s.r18 + 32)) s.r19 (omega (arith, room, small)))
        (Finishes-fill n bs (write_bank b bs s) refl (omega arith)
          (rw (u32_small (s.r18 + 32) (omega arith)) (omega arith)) small
          (λ o. subst Done (sym (full_write (suc n) o b bs s e (omega arith))) (next o))))
