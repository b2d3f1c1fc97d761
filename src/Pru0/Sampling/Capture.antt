-- ===== src/Pru0/Sampling/Capture.antt =====
-- A capture, buffer by buffer.
use beagle_logic.Base.{
  ℕ, zero, suc, ◌+◌, ◌-◌, ◌*◌, ◌/◌, ◌≤◌, ◌<◌, ◌≡◌, refl, sym, ap, ◌∙◌, Bool, true, false, some,
  List, [], ◌∷◌, ◌++◌, arith, u32, word, length, take, drop, ltb-true, ltb-false, get_elem?,
  ==_false, drop_all, none,
}
use beagle_logic.Device.{BufList}
use beagle_logic.Pru0.Routing.{pru0_to_arm_a}
use beagle_logic.Pru0.Sampling.{
  Bank, Action, event, Sampler, label, run_1, entry_at, with_entry, load_entry, buffer_done, step,
  Finishes, back, onward,
}
use beagle_logic.Pru0.Sampling.Fill.{fill, full, Finishes-fill}

-- The first `m` entries of the list are buffers of `n` banks each, with the addresses `start`.
pub record IsListed (start : ℕ → ℕ) (n m : ℕ) (list : List BufList) : Type 0 where
  pub entries :
      (i : ℕ)
      → i < m
      → get_elem? list i
        ≡ some (record { dma_start_addr = start i; dma_end_addr = start i + 32 * n })
  pub somewhere : (i : ℕ) → i < m → 0 < start i
  pub below : (i : ℕ) → i < m → start i + 32 * n < word

-- What a capture of `count` buffers from buffer `i` on does: each is filled with the next `n` banks
-- and then signalled, and the buffer after it follows.
unfoldable pub captured : (ℕ → ℕ) → ℕ → (ℕ → ℕ) → ℕ → ℕ → List Bank → List Action
captured start n after zero i bs = []
captured start n after (suc count) i bs =
    fill (start i) (take n bs)
    ++ (event pru0_to_arm_a ∷ captured start n after count (after i) (drop n bs))

pub drop_eq : {A : Type 0} (m n : ℕ) (xs : List A) → m ≡ n → drop m xs ≡ drop n xs
drop_eq m n xs e = ap (λ k. drop k xs) e

pub drop-drop : {A : Type 0} (m n : ℕ) (xs : List A) → drop m (drop n xs) ≡ drop (n + m) xs
drop-drop m zero xs = ap (λ k. drop k xs) (omega arith)
drop-drop m (suc n) [] = drop_all m [] (omega arith) ∙ sym (drop_all (suc n + m) [] (omega arith))
drop-drop m (suc n) (x ∷ xs) = drop-drop m n xs ∙ ap (λ k. drop k (x ∷ xs)) shift
  where
    shift : suc (n + m) ≡ suc n + m
    shift = omega arith

index_of : (i r : ℕ) → r ≡ 24 + 8 * i → (r - 24) / 8 ≡ i
index_of i r e = omega (arith, e)

pub entry_at_lem :
    (beyond : ℕ → BufList) (s : Sampler) (i : ℕ) (e : BufList)
    → s.r16 ≡ 24 + 8 * i
    → get_elem? s.list i ≡ some e
    → entry_at beyond s ≡ e
entry_at_lem beyond s i e there found =
    ap (λ k. elim (get_elem? s.list k) [ none ↦ beyond s.r16 | some x ↦ x ])
      (index_of i s.r16 there)
    ∙ ap (λ o. elim o [ none ↦ beyond s.r16 | some x ↦ x ]) found

module _ (start : ℕ → ℕ) (c m : ℕ) where
  -- A sampler that is about to load entry `i`.
  pub record IsAtEntry (i : ℕ) (s : Sampler) : Type 0 where
    pub context_at : s.r14 ≡ 0
    pub entry_eq : s.r16 ≡ 24 + 8 * i
    pub limit_eq : s.r17 ≡ 1024
    pub listed : IsListed start (suc c) m s.list

module _ (beyond : ℕ → BufList) (stop : ℕ → Bool) (start : ℕ → ℕ) (c m : ℕ) where
  -- Buffer `i` is full and signalled.
  abbrev pub entry : ℕ → BufList
  entry i = record { dma_start_addr = start i; dma_end_addr = start i + 32 * suc c }

  abbrev pub taken : ℕ → ℕ → Sampler → Sampler
  taken i o s =
      let t = full (suc c) o (with_entry (entry i) s) in
      record t { actions = t.actions ++ (event pru0_to_arm_a ∷ []); looks = t.looks + 1 }

  module _ (P : Sampler → Type 0) where
    Finishes-buffer :
        (i : ℕ) (s : Sampler)
        → IsAtEntry start c m i s
        → i < m
        → suc c ≤ length s.banks
        → ((o : ℕ)
            → Finishes beyond stop P
                (buffer_done (stop s.looks) (full (suc c) o (with_entry (entry i) s))))
        → Finishes beyond stop P (label run_1 s)
    unfolding step load_entry
    Finishes-buffer i s h lt enough next = onward (
        rw
          (
            entry_at_lem beyond s i (entry i) h.entry_eq (h.listed.entries i lt),
            ==_false (start i) 0 (λ e. omega (arith, e, h.listed.somewhere i lt)),
          )
          (Finishes-fill beyond stop P c s.banks (with_entry (entry i) s) refl enough refl
            (h.listed.below i lt) next))

  -- The sampler on its way to the entry after `i`.
  abbrev pub onto : ℕ → ℕ → Sampler → Sampler
  onto i o s = record (taken i o s) { r16 = 24 + 8 * (i + 1) }

  module _ (P : Sampler → Type 0) where
    -- A buffer that is not the last one of the list's reach, with no stop signal after it.
    pub Finishes-onto :
        (i : ℕ) (s : Sampler)
        → IsAtEntry start c m i s
        → i < m
        → i < 124
        → suc c ≤ length s.banks
        → stop s.looks ≡ false
        → ((o : ℕ) → Finishes beyond stop P (label run_1 (onto i o s)))
        → Finishes beyond stop P (label run_1 s)
    unfolding buffer_done
    Finishes-onto i s h lt low enough unstopped next = Finishes-buffer P i s h lt enough (λ o.
        rw
          (
            unstopped,
            moved i s h low,
            ltb-true (24 + 8 * (i + 1)) s.r17 (omega (arith, h.limit_eq, low)),
          )
          (next o))
      where
        moved :
            (i : ℕ) (s : Sampler)
            → IsAtEntry start c m i s
            → i < 124
            → u32 (s.r16 + 8) ≡ 24 + 8 * (i + 1)
        moved i s h low = omega (arith, h.entry_eq)

    -- The stop signal is seen after a buffer.
    pub Finishes-stopped :
        (i : ℕ) (s : Sampler)
        → IsAtEntry start c m i s
        → i < m
        → suc c ≤ length s.banks
        → stop s.looks ≡ true
        → ((o : ℕ) → P (taken i o s))
        → Finishes beyond stop P (label run_1 s)
    unfolding buffer_done
    Finishes-stopped i s h lt enough stopped next =
        Finishes-buffer P i s h lt enough (λ o. rw stopped (back (next o)))

    -- The entry 124 is the last one that is used.
    pub Finishes-last :
        (s : Sampler)
        → IsAtEntry start c m 124 s
        → 124 < m
        → suc c ≤ length s.banks
        → stop s.looks ≡ false
        → ((o : ℕ) → P (record (taken 124 o s) { r16 = 1024; r14 = 0 }))
        → Finishes beyond stop P (label run_1 s)
    unfolding buffer_done
    Finishes-last s h lt enough unstopped next = Finishes-buffer P 124 s h lt enough (λ o.
        rw (unstopped, at_end s h, ltb-false 1024 s.r17 (omega (arith, h.limit_eq)))
          (back (next o)))
      where
        at_end : (s : Sampler) → IsAtEntry start c m 124 s → u32 (s.r16 + 8) ≡ 1024
        at_end s h = omega (arith, h.entry_eq)
