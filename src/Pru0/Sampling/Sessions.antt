-- ===== src/Pru0/Sampling/Sessions.antt =====
-- Whole captures: once through the list, round and round until the stop, and past its reach.
use mathlib.Core.Path.{subst}
use native.Mathlib.Nat.{mod-eq_of_lt, mod_self}
use native.Mathlib.Decide.{dec_lt}
use beagle_logic.Base.{
  ℕ, zero, suc, ◌+◌, ◌*◌, ◌%◌, ◌≤◌, ◌<◌, ◌≡◌, refl, sym, ap, ◌∙◌, Bool, true, false, arith, u32,
  length, length-drop, ==_true, ==_false,
}
use beagle_logic.Device.{BufList}
use beagle_logic.Pru0.Sampling.{
  Sampler, At, label, run_1, canexit, with_entry, load_entry, step, Finishes, back, onward,
}
use beagle_logic.Pru0.Sampling.Capture.{
  entry_at_lem, IsAtEntry, taken, onto, Finishes-onto, Finishes-stopped, Finishes-last,
}
use beagle_logic.Pru0.Sampling.Outcome.{HasMark, HasCaptured, HasCaptured-none, HasCaptured-next}

to_start : (i m : ℕ) → i < m → ¬ (i + 1 < m) → (i + 1) % m ≡ 0
to_start i m lt past = let e : i + 1 ≡ m = omega arith in ap (λ x. x % m) e ∙ mod_self m

module _ (beyond : ℕ → BufList) (stop : ℕ → Bool) where
  Finishes-weaken :
      {P Q : Sampler → Type 0} {a : At}
      → ((t : Sampler) → P t → Q t)
      → Finishes beyond stop P a
      → Finishes beyond stop Q a
  Finishes-weaken f (back p) = back (f _ p)
  Finishes-weaken f (onward h) = onward (Finishes-weaken f h)

  module _ (start : ℕ → ℕ) (c m : ℕ) where
    IsAtEntry-onto :
        (i o : ℕ) (s : Sampler)
        → IsAtEntry start c m i s
        → IsAtEntry start c m (i + 1) (onto beyond stop start c m i o s)
    IsAtEntry-onto i o s h = record {
      context_at = h.context_at;
      entry_eq = refl;
      limit_eq = h.limit_eq;
      listed = h.listed;
    }

    Finishes-mark :
        (P : Sampler → Type 0) (s : Sampler)
        → IsAtEntry start c m m s
        → HasMark m s.list
        → ((e : BufList) → Finishes beyond stop P (label canexit (with_entry e s)))
        → Finishes beyond stop P (label run_1 s)
    unfolding step load_entry
    Finishes-mark P s h w next = onward (
        rw
          (
            entry_at_lem beyond s m w.mark h.entry_eq w.mark_at,
            ==_true w.mark.dma_start_addr 0 w.mark_zero,
          )
          (next w.mark))

    pub Finishes-list :
        (k i : ℕ) (s : Sampler)
        → i + k ≡ m
        → m ≤ 124
        → IsAtEntry start c m i s
        → HasMark m s.list
        → s.r15 % 2 ≡ 0
        → ((j : ℕ) → stop j ≡ false)
        → k * suc c ≤ length s.banks
        → Finishes beyond stop (HasCaptured start (suc c) (λ j. j + 1) k i s) (label run_1 s)
    unfolding step
    Finishes-list zero i s there short h mark even unstopped enough =
        Finishes-mark _ s (subst (λ j. IsAtEntry start c m j s) (omega arith) h) mark (λ e. onward (
          rw (==_false (s.r15 % 2) 1 (λ odd. omega arith))
            (back (HasCaptured-none start (suc c) (λ j. j + 1) i s _ refl refl))))
    Finishes-list (suc k) i s there short h mark even unstopped enough =
        Finishes-onto beyond stop start c m _ i s h (omega arith) (omega arith) (omega arith)
          (unstopped s.looks)
          (λ o.
            Finishes-weaken
              (λ t g.
                HasCaptured-next start (suc c) (λ j. j + 1) k i s (onto beyond stop start c m i o s)
                  t refl refl g)
              (Finishes-list k (i + 1) (onto beyond stop start c m i o s) (omega arith) short
                (IsAtEntry-onto i o s h) mark even unstopped
                (omega (arith, length-drop (suc c) s.banks))))

    -- Back at the first entry from the mark.
    abbrev again : BufList → Sampler → Sampler
    again e s = record (with_entry e s) { r16 = u32 (s.r14 + 24) }

    Finishes-again :
        (P : Sampler → Type 0) (s : Sampler)
        → IsAtEntry start c m m s
        → HasMark m s.list
        → s.r15 % 2 ≡ 1
        → ((e : BufList) → Finishes beyond stop P (label run_1 (again e s)))
        → Finishes beyond stop P (label run_1 s)
    unfolding step
    Finishes-again P s h mark odd next =
        Finishes-mark P s h mark (λ e. onward (rw (==_true (s.r15 % 2) 1 odd) (onward (next e))))

    -- To the entry after `i`, round the end of the list.
    Finishes-round :
        (P : Sampler → Type 0) (i : ℕ) (s : Sampler)
        → i < m
        → IsAtEntry start c m (i + 1) s
        → HasMark m s.list
        → s.r15 % 2 ≡ 1
        → ((u : Sampler)
            → IsAtEntry start c m ((i + 1) % m) u
            → u.r15 ≡ s.r15
            → u.list ≡ s.list
            → u.banks ≡ s.banks
            → u.actions ≡ s.actions
            → u.looks ≡ s.looks
            → Finishes beyond stop P (label run_1 u))
        → Finishes beyond stop P (label run_1 s)
    Finishes-round P i s lt h mark odd next = elim (dec_lt (i + 1) m) [
      | yes inside ↦
          next s (subst (λ j. IsAtEntry start c m j s) (sym (mod-eq_of_lt inside)) h) refl refl refl
            refl refl
      | no past ↦
          Finishes-again P s (subst (λ j. IsAtEntry start c m j s) (omega arith) h) mark odd (λ e.
            next (again e s)
              (record {
                context_at = h.context_at;
                entry_eq = omega (arith, h.context_at, to_start i m lt (λ q. past q));
                limit_eq = h.limit_eq;
                listed = h.listed;
              })
              refl refl refl refl refl)
    ]

    pub Finishes-until :
        (k i : ℕ) (s : Sampler)
        → i < m
        → m ≤ 124
        → IsAtEntry start c m i s
        → HasMark m s.list
        → s.r15 % 2 ≡ 1
        → ((j : ℕ) → j < k → stop (s.looks + j) ≡ false)
        → stop (s.looks + k) ≡ true
        → suc k * suc c ≤ length s.banks
        → Finishes beyond stop
            (HasCaptured start (suc c) (λ j. (j + 1) % m) (suc k) i s)
            (label run_1 s)
    Finishes-until zero i s lt short h mark odd before stopped enough =
        Finishes-stopped beyond stop start c m _ i s h lt (omega arith)
          (subst (λ j. stop j ≡ true) (omega arith) stopped)
          (λ o.
            HasCaptured-next start (suc c) (λ j. (j + 1) % m) 0 i s
              (taken beyond stop start c m i o s) _ refl refl
              (HasCaptured-none start (suc c) (λ j. (j + 1) % m) _ _ _ refl refl))
    Finishes-until (suc k) i s lt short h mark odd before stopped enough =
        Finishes-onto beyond stop start c m _ i s h lt (omega arith) (omega arith)
          (subst (λ j. stop j ≡ false) (omega arith) (before 0 (omega arith)))
          (λ o.
            Finishes-round _ i (onto beyond stop start c m i o s) lt (IsAtEntry-onto i o s h) mark
              odd
              (λ u at_next same_flags same_list same_banks same_actions same_looks.
                Finishes-weaken
                  (λ t g.
                    HasCaptured-next start (suc c) (λ j. (j + 1) % m) (suc k) i s u t same_actions
                      same_banks g)
                  (Finishes-until k ((i + 1) % m) u (omega arith) short at_next
                    (subst (HasMark m) (sym same_list) mark) (omega (arith, same_flags, odd))
                    (λ j lt'.
                      subst (λ x. stop x ≡ false) (omega (arith, same_looks))
                        (before (suc j) (omega arith)))
                    (subst (λ x. stop x ≡ true) (omega (arith, same_looks)) stopped)
                    (rw same_banks (omega (arith, length-drop (suc c) s.banks))))))

    pub Finishes-limit :
        (k i : ℕ) (s : Sampler)
        → i + k ≡ 124
        → 124 < m
        → IsAtEntry start c m i s
        → ((j : ℕ) → stop j ≡ false)
        → suc k * suc c ≤ length s.banks
        → Finishes beyond stop (HasCaptured start (suc c) (λ j. j + 1) (suc k) i s) (label run_1 s)
    Finishes-limit zero i s there long h unstopped enough =
        let e : i ≡ 124 = omega arith in
        subst
          (λ j. Finishes beyond stop (HasCaptured start (suc c) (λ j. j + 1) 1 j s) (label run_1 s))
          (sym e)
          (Finishes-last beyond stop start c m _ s (subst (λ j. IsAtEntry start c m j s) e h) long
            (omega arith) (unstopped s.looks)
            (λ o.
              HasCaptured-next start (suc c) (λ j. j + 1) 0 124 s
                (taken beyond stop start c m 124 o s) _ refl refl
                (HasCaptured-none start (suc c) (λ j. j + 1) _ _ _ refl refl)))
    Finishes-limit (suc k) i s there long h unstopped enough =
        Finishes-onto beyond stop start c m _ i s h (omega arith) (omega arith) (omega arith)
          (unstopped s.looks)
          (λ o.
            Finishes-weaken
              (λ t g.
                HasCaptured-next start (suc c) (λ j. j + 1) (suc k) i s
                  (onto beyond stop start c m i o s) t refl refl g)
              (Finishes-limit k (i + 1) (onto beyond stop start c m i o s) (omega arith) long
                (IsAtEntry-onto i o s h) unstopped (omega (arith, length-drop (suc c) s.banks))))
