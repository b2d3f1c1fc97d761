-- ===== src/Pru0/Sampling/Outcome.antt =====
-- What a capture leaves.
use mathlib.Core.List.{append_assoc, append-nil}
use beagle_logic.Base.{
  ℕ, suc, ◌*◌, ◌≡◌, sym, ◌∙◌, some, List, [], ◌∷◌, ◌++◌, arith, drop, take, get_elem?,
}
use beagle_logic.Device.{BufList}
use beagle_logic.Pru0.Routing.{pru0_to_arm_a}
use beagle_logic.Pru0.Sampling.{event, Sampler}
use beagle_logic.Pru0.Sampling.Fill.{fill}
use beagle_logic.Pru0.Sampling.Capture.{captured, drop-drop, drop_eq}

-- What a capture of `count` buffers from buffer `i` on leaves of the state `s`.
pub record HasCaptured (start : ℕ → ℕ) (n : ℕ) (after : ℕ → ℕ) (count i : ℕ) (s t : Sampler)
    : Type 0 where
  pub actions_eq : t.actions ≡ s.actions ++ captured start n after count i s.banks
  pub banks_eq : t.banks ≡ drop (count * n) s.banks

-- The list ends in the mark after its `m` buffers.
pub record HasMark (m : ℕ) (list : List BufList) : Type 0 where
  pub mark : BufList
  pub mark_at : get_elem? list m ≡ some mark
  pub mark_zero : mark.dma_start_addr ≡ 0

module _ (start : ℕ → ℕ) (n : ℕ) (after : ℕ → ℕ) where
  pub HasCaptured-none :
      (i : ℕ) (s t : Sampler)
      → t.actions ≡ s.actions
      → t.banks ≡ s.banks
      → HasCaptured start n after 0 i s t
  unfolding captured
  HasCaptured-none i s t same left = record {
    actions_eq = same ∙ sym (append-nil s.actions);
    banks_eq = left ∙ drop_eq 0 (0 * n) s.banks (omega arith);
  }

  pub HasCaptured-next :
      (count i : ℕ) (s u t : Sampler)
      → u.actions ≡ s.actions ++ fill (start i) (take n s.banks) ++ (event pru0_to_arm_a ∷ [])
      → u.banks ≡ drop n s.banks
      → HasCaptured start n after count (after i) u t
      → HasCaptured start n after (suc count) i s t
  unfolding captured
  HasCaptured-next count i s u t did left h = record {
    actions_eq =
        h.actions_eq
        ∙ rw (did, left)
            (append_assoc (s.actions ++ fill (start i) (take n s.banks)) (event pru0_to_arm_a ∷ [])
                _
              ∙ append_assoc s.actions (fill (start i) (take n s.banks)) _);
    banks_eq =
        h.banks_eq ∙ rw left (drop-drop (count * n) n s.banks ∙ drop_eq _ _ s.banks (omega arith));
  }
