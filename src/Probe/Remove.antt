-- ===== src/Probe/Remove.antt =====
-- `beaglelogic_remove`, and the life of a device from the probe on.
use mathlib.Core.List.{Perm, perm_append_comm}
use mathlib.Core.List.Perm
use beagle_logic.Base.{
  ℕ, ◌≤◌, ◌≡◌, refl, inl, inr, true, false, Bool-cases, Option, none, some, pos, List, [], ◌∷◌,
  ◌&&◌, leb, arith, count, ap, ==_true,
}
use beagle_logic.System.{Platform, System, done}
use beagle_logic.System.Returns.{at_done, Returns, returns, bind, weaken}
use beagle_logic.Attributes.{nearest_rate}
use beagle_logic.Attributes.Rates.{nearest_rate_bounds}
use beagle_logic.Buffers.{memfree}
use beagle_logic.Buffers.Free.{memfree-Released, memfree_null}
use beagle_logic.Buffers.Ring.{HoldsRing}
use beagle_logic.Sysfs.{Text}
use beagle_logic.Safety.{Sound, held}
use beagle_logic.Safety.Reach.{Reach, Reach-Sound}
use beagle_logic.Probe.{Bus, Ledger, pru1_running, pru0_running, irq_2, irq_1}
use beagle_logic.Probe.Sequence.{probe, remove}
use beagle_logic.Probe.Outcome.{
  chosen, everything, Ready, loaded, failed, wrong_magic, no_version, wrong_max_sg, ProbeOutcome,
}
use beagle_logic.Probe.Steps.{probe-Outcome}

-- A setting that is chosen lies in its range if the default does.
chosen_rate :
    (o : Option ℕ)
    → (1 ≤ chosen (λ r. leb 1 r && leb r 100_000_000) (nearest_rate 200_000_000) 100_000_000 o)
      × (chosen (λ r. leb 1 r && leb r 100_000_000) (nearest_rate 200_000_000) 100_000_000 o
          ≤ 100_000_000)
chosen_rate none = (omega arith, omega arith)
chosen_rate (some v) = elim (Bool-cases (leb 1 v && leb v 100_000_000)) [
  | inr e ↦ rw e (omega arith, omega arith)
  | inl e ↦
      let (lower, upper, _) = nearest_rate_bounds 200_000_000 v (ground arith) (ground arith) in
      rw e (ground arith, omega (arith, upper))
]

chosen_le :
    (most default : ℕ) (o : Option ℕ)
    → default ≤ most
    → chosen (λ n. leb n most) (λ n. n) default o ≤ most
chosen_le most default none h = h
chosen_le most default (some v) h = elim (Bool-cases (leb v most)) [
  | inr e ↦ rw e h
  | inl e ↦ rw e (ground arith)
]

Ready-Sound : (b : Bus) (s t : System) → s.heap ≡ [] → Ready b s t → Sound t
Ready-Sound b s t empty r = record {
  ring = inl r.no_buffers;
  owned = λ a. ground (arith, r.heap_same, r.no_buffers);
  rate_pos = ground (arith, (chosen_rate b.samplerate).0, r.rate_eq);
  rate_le = ground (arith, (chosen_rate b.samplerate).1, r.rate_eq, r.clock_eq);
  unit_le = ground (arith, chosen_le 2 1 b.sampleunit (omega arith), r.sampleunit_eq);
  flags_le = ground (arith, chosen_le 1 0 b.triggerflags (omega arith), r.flags_eq);
  running_locked = λ e. ground (arith, r.state_eq, e);
}

-- A list in which nothing is counted is empty.
empty_of_no_counts : (xs : List ℕ) → ((a : ℕ) → count a xs ≡ 0) → xs ≡ []
empty_of_no_counts [] h = refl
empty_of_no_counts (x ∷ xs) h = absurd (ground (arith, h x, ==_true x x refl))

-- With the mutex free, `memfree` leaves no block behind.
memfree_all :
    (s : System)
    → Sound s
    → s.dev.mutex ≡ false
    → HoldsRing s.dev
    → Returns (λ _ t. (t.heap ≡ []) × (t.dev.buffers ≡ none)) (memfree s)
memfree_all s h free (inl none_there) =
    rw (memfree_null s free none_there)
      (returns (empty_of_no_counts s.heap (λ a. ground (arith, h.owned a)), none_there))
memfree_all s h free (inr (arr, cnt, size, ring)) =
    weaken (memfree-Released arr cnt size s free ring) (λ _ t f. (
      empty_of_no_counts t.heap (λ a.
          omega (arith, f.heap_shrinks a, h.owned a, ap (λ o. count a (held o)) ring.present)),
      ground (arith, f.frame),
    ))

remove-Removed :
    (s : System)
    → Sound s
    → s.dev.mutex ≡ false
    → Returns (λ q t. (t.heap ≡ []) × (t.dev.buffers ≡ none) × Perm q everything) (remove s)
unfolding remove
remove-Removed s h free = bind (memfree_all s h free h.ring) (λ _ t (e, f). returns (
  e,
  f,
  Perm.cons _ (
      Perm.cons _ (
        Perm.append_right _
          (perm_append_comm (pru1_running ∷ pru0_running ∷ []) (irq_2 ∷ irq_1 ∷ [])))),
))

-- What the ledger shows after a probe that has taken everything and given nothing back.
abbrev pub taken_all : Ledger
taken_all = record { acquired = everything; released = []; sram = true }

module _ (x : Text) (k : Platform) (b : Bus) where
  probed-Ready : (s t : System) → ProbeOutcome b k s (pos 0) taken_all t → Ready b s t
  probed-Ready s t (loaded _ _ _ ready) = ready
  probed-Ready s t (failed e _ _) = cc
  probed-Ready s t (wrong_magic _ _ e _) = cc
  probed-Ready s t (no_version _ _ e _) = cc
  probed-Ready s t (wrong_max_sg _ _ _ _ e _) = cc

  -- From a probe that succeeds, with no block in use before it, to the removal: whatever calls and
  -- interrupts come in between, if the mutex is free at the end, `remove` returns, the driver has
  -- given back every block and every resource that the probe took, each once, and has no buffers.
  pub probe-remove :
      (s : System) {t u : System}
      → s.heap ≡ []
      → probe b k s ≡ done (pos 0, taken_all) t
      → Reach x k t u
      → u.dev.mutex ≡ false
      → Returns
          (λ q v. (v.heap ≡ []) × (v.dev.buffers ≡ none) × Perm q taken_all.acquired)
          (remove u)
  probe-remove s {t} {u} empty probed reach free =
      remove-Removed u
        (Reach-Sound x k
          (Ready-Sound b s t empty (probed-Ready s t (at_done (probe-Outcome b k s) probed))) reach)
        free
