-- ===== src/Irq/Progress.antt =====
-- Any number of buffer interrupts in a row: how far the driver gets, in each of the two modes.
use mathlib.Core.Path.{subst}
use native.Mathlib.Nat.{add-zero, mod-eq_of_lt, mod_self, mod-add-mod}
use native.Mathlib.Decide.{dec_lt, ℕ_discrete}
use beagle_logic.Base.{
  ℕ, zero, suc, ◌+◌, ◌-◌, ◌%◌, ◌≤◌, ◌<◌, min, ◌≡◌, sym, ap, ◌∙◌, ◌≢◌, inl, inr, some, List, ◌⊎◌,
  ==_true, arith, get_elem?,
}
use beagle_logic.Device.{LogicBuffer}
use beagle_logic.Device.BufState.{unmapped}
use beagle_logic.System.{Platform, System, M, pure, ◌>>◌}
use beagle_logic.System.Returns.{Returns, returns, bind, weaken}
use beagle_logic.Buffers.Ring.{IsRing}
use beagle_logic.Irq.{serve_irq, buffer_ready}
use beagle_logic.Irq.Ring.{following, Served, buffer_ready-Served}

-- `n` interrupts with the same number, one after the other.
pub serve_all : Platform → ℕ → ℕ → M (Unit {0})
serve_all k irqno zero = pure tt
serve_all k irqno (suc n) = serve_all k irqno n >> serve_irq k irqno

-- The capture that `s` is in has come to buffer `p`, and the buffers in `Done` are handed over.
pub record Progress (cnt size id p : ℕ) (Done : ℕ → Type 0) (s t : System) : Type 0 where
  pub items : List LogicBuffer
  pub ring : IsRing t.dev (record { id = id; items = items }) cnt size
  pub reading : t.dev.bufbeingread ≡ some (record { array = id; index = p })
  pub flags_same : t.dev.triggerflags ≡ s.dev.triggerflags
  pub irq_same : t.dev.from_bl_irq_1 ≡ s.dev.from_bl_irq_1
  pub handed_over :
      (j : ℕ) (b : LogicBuffer) → Done j → get_elem? items j ≡ some b → b.state ≡ unmapped

pub serve_irq_first :
    (k : Platform) (s : System) (irqno : ℕ)
    → s.dev.from_bl_irq_1 ≡ irqno
    → serve_irq k irqno s ≡ buffer_ready k s
unfolding serve_irq
serve_irq_first k s irqno e = rw (==_true irqno s.dev.from_bl_irq_1 (sym e))

-- One more interrupt.
Progress-step :
    (k : Platform) (cnt size id p q irqno : ℕ) (Done Done' : ℕ → Type 0) (s t : System)
    → s.dev.from_bl_irq_1 ≡ irqno
    → p < cnt
    → following cnt s.dev.triggerflags p ≡ q
    → ((j : ℕ) → Done' j → (j ≡ p) ⊎ (Done j × (j ≢ p) × (j ≢ q)))
    → Progress cnt size id p Done s t
    → Returns (λ _ u. Progress cnt size id q Done' s u) (serve_irq k irqno t)
Progress-step k cnt size id p q irqno Done Done' s t e lt step sets h =
    rw (serve_irq_first k t irqno (h.irq_same ∙ e)) (
      weaken
        (buffer_ready-Served k cnt size (record { id = id; items = h.items }) p t h.reading h.ring
          lt)
        (λ _ u v. record {
          items = v.items;
          ring = v.ring;
          reading = ground (arith, v.frame, h.flags_same);
          flags_same = ground (arith, v.frame, h.flags_same);
          irq_same = ground (arith, v.frame, h.irq_same);
          handed_over = λ j b dn g. by_case (q_lem h) v j b g (sets j dn);
        }))
  where
    q_lem : Progress cnt size id p Done s t → following cnt t.dev.triggerflags p ≡ q
    q_lem x = ap (λ fl. following cnt fl p) x.flags_same ∙ step

    by_case :
        {u : System}
        → following cnt t.dev.triggerflags p ≡ q
        → (v : Served k cnt size
            (record { id = id; items = h.items })
            p
            (following cnt t.dev.triggerflags p)
            t
            u)
        → (j : ℕ) (b : LogicBuffer) → get_elem? v.items j ≡ some b
        → (j ≡ p) ⊎ (Done j × (j ≢ p) × (j ≢ q))
        → b.state ≡ unmapped
    by_case qe v j b g (inl e') = v.filled b (ap (get_elem? v.items) (sym e') ∙ g)
    by_case qe v j b g (inr (d, np, nq)) =
        h.handed_over j b d (sym (v.others j np (λ z. nq (z ∙ qe))) ∙ g)

following_continuous : (cnt flags p : ℕ) → flags ≢ 0 → following cnt flags p ≡ (p + 1) % cnt
following_continuous cnt flags p ne = ground arith

following_one_shot :
    (cnt flags p : ℕ) → flags ≡ 0 → p < cnt → following cnt flags p ≡ min (p + 1) (cnt - 1)
following_one_shot cnt flags p z lt = elim (dec_lt (p + 1) cnt) [
  | yes h ↦ ground (arith, mod-eq_of_lt h)
  | no h ↦
      let e : p + 1 ≡ cnt = omega arith in ground (arith, mod_self cnt, ap (λ (x : ℕ). x % cnt) e)
]

-- The buffer that was filled last, `n` interrupts after buffer `i` was begun.
abbrev pub LastFilled : ℕ → ℕ → ℕ → ℕ → Type 0
LastFilled cnt i n j = (m : ℕ) × (n ≡ suc m) × (j ≡ (i + m) % cnt)

-- The buffers of a one-shot capture that are full by then.
abbrev pub FilledSoFar : ℕ → ℕ → ℕ → ℕ → Type 0
FilledSoFar cnt i n j = (i ≤ j) × (j < min (i + n) cnt)

module _ (k : Platform) (cnt size id i irqno : ℕ) (s : System) where
  -- In continuous mode, on a ring whose buffer `i` is being filled: after any number `n` of buffer
  -- interrupts the driver fills buffer `(i + n) % cnt` of the ring, and the buffer filled last has
  -- been handed over.
  pub serve_all_continuous :
      (n : ℕ)
      → s.dev.from_bl_irq_1 ≡ irqno
      → s.dev.triggerflags ≢ 0
      → i < cnt
      → Progress cnt size id i (LastFilled cnt i 0) s s
      → Returns
          (λ _ t. Progress cnt size id ((i + n) % cnt) (LastFilled cnt i n) s t)
          (serve_all k irqno n s)
  unfolding serve_all
  serve_all_continuous zero e ne lt h =
      subst (λ p. Returns (λ _ t. Progress cnt size id p (LastFilled cnt i 0) s t) (pure tt s))
        (rw add-zero (sym (mod-eq_of_lt lt))) (returns h)
  serve_all_continuous (suc n) e ne lt h = bind (serve_all_continuous n e ne lt h) (λ _ t g.
      Progress-step k cnt size id ((i + n) % cnt) ((i + suc n) % cnt) irqno (LastFilled cnt i n)
        (LastFilled cnt i (suc n)) s t e (omega arith)
        (following_continuous cnt s.dev.triggerflags ((i + n) % cnt) ne
          ∙ rw mod-add-mod (ap (λ (x : ℕ). x % cnt) (omega arith)))
        (λ j (m, q, r). inl (let e : n ≡ m = omega arith in r ∙ rw e)) g)

  one_shot_sets :
      (n : ℕ)
      → i < cnt
      → (j : ℕ) → FilledSoFar cnt i (suc n) j
      → (j ≡ min (i + n) (cnt - 1))
        ⊎ (FilledSoFar cnt i n j × (j ≢ min (i + n) (cnt - 1)) × (j ≢ min (i + suc n) (cnt - 1)))
  one_shot_sets n lt j d = elim (ℕ_discrete j (min (i + n) (cnt - 1))) [
    | yes e ↦ inl e
    | no e ↦ inr (omega arith, e, omega arith)
  ]

  -- In one-shot mode, on a ring whose buffer `i` is being filled: the driver goes from buffer `i`
  -- to the last one and stays there, after any number `n` of buffer interrupts, and every buffer
  -- that was filled has been handed over.
  pub serve_all_one_shot :
      (n : ℕ)
      → s.dev.from_bl_irq_1 ≡ irqno
      → s.dev.triggerflags ≡ 0
      → i < cnt
      → Progress cnt size id i (FilledSoFar cnt i 0) s s
      → Returns
          (λ _ t. Progress cnt size id (min (i + n) (cnt - 1)) (FilledSoFar cnt i n) s t)
          (serve_all k irqno n s)
  unfolding serve_all
  serve_all_one_shot zero e ne lt h =
      subst (λ p. Returns (λ _ t. Progress cnt size id p (FilledSoFar cnt i 0) s t) (pure tt s))
        (omega arith) (returns h)
  serve_all_one_shot (suc n) e ne lt h = bind (serve_all_one_shot n e ne lt h) (λ _ t g.
      Progress-step k cnt size id (min (i + n) (cnt - 1)) (min (i + suc n) (cnt - 1)) irqno
        (FilledSoFar cnt i n) (FilledSoFar cnt i (suc n)) s t e (omega arith)
        (following_one_shot cnt s.dev.triggerflags (min (i + n) (cnt - 1)) ne (omega arith)
          ∙ omega arith)
        (one_shot_sets n lt) g)
