-- ===== src/Sysfs/Session.antt =====
-- A capture from the attribute `state`: 1 starts it, 0 ends it.
use beagle_logic.Base.{
  ℕ, ◌≡◌, refl, ap, ◌≢◌, ◌∙◌, none, false, some, List, ◌∷◌, ◌++◌, arith, replicate,
}
use beagle_logic.Device.{LogicBuffer, Ret, ret, initialized}
use beagle_logic.System.{Platform, System, Event, irq, pure, ◌>>=◌, ◌>>◌, ignoring}
use beagle_logic.System.Returns.{Returns, returns, bind, ignored}
use beagle_logic.Buffers.Ring.{IsRing}
use beagle_logic.Capture.{start, stop}
use beagle_logic.Capture.Session.{Started, start-Started}
use beagle_logic.Capture.Stop.{IsCapturing, stop-Initialized}
use beagle_logic.Sysfs.{Text, bl_state_store}

module _ (x : Text) (k : Platform) (count : ℕ) where
  state_store_one :
      (text : List ℕ) (s : System)
      → x.kstrtouint text ≡ some 1
      → bl_state_store x k text count s ≡ (ignoring (start k) >> pure (ret count)) s
  unfolding bl_state_store
  state_store_one text s e = rw e refl

  state_store_zero :
      (text : List ℕ) (s : System)
      → x.kstrtouint text ≡ some 0
      → bl_state_store x k text count s ≡ (stop k >> pure (ret count)) s
  unfolding bl_state_store
  state_store_zero text s e = rw e refl

-- A started capture on a ring is one that `stop` can end.
Started-IsCapturing :
    (cnt size id : ℕ) (items : List LogicBuffer) (s t : System) (r : Ret)
    → IsRing s.dev (record { id = id; items = items }) cnt size
    → s.dev.from_bl_irq_1 ≢ s.dev.from_bl_irq_2
    → Started s r t
    → IsCapturing cnt size id 0 t
Started-IsCapturing cnt size id items s t r ring two h = record {
  items = items;
  ring = ground (arith, h.frame, ring);
  reading =
      ap (λ (u : System). u.dev.bufbeingread) h.frame
      ∙ ap (λ o. elim o [ none ↦ none | some arr ↦ some (record { array = arr.id; index = 0 }) ])
          ring.present;
  p_lt = omega (arith, ring.two);
  two_irqs = ground (arith, h.frame, two);
  taken = ground (arith, h.frame);
  is_on = ground (arith, h.frame);
}

module _ (x : Text) (k : Platform) (count : ℕ) (text : List ℕ) (cnt size id : ℕ) where
  one_stored :
      (items : List LogicBuffer) (s : System)
      → x.kstrtouint text ≡ some 1
      → IsRing s.dev (record { id = id; items = items }) cnt size
      → s.dev.from_bl_irq_1 ≢ s.dev.from_bl_irq_2
      → s.dev.mutex ≡ false
      → s.dev.samplerate ≢ 0
      → Returns
          (λ a t.
            (a ≡ ret count)
            × IsCapturing cnt size id 0 t
            × (t.events ≡ s.events)
            × ((t.dev.from_bl_irq_1 ≡ s.dev.from_bl_irq_1)
                × (t.dev.from_bl_irq_2 ≡ s.dev.from_bl_irq_2)))
          (bl_state_store x k text count s)
  one_stored items s e ring two free ne = rw (state_store_one x k count text s e) (
      bind (ignored (start-Started k s free ne)) (λ _ t (r, h). returns (
        refl,
        Started-IsCapturing cnt size id items s t r ring two h,
        ground (arith, h.frame),
        (ground (arith, h.frame), ground (arith, h.frame)),
      )))

  zero_stored :
      (m : ℕ) (rest : List Event) (s : System)
      → x.kstrtouint text ≡ some 0
      → IsCapturing cnt size id 0 s
      → s.events ≡ replicate m (irq s.dev.from_bl_irq_1) ++ irq s.dev.from_bl_irq_2 ∷ rest
      → Returns
          (λ b t. (b ≡ ret count) × (t.dev.mutex ≡ false) × (t.dev.state ≡ initialized))
          (bl_state_store x k text count s)
  zero_stored m rest s e on es = rw (state_store_zero x k count text s e) (
      bind (stop-Initialized k cnt size id 0 m rest s on es)
        (λ _ t (free, st). returns (refl, free, st)))

-- A whole capture on a ring. With the mutex free and a sample rate that is not 0, a write of 1 to
-- `state` and then one of 0 both return the number of bytes written, whatever the firmware answers;
-- if `m` buffers become full before the PRU signals the end, the device is initialized afterwards,
-- and the mutex free.
pub bl_state_store-start_stop :
    (x : Text) (k : Platform) (one zero_text : List ℕ) (count : ℕ)
    → x.kstrtouint one ≡ some 1
    → x.kstrtouint zero_text ≡ some 0
    → (cnt size id m : ℕ) (items : List LogicBuffer) (rest : List Event) (s : System)
    → IsRing s.dev (record { id = id; items = items }) cnt size
    → s.dev.from_bl_irq_1 ≢ s.dev.from_bl_irq_2
    → s.dev.mutex ≡ false
    → s.dev.samplerate ≢ 0
    → s.events ≡ replicate m (irq s.dev.from_bl_irq_1) ++ irq s.dev.from_bl_irq_2 ∷ rest
    → Returns
        (λ (r : Ret × Ret) t.
          (r.0 ≡ ret count)
          × (r.1 ≡ ret count)
          × (t.dev.mutex ≡ false)
          × (t.dev.state ≡ initialized))
        ((bl_state_store x k one count >>= λ a.
            bl_state_store x k zero_text count >>= λ b. pure (a, b))
          s)
bl_state_store-start_stop x k one zero_text count e f cnt size id m items rest s ring two free ne
      es =
    bind (one_stored x k count one cnt size id items s e ring two free ne)
      (λ a t (q, on, same, irqs).
        bind
          (zero_stored x k count zero_text cnt size id m rest t f on
            (ground (arith, same, irqs.0, irqs.1, es)))
          (λ b u (r, free, st). returns (q, r, free, st)))
