-- ===== src/Use/Rules.antt =====
-- One rule for each way to build a call.
use mathlib.Core.Path.{subst}
use beagle_logic.Base.{
  ℕ, ◌<◌, ◌≡◌, ◌≢◌, refl, sym, ◌∙◌, Bool, true, false, Option, some, arith, if◌then◌else◌,
  get_elem?-some, set, length-set,
}
use beagle_logic.Device.{BufPtr, LogicBuffer, BeagleLogicDev, LogicBufferReader}
use beagle_logic.System.{
  System, M, pure, ◌>>=◌, ◌>>◌, ignoring, read_dev, read_reader, update_reader, load, store,
  element,
}
use beagle_logic.System.Settles.{Settles, ended, Settles-bind, Settles-weaken}
use beagle_logic.Buffers.Ring.{IsPlaced, AllPlaced-set, load-at}
use beagle_logic.Use.{InRing, DeviceInUse, InUse, Safe}
use beagle_logic.Irq.{next_ptr}

module _ {A B : Type 0} {P Q : System → Type 0} where
  pub Safe-bind :
      (m : M A) (f : A → M B) → Safe P Q m → ((a : A) → Safe Q Q (f a)) → Safe P Q (m >>= f)
  Safe-bind m f h next = record { at = λ s p. Settles-bind (h.at s p) (λ a t q. (next a).at t q) }

module _ {A : Type 0} {P : System → Type 0} where
  pub Safe-pure : (a : A) → Safe P P (pure a)
  Safe-pure a = record { at = λ s p. ended p }

module _ {A : Type 0} {P : System → Type 0} where
  pub Safe-ignoring : (m : M A) → Safe P P m → Safe P P (ignoring m)
  Safe-ignoring m h = Safe-bind m _ h (λ _. Safe-pure tt)

module _ {A : Type 0} {P Q : System → Type 0} where
  pub Safe-if : (b : Bool) (m n : M A) → Safe P Q m → Safe P Q n → Safe P Q (if b then m else n)
  Safe-if true m n h g = h
  Safe-if false m n h g = g

  -- The same, where a branch is known from its condition.
  pub Safe-when :
      (b : Bool) (m n : M A)
      → (b ≡ true → Safe P Q m)
      → (b ≡ false → Safe P Q n)
      → Safe P Q (if b then m else n)
  Safe-when true m n h g = h refl
  Safe-when false m n h g = g refl

  pub Safe-before :
      {P' : System → Type 0} (m : M A) → ((s : System) → P s → P' s) → Safe P' Q m → Safe P Q m
  Safe-before m f h = record { at = λ s p. h.at s (f s p) }

  pub Safe-after :
      {Q' : System → Type 0} (m : M A) → ((s : System) → Q s → Q' s) → Safe P Q m → Safe P Q' m
  Safe-after m f h = record { at = λ s p. Settles-weaken (h.at s p) (λ _ t q. f t q) f }

module _ {cnt size id : ℕ} {A : Type 0} {F : LogicBufferReader → Type 0} {Q : System → Type 0} where
  pub Safe-read_dev :
      (f : BeagleLogicDev → M A)
      → ((d : BeagleLogicDev) → DeviceInUse cnt size id d → Safe (InUse cnt size id F) Q (f d))
      → Safe (InUse cnt size id F) Q (read_dev >>= f)
  Safe-read_dev f next = record { at = λ s h. (next s.dev h.device).at s h }

  pub Safe-read_reader :
      (f : LogicBufferReader → M A)
      → ((r : LogicBufferReader) → F r → Safe (InUse cnt size id F) Q (f r))
      → Safe (InUse cnt size id F) Q (read_reader >>= f)
  Safe-read_reader f next = record { at = λ s h. (next s.reader h.file).at s h }

  -- The same, where more has to be known of the reader that was read.
  pub Safe-exact_reader :
      (f : LogicBufferReader → M A)
      → ((r : LogicBufferReader) → F r → Safe (InUse cnt size id (λ x. x ≡ r)) Q (f r))
      → Safe (InUse cnt size id F) Q (read_reader >>= f)
  Safe-exact_reader f next = record {
    at = λ s h. (next s.reader h.file).at s (record { device = h.device; file = refl });
  }

  -- What is known of the device can be used before a call.
  pub Safe-knowing :
      (m : M A)
      → ((d : BeagleLogicDev) → DeviceInUse cnt size id d → Safe (InUse cnt size id F) Q m)
      → Safe (InUse cnt size id F) Q m
  Safe-knowing m next = record { at = λ s h. (next s.dev h.device).at s h }

  -- A pointer into the ring can be read through.
  pub Safe-load :
      (p : Option BufPtr) (f : LogicBuffer → M A)
      → InRing cnt size id p
      → ((j : ℕ)
          → p ≡ some (record { array = id; index = j })
          → j < cnt
          → (b : LogicBuffer) → IsPlaced cnt size j b
          → Safe (InUse cnt size id F) Q (f b))
      → Safe (InUse cnt size id F) Q (load p >>= f)
  Safe-load p f (j, e, lt) next = record {
    at = λ s h.
        let (b, found) =
          get_elem?-some h.device.items j (omega (arith, h.device.ring.length_eq, lt)) in
        subst (λ q. Settles (λ _ t. Q t) Q ((load q >>= f) s)) (sym e)
          (rw (load-at s (record { id = id; items = h.device.items }) j h.device.ring.present found)
            ((next j e lt b (h.device.ring.placed j b found)).at s h));
  }

  pub Safe-update_reader :
      {G : LogicBufferReader → Type 0} (f : LogicBufferReader → LogicBufferReader) (m : M A)
      → ((r : LogicBufferReader) → F r → G (f r))
      → Safe (InUse cnt size id G) Q m
      → Safe (InUse cnt size id F) Q (update_reader f >> m)
  Safe-update_reader f m keeps h = record {
    at = λ s u. h.at _ (record { device = u.device; file = keeps s.reader u.file });
  }

module _ {cnt size id : ℕ} where
  pub DeviceInUse-frame :
      (d e : BeagleLogicDev)
      → e.buffers ≡ d.buffers
      → e.bufcount ≡ d.bufcount
      → InRing cnt size id e.bufbeingread
      → e.samplerate ≢ 0
      → DeviceInUse cnt size id d
      → DeviceInUse cnt size id e
  DeviceInUse-frame d e p q reading rate h = record {
    items = h.items;
    ring = ground (arith, h.ring, p, q);
    reading = reading;
    rate = rate;
  }

  pub InRing-element :
      (d : BeagleLogicDev) (j : ℕ)
      → DeviceInUse cnt size id d
      → j < cnt
      → InRing cnt size id (element d j)
  InRing-element d j h lt = (j, ground (arith, h.ring.present), lt)

  pub InRing-next :
      (p : Option BufPtr) (j : ℕ) (b : LogicBuffer)
      → p ≡ some (record { array = id; index = j })
      → j < cnt
      → IsPlaced cnt size j b
      → InRing cnt size id (next_ptr p b)
  InRing-next p j b e lt placed = (b.next, ground (arith, e), omega (arith, placed.next_eq, lt))

module _ {cnt size id : ℕ} {F : LogicBufferReader → Type 0} where
  pub Safe-set_reader :
      {G : LogicBufferReader → Type 0} (f : LogicBufferReader → LogicBufferReader)
      → ((r : LogicBufferReader) → F r → G (f r))
      → Safe (InUse cnt size id F) (InUse cnt size id G) (update_reader f)
  Safe-set_reader f keeps = record {
    at = λ s u. ended (record { device = u.device; file = keeps s.reader u.file });
  }

  -- What is known of the open file can be weakened, before a call and after it.
  pub Safe-file :
      {A : Type 0} {G : LogicBufferReader → Type 0} {Q : System → Type 0} (m : M A)
      → ((r : LogicBufferReader) → F r → G r)
      → Safe (InUse cnt size id G) Q m
      → Safe (InUse cnt size id F) Q m
  Safe-file m f h = Safe-before m (λ s u. record { device = u.device; file = f s.reader u.file }) h

  pub Safe-filed :
      {A : Type 0} {G : LogicBufferReader → Type 0} {P : System → Type 0} (m : M A)
      → ((r : LogicBufferReader) → F r → G r)
      → Safe P (InUse cnt size id F) m
      → Safe P (InUse cnt size id G) m
  Safe-filed m f h = Safe-after m (λ s u. record { device = u.device; file = f s.reader u.file }) h

  -- A buffer can be replaced by one in the same place.
  pub Safe-store :
      (j : ℕ) (p : Option BufPtr) (b : LogicBuffer)
      → p ≡ some (record { array = id; index = j })
      → IsPlaced cnt size j b
      → Safe (InUse cnt size id F) (InUse cnt size id F) (store p b)
  unfolding store
  Safe-store j p b e placed = record {
    at = λ s h.
        let d = h.device in
        rw e (
          ended (record {
            device = record {
              items = set d.items j b;
              ring = record {
                present = ground (arith, d.ring.present);
                count_eq = d.ring.count_eq;
                length_eq = length-set d.items j b ∙ d.ring.length_eq;
                two = d.ring.two;
                nonempty = d.ring.nonempty;
                placed = AllPlaced-set cnt size d.items j b d.ring.placed placed;
              };
              reading = d.reading;
              rate = d.rate;
            };
            file = h.file;
          }));
  }
