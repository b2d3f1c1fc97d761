-- ===== src/Safety/Frame.antt =====
-- Changes of the device that the invariant survives.
use beagle_logic.Base.{ℕ, ◌≡◌, inl, inr, true, Option, arith, refl, sym, Bool}
use beagle_logic.Device.{
  BeagleLogicDev, BufPtr, CaptureContext, DeviceState, is_running, LogicBufferReader,
}
use beagle_logic.System.{System, update_dev, update_reader}
use beagle_logic.System.Keeps.{Keeps}
use beagle_logic.Buffers.Ring.{HoldsRing}
use beagle_logic.Safety.{Sound, SoundIn, Sound-rest}
use mathlib.Core.Path.{subst}

pub HoldsRing-frame :
    (d e : BeagleLogicDev)
    → e.buffers ≡ d.buffers
    → e.bufcount ≡ d.bufcount
    → HoldsRing d
    → HoldsRing e
HoldsRing-frame d e p q (inl none_there) = inl (ground arith)
HoldsRing-frame d e p q (inr (arr, cnt, size, ring)) =
    inr (arr, cnt, size, ground (arith, ring, p, q))

-- The mutex, the state and the fields that the invariant does not read.
pub Sound-dev :
    (m : Bool) (a b : Option BufPtr) (cxt : CaptureContext) (most unit e : ℕ) (st : DeviceState)
    (s : System)
    → (is_running st ≡ true → m ≡ true)
    → Sound s
    → Sound (record s {
      dev = record s.dev {
        mutex = m;
        lastbufready = a;
        bufbeingread = b;
        cxt_pru = cxt;
        maxbufcount = most;
        bufunitsize = unit;
        lasterror = e;
        state = st;
      };
    })
Sound-dev m a b cxt most unit e st s f h = record {
  ring = HoldsRing-frame s.dev _ refl refl h.ring;
  owned = h.owned;
  rate_pos = h.rate_pos;
  rate_le = h.rate_le;
  unit_le = h.unit_le;
  flags_le = h.flags_le;
  running_locked = f;
}

module _ (R : Bool → DeviceState → Type 0) where
  -- A pointer, an error number, the PRU's memory or the unit is written.
  pub Keeps-fields :
      (f : BeagleLogicDev → BeagleLogicDev)
      → ((d : BeagleLogicDev)
          → f d ≡ record d {
            lastbufready = (f d).lastbufready;
            bufbeingread = (f d).bufbeingread;
            cxt_pru = (f d).cxt_pru;
            bufunitsize = (f d).bufunitsize;
            lasterror = (f d).lasterror;
          })
      → Keeps (SoundIn R) (update_dev f)
  Keeps-fields f e = record {
    at = λ s (h, c).
        subst (λ d. SoundIn R (record s { dev = d })) (sym (e s.dev))
          (
            Sound-dev s.dev.mutex (f s.dev).lastbufready (f s.dev).bufbeingread (f s.dev).cxt_pru
                s.dev.maxbufcount (f s.dev).bufunitsize (f s.dev).lasterror s.dev.state s
                h.running_locked h,
            c,
          );
  }

  pub Keeps-update_reader :
      (f : LogicBufferReader → LogicBufferReader) → Keeps (SoundIn R) (update_reader f)
  Keeps-update_reader f = record {
    at = λ s (h, c). (Sound-rest (f s.reader) s.calls s.events s h, c);
  }
