-- ===== src/Safety/Locks.antt =====
-- The mutex, and the setters.
use beagle_logic.Base.{ℕ, ◌≡◌, refl, inl, inr, true, false, Bool-cases, arith, ◌≤◌, ◌/◌, Bool}
use beagle_logic.Device.{DeviceState, is_running, BeagleLogicDev, Ret}
use beagle_logic.System.{System, M, mutex_lock, mutex_unlock, ◌>>◌, ◌>>=◌, Run}
use beagle_logic.System.Mutex.{lock_free, lock_taken}
use beagle_logic.System.Keeps.{After, Keeps, After-bind_weaken}
use beagle_logic.Attributes.{set_samplerate, set_sampleunit, set_triggerflags}
use beagle_logic.Attributes.Rates.{
  nearest_rate_bounds, Setting, rejected, busy, stored, set_samplerate-Setting,
  set_sampleunit-Setting, set_triggerflags-Setting,
}
use beagle_logic.Safety.{Sound, SoundIn, Anything, NotRunning, Critical}
use beagle_logic.Safety.Frame.{Sound-dev, HoldsRing-frame}

-- With the mutex free no capture runs.
free-not_running : (s : System) → Sound s → s.dev.mutex ≡ false → is_running s.dev.state ≡ false
free-not_running s h free = elim (Bool-cases (is_running s.dev.state)) [
  | inl e ↦ absurd (ground (arith, h.running_locked e))
  | inr e ↦ e
]

-- A part of the code that has taken the mutex.
pub Keeps-critical :
    {A : Type 0} (m : M A)
    → ((s : System) → SoundIn Critical s → After (SoundIn Anything) (SoundIn Anything) (m s))
    → Keeps (SoundIn Anything) (mutex_lock >> m)
Keeps-critical m h = record {
  at = λ s (g, _). elim (Bool-cases s.dev.mutex) [
    | inl e ↦ rw (lock_taken s e) (g, tt)
    | inr e ↦ rw (lock_free s e) (
        h _ (
          Sound-dev true s.dev.lastbufready s.dev.bufbeingread s.dev.cxt_pru s.dev.maxbufcount
              s.dev.bufunitsize s.dev.lasterror s.dev.state s (λ _. refl) g,
          (refl, free-not_running s g e),
        ))
  ];
}

-- The mutex is released.
pub unlock-Sound :
    (s : System)
    → SoundIn NotRunning s
    → After (SoundIn Anything) (SoundIn Anything) (mutex_unlock s)
unfolding mutex_unlock
unlock-Sound s (h, c) = (
  Sound-dev false s.dev.lastbufready s.dev.bufbeingread s.dev.cxt_pru s.dev.maxbufcount
      s.dev.bufunitsize s.dev.lasterror s.dev.state s (λ r. absurd (ground (arith, c, r))) h,
  tt,
)

-- A setter keeps the invariant if the change that it makes does.
Setting-Sound :
    (A : Type 0) (f : BeagleLogicDev → BeagleLogicDev) (s : System) (r : Run Ret)
    → Setting A f s r
    → (A → Sound (record s { dev = f s.dev }))
    → SoundIn Anything s
    → After (SoundIn Anything) (SoundIn Anything) r
Setting-Sound A f s r (rejected _ e) change h = rw e h
Setting-Sound A f s r (busy _ _ e) change h = rw e h
Setting-Sound A f s r (stored a _ e) change h = rw e (change a, tt)

settings-Sound :
    (rate unit flags : ℕ) (s : System)
    → 1 ≤ rate
    → rate ≤ s.dev.coreclockfreq / 2
    → unit ≤ 2
    → flags ≤ 1
    → Sound s
    → Sound (record s {
      dev = record s.dev { samplerate = rate; sampleunit = unit; triggerflags = flags };
    })
settings-Sound rate unit flags s p q u f h = record {
  ring = HoldsRing-frame s.dev _ refl refl h.ring;
  owned = h.owned;
  rate_pos = p;
  rate_le = q;
  unit_le = u;
  flags_le = f;
  running_locked = h.running_locked;
}

pub Keeps-set_samplerate : (rate : ℕ) → Keeps (SoundIn Anything) (set_samplerate rate)
Keeps-set_samplerate rate = record {
  at = λ s h.
      Setting-Sound _ _ s _ (set_samplerate-Setting rate s)
        (λ (ge, le).
          let (lower, upper, _) = nearest_rate_bounds s.dev.coreclockfreq rate ge le in
          settings-Sound _ _ _ s (omega arith) upper h.0.unit_le h.0.flags_le h.0)
        h;
}

pub Keeps-set_sampleunit : (unit : ℕ) → Keeps (SoundIn Anything) (set_sampleunit unit)
Keeps-set_sampleunit unit = record {
  at = λ s h.
      Setting-Sound _ _ s _ (set_sampleunit-Setting unit s)
        (λ le. settings-Sound _ _ _ s h.0.rate_pos h.0.rate_le le h.0.flags_le h.0) h;
}

pub Keeps-set_triggerflags : (flags : ℕ) → Keeps (SoundIn Anything) (set_triggerflags flags)
Keeps-set_triggerflags flags = record {
  at = λ s h.
      Setting-Sound _ _ s _ (set_triggerflags-Setting flags s)
        (λ le. settings-Sound _ _ _ s h.0.rate_pos h.0.rate_le h.0.unit_le le h.0) h;
}

-- A call inside a part of the code in which more is known, and what follows it.
pub then_after :
    {A B : Type 0} (R : Bool → DeviceState → Type 0) (m : M A) (f : A → M B) (s : System)
    → Keeps (SoundIn R) m
    → SoundIn R s
    → ((a : A) (t : System) → SoundIn R t → After (SoundIn Anything) (SoundIn Anything) (f a t))
    → After (SoundIn Anything) (SoundIn Anything) ((m >>= f) s)
then_after R m f s keep h next =
    After-bind_weaken (SoundIn R) (SoundIn Anything) (SoundIn R) (SoundIn Anything) (m s) f
      (keep.at s h) (λ _ g. (g.0, tt)) next
