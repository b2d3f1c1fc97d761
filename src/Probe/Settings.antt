-- ===== src/Probe/Settings.antt =====
-- The settings from the device tree.
use mathlib.Core.Path.{subst}
use beagle_logic.Base.{
  ℕ, ◌≡◌, refl, inl, inr, Bool, true, false, Bool-cases, Option, none, some, ◌&&◌, leb,
  if◌then◌else◌, arith, ◌⊎◌, ◌∙◌, sym,
}
use beagle_logic.Device.{BeagleLogicDev, Ret}
use beagle_logic.System.{System, M, Run, done, and_then}
use beagle_logic.System.Returns.{Returns}
use beagle_logic.Attributes.{nearest_rate, set_samplerate, set_sampleunit, set_triggerflags}
use beagle_logic.Attributes.Rates.{
  Setting, rejected, busy, stored, set_samplerate-Setting, set_sampleunit-Setting,
  set_triggerflags-Setting,
}
use beagle_logic.Probe.Sequence.{apply_property}
use beagle_logic.Probe.Outcome.{chosen}

-- A setter that finds the mutex free leaves the value or makes the change.
Setting-done :
    (A : Type 0) (f : BeagleLogicDev → BeagleLogicDev) (s : System) (r : Run Ret)
    → Setting A f s r
    → s.dev.mutex ≡ false
    → ((¬ A) × (a : Ret) × (r ≡ done a s))
      ⊎ (A × (a : Ret) × (r ≡ done a (record s { dev = f s.dev })))
Setting-done A f s r (rejected n e) free = inl (n, _, e)
Setting-done A f s r (busy _ taken _) free = cc
Setting-done A f s r (stored a _ e) free = inr (a, _, e)

pub then_done :
    {A B : Type 0} {P : B → System → Type 0} {r : Run A} {a : A} {u : System} (f : A → M B)
    → r ≡ done a u
    → Returns P (f a u)
    → Returns P (and_then r f)
then_done {P} f e h = subst (λ q. Returns P (and_then q f)) (sym e) h

-- A property that is there is tried; the result is not looked at.
applied :
    (A : Type 0) (f : BeagleLogicDev → BeagleLogicDev) (v : ℕ) (setter : ℕ → M Ret) (fits : Bool)
    (u : System)
    → Setting A f u (setter v u)
    → u.dev.mutex ≡ false
    → (A → fits ≡ true)
    → (¬ A → fits ≡ false)
    → apply_property (some v) setter u ≡ done tt (if fits then record u { dev = f u.dev } else u)
unfolding apply_property
applied A f v setter fits u s free yes_fits no_fits = by_case (Setting-done A f u _ s free)
  where
    by_case :
        ((¬ A) × (a : Ret) × (setter v u ≡ done a u))
          ⊎ (A × (a : Ret) × (setter v u ≡ done a (record u { dev = f u.dev })))
        → apply_property (some v) setter u
          ≡ done tt (if fits then record u { dev = f u.dev } else u)
    by_case (inl (n, a, e)) = rw (e, no_fits n) refl
    by_case (inr (h, a, e)) = rw (e, yes_fits h) refl

module _ (u : System) (free : u.dev.mutex ≡ false) where
  pub apply_samplerate :
      (o : Option ℕ)
      → u.dev.coreclockfreq ≡ 200_000_000
      → apply_property o set_samplerate u
        ≡ done tt (record u {
          dev = record u.dev {
            samplerate =
                chosen
                  (λ r. leb 1 r && leb r 100_000_000)
                  (nearest_rate 200_000_000)
                  u.dev.samplerate
                  o;
          };
        })
  unfolding apply_property
  apply_samplerate none clock = refl
  apply_samplerate (some v) clock =
      applied _ _ v set_samplerate (leb 1 v && leb v 100_000_000) u (set_samplerate-Setting v u)
        free (λ h. ground arith) (λ n. ground arith)
      ∙ elim (Bool-cases (leb 1 v && leb v 100_000_000)) [
        | inl e ↦ rw (e, clock) refl
        | inr e ↦ rw e refl
      ]

  pub apply_sampleunit :
      (o : Option ℕ)
      → apply_property o set_sampleunit u
        ≡ done tt (record u {
          dev = record u.dev { sampleunit = chosen (λ n. leb n 2) (λ n. n) u.dev.sampleunit o };
        })
  unfolding apply_property
  apply_sampleunit none = refl
  apply_sampleunit (some v) =
      applied _ _ v set_sampleunit (leb v 2) u (set_sampleunit-Setting v u) free (λ h. ground arith)
        (λ n. ground arith)
      ∙ elim (Bool-cases (leb v 2)) [ inl e ↦ rw e refl | inr e ↦ rw e refl ]

  pub apply_triggerflags :
      (o : Option ℕ)
      → apply_property o set_triggerflags u
        ≡ done tt (record u {
          dev = record u.dev { triggerflags = chosen (λ n. leb n 1) (λ n. n) u.dev.triggerflags o };
        })
  unfolding apply_property
  apply_triggerflags none = refl
  apply_triggerflags (some v) =
      applied _ _ v set_triggerflags (leb v 1) u (set_triggerflags-Setting v u) free
        (λ h. ground arith) (λ n. ground arith)
      ∙ elim (Bool-cases (leb v 1)) [ inl e ↦ rw e refl | inr e ↦ rw e refl ]
