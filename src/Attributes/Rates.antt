-- ===== src/Attributes/Rates.antt =====
-- The sample rates that `beaglelogic_set_samplerate` accepts, and the setters on every branch.
use native.Mathlib.Nat.{le-div_iff_mul-le, div-le_self, mul_comm}
use beagle_logic.Base.{
  ℕ, ◌*◌, ◌/◌, ◌≤◌, ◌<◌, ◌≡◌, refl, ap, inl, inr, true, false, Bool-cases, ◌||◌, ltb, ltb-true,
  ltb-false, arith,
}
use native.Mathlib.Decide.{dec_lt}
use beagle_logic.Device.{BeagleLogicDev, Ret, ret, err, einval, ebusy}
use beagle_logic.System.{System, Run, done, mutex_unlock}
use beagle_logic.System.Mutex.{trylock_free, trylock_taken}
use beagle_logic.Attributes.{
  nearest_rate, assign_locked, set_samplerate, set_sampleunit, set_triggerflags,
}

mul_mono_right : (x s r : ℕ) → s ≤ r → x * s ≤ x * r
mul_mono_right x s r h = grind arith

-- A rate `r` made from a request `s` by dividing twice, with the divisor `q`.
module _ (h s q r : ℕ) (pos_s : 0 < s) (s_le : s ≤ h) (q_eq : q ≡ h / s) (r_eq : r ≡ h / q) where
  divisor_pos : 0 < q
  divisor_pos = omega (arith, (le-div_iff_mul-le {k = s} {x = 1} {y = h} pos_s).1 (omega arith))

  rate_ge : s ≤ r
  rate_ge =
      let a : q * s ≤ h = (le-div_iff_mul-le {k = s} {x = q} {y = h} pos_s).0 (omega arith) in
      let b : s ≤ h / q =
        (le-div_iff_mul-le {k = q} {x = s} {y = h} divisor_pos).1 (omega (arith, mul_comm s q)) in
      omega arith

  rate_le : r ≤ h
  rate_le = omega (arith, div-le_self h q)

  same_divisor : h / r ≡ q
  same_divisor =
      let rp : 0 < r = omega (arith, rate_ge) in
      let a : r * q ≤ h = (le-div_iff_mul-le {k = q} {x = r} {y = h} divisor_pos).0 (omega arith) in
      let b : q ≤ h / r =
        (le-div_iff_mul-le {k = r} {x = q} {y = h} rp).1 (omega (arith, mul_comm q r)) in
      let c : h / r * r ≤ h = (le-div_iff_mul-le {k = r} {x = h / r} {y = h} rp).0 (omega arith) in
      let d : h / r * s ≤ h = omega (arith, mul_mono_right (h / r) s r rate_ge) in
      let e : h / r ≤ h / s = (le-div_iff_mul-le {k = s} {x = h / r} {y = h} pos_s).1 d in
      omega arith

-- For a request that is not 0 and at most half the clock, the rate that is stored lies between the
-- request and half the clock, and it has the divisor of the request: the PRU is given the same one.
pub nearest_rate_bounds :
    (clock rate : ℕ)
    → 0 < rate
    → rate ≤ clock / 2
    → (rate ≤ nearest_rate clock rate)
      × (nearest_rate clock rate ≤ clock / 2)
      × (clock / 2 / nearest_rate clock rate ≡ clock / 2 / rate)
nearest_rate_bounds clock rate h le =
    let q : ℕ = clock / 2 / rate in
    let r : ℕ = nearest_rate clock rate in
    (
      rate_ge _ rate q r h le refl refl,
      rate_le _ rate q r h le refl refl,
      same_divisor _ rate q r h le refl refl,
    )

-- How a setter ends that accepts a value if `Allowed`, and then makes the change `f`.
pub data Setting (Allowed : Type 0) (f : BeagleLogicDev → BeagleLogicDev) (s : System) (r : Run Ret)
    : Type 0 where
  rejected : ¬ Allowed → r ≡ done (err einval) s → Setting Allowed f s r
  busy : Allowed → s.dev.mutex ≡ true → r ≡ done (err ebusy) s → Setting Allowed f s r
  stored :
      Allowed
      → s.dev.mutex ≡ false
      → r ≡ done (ret 0) (record s { dev = f s.dev })
      → Setting Allowed f s r

pub accepted :
    {A : Type 0} {f : BeagleLogicDev → BeagleLogicDev} {s : System} {r : Run Ret}
    → Setting A f s r
    → A
    → s.dev.mutex ≡ false
    → r ≡ done (ret 0) (record s { dev = f s.dev })
accepted (rejected bad e) a free = absurd (bad a)
accepted (busy _ taken e) a free = cc
accepted (stored _ _ e) a free = e

assign_locked-Setting :
    (A : Type 0) (f : BeagleLogicDev → BeagleLogicDev) (s : System)
    → A
    → (s.dev.mutex ≡ false
        → record s { dev = record (f (record s.dev { mutex = true })) { mutex = false } }
          ≡ record s { dev = f s.dev })
    → Setting A f s (assign_locked f s)
unfolding mutex_unlock
assign_locked-Setting A f s a restores = elim (Bool-cases s.dev.mutex) [
  | inl e ↦ busy a e (rw (trylock_taken s e))
  | inr e ↦ stored a e (rw (trylock_free s e) (ap (done (ret 0)) (restores e)))
]

pub set_samplerate-Setting :
    (rate : ℕ) (s : System)
    → Setting
        ((1 ≤ rate) × (rate ≤ s.dev.coreclockfreq / 2))
        (λ d. record d { samplerate = nearest_rate d.coreclockfreq rate })
        s
        (set_samplerate rate s)
unfolding set_samplerate
set_samplerate-Setting rate s =
    elim (Bool-cases (ltb (s.dev.coreclockfreq / 2) rate || ltb rate 1)) [
      | inl out ↦ rejected (λ a. too_small out a) (rw out)
      | inr fits ↦
          rw fits (assign_locked-Setting _ _ s (ground arith, ground arith) (λ e. ground arith))
    ]
  where
    too_small :
        (ltb (s.dev.coreclockfreq / 2) rate || ltb rate 1) ≡ true
        → ¬ ((1 ≤ rate) × (rate ≤ s.dev.coreclockfreq / 2))
    too_small out a = ground arith

pub set_sampleunit-Setting :
    (unit : ℕ) (s : System)
    → Setting (unit ≤ 2) (λ d. record d { sampleunit = unit }) s (set_sampleunit unit s)
unfolding set_sampleunit
set_sampleunit-Setting unit s = elim (dec_lt 2 unit) [
  | yes h ↦ rejected (λ a. omega arith) (rw (ltb-true 2 unit h))
  | no h ↦
      rw (ltb-false 2 unit (omega arith))
        (assign_locked-Setting _ _ s (omega arith) (λ e. ground arith))
]

pub set_triggerflags-Setting :
    (flags : ℕ) (s : System)
    → Setting (flags ≤ 1) (λ d. record d { triggerflags = flags }) s (set_triggerflags flags s)
unfolding set_triggerflags
set_triggerflags-Setting flags s = elim (dec_lt 1 flags) [
  | yes h ↦ rejected (λ a. omega arith) (rw (ltb-true 1 flags h))
  | no h ↦
      rw (ltb-false 1 flags (omega arith))
        (assign_locked-Setting _ _ s (omega arith) (λ e. ground arith))
]

-- The three setters return on every branch: they refuse a rate that is 0 or above half the clock, a
-- unit above 2 and flags above 1, return -EBUSY while the mutex is taken, and otherwise store the
-- nearest rate, the unit or the flags and nothing else.
pub setters-Setting :
    (n : ℕ) (s : System)
    → Setting
        ((1 ≤ n) × (n ≤ s.dev.coreclockfreq / 2))
        (λ d. record d { samplerate = nearest_rate d.coreclockfreq n })
        s
        (set_samplerate n s)
      × Setting (n ≤ 2) (λ d. record d { sampleunit = n }) s (set_sampleunit n s)
      × Setting (n ≤ 1) (λ d. record d { triggerflags = n }) s (set_triggerflags n s)
setters-Setting n s =
    (set_samplerate-Setting n s, set_sampleunit-Setting n s, set_triggerflags-Setting n s)
