-- ===== src/System/Settles.antt =====
-- A call that returns or sleeps: it neither stays in a loop nor does what C leaves undefined.
use beagle_logic.System.{System, Run, done, sleeps, M, and_then}
use beagle_logic.System.Returns.{Returns, returns}

pub data Settles {A : Type 0} (P : A → System → Type 0) (Q : System → Type 0) : Run A → Type 0 where
  ended : {a : A} {t : System} → P a t → Settles P Q (done a t)
  asleep : {t : System} → Q t → Settles P Q (sleeps t)

module _ {A B : Type 0} {P : A → System → Type 0} {R : B → System → Type 0} {Q : System → Type 0}
    {f : A → M B} where
  pub Settles-bind :
      {r : Run A}
      → Settles P Q r
      → ((a : A) (t : System) → P a t → Settles R Q (f a t))
      → Settles R Q (and_then r f)
  Settles-bind (ended p) next = next _ _ p
  Settles-bind (asleep q) next = asleep q

  pub Settles-after :
      {r : Run A}
      → Returns P r
      → ((a : A) (t : System) → P a t → Settles R Q (f a t))
      → Settles R Q (and_then r f)
  Settles-after (returns p) next = next _ _ p

pub Returns-Settles :
    {A : Type 0} {P : A → System → Type 0} {Q : System → Type 0} {r : Run A}
    → Returns P r
    → Settles P Q r
Returns-Settles (returns p) = ended p

pub Settles-weaken :
    {A : Type 0} {P P' : A → System → Type 0} {Q Q' : System → Type 0} {r : Run A}
    → Settles P Q r
    → ((a : A) (t : System) → P a t → P' a t)
    → ((t : System) → Q t → Q' t)
    → Settles P' Q' r
Settles-weaken (ended p) f g = ended (f _ _ p)
Settles-weaken (asleep q) f g = asleep (g _ q)
