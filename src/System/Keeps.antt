-- ===== src/System/Keeps.antt =====
-- What holds before a call and after it, however the call ends: one rule for each way to build one.
use beagle_logic.Base.{Bool, true, false, if◌then◌else◌}
use beagle_logic.System.{
  System, Run, done, sleeps, spins, oops, M, and_then, pure, ◌>>=◌, ignoring, read_dev, read_reader,
  undefined, spinning,
}

-- `Q` holds in the state in which a call returns, `P` in the one in which it sleeps for ever.
abbrev pub After : {A : Type 0} → (System → Type 0) → (System → Type 0) → Run A → Type 0
After P Q (done a t) = Q t
After P Q (sleeps t) = P t
After P Q spins = Unit {0}
After P Q oops = Unit {0}

pub record Keeps {A : Type 0} (P : System → Type 0) (m : M A) : Type 0 where
  pub at : (s : System) → P s → After P P (m s)

pub After-bind :
    {A B : Type 0} (P Q R : System → Type 0) (r : Run A) (f : A → M B)
    → After P Q r
    → ((a : A) (t : System) → Q t → After P R (f a t))
    → After P R (and_then r f)
After-bind P Q R (done a t) f h next = next a t h
After-bind P Q R (sleeps t) f h next = h
After-bind P Q R spins f h next = tt
After-bind P Q R oops f h next = tt

-- The same, where what holds in a sleeping state is weakened too.
pub After-weaken :
    {A : Type 0} (P P' Q Q' : System → Type 0) (r : Run A)
    → After P Q r
    → ((t : System) → P t → P' t)
    → ((t : System) → Q t → Q' t)
    → After P' Q' r
After-weaken P P' Q Q' (done a t) h f g = g t h
After-weaken P P' Q Q' (sleeps t) h f g = f t h
After-weaken P P' Q Q' spins h f g = tt
After-weaken P P' Q Q' oops h f g = tt

pub After-bind_weaken :
    {A B : Type 0} (P P' Q R : System → Type 0) (r : Run A) (f : A → M B)
    → After P Q r
    → ((t : System) → P t → P' t)
    → ((a : A) (t : System) → Q t → After P' R (f a t))
    → After P' R (and_then r f)
After-bind_weaken P P' Q R (done a t) f h g next = next a t h
After-bind_weaken P P' Q R (sleeps t) f h g next = g t h
After-bind_weaken P P' Q R spins f h g next = tt
After-bind_weaken P P' Q R oops f h g next = tt

After-both :
    {A : Type 0} (P Q : System → Type 0) (r : Run A)
    → After P P r
    → After Q Q r
    → After (λ s. P s × Q s) (λ s. P s × Q s) r
After-both P Q (done a t) h g = (h, g)
After-both P Q (sleeps t) h g = (h, g)
After-both P Q spins h g = tt
After-both P Q oops h g = tt

pub Keeps-both :
    {A : Type 0} (P Q : System → Type 0) (m : M A)
    → Keeps P m
    → Keeps Q m
    → Keeps (λ s. P s × Q s) m
Keeps-both P Q m p q = record { at = λ s (h, g). After-both P Q (m s) (p.at s h) (q.at s g) }

module _ {A : Type 0} {P : System → Type 0} where
  pub Keeps-pure : (a : A) → Keeps P (pure a)
  Keeps-pure a = record { at = λ s h. h }

  pub Keeps-undefined : Keeps P (undefined {A = A})
  Keeps-undefined = record { at = λ s h. tt }

  pub Keeps-spinning : Keeps P (spinning {A = A})
  Keeps-spinning = record { at = λ s h. tt }

  pub Keeps-if : (b : Bool) (m n : M A) → Keeps P m → Keeps P n → Keeps P (if b then m else n)
  Keeps-if true m n km kn = km
  Keeps-if false m n km kn = kn

module _ {A B : Type 0} {P : System → Type 0} where
  pub Keeps-bind :
      (m : M A) (f : A → M B) → Keeps P m → ((a : A) → Keeps P (f a)) → Keeps P (m >>= f)
  Keeps-bind m f km kf = record {
    at = λ s h. After-bind P P P (m s) f (km.at s h) (λ a t g. (kf a).at t g);
  }

module _ {P : System → Type 0} where
  pub Keeps-read_dev : Keeps P read_dev
  Keeps-read_dev = record { at = λ s h. h }

  pub Keeps-read_reader : Keeps P read_reader
  Keeps-read_reader = record { at = λ s h. h }

module _ {A : Type 0} {P : System → Type 0} where
  pub Keeps-ignoring : (m : M A) → Keeps P m → Keeps P (ignoring m)
  Keeps-ignoring m h = Keeps-bind m _ h (λ a. Keeps-pure tt)

pub ruleset keeps_rules = (
  Keeps-pure, Keeps-undefined, Keeps-spinning, Keeps-if, Keeps-bind, Keeps-read_dev,
  Keeps-read_reader, Keeps-ignoring,
)
