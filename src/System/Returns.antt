-- ===== src/System/Returns.antt =====
-- Total correctness of a call: it returns, and the result and the state satisfy a postcondition.
use mathlib.Core.Path.{subst}
use beagle_logic.Base.{◌≡◌, refl}
use beagle_logic.System.{System, Run, done, M, and_then, pure}

pub data Returns {A : Type 0} (P : A → System → Type 0) : Run A → Type 0 where
  returns : {a : A} {s : System} → P a s → Returns P (done a s)

module _ {A : Type 0} {P : A → System → Type 0} where
  pub bind :
      {B : Type 0} {Q : B → System → Type 0} {r : Run A} {f : A → M B}
      → Returns P r
      → ((a : A) (s : System) → P a s → Returns Q (f a s))
      → Returns Q (and_then r f)
  bind (returns p) next = next _ _ p

  pub weaken :
      {Q : A → System → Type 0} {r : Run A}
      → Returns P r
      → ((a : A) (s : System) → P a s → Q a s)
      → Returns Q r
  weaken (returns p) h = returns (h _ _ p)

  pub value : {r : Run A} → Returns P r → (a : A) × (s : System) × (r ≡ done a s) × P a s
  value (returns {a} {s} p) = (a, s, refl, p)

  -- What follows a call that returns decides how the whole ends.
  pub bind_eq :
      {B : Type 0} {r : Run A} {f : A → M B} {q : Run B}
      → Returns P r
      → ((a : A) (s : System) → P a s → f a s ≡ q)
      → and_then r f ≡ q
  bind_eq (returns p) next = next _ _ p

  -- A result that is not looked at is still one.
  pub ignored :
      {r : Run A} → Returns P r → Returns (λ _ t. (a : A) × P a t) (and_then r (λ _. pure tt))
  ignored (returns {a} p) = returns (a, p)

-- What a run that has returned satisfies.
pub at_done :
    {A : Type 0} {P : A → System → Type 0} {r : Run A} {a : A} {t : System}
    → Returns P r
    → r ≡ done a t
    → P a t
at_done {P} h e = of_done (subst (Returns P) e h)
  where
    of_done :
        {A : Type 0} {P : A → System → Type 0} {a : A} {t : System} → Returns P (done a t) → P a t
    of_done (returns p) = p
