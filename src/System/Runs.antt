-- ===== src/System/Runs.antt =====
-- Equations of runs, whichever way a run ends.
use beagle_logic.Base.{◌≡◌, refl}
use beagle_logic.System.{System, Run, done, sleeps, spins, oops, M, and_then, pure}

-- Two calls whose continuations differ only in their results have the same effect.
pub and_then-same_effect :
    {A B C : Type 0} (r : Run A) (f : A → M B) (g : A → M C)
    → ((a : A) (s : System) → and_then (f a s) (λ _. pure tt) ≡ and_then (g a s) (λ _. pure tt))
    → and_then (and_then r f) (λ _. pure tt) ≡ and_then (and_then r g) (λ _. pure tt)
and_then-same_effect (done a t) f g h = h a t
and_then-same_effect (sleeps t) f g h = refl
and_then-same_effect spins f g h = refl
and_then-same_effect oops f g h = refl

-- A result that replaces another one does not change the effect.
pub replaced_result :
    {A B : Type 0} (r : Run A) (b : B)
    → and_then (and_then (and_then r (λ _. pure tt)) (λ _. pure b)) (λ _. pure tt)
      ≡ and_then r (λ _. pure tt)
replaced_result (done a t) b = refl
replaced_result (sleeps t) b = refl
replaced_result spins b = refl
replaced_result oops b = refl
