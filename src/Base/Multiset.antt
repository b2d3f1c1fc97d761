-- ===== src/Base/Multiset.antt =====
-- How often a number stands in a list, and the removal of one occurrence.
use Prim.Native.Nat.{ℕ, ◌+◌, ◌-◌}
use mathlib.Core.Path.{◌≡◌}
use mathlib.Core.List.{List, [], ◌∷◌}
use native.Mathlib.Omega.{arith}
use beagle_logic.Base.Tests.{◌==◌, if◌then◌else◌}

abbrev pub count : ℕ → List ℕ → ℕ
count a [] = 0
count a (x ∷ xs) = (if a == x then 1 else 0) + count a xs

pub erase : ℕ → List ℕ → List ℕ
erase p [] = []
erase p (x ∷ xs) = if p == x then xs else x ∷ erase p xs

pub count-erase : (a p : ℕ) (xs : List ℕ) → count a (erase p xs) ≡ count a xs - count a (p ∷ [])
unfolding erase
count-erase a p [] = ground arith
count-erase a p (x ∷ xs) = ground (arith, count-erase a p xs)
