-- ===== src/Base/Counting.antt =====
-- How often a number stands in a list.
use Prim.Native.Nat.{ℕ, suc, ◌+◌}
use mathlib.Core.Path.{◌≡◌}
use mathlib.Core.List.{List, [], ◌∷◌, ◌++◌}
use native.Mathlib.Omega.{arith}
use os_simulator.Base.Tests.{if◌then◌else◌, ◌==◌}

abbrev pub count : ℕ → List ℕ → ℕ
count p [] = 0
count p (q ∷ qs) = let rest = count p qs in if q == p then suc rest else rest

pub count-append : (p : ℕ) (xs ys : List ℕ) → count p (xs ++ ys) ≡ count p xs + count p ys
count-append p [] ys = omega arith
count-append p (x ∷ xs) ys = ground (arith, count-append p xs ys)
