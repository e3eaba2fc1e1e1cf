-- ===== src/Common/Lists.antt =====
-- Lists of addresses: how often one occurs, and the removal of its first occurrence.
use Prim.Native.Nat.{ℕ, suc, ◌+◌, ◌-◌}
use mathlib.Core.Path.{◌≡◌}
use mathlib.Core.Logic.{◌≢◌}
use mathlib.Core.List.{List, [], ◌∷◌, ◌++◌}
use native.Mathlib.Omega.{arith}
use zakos.Common.Tests.{◌==◌, if◌then◌else◌}

unfoldable pub occ : ℕ → List ℕ → ℕ
occ t [] = 0
occ t (x ∷ xs) = (if t == x then 1 else 0) + occ t xs

unfoldable pub without : ℕ → List ℕ → List ℕ
without t [] = []
without t (x ∷ xs) = if t == x then xs else x ∷ without t xs

pub occ-append : (t : ℕ) (xs ys : List ℕ) → occ t (xs ++ ys) ≡ occ t xs + occ t ys
unfolding occ
occ-append t [] ys = omega arith
occ-append t (x ∷ xs) ys = ground (arith, occ-append t xs ys)

-- An entry goes to the end.
pub occ-snoc :
    (t x : ℕ) (xs : List ℕ) → occ t (xs ++ (x ∷ [])) ≡ occ t xs + (if t == x then 1 else 0)
unfolding occ
occ-snoc t x xs = ground (arith, occ-append t xs (x ∷ []))

pub occ-without :
    (t x : ℕ) (xs : List ℕ) → occ t (without x xs) ≡ occ t xs - (if t == x then 1 else 0)
unfolding occ without
occ-without t x [] = ground arith
occ-without t x (y ∷ ys) = ground (arith, occ-without t x ys)

pub without-head : (x : ℕ) (xs : List ℕ) → without x (x ∷ xs) ≡ xs
unfolding without
without-head x xs = ground arith

pub occ-head : (x : ℕ) (xs : List ℕ) → occ x (x ∷ xs) ≡ suc (occ x xs)
unfolding occ
occ-head x xs = ground arith

-- The last of a list that starts with `p`.
abbrev pub last_of : ℕ → List ℕ → ℕ
last_of p [] = p
last_of p (x ∷ xs) = last_of x xs

pub occ-last_of : (p : ℕ) (xs : List ℕ) → occ (last_of p xs) (p ∷ xs) ≢ 0
unfolding occ
occ-last_of p [] = ground arith
occ-last_of p (x ∷ xs) = ground (arith, occ-last_of x xs)
