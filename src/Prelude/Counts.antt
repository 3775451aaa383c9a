-- ===== src/Prelude/Counts.antt =====
-- How often a number stands in a list, and lists without one occurrence of it.
use Prim.Native.Nat.{ℕ, suc, ◌-◌, ◌≤◌}
use mathlib.Core.Path.{◌≡◌}
use mathlib.Core.List.{List, [], ◌∷◌}
use native.Mathlib.Omega.{arith}
use unirc_ircd.Prelude.Tests.{◌==◌, if◌then◌else◌}
use unirc_ircd.Prelude.Lists.{length}

abbrev pub count : ℕ → List ℕ → ℕ
count a [] = 0
count a (b ∷ bs) = if b == a then suc (count a bs) else count a bs

abbrev pub remove_first : ℕ → List ℕ → List ℕ
remove_first a [] = []
remove_first a (b ∷ bs) = let rest = remove_first a bs in if b == a then bs else b ∷ rest

pub count-remove_first :
    (a b : ℕ) (bs : List ℕ)
    → count b (remove_first a bs) ≡ (if a == b then count b bs - 1 else count b bs)
count-remove_first a b [] = ground arith
count-remove_first a b (c ∷ bs) = ground (arith, count-remove_first a b bs)

pub length-remove_first-le : (a : ℕ) (bs : List ℕ) → length (remove_first a bs) ≤ length bs
length-remove_first-le a [] = omega arith
length-remove_first-le a (b ∷ bs) = ground (arith, length-remove_first-le a bs)
