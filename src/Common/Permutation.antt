-- ===== src/Common/Permutation.antt =====
-- How often numbers stand in permutations of a list.
use Prim.Native.Nat.{ℕ, ◌+◌}
use native.Mathlib.Nat.{ℕ_set}
use mathlib.Core.Path.{◌≡◌, refl, sym, ap, ◌∙◌}
use mathlib.Core.List.{List, [], ◌∷◌, foldr, Perm}
use mathlib.Core.List.Perm
use native.Mathlib.Omega.{arith}
use csed.Common.Tests.{◌==◌, if◌then◌else◌}
use csed.Common.Lists.{count}

-- `count` is a fold over a commutative operation.
abbrev tally : ℕ → ℕ → ℕ → ℕ
tally a x sum = (if x == a then 1 else 0) + sum

tally_comm : (a x y sum : ℕ) → tally a x (tally a y sum) ≡ tally a y (tally a x sum)
tally_comm a x y sum = omega arith

count-foldr : (a : ℕ) (xs : List ℕ) → count a xs ≡ foldr (tally a) 0 xs
count-foldr a [] = refl
count-foldr a (x ∷ xs) = ap (tally a x) (count-foldr a xs)

pub count-Perm : (a : ℕ) {xs ys : List ℕ} → Perm xs ys → count a xs ≡ count a ys
count-Perm a {xs} {ys} p =
    count-foldr a xs ∙ Perm.foldr-eq ℕ_set (tally a) (tally_comm a) p 0 ∙ sym (count-foldr a ys)
