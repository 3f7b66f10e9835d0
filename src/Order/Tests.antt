-- ===== src/Order/Tests.antt =====
-- Runs of the ordering functions of src/lib/kernel/list.c on lists of numbers.

use mathlib.Core.List.{Perm, Mem}
use csed.Common.{ℕ, ◌≡◌, refl, true, false, List, [], ◌∷◌, ◌++◌, some, arith, ltb}
use csed.Order.{
  is_sorted, find_end_of_run, merge_loop, inplace_merge, sort_pass, sort_loop, list_sort,
  list_insert_ordered, list_unique, list_max, list_min,
}
use csed.Order.Sort.{list_sort_lem}
use csed.Order.Insert.{
  none_above, adjacent_distinct, list_insert_ordered_lem, list_unique_lem, list_max_lem,
  list_min_lem,
}

ltb-asym : (a b : ℕ) → ltb a b ≡ true → ltb b a ≡ false
ltb-asym a b h = ground arith

ltb_trans : (a b c : ℕ) → ltb a b ≡ false → ltb b c ≡ false → ltb a c ≡ false
ltb_trans a b c p q = ground arith

abbrev numbers : List ℕ
numbers = 5 ∷ 3 ∷ 4 ∷ 1 ∷ 1 ∷ []

abbrev in_order : List ℕ
in_order = 1 ∷ 1 ∷ 3 ∷ 4 ∷ 5 ∷ []

sorts : list_sort ltb numbers ≡ some in_order
unfolding list_sort sort_loop sort_pass find_end_of_run inplace_merge is_sorted merge_loop
sorts = refl

in_order-sorted : is_sorted ltb in_order ≡ true
unfolding is_sorted
in_order-sorted = refl

list_sort_example :
    (out : List ℕ) × (list_sort ltb numbers ≡ some out)
    × (is_sorted ltb out ≡ true)
    × Perm out numbers
list_sort_example = list_sort_lem ltb ltb-asym numbers

list_insert_ordered_example :
    (is_sorted ltb (list_insert_ordered ltb in_order 3) ≡ true)
    × Perm (list_insert_ordered ltb in_order 3) (3 ∷ in_order)
list_insert_ordered_example = list_insert_ordered_lem ltb ltb-asym in_order 3 in_order-sorted

list_unique_example :
    (adjacent_distinct ltb (list_unique ltb in_order).0 ≡ true)
    × Perm ((list_unique ltb in_order).0 ++ (list_unique ltb in_order).1) in_order
list_unique_example = list_unique_lem ltb in_order

list_max_example :
    (m : ℕ) × (list_max ltb numbers ≡ some m) × (none_above ltb m numbers ≡ true) × Mem m numbers
list_max_example = list_max_lem ltb ltb-asym ltb_trans 5 (3 ∷ 4 ∷ 1 ∷ 1 ∷ [])

list_min_example :
    (m : ℕ) × (list_min ltb numbers ≡ some m)
    × (none_above (λ a b. ltb b a) m numbers ≡ true)
    × Mem m numbers
list_min_example = list_min_lem ltb ltb-asym ltb_trans 5 (3 ∷ 4 ∷ 1 ∷ 1 ∷ [])
