-- ===== src/Links/Tests.antt =====
-- The list at 100 with the elements 1 and 2, in the memory of src/lib/kernel/list.c.
use csed.Common.{◌≡◌, refl, [], ◌∷◌, ◌==◌, if◌then◌else◌, some, arith, Returns}
use csed.Links.{Heap, list_insert, list_push_back, list_pop_front, list_remove, list_size}
use csed.Links.Chain.{IsList}
use csed.Links.Change.{list_insert_lem}
use csed.Links.Remove.{list_remove_lem}
use csed.Links.Queue.{list_push_back_lem, list_pop_front_lem, list_size_lem}

abbrev one_two : Heap
one_two = record {
  prev = λ p. if p == 1 then 100 else if p == 2 then 1 else if p == 108 then 2 else 0;
  next = λ p. if p == 100 then 1 else if p == 1 then 2 else if p == 2 then 108 else 0;
}

one_two-IsList : IsList one_two 100 (1 ∷ 2 ∷ [])
one_two-IsList = record {
  chain = (refl, refl, (refl, refl, (refl, refl)));
  head_prev = refl;
  tail_next = refl;
  distinct = λ p. ground arith;
  not_null = refl;
}

list_insert_example : Returns (list_insert 2 7 one_two) λ m'. IsList m' 100 (1 ∷ 7 ∷ 2 ∷ [])
list_insert_example =
    list_insert_lem one_two 100 (1 ∷ []) (2 ∷ []) 7 one_two-IsList refl (λ e. absurd (omega arith))

list_remove_example : Returns (list_remove 1 one_two) λ r. (r.0 ≡ 2) × IsList r.1 100 (2 ∷ [])
list_remove_example = list_remove_lem one_two 100 [] (2 ∷ []) 1 one_two-IsList

list_push_back_example : Returns (list_push_back 100 7 one_two) λ m'. IsList m' 100 (1 ∷ 2 ∷ 7 ∷ [])
list_push_back_example =
    list_push_back_lem one_two 100 (1 ∷ 2 ∷ []) 7 one_two-IsList refl (λ e. absurd (omega arith))

list_pop_front_example :
    Returns (list_pop_front 100 one_two) λ r. (r.0 ≡ 1) × IsList r.1 100 (2 ∷ [])
list_pop_front_example = list_pop_front_lem one_two 100 1 (2 ∷ []) one_two-IsList

list_size_example : list_size 3 100 one_two ≡ some 2
list_size_example = list_size_lem 3 one_two 100 (1 ∷ 2 ∷ []) one_two-IsList (omega arith)
