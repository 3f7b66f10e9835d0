-- ===== src/Order.antt =====
-- The part of src/lib/kernel/list.c that depends on the order of elements: is_sorted,
-- find_end_of_run, inplace_merge, list_sort, list_insert_ordered, list_unique, list_max and list_min.
-- A list is the sequence of its elements; the links between them are not modelled here.
pub mod Merge
pub mod Sort
pub mod Insert
mod Tests
use csed.Common.{
  ℕ, zero, suc, ◌+◌, Bool, true, false, not, ◌&&◌, List, [], ◌∷◌, ◌++◌, Option, none, some, leb,
  if◌then◌else◌, ◌>>=◌, ◌>>◌, check, length,
}

-- `less` is a `list_less_func` together with its `aux`.
module _ {ℓ} {A : Type ℓ} (less : A → A → Bool) where
  -- Whether the elements after `x` are in order with it.
  unfoldable pub sorted_from : A → List A → Bool
  sorted_from x [] = true
  sorted_from x (y ∷ ys) = not (less y x) && sorted_from y ys

  unfoldable pub is_sorted : List A → Bool
  unfolding sorted_from
  is_sorted [] = true
  is_sorted (x ∷ xs) = sorted_from x xs

  -- The run that starts at `x`, and what follows it.
  unfoldable pub find_end_of_run : A → List A → List A × List A
  find_end_of_run x [] = (x ∷ [], [])
  find_end_of_run x (y ∷ ys) =
      let (run, rest) = find_end_of_run y ys in
      if less y x then (x ∷ [], y ∷ ys) else (x ∷ run, rest)

  -- The loop of inplace_merge. Of equal elements the one of the first run comes first.
  unfoldable pub merge_loop : List A → List A → List A
  merge_loop [] ys = ys
  merge_loop (x ∷ xs) [] = x ∷ xs
  merge_loop (x ∷ xs) (y ∷ ys) = elim (less y x) [
    | false ↦ x ∷ merge_loop xs (y ∷ ys)
    | true ↦ y ∷ merge_loop (x ∷ xs) ys
  ]

  unfoldable pub inplace_merge : List A → List A → Option (List A)
  inplace_merge xs ys = do check (is_sorted xs); check (is_sorted ys); some (merge_loop xs ys)

  -- A pass of list_sort: the list with adjacent runs merged, and `output_run_cnt`. The fuel bounds
  -- the rounds; each takes an element at least.
  unfoldable pub sort_pass : ℕ → List A → Option (List A × ℕ)
  sort_pass zero l = some (l, 0)
  sort_pass (suc fuel) [] = some ([], 0)
  sort_pass (suc fuel) (x ∷ xs) =
      let (run, rest) = find_end_of_run x xs in
      elim rest [
        | [] ↦ some (run, 1)
        | y ∷ ys ↦
            let (run', rest') = find_end_of_run y ys in
            inplace_merge run run' >>= λ merged.
            sort_pass fuel rest' >>= λ r. some (merged ++ r.0, suc r.1)
      ]

  -- The passes of list_sort, and the assertion behind them; `none` if an assertion fails or the fuel
  -- runs out.
  unfoldable pub sort_loop : ℕ → List A → Option (List A)
  sort_loop zero l = none
  sort_loop (suc fuel) l = sort_pass (length l) l >>= λ r. elim (leb r.1 1) [
    | true ↦ (do check (is_sorted r.0); some r.0)
    | false ↦ sort_loop fuel r.0
  ]

  unfoldable pub list_sort : List A → Option (List A)
  unfolding sort_loop
  list_sort l = sort_loop (suc (length l)) l

  unfoldable pub list_insert_ordered : List A → A → List A
  list_insert_ordered [] elem = elem ∷ []
  list_insert_ordered (e ∷ rest) elem =
      if less elem e then elem ∷ e ∷ rest else e ∷ list_insert_ordered rest elem

  -- The elements kept, and those removed in the order in which they join `duplicates`.
  unfoldable pub unique_from : A → List A → List A × List A
  unique_from elem [] = (elem ∷ [], [])
  unique_from elem (next ∷ rest) = elim (not (less elem next) && not (less next elem)) [
    | true ↦ let (kept, removed) = unique_from elem rest in (kept, next ∷ removed)
    | false ↦ let (kept, removed) = unique_from next rest in (elem ∷ kept, removed)
  ]

  unfoldable pub list_unique : List A → List A × List A
  unfolding unique_from
  list_unique [] = ([], [])
  list_unique (elem ∷ rest) = unique_from elem rest

  unfoldable pub max_from : A → List A → A
  max_from max [] = max
  max_from max (e ∷ rest) = max_from (if less max e then e else max) rest

  -- The tail of an empty list is `none`.
  unfoldable pub list_max : List A → Option A
  unfolding max_from
  list_max [] = none
  list_max (x ∷ xs) = some (max_from x xs)

  unfoldable pub min_from : A → List A → A
  min_from min [] = min
  min_from min (e ∷ rest) = min_from (if less e min then e else min) rest

  unfoldable pub list_min : List A → Option A
  unfolding min_from
  list_min [] = none
  list_min (x ∷ xs) = some (min_from x xs)
