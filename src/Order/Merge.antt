-- ===== src/Order/Merge.antt =====
-- find_end_of_run and inplace_merge of src/lib/kernel/list.c: order, elements, numbers of runs.
use mathlib.Core.List.{Perm, perm_middle}
use mathlib.Core.List.Perm
use csed.Common.{
  ℕ, suc, ◌+◌, ◌≤◌, ◌≡◌, refl, Bool, true, false, List, [], ◌∷◌, ◌++◌, arith, if◌then◌else◌,
  append-nil, Bool-cases, inl, inr,
}
use csed.Order.{sorted_from, find_end_of_run, merge_loop}

module _ {ℓ} {A : Type ℓ} (less : A → A → Bool) where
  -- How often an element is less than the one before it.
  abbrev pub breaks : A → List A → ℕ
  breaks x [] = 0
  breaks x (y ∷ ys) = (if less y x then 1 else 0) + breaks y ys

  -- The number of maximal runs in order.
  abbrev pub runs : List A → ℕ
  runs [] = 0
  runs (x ∷ xs) = suc (breaks x xs)

  pub sorted_from-breaks : (x : A) (xs : List A) → sorted_from less x xs ≡ true → breaks x xs ≡ 0
  unfolding sorted_from
  sorted_from-breaks x [] h = refl
  sorted_from-breaks x (y ∷ ys) h = ground (arith, sorted_from-breaks y ys)

  pub breaks-sorted_from : (x : A) (xs : List A) → breaks x xs ≡ 0 → sorted_from less x xs ≡ true
  unfolding sorted_from
  breaks-sorted_from x [] h = refl
  breaks-sorted_from x (y ∷ ys) h = ground (arith, breaks-sorted_from y ys)

  pub breaks-append-le : (x : A) (xs ys : List A) → breaks x (xs ++ ys) ≤ breaks x xs + runs ys
  breaks-append-le x [] [] = omega arith
  breaks-append-le x [] (y ∷ ys) = ground arith
  breaks-append-le x (z ∷ zs) ys = ground (arith, breaks-append-le z zs ys)

  -- The run is in order, the list is the run and the rest, and the rest has one run fewer.
  pub record IsRun (x : A) (xs run rest : List A) : Type ℓ where
    pub starts : List A
    pub run_eq : run ≡ x ∷ starts
    pub whole : run ++ rest ≡ x ∷ xs
    pub in_order : breaks x starts ≡ 0
    pub fewer : breaks x xs ≡ runs rest

  pub find_end_of_run-IsRun :
      (x : A) (xs : List A) → let (run, rest) = find_end_of_run less x xs in IsRun x xs run rest
  unfolding find_end_of_run
  find_end_of_run-IsRun x [] = record {
    starts = [];
    run_eq = refl;
    whole = refl;
    in_order = refl;
    fewer = refl;
  }
  find_end_of_run-IsRun x (y ∷ ys) =
      let ih = find_end_of_run-IsRun y ys in
      elim (Bool-cases (less y x)) [
        | inl e ↦ rw e (record {
          starts = [];
          run_eq = refl;
          whole = refl;
          in_order = refl;
          fewer = ground arith;
        })
        | inr e ↦ rw e (record {
          starts = y ∷ ih.starts;
          run_eq = ground (arith, ih.run_eq);
          whole = ground (arith, ih.whole);
          in_order = ground (arith, ih.in_order);
          fewer = ground (arith, ih.fewer);
        })
      ]

  merge_second :
      (x y : A) (xs ys : List A)
      → less y x ≡ true
      → merge_loop less (x ∷ xs) (y ∷ ys) ≡ y ∷ merge_loop less (x ∷ xs) ys
  unfolding merge_loop
  merge_second x y xs ys e = rw (e, merge_loop) refl

  merge_first :
      (x y : A) (xs ys : List A)
      → less y x ≡ false
      → merge_loop less (x ∷ xs) (y ∷ ys) ≡ x ∷ merge_loop less xs (y ∷ ys)
  unfolding merge_loop
  merge_first x y xs ys e = rw (e, merge_loop) refl

  merge_nil : (xs : List A) → merge_loop less xs [] ≡ xs
  unfolding merge_loop
  merge_nil [] = refl
  merge_nil (x ∷ xs) = refl

  -- Lexicographic induction over the two lists that merge_loop walks.
  pub merge_loop-perm : (xs ys : List A) → Perm (merge_loop less xs ys) (xs ++ ys)
  merge_loop-perm [] ys = unfold merge_loop in Perm.refl ys
  merge_loop-perm (x ∷ xs) [] = rw (merge_nil, append-nil) (Perm.refl (x ∷ xs))
  merge_loop-perm (x ∷ xs) (y ∷ ys) = elim (Bool-cases (less y x)) [
    | inl e ↦ rw (merge_second x y xs ys e) (
        Perm.trans (Perm.cons y (merge_loop-perm (x ∷ xs) ys))
          (Perm.symm (perm_middle (x ∷ xs) ys)))
    | inr e ↦ rw (merge_first x y xs ys e) (Perm.cons x (merge_loop-perm xs (y ∷ ys)))
  ]

  module _ (asym : (a b : A) → less a b ≡ true → less b a ≡ false) where
    merge-in_order :
        (z : A) (xs ys : List A)
        → breaks z xs ≡ 0
        → breaks z ys ≡ 0
        → breaks z (merge_loop less xs ys) ≡ 0
    merge-in_order z [] ys p q = unfold merge_loop in q
    merge-in_order z (x ∷ xs) [] p q = rw (merge_nil (x ∷ xs)) p
    merge-in_order z (x ∷ xs) (y ∷ ys) p q = elim (Bool-cases (less y x)) [
      | inl e ↦
          rw (merge_second x y xs ys e) (ground (arith, asym y x, merge-in_order y (x ∷ xs) ys))
      | inr e ↦ rw (merge_first x y xs ys e) (ground (arith, merge-in_order x xs (y ∷ ys)))
    ]

    -- Two runs merge into one.
    pub runs-merge_loop :
        (x y : A) (xs ys : List A)
        → breaks x xs ≡ 0
        → breaks y ys ≡ 0
        → runs (merge_loop less (x ∷ xs) (y ∷ ys)) ≡ 1
    runs-merge_loop x y xs ys p q = elim (Bool-cases (less y x)) [
      | inl e ↦
          rw (merge_second x y xs ys e) (ground (arith, asym y x, merge-in_order y (x ∷ xs) ys))
      | inr e ↦ rw (merge_first x y xs ys e) (ground (arith, merge-in_order x xs (y ∷ ys)))
    ]

  pub runs-append-le : (xs ys : List A) → runs (xs ++ ys) ≤ runs xs + runs ys
  runs-append-le [] ys = omega arith
  runs-append-le (x ∷ xs) ys = ground (arith, breaks-append-le x xs ys)
