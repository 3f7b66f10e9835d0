-- ===== src/Order/Sort.antt =====
-- list_sort of src/lib/kernel/list.c: its passes and its result.
use mathlib.Core.List.{Perm}
use mathlib.Core.List.Perm
use csed.Common.{
  ℕ, zero, suc, ◌+◌, ◌*◌, ◌≤◌, ◌<◌, ◌≡◌, refl, ap, Bool, true, false, List, [], ◌∷◌, ◌++◌, some,
  arith, leb, leb→le, length, length-append, append_assoc, append-nil, subst, ◌∙◌, Bool-cases, inl,
  inr, check, ◌>>=◌, ◌>>◌,
}
use csed.Order.{
  is_sorted, find_end_of_run, merge_loop, inplace_merge, sort_pass, sort_loop, list_sort,
}
use csed.Order.Merge.{
  runs, breaks-sorted_from, IsRun, find_end_of_run-IsRun, merge_loop-perm, runs-merge_loop,
  runs-append-le,
}

module _ {ℓ} {A : Type ℓ} (less : A → A → Bool) where
  runs-le-length : (l : List A) → runs less l ≤ length l
  runs-le-length [] = omega arith
  runs-le-length (x ∷ []) = omega arith
  runs-le-length (x ∷ y ∷ l) = ground (arith, runs-le-length (y ∷ l))

  is_sorted-runs : (l : List A) → runs less l ≤ 1 → is_sorted less l ≡ true
  unfolding is_sorted
  is_sorted-runs [] h = refl
  is_sorted-runs (x ∷ xs) h = breaks-sorted_from less x xs (omega arith)

  -- A pass keeps the elements and leaves at most as many runs as it counts, about half of those
  -- that there were.
  record Passed (l out : List A) (cnt : ℕ) : Type ℓ where
    same : Perm out l
    few : runs less out ≤ cnt
    half : 2 * cnt ≤ runs less l + 1

  rest-lt : {x : A} {xs run rest : List A} → IsRun less x xs run rest → length rest ≤ length xs
  rest-lt {x} {xs} {run} {rest} r =
      omega (arith, ap length r.whole, ap length r.run_eq, length-append run rest)

  module _ (asym : (a b : A) → less a b ≡ true → less b a ≡ false) where
    nothing : Passed [] [] 0
    nothing = record { same = Perm.refl []; few = omega arith; half = omega arith }

    -- The round of a pass that finds the last run.
    last : {x : A} {xs run : List A} → IsRun less x xs run [] → Passed (x ∷ xs) run 1
    last {x} {xs} {run} r = record {
      same = rw (← r.whole, append-nil) (Perm.refl run);
      few = rw r.run_eq (omega (arith, r.in_order));
      half = omega arith;
    }

    -- The round of a pass that merges two runs, from the pass over what follows them.
    merged-Passed :
        {x y : A} {xs ys run rest' run' out : List A} {cnt : ℕ}
        → IsRun less x xs run (y ∷ ys)
        → IsRun less y ys run' rest'
        → Passed rest' out cnt
        → Passed (x ∷ xs) (merge_loop less run run' ++ out) (suc cnt)
    merged-Passed {x} {y} {xs} {ys} {run} {rest'} {run'} {out} {cnt} r r' p = record {
      same =
          subst (Perm (merge_loop less run run' ++ out)) whole
            (Perm.append (merge_loop-perm less run run') p.same);
      few =
          rw (r.run_eq, r'.run_eq)
            (omega (
              arith,
              p.few,
              runs-append-le less (merge_loop less (x ∷ r.starts) (y ∷ r'.starts)) out,
              runs-merge_loop less asym x y r.starts r'.starts r.in_order r'.in_order,
            ));
      half = omega (arith, r.fewer, r'.fewer, p.half);
    }
      where
        whole : (run ++ run') ++ rest' ≡ x ∷ xs
        whole = append_assoc run run' rest' ∙ ap (◌++◌ run) r'.whole ∙ r.whole

    pass_one :
        (fuel : ℕ) (x : A) (xs : List A)
        → (find_end_of_run less x xs).1 ≡ []
        → sort_pass less (suc fuel) (x ∷ xs) ≡ some ((find_end_of_run less x xs).0, 1)
    unfolding sort_pass
    pass_one fuel x xs e = rw (e, sort_pass) refl

    pass_two :
        (fuel : ℕ) (x y : A) (xs ys merged out : List A) (cnt : ℕ)
        → (find_end_of_run less x xs).1 ≡ y ∷ ys
        → inplace_merge less (find_end_of_run less x xs).0 (find_end_of_run less y ys).0
          ≡ some merged
        → sort_pass less fuel (find_end_of_run less y ys).1 ≡ some (out, cnt)
        → sort_pass less (suc fuel) (x ∷ xs) ≡ some (merged ++ out, suc cnt)
    unfolding sort_pass
    pass_two fuel x y xs ys merged out cnt e m p =
        rw (e, sort_pass)
          (ap
              (λ o. o >>= λ merged. sort_pass less fuel (find_end_of_run less y ys).1 >>= λ r.
                some (merged ++ r.0, suc r.1))
              m
            ∙ ap (λ o. o >>= λ r. some (merged ++ r.0, suc r.1)) p)

    -- The assertions of inplace_merge hold of two runs.
    merge_runs :
        {x y : A} {xs ys run rest run' rest' : List A}
        → IsRun less x xs run rest
        → IsRun less y ys run' rest'
        → inplace_merge less run run' ≡ some (merge_loop less run run')
    unfolding inplace_merge
    merge_runs {run = run} {run' = run'} r r' =
        ap (λ b. check b >> (check (is_sorted less run') >> some (merge_loop less run run')))
          (is_sorted-runs run (rw r.run_eq (omega (arith, r.in_order))))
        ∙ ap (λ b. check b >> some (merge_loop less run run'))
            (is_sorted-runs run' (rw r'.run_eq (omega (arith, r'.in_order))))

    -- A pass returns.
    abbrev Passes : ℕ → List A → Type ℓ
    Passes fuel l =
        (out : List A) × (cnt : ℕ) × (sort_pass less fuel l ≡ some (out, cnt)) × Passed l out cnt

    sort_pass-Passed : (fuel : ℕ) (l : List A) → length l ≤ fuel → Passes fuel l
    sort_pass-Passed zero [] h = ([], 0, unfold sort_pass in refl, nothing)
    sort_pass-Passed zero (x ∷ xs) h = absurd (omega arith)
    sort_pass-Passed (suc fuel) [] h = ([], 0, unfold sort_pass in refl, nothing)
    sort_pass-Passed (suc fuel) (x ∷ xs) h =
        go (find_end_of_run less x xs).1 refl (find_end_of_run-IsRun less x xs)
          (sort_pass-Passed fuel)
      where
        go :
            (rest : List A)
            → (find_end_of_run less x xs).1 ≡ rest
            → IsRun less x xs (find_end_of_run less x xs).0 (find_end_of_run less x xs).1
            → ((l : List A) → length l ≤ fuel → Passes fuel l)
            → Passes (suc fuel) (x ∷ xs)
        go [] e r rec = ((find_end_of_run less x xs).0, 1, pass_one fuel x xs e, last (rw e at r))
        go (y ∷ ys) e r rec =
            let r' = find_end_of_run-IsRun less y ys in
            let (out, cnt, run, p) =
              rec (find_end_of_run less y ys).1 (omega (arith, rest-lt (rw e at r), rest-lt r')) in
            let merged =
              merge_loop less (find_end_of_run less x xs).0 (find_end_of_run less y ys).0 in
            (
              merged ++ out,
              suc cnt,
              pass_two fuel x y xs ys merged out cnt e (merge_runs r r') run,
              merged-Passed (rw e at r) r' p,
            )

    loop_end :
        (fuel cnt : ℕ) (l out : List A)
        → sort_pass less (length l) l ≡ some (out, cnt)
        → leb cnt 1 ≡ true
        → is_sorted less out ≡ true
        → sort_loop less (suc fuel) l ≡ some out
    unfolding sort_loop
    loop_end fuel cnt l out p e s =
        rw (p, sort_loop)
          (ap
              (λ b. elim b [
                | true ↦ check (is_sorted less out) >> some out
                | false ↦ sort_loop less fuel out
              ])
              e
            ∙ ap (λ b. check b >> some out) s)

    loop_again :
        (fuel cnt : ℕ) (l out : List A)
        → sort_pass less (length l) l ≡ some (out, cnt)
        → leb cnt 1 ≡ false
        → sort_loop less (suc fuel) l ≡ sort_loop less fuel out
    unfolding sort_loop
    loop_again fuel cnt l out p e =
        rw (p, sort_loop)
          (ap
            (λ b. elim b [
              | true ↦ check (is_sorted less out) >> some out
              | false ↦ sort_loop less fuel out
            ])
            e)

    sort_loop_lem :
        (fuel : ℕ) (l : List A)
        → runs less l < fuel
        → (out : List A) × (sort_loop less fuel l ≡ some out)
          × (is_sorted less out ≡ true)
          × Perm out l
    sort_loop_lem zero l h = absurd (omega arith)
    sort_loop_lem (suc fuel) l h =
        let (out, cnt, run, p) = sort_pass-Passed (length l) l (omega arith) in
        elim (Bool-cases (leb cnt 1)) [
          | inl e ↦
              let s = is_sorted-runs out (omega (arith, p.few, leb→le cnt 1 e)) in
              (out, loop_end fuel cnt l out run e s, s, p.same)
          | inr e ↦
              let (out', run', s, q) = sort_loop_lem fuel out (ground (arith, p.few, p.half)) in
              (out', loop_again fuel cnt l out run e ∙ run', s, Perm.trans q p.same)
        ]

    -- list_sort by an order that is asymmetric returns: its passes end, and the assertions of
    -- inplace_merge and at the end hold. The result is in order and has the elements of the list.
    pub list_sort_lem :
        (l : List A)
        → (out : List A) × (list_sort less l ≡ some out) × (is_sorted less out ≡ true) × Perm out l
    unfolding list_sort
    list_sort_lem l = sort_loop_lem (suc (length l)) l (omega (arith, runs-le-length l))
