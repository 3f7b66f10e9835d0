-- ===== src/Hash/Clear.antt =====
-- hash_init, hash_clear and hash_destroy in src/lib/kernel/hash.c.
use csed.Common.{
  ℕ, zero, suc, ◌≡◌, refl, Bool, true, false, List, [], ◌∷◌, none, some, arith, get_or, length,
  count, map, sym, ◌∙◌,
}
use csed.Hash.{
  Hash, HashFuncs, bucket_idx, each_elem, hash_clear, hash_clear_null, hash_init, hash_destroy,
  hash_find,
}
use csed.Hash.Buckets.{number, total}
use csed.Hash.Power.{IsCount}
use csed.Hash.Table.{IsKeyed, IsTable, hash_find_by, missing}
use csed.Hash.Iterator.{iterate, hash_first}
use csed.Hash.Visit.{hash_apply_lem}

abbrev emptied : List (List ℕ) → List (List ℕ)
emptied bs = map (λ bucket. []) bs

length-emptied : (bs : List (List ℕ)) → length (emptied bs) ≡ length bs
length-emptied [] = refl
length-emptied (b ∷ bs) = omega (arith, length-emptied bs)

total-emptied : (bs : List (List ℕ)) → total (emptied bs) ≡ 0
total-emptied [] = refl
total-emptied (b ∷ bs) = omega (arith, total-emptied bs)

number-emptied : (a : ℕ) (bs : List (List ℕ)) → number a (emptied bs) ≡ 0
number-emptied a [] = refl
number-emptied a (b ∷ bs) = omega (arith, number-emptied a bs)

get_or-emptied : (a i : ℕ) (bs : List (List ℕ)) → count a (get_or (emptied bs) i []) ≡ 0
get_or-emptied a i [] = refl
get_or-emptied a zero (b ∷ bs) = refl
get_or-emptied a (suc i) (b ∷ bs) = get_or-emptied a i bs

module _ (f : HashFuncs) where
  emptied-IsTable :
      (n : ℕ) (bs : List (List ℕ))
      → IsCount n
      → n ≡ length bs
      → IsTable f (record { elem_cnt = 0; bucket_cnt = n; buckets = emptied bs })
  emptied-IsTable n bs c s = record {
    size = s ∙ sym (length-emptied bs);
    power = c;
    elems = sym (total-emptied bs);
    bound = omega arith;
    once = λ a. omega (arith, number-emptied a bs);
    placed = λ a. number-emptied a bs ∙ sym (get_or-emptied a (bucket_idx f n a) bs);
    distinct = λ a b p q e. absurd (omega (arith, number-emptied a bs));
  }

  -- hash_init with memory gives a consistent table of four buckets and no elements, which answers
  -- no search; malloc gives four lists. Without memory it fails.
  pub hash_init_lem :
      (memory : Bool) (fresh : List (List ℕ))
      → IsKeyed f
      → length fresh ≡ 4
      → (memory ≡ false → hash_init memory fresh ≡ none)
        × (memory ≡ true
            → (h : Hash) × (hash_init memory fresh ≡ some h)
              × IsTable f h
              × (h.elem_cnt ≡ 0)
              × ((e : ℕ) → hash_find f h e ≡ none))
  unfolding hash_init hash_clear_null
  hash_init_lem memory fresh k s = (
    (λ m. rw (m) refl),
    λ m.
        let h : Hash = record { elem_cnt = 0; bucket_cnt = 4; buckets = emptied fresh } in
        let t = emptied-IsTable 4 fresh (2, refl, omega arith, omega arith) (sym s) in
        (
          h,
          rw (m) refl,
          t,
          refl,
          λ e.
              hash_find_by f h e none k t
                (missing λ x p. absurd (omega (arith, number-emptied x fresh))),
        ),
  )

  module _ {ℓ} {S : Type ℓ} (destructor : ℕ → S → S) where
    -- hash_clear calls the destructor for each element once, in the order of the iterators, and
    -- leaves a consistent table with no elements; hash_destroy does the same calls.
    pub hash_clear_lem :
        (h : Hash) (s : S)
        → IsTable f h
        → (es : List ℕ) × (iterate h (suc h.elem_cnt) hash_first ≡ some es)
          × ((a : ℕ) → count a es ≡ number a h.buckets)
          × ((hash_clear destructor h s).0 ≡ each_elem destructor es s)
          × (hash_destroy destructor h s ≡ each_elem destructor es s)
          × IsTable f (hash_clear destructor h s).1
          × ((hash_clear destructor h s).1.elem_cnt ≡ 0)
    unfolding hash_clear hash_destroy
    hash_clear_lem h s t =
        let (es, it, same, apply) = hash_apply_lem destructor f h t in
        (
          es,
          it,
          (λ a. (same a).0),
          apply s,
          apply s,
          emptied-IsTable h.bucket_cnt h.buckets t.power t.size,
          refl,
        )
