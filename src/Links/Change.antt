-- ===== src/Links/Change.antt =====
-- list_insert of src/lib/kernel/list.c.
use csed.Common.{
  ℕ, ◌+◌, ◌≤◌, ◌≡◌, ◌≢◌, false, ◌==◌, List, [], ◌∷◌, ◌++◌, ap, subst, sym, ◌∙◌, arith, update,
  count, count-append, some, Returns,
}
use csed.Links.{Heap, list_insert}
use csed.Links.Chain.{
  Chain, first, last, IsList, chain_prev, chain_cut, chain_end, chain_join, last_mem, first_mem,
  chain_start,
}

-- `e` between `a` and `b`.
abbrev inserted : ℕ → ℕ → ℕ → Heap → Heap
inserted a e b m = record {
  next = update (update m.next e b) a e;
  prev = update (update m.prev e a) b e;
}

-- How often an address stands in the two parts of a list, its head and its tail.
module _ (list : ℕ) (xs ys : List ℕ) where
  abbrev members : ℕ → ℕ
  members p = count p (list ∷ xs) + count p (ys ++ (list + 8) ∷ [])

  members_eq : (p : ℕ) → count p (list ∷ ((xs ++ ys) ++ (list + 8) ∷ [])) ≡ members p
  members_eq p = ground (
    arith,
    count-append p (xs ++ ys) ((list + 8) ∷ []),
    count-append p xs ys,
    count-append p ys ((list + 8) ∷ []),
  )

insert_eq :
    (m : Heap) (before elem : ℕ)
    → (before == 0) ≡ false
    → (m.prev before == 0) ≡ false
    → (elem == 0) ≡ false
    → (elem == before) ≡ false
    → list_insert before elem m ≡ some (inserted (m.prev before) elem before m)
unfolding list_insert
insert_eq m before elem b p e n = ground arith

module _ (m : Heap) (list : ℕ) (xs ys : List ℕ) (e : ℕ) (v : IsList m list (xs ++ ys))
    (fresh : count e (list ∷ ((xs ++ ys) ++ (list + 8) ∷ [])) ≡ 0) where
  abbrev a : ℕ
  a = last list xs

  abbrev b : ℕ
  b = first ys (list + 8)

  once : (p : ℕ) → members list xs ys p ≤ 1
  once p = ground (arith, v.distinct p, members_eq list xs ys p)

  apart : members list xs ys e ≡ 0
  apart = ground (arith, fresh, members_eq list xs ys e)

  front : Chain (inserted a e b m) list xs e
  front =
      chain_end m (inserted a e b m) list xs b e (λ p. ground (arith, once p))
        (λ p h n. ground (arith, h, n, apart))
        (λ p h. ground (arith, h, once p, once b, apart, first_mem ys (list + 8))) (ground arith)
        (ground (arith, apart, first_mem ys (list + 8)))
        (chain_cut m list xs ys (list + 8) v.chain).0

  -- No address is in both parts.
  parted : (p q : ℕ) → 1 ≤ count p (list ∷ xs) → 1 ≤ count q (ys ++ (list + 8) ∷ []) → p ≢ q
  parted p q h g t =
      absurd (ground (arith, h, once p, subst (λ z. 1 ≤ count z (ys ++ (list + 8) ∷ [])) (sym t) g))

  in_back : (p : ℕ) → 1 ≤ count p ys → 1 ≤ count p (ys ++ (list + 8) ∷ [])
  in_back p h = omega (arith, count-append p ys ((list + 8) ∷ []))

  back : Chain (inserted a e b m) e ys (list + 8)
  back =
      chain_start m (inserted a e b m) e ys (list + 8) (λ p. ground (arith, once p))
        (λ p h. ground (arith, h, parted a p (last_mem list xs) (in_back p h), in_back p h, apart))
        (λ p h n. ground (arith, h, n, apart)) (ground (arith, apart, last_mem list xs))
        (ground arith) (chain_cut m list xs ys (list + 8) v.chain).1

  tail_mem : 1 ≤ count (list + 8) (ys ++ (list + 8) ∷ [])
  tail_mem = ground (arith, count-append (list + 8) ys ((list + 8) ∷ []))

  b_not_null : (b == 0) ≡ false
  b_not_null = ground (
    arith,
    v.not_null,
    count-append 0 xs ys,
    count-append 0 ys ((list + 8) ∷ []),
    first_mem ys (list + 8),
  )

  a_not_null : (a == 0) ≡ false
  a_not_null = ground (arith, v.not_null, count-append 0 xs ys, last_mem list xs)

  prev_eq : m.prev b ≡ a
  prev_eq = chain_prev m list xs b (chain_cut m list xs ys (list + 8) v.chain).0

  inserted-IsList : e ≢ 0 → IsList (inserted a e b m) list (xs ++ e ∷ ys)
  inserted-IsList nz = record {
    chain = chain_join (inserted a e b m) list xs e ys (list + 8) front back;
    head_prev =
        ground (arith, v.head_prev, apart, parted list b (ground arith) (first_mem ys (list + 8)));
    tail_next =
        ground
          (arith, v.tail_next, apart, tail_mem, parted a (list + 8) (last_mem list xs) tail_mem);
    distinct =
        λ p. ground (arith, once p, apart, members_eq list xs (e ∷ ys) p, count-append p xs ys);
    not_null = ground (arith, v.not_null, count-append 0 xs ys, count-append 0 xs (e ∷ ys));
  }

  -- list_insert before an element, or before the tail, puts a new element there; the rest of the list
  -- stays as it was.
  pub list_insert_lem : e ≢ 0 → Returns (list_insert b e m) λ m'. IsList m' list (xs ++ e ∷ ys)
  list_insert_lem nz =
      rw
        (
          insert_eq m b e b_not_null (ap (λ p. p == 0) prev_eq ∙ a_not_null) (ground (arith, nz))
              (ground (arith, apart, first_mem ys (list + 8))),
          prev_eq,
        )
        (inserted-IsList nz)
