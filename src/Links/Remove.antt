-- ===== src/Links/Remove.antt =====
-- list_remove of src/lib/kernel/list.c.
use csed.Common.{
  ℕ, ◌+◌, ◌≤◌, ◌≡◌, ◌≢◌, refl, false, ◌==◌, List, [], ◌∷◌, ◌++◌, subst, sym, arith, update, count,
  count-append, if◌then◌else◌, some, Returns,
}
use csed.Links.{Heap, list_remove}
use csed.Links.Chain.{
  Chain, Rest, first, last, IsList, chain_next, chain_prev, chain_split, chain_paste, chain_end,
  chain-Rest, Rest-same, last_mem, first_mem,
}

-- `a` and `b` joined.
abbrev joined : ℕ → ℕ → Heap → Heap
joined a b m = record { next = update m.next a b; prev = update m.prev b a }

remove_eq :
    (m : Heap) (e : ℕ)
    → (e == 0) ≡ false
    → (m.prev e == 0) ≡ false
    → (m.next e == 0) ≡ false
    → (m.prev e == e) ≡ false
    → (m.next e == e) ≡ false
    → list_remove e m ≡ some (m.next e, joined (m.prev e) (m.next e) m)
unfolding list_remove
remove_eq m e h p n a b = ground arith

module _ (m : Heap) (list : ℕ) (xs ys : List ℕ) (e : ℕ) (v : IsList m list (xs ++ e ∷ ys)) where
  abbrev a : ℕ
  a = last list xs

  abbrev b : ℕ
  b = first ys (list + 8)

  -- How often an address stands before and behind the element.
  abbrev before : ℕ → ℕ
  before p = count p (list ∷ xs)

  abbrev behind : ℕ → ℕ
  behind p = count p (ys ++ (list + 8) ∷ [])

  once : (p : ℕ) → before p + (if e == p then 1 else 0) + behind p ≤ 1
  once p = ground (
    arith,
    v.distinct p,
    count-append p (xs ++ e ∷ ys) ((list + 8) ∷ []),
    count-append p xs (e ∷ ys),
    count-append p ys ((list + 8) ∷ []),
  )

  parted : (p q : ℕ) → 1 ≤ before p → 1 ≤ behind q → p ≢ q
  parted p q h g t = absurd (ground (arith, h, once p, subst (λ z. 1 ≤ behind z) (sym t) g))

  in_back : (p : ℕ) → 1 ≤ count p ys → 1 ≤ behind p
  in_back p h = omega (arith, count-append p ys ((list + 8) ∷ []))

  in_front : (p : ℕ) → 1 ≤ count p xs → 1 ≤ before p
  in_front p h = omega arith

  chains : Chain m list xs e × Chain m e ys (list + 8)
  chains = chain_split m list xs e ys (list + 8) v.chain

  a_front : 1 ≤ before a
  a_front = last_mem list xs

  b_back : 1 ≤ behind b
  b_back = first_mem ys (list + 8)

  tail_back : 1 ≤ behind (list + 8)
  tail_back = ground (arith, count-append (list + 8) ys ((list + 8) ∷ []))

  front : Chain (joined a b m) list xs b
  front =
      chain_end m (joined a b m) list xs e b (λ p. ground (arith, once p))
        (λ p h n. ground (arith, n)) (λ p h. ground (arith, parted p b (in_front p h) b_back))
        (ground arith) (ground arith) chains.0

  back : Rest (joined a b m) ys (list + 8)
  back =
      Rest-same m (joined a b m) ys (list + 8) (λ p. ground (arith, once p))
        (λ p h. ground (arith, parted a p a_front (in_back p h))) (λ p h n. ground (arith, n))
        (chain-Rest m e ys (list + 8) chains.1)

  null_nowhere : (before 0 ≡ 0) × (behind 0 ≡ 0) × ((e == 0) ≡ false)
  null_nowhere =
      ground (arith, v.not_null, count-append 0 xs (e ∷ ys), count-append 0 ys ((list + 8) ∷ []))

  joined-IsList : IsList (joined a b m) list (xs ++ ys)
  joined-IsList = record {
    chain = chain_paste (joined a b m) list xs ys (list + 8) front back;
    head_prev = ground (arith, v.head_prev, parted list b (ground arith) b_back);
    tail_next = ground (arith, v.tail_next, parted a (list + 8) a_front tail_back);
    distinct = λ p. ground (
      arith,
      once p,
      count-append p (xs ++ ys) ((list + 8) ∷ []),
      count-append p xs ys,
      count-append p ys ((list + 8) ∷ []),
    );
    not_null = ground (arith, v.not_null, count-append 0 xs ys, count-append 0 xs (e ∷ ys));
  }

  prev_eq : m.prev e ≡ a
  prev_eq = chain_prev m list xs e chains.0

  next_eq : m.next e ≡ b
  next_eq = chain_next m e ys (list + 8) chains.1

  -- list_remove of an element answers the one behind it, or the tail, and leaves the others in order.
  pub list_remove_lem :
      Returns (list_remove e m) λ r. (r.0 ≡ first ys (list + 8)) × IsList r.1 list (xs ++ ys)
  list_remove_lem =
      rw
        (
          remove_eq m e null_nowhere.2 (rw (prev_eq) (ground (arith, null_nowhere.0, a_front)))
              (rw (next_eq) (ground (arith, null_nowhere.1, b_back)))
              (rw (prev_eq) (ground (arith, once a, a_front)))
              (rw (next_eq) (ground (arith, once b, b_back))),
          prev_eq,
          next_eq,
        )
        (refl, joined-IsList)
