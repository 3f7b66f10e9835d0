-- ===== src/Links/Queue.antt =====
-- A list of src/lib/kernel/list.c as a queue: list_init, list_push_back, list_pop_front,
-- list_size.
use csed.Common.{
  ℕ, zero, suc, ◌+◌, ◌<◌, ◌≡◌, ◌≢◌, refl, false, ◌==◌, List, [], ◌∷◌, ◌++◌, append-nil, subst, sym,
  arith, count, count-append, length, some, Returns, Returns-bind,
}
use csed.Links.{
  Heap, list_init, list_next, list_push_back, list_remove, list_front, list_pop_front, size_from,
  list_size,
}
use csed.Links.Chain.{Chain, first, IsList, chain_next}
use csed.Links.Change.{list_insert_lem}
use csed.Links.Remove.{list_remove_lem}

-- list_init makes an empty list.
pub list_init-IsList : (m : Heap) (list : ℕ) → list ≢ 0 → IsList (list_init list m) list []
unfolding list_init
list_init-IsList m list h = record {
  chain = (ground arith, ground arith);
  head_prev = ground arith;
  tail_next = ground arith;
  distinct = λ p. ground arith;
  not_null = ground (arith, h);
}

-- list_push_back of a new element puts it behind the others.
pub list_push_back_lem :
    (m : Heap) (list : ℕ) (xs : List ℕ) (e : ℕ)
    → IsList m list xs
    → count e (list ∷ (xs ++ (list + 8) ∷ [])) ≡ 0
    → e ≢ 0
    → Returns (list_push_back list e m) λ m'. IsList m' list (xs ++ e ∷ [])
unfolding list_push_back
list_push_back_lem m list xs e v fresh nz =
    list_insert_lem m list xs [] e (subst (IsList m list) (sym (append-nil xs)) v)
      (rw (append-nil xs) fresh) nz

front_eq :
    (m : Heap) (list x : ℕ) (xs : List ℕ) → IsList m list (x ∷ xs) → list_front list m ≡ some x
unfolding list_front
front_eq m list x xs v =
    ground (arith, v.chain.0, v.distinct x, count-append x xs ((list + 8) ∷ []))

-- list_pop_front of a list with elements takes the first one off.
pub list_pop_front_lem :
    (m : Heap) (list x : ℕ) (xs : List ℕ)
    → IsList m list (x ∷ xs)
    → Returns (list_pop_front list m) λ r. (r.0 ≡ x) × IsList r.1 list xs
unfolding list_pop_front
list_pop_front_lem m list x xs v = rw (front_eq m list x xs v) (
    Returns-bind (λ r. (r.0 ≡ first xs (list + 8)) × IsList r.1 list xs)
      (λ r. (r.0 ≡ x) × IsList r.1 list xs) (list_remove x m) (λ r. some (x, r.1))
      (list_remove_lem m list [] xs x v) λ r g. (refl, g.1))

first_not_null : (xs : List ℕ) (list : ℕ) → count 0 xs ≡ 0 → (first xs (list + 8) == 0) ≡ false
first_not_null [] list n = ground arith
first_not_null (x ∷ xs) list n = ground arith

next_eq :
    (m : Heap) (list a x : ℕ) (xs : List ℕ)
    → Chain m a (x ∷ xs) (list + 8)
    → a ≢ 0
    → count 0 (x ∷ xs) ≡ 0
    → list_next x m ≡ some (first xs (list + 8))
unfolding list_next
next_eq m list a x xs c nz n =
    ground (arith, nz, c.1, chain_next m x xs (list + 8) c.2, first_not_null xs list (ground arith))

size_from_lem :
    (fuel : ℕ) (m : Heap) (list a : ℕ) (xs : List ℕ)
    → length xs < fuel
    → Chain m a xs (list + 8)
    → a ≢ 0
    → count 0 xs ≡ 0
    → count (list + 8) xs ≡ 0
    → size_from fuel list (first xs (list + 8)) m ≡ some (length xs)
unfolding size_from
size_from_lem zero m list a xs f c p n t = absurd (omega arith)
size_from_lem (suc fuel) m list a [] f c p n t = ground arith
size_from_lem (suc fuel) m list a (x ∷ xs) f c p n t = ground (
  arith,
  t,
  next_eq m list a x xs c p n,
  size_from_lem fuel m list x xs (omega arith) c.2 (ground (arith, n)) (ground arith)
      (ground arith),
)

-- list_size counts the elements; its loop ends.
pub list_size_lem :
    (fuel : ℕ) (m : Heap) (list : ℕ) (xs : List ℕ)
    → IsList m list xs
    → length xs < fuel
    → list_size fuel list m ≡ some (length xs)
unfolding list_size
list_size_lem fuel m list xs v f = rw (chain_next m list xs (list + 8) v.chain) (
    size_from_lem fuel m list list xs f v.chain (ground (arith, v.not_null))
      (ground (arith, v.not_null))
      (ground (arith, v.distinct (list + 8), count-append (list + 8) xs ((list + 8) ∷ []))))
