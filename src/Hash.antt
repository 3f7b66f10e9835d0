-- ===== src/Hash.antt =====
-- src/lib/kernel/hash.c and hash.h: hash tables. An element is the address of its `hash_elem`, and
-- a bucket is the list of the addresses that are linked into it. The functions and `aux` that
-- hash_init stores are the section's parameter, since no other function changes them.
pub mod Buckets
pub mod Power
pub mod Table
pub mod Rehash
pub mod Lookup
pub mod Map
pub mod Iterator
pub mod Visit
pub mod Clear
pub mod Bytes
mod Tests
use csed.Common.{
  ℕ, zero, suc, ◌+◌, ◌-◌, ◌*◌, ◌/◌, ◌%◌, ◌^◌, Bool, true, false, not, ◌==◌, ltb, leb, List, [], ◌∷◌,
  map, Option, none, some, get_or, set, replicate, length, bit_and, bit_xor, if◌then◌else◌,
}

-- `hash_hash_func` and `hash_less_func`, with the auxiliary data.
pub record HashFuncs : Type 0 where
  pub hash : ℕ → ℕ
  pub less : ℕ → ℕ → Bool

-- `struct hash`
pub record Hash : Type 0 where
  pub elem_cnt : ℕ
  pub bucket_cnt : ℕ
  pub buckets : List (List ℕ)

-- `x & (x - 1)` in a `size_t`.
unfoldable pub turn_off_least_1bit : ℕ → ℕ
turn_off_least_1bit x = bit_and x ((x + 2 ^ 32 - 1) % 2 ^ 32)

unfoldable pub is_power_of_2 : ℕ → Bool
is_power_of_2 x = if x == 0 then false else turn_off_least_1bit x == 0

-- The loop of rehash that makes a power of 2 of the number, for some rounds.
unfoldable pub to_power_of_2 : ℕ → ℕ → ℕ
to_power_of_2 zero x = x
to_power_of_2 (suc rounds) x = elim (is_power_of_2 x) [
  | true ↦ x
  | false ↦ to_power_of_2 rounds (turn_off_least_1bit x)
]

unfoldable pub ideal_bucket_cnt : ℕ → ℕ
ideal_bucket_cnt elem_cnt =
    let wanted = elem_cnt / 2 in
    let enough = if ltb wanted 4 then 4 else wanted in to_power_of_2 enough enough

-- list_remove of an element, in a list that has it or not.
unfoldable pub unlink : ℕ → List ℕ → List ℕ
unlink e [] = []
unlink e (x ∷ xs) = let rest = unlink e xs in if x == e then xs else x ∷ rest

-- list_push_front
unfoldable pub push_front : List (List ℕ) → ℕ → ℕ → List (List ℕ)
push_front buckets i e = set buckets i (e ∷ get_or buckets i [])

unfoldable pub insert_elem : Hash → ℕ → ℕ → Hash
insert_elem h bucket e = record h {
  elem_cnt = (h.elem_cnt + 1) % 2 ^ 32;
  buckets = push_front h.buckets bucket e;
}

-- The element leaves the bucket that it is linked into.
unfoldable pub remove_elem : Hash → ℕ → Hash
remove_elem h e = record h {
  elem_cnt = (h.elem_cnt + 2 ^ 32 - 1) % 2 ^ 32;
  buckets = map (unlink e) h.buckets;
}

abbrev pub hash_size : Hash → ℕ
hash_size h = h.elem_cnt

abbrev pub hash_empty : Hash → Bool
hash_empty h = h.elem_cnt == 0

-- A destructor or an action works on a state of its own.
module _ {ℓ} {S : Type ℓ} (action : ℕ → S → S) where
  unfoldable pub each_elem : List ℕ → S → S
  each_elem [] s = s
  each_elem (e ∷ bucket) s = each_elem bucket (action e s)

  unfoldable pub hash_apply : List (List ℕ) → S → S
  hash_apply [] s = s
  hash_apply (bucket ∷ buckets) s = hash_apply buckets (each_elem bucket s)

  -- With a destructor; it pops each bucket from the front.
  unfoldable pub hash_clear : Hash → S → S × Hash
  hash_clear h s =
      (hash_apply h.buckets s, record h { elem_cnt = 0; buckets = map (λ bucket. []) h.buckets })

  -- With a destructor; the buckets are freed.
  unfoldable pub hash_destroy : Hash → S → S
  unfolding hash_clear
  hash_destroy h s = (hash_clear h s).0

-- With no destructor.
unfoldable pub hash_clear_null : Hash → Hash
hash_clear_null h = record h { elem_cnt = 0; buckets = map (λ bucket. []) h.buckets }

-- `memory` says whether malloc finds memory; then it gives the array `fresh`, of four lists.
unfoldable pub hash_init : Bool → List (List ℕ) → Option Hash
hash_init memory fresh =
    if memory
    then some (hash_clear_null (record { elem_cnt = 0; bucket_cnt = 4; buckets = fresh }))
    else none

module _ (f : HashFuncs) where
  -- `!less (a, b) && !less (b, a)`
  abbrev pub equal : ℕ → ℕ → Bool
  equal a b = if not (f.less a b) then not (f.less b a) else false

  -- `hash & (bucket_cnt - 1)`
  unfoldable pub bucket_idx : ℕ → ℕ → ℕ
  bucket_idx bucket_cnt e = bit_and (f.hash e) ((bucket_cnt + 2 ^ 32 - 1) % 2 ^ 32)

  abbrev pub find_bucket : Hash → ℕ → ℕ
  find_bucket h e = bucket_idx h.bucket_cnt e

  unfoldable pub find_elem : List ℕ → ℕ → Option ℕ
  find_elem [] e = none
  find_elem (hi ∷ bucket) e = let rest = find_elem bucket e in if equal hi e then some hi else rest

  unfoldable pub hash_find : Hash → ℕ → Option ℕ
  hash_find h e = find_elem (get_or h.buckets (find_bucket h e) []) e

  -- The loops of rehash that move each old element to the front of its new bucket.
  unfoldable pub move_bucket : ℕ → List ℕ → List (List ℕ) → List (List ℕ)
  move_bucket bucket_cnt [] new = new
  move_bucket bucket_cnt (e ∷ bucket) new =
      move_bucket bucket_cnt bucket (push_front new (bucket_idx bucket_cnt e) e)

  unfoldable pub move_buckets : ℕ → List (List ℕ) → List (List ℕ) → List (List ℕ)
  move_buckets bucket_cnt [] new = new
  move_buckets bucket_cnt (bucket ∷ old) new =
      move_buckets bucket_cnt old (move_bucket bucket_cnt bucket new)

  unfoldable pub rehash : Bool → Hash → Hash
  rehash memory h =
      let new_bucket_cnt = ideal_bucket_cnt h.elem_cnt in
      if new_bucket_cnt == h.bucket_cnt
      then h
      else if memory
      then record h {
        bucket_cnt = new_bucket_cnt;
        buckets = move_buckets new_bucket_cnt h.buckets (replicate new_bucket_cnt []);
      }
      else h

  unfoldable pub hash_insert : Bool → Hash → ℕ → Option ℕ × Hash
  hash_insert memory h e =
      let bucket = find_bucket h e in
      let old = find_elem (get_or h.buckets bucket []) e in
      elim old [
        | none ↦ (none, rehash memory (insert_elem h bucket e))
        | some o ↦ (some o, rehash memory h)
      ]

  unfoldable pub hash_replace : Bool → Hash → ℕ → Option ℕ × Hash
  hash_replace memory h e =
      let bucket = find_bucket h e in
      let old = find_elem (get_or h.buckets bucket []) e in
      elim old [
        | none ↦ (none, rehash memory (insert_elem h bucket e))
        | some o ↦ (some o, rehash memory (insert_elem (remove_elem h o) bucket e))
      ]

  unfoldable pub hash_delete : Bool → Hash → ℕ → Option ℕ × Hash
  hash_delete memory h e = elim (hash_find h e) [
    | none ↦ (none, h)
    | some found ↦ (some found, rehash memory (remove_elem h found))
  ]
