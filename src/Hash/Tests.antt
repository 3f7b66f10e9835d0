-- ===== src/Hash/Tests.antt =====
-- A table for src/lib/kernel/hash.c of elements whose key is the address without its last decimal
-- digit.
use csed.Common.{
  ℕ, ◌*◌, ◌/◌, ◌≤◌, ◌<◌, ◌^◌, ◌≡◌, refl, sym, false, true, List, [], ◌∷◌, none, some, subst, arith,
  if◌then◌else◌, ltb, count, replicate,
}
use csed.Hash.{
  Hash, HashFuncs, equal, hash_find, hash_insert, hash_replace, hash_delete, hash_apply, each_elem,
  hash_clear, hash_destroy, hash_init, rehash, bucket_idx, find_elem, ideal_bucket_cnt,
  to_power_of_2, insert_elem, is_power_of_2, turn_off_least_1bit, push_front,
}
use csed.Hash.Buckets.{number, number-replicate, get_or-replicate}
use csed.Hash.Power.{wanted}
use csed.Hash.Table.{IsKeyed, IsTable}
use csed.Hash.Rehash.{rehash_lem}
use csed.Hash.Map.{Answers, or_else, hash_insert_lem, hash_operations}
use csed.Hash.Iterator.{iterate, hash_first, hash_next, next_bucket, hash_cur}
use csed.Hash.Visit.{hash_apply_lem}
use csed.Hash.Clear.{hash_init_lem, hash_clear_lem}
use csed.Hash.Bytes.{hash_string, hash_bytes, end, next, hash_string_lem}

abbrev tens : HashFuncs
tens = record { hash = λ a. a / 10; less = λ a b. ltb (a / 10) (b / 10) }

same_ten : (a b : ℕ) → equal tens a b ≡ true → a / 10 ≡ b / 10
same_ten a b h = ground arith

tens-IsKeyed : IsKeyed tens
tens-IsKeyed = record {
  equal_refl = λ a. ground arith;
  equal_trans = λ a b c p q. ground (arith, same_ten a b p, same_ten b c q);
  hash_equal = same_ten;
}

abbrev empty : Hash
empty = record { elem_cnt = 0; bucket_cnt = 4; buckets = replicate 4 [] }

empty-IsTable : IsTable tens empty
empty-IsTable = record {
  size = refl;
  power = (2, refl, omega arith, omega arith);
  elems = refl;
  bound = omega arith;
  once = λ a. omega (arith, number-replicate a 4);
  placed = λ a. sym (get_or-replicate a (bucket_idx tens 4 a) 4);
  distinct = λ a b p q e. absurd (omega (arith, number-replicate a 4));
}

abbrev two : Hash
two = record { elem_cnt = 2; bucket_cnt = 4; buckets = [] ∷ (53 ∷ 10 ∷ []) ∷ [] ∷ [] ∷ [] }

two_eq : (hash_insert tens true (hash_insert tens true empty 10).1 53).1 ≡ two
unfolding hash_insert find_elem bucket_idx rehash ideal_bucket_cnt to_power_of_2 insert_elem
    is_power_of_2 turn_off_least_1bit push_front
two_eq = refl

two-IsTable : IsTable tens two
unfolding hash_insert find_elem bucket_idx rehash ideal_bucket_cnt to_power_of_2 insert_elem
    is_power_of_2 turn_off_least_1bit push_front
two-IsTable =
    subst (IsTable tens) two_eq
      (hash_insert_lem tens tens-IsKeyed true (hash_insert tens true empty 10).1 53
        (hash_insert_lem tens tens-IsKeyed true empty 10 empty-IsTable (omega arith)).1.table
        (omega arith)).1.table

hash_operations_example :
    (((hash_insert tens true two 58).0 ≡ hash_find tens two 58)
      × Answers tens tens-IsKeyed
          (hash_insert tens true two 58).1
          (λ q. or_else (hash_find tens two q) (if equal tens 58 q then some 58 else none))
          (elim (hash_find tens two 58) [ none ↦ 3 | some x ↦ 2 ]))
    × (((hash_replace tens true two 58).0 ≡ hash_find tens two 58)
        × Answers tens tens-IsKeyed
            (hash_replace tens true two 58).1
            (λ q. if equal tens 58 q then some 58 else hash_find tens two q)
            (elim (hash_find tens two 58) [ none ↦ 3 | some x ↦ 2 ]))
    × (((hash_delete tens true two 58).0 ≡ hash_find tens two 58)
        × Answers tens tens-IsKeyed
            (hash_delete tens true two 58).1
            (λ q. if equal tens 58 q then none else hash_find tens two q)
            (elim (hash_find tens two 58) [ none ↦ 2 | some x ↦ 1 ]))
hash_operations_example = hash_operations tens tens-IsKeyed true two 58 two-IsTable (omega arith)

rehash_example :
    ((e : ℕ) → hash_find tens (rehash tens true two) e ≡ hash_find tens two e)
    × IsTable tens (rehash tens true two)
    × (true ≡ true
        → ((rehash tens true two).bucket_cnt ≤ wanted 2)
          × (wanted 2 < 2 * (rehash tens true two).bucket_cnt))
rehash_example = rehash_lem tens true two tens-IsKeyed two-IsTable

hash_apply_example :
    (es : List ℕ) × (iterate two 3 hash_first ≡ some es)
    × ((a : ℕ) → (count a es ≡ number a two.buckets) × (count a es ≤ 1))
    × ((s : List ℕ) → hash_apply (λ e s. e ∷ s) two.buckets s ≡ each_elem (λ e s. e ∷ s) es s)
hash_apply_example = hash_apply_lem (λ e s. e ∷ s) tens two two-IsTable

hash_init_example :
    (true ≡ false → hash_init true (replicate 4 (7 ∷ [])) ≡ none)
    × (true ≡ true
        → (h : Hash) × (hash_init true (replicate 4 (7 ∷ [])) ≡ some h)
          × IsTable tens h
          × (h.elem_cnt ≡ 0)
          × ((e : ℕ) → hash_find tens h e ≡ none))
hash_init_example = hash_init_lem tens true (replicate 4 (7 ∷ [])) tens-IsKeyed refl

hash_clear_example :
    (es : List ℕ) × (iterate two 3 hash_first ≡ some es)
    × ((a : ℕ) → count a es ≡ number a two.buckets)
    × ((hash_clear (λ e s. e ∷ s) two []).0 ≡ each_elem (λ e s. e ∷ s) es [])
    × (hash_destroy (λ e s. e ∷ s) two [] ≡ each_elem (λ e s. e ∷ s) es [])
    × IsTable tens (hash_clear (λ e s. e ∷ s) two []).1
    × ((hash_clear (λ e s. e ∷ s) two []).1.elem_cnt ≡ 0)
hash_clear_example = hash_clear_lem tens (λ e s. e ∷ s) two [] two-IsTable

hash_string_example :
    (hash_string (97 ∷ 98 ∷ 0 ∷ 1 ∷ []) ≡ some (hash_bytes (97 ∷ 98 ∷ [])))
    × (hash_bytes (97 ∷ 98 ∷ []) < 2 ^ 32)
hash_string_example =
    hash_string_lem (97 ∷ 98 ∷ []) (1 ∷ [])
      (next (omega arith) (omega arith) (next (omega arith) (omega arith) end))

-- Nine elements grow nothing, seventeen elements make eight buckets.
ideal_small : ideal_bucket_cnt 9 ≡ 4
unfolding ideal_bucket_cnt to_power_of_2 is_power_of_2 turn_off_least_1bit
ideal_small = refl

ideal_large : ideal_bucket_cnt 23 ≡ 8
unfolding ideal_bucket_cnt to_power_of_2 is_power_of_2 turn_off_least_1bit
ideal_large = refl

iterate-two : iterate two 3 hash_first ≡ some (53 ∷ 10 ∷ [])
unfolding iterate hash_first hash_next next_bucket hash_cur
iterate-two = refl
