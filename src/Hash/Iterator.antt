-- ===== src/Hash/Iterator.antt =====
-- The iterators of src/lib/kernel/hash.c: hash_first, hash_next, hash_cur. A place in a bucket is 0
-- for list_head, `n + 1` for the element number `n`, and one more than the length for list_end.
use csed.Common.{
  ℕ, zero, suc, ◌-◌, true, false, ◌==◌, ltb, List, [], ◌∷◌, Option, none, some, get_or, get_elem?,
  length, ◌>>=◌,
}
use csed.Hash.{Hash}

-- `struct hash_iterator`; NULL as the element is `none`.
pub record HashIterator : Type 0 where
  pub bucket : ℕ
  pub elem : Option ℕ

-- The element at a place of a bucket.
abbrev pub elem_at : List ℕ → ℕ → Option ℕ
elem_at bucket zero = none
elem_at bucket (suc n) = get_elem? bucket n

unfoldable pub hash_first : HashIterator
hash_first = record { bucket = 0; elem = some 0 }

unfoldable pub hash_cur : Hash → HashIterator → Option ℕ
hash_cur h i = i.elem >>= elem_at (get_or h.buckets i.bucket [])

-- The loop of hash_next at a place of a bucket, while that is the end of the bucket.
unfoldable pub next_bucket : Hash → ℕ → ℕ → ℕ → HashIterator
next_bucket h zero bucket place = record { bucket = bucket; elem = none }
next_bucket h (suc rounds) bucket place =
    elim (place == suc (length (get_or h.buckets bucket []))) [
      | true ↦ elim (ltb (suc bucket) h.bucket_cnt) [
        | true ↦ next_bucket h rounds (suc bucket) 1
        | false ↦ record { bucket = suc bucket; elem = none }
      ]
      | false ↦ record { bucket = bucket; elem = some place }
    ]

-- The element and the iterator after it. `none` stands for a NULL that is followed.
unfoldable pub hash_next : Hash → HashIterator → Option (Option ℕ × HashIterator)
hash_next h i = do
  place ← i.elem
  let i' = next_bucket h (h.bucket_cnt - i.bucket) i.bucket (suc place) in some (hash_cur h i', i')

-- The iteration idiom that the comment of hash_first shows, for some rounds: what hash_cur gives in
-- its body. `none` if the rounds do not do.
unfoldable pub iterate : Hash → ℕ → HashIterator → Option (List ℕ)
iterate h zero i = none
iterate h (suc rounds) i = do
  r ← hash_next h i
  elim r.0 [ none ↦ some [] | some e ↦ (do es ← iterate h rounds r.1; some (e ∷ es)) ]
