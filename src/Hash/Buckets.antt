-- ===== src/Hash/Buckets.antt =====
-- The buckets of src/lib/kernel/hash.c: how often an element is linked into them.
use csed.Common.{
  ℕ, zero, suc, ◌+◌, ◌-◌, ◌≤◌, ◌<◌, ◌≡◌, refl, true, ◌==◌, List, [], ◌∷◌, map, arith, get_or,
  get_or-set, replicate, length, length-set, count, if◌then◌else◌, Bool-cases, inl, inr,
}
use csed.Hash.{unlink, push_front}

-- How often an element is linked into the buckets, and how many are.
abbrev pub number : ℕ → List (List ℕ) → ℕ
number a [] = 0
number a (bucket ∷ buckets) = count a bucket + number a buckets

abbrev pub total : List (List ℕ) → ℕ
total [] = 0
total (bucket ∷ buckets) = length bucket + total buckets

pub number-push :
    (a e i : ℕ) (bs : List (List ℕ))
    → i < length bs
    → number a (push_front bs i e) ≡ (if e == a then 1 else 0) + number a bs
unfolding push_front
number-push a e i [] h = absurd (omega arith)
number-push a e zero (b ∷ bs) h = omega arith
number-push a e (suc i) (b ∷ bs) h = omega (arith, number-push a e i bs (omega arith))

pub total-push :
    (e i : ℕ) (bs : List (List ℕ)) → i < length bs → total (push_front bs i e) ≡ suc (total bs)
unfolding push_front
total-push e i [] h = absurd (omega arith)
total-push e zero (b ∷ bs) h = omega arith
total-push e (suc i) (b ∷ bs) h = omega (arith, total-push e i bs (omega arith))

pub length-push : (e i : ℕ) (bs : List (List ℕ)) → length (push_front bs i e) ≡ length bs
unfolding push_front
length-push e i bs = length-set bs i (e ∷ get_or bs i [])

pub get_or-push :
    (a e i j : ℕ) (bs : List (List ℕ))
    → i < length bs
    → count a (get_or (push_front bs i e) j [])
      ≡ (if i == j then (if e == a then 1 else 0) else 0) + count a (get_or bs j [])
unfolding push_front
get_or-push a e i j bs h =
    rw (get_or-set bs i j (e ∷ get_or bs i []) [] h)
      (elim (Bool-cases (i == j)) [ inl p ↦ rw (p) (same_place p) | inr p ↦ rw (p) (omega arith) ])
  where
    same_place :
        (i == j) ≡ true
        → (if e == a then 1 else 0) + count a (get_or bs i [])
          ≡ (if e == a then 1 else 0) + count a (get_or bs j [])
    same_place p = let q : i ≡ j = ground arith in rw (q) refl

-- list_remove
pub count-unlink :
    (a e : ℕ) (b : List ℕ) → count a (unlink e b) ≡ (if e == a then count a b - 1 else count a b)
unfolding unlink
count-unlink a e [] = ground arith
count-unlink a e (x ∷ b) = elim (Bool-cases (x == e)) [
  | inl p ↦ rw (p) (ground arith)
  | inr p ↦ rw (p) (ground (arith, count-unlink a e b))
]

pub length-unlink :
    (e : ℕ) (b : List ℕ) → count e b ≤ 1 → length (unlink e b) + count e b ≡ length b
unfolding unlink
length-unlink e [] h = refl
length-unlink e (x ∷ b) h = elim (Bool-cases (x == e)) [
  | inl p ↦ ground arith
  | inr p ↦ ground (arith, length-unlink e b)
]

pub length-map_unlink : (e : ℕ) (bs : List (List ℕ)) → length (map (unlink e) bs) ≡ length bs
length-map_unlink e [] = refl
length-map_unlink e (b ∷ bs) = omega (arith, length-map_unlink e bs)

pub number-unlink :
    (a e : ℕ) (bs : List (List ℕ))
    → number e bs ≤ 1
    → number a (map (unlink e) bs) ≡ (if e == a then 0 else number a bs)
number-unlink a e [] h = ground arith
number-unlink a e (b ∷ bs) h =
    ground (arith, count-unlink a e b, number-unlink a e bs (omega arith))

pub total-unlink :
    (e : ℕ) (bs : List (List ℕ))
    → number e bs ≤ 1
    → total (map (unlink e) bs) + number e bs ≡ total bs
total-unlink e [] h = refl
total-unlink e (b ∷ bs) h =
    omega (arith, length-unlink e b (omega arith), total-unlink e bs (omega arith))

pub get_or-unlink :
    (a e j : ℕ) (bs : List (List ℕ))
    → count a (get_or (map (unlink e) bs) j [])
      ≡ (if e == a then count a (get_or bs j []) - 1 else count a (get_or bs j []))
get_or-unlink a e j [] = ground arith
get_or-unlink a e zero (b ∷ bs) = count-unlink a e b
get_or-unlink a e (suc j) (b ∷ bs) = get_or-unlink a e j bs

-- An element in a bucket is in the buckets.
pub number-get_or : (a j : ℕ) (bs : List (List ℕ)) → count a (get_or bs j []) ≤ number a bs
number-get_or a j [] = omega arith
number-get_or a zero (b ∷ bs) = omega arith
number-get_or a (suc j) (b ∷ bs) = omega (arith, number-get_or a j bs)

-- Empty buckets.
pub number-replicate : (a n : ℕ) → number a (replicate n []) ≡ 0
number-replicate a zero = refl
number-replicate a (suc n) = omega (arith, number-replicate a n)

pub total-replicate : (n : ℕ) → total (replicate n []) ≡ 0
total-replicate zero = refl
total-replicate (suc n) = omega (arith, total-replicate n)

pub get_or-replicate : (a j n : ℕ) → count a (get_or (replicate n []) j []) ≡ 0
get_or-replicate a j zero = refl
get_or-replicate a zero (suc n) = refl
get_or-replicate a (suc j) (suc n) = get_or-replicate a j n
