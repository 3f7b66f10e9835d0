-- ===== src/Hash/Visit.antt =====
-- The ways to visit each element in src/lib/kernel/hash.c: iterators, hash_apply, hash_clear.
use csed.Common.{
  ℕ, zero, suc, ◌+◌, ◌-◌, ◌≤◌, ◌<◌, ◌≡◌, refl, true, false, ◌==◌, ltb, List, [], ◌∷◌, ◌++◌, none,
  some, arith, get_or, get_elem?, length, count, count-append, Bool-cases, inl, inr, ap, sym, ◌∙◌,
  length-append, subst,
}
use csed.Hash.{Hash, HashFuncs, each_elem, hash_apply}
use csed.Hash.Iterator.{HashIterator, hash_first, hash_cur, next_bucket, hash_next, iterate}
use csed.Hash.Buckets.{number, total}
use csed.Hash.Table.{IsTable}

abbrev pub drop : ℕ → List ℕ → List ℕ
drop zero xs = xs
drop (suc n) [] = []
drop (suc n) (x ∷ xs) = drop n xs

-- All elements, bucket after bucket.
abbrev pub flatten : List (List ℕ) → List ℕ
flatten [] = []
flatten (b ∷ bs) = b ++ flatten bs

-- The elements behind the first `p` of bucket `i`.
abbrev rest_of : List (List ℕ) → ℕ → ℕ → List ℕ
rest_of [] i p = []
rest_of (b ∷ bs) zero p = drop p b ++ flatten bs
rest_of (b ∷ bs) (suc i) p = rest_of bs i p

drop_all : (b : List ℕ) → drop (length b) b ≡ []
drop_all [] = refl
drop_all (x ∷ b) = drop_all b

rest_all : (bs : List (List ℕ)) → rest_of bs 0 0 ≡ flatten bs
rest_all [] = refl
rest_all (b ∷ bs) = refl

rest_next :
    (bs : List (List ℕ)) (i p : ℕ)
    → p ≡ length (get_or bs i [])
    → rest_of bs i p ≡ rest_of bs (suc i) 0
rest_next [] i p h = refl
rest_next (b ∷ bs) zero p h = rw (h, drop_all b) (sym (rest_all bs))
rest_next (b ∷ bs) (suc i) p h = rest_next bs i p h

rest_out : (bs : List (List ℕ)) (i p : ℕ) → length bs ≤ i → rest_of bs i p ≡ []
rest_out [] i p h = refl
rest_out (b ∷ bs) zero p h = absurd (omega arith)
rest_out (b ∷ bs) (suc i) p h = rest_out bs i p (omega arith)

drop_step :
    (b : List ℕ) (p : ℕ)
    → p < length b
    → (e : ℕ) × (get_elem? b p ≡ some e) × (drop p b ≡ e ∷ drop (suc p) b)
drop_step [] p h = absurd (omega arith)
drop_step (x ∷ b) zero h = (x, refl, refl)
drop_step (x ∷ b) (suc p) h = drop_step b p (omega arith)

rest_step :
    (bs : List (List ℕ)) (i p : ℕ)
    → p < length (get_or bs i [])
    → (e : ℕ) × (get_elem? (get_or bs i []) p ≡ some e)
      × (rest_of bs i p ≡ e ∷ rest_of bs i (suc p))
rest_step [] i p h = absurd (omega arith)
rest_step (b ∷ bs) zero p h = let (e, g, d) = drop_step b p h in (e, g, ap (λ v. v ++ flatten bs) d)
rest_step (b ∷ bs) (suc i) p h = rest_step bs i p h

-- Where hash_next ends, if `es` are still to come.
data Ends (h : Hash) (i : HashIterator) : List ℕ → Type 0 where
  over : i.elem ≡ none → Ends h i []
  at :
      (e p : ℕ) (es : List ℕ)
      → i.elem ≡ some (suc p)
      → hash_cur h i ≡ some e
      → p < length (get_or h.buckets i.bucket [])
      → i.bucket < h.bucket_cnt
      → rest_of h.buckets i.bucket (suc p) ≡ es
      → Ends h i (e ∷ es)

next-turn :
    (h : Hash) (rounds bucket place : ℕ)
    → (place == suc (length (get_or h.buckets bucket []))) ≡ true
    → ltb (suc bucket) h.bucket_cnt ≡ true
    → next_bucket h (suc rounds) bucket place ≡ next_bucket h rounds (suc bucket) 1
unfolding next_bucket
next-turn h rounds bucket place e m = rw (e, m, next_bucket) refl

next-end :
    (h : Hash) (rounds bucket place : ℕ)
    → (place == suc (length (get_or h.buckets bucket []))) ≡ true
    → ltb (suc bucket) h.bucket_cnt ≡ false
    → next_bucket h (suc rounds) bucket place ≡ record { bucket = suc bucket; elem = none }
unfolding next_bucket
next-end h rounds bucket place e m = rw (e, m, next_bucket) refl

next-stay :
    (h : Hash) (rounds bucket place : ℕ)
    → (place == suc (length (get_or h.buckets bucket []))) ≡ false
    → next_bucket h (suc rounds) bucket place ≡ record { bucket = bucket; elem = some place }
unfolding next_bucket
next-stay h rounds bucket place e = rw (e, next_bucket) refl

next_bucket-Ends :
    (h : Hash) (rounds bucket p : ℕ)
    → h.bucket_cnt ≡ length h.buckets
    → rounds + bucket ≡ h.bucket_cnt
    → 1 ≤ rounds
    → p ≤ length (get_or h.buckets bucket [])
    → Ends h (next_bucket h rounds bucket (suc p)) (rest_of h.buckets bucket p)
unfolding next_bucket hash_cur
next_bucket-Ends h zero bucket p s r l b = absurd (omega arith)
next_bucket-Ends h (suc rounds) bucket p s r l b =
    elim (Bool-cases (suc p == suc (length (get_or h.buckets bucket [])))) [
      | inl e ↦
          let d = rest_next h.buckets bucket p (ground arith) in
          elim (Bool-cases (ltb (suc bucket) h.bucket_cnt)) [
            | inl m ↦
                rw (next-turn h rounds bucket (suc p) e m, d)
                  (next_bucket-Ends h rounds (suc bucket) 0 s (omega arith) (ground arith)
                    (omega arith))
            | inr m ↦
                rw
                  (
                    next-end h rounds bucket (suc p) e m,
                    d,
                    rest_out h.buckets (suc bucket) 0 (ground arith),
                  )
                  (over refl)
          ]
      | inr e ↦
          let (x, g, d) = rest_step h.buckets bucket p (ground arith) in
          rw (next-stay h rounds bucket (suc p) e, d)
            (at x p (rest_of h.buckets bucket (suc p)) refl g (ground arith) (omega arith) refl)
    ]

-- An iterator with `es` still to come.
record Before (h : Hash) (i : HashIterator) (es : List ℕ) : Type 0 where
  place : ℕ
  on : i.elem ≡ some place
  inside : place ≤ length (get_or h.buckets i.bucket [])
  bucket : i.bucket < h.bucket_cnt
  rest : rest_of h.buckets i.bucket place ≡ es

next_eq :
    (h : Hash) (i : HashIterator) (place : ℕ)
    → i.elem ≡ some place
    → let i' = next_bucket h (h.bucket_cnt - i.bucket) i.bucket (suc place) in
      hash_next h i ≡ some (hash_cur h i', i')
unfolding hash_next
next_eq h i place e = rw (e) refl

cur_over : (h : Hash) (i : HashIterator) → i.elem ≡ none → hash_cur h i ≡ none
unfolding hash_cur
cur_over h i e = rw (e) refl

iterate_step :
    (h : Hash) (rounds : ℕ) (i i' : HashIterator) (e : ℕ) (es : List ℕ)
    → hash_next h i ≡ some (some e, i')
    → iterate h rounds i' ≡ some es
    → iterate h (suc rounds) i ≡ some (e ∷ es)
unfolding iterate
iterate_step h rounds i i' e es n r = rw (n, r, iterate) refl

iterate_end :
    (h : Hash) (rounds : ℕ) (i i' : HashIterator)
    → hash_next h i ≡ some (none, i')
    → iterate h (suc rounds) i ≡ some []
unfolding iterate
iterate_end h rounds i i' n = rw (n, iterate) refl

iterate-Before :
    (h : Hash) (rounds : ℕ) (i : HashIterator) (es : List ℕ)
    → h.bucket_cnt ≡ length h.buckets
    → Before h i es
    → length es < rounds
    → iterate h rounds i ≡ some es
iterate-Before h zero i es s b r = absurd (omega arith)
iterate-Before h (suc rounds) i es s b r =
    go (next_bucket h (h.bucket_cnt - i.bucket) i.bucket (suc b.place)) es r
      (next_eq h i b.place b.on)
      (subst (Ends h (next_bucket h (h.bucket_cnt - i.bucket) i.bucket (suc b.place))) b.rest (
        next_bucket-Ends h (h.bucket_cnt - i.bucket) i.bucket b.place s (omega (arith, b.bucket))
          (omega (arith, b.bucket)) b.inside))
      (λ i' es b. iterate-Before h rounds i' es s b)
  where
    go :
        (i' : HashIterator) (es : List ℕ)
        → length es < suc rounds
        → hash_next h i ≡ some (hash_cur h i', i')
        → Ends h i' es
        → ((i' : HashIterator) (es : List ℕ)
            → Before h i' es
            → length es < rounds
            → iterate h rounds i' ≡ some es)
        → iterate h (suc rounds) i ≡ some es
    go i' _ r n (over o) f =
        iterate_end h rounds i i' (n ∙ ap (λ v. some (v, i')) (cur_over h i' o))
    go i' _ r n (at e p es o c l m d) f =
        iterate_step h rounds i i' e es (n ∙ ap (λ v. some (v, i')) c) (
          f i' es (record { place = suc p; on = o; inside = omega arith; bucket = m; rest = d })
            (omega arith))

first-Before :
    (h : Hash)
    → h.bucket_cnt ≡ length h.buckets
    → 1 ≤ h.bucket_cnt
    → Before h hash_first (flatten h.buckets)
unfolding hash_first
first-Before h s c = record {
  place = 0;
  on = refl;
  inside = omega arith;
  bucket = c;
  rest = rest_all h.buckets;
}

length-flatten : (bs : List (List ℕ)) → length (flatten bs) ≡ total bs
length-flatten [] = refl
length-flatten (b ∷ bs) = omega (arith, length-append b (flatten bs), length-flatten bs)

count-flatten : (a : ℕ) (bs : List (List ℕ)) → count a (flatten bs) ≡ number a bs
count-flatten a [] = refl
count-flatten a (b ∷ bs) = omega (arith, count-append a b (flatten bs), count-flatten a bs)

module _ {ℓ} {S : Type ℓ} (action : ℕ → S → S) where
  each-append :
      (xs ys : List ℕ) (s : S)
      → each_elem action (xs ++ ys) s ≡ each_elem action ys (each_elem action xs s)
  unfolding each_elem
  each-append [] ys s = refl
  each-append (x ∷ xs) ys s = each-append xs ys (action x s)

  apply-flatten :
      (bs : List (List ℕ)) (s : S) → hash_apply action bs s ≡ each_elem action (flatten bs) s
  unfolding hash_apply each_elem
  apply-flatten [] s = refl
  apply-flatten (b ∷ bs) s =
      apply-flatten bs (each_elem action b s) ∙ sym (each-append b (flatten bs) s)

  -- The iteration idiom over hash_first, hash_next and hash_cur ends, and visits each element as
  -- often as it is in the table: once. hash_apply does the same as applying the action in the body
  -- of the idiom.
  pub hash_apply_lem :
      (f : HashFuncs) (h : Hash)
      → IsTable f h
      → (es : List ℕ) × (iterate h (suc h.elem_cnt) hash_first ≡ some es)
        × ((a : ℕ) → (count a es ≡ number a h.buckets) × (count a es ≤ 1))
        × ((s : S) → hash_apply action h.buckets s ≡ each_elem action es s)
  hash_apply_lem f h t =
      let (k, p, small, four) = t.power in
      (
        flatten h.buckets,
        iterate-Before h (suc h.elem_cnt) hash_first (flatten h.buckets) t.size
            (first-Before h t.size (omega (arith, four)))
            (omega (arith, length-flatten h.buckets, t.elems)),
        (λ a. (count-flatten a h.buckets, omega (arith, count-flatten a h.buckets, t.once a))),
        λ s. apply-flatten h.buckets s,
      )
