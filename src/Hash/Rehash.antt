-- ===== src/Hash/Rehash.antt =====
-- rehash in src/lib/kernel/hash.c.
use csed.Common.{
  ℕ, ◌+◌, ◌*◌, ◌≤◌, ◌<◌, ◌≡◌, refl, Bool, true, false, ◌==◌, List, [], ◌∷◌, arith, get_or, length,
  count, replicate, length-replicate, if◌then◌else◌, Bool-cases, inl, inr, ap, sym, ◌∙◌, Option,
}
use csed.Hash.{
  Hash, HashFuncs, bucket_idx, hash_find, push_front, move_bucket, move_buckets, rehash,
  ideal_bucket_cnt,
}
use csed.Hash.Buckets.{
  number, total, number-push, total-push, length-push, get_or-push, number-replicate,
  total-replicate, get_or-replicate,
}
use csed.Hash.Power.{IsCount, ideal_bucket_cnt_lem, wanted}
use csed.Hash.Table.{
  IsKeyed, IsTable, bucket_idx_bound, hash_find_by, hash_find-Finds, Finds, found, missing,
}

-- `bs` is an array of `n` buckets with every element in its own.
pub record IsPlaced (f : HashFuncs) (n : ℕ) (bs : List (List ℕ)) : Type 0 where
  pub size : n ≡ length bs
  pub home : (a : ℕ) → number a bs ≡ count a (get_or bs (bucket_idx f n a) [])

module _ (f : HashFuncs) where
  pub push-IsPlaced :
      (n e : ℕ) (bs : List (List ℕ))
      → IsCount n
      → IsPlaced f n bs
      → IsPlaced f n (push_front bs (bucket_idx f n e) e)
  push-IsPlaced n e bs c p = record {
    size = omega (arith, p.size, length-push e (bucket_idx f n e) bs);
    home = λ a. elim (Bool-cases (e == a)) [
      | inl q ↦ ground (
        arith,
        number-push a e (bucket_idx f n e) bs (inside),
        get_or-push a e (bucket_idx f n e) (bucket_idx f n a) bs (inside),
        ap (bucket_idx f n) (let r : e ≡ a = ground arith in r),
        p.home a,
      )
      | inr q ↦ ground (
        arith,
        number-push a e (bucket_idx f n e) bs (inside),
        get_or-push a e (bucket_idx f n e) (bucket_idx f n a) bs (inside),
        p.home a,
      )
    ];
  }
    where
      inside : bucket_idx f n e < length bs
      inside = omega (arith, bucket_idx_bound f n e c, p.size)

  -- What the loops of rehash do to the new buckets.
  record Moved (n : ℕ) (old new out : List (List ℕ)) : Type 0 where
    here : IsPlaced f n out
    same_number : (a : ℕ) → number a out ≡ number a old + number a new
    same_total : total out ≡ total old + total new

  move_bucket-Moved :
      (n : ℕ) (bucket : List ℕ) (new : List (List ℕ))
      → IsCount n
      → IsPlaced f n new
      → Moved n (bucket ∷ []) new (move_bucket f n bucket new)
  unfolding move_bucket
  move_bucket-Moved n [] new c p = record {
    here = p;
    same_number = λ a. omega arith;
    same_total = omega arith;
  }
  move_bucket-Moved n (e ∷ bucket) new c p =
      let m =
        move_bucket-Moved n bucket (push_front new (bucket_idx f n e) e) c
          (push-IsPlaced n e new c p) in
      record {
        here = m.here;
        same_number =
            λ a. omega (arith, m.same_number a, number-push a e (bucket_idx f n e) new inside);
        same_total = omega (arith, m.same_total, total-push e (bucket_idx f n e) new inside);
      }
    where
      inside : bucket_idx f n e < length new
      inside = omega (arith, bucket_idx_bound f n e c, p.size)

  move_buckets-Moved :
      (n : ℕ) (old new : List (List ℕ))
      → IsCount n
      → IsPlaced f n new
      → Moved n old new (move_buckets f n old new)
  unfolding move_buckets
  move_buckets-Moved n [] new c p = record {
    here = p;
    same_number = λ a. omega arith;
    same_total = omega arith;
  }
  move_buckets-Moved n (bucket ∷ old) new c p =
      let m = move_bucket-Moved n bucket new c p in
      let rest = move_buckets-Moved n old (move_bucket f n bucket new) c m.here in
      record {
        here = rest.here;
        same_number = λ a. omega (arith, rest.same_number a, m.same_number a);
        same_total = omega (arith, rest.same_total, m.same_total);
      }

  Moved-all :
      (n : ℕ) (old : List (List ℕ))
      → IsCount n
      → Moved n old (replicate n []) (move_buckets f n old (replicate n []))
  Moved-all n old c = move_buckets-Moved n old (replicate n []) c (record {
    size = sym (length-replicate n []);
    home = λ a. number-replicate a n ∙ sym (get_or-replicate a (bucket_idx f n a) n);
  })

  -- A table whose elements are the same as those of another.
  pub record Kept (h h' : Hash) : Type 0 where
    pub table : IsTable f h'
    pub number : (a : ℕ) → number a h'.buckets ≡ number a h.buckets
    pub elem_cnt : h'.elem_cnt ≡ h.elem_cnt

  resized :
      (h : Hash)
      → IsTable f h
      → (n : ℕ) → IsCount n
      → Kept h (record h { bucket_cnt = n; buckets = move_buckets f n h.buckets (replicate n []) })
  resized h t n c = record {
    table = record {
      size = m.here.size;
      power = c;
      elems = omega (arith, t.elems, m.same_total, total-replicate n);
      bound = t.bound;
      once = λ a. omega (arith, same a, t.once a);
      placed = m.here.home;
      distinct = λ a b p q. t.distinct a b (omega (arith, same a)) (omega (arith, same b));
    };
    number = same;
    elem_cnt = refl;
  }
    where
      m : Moved n h.buckets (replicate n []) (move_buckets f n h.buckets (replicate n []))
      m = Moved-all n h.buckets c

      same : (a : ℕ) → number a (move_buckets f n h.buckets (replicate n [])) ≡ number a h.buckets
      same a = omega (arith, m.same_number a, number-replicate a n)

  unchanged : (h : Hash) → IsTable f h → Kept h h
  unchanged h t = record { table = t; number = λ a. refl; elem_cnt = refl }

  pub rehash-Kept : (memory : Bool) (h : Hash) → IsTable f h → Kept h (rehash f memory h)
  unfolding rehash
  rehash-Kept memory h t = elim (Bool-cases (ideal_bucket_cnt h.elem_cnt == h.bucket_cnt)) [
    | inl e ↦ simp (e) (unchanged h t)
    | inr e ↦ simp (e) (if_memory memory)
  ]
    where
      new : Hash
      new = record h {
        bucket_cnt = ideal_bucket_cnt h.elem_cnt;
        buckets =
            move_buckets f (ideal_bucket_cnt h.elem_cnt) h.buckets
              (replicate (ideal_bucket_cnt h.elem_cnt) []);
      }

      if_memory : (memory : Bool) → Kept h (if memory then new else h)
      if_memory true =
          resized h t (ideal_bucket_cnt h.elem_cnt) (ideal_bucket_cnt_lem h.elem_cnt t.bound).0
      if_memory false = unchanged h t

  Finds-same :
      (n m : ℕ → ℕ) (e : ℕ) (o : Option ℕ) → ((x : ℕ) → m x ≡ n x) → Finds f n e o → Finds f m e o
  Finds-same n m e _ g (found x p q) = found x (omega (arith, g x)) q
  Finds-same n m e _ g (missing p) = missing λ x q. p x (omega (arith, g x))

  chosen :
      (memory : Bool) (h : Hash)
      → memory ≡ true
      → (rehash f memory h).bucket_cnt ≡ ideal_bucket_cnt h.elem_cnt
  unfolding rehash
  chosen memory h e = elim (Bool-cases (ideal_bucket_cnt h.elem_cnt == h.bucket_cnt)) [
    | inl q ↦ rw (e, q) (ground arith)
    | inr q ↦ rw (e, q) refl
  ]

  -- rehash answers every search as before, whether or not there is memory, and keeps the table
  -- consistent; with memory it leaves a power of 2 of buckets, at least four, that is at most half
  -- the number of elements, or four, and more than half of that.
  pub rehash_lem :
      (memory : Bool) (h : Hash)
      → IsKeyed f
      → IsTable f h
      → ((e : ℕ) → hash_find f (rehash f memory h) e ≡ hash_find f h e)
        × IsTable f (rehash f memory h)
        × (memory ≡ true
            → ((rehash f memory h).bucket_cnt ≤ wanted h.elem_cnt)
              × (wanted h.elem_cnt < 2 * (rehash f memory h).bucket_cnt))
  rehash_lem memory h k t =
      let kept = rehash-Kept memory h t in
      (
        (λ e. hash_find_by f (rehash f memory h) e (hash_find f h e) k kept.table (
            Finds-same (λ x. number x h.buckets) (λ x. number x (rehash f memory h).buckets) e
              (hash_find f h e) kept.number (hash_find-Finds f h e k t))),
        kept.table,
        λ e.
            let (a, b, c) = ideal_bucket_cnt_lem h.elem_cnt t.bound in
            let s = chosen memory h e in (omega (arith, s, b), omega (arith, s, c)),
      )
