-- ===== src/Hash/Map.antt =====
-- hash_insert, hash_replace and hash_delete in src/lib/kernel/hash.c against a finite map.
use csed.Common.{
  ℕ, ◌+◌, ◌-◌, ◌^◌, ◌≤◌, ◌<◌, ◌≡◌, refl, Bool, true, false, [], none, some, arith, get_or,
  if◌then◌else◌, Bool-cases, inl, inr, ap, ◌∙◌, Option, Option-cases, subst,
}
use csed.Hash.{
  Hash, HashFuncs, equal, bucket_idx, hash_find, rehash, insert_elem, remove_elem, hash_insert,
  hash_replace, hash_delete, find_elem,
}
use csed.Hash.Buckets.{number}
use csed.Hash.Table.{
  IsKeyed, IsTable, hash_find_by, hash_find-Finds, Finds, found, missing, equal_sym, equal_self,
}
use csed.Hash.Rehash.{rehash_lem, rehash-Kept}
use csed.Hash.Lookup.{Finds-add, Finds-drop, added, removed}

-- The first answer, or the second if there is none.
abbrev pub or_else : Option ℕ → Option ℕ → Option ℕ
or_else none o = o
or_else (some x) o = some x

module _ (f : HashFuncs) (k : IsKeyed f) where
  -- A table, what it answers, and how many elements it has.
  pub record Answers (h : Hash) (answer : ℕ → Option ℕ) (elem_cnt : ℕ) : Type 0 where
    pub table : IsTable f h
    pub find : (q : ℕ) → hash_find f h q ≡ answer q
    pub count : h.elem_cnt ≡ elem_cnt

  rehash-Answers :
      (memory : Bool) (h : Hash) (answer : ℕ → Option ℕ) (elem_cnt : ℕ)
      → Answers h answer elem_cnt
      → Answers (rehash f memory h) answer elem_cnt
  rehash-Answers memory h answer elem_cnt a =
      let (find, table, sized) = rehash_lem f memory h k a.table in
      record {
        table = table;
        find = λ q. find q ∙ a.find q;
        count = (rehash-Kept f memory h a.table).elem_cnt ∙ a.count;
      }

  insert-Answers :
      (h : Hash) (e : ℕ)
      → IsTable f h
      → h.elem_cnt + 1 < 2 ^ 32
      → ((x : ℕ) → 1 ≤ number x h.buckets → equal f x e ≡ false)
      → Answers
          (insert_elem h (bucket_idx f h.bucket_cnt e) e)
          (λ q. if equal f e q then some e else hash_find f h q)
          (h.elem_cnt + 1)
  insert-Answers h e t b new =
      let h' = insert_elem h (bucket_idx f h.bucket_cnt e) e in
      let (table, numbers, size) = added f h e k t b new in
      record {
        table = table;
        find = λ q. hash_find_by f h' q (if equal f e q then some e else hash_find f h q) k table (
            Finds-add f (λ x. number x h.buckets) (λ x. number x h'.buckets) e k numbers q
              (hash_find f h q) (hash_find-Finds f h q k t));
        count = size;
      }

  remove-Answers :
      (h : Hash) (e y : ℕ)
      → IsTable f h
      → 1 ≤ number y h.buckets
      → equal f y e ≡ true
      → Answers
          (remove_elem h y)
          (λ q. if equal f e q then none else hash_find f h q)
          (h.elem_cnt - 1)
  remove-Answers h e y t m r =
      let h' = remove_elem h y in
      let (table, numbers, size) = removed f h y t m in
      record {
        table = table;
        find = λ q. hash_find_by f h' q (if equal f e q then none else hash_find f h q) k table (
            Finds-drop f (λ x. number x h.buckets) (λ x. number x h'.buckets) e y k t.distinct m r
              numbers q (hash_find f h q) (hash_find-Finds f h q k t));
        count = omega (arith, size);
      }

  -- What an answer says.
  Finds-some : (n : ℕ → ℕ) (e y : ℕ) → Finds f n e (some y) → (1 ≤ n y) × (equal f y e ≡ true)
  Finds-some n e _ (found y a b) = (a, b)

  Finds-none : (n : ℕ → ℕ) (e : ℕ) → Finds f n e none → (x : ℕ) → 1 ≤ n x → equal f x e ≡ false
  Finds-none n e (missing g) = g

  found_in :
      (h : Hash) (e y : ℕ)
      → IsTable f h
      → hash_find f h e ≡ some y
      → (1 ≤ number y h.buckets) × (equal f y e ≡ true)
  found_in h e y t g =
      Finds-some (λ x. number x h.buckets) e y
        (subst (Finds f (λ x. number x h.buckets) e) g (hash_find-Finds f h e k t))

  missing_in :
      (h : Hash) (e : ℕ)
      → IsTable f h
      → hash_find f h e ≡ none
      → (x : ℕ) → 1 ≤ number x h.buckets
      → equal f x e ≡ false
  missing_in h e t g =
      Finds-none (λ x. number x h.buckets) e
        (subst (Finds f (λ x. number x h.buckets) e) g (hash_find-Finds f h e k t))

  -- An element that is not there is not the answer to any search that it would answer.
  not_found :
      (h : Hash) (e q : ℕ)
      → IsTable f h
      → hash_find f h e ≡ none
      → equal f e q ≡ true
      → hash_find f h q ≡ none
  not_found h e q t g r = hash_find_by f h q none k t (
      missing λ x m. elim (Bool-cases (equal f x q)) [
        | inl s ↦ absurd (cc (missing_in h e t g x m, k.equal_trans x q e s (equal_sym f q e ∙ r)))
        | inr s ↦ s
      ])

  inserted_answer :
      (h : Hash) (e q : ℕ)
      → IsTable f h
      → hash_find f h e ≡ none
      → (if equal f e q then some e else hash_find f h q)
        ≡ or_else (hash_find f h q) (if equal f e q then some e else none)
  inserted_answer h e q t g = elim (Bool-cases (equal f e q)) [
    | inl r ↦ simp (r, not_found h e q t g r) refl
    | inr r ↦ simp (r) (or_none (hash_find f h q))
  ]
    where
      or_none : (o : Option ℕ) → o ≡ or_else o none
      or_none none = refl
      or_none (some x) = refl

  kept_answer :
      (h : Hash) (e q y : ℕ)
      → IsTable f h
      → hash_find f h e ≡ some y
      → hash_find f h q ≡ or_else (hash_find f h q) (if equal f e q then some e else none)
  kept_answer h e q y t g = elim (Option-cases (hash_find f h q)) [
    | inr (z, o) ↦ rw (o) refl
    | inl o ↦ elim (Bool-cases (equal f e q)) [
      | inr r ↦ simp (o, r) refl
      | inl r ↦
          let (m, s) = found_in h e y t g in
          absurd (cc (missing_in h q t o y m, k.equal_trans y e q s r))
    ]
  ]

  -- The branches of the three functions.
  insert-none :
      (memory : Bool) (h : Hash) (e : ℕ)
      → hash_find f h e ≡ none
      → hash_insert f memory h e
        ≡ (none, rehash f memory (insert_elem h (bucket_idx f h.bucket_cnt e) e))
  unfolding hash_insert hash_find
  insert-none memory h e o =
      let p : find_elem f (get_or h.buckets (bucket_idx f h.bucket_cnt e) []) e ≡ none = o in
      rw (p, hash_insert) refl

  insert-some :
      (memory : Bool) (h : Hash) (e : ℕ) (y : ℕ)
      → hash_find f h e ≡ some y
      → hash_insert f memory h e ≡ (some y, rehash f memory h)
  unfolding hash_insert hash_find
  insert-some memory h e y o =
      let p : find_elem f (get_or h.buckets (bucket_idx f h.bucket_cnt e) []) e ≡ some y = o in
      rw (p, hash_insert) refl

  replace-none :
      (memory : Bool) (h : Hash) (e : ℕ)
      → hash_find f h e ≡ none
      → hash_replace f memory h e
        ≡ (none, rehash f memory (insert_elem h (bucket_idx f h.bucket_cnt e) e))
  unfolding hash_replace hash_find
  replace-none memory h e o =
      let p : find_elem f (get_or h.buckets (bucket_idx f h.bucket_cnt e) []) e ≡ none = o in
      rw (p, hash_replace) refl

  replace-some :
      (memory : Bool) (h : Hash) (e : ℕ) (y : ℕ)
      → hash_find f h e ≡ some y
      → hash_replace f memory h e
        ≡ (some y, rehash f memory (insert_elem (remove_elem h y) (bucket_idx f h.bucket_cnt e) e))
  unfolding hash_replace hash_find
  replace-some memory h e y o =
      let p : find_elem f (get_or h.buckets (bucket_idx f h.bucket_cnt e) []) e ≡ some y = o in
      rw (p, hash_replace) refl

  delete-none :
      (memory : Bool) (h : Hash) (e : ℕ)
      → hash_find f h e ≡ none
      → hash_delete f memory h e ≡ (none, h)
  unfolding hash_delete hash_find
  delete-none memory h e o =
      let p : find_elem f (get_or h.buckets (bucket_idx f h.bucket_cnt e) []) e ≡ none = o in
      rw (p, hash_delete) refl

  delete-some :
      (memory : Bool) (h : Hash) (e : ℕ) (y : ℕ)
      → hash_find f h e ≡ some y
      → hash_delete f memory h e ≡ (some y, rehash f memory (remove_elem h y))
  unfolding hash_delete hash_find
  delete-some memory h e y o =
      let p : find_elem f (get_or h.buckets (bucket_idx f h.bucket_cnt e) []) e ≡ some y = o in
      rw (p, hash_delete) refl

  -- hash_insert answers the element equal to the new one, as hash_find does. It adds the new element
  -- if there is none, and changes no other answer; the table stays consistent. A counter of 32 bits
  -- has room.
  pub hash_insert_lem :
      (memory : Bool) (h : Hash) (e : ℕ)
      → IsTable f h
      → h.elem_cnt + 1 < 2 ^ 32
      → ((hash_insert f memory h e).0 ≡ hash_find f h e)
        × Answers
            (hash_insert f memory h e).1
            (λ q. or_else (hash_find f h q) (if equal f e q then some e else none))
            (elim (hash_find f h e) [ none ↦ h.elem_cnt + 1 | some x ↦ h.elem_cnt ])
  hash_insert_lem memory h e t b = elim (Option-cases (hash_find f h e)) [
    | inl o ↦
        let a = insert-Answers h e t b (missing_in h e t o) in
        rw (insert-none memory h e o, o)
          (
            refl,
            rehash-Answers memory (insert_elem h (bucket_idx f h.bucket_cnt e) e)
                (λ q. or_else (hash_find f h q) (if equal f e q then some e else none))
                (h.elem_cnt + 1)
                (record {
                  table = a.table;
                  find = λ q. a.find q ∙ inserted_answer h e q t o;
                  count = a.count;
                }),
          )
    | inr (y, o) ↦
        rw (insert-some memory h e y o, o)
          (
            refl,
            rehash-Answers memory h
                (λ q. or_else (hash_find f h q) (if equal f e q then some e else none)) h.elem_cnt
                (record { table = t; find = λ q. kept_answer h e q y t o; count = refl }),
          )
  ]

  -- hash_delete answers the element equal to the one given, as hash_find does, and takes it out;
  -- afterwards no element that equals it is found, and every other search answers as before. The
  -- table stays consistent.
  pub hash_delete_lem :
      (memory : Bool) (h : Hash) (e : ℕ)
      → IsTable f h
      → ((hash_delete f memory h e).0 ≡ hash_find f h e)
        × Answers
            (hash_delete f memory h e).1
            (λ q. if equal f e q then none else hash_find f h q)
            (elim (hash_find f h e) [ none ↦ h.elem_cnt | some x ↦ h.elem_cnt - 1 ])
  hash_delete_lem memory h e t = elim (Option-cases (hash_find f h e)) [
    | inl o ↦
        rw (delete-none memory h e o, o)
          (
            refl,
            record {
              table = t;
              find = λ q. elim (Bool-cases (equal f e q)) [
                | inl r ↦ simp (r) (not_found h e q t o r)
                | inr r ↦ simp (r) refl
              ];
              count = refl;
            },
          )
    | inr (y, o) ↦
        let (m, s) = found_in h e y t o in
        rw (delete-some memory h e y o, o)
          (
            refl,
            rehash-Answers memory (remove_elem h y)
                (λ q. if equal f e q then none else hash_find f h q) (h.elem_cnt - 1)
                (remove-Answers h e y t m s),
          )
  ]

  replaced :
      (h : Hash) (e y : ℕ)
      → IsTable f h
      → hash_find f h e ≡ some y
      → Answers
          (insert_elem (remove_elem h y) (bucket_idx f h.bucket_cnt e) e)
          (λ q. if equal f e q then some e else hash_find f h q)
          h.elem_cnt
  unfolding remove_elem
  replaced h e y t o =
      let (m, s) = found_in h e y t o in
      let a = remove-Answers h e y t m s in
      let g : hash_find f (remove_elem h y) e ≡ none =
        a.find e ∙ gone e (hash_find f h e) (equal_self f k e) in
      let (table, numbers, size) = removed f h y t m in
      let b =
        insert-Answers (remove_elem h y) e a.table (omega (arith, size, t.bound))
          (missing_in (remove_elem h y) e a.table g) in
      record {
        table = b.table;
        find = λ q. b.find q ∙ ap (λ v. if equal f e q then some e else v) (a.find q) ∙ twice q;
        count = omega (arith, b.count, size);
      }
    where
      gone : (q : ℕ) (o : Option ℕ) → equal f e q ≡ true → (if equal f e q then none else o) ≡ none
      gone q o r = rw (r) refl

      twice :
          (q : ℕ)
          → (if equal f e q then some e else if equal f e q then none else hash_find f h q)
            ≡ (if equal f e q then some e else hash_find f h q)
      twice q = elim (Bool-cases (equal f e q)) [ inl r ↦ simp (r) refl | inr r ↦ simp (r) refl ]

  -- hash_replace answers the element that it replaces, as hash_find does; afterwards every search
  -- for an element equal to the new one answers the new one, and every other search answers as
  -- before. The table stays consistent. A counter of 32 bits has room.
  pub hash_replace_lem :
      (memory : Bool) (h : Hash) (e : ℕ)
      → IsTable f h
      → h.elem_cnt + 1 < 2 ^ 32
      → ((hash_replace f memory h e).0 ≡ hash_find f h e)
        × Answers
            (hash_replace f memory h e).1
            (λ q. if equal f e q then some e else hash_find f h q)
            (elim (hash_find f h e) [ none ↦ h.elem_cnt + 1 | some x ↦ h.elem_cnt ])
  hash_replace_lem memory h e t b = elim (Option-cases (hash_find f h e)) [
    | inl o ↦
        rw (replace-none memory h e o, o)
          (
            refl,
            rehash-Answers memory (insert_elem h (bucket_idx f h.bucket_cnt e) e)
                (λ q. if equal f e q then some e else hash_find f h q) (h.elem_cnt + 1)
                (insert-Answers h e t b (missing_in h e t o)),
          )
    | inr (y, o) ↦
        rw (replace-some memory h e y o, o)
          (
            refl,
            rehash-Answers memory (insert_elem (remove_elem h y) (bucket_idx f h.bucket_cnt e) e)
                (λ q. if equal f e q then some e else hash_find f h q) h.elem_cnt
                (replaced h e y t o),
          )
  ]

  -- A hash table is a finite map by equal elements: hash_insert, hash_replace and hash_delete answer
  -- what hash_find answers, and afterwards hash_find answers, for every element, as a map does after
  -- an insertion that keeps what is there, after a replacement, and after a removal; the counter is
  -- the number of elements, and the table stays consistent. Memory for more buckets may be there or
  -- not, and the counter of 32 bits has room.
  pub hash_operations :
      (memory : Bool) (h : Hash) (e : ℕ)
      → IsTable f h
      → h.elem_cnt + 1 < 2 ^ 32
      → (((hash_insert f memory h e).0 ≡ hash_find f h e)
          × Answers
              (hash_insert f memory h e).1
              (λ q. or_else (hash_find f h q) (if equal f e q then some e else none))
              (elim (hash_find f h e) [ none ↦ h.elem_cnt + 1 | some x ↦ h.elem_cnt ]))
        × (((hash_replace f memory h e).0 ≡ hash_find f h e)
            × Answers
                (hash_replace f memory h e).1
                (λ q. if equal f e q then some e else hash_find f h q)
                (elim (hash_find f h e) [ none ↦ h.elem_cnt + 1 | some x ↦ h.elem_cnt ]))
        × (((hash_delete f memory h e).0 ≡ hash_find f h e)
            × Answers
                (hash_delete f memory h e).1
                (λ q. if equal f e q then none else hash_find f h q)
                (elim (hash_find f h e) [ none ↦ h.elem_cnt | some x ↦ h.elem_cnt - 1 ]))
  hash_operations memory h e t b = (
    hash_insert_lem memory h e t b,
    hash_replace_lem memory h e t b,
    hash_delete_lem memory h e t,
  )
