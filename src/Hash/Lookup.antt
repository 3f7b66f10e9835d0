-- ===== src/Hash/Lookup.antt =====
-- hash_insert, hash_replace and hash_delete in src/lib/kernel/hash.c, as changes of what hash_find
-- answers.
use csed.Common.{
  ℕ, ◌+◌, ◌^◌, ◌≤◌, ◌<◌, ◌≡◌, true, false, ◌==◌, none, some, arith, length, if◌then◌else◌,
  Bool-cases, inl, inr, sym, ◌∙◌, Option, map, subst,
}
use csed.Hash.{Hash, HashFuncs, equal, bucket_idx, push_front, unlink, insert_elem, remove_elem}
use csed.Hash.Buckets.{
  number, number-push, total-push, number-unlink, total-unlink, get_or-unlink, length-map_unlink,
}
use csed.Hash.Table.{
  IsKeyed, IsTable, bucket_idx_bound, Finds, found, missing, equal_sym, equal_self,
}
use csed.Hash.Rehash.{IsPlaced, push-IsPlaced}

module _ (f : HashFuncs) where
  -- How the answers change when an element that no other equals is added, and when one is taken away.
  pub Finds-add :
      (n m : ℕ → ℕ) (e : ℕ)
      → IsKeyed f
      → ((x : ℕ) → m x ≡ (if e == x then 1 else 0) + n x)
      → (q : ℕ) (o : Option ℕ) → Finds f n q o
      → Finds f m q (if equal f e q then some e else o)
  Finds-add n m e k g q o p = elim (Bool-cases (equal f e q)) [
    | inl r ↦ simp (r) (found e (ground (arith, g e)) r)
    | inr r ↦ simp (r) (other r o p)
  ]
    where
      other : equal f e q ≡ false → (o : Option ℕ) → Finds f n q o → Finds f m q o
      other r _ (found x a b) = found x (omega (arith, g x)) b
      other r _ (missing a) = missing λ x b. elim (Bool-cases (e == x)) [
        | inl s ↦ let t : e ≡ x = ground arith in subst (λ v. equal f v q ≡ false) t r
        | inr s ↦ a x (ground (arith, g x))
      ]

  pub Finds-drop :
      (n m : ℕ → ℕ) (e y : ℕ)
      → IsKeyed f
      → ((a b : ℕ) → 1 ≤ n a → 1 ≤ n b → equal f a b ≡ true → a ≡ b)
      → 1 ≤ n y
      → equal f y e ≡ true
      → ((x : ℕ) → m x ≡ (if y == x then 0 else n x))
      → (q : ℕ) (o : Option ℕ) → Finds f n q o
      → Finds f m q (if equal f e q then none else o)
  Finds-drop n m e y k distinct h ye g q o p = elim (Bool-cases (equal f e q)) [
    | inl r ↦ simp (r) (
        missing λ x a. elim (Bool-cases (equal f x q)) [
          | inl s ↦
              let t : y ≡ x =
                distinct y x h (ground (arith, g x))
                  (k.equal_trans y e x ye (k.equal_trans e q x r (equal_sym f q x ∙ s))) in
              absurd (ground (arith, g x, t))
          | inr s ↦ s
        ])
    | inr r ↦ simp (r) (other r o p)
  ]
    where
      other : equal f e q ≡ false → (o : Option ℕ) → Finds f n q o → Finds f m q o
      other r _ (found x a b) = elim (Bool-cases (y == x)) [
        | inl s ↦
            let t : y ≡ x = ground arith in
            absurd (
              cc (
                r,
                k.equal_trans e y q (equal_sym f e y ∙ ye)
                    (subst (λ v. equal f v q ≡ true) (sym t) b),
              ))
        | inr s ↦ found x (ground (arith, g x)) b
      ]
      other r _ (missing a) = missing λ x b. a x (ground (arith, g x))

  -- insert_elem and remove_elem.
  pub added :
      (h : Hash) (e : ℕ)
      → IsKeyed f
      → IsTable f h
      → h.elem_cnt + 1 < 2 ^ 32
      → ((x : ℕ) → 1 ≤ number x h.buckets → equal f x e ≡ false)
      → let h' = insert_elem h (bucket_idx f h.bucket_cnt e) e in
        IsTable f h'
        × ((x : ℕ) → number x h'.buckets ≡ (if e == x then 1 else 0) + number x h.buckets)
        × (h'.elem_cnt ≡ h.elem_cnt + 1)
  unfolding insert_elem
  added h e k t b new = (
    record {
      size = placed.size;
      power = t.power;
      elems = omega (arith, t.elems, total-push e (bucket_idx f h.bucket_cnt e) h.buckets inside);
      bound = omega arith;
      once = λ a. elim (Bool-cases (e == a)) [
        | inl s ↦ let p : e ≡ a = ground arith in ground (arith, numbers a, not_there, p)
        | inr s ↦ ground (arith, numbers a, t.once a)
      ];
      placed = placed.home;
      distinct = apart;
    },
    numbers,
    omega arith,
  )
    where
      inside : bucket_idx f h.bucket_cnt e < length h.buckets
      inside = omega (arith, bucket_idx_bound f h.bucket_cnt e t.power, t.size)

      placed : IsPlaced f h.bucket_cnt (push_front h.buckets (bucket_idx f h.bucket_cnt e) e)
      placed =
          push-IsPlaced f h.bucket_cnt e h.buckets t.power
            (record { size = t.size; home = t.placed })

      numbers :
          (a : ℕ)
          → number a (push_front h.buckets (bucket_idx f h.bucket_cnt e) e)
            ≡ (if e == a then 1 else 0) + number a h.buckets
      numbers a = number-push a e (bucket_idx f h.bucket_cnt e) h.buckets inside

      not_there : number e h.buckets ≡ 0
      not_there = elim (Bool-cases (number e h.buckets == 0)) [
        | inl s ↦ ground arith
        | inr s ↦ absurd (cc (new e (ground arith), equal_self f k e))
      ]

      apart :
          (x y : ℕ)
          → 1 ≤ number x (push_front h.buckets (bucket_idx f h.bucket_cnt e) e)
          → 1 ≤ number y (push_front h.buckets (bucket_idx f h.bucket_cnt e) e)
          → equal f x y ≡ true
          → x ≡ y
      apart x y p q s = elim (Bool-cases (e == x)) [
        | inl ex ↦ elim (Bool-cases (e == y)) [
          | inl ey ↦ ground arith
          | inr ey ↦
              let r : e ≡ x = ground arith in
              absurd (
                cc (
                  new y (ground (arith, numbers y)),
                  equal_sym f y e ∙ subst (λ v. equal f v y ≡ true) (sym r) s,
                ))
        ]
        | inr ex ↦ elim (Bool-cases (e == y)) [
          | inl ey ↦
              let r : e ≡ y = ground arith in
              absurd
                (cc (new x (ground (arith, numbers x)), subst (λ v. equal f x v ≡ true) (sym r) s))
          | inr ey ↦ t.distinct x y (ground (arith, numbers x)) (ground (arith, numbers y)) s
        ]
      ]

  pub removed :
      (h : Hash) (e : ℕ)
      → IsTable f h
      → 1 ≤ number e h.buckets
      → let h' = remove_elem h e in
        IsTable f h'
        × ((x : ℕ) → number x h'.buckets ≡ (if e == x then 0 else number x h.buckets))
        × (h'.elem_cnt + 1 ≡ h.elem_cnt)
  unfolding remove_elem
  removed h e t m = (
    record {
      size = t.size ∙ sym (length-map_unlink e h.buckets);
      power = t.power;
      elems = omega (arith, t.elems, t.bound, t.once e, total-unlink e h.buckets (t.once e));
      bound = omega arith;
      once = λ a. ground (arith, numbers a, t.once a);
      placed = λ a. ground (
        arith,
        numbers a,
        get_or-unlink a e (bucket_idx f h.bucket_cnt a) h.buckets,
        t.placed a,
        t.once a,
      );
      distinct = λ x y p q. t.distinct x y (ground (arith, numbers x)) (ground (arith, numbers y));
    },
    numbers,
    omega (arith, t.elems, t.bound, t.once e, total-unlink e h.buckets (t.once e)),
  )
    where
      numbers :
          (a : ℕ) → number a (map (unlink e) h.buckets) ≡ (if e == a then 0 else number a h.buckets)
      numbers a = number-unlink a e h.buckets (t.once e)
