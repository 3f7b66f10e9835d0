-- ===== src/Hash/Table.antt =====
-- When a table of src/lib/kernel/hash.c is consistent, and what find_elem answers.
use csed.Common.{
  ℕ, ◌+◌, ◌-◌, ◌^◌, ◌≤◌, ◌<◌, ◌≡◌, refl, true, false, ◌==◌, List, [], ◌∷◌, Option, none, some,
  arith, get_or, length, count, Bool-cases, inl, inr, ap, ◌∙◌, subst, ◌%◌, bit_and,
}
use csed.Common.Bits.{pow_pos}
use csed.Common.Masks.{bit_and-mask, pow_mono}
use csed.Hash.{Hash, HashFuncs, equal, bucket_idx, find_elem, hash_find}
use csed.Hash.Buckets.{number, total, number-get_or}
use csed.Hash.Power.{IsCount}

-- What hash.c relies on in the functions that it is given: `less` is a strict weak order, and equal
-- elements have equal hashes.
pub record IsKeyed (f : HashFuncs) : Type 0 where
  pub equal_refl : (a : ℕ) → f.less a a ≡ false
  pub equal_trans : (a b c : ℕ) → equal f a b ≡ true → equal f b c ≡ true → equal f a c ≡ true
  pub hash_equal : (a b : ℕ) → equal f a b ≡ true → f.hash a ≡ f.hash b

-- Each element is linked once, into its own bucket, and no two are equal; the counts are right.
pub record IsTable (f : HashFuncs) (h : Hash) : Type 0 where
  pub size : h.bucket_cnt ≡ length h.buckets
  pub power : IsCount h.bucket_cnt
  pub elems : h.elem_cnt ≡ total h.buckets
  pub bound : h.elem_cnt < 2 ^ 32
  pub once : (a : ℕ) → number a h.buckets ≤ 1
  pub placed :
      (a : ℕ) → number a h.buckets ≡ count a (get_or h.buckets (bucket_idx f h.bucket_cnt a) [])
  pub distinct :
      (a b : ℕ) → 1 ≤ number a h.buckets → 1 ≤ number b h.buckets → equal f a b ≡ true → a ≡ b

-- An answer to a search for `e` among elements that are in the table as often as `n` says.
pub data Finds (f : HashFuncs) (n : ℕ → ℕ) (e : ℕ) : Option ℕ → Type 0 where
  found : (x : ℕ) → 1 ≤ n x → equal f x e ≡ true → Finds f n e (some x)
  missing : ((x : ℕ) → 1 ≤ n x → equal f x e ≡ false) → Finds f n e none

module _ (f : HashFuncs) where
  pub equal_sym : (a b : ℕ) → equal f a b ≡ equal f b a
  equal_sym a b = elim (Bool-cases (f.less a b)) [
    | inl p ↦ elim (Bool-cases (f.less b a)) [ inl q ↦ rw (p, q) refl | inr q ↦ rw (p, q) refl ]
    | inr p ↦ elim (Bool-cases (f.less b a)) [ inl q ↦ rw (p, q) refl | inr q ↦ rw (p, q) refl ]
  ]

  pub equal_self : IsKeyed f → (a : ℕ) → equal f a a ≡ true
  equal_self k a = rw (k.equal_refl a) refl

  find_elem-Finds : (b : List ℕ) (e : ℕ) → Finds f (λ x. count x b) e (find_elem f b e)
  unfolding find_elem
  find_elem-Finds [] e = missing λ x h. absurd (omega arith)
  find_elem-Finds (hi ∷ b) e = elim (Bool-cases (equal f hi e)) [
    | inl p ↦ simp (p) (found hi (ground arith) p)
    | inr p ↦ simp (p) (later hi b e p (find_elem f b e) (find_elem-Finds b e))
  ]
    where
      later :
          (hi : ℕ) (b : List ℕ) (e : ℕ)
          → equal f hi e ≡ false
          → (o : Option ℕ) → Finds f (λ x. count x b) e o
          → Finds f (λ x. count x (hi ∷ b)) e o
      later hi b e p _ (found x m q) = found x (omega arith) q
      later hi b e p _ (missing g) = missing λ x m. elim (Bool-cases (hi == x)) [
        | inl same ↦ let q : hi ≡ x = ground arith in subst (λ v. equal f v e ≡ false) q p
        | inr other ↦ g x (ground arith)
      ]

  pub bucket_idx_bound : (n e : ℕ) → IsCount n → bucket_idx f n e < n
  unfolding bucket_idx
  bucket_idx_bound n e (k, p, small, four) =
      omega (arith, ap (bit_and (f.hash e)) mask, bit_and-mask k (f.hash e))
    where
      mask : (n + 2 ^ 32 - 1) % 2 ^ 32 ≡ 2 ^ k - 1
      mask = omega (arith, pow_mono k 32 small, pow_pos k)

  pub bucket_idx-equal :
      (n a b : ℕ) → IsKeyed f → equal f a b ≡ true → bucket_idx f n a ≡ bucket_idx f n b
  unfolding bucket_idx
  bucket_idx-equal n a b k h = ap (λ v. bit_and v ((n + 2 ^ 32 - 1) % 2 ^ 32)) (k.hash_equal a b h)

  -- hash_find finds an element of the table that is equal to the one given, if there is one.
  pub hash_find-Finds :
      (h : Hash) (e : ℕ)
      → IsKeyed f
      → IsTable f h
      → Finds f (λ x. number x h.buckets) e (hash_find f h e)
  unfolding hash_find
  hash_find-Finds h e k t =
      everywhere (hash_find f h e)
        (find_elem-Finds (get_or h.buckets (bucket_idx f h.bucket_cnt e) []) e)
    where
      everywhere :
          (o : Option ℕ)
          → Finds f (λ x. count x (get_or h.buckets (bucket_idx f h.bucket_cnt e) [])) e o
          → Finds f (λ x. number x h.buckets) e o
      everywhere _ (found x m q) =
          found x (omega (arith, number-get_or x (bucket_idx f h.bucket_cnt e) h.buckets)) q
      everywhere _ (missing g) = missing λ x m. elim (Bool-cases (equal f x e)) [
        | inl q ↦ g x (
            omega (
              arith,
              t.placed x,
              ap (λ i. count x (get_or h.buckets i [])) (bucket_idx-equal h.bucket_cnt x e k q),
            ))
        | inr q ↦ q
      ]

  -- A table has one answer.
  pub hash_find_by :
      (h : Hash) (e : ℕ) (o : Option ℕ)
      → IsKeyed f
      → IsTable f h
      → Finds f (λ x. number x h.buckets) e o
      → hash_find f h e ≡ o
  hash_find_by h e o k t g = one (hash_find f h e) o (hash_find-Finds h e k t) g
    where
      one :
          (p q : Option ℕ)
          → Finds f (λ x. number x h.buckets) e p
          → Finds f (λ x. number x h.buckets) e q
          → p ≡ q
      one _ _ (found x m p) (found y n q) =
          ap some (t.distinct x y m n (k.equal_trans x e y p (equal_sym e y ∙ q)))
      one _ _ (found x m p) (missing g) = absurd (cc (p, g x m))
      one _ _ (missing g) (found y n q) = absurd (cc (q, g y n))
      one _ _ (missing g) (missing g') = refl
