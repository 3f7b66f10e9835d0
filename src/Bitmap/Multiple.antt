-- ===== src/Bitmap/Multiple.antt =====
-- Ranges of bits in src/lib/kernel/bitmap.c: bitmap_set_multiple, bitmap_count, bitmap_contains.
use csed.Common.{
  ℕ, zero, suc, ◌+◌, ◌≤◌, ◌<◌, ◌≡◌, refl, Bool, true, false, not, ◌&&◌, ◌==◌, ltb, leb, some, arith,
  if◌then◌else◌, Returns, Returns-bind, Returns-mono, Bool-cases, inl, inr, ==_iff,
}
use csed.Bitmap.{
  Bitmap, in_range, same, bitmap_set, set_from, bitmap_set_multiple, count_from, bitmap_count,
  contains_from, bitmap_contains,
}
use csed.Bitmap.Single.{IsValid, Put, bit_at, bitmap_set-Put, bitmap_test_eq}

-- `i` is one of the `cnt` numbers from `start` on.
abbrev pub among : ℕ → ℕ → ℕ → Bool
among start cnt i = leb start i && ltb i (start + cnt)

-- A bitmap that differs in a range of bits.
pub record Filled (b : Bitmap) (start cnt : ℕ) (v : Bool) (b' : Bitmap) : Type 0 where
  pub at : (j : ℕ) → bit_at b' j ≡ (if among start cnt j then v else bit_at b j)
  pub size : b'.bit_cnt ≡ b.bit_cnt
  pub valid : IsValid b'

set_from-Filled :
    (cnt i : ℕ) (x : Bool) (b : Bitmap)
    → IsValid b
    → i + cnt ≤ b.bit_cnt
    → Returns (set_from i cnt x b) (Filled b i cnt x)
unfolding set_from
set_from-Filled zero i x b v h = record { at = λ j. ground arith; size = refl; valid = v }
set_from-Filled (suc cnt) i x b v h =
    Returns-bind (λ b₁. Put b i x b₁ × IsValid b₁) (Filled b i (suc cnt) x) (bitmap_set b i x)
      (set_from (suc i) cnt x) (bitmap_set-Put b i x v (omega arith))
      λ b₁ p.
        Returns-mono (Filled b₁ (suc i) cnt x) (Filled b i (suc cnt) x) (set_from (suc i) cnt x b₁)
          (set_from-Filled cnt (suc i) x b₁ p.1 (ground (arith, p.0.size)))
          λ b₂ q. record {
            at = λ j. ground (arith, q.at j, p.0.at j);
            size = ground (arith, q.size, p.0.size);
            valid = q.valid;
          }

in_range-true :
    (b : Bitmap) (start cnt : ℕ) → IsValid b → start + cnt ≤ b.bit_cnt → in_range b start cnt ≡ true
in_range-true b start cnt v h = ground (arith, v.small)

-- bitmap_set_multiple over a range of the bitmap returns, with the bits of the range set to the value
-- and the others as they were.
pub bitmap_set_multiple_lem :
    (b : Bitmap) (start cnt : ℕ) (x : Bool)
    → IsValid b
    → start + cnt ≤ b.bit_cnt
    → Returns (bitmap_set_multiple b start cnt x) (Filled b start cnt x)
unfolding bitmap_set_multiple
bitmap_set_multiple_lem b start cnt x v h =
    rw (in_range-true b start cnt v h) (set_from-Filled cnt start x b v h)

-- How many of the `cnt` bits from `i` on are the value.
abbrev pub number_of : (ℕ → Bool) → ℕ → ℕ → Bool → ℕ
number_of f i zero x = 0
number_of f i (suc cnt) x = (if same (f i) x then 1 else 0) + number_of f (suc i) cnt x

count_from_eq :
    (b : Bitmap) (cnt i : ℕ) (x : Bool)
    → i + cnt ≤ b.bit_cnt
    → count_from b i cnt x ≡ some (number_of (bit_at b) i cnt x)
unfolding count_from
count_from_eq b zero i x h = refl
count_from_eq b (suc cnt) i x h =
    rw (bitmap_test_eq b i (omega arith), count_from_eq b cnt (suc i) x (omega arith))
      (ground arith)

-- bitmap_count over a range of the bitmap returns the number of its bits that are the value.
pub bitmap_count_lem :
    (b : Bitmap) (start cnt : ℕ) (x : Bool)
    → IsValid b
    → start + cnt ≤ b.bit_cnt
    → bitmap_count b start cnt x ≡ some (number_of (bit_at b) start cnt x)
unfolding bitmap_count
bitmap_count_lem b start cnt x v h =
    rw (in_range-true b start cnt v h) (count_from_eq b cnt start x h)

-- What bitmap_contains answers: whether a bit of the range is the value.
pub record Contains (f : ℕ → Bool) (start cnt : ℕ) (x r : Bool) : Type 0 where
  pub if_found : r ≡ true → (i : ℕ) × (among start cnt i ≡ true) × (f i ≡ x)
  pub if_not : (i : ℕ) → among start cnt i ≡ true → r ≡ false → f i ≡ not x

same_true : (a b : Bool) → same a b ≡ true → a ≡ b
same_true a b h = ground arith

same_false : (a b : Bool) → same a b ≡ false → a ≡ not b
same_false a b h = ground arith

contains_hit :
    (b : Bitmap) (cnt i : ℕ) (x : Bool)
    → i < b.bit_cnt
    → same (bit_at b i) x ≡ true
    → contains_from b i (suc cnt) x ≡ some true
unfolding contains_from
contains_hit b cnt i x h e = ground (arith, bitmap_test_eq b i h)

contains_miss :
    (b : Bitmap) (cnt i : ℕ) (x : Bool)
    → i < b.bit_cnt
    → same (bit_at b i) x ≡ false
    → contains_from b i (suc cnt) x ≡ contains_from b (suc i) cnt x
unfolding contains_from
contains_miss b cnt i x h e = ground (arith, bitmap_test_eq b i h)

contains_from-Contains :
    (b : Bitmap) (cnt i : ℕ) (x : Bool)
    → i + cnt ≤ b.bit_cnt
    → Returns (contains_from b i cnt x) (Contains (bit_at b) i cnt x)
unfolding contains_from
contains_from-Contains b zero i x h = record {
  if_found = λ e. absurd (cc);
  if_not = λ j p e. absurd (ground arith);
}
contains_from-Contains b (suc cnt) i x h = elim (Bool-cases (same (bit_at b i) x)) [
  | inl e ↦ rw (contains_hit b cnt i x (omega arith) e) (record {
    if_found = λ _. (i, ground arith, same_true (bit_at b i) x e);
    if_not = λ j p q. absurd (cc);
  })
  | inr e ↦ rw (contains_miss b cnt i x (omega arith) e) (
      Returns-mono (Contains (bit_at b) (suc i) cnt x) (Contains (bit_at b) i (suc cnt) x)
        (contains_from b (suc i) cnt x) (contains_from-Contains b cnt (suc i) x (omega arith))
        λ r c. record {
          if_found = λ q. let (j, p, t) = c.if_found q in (j, ground arith, t);
          if_not = λ j p q. elim (Bool-cases (i == j)) [
            | inl t ↦ rw (← (==_iff i j).0 t) (same_false (bit_at b i) x e)
            | inr t ↦ c.if_not j (ground arith) q
          ];
        })
]

-- bitmap_contains over a range of the bitmap returns true if a bit of the range is the value, and false
-- if none is.
pub bitmap_contains_lem :
    (b : Bitmap) (start cnt : ℕ) (x : Bool)
    → IsValid b
    → start + cnt ≤ b.bit_cnt
    → Returns (bitmap_contains b start cnt x) (Contains (bit_at b) start cnt x)
unfolding bitmap_contains
bitmap_contains_lem b start cnt x v h =
    rw (in_range-true b start cnt v h) (contains_from-Contains b cnt start x h)
