-- ===== src/Bitmap/Single.antt =====
-- Single bits in src/lib/kernel/bitmap.c: bitmap_mark, bitmap_reset, bitmap_flip, bitmap_set,
-- bitmap_test.
use csed.Common.{
  ℕ, zero, suc, ◌-◌, ◌*◌, ◌/◌, ◌%◌, ◌^◌, ◌≤◌, ◌<◌, ◌≡◌, refl, Bool, true, false, not, ◌==◌, ltb,
  none, some, arith, get_or, get_or-set, set, length, length-set, bit_and, bit_or, bit_xor,
  if◌then◌else◌, Returns, lt→ltb, PanicsIf, PanicsIf-intro, Bool-cases, inl, inr, ==_iff,
}
use csed.Common.Bits.{
  bit, bit_bound, bit-or, bit-and, bit-xor, bit-mask, bit-complement, test_mask, pow_pos, pow_suc,
}
use csed.Bitmap.{Bitmap, bitmap_mark, bitmap_reset, bitmap_flip, bitmap_set, bitmap_test}

-- The bitmap as an array of bits.
abbrev pub bit_at : Bitmap → ℕ → Bool
bit_at b i = bit (i % 32) (get_or b.bits (i / 32) 0) == 1

-- There is a word for each bit, and SIZE_MAX is not the number of a bit or of the end.
pub record IsValid (b : Bitmap) : Type 0 where
  pub room : b.bit_cnt ≤ 32 * length b.bits
  pub small : b.bit_cnt < 2 ^ 32 - 1

-- A bitmap that differs in one bit.
pub record Put (b : Bitmap) (i : ℕ) (v : Bool) (b' : Bitmap) : Type 0 where
  pub at : (j : ℕ) → bit_at b' j ≡ (if i == j then v else bit_at b j)
  pub size : b'.bit_cnt ≡ b.bit_cnt
  pub words : length b'.bits ≡ length b.bits

mask_small : (n i : ℕ) → i < n → 2 ^ i < 2 ^ n
mask_small zero i h = absurd (omega arith)
mask_small (suc n) zero h = omega (arith, pow_pos n, pow_suc n)
mask_small (suc n) (suc i) h = omega (arith, mask_small n i (omega arith), pow_suc n, pow_suc i)

write-Put :
    (b : Bitmap) (i : ℕ) (v : Bool) (w : ℕ)
    → i / 32 < length b.bits
    → ((k : ℕ)
        → k < 32
        → (bit k w == 1) ≡ (if i % 32 == k then v else bit k (get_or b.bits (i / 32) 0) == 1))
    → Put b i v (record b { bits = set b.bits (i / 32) w })
write-Put b i v w h f = record {
  at = λ j. rw (get_or-set b.bits (i / 32) (j / 32) w 0 h) (elim (Bool-cases (i / 32 == j / 32)) [
    | inl e ↦ rw (e) (same_word j ((==_iff _ _).0 e))
    | inr e ↦ rw (e) (other_word j e)
  ]);
  size = refl;
  words = length-set b.bits (i / 32) w;
}
  where
    digit : (j : ℕ) → i / 32 ≡ j / 32 → (i % 32 == j % 32) ≡ (i == j)
    digit j e = ground arith

    same_word :
        (j : ℕ)
        → i / 32 ≡ j / 32
        → (bit (j % 32) w == 1)
          ≡ (if i == j then v else bit (j % 32) (get_or b.bits (j / 32) 0) == 1)
    same_word j e = rw (← e) (rw (f (j % 32) (omega arith)) (rw (digit j e) refl))

    other_word :
        (j : ℕ)
        → (i / 32 == j / 32) ≡ false
        → (bit (j % 32) (get_or b.bits (j / 32) 0) == 1)
          ≡ (if i == j then v else bit (j % 32) (get_or b.bits (j / 32) 0) == 1)
    other_word j e = ground arith

word_index : (b : Bitmap) (i : ℕ) → IsValid b → i < b.bit_cnt → i / 32 < length b.bits
word_index b i v h = omega (arith, v.room)

pub bitmap_mark-Put :
    (b : Bitmap) (i : ℕ) → IsValid b → i < b.bit_cnt → Put b i true (bitmap_mark b i)
unfolding bitmap_mark
bitmap_mark-Put b i v h =
    write-Put b i true (bit_or (get_or b.bits (i / 32) 0) (2 ^ (i % 32))) (word_index b i v h)
      λ k small. ground (
        arith,
        bit-or k (get_or b.bits (i / 32) 0) (2 ^ (i % 32)),
        bit-mask (i % 32) k,
        bit_bound k (get_or b.bits (i / 32) 0),
      )

pub bitmap_reset-Put :
    (b : Bitmap) (i : ℕ) → IsValid b → i < b.bit_cnt → Put b i false (bitmap_reset b i)
unfolding bitmap_reset
bitmap_reset-Put b i v h =
    write-Put b i false (bit_and (get_or b.bits (i / 32) 0) (2 ^ 32 - 1 - 2 ^ (i % 32)))
      (word_index b i v h)
      λ k small. ground (
        arith,
        bit-and k (get_or b.bits (i / 32) 0) (2 ^ 32 - 1 - 2 ^ (i % 32)),
        bit-complement 32 k (2 ^ (i % 32)) small (mask_small 32 (i % 32) (omega arith)),
        bit-mask (i % 32) k,
        bit_bound k (get_or b.bits (i / 32) 0),
      )

-- bitmap_flip turns the bit at `i`, which is in the bitmap, and no other bit.
pub bitmap_flip-Put :
    (b : Bitmap) (i : ℕ) → IsValid b → i < b.bit_cnt → Put b i (not (bit_at b i)) (bitmap_flip b i)
unfolding bitmap_flip
bitmap_flip-Put b i v h =
    write-Put b i (not (bit_at b i)) (bit_xor (get_or b.bits (i / 32) 0) (2 ^ (i % 32)))
      (word_index b i v h)
      λ k small. ground (
        arith,
        bit-xor k (get_or b.bits (i / 32) 0) (2 ^ (i % 32)),
        bit-mask (i % 32) k,
        bit_bound k (get_or b.bits (i / 32) 0),
      )

Put-IsValid : (b b' : Bitmap) (i : ℕ) (x : Bool) → IsValid b → Put b i x b' → IsValid b'
Put-IsValid b b' i x v p = record {
  room = omega (arith, v.room, p.size, p.words);
  small = omega (arith, v.small, p.size);
}

pub bitmap_set-Put :
    (b : Bitmap) (i : ℕ) (x : Bool)
    → IsValid b
    → i < b.bit_cnt
    → Returns (bitmap_set b i x) λ b'. Put b i x b' × IsValid b'
unfolding bitmap_set
bitmap_set-Put b i true v h =
    rw (lt→ltb i b.bit_cnt h)
      (let p = bitmap_mark-Put b i v h in (p, Put-IsValid b (bitmap_mark b i) i true v p))
bitmap_set-Put b i false v h =
    rw (lt→ltb i b.bit_cnt h)
      (let p = bitmap_reset-Put b i v h in (p, Put-IsValid b (bitmap_reset b i) i false v p))

bitmap_set_out :
    (b : Bitmap) (i : ℕ) (x : Bool) → not (ltb i b.bit_cnt) ≡ true → bitmap_set b i x ≡ none
unfolding bitmap_set
bitmap_set_out b i x h = ground arith

-- bitmap_set panics out of range, and otherwise sets the bit at `i` to the value and no other bit.
pub bitmap_set_lem :
    (b : Bitmap) (i : ℕ) (x : Bool)
    → IsValid b
    → PanicsIf (not (ltb i b.bit_cnt)) (bitmap_set b i x) λ b'. Put b i x b' × IsValid b'
bitmap_set_lem b i x v =
    PanicsIf-intro (not (ltb i b.bit_cnt)) (bitmap_set b i x) (λ b'. Put b i x b' × IsValid b')
      (bitmap_set_out b i x) (λ h. bitmap_set-Put b i x v (ground arith))

pub bitmap_test_eq : (b : Bitmap) (i : ℕ) → i < b.bit_cnt → bitmap_test b i ≡ some (bit_at b i)
unfolding bitmap_test
bitmap_test_eq b i h = ground (arith, test_mask (i % 32) (get_or b.bits (i / 32) 0))

pub bitmap_test_out : (b : Bitmap) (i : ℕ) → ltb i b.bit_cnt ≡ false → bitmap_test b i ≡ none
unfolding bitmap_test
bitmap_test_out b i h = rw (h) refl
