-- ===== src/Swap/Slots.antt =====
-- The slots of src/vm/swap.c as pages: swap_in and swap_free.
use csed.Common.{
  ℕ, ◌*◌, ◌^◌, ◌≤◌, ◌<◌, ◌≡◌, ◌≢◌, ◌⊎◌, inl, inr, refl, Bool, true, false, ltb, List, ap, sym, ◌∙◌,
  none, some, arith, Returns-result, if◌then◌else◌, ltb→lt, Bool-cases,
}
use csed.Bitmap.{Bitmap, bitmap_test, bitmap_set}
use csed.Bitmap.Single as Single
use csed.Bitmap.Single.{bit_at, Put, bitmap_test_eq, bitmap_test_out, bitmap_set-Put}
use csed.Block.{Block}
use csed.Swap.{Swap, read_from, swap_in, swap_free}
use csed.Swap.Store.{Same, sectors, read_from_lem}

module _ {ℓ} {A : Type ℓ} where
  -- Each slot has its eight sectors, and the device can be written.
  pub record IsSwap (s : Swap A) : Type ℓ where
    pub bitmap : Single.IsValid s.swap_bitmap
    pub pages : s.swap_bitmap.bit_cnt ≡ s.swap_total_pages
    pub room : s.swap_total_pages * 8 ≤ s.swap_device.size
    pub bound : s.swap_device.size < 2 ^ 32
    pub native : s.swap_device.foreign ≡ false

  abbrev pub is_used : Swap A → ℕ → Bool
  is_used s i = if ltb i s.swap_total_pages then bit_at s.swap_bitmap i else false

  -- The page in a slot.
  unfoldable pub page_in : Swap A → ℕ → List A
  page_in s i = sectors s.swap_device.sector (i * 8) 8

  -- Two states that agree on the slot `i`.
  abbrev pub Agree : Swap A → Swap A → ℕ → Type ℓ
  Agree s s' i = (is_used s' i ≡ is_used s i) × (page_in s' i ≡ page_in s i)

  used_bound : (s : Swap A) (i : ℕ) → is_used s i ≡ true → i < s.swap_total_pages
  used_bound s i u = ground arith

  used_bit : (s : Swap A) (i : ℕ) → is_used s i ≡ true → bit_at s.swap_bitmap i ≡ true
  used_bit s i u = ground arith

  test_used :
      (s : Swap A) (i : ℕ) → IsSwap s → is_used s i ≡ true → bitmap_test s.swap_bitmap i ≡ some true
  test_used s i v u =
      bitmap_test_eq s.swap_bitmap i (omega (arith, v.pages, used_bound s i u))
      ∙ ap some (used_bit s i u)

  -- The bitmap without a slot.
  cleared :
      (s : Swap A) (i : ℕ)
      → IsSwap s
      → is_used s i ≡ true
      → (b : Bitmap) × (bitmap_set s.swap_bitmap i false ≡ some b)
        × Put s.swap_bitmap i false b
        × Single.IsValid b
  cleared s i v u =
      let (b, e, p) =
        Returns-result (λ b. Put s.swap_bitmap i false b × Single.IsValid b)
          (bitmap_set s.swap_bitmap i false)
          (bitmap_set-Put s.swap_bitmap i false v.bitmap
            (omega (arith, v.pages, used_bound s i u))) in
      (b, e, p.0, p.1)

  read_page :
      (s : Swap A) (i : ℕ)
      → IsSwap s
      → i < s.swap_total_pages
      → (d : Block A) × (read_from i 0 8 s.swap_device ≡ some (page_in s i, d))
        × Same s.swap_device d
        × (d.sector ≡ s.swap_device.sector)
  unfolding page_in
  read_page s i v h =
      let (d, e, same, kept) = read_from_lem i 0 8 s.swap_device (omega (arith, v.room)) v.bound in
      (d, e ∙ ap (λ n. some (sectors s.swap_device.sector n 8, d)) (omega arith), same, kept)

  -- A state with a slot freed.
  freed-Agree :
      (s s' : Swap A) (i j : ℕ)
      → Put s.swap_bitmap i false s'.swap_bitmap
      → s'.swap_total_pages ≡ s.swap_total_pages
      → s'.swap_device.sector ≡ s.swap_device.sector
      → j ≢ i
      → Agree s s' j
  unfolding page_in
  freed-Agree s s' i j p t k n = (ground (arith, p.at j, n), ap (λ f. sectors f (j * 8) 8) k)

  freed-IsSwap :
      (s s' : Swap A) (i : ℕ)
      → IsSwap s
      → Put s.swap_bitmap i false s'.swap_bitmap
      → Single.IsValid s'.swap_bitmap
      → s'.swap_total_pages ≡ s.swap_total_pages
      → Same s.swap_device s'.swap_device
      → IsSwap s'
  freed-IsSwap s s' i v p b t d = record {
    bitmap = b;
    pages = p.size ∙ v.pages ∙ sym t;
    room = omega (arith, t, d.size, v.room);
    bound = omega (arith, d.size, v.bound);
    native = d.foreign ∙ v.native;
  }

  -- swap_in of a slot in use gives the page in it, and frees the slot; it leaves every other slot.
  pub swap_in_lem :
      (s : Swap A) (i : ℕ)
      → IsSwap s
      → is_used s i ≡ true
      → (s' : Swap A) × (swap_in i s ≡ some (page_in s i, s'))
        × (is_used s' i ≡ false)
        × ((j : ℕ) → j ≢ i → Agree s s' j)
        × IsSwap s'
  unfolding swap_in
  swap_in_lem s i v u =
      let (d, er, same, kept) = read_page s i v (used_bound s i u) in
      let (b, eb, put, bv) = cleared s i v u in
      let s' : Swap A = record s { swap_device = d; swap_bitmap = b } in
      (
        s',
        rw (test_used s i v u, er, eb) refl,
        ground (arith, put.at i),
        (λ j n. freed-Agree s s' i j put refl kept n),
        freed-IsSwap s s' i v put bv refl same,
      )

  -- swap_free of a slot in use frees it, and leaves every other slot.
  pub swap_free_lem :
      (s : Swap A) (i : ℕ)
      → IsSwap s
      → is_used s i ≡ true
      → (s' : Swap A) × (swap_free i s ≡ some s')
        × (is_used s' i ≡ false)
        × ((j : ℕ) → j ≢ i → Agree s s' j)
        × IsSwap s'
  unfolding swap_free
  swap_free_lem s i v u =
      let (b, eb, put, bv) = cleared s i v u in
      let s' : Swap A = record s { swap_bitmap = b } in
      (
        s',
        rw (test_used s i v u, eb) refl,
        ground (arith, put.at i),
        (λ j n. freed-Agree s s' i j put refl refl n),
        freed-IsSwap s s' i v put bv refl (record { size = refl; foreign = refl }),
      )

  test_unused :
      (s : Swap A) (i : ℕ)
      → IsSwap s
      → is_used s i ≡ false
      → (bitmap_test s.swap_bitmap i ≡ none) ⊎ (bitmap_test s.swap_bitmap i ≡ some false)
  test_unused s i v u = elim (Bool-cases (ltb i s.swap_bitmap.bit_cnt)) [
    | inl h ↦
        inr (bitmap_test_eq s.swap_bitmap i (ltb→lt _ _ h) ∙ ap some (ground (arith, v.pages)))
    | inr h ↦ inl (bitmap_test_out s.swap_bitmap i h)
  ]

  -- swap_in and swap_free panic at a slot that is not in use.
  pub unused_panics :
      (s : Swap A) (i : ℕ)
      → IsSwap s
      → is_used s i ≡ false
      → (swap_in i s ≡ none) × (swap_free i s ≡ none)
  unfolding swap_in swap_free
  unused_panics s i v u = elim (test_unused s i v u) [
    | inl e ↦ (rw (e) refl, rw (e) refl)
    | inr e ↦ (rw (e) refl, rw (e) refl)
  ]
