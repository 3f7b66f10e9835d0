-- ===== src/Swap/Out.antt =====
-- swap_out of src/vm/swap.c, and swap_in behind it.
use csed.Common.{
  ℕ, ◌+◌, ◌-◌, ◌*◌, ◌<◌, ◌≡◌, ◌≢◌, inl, inr, refl, true, false, ◌==◌, ltb, List, ap, ap₂, subst,
  sym, ◌∙◌, some, arith, length, Returns-result, if◌then◌else◌, Bool-cases, ==_iff,
}
use csed.Bitmap.{Bitmap, bitmap_error, bitmap_scan_and_flip}
use csed.Bitmap.Single.{bit_at}
use csed.Bitmap.Multiple.{among, Filled}
use csed.Bitmap.Scan.{Scanned, Flipped, bitmap_scan_and_flip_lem}
use csed.Swap.{Swap, swap_in, swap_out}
use csed.Swap.Slots.{IsSwap, is_used, page_in, Agree, swap_in_lem}
use csed.Swap.Store.{
  sectors, sectors-ext, stored, stored-before, stored-behind, sectors-stored, write_from_lem,
}

-- A scan for one clear bit does not fail where there is one.
scan_hit :
    (b : Bitmap) (n f r : ℕ)
    → Scanned (bit_at b) 0 n 1 false r
    → f < n
    → bit_at b f ≡ false
    → (r == bitmap_error) ≡ false
scan_hit b n f r scan h u = elim (Bool-cases (r == bitmap_error)) [
  | inr e ↦ e
  | inl e ↦
      let (j, p, q) = scan.first f (omega arith) h (inl ((==_iff r bitmap_error).0 e)) in
      absurd (ground (arith, p, q, ap (bit_at b) (only j p)))
]
  where
    only : (j : ℕ) → among f 1 j ≡ true → j ≡ f
    only j p = ground arith

module _ {ℓ} {A : Type ℓ} where
  -- The slot that swap_out takes.
  record Taken (s : Swap A) (i : ℕ) (b : Bitmap) : Type 0 where
    bound : i < s.swap_total_pages
    free : bit_at s.swap_bitmap i ≡ false
    filled : Filled s.swap_bitmap i 1 true b

  Taken-Scanned :
      (s : Swap A) (r : ℕ) (b : Bitmap)
      → IsSwap s
      → (r == bitmap_error) ≡ false
      → Scanned (bit_at s.swap_bitmap) 0 (s.swap_bitmap.bit_cnt + 1 - 1) 1 false r
      → Flipped s.swap_bitmap 1 false r b
      → Taken s r b
  Taken-Scanned s r b v hit scan flip =
      let (low, high, group) = scan.found (λ e. absurd (ground (arith, e))) in
      record {
        bound = omega (arith, high, v.pages);
        free = group r (ground arith);
        filled =
            subst (λ t. if t then b ≡ s.swap_bitmap else Filled s.swap_bitmap r 1 true b) hit flip;
      }

  take_slot :
      (s : Swap A) (f : ℕ)
      → IsSwap s
      → f < s.swap_total_pages
      → is_used s f ≡ false
      → (i : ℕ) × (b : Bitmap) × (bitmap_scan_and_flip s.swap_bitmap 0 1 false ≡ some (i, b))
        × ((i == bitmap_error) ≡ false)
        × Taken s i b
  take_slot s f v h u =
      let (r, e, p) =
        Returns-result
          (λ r.
            Scanned (bit_at s.swap_bitmap) 0 (s.swap_bitmap.bit_cnt + 1 - 1) 1 false r.0
            × Flipped s.swap_bitmap 1 false r.0 r.1)
          (bitmap_scan_and_flip s.swap_bitmap 0 1 false)
          (bitmap_scan_and_flip_lem s.swap_bitmap 0 1 false v.bitmap (omega arith)) in
      let hit : (r.0 == bitmap_error) ≡ false =
        scan_hit s.swap_bitmap (s.swap_bitmap.bit_cnt + 1 - 1) f r.0 p.0 (omega (arith, v.pages))
          (ground (arith, u)) in
      (r.0, r.1, e, hit, Taken-Scanned s r.0 r.1 v hit p.0 p.1)

  -- What a page written to a slot does to the slots.
  stored-page :
      (f : ℕ → A) (i : ℕ) (page : List A)
      → length page ≡ 8
      → sectors (stored f (i * 8 + 0) page) (i * 8) 8 ≡ page
  stored-page f i page len =
      ap₂ (λ n cnt. sectors (stored f n page) (i * 8) cnt) (omega arith) (sym len)
      ∙ sectors-stored f (i * 8) page

  stored-other :
      (f : ℕ → A) (i j : ℕ) (page : List A)
      → length page ≡ 8
      → j ≢ i
      → sectors (stored f (i * 8 + 0) page) (j * 8) 8 ≡ sectors f (j * 8) 8
  stored-other f i j page len n = sectors-ext (stored f (i * 8 + 0) page) f (j * 8) 8 λ m p q.
      elim (Bool-cases (ltb j i)) [
        | inl h ↦ stored-before f (i * 8 + 0) page m (ground (arith, p, q))
        | inr h ↦ stored-behind f (i * 8 + 0) page m (ground (arith, p, q, len, n))
      ]

  -- swap_out of a page, when a slot is free, takes a free slot, which then holds the page; it leaves
  -- every other slot.
  pub swap_out_lem :
      (page : List A) (s : Swap A) (f : ℕ)
      → IsSwap s
      → length page ≡ 8
      → f < s.swap_total_pages
      → is_used s f ≡ false
      → (i : ℕ) × (s' : Swap A) × (swap_out page s ≡ some (i, s'))
        × (is_used s i ≡ false)
        × (is_used s' i ≡ true)
        × (page_in s' i ≡ page)
        × ((j : ℕ) → j ≢ i → Agree s s' j)
        × IsSwap s'
  unfolding swap_out page_in
  swap_out_lem page s f v len h u =
      let (i, b, eb, hit, t) = take_slot s f v h u in
      let (d, ed, same, kept) =
        write_from_lem i 0 page s.swap_device (omega (arith, len, t.bound, v.room)) v.bound
          v.native in
      let s' : Swap A = record s { swap_device = d; swap_bitmap = b } in
      (
        i,
        s',
        rw (eb, hit, ed) refl,
        ground (arith, t.free),
        ground (arith, t.bound, t.filled.at i),
        ap (λ g. sectors g (i * 8) 8) kept ∙ stored-page s.swap_device.sector i page len,
        (λ j n. (
          ground (arith, t.filled.at j, n),
          ap (λ g. sectors g (j * 8) 8) kept ∙ stored-other s.swap_device.sector i j page len n,
        )),
        record {
          bitmap = t.filled.valid;
          pages = t.filled.size ∙ v.pages;
          room = omega (arith, same.size, v.room);
          bound = omega (arith, same.size, v.bound);
          native = same.foreign ∙ v.native;
        },
      )

  -- swap_out and then swap_in of the slot give the page back, with the same slots in use as before. A
  -- slot is free.
  pub swap_in-swap_out :
      (page : List A) (s : Swap A) (f : ℕ)
      → IsSwap s
      → length page ≡ 8
      → f < s.swap_total_pages
      → is_used s f ≡ false
      → (i : ℕ) × (s₁ : Swap A) × (s₂ : Swap A) × (swap_out page s ≡ some (i, s₁))
        × (swap_in i s₁ ≡ some (page, s₂))
        × ((j : ℕ) → is_used s₂ j ≡ is_used s j)
  swap_in-swap_out page s f v len h u =
      let (i, s₁, out, was, used, holds, others, v₁) = swap_out_lem page s f v len h u in
      let (s₂, back, free, others₂, v₂) = swap_in_lem s₁ i v₁ used in
      (
        i,
        s₁,
        s₂,
        out,
        back ∙ ap (λ p. some (p, s₂)) holds,
        λ j. elim (Bool-cases (i == j)) [
          | inl e ↦ rw (← (==_iff i j).0 e) (free ∙ sym was)
          | inr e ↦
              (others₂ j (λ q. absurd (ground (arith, q)))).0
              ∙ (others j (λ q. absurd (ground (arith, q)))).0
        ],
      )
