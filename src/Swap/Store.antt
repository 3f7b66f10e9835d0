-- ===== src/Swap/Store.antt =====
-- What the loops of swap_in and swap_out in src/vm/swap.c read and write on the device.
use csed.Common.{
  ℕ, zero, suc, ◌+◌, ◌*◌, ◌%◌, ◌^◌, ◌≤◌, ◌<◌, ◌≡◌, refl, false, List, [], ◌∷◌, ap, ap₂, ◌∙◌, some,
  arith, length, update, lt→ltb,
}
use csed.Block.{Block, block_read, block_write}
use csed.Swap.{read_from, write_from}

module _ {ℓ} {A : Type ℓ} where
  -- The `cnt` sectors from `n` on.
  abbrev pub sectors : (ℕ → A) → ℕ → ℕ → List A
  sectors f n zero = []
  sectors f n (suc cnt) = f n ∷ sectors f (suc n) cnt

  block_read_eq :
      (d : Block A) (n : ℕ)
      → n < d.size
      → block_read d n ≡ some (d.sector n, record d { read_cnt = (d.read_cnt + 1) % 2 ^ 64 })
  unfolding block_read
  block_read_eq d n h = rw (lt→ltb n d.size h) refl

  block_write_eq :
      (d : Block A) (n : ℕ) (x : A)
      → n < d.size
      → d.foreign ≡ false
      → block_write d n x
        ≡ some (record d { sector = update d.sector n x; write_cnt = (d.write_cnt + 1) % 2 ^ 64 })
  unfolding block_write
  block_write_eq d n x h f = simp (lt→ltb n d.size h, f) refl

  -- A device with other contents.
  pub record Same (d d' : Block A) : Type 0 where
    pub size : d'.size ≡ d.size
    pub foreign : d'.foreign ≡ d.foreign

  pub read_from_lem :
      (index i cnt : ℕ) (d : Block A)
      → index * 8 + i + cnt ≤ d.size
      → d.size < 2 ^ 32
      → (d' : Block A) × (read_from index i cnt d ≡ some (sectors d.sector (index * 8 + i) cnt, d'))
        × Same d d'
        × (d'.sector ≡ d.sector)
  unfolding read_from
  read_from_lem index i zero d h s = (d, refl, record { size = refl; foreign = refl }, refl)
  read_from_lem index i (suc cnt) d h s =
      let d₁ : Block A = record d { read_cnt = (d.read_cnt + 1) % 2 ^ 64 } in
      let (d', e, same, kept) = read_from_lem index (suc i) cnt d₁ (omega arith) s in
      (
        d',
        rw (place, block_read_eq d (index * 8 + i) (omega arith), e, next) refl,
        record { size = same.size; foreign = same.foreign },
        kept,
      )
    where
      place : (index * 8 + i) % 2 ^ 32 ≡ index * 8 + i
      place = omega arith

      next : index * 8 + suc i ≡ suc (index * 8 + i)
      next = omega arith

  -- The contents after the list is written from sector `n` on.
  abbrev pub stored : (ℕ → A) → ℕ → List A → ℕ → A
  stored f n [] = f
  stored f n (x ∷ xs) = stored (update f n x) (suc n) xs

  pub stored-before : (f : ℕ → A) (n : ℕ) (xs : List A) (m : ℕ) → m < n → stored f n xs m ≡ f m
  stored-before f n [] m h = refl
  stored-before f n (x ∷ xs) m h =
      stored-before (update f n x) (suc n) xs m (omega arith) ∙ ground arith

  pub stored-behind :
      (f : ℕ → A) (n : ℕ) (xs : List A) (m : ℕ) → n + length xs ≤ m → stored f n xs m ≡ f m
  stored-behind f n [] m h = refl
  stored-behind f n (x ∷ xs) m h =
      stored-behind (update f n x) (suc n) xs m (omega arith) ∙ ground arith

  pub sectors-stored :
      (f : ℕ → A) (n : ℕ) (xs : List A) → sectors (stored f n xs) n (length xs) ≡ xs
  sectors-stored f n [] = refl
  sectors-stored f n (x ∷ xs) =
      ap₂ ◌∷◌ (stored-before (update f n x) (suc n) xs n (omega arith) ∙ ground arith)
        (sectors-stored (update f n x) (suc n) xs)

  pub sectors-ext :
      (f g : ℕ → A) (n cnt : ℕ)
      → ((m : ℕ) → n ≤ m → m < n + cnt → f m ≡ g m)
      → sectors f n cnt ≡ sectors g n cnt
  sectors-ext f g n zero h = refl
  sectors-ext f g n (suc cnt) h =
      ap₂ ◌∷◌ (h n (omega arith) (omega arith))
        (sectors-ext f g (suc n) cnt λ m p q. h m (omega arith) (omega arith))

  pub write_from_lem :
      (index i : ℕ) (xs : List A) (d : Block A)
      → index * 8 + i + length xs ≤ d.size
      → d.size < 2 ^ 32
      → d.foreign ≡ false
      → (d' : Block A) × (write_from index i xs d ≡ some d')
        × Same d d'
        × (d'.sector ≡ stored d.sector (index * 8 + i) xs)
  unfolding write_from
  write_from_lem index i [] d h s f = (d, refl, record { size = refl; foreign = refl }, refl)
  write_from_lem index i (x ∷ xs) d h s f =
      let d₁ : Block A = record d {
        sector = update d.sector (index * 8 + i) x;
        write_cnt = (d.write_cnt + 1) % 2 ^ 64;
      } in
      let (d', e, same, kept) = write_from_lem index (suc i) xs d₁ (omega arith) s f in
      (
        d',
        rw (place, block_write_eq d (index * 8 + i) x (omega arith) f) e,
        record { size = same.size; foreign = same.foreign },
        kept ∙ ap (λ n. stored d₁.sector n xs) next,
      )
    where
      place : (index * 8 + i) % 2 ^ 32 ≡ index * 8 + i
      place = omega arith

      next : index * 8 + suc i ≡ suc (index * 8 + i)
      next = omega arith
