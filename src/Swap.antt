-- ===== src/Swap.antt =====
-- src/vm/swap.c: pages on the swap device. The functions run under swap_lock, one at a time, so they are
-- steps here, and the lock is not in the state.
pub mod Store
pub mod Slots
pub mod Out
mod Tests
use csed.Common.{
  ℕ, zero, suc, ◌+◌, ◌*◌, ◌/◌, ◌%◌, ◌^◌, Bool, true, false, not, ◌==◌, List, [], ◌∷◌, Option, none,
  some, ◌>>=◌, ◌>>◌, check,
}
use csed.Bitmap.{Bitmap, bitmap_error, bitmap_create, bitmap_test, bitmap_set, bitmap_scan_and_flip}
use csed.Block.{Block, block_read, block_write}

-- The static data of swap.c.
pub record Swap {ℓ} (A : Type ℓ) : Type ℓ where
  pub swap_device : Block A
  pub swap_total_pages : ℕ
  pub swap_bitmap : Bitmap

-- PGSIZE / BLOCK_SECTOR_SIZE
abbrev pub page_sectors : ℕ
page_sectors = 8

-- The sector of part `i` of a slot, as a `block_sector_t`.
abbrev pub sector_of : ℕ → ℕ → ℕ
sector_of swap_index i = (swap_index * 8 + i) % 2 ^ 32

module _ {ℓ} {A : Type ℓ} where
  -- `device` is block_get_role (BLOCK_SWAP), and `memory` what malloc gives for the words of the bitmap.
  unfoldable pub swap_init : Option (Block A) → Option (List ℕ) → Option (Swap A)
  swap_init device memory = do
    swap_device ← device
    let swap_total_pages = swap_device.size / 8
    created ← bitmap_create swap_total_pages memory
    swap_bitmap ← created
    some (record {
      swap_device = swap_device;
      swap_total_pages = swap_total_pages;
      swap_bitmap = swap_bitmap;
    })

  -- The loop of swap_in, from part `i` on, for `cnt` parts: what it puts into the page.
  unfoldable pub read_from : ℕ → ℕ → ℕ → Block A → Option (List A × Block A)
  read_from swap_index i zero d = some ([], d)
  read_from swap_index i (suc cnt) d = do
    (x, d₁) ← block_read d (sector_of swap_index i)
    (xs, d₂) ← read_from swap_index (suc i) cnt d₁
    some (x ∷ xs, d₂)

  unfoldable pub swap_in : ℕ → Swap A → Option (List A × Swap A)
  swap_in swap_index s = do
    used ← bitmap_test s.swap_bitmap swap_index
    check used
    (page, d) ← read_from swap_index 0 8 s.swap_device
    b ← bitmap_set s.swap_bitmap swap_index false
    some (page, record s { swap_device = d; swap_bitmap = b })

  -- The loop of swap_out, from part `i` on, over the parts of the page that are left.
  unfoldable pub write_from : ℕ → ℕ → List A → Block A → Option (Block A)
  write_from swap_index i [] d = some d
  write_from swap_index i (x ∷ xs) d = do
    d₁ ← block_write d (sector_of swap_index i) x
    write_from swap_index (suc i) xs d₁

  -- `page` is the eight parts of the page at `kaddr`.
  unfoldable pub swap_out : List A → Swap A → Option (ℕ × Swap A)
  swap_out page s = do
    (swap_index, b) ← bitmap_scan_and_flip s.swap_bitmap 0 1 false
    check (not (swap_index == bitmap_error))
    d ← write_from swap_index 0 page s.swap_device
    some (swap_index, record s { swap_device = d; swap_bitmap = b })

  unfoldable pub swap_free : ℕ → Swap A → Option (Swap A)
  swap_free swap_index s = do
    used ← bitmap_test s.swap_bitmap swap_index
    check (not (not used))
    b ← bitmap_set s.swap_bitmap swap_index false
    some (record s { swap_bitmap = b })
