-- ===== src/Block.antt =====
-- src/devices/block.c: sectors of a block device. A driver keeps what was written to a sector; `A` is
-- the type of the contents of a sector. The registry of devices is not modelled.
use csed.Common.{ℕ, ◌+◌, ◌%◌, ◌^◌, Bool, not, ltb, Option, some, ◌>>◌, check, update}

-- `struct block`: `foreign` is whether the type is BLOCK_FOREIGN, and `sector` what the driver keeps.
pub record Block {ℓ} (A : Type ℓ) : Type ℓ where
  pub size : ℕ
  pub foreign : Bool
  pub sector : ℕ → A
  pub read_cnt : ℕ
  pub write_cnt : ℕ

module _ {ℓ} {A : Type ℓ} where
  unfoldable pub check_sector : Block A → ℕ → Option (Unit {0})
  check_sector block sector = check (ltb sector block.size)

  unfoldable pub block_read : Block A → ℕ → Option (A × Block A)
  unfolding check_sector
  block_read block sector = do
    check_sector block sector
    some (block.sector sector, record block { read_cnt = (block.read_cnt + 1) % 2 ^ 64 })

  unfoldable pub block_write : Block A → ℕ → A → Option (Block A)
  unfolding check_sector
  block_write block sector buffer = do
    check_sector block sector
    check (not block.foreign)
    some (record block {
      sector = update block.sector sector buffer;
      write_cnt = (block.write_cnt + 1) % 2 ^ 64;
    })
