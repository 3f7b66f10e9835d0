-- ===== src/Palloc.antt =====
-- src/threads/palloc.c: pages from two pools. The functions take the lock of a pool for the scan of its
-- bitmap only, and are steps here. `byte` is the memory, and 0 is NULL.
pub mod Pages
pub mod Get
mod Tests
use csed.Common.{
  ℕ, zero, suc, ◌+◌, ◌-◌, ◌*◌, ◌/◌, ◌%◌, ◌^◌, Bool, true, false, not, ◌&&◌, ◌||◌, ◌==◌, leb, ltb,
  Option, none, some, ◌>>=◌, ◌>>◌, check, if◌then◌else◌,
}
use csed.Bitmap.{
  Bitmap, bitmap_error, bitmap_size, bitmap_all, bitmap_set_multiple, bitmap_scan_and_flip,
}

-- `struct pool`
pub record Pool : Type 0 where
  pub used_map : Bitmap
  pub base : ℕ

pub record Memory : Type 0 where
  pub kernel_pool : Pool
  pub user_pool : Pool
  pub byte : ℕ → ℕ

-- `enum palloc_flags`: PAL_ASSERT, PAL_ZERO and PAL_USER.
pub record Flags : Type 0 where
  pub pal_assert : Bool
  pub pal_zero : Bool
  pub pal_user : Bool

abbrev pub pgsize : ℕ
pgsize = 4096

abbrev pub pg_no : ℕ → ℕ
pg_no va = va / 4096

abbrev pub pg_ofs : ℕ → ℕ
pg_ofs va = va % 4096

abbrev pub get_pool : Bool → Memory → Pool
get_pool user m = if user then m.user_pool else m.kernel_pool

abbrev pub put_map : Bool → Bitmap → Memory → Memory
put_map true map m = record m { user_pool = record m.user_pool { used_map = map } }
put_map false map m = record m { kernel_pool = record m.kernel_pool { used_map = map } }

abbrev pub memset : ℕ → ℕ → ℕ → Memory → Memory
memset dst value size m = record m {
  byte = λ a. if leb dst a && ltb a (dst + size) then value else m.byte a;
}

abbrev pub page_from_pool : Pool → ℕ → Bool
page_from_pool pool page =
    let start_page = pg_no pool.base in
    leb start_page (pg_no page) && ltb (pg_no page) (start_page + bitmap_size pool.used_map)

-- The address of page `page_idx` of the pool, or NULL.
abbrev pub page_at : Pool → ℕ → ℕ
page_at pool page_idx =
    if page_idx == bitmap_error then 0 else (pool.base + 4096 * page_idx) % 2 ^ 32

unfoldable pub palloc_get_multiple : Flags → ℕ → Memory → Option (ℕ × Memory)
palloc_get_multiple flags page_cnt m = elim (page_cnt == 0) [
  | true ↦ some (0, m)
  | false ↦ (do
    let pool = get_pool flags.pal_user m
    (page_idx, map) ← bitmap_scan_and_flip pool.used_map 0 page_cnt false
    let m' = put_map flags.pal_user map m
    let pages = page_at pool page_idx
    elim (pages == 0) [
      | false ↦ some (pages, if flags.pal_zero then memset pages 0 (4096 * page_cnt) m' else m')
      | true ↦ check (not flags.pal_assert) >> some (0, m')
    ])
]

unfoldable pub palloc_get_page : Flags → Memory → Option (ℕ × Memory)
palloc_get_page flags m = palloc_get_multiple flags 1 m

-- Which pool the page is from; NOT_REACHED if from none.
unfoldable pub find_pool : ℕ → Memory → Option Bool
find_pool pages m =
    if page_from_pool m.kernel_pool pages
    then some false
    else if page_from_pool m.user_pool pages
    then some true
    else none

unfoldable pub palloc_free_multiple : ℕ → ℕ → Memory → Option Memory
palloc_free_multiple pages page_cnt m = do
  check (pg_ofs pages == 0)
  elim (pages == 0 || page_cnt == 0) [
    | true ↦ some m
    | false ↦ (do
      user ← find_pool pages m
      let pool = get_pool user m
      let page_idx = pg_no pages - pg_no pool.base
      let m' = memset pages 0xcc (4096 * page_cnt) m
      all ← bitmap_all pool.used_map page_idx page_cnt
      check all
      map ← bitmap_set_multiple pool.used_map page_idx page_cnt false
      some (put_map user map m'))
  ]

unfoldable pub palloc_free_page : ℕ → Memory → Option Memory
palloc_free_page page m = palloc_free_multiple page 1 m
