-- ===== src/Bitmap.antt =====
-- src/lib/kernel/bitmap.c and bitmap.h: bitmaps in 32-bit words. The caller passes a bitmap, never
-- NULL. A word outside the array is undefined in C; here it reads as 0 and a write to it is lost.
pub mod Single
pub mod Multiple
pub mod Scan
mod Tests
use csed.Common.{
  ℕ, zero, suc, ◌+◌, ◌-◌, ◌*◌, ◌/◌, ◌%◌, ◌^◌, Bool, true, false, not, ◌==◌, ltb, leb, List, Option,
  none, some, ◌>>=◌, ◌>>◌, check, get_or, set, replicate, length, bit_and, bit_or, bit_xor,
  if◌then◌else◌,
}

-- `struct bitmap`
pub record Bitmap : Type 0 where
  pub bit_cnt : ℕ
  pub bits : List ℕ

abbrev pub elem_bits : ℕ
elem_bits = 32

abbrev pub bitmap_error : ℕ
bitmap_error = 2 ^ 32 - 1

abbrev pub elem_idx : ℕ → ℕ
elem_idx bit_idx = bit_idx / 32

abbrev pub bit_mask : ℕ → ℕ
bit_mask bit_idx = 2 ^ (bit_idx % 32)

-- DIV_ROUND_UP in `size_t`.
abbrev pub elem_cnt : ℕ → ℕ
elem_cnt bit_cnt = (bit_cnt + 32 - 1) % 2 ^ 32 / 32

abbrev pub byte_cnt : ℕ → ℕ
byte_cnt bit_cnt = 4 * elem_cnt bit_cnt

abbrev pub last_mask : Bitmap → ℕ
last_mask b =
    let last_bits = b.bit_cnt % 32 in if not (last_bits == 0) then 2 ^ last_bits - 1 else 2 ^ 32 - 1

abbrev pub bitmap_size : Bitmap → ℕ
bitmap_size b = b.bit_cnt

unfoldable pub bitmap_mark : Bitmap → ℕ → Bitmap
bitmap_mark b bit_idx =
    let idx = elem_idx bit_idx in
    let mask = bit_mask bit_idx in
    record b { bits = set b.bits idx (bit_or (get_or b.bits idx 0) mask) }

unfoldable pub bitmap_reset : Bitmap → ℕ → Bitmap
bitmap_reset b bit_idx =
    let idx = elem_idx bit_idx in
    let mask = bit_mask bit_idx in
    record b { bits = set b.bits idx (bit_and (get_or b.bits idx 0) (2 ^ 32 - 1 - mask)) }

unfoldable pub bitmap_flip : Bitmap → ℕ → Bitmap
bitmap_flip b bit_idx =
    let idx = elem_idx bit_idx in
    let mask = bit_mask bit_idx in
    record b { bits = set b.bits idx (bit_xor (get_or b.bits idx 0) mask) }

unfoldable pub bitmap_set : Bitmap → ℕ → Bool → Option Bitmap
unfolding bitmap_mark bitmap_reset
bitmap_set b idx value = do
  check (ltb idx b.bit_cnt)
  some (if value then bitmap_mark b idx else bitmap_reset b idx)

unfoldable pub bitmap_test : Bitmap → ℕ → Option Bool
bitmap_test b idx = do
  check (ltb idx b.bit_cnt)
  some (not (bit_and (get_or b.bits (elem_idx idx) 0) (bit_mask idx) == 0))

-- The assertions of the functions on ranges; the sum is a `size_t`.
abbrev pub in_range : Bitmap → ℕ → ℕ → Bool
in_range b start cnt = if leb start b.bit_cnt then leb ((start + cnt) % 2 ^ 32) b.bit_cnt else false

-- `same a b` is `a == b` for `bool`.
abbrev pub same : Bool → Bool → Bool
same true b = b
same false b = not b

unfoldable pub set_from : ℕ → ℕ → Bool → Bitmap → Option Bitmap
set_from i zero value b = some b
set_from i (suc cnt) value b = bitmap_set b i value >>= set_from (suc i) cnt value

unfoldable pub bitmap_set_multiple : Bitmap → ℕ → ℕ → Bool → Option Bitmap
bitmap_set_multiple b start cnt value = check (in_range b start cnt) >> set_from start cnt value b

unfoldable pub bitmap_set_all : Bitmap → Bool → Option Bitmap
bitmap_set_all b value = bitmap_set_multiple b 0 (bitmap_size b) value

unfoldable pub count_from : Bitmap → ℕ → ℕ → Bool → Option ℕ
count_from b i zero value = some 0
count_from b i (suc cnt) value = do
  v ← bitmap_test b i
  rest ← count_from b (suc i) cnt value
  some (if same v value then suc rest else rest)

unfoldable pub bitmap_count : Bitmap → ℕ → ℕ → Bool → Option ℕ
bitmap_count b start cnt value = check (in_range b start cnt) >> count_from b start cnt value

unfoldable pub contains_from : Bitmap → ℕ → ℕ → Bool → Option Bool
contains_from b i zero value = some false
contains_from b i (suc cnt) value = do
  v ← bitmap_test b i
  elim (same v value) [ true ↦ some true | false ↦ contains_from b (suc i) cnt value ]

unfoldable pub bitmap_contains : Bitmap → ℕ → ℕ → Bool → Option Bool
bitmap_contains b start cnt value = check (in_range b start cnt) >> contains_from b start cnt value

unfoldable pub bitmap_any : Bitmap → ℕ → ℕ → Option Bool
bitmap_any b start cnt = bitmap_contains b start cnt true

unfoldable pub bitmap_none : Bitmap → ℕ → ℕ → Option Bool
bitmap_none b start cnt = do r ← bitmap_contains b start cnt true; some (not r)

unfoldable pub bitmap_all : Bitmap → ℕ → ℕ → Option Bool
bitmap_all b start cnt = do r ← bitmap_contains b start cnt false; some (not r)

-- The rounds of bitmap_scan from `i` on; `rounds` of them are left up to `last`.
unfoldable pub scan_from : Bitmap → ℕ → ℕ → ℕ → Bool → Option ℕ
scan_from b i zero cnt value = some bitmap_error
scan_from b i (suc rounds) cnt value = do
  r ← bitmap_contains b i cnt (not value)
  elim r [ false ↦ some i | true ↦ scan_from b (suc i) rounds cnt value ]

unfoldable pub bitmap_scan : Bitmap → ℕ → ℕ → Bool → Option ℕ
bitmap_scan b start cnt value = do
  check (leb start b.bit_cnt)
  elim (leb cnt b.bit_cnt) [
    | true ↦ scan_from b start (b.bit_cnt - cnt + 1 - start) cnt value
    | false ↦ some bitmap_error
  ]

unfoldable pub bitmap_scan_and_flip : Bitmap → ℕ → ℕ → Bool → Option (ℕ × Bitmap)
bitmap_scan_and_flip b start cnt value = do
  idx ← bitmap_scan b start cnt value
  elim (idx == bitmap_error) [
    | true ↦ some (idx, b)
    | false ↦ (do b' ← bitmap_set_multiple b idx cnt (not value); some (idx, b'))
  ]

-- `fresh` is what malloc returns for the words; `none` if there is no memory. The outer `none` is a panic.
unfoldable pub bitmap_create : ℕ → Option (List ℕ) → Option (Option Bitmap)
bitmap_create bit_cnt none =
    if bit_cnt == 0 then some (some (record { bit_cnt = 0; bits = List.[] })) else some none
bitmap_create bit_cnt (some fresh) = do
  b ← bitmap_set_all (record { bit_cnt = bit_cnt; bits = fresh }) false
  some (some b)
