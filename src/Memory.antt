-- ===== src/Memory.antt =====
-- src/lib/string.c: blocks and strings in memory, by the addresses of bytes. A block does not wrap
-- around the end of memory, and the caller passes no null pointer.
pub mod Move
pub mod Copy
mod Tests
use csed.Common.{
  ℕ, zero, suc, ◌+◌, ◌-◌, ◌%◌, ◌^◌, Bool, true, false, ◌==◌, ltb, Option, none, some, ◌>>=◌, update,
  if◌then◌else◌,
}

abbrev pub Bytes : Type 0
Bytes = ℕ → ℕ

-- `*dst++ = *src++`, `size` times.
unfoldable pub copy_up : ℕ → ℕ → ℕ → Bytes → Bytes
copy_up zero dst src byte = byte
copy_up (suc size) dst src byte = copy_up size (suc dst) (suc src) (update byte dst (byte src))

-- `*--dst = *--src`, `size` times, from the ends of the blocks.
unfoldable pub copy_down : ℕ → ℕ → ℕ → Bytes → Bytes
copy_down zero dst src byte = byte
copy_down (suc size) dst src byte =
    copy_down size dst src (update byte (dst + size) (byte (src + size)))

-- The functions return an address and the memory.
unfoldable pub memcpy : ℕ → ℕ → ℕ → Bytes → ℕ × Bytes
memcpy dst src size byte = (dst, copy_up size dst src byte)

-- It returns `dst` as the loop leaves it.
unfoldable pub memmove : ℕ → ℕ → ℕ → Bytes → ℕ × Bytes
memmove dst src size byte =
    if ltb dst src
    then (dst + size, copy_up size dst src byte)
    else (dst, copy_down size dst src byte)

-- The sign of the result.
pub data Sign : Type 0 where
  negative zero_sign positive : Sign

unfoldable pub memcmp : ℕ → ℕ → ℕ → Bytes → Sign
memcmp a b zero byte = Sign.zero_sign
memcmp a b (suc size) byte =
    let rest = memcmp (suc a) (suc b) size byte in
    if byte a == byte b
    then rest
    else if ltb (byte b) (byte a)
    then Sign.positive
    else Sign.negative

unfoldable pub memchr : ℕ → ℕ → ℕ → Bytes → Option ℕ
memchr block ch zero byte = none
memchr block ch (suc size) byte =
    let rest = memchr (suc block) ch size byte in
    if byte block == ch % 2 ^ 8 then some block else rest

unfoldable pub memset : ℕ → ℕ → ℕ → Bytes → Bytes
memset dst value zero byte = byte
memset dst value (suc size) byte = memset (suc dst) value size (update byte dst (value % 2 ^ 8))

-- `p - string` for the first `p` with a '\0', among so many; `none` if there is none.
unfoldable pub strlen : ℕ → ℕ → Bytes → Option ℕ
strlen zero string byte = none
strlen (suc rounds) string byte =
    let rest = strlen rounds (suc string) byte in
    if byte string == 0 then some 0 else rest >>= λ n. some (suc n)

unfoldable pub strnlen : ℕ → ℕ → Bytes → ℕ
strnlen string zero byte = 0
strnlen string (suc maxlen) byte =
    let rest = strnlen (suc string) maxlen byte in if byte string == 0 then 0 else suc rest

-- The length of `src` and the memory.
unfoldable pub strlcpy : ℕ → ℕ → ℕ → ℕ → Bytes → Option (ℕ × Bytes)
strlcpy rounds dst src zero byte = do src_len ← strlen rounds src byte; some (src_len, byte)
strlcpy rounds dst src (suc room) byte = do
  src_len ← strlen rounds src byte
  let dst_len = if ltb src_len room then src_len else room in
      some (src_len, update (memcpy dst src dst_len byte).1 (dst + dst_len) 0)
