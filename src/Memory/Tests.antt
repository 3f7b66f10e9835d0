-- ===== src/Memory/Tests.antt =====
-- src/lib/string.c on concrete memories.
use csed.Common.{ℕ, ◌+◌, ◌-◌, ◌≤◌, ◌<◌, ◌≡◌, ◌⊎◌, refl, ltb, arith, inl, if◌then◌else◌, min, some}
use csed.Memory.{
  Bytes, copy_up, copy_down, memcpy, memmove, memcmp, memchr, memset, Sign, strlen, strnlen,
  strlcpy,
}
use csed.Memory.Move.{copied, memmove_lem}
use csed.Memory.Copy.{IsString, strlcpy_lem}

-- The byte at an address is the address, up to 200, and 0 from there.
abbrev counting : Bytes
counting a = if ltb a 200 then a else 0

moved_up : (memmove 102 100 4 counting).1 105 ≡ 103
unfolding memmove copy_up copy_down
moved_up = refl

moved_down : (memmove 100 102 4 counting).1 100 ≡ 102
unfolding memmove copy_up copy_down
moved_down = refl

compared : memcmp 100 101 3 counting ≡ Sign.negative
unfolding memcmp
compared = refl

found : memchr 100 359 5 counting ≡ some 103
unfolding memchr
found = refl

filled : memset 100 263 2 counting 101 ≡ 7
unfolding memset
filled = refl

counted : strlen 6 195 counting ≡ some 5
unfolding strlen
counted = refl

limited : strnlen 195 3 counting ≡ 3
unfolding strnlen
limited = refl

counting-IsString : IsString counting 195 5
counting-IsString = record { chars = λ i l e. absurd (ground arith); finish = refl }

memmove_example :
    ((a : ℕ) → (memmove 100 102 4 counting).1 a ≡ copied 100 102 4 counting a)
    × ((memmove 100 102 4 counting).0 ≡ (if ltb 100 102 then 100 + 4 else 100))
    × ((100 + 4 ≤ 102) ⊎ (102 + 4 ≤ 100)
        → ((a : ℕ) → (memcpy 100 102 4 counting).1 a ≡ (memmove 100 102 4 counting).1 a)
          × ((memcpy 100 102 4 counting).0 ≡ 100))
memmove_example = memmove_lem 100 102 4 counting

strlcpy_example :
    (byte' : Bytes) × (strlcpy 6 100 195 4 counting ≡ some (5, byte'))
    × (1 ≤ 4
        → ((i : ℕ) → i < min 5 (4 - 1) → byte' (100 + i) ≡ counting (195 + i))
          × (byte' (100 + min 5 (4 - 1)) ≡ 0))
    × ((a : ℕ) → (a < 100) ⊎ (100 + 4 ≤ a) → byte' a ≡ counting a)
strlcpy_example =
    strlcpy_lem 6 100 195 4 5 counting counting-IsString (omega arith) (inl (omega arith))
