-- ===== src/Hash/Bytes.antt =====
-- The hash functions of src/lib/kernel/hash.c for bytes, strings and integers.
use csed.Common.{
  ℕ, ◌*◌, ◌/◌, ◌%◌, ◌^◌, ◌≤◌, ◌<◌, ◌≡◌, refl, ◌==◌, List, [], ◌∷◌, ◌++◌, none, some, arith, Option,
  if◌then◌else◌, bit_xor,
}
use csed.Common.Masks.{xor_bound}

-- FNV_32_PRIME and FNV_32_BASIS.
abbrev pub fnv_32_prime : ℕ
fnv_32_prime = 16777619

abbrev pub fnv_32_basis : ℕ
fnv_32_basis = 2166136261

abbrev fold_byte : ℕ → ℕ → ℕ
fold_byte hash byte = bit_xor (hash * fnv_32_prime % 2 ^ 32) byte

unfoldable pub hash_more : ℕ → List ℕ → ℕ
hash_more hash [] = hash
hash_more hash (byte ∷ buf) = hash_more (fold_byte hash byte) buf

-- The list is the SIZE bytes.
unfoldable pub hash_bytes : List ℕ → ℕ
hash_bytes buf = hash_more fnv_32_basis buf

-- The list is the memory from the string on; `none` if no byte of it is '\0'.
unfoldable pub string_more : ℕ → List ℕ → Option ℕ
string_more hash [] = none
string_more hash (byte ∷ s) =
    let rest = string_more (fold_byte hash byte) s in if byte == 0 then some hash else rest

unfoldable pub hash_string : List ℕ → Option ℕ
hash_string s = string_more fnv_32_basis s

-- The bytes of an `int` in memory, whose bits are `i`.
unfoldable pub hash_int : ℕ → ℕ
hash_int i =
    hash_bytes (i % 256 ∷ i / 256 % 256 ∷ i / 256 / 256 % 256 ∷ i / 256 / 256 / 256 % 256 ∷ [])

-- Every byte of a list is a byte, and none is '\0'.
pub data AreChars : List ℕ → Type 0 where
  end : AreChars []
  next : {c : ℕ} {s : List ℕ} → c < 256 → 1 ≤ c → AreChars s → AreChars (c ∷ s)

string_more_eq :
    (hash : ℕ) (s rest : List ℕ)
    → AreChars s
    → string_more hash (s ++ 0 ∷ rest) ≡ some (hash_more hash s)
unfolding string_more hash_more
string_more_eq hash [] rest c = refl
string_more_eq hash (b ∷ s) rest (next p q c) =
    ground (arith, string_more_eq (fold_byte hash b) s rest c)

hash_more_bound : (hash : ℕ) (s : List ℕ) → hash < 2 ^ 32 → AreChars s → hash_more hash s < 2 ^ 32
unfolding hash_more
hash_more_bound hash [] h c = h
hash_more_bound hash (b ∷ s) h (next p q c) =
    hash_more_bound (fold_byte hash b) s
      (xor_bound 32 (hash * fnv_32_prime % 2 ^ 32) b (omega arith) (omega arith)) c

-- hash_string of a string is hash_bytes of the bytes before its '\0', and fits an `unsigned`.
pub hash_string_lem :
    (s rest : List ℕ)
    → AreChars s
    → (hash_string (s ++ 0 ∷ rest) ≡ some (hash_bytes s)) × (hash_bytes s < 2 ^ 32)
unfolding hash_string hash_bytes
hash_string_lem s rest c =
    (string_more_eq fnv_32_basis s rest c, hash_more_bound fnv_32_basis s (omega arith) c)
