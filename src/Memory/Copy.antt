-- ===== src/Memory/Copy.antt =====
-- strlen, strnlen and strlcpy in src/lib/string.c.
use csed.Common.{
  ℕ, zero, suc, ◌+◌, ◌-◌, ◌≤◌, ◌<◌, ◌≡◌, ◌≢◌, ◌⊎◌, refl, true, false, ◌==◌, ltb, arith, inl, inr,
  if◌then◌else◌, Bool-cases, update, update_other, update_same, ap, ◌∙◌, min, some,
}
use csed.Memory.{Bytes, memcpy, strlen, strnlen, strlcpy, copy_up}
use csed.Memory.Move.{copied, copy_up_eq}

-- A string of so many characters.
pub record IsString (byte : Bytes) (string len : ℕ) : Type 0 where
  pub chars : (i : ℕ) → i < len → byte (string + i) ≢ 0
  pub finish : byte (string + len) ≡ 0

rest-IsString :
    (byte : Bytes) (string len : ℕ)
    → IsString byte string (suc len)
    → IsString byte (suc string) len
rest-IsString byte string len v = record {
  chars = λ i l e.
      let q : string + suc i ≡ suc string + i = omega arith in
      v.chars (suc i) (omega arith) (ap byte q ∙ e);
  finish = let q : suc string + len ≡ string + suc len = omega arith in ap byte q ∙ v.finish;
}

first_char :
    (byte : Bytes) (string len : ℕ) → IsString byte string (suc len) → (byte string == 0) ≡ false
first_char byte string len v = elim (Bool-cases (byte string == 0)) [
  | inl e ↦
      let q : string + 0 ≡ string = omega arith in
      absurd (v.chars 0 (omega arith) (ap byte q ∙ ground arith))
  | inr e ↦ e
]

last_char : (byte : Bytes) (string : ℕ) → IsString byte string 0 → (byte string == 0) ≡ true
last_char byte string v =
    let q : string ≡ string + 0 = omega arith in
    let e : byte string ≡ 0 = ap byte q ∙ v.finish in ground arith

strlen_eq :
    (rounds string len : ℕ) (byte : Bytes)
    → IsString byte string len
    → len < rounds
    → strlen rounds string byte ≡ some len
unfolding strlen
strlen_eq zero string len byte v h = absurd (omega arith)
strlen_eq (suc rounds) string zero byte v h = rw (last_char byte string v) refl
strlen_eq (suc rounds) string (suc len) byte v h =
    rw
      (
        first_char byte string len v,
        strlen_eq rounds (suc string) len byte (rest-IsString byte string len v) (omega arith),
      )
      refl

strnlen_eq :
    (maxlen string len : ℕ) (byte : Bytes)
    → IsString byte string len
    → strnlen string maxlen byte ≡ min len maxlen
unfolding strnlen
strnlen_eq zero string len byte v = omega arith
strnlen_eq (suc maxlen) string zero byte v = rw (last_char byte string v) (omega arith)
strnlen_eq (suc maxlen) string (suc len) byte v =
    rw
      (
        first_char byte string len v,
        strnlen_eq maxlen (suc string) len byte (rest-IsString byte string len v),
      )
      (omega arith)

-- strlcpy to a buffer of `size` bytes, apart from the string, returns the length of the string. With
-- room for a byte it leaves in the buffer as much of the string as fits before a '\0', and that '\0';
-- it writes nothing outside the buffer, and nothing at all to a buffer of no bytes. The rounds for
-- strlen are more than the string's length.
pub strlcpy_lem :
    (rounds dst src size len : ℕ) (byte : Bytes)
    → IsString byte src len
    → len < rounds
    → (dst + size ≤ src) ⊎ (src + len < dst)
    → (byte' : Bytes) × (strlcpy rounds dst src size byte ≡ some (len, byte'))
      × (1 ≤ size
          → ((i : ℕ) → i < min len (size - 1) → byte' (dst + i) ≡ byte (src + i))
            × (byte' (dst + min len (size - 1)) ≡ 0))
      × ((a : ℕ) → (a < dst) ⊎ (dst + size ≤ a) → byte' a ≡ byte a)
unfolding strlcpy memcpy
strlcpy_lem rounds dst src zero len byte v h d =
    (byte, rw (strlen_eq rounds src len byte v h) refl, (λ l. absurd (omega arith)), λ a o. refl)
strlcpy_lem rounds dst src (suc room) len byte v h d = (
  update (copy_up n dst src byte) (dst + n) 0,
  rw (strlen_eq rounds src len byte v h) refl,
  (λ l. (
    (λ i m.
        update_other (copy_up n dst src byte) (dst + n) (dst + i) 0 (λ e. absurd (ground arith))
        ∙ copy_up_eq n dst src byte (apart d) (dst + i)
        ∙ inside i (ground arith)),
    update_same (copy_up n dst src byte) (dst + n) (dst + min len (suc room - 1)) 0 (ground arith),
  )),
  λ a o.
      update_other (copy_up n dst src byte) (dst + n) a 0 (off a o)
      ∙ copy_up_eq n dst src byte (apart d) a
      ∙ outside a o,
)
  where
    n : ℕ
    n = if ltb len room then len else room

    apart :
        (dst + suc room ≤ src) ⊎ (src + len < dst)
        → (dst ≤ src) ⊎ (src + (if ltb len room then len else room) ≤ dst)
    apart (inl h) = inl (omega arith)
    apart (inr h) = inr (ground arith)

    inside :
        (i : ℕ)
        → i < (if ltb len room then len else room)
        → copied dst src (if ltb len room then len else room) byte (dst + i) ≡ byte (src + i)
    inside i l = let e : src + (dst + i - dst) ≡ src + i = omega arith in ground (arith, ap byte e)

    off :
        (a : ℕ) → (a < dst) ⊎ (dst + suc room ≤ a) → dst + (if ltb len room then len else room) ≢ a
    off a (inl h) e = absurd (ground arith)
    off a (inr h) e = absurd (ground arith)

    outside :
        (a : ℕ)
        → (a < dst) ⊎ (dst + suc room ≤ a)
        → copied dst src (if ltb len room then len else room) byte a ≡ byte a
    outside a (inl h) = ground arith
    outside a (inr h) = ground arith
