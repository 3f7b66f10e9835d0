-- ===== src/Memory/Move.antt =====
-- memcpy and memmove in src/lib/string.c.
use csed.Common.{
  ℕ, zero, suc, ◌+◌, ◌-◌, ◌≤◌, ◌<◌, ◌≡◌, ◌⊎◌, refl, false, ◌==◌, ltb, leb, ◌&&◌, arith, inl, inr,
  if◌then◌else◌, Bool-cases, update, ap, sym, ◌∙◌,
}
use csed.Memory.{Bytes, copy_up, copy_down, memcpy, memmove}

-- The memory with the block at `src` also at `dst`, and every other byte as before.
abbrev pub copied : ℕ → ℕ → ℕ → Bytes → Bytes
copied dst src size byte a =
    if leb dst a && ltb a (dst + size) then byte (src + (a - dst)) else byte a

pub copy_up_eq :
    (size dst src : ℕ) (byte : Bytes)
    → (dst ≤ src) ⊎ (src + size ≤ dst)
    → (a : ℕ) → copy_up size dst src byte a ≡ copied dst src size byte a
unfolding copy_up
copy_up_eq zero dst src byte h a = ground arith
copy_up_eq (suc size) dst src byte h a =
    copy_up_eq size (suc dst) (suc src) (update byte dst (byte src)) (later h) a ∙ by_place
  where
    later : (dst ≤ src) ⊎ (src + suc size ≤ dst) → (suc dst ≤ suc src) ⊎ (suc src + size ≤ suc dst)
    later (inl h) = inl (omega arith)
    later (inr h) = inr (omega arith)

    apart :
        (dst ≤ src) ⊎ (src + suc size ≤ dst)
        → (dst < a) × (a < dst + suc size)
        → (dst == suc src + (a - suc dst)) ≡ false
    apart (inl h) (p, q) = ground arith
    apart (inr h) (p, q) = ground arith

    by_place :
        copied (suc dst) (suc src) size (update byte dst (byte src)) a
        ≡ copied dst src (suc size) byte a
    by_place = elim (Bool-cases (leb (suc dst) a && ltb a (dst + suc size))) [
      | inl p ↦
          let e : suc src + (a - suc dst) ≡ src + (a - dst) = ground arith in
          let n : (dst == suc src + (a - suc dst)) ≡ false = apart h (ground arith, ground arith) in
          ground (arith, n, ap byte e)
      | inr p ↦ elim (Bool-cases (dst == a)) [
        | inl q ↦ let e : src + (a - dst) ≡ src = ground arith in ground (arith, ap byte e)
        | inr q ↦ ground arith
      ]
    ]

copy_down_eq :
    (size dst src : ℕ) (byte : Bytes)
    → src ≤ dst
    → (a : ℕ) → copy_down size dst src byte a ≡ copied dst src size byte a
unfolding copy_down
copy_down_eq zero dst src byte h a = ground arith
copy_down_eq (suc size) dst src byte h a =
    copy_down_eq size dst src (update byte (dst + size) (byte (src + size))) h a ∙ by_place
  where
    by_place :
        copied dst src size (update byte (dst + size) (byte (src + size))) a
        ≡ copied dst src (suc size) byte a
    by_place = elim (Bool-cases (leb dst a && ltb a (dst + size))) [
      | inl p ↦ let n : (dst + size == src + (a - dst)) ≡ false = ground arith in ground (arith, n)
      | inr p ↦ elim (Bool-cases (dst + size == a)) [
        | inl q ↦ let e : src + (a - dst) ≡ src + size = ground arith in ground (arith, ap byte e)
        | inr q ↦ ground arith
      ]
    ]

-- memmove leaves at `dst` what was at `src`, also if the blocks overlap, and every other byte; it
-- returns the end of the block at `dst` if that is below `src`, and `dst` otherwise. memcpy of blocks
-- that do not overlap leaves the same memory, and returns `dst`.
pub memmove_lem :
    (dst src size : ℕ) (byte : Bytes)
    → ((a : ℕ) → (memmove dst src size byte).1 a ≡ copied dst src size byte a)
      × ((memmove dst src size byte).0 ≡ (if ltb dst src then dst + size else dst))
      × ((dst + size ≤ src) ⊎ (src + size ≤ dst)
          → ((a : ℕ) → (memcpy dst src size byte).1 a ≡ (memmove dst src size byte).1 a)
            × ((memcpy dst src size byte).0 ≡ dst))
unfolding memmove memcpy
memmove_lem dst src size byte = (moved, returned, λ h. (λ a. up h a ∙ sym (moved a), refl))
  where
    moved : (a : ℕ) → (memmove dst src size byte).1 a ≡ copied dst src size byte a
    moved a = elim (Bool-cases (ltb dst src)) [
      | inl p ↦ simp (p) (copy_up_eq size dst src byte (inl (ground arith)) a)
      | inr p ↦ simp (p) (copy_down_eq size dst src byte (ground arith) a)
    ]

    returned : (memmove dst src size byte).0 ≡ (if ltb dst src then dst + size else dst)
    returned = elim (Bool-cases (ltb dst src)) [ inl p ↦ simp (p) refl | inr p ↦ simp (p) refl ]

    up :
        (dst + size ≤ src) ⊎ (src + size ≤ dst)
        → (a : ℕ) → copy_up size dst src byte a ≡ copied dst src size byte a
    up (inl h) a = copy_up_eq size dst src byte (inl (omega arith)) a
    up (inr h) a = copy_up_eq size dst src byte (inr h) a
