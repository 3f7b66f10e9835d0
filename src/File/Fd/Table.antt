-- ===== src/File/Fd/Table.antt =====
-- The table of descriptors in src/userprog/fd.c.
use csed.Common.{
  ℕ, suc, ◌^◌, ◌≤◌, ◌<◌, ◌≡◌, refl, false, ◌==◌, List, [], ◌∷◌, ◌++◌, none, some, arith, inl, inr,
  if◌then◌else◌, Bool-cases, ap, ◌∙◌,
}
use csed.File.Fd.{FileHandle, lookup_handle_by_fd, fd_to_file, without, is_below_1, file_of}

-- The descriptors rise, from `lo` and below `hi`.
abbrev pub Rising : ℕ → ℕ → List FileHandle → Type 0
Rising lo hi [] = lo ≤ hi
Rising lo hi (h ∷ fd_table) = (lo ≤ h.fd) × Rising (suc h.fd) hi fd_table

pub Rising-mono :
    (lo lo' hi : ℕ) (fd_table : List FileHandle)
    → lo' ≤ lo
    → Rising lo hi fd_table
    → Rising lo' hi fd_table
Rising-mono lo lo' hi [] l r = omega arith
Rising-mono lo lo' hi (h ∷ fd_table) l (p, r) = (omega arith, r)

lo_le_hi : (lo hi : ℕ) (fd_table : List FileHandle) → Rising lo hi fd_table → lo ≤ hi
lo_le_hi lo hi [] r = r
lo_le_hi lo hi (h ∷ fd_table) (p, r) =
    let q : suc h.fd ≤ hi = lo_le_hi (suc h.fd) hi fd_table r in omega arith

lookup_low :
    (lo hi fd : ℕ) (fd_table : List FileHandle)
    → Rising lo hi fd_table
    → fd < lo
    → lookup_handle_by_fd fd_table fd ≡ none
unfolding lookup_handle_by_fd
lookup_low lo hi fd [] r l = refl
lookup_low lo hi fd (h ∷ fd_table) (p, r) l =
    let n : (h.fd == fd) ≡ false = ground arith in
    rw (n) (lookup_low (suc h.fd) hi fd fd_table r (omega arith))

-- A new handle at the end.
pub Rising-snoc :
    (lo hi file : ℕ) (fd_table : List FileHandle)
    → Rising lo hi fd_table
    → Rising lo (suc hi) (fd_table ++ record { fd = hi; file = file } ∷ [])
Rising-snoc lo hi file [] r = (r, omega arith)
Rising-snoc lo hi file (h ∷ fd_table) (p, r) = (p, Rising-snoc (suc h.fd) hi file fd_table r)

pub lookup-snoc :
    (lo hi file fd : ℕ) (fd_table : List FileHandle)
    → Rising lo hi fd_table
    → lookup_handle_by_fd (fd_table ++ record { fd = hi; file = file } ∷ []) fd ≡ (
        if hi == fd
        then some (record { fd = hi; file = file })
        else lookup_handle_by_fd fd_table fd)
unfolding lookup_handle_by_fd
lookup-snoc lo hi file fd [] r = refl
lookup-snoc lo hi file fd (h ∷ fd_table) (p, r) = elim (Bool-cases (h.fd == fd)) [
  | inl e ↦
      let q : suc h.fd ≤ hi = lo_le_hi (suc h.fd) hi fd_table r in
      let n : (hi == fd) ≡ false = ground arith in rw (e, n) refl
  | inr e ↦ rw (e) (lookup-snoc (suc h.fd) hi file fd fd_table r)
]

-- A handle taken out.
pub Rising-without :
    (lo hi fd : ℕ) (fd_table : List FileHandle)
    → Rising lo hi fd_table
    → Rising lo hi (without fd_table fd)
unfolding without
Rising-without lo hi fd [] r = r
Rising-without lo hi fd (h ∷ fd_table) (p, r) = elim (Bool-cases (h.fd == fd)) [
  | inl e ↦ rw (e) (Rising-mono (suc h.fd) lo hi fd_table (omega arith) r)
  | inr e ↦ rw (e) (p, Rising-without (suc h.fd) hi fd fd_table r)
]

pub lookup-without :
    (lo hi fd other : ℕ) (fd_table : List FileHandle)
    → Rising lo hi fd_table
    → lookup_handle_by_fd (without fd_table fd) other
      ≡ (if fd == other then none else lookup_handle_by_fd fd_table other)
unfolding lookup_handle_by_fd without
lookup-without lo hi fd other [] r = elim (Bool-cases (fd == other)) [
  | inl e ↦ rw (e) refl
  | inr e ↦ rw (e) refl
]
lookup-without lo hi fd other (h ∷ fd_table) (p, r) = elim (Bool-cases (h.fd == fd)) [
  | inl e ↦ elim (Bool-cases (fd == other)) [
    | inl o ↦ rw (e, o) (lookup_low (suc h.fd) hi other fd_table r (ground arith))
    | inr o ↦ let n : (h.fd == other) ≡ false = ground arith in rw (e, o, n) refl
  ]
  | inr e ↦ elim (Bool-cases (h.fd == other)) [
    | inl o ↦ let n : (fd == other) ≡ false = ground arith in rw (e, o, n) refl
    | inr o ↦ rw (e, o) (lookup-without (suc h.fd) hi fd other fd_table r)
  ]
]

-- The same of fd_to_file.
pub fd_to_file-snoc :
    (hi file fd : ℕ) (fd_table : List FileHandle)
    → Rising 2 hi fd_table
    → hi < 2 ^ 31
    → fd_to_file (fd_table ++ record { fd = hi; file = file } ∷ []) fd
      ≡ (if hi == fd then some file else fd_to_file fd_table fd)
unfolding fd_to_file
fd_to_file-snoc hi file fd fd_table r l = elim (Bool-cases (hi == fd)) [
  | inl e ↦
      let q : 2 ≤ hi = lo_le_hi 2 hi fd_table r in
      let n : is_below_1 fd ≡ false = ground arith in
      rw (n, e) (ap file_of (lookup-snoc 2 hi file fd fd_table r) ∙ rw (e) refl)
  | inr e ↦ elim (Bool-cases (is_below_1 fd)) [
    | inl b ↦ rw (b, e) refl
    | inr b ↦ rw (b, e) (ap file_of (lookup-snoc 2 hi file fd fd_table r) ∙ rw (e) refl)
  ]
]

pub fd_to_file-without :
    (hi fd other : ℕ) (fd_table : List FileHandle)
    → Rising 2 hi fd_table
    → fd_to_file (without fd_table fd) other
      ≡ (if fd == other then none else fd_to_file fd_table other)
unfolding fd_to_file
fd_to_file-without hi fd other fd_table r = elim (Bool-cases (is_below_1 other)) [
  | inl b ↦ elim (Bool-cases (fd == other)) [ inl e ↦ rw (b, e) refl | inr e ↦ rw (b, e) refl ]
  | inr b ↦ elim (Bool-cases (fd == other)) [
    | inl e ↦ rw (b, e) (ap file_of (lookup-without 2 hi fd other fd_table r) ∙ rw (e) refl)
    | inr e ↦ rw (b, e) (ap file_of (lookup-without 2 hi fd other fd_table r) ∙ rw (e) refl)
  ]
]
