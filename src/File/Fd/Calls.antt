-- ===== src/File/Fd/Calls.antt =====
-- The system calls on descriptors in src/userprog/syscall.c.
use csed.Common.{
  ℕ, suc, ◌+◌, ◌%◌, ◌^◌, ◌≤◌, ◌<◌, ◌≡◌, ◌↔◌, subst, Option-cases, refl, Bool, true, false, ◌==◌,
  ltb, List, [], ◌∷◌, ◌++◌, Option, none, some, ◌>>=◌, arith, inl, inr, if◌then◌else◌, Bool-cases,
  ap, sym, ◌∙◌, ==_refl, update,
}
use csed.File.{
  Inodes, File, Files, file_open, file_close, file_allow_write, file_length, file_seek, file_tell,
}
use csed.File.Fd.{
  FileHandle, Process, fd_to_file, without, is_below_1, sys_open, open_handle, with_files,
  sys_close, close_file, sys_filesize, sys_seek, seek_file, sys_tell, tell_file,
}
use csed.File.Fd.Table.{Rising, Rising-snoc, Rising-without, fd_to_file-snoc, fd_to_file-without}

-- The descriptors rise, the next one is above them, and no open file denies writes.
pub record IsSound {S : Type 0} (s : Process S) : Type 0 where
  pub order : Rising 2 s.next_fd s.fd_table
  pub room : s.next_fd ≤ 2 ^ 31
  pub writable :
      (fd p : ℕ) → fd_to_file s.fd_table fd ≡ some p → (s.files.file p).deny_write ≡ false

below_1_false :
    (fd p : ℕ) (fd_table : List FileHandle)
    → fd_to_file fd_table fd ≡ some p
    → is_below_1 fd ≡ false
unfolding fd_to_file
below_1_false fd p fd_table e = elim (Bool-cases (is_below_1 fd)) [
  | inl b ↦ absurd (cc (e, b))
  | inr b ↦ b
]

some_injective : (p q : ℕ) → some p ≡ some q → p ≡ q
some_injective p q e = cc (e)

-- The files after a call of file_open.
deny_write-update :
    (file : ℕ → File) (p i q : ℕ) (is_new : Bool) (old found : Option ℕ)
    → found ≡ (if is_new then some p else old)
    → found ≡ some q
    → (old ≡ some q → (file q).deny_write ≡ false)
    → (update file p (record { inode = i; pos = 0; deny_write = false }) q).deny_write ≡ false
deny_write-update file p i q is_new old found e h k = elim (Bool-cases (p == q)) [
  | inl b ↦ rw (b) refl
  | inr b ↦ rw (b) (by_origin b is_new e)
]
  where
    by_origin :
        (p == q) ≡ false
        → (is_new : Bool) → found ≡ (if is_new then some p else old)
        → (file q).deny_write ≡ false
    by_origin b true e =
        let n : p ≡ q = some_injective p q (sym e ∙ h) in absurd (ground (arith, n, b))
    by_origin b false e = k (sym e ∙ h)

sys_tell_eq :
    {S : Type 0} (garbage fd p : ℕ) (s : Process S)
    → fd_to_file s.fd_table fd ≡ some p
    → sys_tell garbage fd s ≡ some (s.files.file p).pos
unfolding sys_tell tell_file file_tell
sys_tell_eq garbage fd p s e = rw (below_1_false fd p s.fd_table e, e) refl

module _ {S : Type 0} (ops : Inodes S) where
  close_writable :
      (p : ℕ) (s : Files S) (t : S)
      → (s.file p).deny_write ≡ false
      → ops.inode_close (s.file p).inode s.inodes ≡ some t
      → file_close ops (some p) s ≡ some (record { file = s.file; inodes = t })
  unfolding file_close file_allow_write
  close_writable p s t d c = rw (d) (rw (c) refl)

  -- sys_open of a file that is there, with memory for its records, returns the next descriptor, which
  -- then refers to the file, at position 0; each other descriptor refers to what it did, and the table
  -- stays consistent. Without memory for the handle it closes the inode and returns -1, and a name that
  -- is not found gives -1 and changes nothing. The table is consistent and the next descriptor is an
  -- int.
  pub sys_open_lem :
      (i p garbage : ℕ) (s : Process S)
      → IsSound s
      → s.next_fd < 2 ^ 31
      → ((s' : Process S) × (sys_open ops (some i) (some p) true s ≡ some (some s.next_fd, s'))
          × IsSound s'
          × ((fd : ℕ)
              → fd_to_file s'.fd_table fd
                ≡ (if s.next_fd == fd then some p else fd_to_file s.fd_table fd))
          × (sys_tell garbage s.next_fd s' ≡ some 0))
        × ((t : S)
            → ops.inode_close i s.files.inodes ≡ some t
            → (s' : Process S) × (sys_open ops (some i) (some p) false s ≡ some (none, s'))
              × (s'.fd_table ≡ s.fd_table)
              × (s'.next_fd ≡ s.next_fd)
              × (s'.files.inodes ≡ t))
        × ((memory : Bool) → sys_open ops none (some p) memory s ≡ some (none, s))
  unfolding sys_open open_handle file_open
  sys_open_lem i p garbage s v l = ((opened, refl, sound, found, told), closed, λ memory. refl)
    where
      opened : Process S
      opened = record {
        next_fd = (s.next_fd + 1) % 2 ^ 32;
        fd_table = s.fd_table ++ record { fd = s.next_fd; file = p } ∷ [];
        files = record {
          file = update s.files.file p (record { inode = i; pos = 0; deny_write = false });
          inodes = s.files.inodes;
        };
      }

      found :
          (fd : ℕ)
          → fd_to_file (s.fd_table ++ record { fd = s.next_fd; file = p } ∷ []) fd
            ≡ (if s.next_fd == fd then some p else fd_to_file s.fd_table fd)
      found fd = fd_to_file-snoc s.next_fd p fd s.fd_table v.order l

      sound : IsSound opened
      sound = record {
        order =
            let n : suc s.next_fd ≡ (s.next_fd + 1) % 2 ^ 32 = omega arith in
            subst (λ n. Rising 2 n (s.fd_table ++ record { fd = s.next_fd; file = p } ∷ [])) n
              (Rising-snoc 2 s.next_fd p s.fd_table v.order);
        room = omega arith;
        writable = λ fd q h.
            deny_write-update s.files.file p i q (s.next_fd == fd) (fd_to_file s.fd_table fd)
              (fd_to_file opened.fd_table fd) (found fd) h (v.writable fd q);
      }

      told : sys_tell garbage s.next_fd opened ≡ some 0
      told =
          sys_tell_eq garbage s.next_fd p opened (found s.next_fd ∙ rw (==_refl s.next_fd) refl)
          ∙ rw (==_refl p) refl

      closed :
          (t : S)
          → ops.inode_close i s.files.inodes ≡ some t
          → (s' : Process S) × (sys_open ops (some i) (some p) false s ≡ some (none, s'))
            × (s'.fd_table ≡ s.fd_table)
            × (s'.next_fd ≡ s.next_fd)
            × (s'.files.inodes ≡ t)
      closed t c = (
        record {
          next_fd = s.next_fd;
          fd_table = s.fd_table;
          files = record opened.files { inodes = t };
        },
        ap (λ r. r >>= λ files. some (none, with_files s files))
            (close_writable p opened.files t (rw (==_refl p) refl) (rw (==_refl p) c)),
        refl,
        refl,
        refl,
      )

  -- sys_close of an open descriptor closes the inode of its file and takes the descriptor out of the
  -- table: it then refers to no file, and each other one to the same file as before. The table stays
  -- consistent. Of another descriptor it changes nothing. The table is consistent and inode_close
  -- returns.
  pub sys_close_lem :
      (fd p : ℕ) (s : Process S) (t : S)
      → IsSound s
      → ops.inode_close (s.files.file p).inode s.files.inodes ≡ some t
      → (fd_to_file s.fd_table fd ≡ some p
          → (s' : Process S) × (sys_close ops fd s ≡ some s')
            × IsSound s'
            × (s'.files ≡ record { file = s.files.file; inodes = t })
            × ((other : ℕ)
                → fd_to_file s'.fd_table other
                  ≡ (if fd == other then none else fd_to_file s.fd_table other)))
        × (fd_to_file s.fd_table fd ≡ none → sys_close ops fd s ≡ some s)
  unfolding sys_close close_file
  sys_close_lem fd p s t v c = ((λ e. (closed, returns e, sound, refl, gone)), unopened)
    where
      closed : Process S
      closed = record {
        next_fd = s.next_fd;
        fd_table = without s.fd_table fd;
        files = record { file = s.files.file; inodes = t };
      }

      returns : fd_to_file s.fd_table fd ≡ some p → sys_close ops fd s ≡ some closed
      returns e =
          rw (below_1_false fd p s.fd_table e, e)
            (ap (λ r. r >>= λ files. some (record closed { files = files }))
              (close_writable p s.files t (v.writable fd p e) c))

      gone :
          (other : ℕ)
          → fd_to_file (without s.fd_table fd) other
            ≡ (if fd == other then none else fd_to_file s.fd_table other)
      gone other = fd_to_file-without s.next_fd fd other s.fd_table v.order

      still :
          (other q : ℕ) (is_closed : Bool) (old found : Option ℕ)
          → found ≡ (if is_closed then none else old)
          → found ≡ some q
          → old ≡ some q
      still other q true old found e h = absurd (cc (e, h))
      still other q false old found e h = sym e ∙ h

      sound : IsSound closed
      sound = record {
        order = Rising-without 2 s.next_fd fd s.fd_table v.order;
        room = v.room;
        writable = λ other q h. v.writable other q (
            still other q (fd == other) (fd_to_file s.fd_table other)
              (fd_to_file closed.fd_table other) (gone other) h);
      }

      unopened : fd_to_file s.fd_table fd ≡ none → sys_close ops fd s ≡ some s
      unopened e = elim (Bool-cases (is_below_1 fd)) [
        | inl b ↦ rw (b) refl
        | inr b ↦ rw (b, e) refl
      ]

  -- sys_filesize panics exactly for a descriptor from 1 that no file is open as: file_length is called
  -- with a null pointer. sys_seek panics exactly for an open descriptor and a position from 2 ^ 31.
  pub user_panics :
      (fd : ℕ) (s : Process S)
      → ((sys_filesize ops fd s ≡ none)
          ↔ ((is_below_1 fd ≡ false) × (fd_to_file s.fd_table fd ≡ none)))
        × ((position : ℕ)
            → (sys_seek fd position s ≡ none)
              ↔ ((2 ^ 31 ≤ position) × ((p : ℕ) × (fd_to_file s.fd_table fd ≡ some p))))
  unfolding sys_filesize file_length sys_seek seek_file file_seek
  user_panics fd s = elim (Bool-cases (is_below_1 fd)) [
    | inl b ↦ rw (b) (
      ((λ e. absurd (cc (e))), λ h. absurd (cc (h.0))),
      λ position.
          ((λ e. absurd (cc (e))), λ h. absurd (cc (below_1_false fd h.1.0 s.fd_table h.1.1, b))),
    )
    | inr b ↦ elim (Option-cases (fd_to_file s.fd_table fd)) [
      | inl e ↦
          rw (b, e)
            (
              ((λ h. (refl, refl)), λ h. refl),
              λ position. ((λ h. absurd (cc (h))), λ h. absurd (cc (h.1.1))),
            )
      | inr (p, e) ↦
          rw (b, e)
            (
              ((λ h. absurd (cc (h))), λ h. absurd (cc (h.1))),
              λ position. elim (Bool-cases (ltb position (2 ^ 31))) [
                | inl l ↦ rw (l) ((λ h. absurd (cc (h))), λ h. absurd (ground (arith, h.0)))
                | inr l ↦ rw (l) ((λ h. (ground arith, (p, refl))), λ h. refl)
              ],
            )
    ]
  ]
