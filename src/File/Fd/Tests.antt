-- ===== src/File/Fd/Tests.antt =====
-- Descriptors and open files on concrete tables.
use csed.Common.{
  ℕ, zero, suc, ◌^◌, ◌≤◌, ◌≡◌, ◌↔◌, refl, Bool, true, false, ◌==◌, [], ◌∷◌, none, some, arith,
  if◌then◌else◌,
}
use csed.File.{file_open, file_reopen, Inodes, file_allow_write, file_close}
use csed.File.Fd.{
  Process, lookup_handle_by_fd, fd_to_file, is_below_1, fd_table_destroy, sys_open, sys_close,
  sys_filesize, sys_seek, sys_tell,
}
use csed.File.Fd.Calls.{IsSound, sys_open_lem, sys_close_lem, user_panics}

-- The state counts the openers of the inodes; a file has 10 bytes and cannot be written.
abbrev counted : Inodes ℕ
counted = record {
  inode_reopen = λ i n. suc n;
  inode_close = λ i n. elim n [ zero ↦ none | suc m ↦ some m ];
  inode_deny_write = λ i n. some n;
  inode_allow_write = λ i n. some n;
  inode_length = λ i n. 10;
  inode_read_at = λ i size pos n. [];
  inode_write_at = λ i buffer pos n. (0, n);
}

-- One file, at 100, open as 2.
abbrev one_open : Process ℕ
one_open = record {
  next_fd = 3;
  fd_table = record { fd = 2; file = 100 } ∷ [];
  files = record { file = λ p. record { inode = 7; pos = 4; deny_write = false }; inodes = 2 };
}

one_open-IsSound : IsSound one_open
one_open-IsSound = record {
  order = (omega arith, omega arith);
  room = omega arith;
  writable = λ fd p e. refl;
}

destroyed :
    fd_table_destroy counted one_open.fd_table one_open.files
    ≡ some (record one_open.files { inodes = 1 })
unfolding fd_table_destroy file_close file_allow_write
destroyed = refl

reopened_without_memory : file_reopen counted 100 none one_open.files ≡ some (none, one_open.files)
unfolding file_reopen file_open
reopened_without_memory = refl

sys_open_example :
    ((s' : Process ℕ) × (sys_open counted (some 8) (some 104) true one_open ≡ some (some 3, s'))
      × IsSound s'
      × ((fd : ℕ)
          → fd_to_file s'.fd_table fd
            ≡ (if 3 == fd then some 104 else fd_to_file one_open.fd_table fd))
      × (sys_tell 55 3 s' ≡ some 0))
    × ((t : ℕ)
        → counted.inode_close 8 2 ≡ some t
        → (s' : Process ℕ) × (sys_open counted (some 8) (some 104) false one_open ≡ some (none, s'))
          × (s'.fd_table ≡ one_open.fd_table)
          × (s'.next_fd ≡ 3)
          × (s'.files.inodes ≡ t))
    × ((memory : Bool) → sys_open counted none (some 104) memory one_open ≡ some (none, one_open))
sys_open_example = sys_open_lem counted 8 104 55 one_open one_open-IsSound (omega arith)

sys_close_example :
    (fd_to_file one_open.fd_table 2 ≡ some 100
      → (s' : Process ℕ) × (sys_close counted 2 one_open ≡ some s')
        × IsSound s'
        × (s'.files ≡ record { file = one_open.files.file; inodes = 1 })
        × ((other : ℕ)
            → fd_to_file s'.fd_table other
              ≡ (if 2 == other then none else fd_to_file one_open.fd_table other)))
    × (fd_to_file one_open.fd_table 2 ≡ none → sys_close counted 2 one_open ≡ some one_open)
unfolding fd_to_file lookup_handle_by_fd
sys_close_example = sys_close_lem counted 2 100 one_open 1 one_open-IsSound refl

user_panics_example :
    ((sys_filesize counted 5 one_open ≡ none)
      ↔ ((is_below_1 5 ≡ false) × (fd_to_file one_open.fd_table 5 ≡ none)))
    × ((position : ℕ)
        → (sys_seek 5 position one_open ≡ none)
          ↔ ((2 ^ 31 ≤ position) × ((p : ℕ) × (fd_to_file one_open.fd_table 5 ≡ some p))))
user_panics_example = user_panics counted 5 one_open
