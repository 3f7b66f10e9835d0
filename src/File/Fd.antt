-- ===== src/File/Fd.antt =====
-- src/userprog/fd.c, and the system calls on open files of src/userprog/syscall.c after their
-- validate_ptr. The lock of the file system, which a call of src/filesys holds while it runs, is left
-- out: the table of descriptors belongs to one thread.
pub mod Table
pub mod Calls
mod Tests
use csed.Common.{
  ℕ, suc, ◌+◌, ◌-◌, ◌%◌, ◌^◌, Bool, true, false, ◌||◌, ◌==◌, ltb, leb, List, [], ◌∷◌, ◌++◌, Option,
  none, some, ◌>>=◌, ◌>>◌, if◌then◌else◌,
}
use csed.File.{Inodes, File, Files, file_open, file_close, file_length, file_seek, file_tell}

-- `struct file_handle`
pub record FileHandle : Type 0 where
  pub fd : ℕ
  pub file : ℕ

-- The table of a thread, and the files.
pub record Process (S : Type 0) : Type 0 where
  pub next_fd : ℕ
  pub fd_table : List FileHandle
  pub files : Files S

unfoldable pub lookup_handle_by_fd : List FileHandle → ℕ → Option FileHandle
lookup_handle_by_fd [] fd = none
lookup_handle_by_fd (handle ∷ fd_table) fd =
    let rest = lookup_handle_by_fd fd_table fd in if handle.fd == fd then some handle else rest

-- `fd < 1`, for the 32 bits of an int.
abbrev pub is_below_1 : ℕ → Bool
is_below_1 fd = fd == 0 || leb (2 ^ 31) fd

abbrev pub file_of : Option FileHandle → Option ℕ
file_of none = none
file_of (some h) = some h.file

unfoldable pub fd_to_file : List FileHandle → ℕ → Option ℕ
fd_to_file fd_table fd = if is_below_1 fd then none else file_of (lookup_handle_by_fd fd_table fd)

-- list_remove of the handle that lookup_handle_by_fd returns.
unfoldable pub without : List FileHandle → ℕ → List FileHandle
without [] fd = []
without (handle ∷ fd_table) fd =
    let rest = without fd_table fd in if handle.fd == fd then fd_table else handle ∷ rest

abbrev pub with_files : {S : Type 0} → Process S → Files S → Process S
with_files s files = record { next_fd = s.next_fd; fd_table = s.fd_table; files = files }

module _ {S : Type 0} (ops : Inodes S) where
  unfoldable pub fd_table_destroy : List FileHandle → Files S → Option (Files S)
  fd_table_destroy [] files = some files
  fd_table_destroy (h ∷ fd_table) files = do
    files ← file_close ops (some h.file) files
    fd_table_destroy fd_table files

  -- sys_open after filesys_open; the result is -1 for `none`. `memory` says whether malloc finds memory.
  unfoldable pub open_handle : Bool → Process S → Option ℕ × Files S → Option (Option ℕ × Process S)
  open_handle memory s (none, files) = some (none, with_files s files)
  open_handle true s (some f, files) = some (
    some s.next_fd,
    record {
      next_fd = (s.next_fd + 1) % 2 ^ 32;
      fd_table = s.fd_table ++ record { fd = s.next_fd; file = f } ∷ [];
      files = files;
    },
  )
  open_handle false s (some f, files) = do
    files ← file_close ops (some f) files
    some (none, with_files s files)

  -- filesys_open calls file_open of the inode that dir_lookup finds.
  unfoldable pub sys_open : Option ℕ → Option ℕ → Bool → Process S → Option (Option ℕ × Process S)
  sys_open inode file_memory memory s = do
    opened ← file_open ops inode file_memory s.files
    open_handle memory s opened

  unfoldable pub close_file : Option ℕ → ℕ → Process S → Option (Process S)
  close_file none fd s = some s
  close_file (some f) fd s = do
    files ← file_close ops (some f) s.files
    some (record { next_fd = s.next_fd; fd_table = without s.fd_table fd; files = files })

  unfoldable pub sys_close : ℕ → Process S → Option (Process S)
  sys_close fd s = if is_below_1 fd then some s else close_file (fd_to_file s.fd_table fd) fd s

  -- The result is an int.
  unfoldable pub sys_filesize : ℕ → Process S → Option ℕ
  sys_filesize fd s =
      if is_below_1 fd
      then some (2 ^ 32 - 1)
      else file_length ops (fd_to_file s.fd_table fd) s.files

unfoldable pub seek_file : {S : Type 0} → Option ℕ → ℕ → Process S → Option (Process S)
seek_file none position s = some s
seek_file (some f) position s = do
  files ← file_seek (some f) position s.files
  some (with_files s files)

unfoldable pub sys_seek : {S : Type 0} → ℕ → ℕ → Process S → Option (Process S)
sys_seek fd position s =
    if is_below_1 fd then some s else seek_file (fd_to_file s.fd_table fd) position s

unfoldable pub tell_file : {S : Type 0} → Option ℕ → Process S → Option ℕ
tell_file none s = some (2 ^ 32 - 1)
tell_file (some f) s = file_tell (some f) s.files

-- `garbage` is what `return;` leaves as the value.
unfoldable pub sys_tell : {S : Type 0} → ℕ → ℕ → Process S → Option ℕ
sys_tell garbage fd s =
    if is_below_1 fd then some garbage else tell_file (fd_to_file s.fd_table fd) s
