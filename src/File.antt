-- ===== src/File.antt =====
-- src/filesys/file.c: open files, by the addresses of their `struct file`. Inodes are an interface.
pub mod Fd
use csed.Common.{
  ℕ, ◌+◌, ◌%◌, ◌^◌, Bool, true, false, ltb, List, length, Option, none, some, ◌>>=◌, ◌>>◌, check,
  if◌then◌else◌, update,
}

-- The functions of src/filesys/inode.c that file.c calls, over their state; `none` is a panic.
pub record Inodes (S : Type 0) : Type 0 where
  -- inode_reopen returns its argument.
  pub inode_reopen : ℕ → S → S
  pub inode_close : ℕ → S → Option S
  pub inode_deny_write : ℕ → S → Option S
  pub inode_allow_write : ℕ → S → Option S
  pub inode_length : ℕ → S → ℕ
  pub inode_read_at : ℕ → ℕ → ℕ → S → List ℕ
  pub inode_write_at : ℕ → List ℕ → ℕ → S → ℕ × S

-- `struct file`
pub record File : Type 0 where
  pub inode : ℕ
  pub pos : ℕ
  pub deny_write : Bool

pub record Files (S : Type 0) : Type 0 where
  pub file : ℕ → File
  pub inodes : S

abbrev pub store : {S : Type 0} → ℕ → File → S → Files S → Files S
store p f t s = record { file = update s.file p f; inodes = t }

abbrev pub at_pos : File → ℕ → File
at_pos f pos = record { inode = f.inode; pos = pos; deny_write = f.deny_write }

abbrev pub denying : File → Bool → File
denying f deny_write = record { inode = f.inode; pos = f.pos; deny_write = deny_write }

module _ {S : Type 0} (ops : Inodes S) where
  -- `memory` is what calloc returns.
  unfoldable pub file_open : Option ℕ → Option ℕ → Files S → Option (Option ℕ × Files S)
  file_open (some i) (some p) s =
      some (some p, store p (record { inode = i; pos = 0; deny_write = false }) s.inodes s)
  file_open (some i) none s = do
    t ← ops.inode_close i s.inodes
    some (none, record { file = s.file; inodes = t })
  file_open none memory s = some (none, s)

  -- `memory` is what calloc returns.
  unfoldable pub file_reopen : ℕ → Option ℕ → Files S → Option (Option ℕ × Files S)
  file_reopen p memory s =
      file_open (some (s.file p).inode) memory
        (record { file = s.file; inodes = ops.inode_reopen (s.file p).inode s.inodes })

  unfoldable pub file_allow_write : ℕ → Files S → Option (Files S)
  file_allow_write p s =
      if (s.file p).deny_write
      then ops.inode_allow_write (s.file p).inode s.inodes
        >>= (λ t. some (store p (denying (s.file p) false) t s))
      else some s

  unfoldable pub file_deny_write : ℕ → Files S → Option (Files S)
  file_deny_write p s =
      if (s.file p).deny_write
      then some s
      else ops.inode_deny_write (s.file p).inode s.inodes >>= λ t.
          some (store p (denying (s.file p) true) t s)

  unfoldable pub file_close : Option ℕ → Files S → Option (Files S)
  file_close none s = some s
  file_close (some p) s = do
    s ← file_allow_write p s
    t ← ops.inode_close (s.file p).inode s.inodes
    some (record { file = s.file; inodes = t })

  unfoldable pub file_length : Option ℕ → Files S → Option ℕ
  file_length none s = none
  file_length (some p) s = some (ops.inode_length (s.file p).inode s.inodes)

  unfoldable pub file_read : ℕ → ℕ → Files S → List ℕ × Files S
  file_read p size s =
      let bytes = ops.inode_read_at (s.file p).inode size (s.file p).pos s.inodes in
      (bytes, store p (at_pos (s.file p) (((s.file p).pos + length bytes) % 2 ^ 32)) s.inodes s)

  unfoldable pub file_read_at : ℕ → ℕ → ℕ → Files S → List ℕ
  file_read_at p size file_ofs s = ops.inode_read_at (s.file p).inode size file_ofs s.inodes

  unfoldable pub file_write_at : ℕ → List ℕ → ℕ → Files S → ℕ × Files S
  file_write_at p buffer file_ofs s =
      let (written, t) = ops.inode_write_at (s.file p).inode buffer file_ofs s.inodes in
      (written, record { file = s.file; inodes = t })

  unfoldable pub file_write : ℕ → List ℕ → Files S → ℕ × Files S
  file_write p buffer s =
      let (written, t) = ops.inode_write_at (s.file p).inode buffer (s.file p).pos s.inodes in
      (written, store p (at_pos (s.file p) (((s.file p).pos + written) % 2 ^ 32)) t s)

unfoldable pub file_get_inode : {S : Type 0} → ℕ → Files S → ℕ
file_get_inode p s = (s.file p).inode

-- `new_pos` is an off_t, negative from 2 ^ 31.
unfoldable pub file_seek : {S : Type 0} → Option ℕ → ℕ → Files S → Option (Files S)
file_seek none new_pos s = none
file_seek (some p) new_pos s =
    check (ltb new_pos (2 ^ 31)) >> some (store p (at_pos (s.file p) new_pos) s.inodes s)

unfoldable pub file_tell : {S : Type 0} → Option ℕ → Files S → Option ℕ
file_tell none s = none
file_tell (some p) s = some (s.file p).pos
