-- ===== src/Process/Load.antt =====
-- load and validate_segment in src/userprog/process.c: the segments of an ELF file.
use csed.Common.{
  ℕ, zero, suc, ◌+◌, ◌-◌, ◌*◌, ◌/◌, ◌%◌, ◌^◌, Bool, true, not, ◌&&◌, ◌==◌, ltb, leb, List, [], ◌∷◌,
  Option, none, some, ◌>>=◌, ◌>>◌, check, bit_and, if◌then◌else◌,
}
use csed.Pagedir.{is_user_vaddr}

-- What file_read finds in a file.
pub record ElfFile : Type 0 where
  pub length : ℕ
  pub byte : ℕ → ℕ

-- The fields of `struct Elf32_Phdr` that are read.
pub record Phdr : Type 0 where
  pub p_type : ℕ
  pub p_offset : ℕ
  pub p_vaddr : ℕ
  pub p_filesz : ℕ
  pub p_memsz : ℕ
  pub p_flags : ℕ

-- The arguments of spt_initialize_file_as_lazy, or of load_segment.
pub record Segment : Type 0 where
  pub file_page : ℕ
  pub mem_page : ℕ
  pub read_bytes : ℕ
  pub zero_bytes : ℕ
  pub writable : Bool

abbrev pub half_at : ElfFile → ℕ → ℕ
half_at file a = file.byte a + 256 * file.byte (a + 1)

abbrev pub word_at : ElfFile → ℕ → ℕ
word_at file a = half_at file a + 65536 * half_at file (a + 2)

abbrev pub has_bytes : ElfFile → ℕ → List ℕ → Bool
has_bytes file a [] = true
has_bytes file a (b ∷ bs) = (file.byte a == b) && has_bytes file (a + 1) bs

-- The check of the executable header, of 52 bytes.
unfoldable pub is_executable : ElfFile → Bool
is_executable file =
    leb 52 file.length
    && has_bytes file 0 (127 ∷ 69 ∷ 76 ∷ 70 ∷ 1 ∷ 1 ∷ 1 ∷ [])
    && (half_at file 16 == 2)
    && (half_at file 18 == 3)
    && (word_at file 20 == 1)
    && (half_at file 42 == 32)
    && leb (half_at file 44) 1024

-- The words of a program header at `ofs`.
abbrev pub phdr_at : ElfFile → ℕ → Phdr
phdr_at file ofs = record {
  p_type = word_at file ofs;
  p_offset = word_at file (ofs + 4);
  p_vaddr = word_at file (ofs + 8);
  p_filesz = word_at file (ofs + 16);
  p_memsz = word_at file (ofs + 20);
  p_flags = word_at file (ofs + 24);
}

-- file_read of a program header; `none` if the file ends before its end.
unfoldable pub read_phdr : ElfFile → ℕ → Option Phdr
read_phdr file ofs = if leb (ofs + 32) file.length then some (phdr_at file ofs) else none

-- The sum `p_vaddr + p_memsz` is of 32 bits.
unfoldable pub validate_segment : Phdr → ℕ → Bool
validate_segment phdr file_length =
    let end = (phdr.p_vaddr + phdr.p_memsz) % 2 ^ 32 in
    (phdr.p_offset % 4096 == phdr.p_vaddr % 4096)
    && leb phdr.p_offset file_length
    && leb phdr.p_filesz phdr.p_memsz
    && not (phdr.p_memsz == 0)
    && is_user_vaddr phdr.p_vaddr
    && is_user_vaddr end
    && leb phdr.p_vaddr end
    && leb 4096 phdr.p_vaddr

-- ROUND_UP (x, PGSIZE) of 32 bits.
abbrev pub round_up_page : ℕ → ℕ
round_up_page x = (x + 4096 - 1) % 2 ^ 32 / 4096 * 4096

unfoldable pub segment_of : Phdr → Segment
segment_of phdr =
    let page_offset = phdr.p_vaddr % 4096 in
    let read_bytes = if ltb 0 phdr.p_filesz then (page_offset + phdr.p_filesz) % 2 ^ 32 else 0 in
    let total = round_up_page ((page_offset + phdr.p_memsz) % 2 ^ 32) in
    record {
      file_page = phdr.p_offset - phdr.p_offset % 4096;
      mem_page = phdr.p_vaddr - phdr.p_vaddr % 4096;
      read_bytes = read_bytes;
      zero_bytes = (total + 2 ^ 32 - read_bytes) % 2 ^ 32;
      writable = not (bit_and phdr.p_flags 2 == 0);
    }

-- `install` is spt_initialize_file_as_lazy, or load_segment, on a state of its own; it can fail.
module _ {ℓ} {S : Type ℓ} (install : Segment → S → Option S) where
  -- The switch on `p_type`: PT_LOAD is 1; PT_DYNAMIC, PT_INTERP and PT_SHLIB are 2, 3 and 5.
  unfoldable pub load_phdr : ElfFile → Phdr → S → Option S
  load_phdr file phdr s =
      if (phdr.p_type == 2)
      then none
      else if (phdr.p_type == 3)
      then none
      else if (phdr.p_type == 5)
      then none
      else if (phdr.p_type == 1)
      then check (validate_segment phdr file.length) >> install (segment_of phdr) s
      else some s

  -- The loop over the program headers; `none` is `goto done`. An offset from 2 ^ 31 on is negative.
  unfoldable pub load_phdrs : ElfFile → ℕ → ℕ → S → Option S
  load_phdrs file file_ofs zero s = some s
  load_phdrs file file_ofs (suc rounds) s = do
    check (ltb file_ofs (2 ^ 31))
    check (leb file_ofs file.length)
    phdr ← read_phdr file file_ofs
    s' ← load_phdr file phdr s
    load_phdrs file ((file_ofs + 32) % 2 ^ 32) rounds s'

  -- What load does with an open file, up to setup_stack: the state and the entry point.
  unfoldable pub load : ElfFile → S → Option (S × ℕ)
  load file s = do
    check (is_executable file)
    s' ← load_phdrs file (word_at file 28) (half_at file 44) s
    some (s', word_at file 24)
