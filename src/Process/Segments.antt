-- ===== src/Process/Segments.antt =====
-- The segments that load in src/userprog/process.c installs.
use csed.Common.{
  ℕ, zero, suc, ◌+◌, ◌%◌, ◌^◌, ◌≤◌, ◌<◌, ◌≡◌, refl, Bool, true, ◌&&◌, ◌==◌, leb, some, arith,
  Option, ◌>>◌, check, Bool-cases, inl, inr, sym, ◌∙◌, subst, Option-cases,
}
use mathlib.Core.Option.{some-injective}
use csed.Pagedir.{phys_base}
use csed.Process.Load.{
  ElfFile, Phdr, Segment, validate_segment, segment_of, load_phdr, load_phdrs, load, read_phdr,
  word_at, half_at, phdr_at,
}

-- Fields of 32 bits.
pub record IsPhdr (phdr : Phdr) : Type 0 where
  pub offset : phdr.p_offset < 2 ^ 32
  pub vaddr : phdr.p_vaddr < 2 ^ 32
  pub memsz : phdr.p_memsz < 2 ^ 32

-- A segment of whole pages of user memory, which covers what the program header asks for.
pub record Fits (phdr : Phdr) (g : Segment) : Type 0 where
  pub file_aligned : g.file_page % 4096 ≡ 0
  pub mem_aligned : g.mem_page % 4096 ≡ 0
  pub whole : (g.read_bytes + g.zero_bytes) % 4096 ≡ 0
  pub not_null : 4096 ≤ g.mem_page
  pub user : g.mem_page + g.read_bytes + g.zero_bytes ≤ phys_base
  pub start : g.mem_page ≤ phdr.p_vaddr
  pub content : 1 ≤ phdr.p_filesz → g.mem_page + g.read_bytes ≡ phdr.p_vaddr + phdr.p_filesz
  pub finish : phdr.p_vaddr + phdr.p_memsz ≤ g.mem_page + g.read_bytes + g.zero_bytes
  pub same_place : phdr.p_vaddr + g.file_page ≡ phdr.p_offset + g.mem_page

-- The tests of validate_segment.
record IsSound (phdr : Phdr) (file_length : ℕ) : Type 0 where
  offsets : phdr.p_offset % 4096 ≡ phdr.p_vaddr % 4096
  in_file : phdr.p_offset ≤ file_length
  sizes : phdr.p_filesz ≤ phdr.p_memsz
  some_bytes : 1 ≤ phdr.p_memsz
  low : 4096 ≤ phdr.p_vaddr
  high : phdr.p_vaddr + phdr.p_memsz < phys_base

validate_segment-IsSound :
    (phdr : Phdr) (file_length : ℕ)
    → IsPhdr phdr
    → validate_segment phdr file_length ≡ true
    → IsSound phdr file_length
unfolding validate_segment
validate_segment-IsSound phdr file_length v h = record {
  offsets = ground arith;
  in_file = ground arith;
  sizes = ground arith;
  some_bytes = ground arith;
  low = ground arith;
  high = ground (arith, v.vaddr, v.memsz);
}

-- A segment that validate_segment accepts becomes whole pages of user memory, not the page at 0,
-- that cover its addresses without a wrap around, with the file's bytes at the same places in their
-- pages; the fields are of 32 bits.
pub segment_of-Fits :
    (phdr : Phdr) (file_length : ℕ)
    → IsPhdr phdr
    → validate_segment phdr file_length ≡ true
    → Fits phdr (segment_of phdr)
unfolding segment_of
segment_of-Fits phdr file_length v h = record {
  file_aligned = omega arith;
  mem_aligned = omega arith;
  whole = ground (arith, s.sizes, s.some_bytes, s.low, s.high);
  not_null = omega (arith, s.low);
  user = ground (arith, s.sizes, s.some_bytes, s.low, s.high);
  start = omega arith;
  content = λ p. ground (arith, s.sizes, s.some_bytes, s.low, s.high);
  finish = ground (arith, s.sizes, s.some_bytes, s.low, s.high);
  same_place = omega (arith, s.offsets);
}
  where
    s : IsSound phdr file_length
    s = validate_segment-IsSound phdr file_length v h

-- The assertions of load_segment, and that the pages are in the user's part of memory.
unfoldable pub segment_asserts : Segment → Bool
segment_asserts g =
    ((g.read_bytes + g.zero_bytes) % 2 ^ 32 % 4096 == 0)
    && (g.mem_page % 4096 == 0)
    && (g.file_page % 4096 == 0)
    && leb (g.mem_page + g.read_bytes + g.zero_bytes) phys_base

segment_asserts-Fits : (phdr : Phdr) (g : Segment) → Fits phdr g → segment_asserts g ≡ true
unfolding segment_asserts
segment_asserts-Fits phdr g f = ground (arith, f.file_aligned, f.mem_aligned, f.whole, f.user)

read_phdr-IsPhdr :
    (file : ElfFile) (ofs : ℕ) (phdr : Phdr)
    → ((a : ℕ) → file.byte a < 256)
    → read_phdr file ofs ≡ some phdr
    → IsPhdr phdr
unfolding read_phdr
read_phdr-IsPhdr file ofs phdr b e = elim (Bool-cases (leb (ofs + 32) file.length)) [
  | inl h ↦
      let q : read_phdr file ofs ≡ some (phdr_at file ofs) = rw (h) refl in
      subst IsPhdr (some-injective (phdr_at file ofs) phdr (sym q ∙ e)) (record {
        offset = word_bound (ofs + 4);
        vaddr = word_bound (ofs + 8);
        memsz = word_bound (ofs + 20);
      })
  | inr h ↦ absurd (cc (e, h))
]
  where
    word_bound : (a : ℕ) → word_at file a < 2 ^ 32
    word_bound a = omega (arith, b a, b (a + 1), b (a + 2), b (a + 2 + 1))

module _ {ℓ} {S : Type ℓ} (install : Segment → S → Option S) where
  -- With the assertions before the call.
  abbrev pub asserted : Segment → S → Option S
  asserted g s = check (segment_asserts g) >> install g s

  load_phdr-asserted :
      (file : ElfFile) (phdr : Phdr) (s : S)
      → IsPhdr phdr
      → load_phdr asserted file phdr s ≡ load_phdr install file phdr s
  unfolding load_phdr
  load_phdr-asserted file phdr s v = elim (Bool-cases (validate_segment phdr file.length)) [
    | inl h ↦
        rw (h, segment_asserts-Fits phdr (segment_of phdr) (segment_of-Fits phdr file.length v h))
          refl
    | inr h ↦ rw (h) refl
  ]

  load_phdrs-asserted :
      (file : ElfFile) (file_ofs rounds : ℕ) (s : S)
      → ((a : ℕ) → file.byte a < 256)
      → load_phdrs asserted file file_ofs rounds s ≡ load_phdrs install file file_ofs rounds s
  unfolding load_phdrs
  load_phdrs-asserted file file_ofs zero s b = refl
  load_phdrs-asserted file file_ofs (suc rounds) s b =
      elim (Option-cases (read_phdr file file_ofs)) [
        | inl e ↦ rw (e) refl
        | inr (phdr, e) ↦
            rw (e, load_phdr-asserted file phdr s (read_phdr-IsPhdr file file_ofs phdr b e))
              (elim (Option-cases (load_phdr install file phdr s)) [
                | inl e' ↦ rw (e') refl
                | inr (s', e') ↦
                    rw (e', load_phdrs-asserted file ((file_ofs + 32) % 2 ^ 32) rounds s' b) refl
              ])
      ]

  -- The assertions of load_segment never fail in load, whatever is in the file: load with the
  -- assertions before each segment does what load does. No segment reaches the kernel's memory.
  pub load-asserted :
      (file : ElfFile) (s : S)
      → ((a : ℕ) → file.byte a < 256)
      → load asserted file s ≡ load install file s
  unfolding load
  load-asserted file s b =
      rw (load_phdrs-asserted file (word_at file 28) (half_at file 44) s b) refl
