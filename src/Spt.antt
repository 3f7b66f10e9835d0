-- ===== src/Spt.antt =====
-- src/vm/spt.c, src/vm/mmap.c and sys_mmap of src/userprog/syscall.c: the pages of a process that are
-- loaded from files. The table, a hash table by `uaddr`, is the map from the addresses of pages to
-- their entries that src/lib/kernel/hash.c keeps.
pub mod Lazy
pub mod Mmap
pub mod Unmap
mod Tests
use csed.Common.{
  ℕ, zero, suc, ◌+◌, ◌-◌, ◌*◌, ◌/◌, ◌%◌, ◌^◌, Bool, true, false, not, ◌&&◌, ◌==◌, ltb, leb, List,
  [], ◌∷◌, ◌++◌, Option, none, some, ◌>>=◌, if◌then◌else◌, update,
}
use csed.Palloc.{pg_ofs}
use csed.Pagedir.{pagedir_is_dirty, pagedir_clear_page}

-- `enum page_status`
pub data PageStatus : Type 0 where
  page_memory page_lazy page_swap : PageStatus

-- `struct spt_entry`; pointers are addresses, and NULL is `none`.
pub record SptEntry : Type 0 where
  pub uaddr : ℕ
  pub status : PageStatus
  pub frame : Option ℕ
  pub file : Option ℕ
  pub offset : ℕ
  pub read_bytes : ℕ
  pub zero_bytes : ℕ
  pub swap_index : ℕ
  pub mmap : Bool
  pub writable : Bool

abbrev pub Table : Type 0
Table = ℕ → Option SptEntry

abbrev pub put : Table → ℕ → SptEntry → Table
put spt a entry b = if a == b then some entry else spt b

abbrev pub pg_round_down : ℕ → ℕ
pg_round_down va = va - va % 4096

abbrev pub is_mapped : Option SptEntry → Bool
is_mapped none = false
is_mapped (some entry) = true

unfoldable pub spt_lookup : Table → ℕ → Option SptEntry
spt_lookup spt uaddr = spt (pg_round_down uaddr)

-- hash_insert keeps an entry that is there.
abbrev pub insert : Table → SptEntry → Table
insert spt entry = if is_mapped (spt entry.uaddr) then spt else put spt entry.uaddr entry

abbrev pub lazy_entry : ℕ → ℕ → ℕ → ℕ → ℕ → Bool → Bool → SptEntry
lazy_entry file ofs upage read_bytes zero_bytes writable mark_mmap = record {
  uaddr = upage;
  status = PageStatus.page_lazy;
  frame = none;
  file = some file;
  offset = ofs;
  read_bytes = read_bytes;
  zero_bytes = zero_bytes;
  swap_index = 0;
  mmap = mark_mmap;
  writable = writable;
}

-- `memory` says whether malloc finds memory.
unfoldable pub add_lazy_page : Bool → Table → ℕ → ℕ → ℕ → ℕ → ℕ → Bool → Bool → Bool × Table
add_lazy_page memory spt file ofs uaddr read_bytes zero_bytes writable mark_mmap =
    if not ((read_bytes + zero_bytes) % 2 ^ 32 == 4096)
    then (false, spt)
    else if not memory
    then (false, spt)
    else if is_mapped (spt uaddr)
    then (false, spt)
    else (
      true,
      insert spt
          (lazy_entry file ofs (pg_round_down uaddr) read_bytes zero_bytes writable mark_mmap),
    )

-- The loop of spt_initialize_file_as_lazy, for some rounds; `memory` says of each page whether malloc
-- finds memory. The offset and the address are of 32 bits. `none` if the rounds do not do.
unfoldable pub lazy_loop :
    (ℕ → Bool) → ℕ → Table → ℕ → ℕ → ℕ → ℕ → ℕ → Bool → Bool → Option (Bool × Table)
lazy_loop memory rounds spt file ofs upage zero zero writable mark_mmap = some (true, spt)
lazy_loop memory zero spt file ofs upage read_bytes zero_bytes writable mark_mmap = none
lazy_loop memory (suc rounds) spt file ofs upage read_bytes zero_bytes writable mark_mmap =
    let page_read_bytes = if ltb read_bytes 4096 then read_bytes else 4096 in
    let page_zero_bytes = 4096 - page_read_bytes in
    let (done, spt') =
      add_lazy_page (memory upage) spt file ofs upage page_read_bytes page_zero_bytes writable
        mark_mmap in
    elim done [
      | true ↦
          lazy_loop memory rounds spt' file ((ofs + 4096) % 2 ^ 32) ((upage + 4096) % 2 ^ 32)
            (read_bytes - page_read_bytes) ((zero_bytes + 2 ^ 32 - page_zero_bytes) % 2 ^ 32)
            writable mark_mmap
      | false ↦ some (false, spt')
    ]

unfoldable pub spt_initialize_file_as_lazy :
    (ℕ → Bool) → ℕ → Table → ℕ → ℕ → ℕ → ℕ → ℕ → Bool → Bool → Option (Bool × Table)
spt_initialize_file_as_lazy memory rounds spt file start_ofs start_uaddr total_read_bytes
      total_zero_bytes writable mark_mmap =
    lazy_loop memory rounds spt file start_ofs start_uaddr total_read_bytes total_zero_bytes
      writable mark_mmap

-- `struct mmap_file`
pub record MmapFile : Type 0 where
  pub mapping : ℕ
  pub file : ℕ
  pub addr : ℕ

unfoldable pub mmap_get_from_mapid : List MmapFile → ℕ → Option MmapFile
mmap_get_from_mapid [] mapping = none
mmap_get_from_mapid (m ∷ mmap_list) mapping =
    let rest = mmap_get_from_mapid mmap_list mapping in
    if m.mapping == mapping then some m else rest

-- The data of a process, and `next_id`.
pub record Process : Type 0 where
  pub s_page_table : Table
  pub mmap_list : List MmapFile
  pub next_id : ℕ

-- Check 4 of sys_mmap, for the rounds of its loop: whether a page is in the table.
unfoldable pub overlaps : Table → ℕ → ℕ → Bool
overlaps spt addr zero = false
overlaps spt addr (suc rounds) =
    let rest = overlaps spt ((addr + 4096) % 2 ^ 32) rounds in
    if is_mapped (spt_lookup spt addr) then true else rest

abbrev pub page_count : ℕ → ℕ
page_count length = (length + 4095) / 4096

-- The end of sys_mmap, after spt_initialize_file_as_lazy. The record is on the list before the call,
-- and is taken off again if it fails.
unfoldable pub mmap_finish : ℕ → ℕ → Process → Bool × Table → Option ℕ × Process
mmap_finish f addr t (true, spt) = (
  some t.next_id,
  record {
    s_page_table = spt;
    mmap_list = t.mmap_list ++ record { mapping = t.next_id; file = f; addr = addr } ∷ [];
    next_id = (t.next_id + 1) % 2 ^ 32;
  },
)
mmap_finish f addr t (false, spt) =
    (none, record t { s_page_table = spt; next_id = (t.next_id + 1) % 2 ^ 32 })

-- sys_mmap after its checks. `reopened` is what file_reopen gives, `record_memory` says whether
-- malloc finds memory for the record, and `memory` the same for each page.
unfoldable pub mmap_reopened :
    Option ℕ → Bool → (ℕ → Bool) → ℕ → ℕ → Process → Option (Option ℕ × Process)
mmap_reopened none record_memory memory length addr t = some (none, t)
mmap_reopened (some f) false memory length addr t = some (none, t)
mmap_reopened (some f) true memory length addr t = do
  r ←
      spt_initialize_file_as_lazy memory (page_count length) t.s_page_table f 0 addr length
        ((4096 - length % 4096) % 4096) true true
  some (mmap_finish f addr t r)

-- Checks 1 to 4 of sys_mmap; `file` is what fd_to_file gives, and `length` the length of the file.
unfoldable pub mmap_checks : Option ℕ → ℕ → ℕ → ℕ → Table → Bool
mmap_checks none length fd addr spt = false
mmap_checks (some file) length fd addr spt =
    leb 2 fd
    && not (addr == 0)
    && (pg_ofs addr == 0)
    && not (length == 0)
    && not (overlaps spt addr (page_count length))

-- The result -1 is `none`; the outer `none` is a loop that does not end.
unfoldable pub sys_mmap :
    Option ℕ → ℕ → Option ℕ → Bool → (ℕ → Bool) → ℕ → ℕ → Process → Option (Option ℕ × Process)
sys_mmap file length reopened record_memory memory fd addr t =
    if mmap_checks file length fd addr t.s_page_table
    then mmap_reopened reopened record_memory memory length addr t
    else some (none, t)

-- What mmap_unmap_and_flush works on: the table, the memory with the page tables, the writes to the
-- file, each of an offset, the address of the bytes and their number, and the frames that it frees.
pub record Unmapping : Type 0 where
  pub spt : Table
  pub word : ℕ → ℕ
  pub writes : List (ℕ × ℕ × ℕ)
  pub freed : List ℕ

abbrev is_memory : PageStatus → Bool
is_memory PageStatus.page_memory = true
is_memory _ = false

-- A page in memory is written back if it is dirty, and its frame, at `kaddr frame`, is freed.
unfoldable pub flush_page : ℕ → (ℕ → ℕ) → SptEntry → Unmapping → Option Unmapping
flush_page pd kaddr entry u = do
  dirty ← pagedir_is_dirty pd entry.uaddr u.word
  some (elim entry.frame [
    | none ↦ u
    | some f ↦ record u {
      writes =
          if dirty then u.writes ++ (entry.offset, kaddr f, entry.read_bytes) ∷ [] else u.writes;
      freed = u.freed ++ f ∷ [];
    }
  ])

-- One page that is in the table.
unfoldable pub unmap_page : ℕ → (ℕ → ℕ) → ℕ → SptEntry → Unmapping → Option Unmapping
unmap_page pd kaddr upage entry u = do
  u' ← if is_memory entry.status then flush_page pd kaddr entry u else some u
  word ← pagedir_clear_page pd upage u'.word
  some (record u' { word = word; spt = λ b. if entry.uaddr == b then none else u'.spt b })

-- The loop of mmap_unmap_and_flush.
unfoldable pub unmap_loop : ℕ → (ℕ → ℕ) → ℕ → ℕ → Unmapping → Option Unmapping
unmap_loop pd kaddr upage zero u = some u
unmap_loop pd kaddr upage (suc rounds) u = elim (spt_lookup u.spt upage) [
  | none ↦ unmap_loop pd kaddr ((upage + 4096) % 2 ^ 32) rounds u
  | some entry ↦ (do
    u' ← unmap_page pd kaddr upage entry u
    unmap_loop pd kaddr ((upage + 4096) % 2 ^ 32) rounds u')
]

unfoldable pub remove_mapping : ℕ → List MmapFile → List MmapFile
remove_mapping mapping [] = []
remove_mapping mapping (m ∷ mmap_list) =
    let rest = remove_mapping mapping mmap_list in
    if m.mapping == mapping then mmap_list else m ∷ rest

-- mmap_unmap_and_flush, with the length of the file; `none` is an assertion that fails.
unfoldable pub mmap_unmap_and_flush :
    ℕ → (ℕ → ℕ) → ℕ → MmapFile → List MmapFile → Unmapping → Option (List MmapFile × Unmapping)
mmap_unmap_and_flush pd kaddr length m mmap_list u = do
  u' ← unmap_loop pd kaddr m.addr (page_count length) u
  some (remove_mapping m.mapping mmap_list, u')
