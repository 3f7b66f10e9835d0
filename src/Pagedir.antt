-- ===== src/Pagedir.antt =====
-- src/userprog/pagedir.c, with src/threads/pte.h and src/threads/vaddr.h: page directories. `word`
-- is the memory, by the addresses of its 32-bit words; the entry number `i` of an array is at `4 * i`
-- from its start. The TLB is not modelled.
pub mod Entry
pub mod Tables
pub mod Fresh
pub mod Mapping
pub mod Install
pub mod Bits
pub mod Clear
mod Tests
use csed.Common.{
  ℕ, zero, suc, ◌+◌, ◌-◌, ◌*◌, ◌/◌, ◌%◌, ◌^◌, Bool, true, false, not, ◌==◌, ltb, leb, Option, none,
  some, ◌>>=◌, ◌>>◌, check, bit_and, bit_or, update, if◌then◌else◌,
}
use csed.Palloc.{pg_ofs}

abbrev pub phys_base : ℕ
phys_base = 3221225472

abbrev pub is_user_vaddr : ℕ → Bool
is_user_vaddr vaddr = ltb vaddr phys_base

abbrev pub is_kernel_vaddr : ℕ → Bool
is_kernel_vaddr vaddr = leb phys_base vaddr

unfoldable pub ptov : ℕ → Option ℕ
ptov paddr = check (ltb paddr phys_base) >> some (paddr + phys_base)

unfoldable pub vtop : ℕ → Option ℕ
vtop vaddr = check (is_kernel_vaddr vaddr) >> some (vaddr - phys_base)

-- `(va & PTMASK) >> PTSHIFT`, and `va >> PDSHIFT`.
abbrev pub pt_no : ℕ → ℕ
pt_no va = va / 4096 % 1024

abbrev pub pd_no : ℕ → ℕ
pd_no va = va / 4194304

-- `pte & PTE_ADDR`
abbrev pub pte_addr : ℕ → ℕ
pte_addr pte = pte - pte % 4096

-- `(pte & bit) != 0`
abbrev pub has : ℕ → ℕ → Bool
has flag pte = not (bit_and pte flag == 0)

unfoldable pub pde_create : ℕ → Option ℕ
pde_create pt = do
  check (pg_ofs pt == 0)
  paddr ← vtop pt
  some (bit_or (bit_or (bit_or paddr 4) 1) 2)

unfoldable pub pde_get_pt : ℕ → Option ℕ
pde_get_pt pde = check (has 1 pde) >> ptov (pte_addr pde)

unfoldable pub pte_create_kernel : ℕ → Bool → Option ℕ
pte_create_kernel page writable = do
  check (pg_ofs page == 0)
  paddr ← vtop page
  some (bit_or (bit_or paddr 1) (if writable then 2 else 0))

unfoldable pub pte_create_user : ℕ → Bool → Option ℕ
pte_create_user page writable = do pte ← pte_create_kernel page writable; some (bit_or pte 4)

unfoldable pub pte_get_page : ℕ → Option ℕ
pte_get_page pte = ptov (pte_addr pte)

-- Where lookup_page finds no table: `fresh` is the page that palloc_get_page gives, with zeros in it,
-- or NULL.
unfoldable pub new_table : ℕ → ℕ → Option ℕ → (ℕ → ℕ) → Option (Option ℕ × (ℕ → ℕ))
new_table pd vaddr none word = some (none, word)
new_table pd vaddr (some page) word = do
  entry ← pde_create page
  pt ← pde_get_pt entry
  some (some (pt + 4 * pt_no vaddr), update word (pd + 4 * pd_no vaddr) entry)

-- The address of the entry for `vaddr`, or NULL, with the memory afterwards.
unfoldable pub lookup_page : ℕ → ℕ → Bool → Option ℕ → (ℕ → ℕ) → Option (Option ℕ × (ℕ → ℕ))
lookup_page pd vaddr create fresh word = do
  check (if create then is_user_vaddr vaddr else true)
  let pde = pd + 4 * pd_no vaddr in
      elim (word pde == 0) [
        | true ↦ if create then new_table pd vaddr fresh word else some (none, word)
        | false ↦ (do pt ← pde_get_pt (word pde); some (some (pt + 4 * pt_no vaddr), word))
      ]

-- What pagedir_set_page does with the entry that lookup_page gives.
unfoldable pub set_entry : ℕ → Bool → Option ℕ × (ℕ → ℕ) → Option (Bool × (ℕ → ℕ))
set_entry kpage writable (none, word) = some (false, word)
set_entry kpage writable (some p, word) = do
  check (not (has 1 (word p)))
  entry ← pte_create_user kpage writable
  some (true, update word p entry)

-- `init_ram_pages` and `init_page_dir` are those of src/threads/init.c.
module _ (init_ram_pages init_page_dir : ℕ) where
  unfoldable pub pagedir_set_page : ℕ → ℕ → ℕ → Bool → Option ℕ → (ℕ → ℕ) → Option (Bool × (ℕ → ℕ))
  pagedir_set_page pd upage kpage writable fresh word = do
    check (pg_ofs upage == 0)
    check (pg_ofs kpage == 0)
    check (is_user_vaddr upage)
    paddr ← vtop kpage
    check (ltb (paddr / 4096) init_ram_pages)
    check (not (pd == init_page_dir))
    found ← lookup_page pd upage true fresh word
    set_entry kpage writable found

-- What pagedir_get_page does with the entry that lookup_page gives.
unfoldable pub get_entry : ℕ → Option ℕ × (ℕ → ℕ) → Option (Option ℕ)
get_entry uaddr (none, word) = some none
get_entry uaddr (some p, word) = elim (has 1 (word p)) [
  | true ↦ (do page ← pte_get_page (word p); some (some (page + pg_ofs uaddr)))
  | false ↦ some none
]

unfoldable pub pagedir_get_page : ℕ → ℕ → (ℕ → ℕ) → Option (Option ℕ)
pagedir_get_page pd uaddr word = do
  check (is_user_vaddr uaddr)
  found ← lookup_page pd uaddr false none word
  get_entry uaddr found

unfoldable pub pagedir_clear_page : ℕ → ℕ → (ℕ → ℕ) → Option (ℕ → ℕ)
pagedir_clear_page pd upage word = do
  check (pg_ofs upage == 0)
  check (is_user_vaddr upage)
  (pte, word') ← lookup_page pd upage false none word
  elim pte [
    | none ↦ some word
    | some p ↦
        some (if has 1 (word p) then update word p (bit_and (word p) (2 ^ 32 - 1 - 1)) else word)
  ]

-- pagedir_is_dirty and pagedir_is_accessed, and the functions that set these bits, differ in the bit.
unfoldable pub is_flagged : ℕ → ℕ → ℕ → (ℕ → ℕ) → Option Bool
is_flagged flag pd vpage word = do
  (pte, word') ← lookup_page pd vpage false none word
  some (elim pte [ none ↦ false | some p ↦ has flag (word p) ])

unfoldable pub set_flagged : ℕ → ℕ → ℕ → Bool → (ℕ → ℕ) → Option (ℕ → ℕ)
set_flagged flag pd vpage value word = do
  (pte, word') ← lookup_page pd vpage false none word
  elim pte [
    | none ↦ some word
    | some p ↦ some (
        update word p
          (if value then bit_or (word p) flag else bit_and (word p) (2 ^ 32 - 1 - flag)))
  ]

unfoldable pub pagedir_is_dirty : ℕ → ℕ → (ℕ → ℕ) → Option Bool
pagedir_is_dirty pd vpage word = is_flagged 64 pd vpage word

unfoldable pub pagedir_set_dirty : ℕ → ℕ → Bool → (ℕ → ℕ) → Option (ℕ → ℕ)
pagedir_set_dirty pd vpage dirty word = set_flagged 64 pd vpage dirty word

unfoldable pub pagedir_is_accessed : ℕ → ℕ → (ℕ → ℕ) → Option Bool
pagedir_is_accessed pd vpage word = is_flagged 32 pd vpage word

unfoldable pub pagedir_set_accessed : ℕ → ℕ → Bool → (ℕ → ℕ) → Option (ℕ → ℕ)
pagedir_set_accessed pd vpage accessed word = set_flagged 32 pd vpage accessed word

unfoldable pub pagedir_install_page :
    ℕ → ℕ → ℕ → ℕ → ℕ → Bool → Option ℕ → (ℕ → ℕ) → Option (Bool × (ℕ → ℕ))
pagedir_install_page init_ram_pages init_page_dir pd upage kpage writable fresh word = do
  r ← pagedir_get_page pd upage word
  elim r [
    | none ↦ pagedir_set_page init_ram_pages init_page_dir pd upage kpage writable fresh word
    | some page ↦ some (false, word)
  ]
