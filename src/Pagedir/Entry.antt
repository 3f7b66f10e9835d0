-- ===== src/Pagedir/Entry.antt =====
-- The words of src/threads/pte.h.
use csed.Common.{
  ℕ, ◌+◌, ◌-◌, ◌%◌, ◌^◌, ◌≤◌, ◌<◌, ◌≡◌, refl, Bool, true, false, ◌==◌, some, arith, if◌then◌else◌,
  bit_or, ◌∙◌, ap, lt→ltb,
}
use csed.Common.Bits.{bit, test_mask}
use csed.Common.Masks.{or_mask, bit_or-zero}
use csed.Pagedir.{
  phys_base, has, pte_addr, pde_create, pde_get_pt, pte_create_user, pte_create_kernel,
  pte_get_page, ptov, vtop, is_kernel_vaddr,
}

-- The address of a page in the kernel's part of memory.
pub record IsPage (page : ℕ) : Type 0 where
  pub aligned : page % 4096 ≡ 0
  pub low : phys_base ≤ page
  pub high : page < 2 ^ 32

pub present_eq : (pte : ℕ) → has 1 pte ≡ (pte % 2 == 1)
present_eq pte = test_mask 0 pte

-- The flags are set one after the other in a word that has none.
or_flag : (p i : ℕ) → (bit i p == 1) ≡ false → bit_or p (2 ^ i) ≡ p + 2 ^ i
or_flag p i h = ground (arith, or_mask i p)

pde_word : (p : ℕ) → p % 8 ≡ 0 → bit_or (bit_or (bit_or p 4) 1) 2 ≡ p + 7
pde_word p h =
    rw (or_flag p 2 (ground arith), or_flag (p + 4) 0 (ground arith))
      (or_flag (p + 4 + 1) 1 (ground arith) ∙ omega arith)

pte_word :
    (p : ℕ) (w : Bool)
    → p % 8 ≡ 0
    → bit_or (bit_or (bit_or p 1) (if w then 2 else 0)) 4 ≡ p + (if w then 7 else 5)
pte_word p true h =
    rw (or_flag p 0 (ground arith), or_flag (p + 1) 1 (ground arith))
      (or_flag (p + 1 + 2) 2 (ground arith) ∙ omega arith)
pte_word p false h =
    rw (or_flag p 0 (ground arith), bit_or-zero (p + 1) (p + 1) (omega arith))
      (or_flag (p + 1) 2 (ground arith) ∙ omega arith)

is_aligned : (page : ℕ) → IsPage page → (page % 4096 == 0) ≡ true
is_aligned page v = ground (arith, v.aligned)

is_kernel : (page : ℕ) → IsPage page → is_kernel_vaddr page ≡ true
is_kernel page v = ground (arith, v.low)

pub vtop_eq : (page : ℕ) → IsPage page → vtop page ≡ some (page - phys_base)
unfolding vtop
vtop_eq page v = rw (is_kernel page v) refl

pub pde_create_eq : (pt : ℕ) → IsPage pt → pde_create pt ≡ some (pt - phys_base + 7)
unfolding pde_create vtop
pde_create_eq pt v =
    rw (is_aligned pt v, is_kernel pt v)
      (ap some (pde_word (pt - phys_base) (omega (arith, v.aligned, v.low))))

pub pte_create_user_eq :
    (page : ℕ) (w : Bool)
    → IsPage page
    → pte_create_user page w ≡ some (page - phys_base + (if w then 7 else 5))
unfolding pte_create_user pte_create_kernel vtop
pte_create_user_eq page w v =
    rw (is_aligned page v, is_kernel page v)
      (ap some (pte_word (page - phys_base) w (omega (arith, v.aligned, v.low))))

-- What an entry with an address below PHYS_BASE leads to.
pub pte_get_page_eq :
    (pte : ℕ) → pte_addr pte < phys_base → pte_get_page pte ≡ some (pte_addr pte + phys_base)
unfolding pte_get_page ptov
pte_get_page_eq pte h = rw (lt→ltb (pte_addr pte) phys_base h) refl

pub pde_get_pt_eq :
    (pde : ℕ)
    → pte_addr pde < phys_base
    → pde % 2 ≡ 1
    → pde_get_pt pde ≡ some (pte_addr pde + phys_base)
unfolding pde_get_pt ptov
pde_get_pt_eq pde h m =
    rw
      (
        let e : has 1 pde ≡ true = present_eq pde ∙ (ground arith) in e,
        lt→ltb (pte_addr pde) phys_base h,
      )
      refl

-- The parts of an entry: the address, and the low digits.
pub entry_parts :
    (page flags : ℕ)
    → IsPage page
    → flags < 8
    → (pte_addr (page - phys_base + flags) ≡ page - phys_base)
      × ((page - phys_base + flags) % 8 ≡ flags)
entry_parts page flags v h = (omega (arith, v.aligned, v.low), omega (arith, v.aligned, v.low))

pub page_of :
    (page flags : ℕ) → IsPage page → flags < 8 → pte_get_page (page - phys_base + flags) ≡ some page
page_of page flags v h =
    let (a, b) = entry_parts page flags v h in
    pte_get_page_eq (page - phys_base + flags) (omega (arith, a, v.high, v.low))
    ∙ ap some (omega (arith, a, v.low))

pub table_of : (page : ℕ) → IsPage page → pde_get_pt (page - phys_base + 7) ≡ some page
table_of page v =
    let (a, b) = entry_parts page 7 v (omega arith) in
    pde_get_pt_eq (page - phys_base + 7) (omega (arith, a, v.high, v.low)) (omega (arith, b))
    ∙ ap some (omega (arith, a, v.low))

pub low_flags :
    (page : ℕ) (w : Bool)
    → IsPage page
    → let pte = page - phys_base + (if w then 7 else 5) in
      (has 1 pte ≡ true) × (has 2 pte ≡ w) × (has 4 pte ≡ true)
low_flags page true v =
    let (a, b) = entry_parts page 7 v (omega arith) in
    (
      test_mask 0 (page - phys_base + 7) ∙ ground (arith, b),
      test_mask 1 (page - phys_base + 7) ∙ ground (arith, b),
      test_mask 2 (page - phys_base + 7) ∙ ground (arith, b),
    )
low_flags page false v =
    let (a, b) = entry_parts page 5 v (omega arith) in
    (
      test_mask 0 (page - phys_base + 5) ∙ ground (arith, b),
      test_mask 1 (page - phys_base + 5) ∙ ground (arith, b),
      test_mask 2 (page - phys_base + 5) ∙ ground (arith, b),
    )

-- The page table in a new page directory entry, and the page in a new page table entry, are those
-- that it was made of; the page table entry is present, is for user code, and says whether the page
-- can be written.
pub pte_get_page-pte_create_user :
    (page : ℕ) (w : Bool)
    → IsPage page
    → (pde : ℕ) × (pte : ℕ) × (pde_create page ≡ some pde)
      × (pde_get_pt pde ≡ some page)
      × (pte_create_user page w ≡ some pte)
      × (pte_get_page pte ≡ some page)
      × (has 1 pte ≡ true)
      × (has 2 pte ≡ w)
      × (has 4 pte ≡ true)
pte_get_page-pte_create_user page w v =
    let (present, writable, user) = low_flags page w v in
    (
      page - phys_base + 7,
      page - phys_base + (if w then 7 else 5),
      pde_create_eq page v,
      table_of page v,
      pte_create_user_eq page w v,
      page_of page (if w then 7 else 5) v (ground arith),
      present,
      writable,
      user,
    )
