-- ===== src/Pagedir/Tests.antt =====
-- A page directory for src/userprog/pagedir.c in a memory of zeros.
use csed.Common.{
  ℕ, ◌+◌, ◌*◌, ◌/◌, ◌<◌, ◌≡◌, refl, true, false, ◌==◌, none, some, arith, if◌then◌else◌, update,
}
use csed.Palloc.{pg_ofs}
use csed.Pagedir.{
  phys_base, has, pd_no, pde_create, pde_get_pt, pte_create_user, pte_get_page, pagedir_get_page,
  pagedir_install_page, pagedir_clear_page, pagedir_set_dirty, pagedir_is_dirty,
  pagedir_is_accessed,
}
use csed.Pagedir.Entry.{IsPage, pte_get_page-pte_create_user}
use csed.Pagedir.Tables.{IsDirectory, IsFresh, write_IsDirectory}
use csed.Pagedir.Fresh.{with_table, fresh_IsDirectory}
use csed.Pagedir.Mapping.{mapped}
use csed.Pagedir.Install.{page, can_install, pagedir_install_page_lem}
use csed.Pagedir.Bits.{pagedir_set_dirty_lem}
use csed.Pagedir.Clear.{pagedir_clear_page_lem}

abbrev directory : ℕ
directory = 3221229568

abbrev table_page : ℕ
table_page = 3221233664

abbrev frame_page : ℕ
frame_page = 3221237760

abbrev zeros : ℕ → ℕ
zeros a = 0

zeros-IsDirectory : IsDirectory directory zeros
zeros-IsDirectory = record {
  aligned = refl;
  table = λ d b p. absurd (cc (p));
  distinct = λ d e b c p. absurd (cc (p));
  frame = λ va b p. absurd (cc (p));
}

table-IsFresh : IsFresh directory zeros zeros-IsDirectory table_page
table-IsFresh = record {
  at = record { aligned = refl; low = omega arith; high = omega arith };
  zeros = λ i b. refl;
  other = λ e. absurd (omega arith);
  unused = λ d b p. absurd (cc (p));
}

frame-IsPage : IsPage frame_page
frame-IsPage = record { aligned = refl; low = omega arith; high = omega arith }

pte_get_page-pte_create_user_example :
    (pde : ℕ) × (pte : ℕ) × (pde_create frame_page ≡ some pde)
    × (pde_get_pt pde ≡ some frame_page)
    × (pte_create_user frame_page true ≡ some pte)
    × (pte_get_page pte ≡ some frame_page)
    × (has 1 pte ≡ true)
    × (has 2 pte ≡ true)
    × (has 4 pte ≡ true)
pte_get_page-pte_create_user_example = pte_get_page-pte_create_user frame_page true frame-IsPage

pagedir_install_page_example :
    (can_install directory zeros 134512640 (some table_page) ≡ false
      → pagedir_install_page 4096 3221225472 directory 134512640 frame_page true
          (some table_page)
          zeros
        ≡ some (false, zeros))
    × (can_install directory zeros 134512640 (some table_page) ≡ true
        → (word' : ℕ → ℕ) × (pagedir_install_page 4096 3221225472 directory 134512640 frame_page
              true
              (some table_page)
              zeros
            ≡ some (true, word'))
          × IsDirectory directory word'
          × ((vb : ℕ)
              → vb < phys_base
              → pagedir_get_page directory vb word'
                ≡ some (
                    if 134512640 / 4096 == vb / 4096
                    then some (frame_page + pg_ofs vb)
                    else mapped directory zeros vb)))
pagedir_install_page_example =
    pagedir_install_page_lem 4096 3221225472 directory zeros 134512640 frame_page true
      zeros-IsDirectory refl (omega arith) frame-IsPage (omega arith) (λ e. absurd (omega arith))
      (some table_page) (page table_page table-IsFresh)

-- The memory with a page mapped at 134512640.
abbrev tabled : ℕ → ℕ
tabled =
    with_table directory zeros zeros-IsDirectory table_page 134512640 table-IsFresh (omega arith)
      refl

abbrev one_page : ℕ → ℕ
one_page = update tabled 3221233952 12295

one_page-IsDirectory : IsDirectory directory one_page
one_page-IsDirectory =
    write_IsDirectory directory tabled
      (fresh_IsDirectory directory zeros zeros-IsDirectory table_page 134512640 table-IsFresh
        (omega arith) refl)
      134512640 12295 (omega arith) refl (λ e. omega arith)

pagedir_set_dirty_example :
    ((one_page (directory + 4 * pd_no 134512640) == 0) ≡ true
      → pagedir_set_dirty directory 134512640 true one_page ≡ some one_page)
    × ((one_page (directory + 4 * pd_no 134512640) == 0) ≡ false
        → (word' : ℕ → ℕ) × (pagedir_set_dirty directory 134512640 true one_page ≡ some word')
          × IsDirectory directory word'
          × ((vb : ℕ)
              → vb < phys_base
              → (pagedir_get_page directory vb word' ≡ pagedir_get_page directory vb one_page)
                × (pagedir_is_dirty directory vb word' ≡ (
                    if 134512640 / 4096 == vb / 4096
                    then some true
                    else pagedir_is_dirty directory vb one_page))
                × (pagedir_is_accessed directory vb word'
                    ≡ pagedir_is_accessed directory vb one_page)))
pagedir_set_dirty_example =
    pagedir_set_dirty_lem directory one_page one_page-IsDirectory 134512640 true (omega arith)
      (omega arith)

pagedir_clear_page_example :
    (word' : ℕ → ℕ) × (pagedir_clear_page directory 134512640 one_page ≡ some word')
    × IsDirectory directory word'
    × ((vb : ℕ)
        → vb < phys_base
        → pagedir_get_page directory vb word' ≡ (
            if 134512640 / 4096 == vb / 4096
            then some none
            else pagedir_get_page directory vb one_page))
pagedir_clear_page_example =
    pagedir_clear_page_lem directory one_page one_page-IsDirectory 134512640 refl (omega arith)
      (omega arith)

-- The page that is mapped is found.
get_mapped : mapped directory one_page 134512645 ≡ some 3221237765
get_mapped = refl
