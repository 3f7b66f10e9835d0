-- ===== src/Spt/Tests.antt =====
-- An empty table for src/vm/spt.c and src/vm/mmap.c.
use csed.Common.{ℕ, ◌≡◌, refl, true, false, [], ◌∷◌, ◌++◌, none, some, arith, Option}
use csed.Spt.{
  Table, Process, mmap_checks, sys_mmap, spt_initialize_file_as_lazy, mmap_unmap_and_flush,
  page_count, overlaps, spt_lookup,
}
use csed.Spt.Lazy.{Covered, spt_initialize_file_as_lazy_lem}
use csed.Spt.Mmap.{sys_mmap_lem}
use csed.Spt.Unmap.{kernel_mapping_panics}

abbrev no_pages : Table
no_pages a = none

spt_initialize_file_as_lazy_example :
    (spt' : Table) × (spt_initialize_file_as_lazy
        (λ a. true)
        2
        no_pages
        9
        0
        134512640
        5016
        3176
        true
        false
      ≡ some (true, spt'))
    × Covered no_pages spt' 9 0 134512640 5016 2 true false
spt_initialize_file_as_lazy_example =
    spt_initialize_file_as_lazy_lem (λ a. true) 2 no_pages 9 0 134512640 5016 3176 true false refl
      refl (omega arith) (omega arith) (λ i l. refl) (λ i l. refl)

abbrev fresh : Process
fresh = record { s_page_table = no_pages; mmap_list = []; next_id = 1 }

abbrev reopened : Option ℕ
reopened = some 6

sys_mmap_example :
    (mmap_checks (some 5) 6000 3 268435456 no_pages ≡ false
      → sys_mmap (some 5) 6000 reopened true (λ a. true) 3 268435456 fresh ≡ some (none, fresh))
    × (reopened ≡ none
        → sys_mmap (some 5) 6000 reopened true (λ a. true) 3 268435456 fresh ≡ some (none, fresh))
    × (true ≡ false
        → sys_mmap (some 5) 6000 reopened true (λ a. true) 3 268435456 fresh ≡ some (none, fresh))
    × ((f : ℕ)
        → mmap_checks (some 5) 6000 3 268435456 no_pages ≡ true
        → reopened ≡ some f
        → true ≡ true
        → (spt : Table) × (sys_mmap (some 5) 6000 reopened true (λ a. true) 3 268435456 fresh
            ≡ some (
              some 1,
              record {
                s_page_table = spt;
                mmap_list = [] ++ record { mapping = 1; file = f; addr = 268435456 } ∷ [];
                next_id = 2;
              },
            ))
          × Covered no_pages spt f 0 268435456 6000 (page_count 6000) true true)
sys_mmap_example =
    sys_mmap_lem (some 5) 6000 reopened true (λ a. true) 3 268435456 fresh (omega arith)
      (λ i l. refl)

kernel_checks : mmap_checks (some 5) 6000 3 3221225472 no_pages ≡ true
unfolding mmap_checks overlaps spt_lookup
kernel_checks = refl

kernel_mapping_panics_example :
    (t' : Process) × (sys_mmap (some 5) 6000 (some 6) true (λ a. true) 3 3221225472 fresh
      ≡ some (some 1, t'))
    × ((pd : ℕ) (kaddr : ℕ → ℕ) (word : ℕ → ℕ)
        → mmap_unmap_and_flush pd kaddr 6000
            (record { mapping = 1; file = 6; addr = 3221225472 })
            t'.mmap_list
            (record { spt = t'.s_page_table; word = word; writes = []; freed = [] })
          ≡ none)
kernel_mapping_panics_example =
    kernel_mapping_panics 5 6 6000 (λ a. true) 3 3221225472 fresh (omega arith) (λ i l. refl)
      (omega arith) kernel_checks
