-- ===== src/Spt/Unmap.antt =====
-- mmap_unmap_and_flush in src/vm/mmap.c after sys_mmap.
use csed.Common.{
  ℕ, suc, ◌+◌, ◌-◌, ◌*◌, ◌%◌, ◌^◌, ◌≤◌, ◌<◌, ◌≡◌, refl, Bool, true, false, ◌==◌, [], ◌∷◌, none,
  some, arith, ap, ◌∙◌, Bool-cases, inl, inr, min, ◌++◌,
}
use csed.Pagedir.{phys_base, pagedir_clear_page, is_user_vaddr}
use csed.Spt.{
  Table, SptEntry, MmapFile, Process, Unmapping, page_count, pg_round_down, spt_lookup, mmap_checks,
  sys_mmap, unmap_page, unmap_loop, mmap_unmap_and_flush, lazy_entry,
}
use csed.Spt.Lazy.{entry_at}
use csed.Spt.Mmap.{checked, sys_mmap_lem}

clear_panics : (pd va : ℕ) (word : ℕ → ℕ) → phys_base ≤ va → pagedir_clear_page pd va word ≡ none
unfolding pagedir_clear_page
clear_panics pd va word h = elim (Bool-cases (va % 4096 == 0)) [
  | inl a ↦ let u : is_user_vaddr va ≡ false = ground arith in rw (a, u) refl
  | inr a ↦ rw (a) refl
]

unmap_page_panics :
    (pd : ℕ) (kaddr : ℕ → ℕ) (upage file ofs a rb zb : ℕ) (w m : Bool) (u : Unmapping)
    → phys_base ≤ upage
    → unmap_page pd kaddr upage (lazy_entry file ofs a rb zb w m) u ≡ none
unfolding unmap_page
unmap_page_panics pd kaddr upage file ofs a rb zb w m u h = rw (clear_panics pd upage u.word h) refl

unmap_loop_panics :
    (pd : ℕ) (kaddr : ℕ → ℕ) (upage n : ℕ) (entry : SptEntry) (u : Unmapping)
    → spt_lookup u.spt upage ≡ some entry
    → unmap_page pd kaddr upage entry u ≡ none
    → unmap_loop pd kaddr upage (suc n) u ≡ none
unfolding unmap_loop
unmap_loop_panics pd kaddr upage n entry u e p = rw (e, p, unmap_loop) refl

lookup_aligned : (spt : Table) (va : ℕ) → va % 4096 ≡ 0 → spt_lookup spt va ≡ spt va
unfolding spt_lookup
lookup_aligned spt va a = ap spt (let q : pg_round_down va ≡ va = omega arith in q)

-- sys_mmap accepts an address of the kernel's part of memory, and mmap_unmap_and_flush of that
-- mapping, by munmap or at the exit of the process, then fails an assertion of pagedir_clear_page.
pub kernel_mapping_panics :
    (file f : ℕ) (length : ℕ) (memory : ℕ → Bool) (fd addr : ℕ) (t : Process)
    → addr + 4096 * page_count length < 2 ^ 32
    → ((i : ℕ) → i < page_count length → memory (addr + 4096 * i) ≡ true)
    → phys_base ≤ addr
    → mmap_checks (some file) length fd addr t.s_page_table ≡ true
    → (t' : Process) × (sys_mmap (some file) length (some f) true memory fd addr t
        ≡ some (some t.next_id, t'))
      × ((pd : ℕ) (kaddr : ℕ → ℕ) (word : ℕ → ℕ)
          → mmap_unmap_and_flush pd kaddr length
              (record { mapping = t.next_id; file = f; addr = addr })
              t'.mmap_list
              (record { spt = t'.s_page_table; word = word; writes = []; freed = [] })
            ≡ none)
unfolding mmap_unmap_and_flush
kernel_mapping_panics file f length memory fd addr t b mem k c =
    let (a, l, o) = checked (some file) length fd addr t.s_page_table c in
    let (x, y, z, accepted) =
      sys_mmap_lem (some file) length (some f) true memory fd addr t b mem in
    let (spt, e, v) = accepted f c refl refl in
    let m : MmapFile = record { mapping = t.next_id; file = f; addr = addr } in
    (
      record {
        s_page_table = spt;
        mmap_list = t.mmap_list ++ m ∷ [];
        next_id = (t.next_id + 1) % 2 ^ 32;
      },
      e,
      λ pd kaddr word.
          let u : Unmapping = record { spt = spt; word = word; writes = []; freed = [] } in
          rw (loop_panics pd kaddr spt word a l (v.inside 0 (omega (arith, l)))) refl,
    )
  where
    found :
        (spt : Table)
        → addr % 4096 ≡ 0
        → spt (addr + 4096 * 0) ≡ some (entry_at f 0 addr length true true 0)
        → spt_lookup spt addr ≡ some (entry_at f 0 addr length true true 0)
    found spt a e = lookup_aligned spt addr a ∙ ap spt (omega arith) ∙ e

    loop_panics :
        (pd : ℕ) (kaddr : ℕ → ℕ) (spt : Table) (word : ℕ → ℕ)
        → addr % 4096 ≡ 0
        → 1 ≤ length
        → spt (addr + 4096 * 0) ≡ some (entry_at f 0 addr length true true 0)
        → unmap_loop pd kaddr addr
            (page_count length)
            (record { spt = spt; word = word; writes = []; freed = [] })
          ≡ none
    loop_panics pd kaddr spt word a l e =
        let u : Unmapping = record { spt = spt; word = word; writes = []; freed = [] } in
        ap (λ n. unmap_loop pd kaddr addr n u)
          (let q : page_count length ≡ suc (page_count length - 1) = omega (arith, l) in q)
        ∙ unmap_loop_panics pd kaddr addr (page_count length - 1)
            (entry_at f 0 addr length true true 0) u (found spt a e)
            (unmap_page_panics pd kaddr addr f (0 + 4096 * 0) (addr + 4096 * 0)
              (min 4096 (length - 4096 * 0)) (4096 - min 4096 (length - 4096 * 0)) true true u k)
