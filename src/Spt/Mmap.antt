-- ===== src/Spt/Mmap.antt =====
-- sys_mmap in src/userprog/syscall.c.
use csed.Common.{
  ℕ, zero, suc, ◌+◌, ◌-◌, ◌*◌, ◌%◌, ◌^◌, ◌≤◌, ◌<◌, ◌≡◌, refl, Bool, true, false, not, [], ◌∷◌, ◌++◌,
  none, some, arith, Option, if◌then◌else◌, ap, sym, ◌∙◌,
}
use csed.Spt.{
  Table, Process, is_mapped, pg_round_down, spt_lookup, overlaps, page_count, mmap_checks,
  mmap_reopened, mmap_finish, sys_mmap,
}
use csed.Spt.Lazy.{Covered, spt_initialize_file_as_lazy_lem}

overlaps_step :
    (spt : Table) (n addr : ℕ)
    → overlaps spt addr (suc n) ≡ false
    → (is_mapped (spt (pg_round_down addr)) ≡ false)
      × (overlaps spt ((addr + 4096) % 2 ^ 32) n ≡ false)
unfolding overlaps spt_lookup
overlaps_step spt n addr o =
    neither (is_mapped (spt (pg_round_down addr))) (overlaps spt ((addr + 4096) % 2 ^ 32) n) o
  where
    neither : (x y : Bool) → (if x then true else y) ≡ false → (x ≡ false) × (y ≡ false)
    neither true y h = absurd (cc (h))
    neither false y h = (refl, h)

overlaps_free :
    (spt : Table) (n addr : ℕ)
    → addr % 4096 ≡ 0
    → addr + 4096 * n < 2 ^ 32
    → overlaps spt addr n ≡ false
    → (i : ℕ) → i < n
    → is_mapped (spt (addr + 4096 * i)) ≡ false
overlaps_free spt zero addr a b o i l = absurd (omega arith)
overlaps_free spt (suc n) addr a b o zero l =
    ap (λ x. is_mapped (spt x)) (omega arith) ∙ (overlaps_step spt n addr o).0
overlaps_free spt (suc n) addr a b o (suc i) l =
    let e : (addr + 4096) % 2 ^ 32 ≡ addr + 4096 = omega arith in
    ap (λ x. is_mapped (spt x)) (omega arith)
    ∙ overlaps_free spt n (addr + 4096) (omega arith) (omega arith)
        (ap (λ x. overlaps spt x n) (sym e) ∙ (overlaps_step spt n addr o).1) i (omega arith)

-- What the checks of sys_mmap say.
pub checked :
    (file : Option ℕ) (length fd addr : ℕ) (spt : Table)
    → mmap_checks file length fd addr spt ≡ true
    → (addr % 4096 ≡ 0) × (1 ≤ length) × (overlaps spt addr (page_count length) ≡ false)
unfolding mmap_checks
checked none length fd addr spt h = absurd (cc (h))
checked (some file) length fd addr spt h =
    (ground arith, ground arith, not_true (overlaps spt addr (page_count length)) (ground arith))
  where
    not_true : (x : Bool) → not x ≡ true → x ≡ false
    not_true true h = absurd (cc (h))
    not_true false h = refl

no_record :
    (reopened : Option ℕ) (memory : ℕ → Bool) (length addr : ℕ) (t : Process)
    → mmap_reopened reopened false memory length addr t ≡ some (none, t)
unfolding mmap_reopened
no_record none memory length addr t = refl
no_record (some f) memory length addr t = refl

-- For a range of pages that ends below 2 ^ 32, and with memory for the entry of each of them: sys_mmap
-- returns -1 and changes nothing if a check fails, if the file cannot be opened again, or if there is
-- no memory for the record; if none of these fails, it returns the next id, and each page of the range
-- is to be loaded from its place in the file, with zeros behind the end of the file, and no other page
-- changes.
pub sys_mmap_lem :
    (file : Option ℕ) (length : ℕ) (reopened : Option ℕ) (record_memory : Bool) (memory : ℕ → Bool)
    (fd addr : ℕ) (t : Process)
    → addr + 4096 * page_count length < 2 ^ 32
    → ((i : ℕ) → i < page_count length → memory (addr + 4096 * i) ≡ true)
    → (mmap_checks file length fd addr t.s_page_table ≡ false
        → sys_mmap file length reopened record_memory memory fd addr t ≡ some (none, t))
      × (reopened ≡ none
          → sys_mmap file length reopened record_memory memory fd addr t ≡ some (none, t))
      × (record_memory ≡ false
          → sys_mmap file length reopened record_memory memory fd addr t ≡ some (none, t))
      × ((f : ℕ)
          → mmap_checks file length fd addr t.s_page_table ≡ true
          → reopened ≡ some f
          → record_memory ≡ true
          → (spt : Table) × (sys_mmap file length reopened record_memory memory fd addr t
              ≡ some (
                some t.next_id,
                record {
                  s_page_table = spt;
                  mmap_list =
                      t.mmap_list ++ record { mapping = t.next_id; file = f; addr = addr } ∷ [];
                  next_id = (t.next_id + 1) % 2 ^ 32;
                },
              ))
            × Covered t.s_page_table spt f 0 addr length (page_count length) true true)
unfolding sys_mmap mmap_reopened mmap_finish
sys_mmap_lem file length reopened record_memory memory fd addr t b mem = (
  (λ c. rw (c) refl),
  (λ r. rw (r) (if_same (mmap_checks file length fd addr t.s_page_table))),
  (λ r.
      rw (r, no_record reopened memory length addr t)
        (if_same (mmap_checks file length fd addr t.s_page_table))),
  λ f c r m.
      let (a, l, o) = checked file length fd addr t.s_page_table c in
      let (spt, e, v) =
        spt_initialize_file_as_lazy_lem memory (page_count length) t.s_page_table f 0 addr length
          ((4096 - length % 4096) % 4096) true true (omega arith) a b (omega arith)
          (overlaps_free t.s_page_table (page_count length) addr a b o) mem in
      (spt, rw (c, r, m) (rw (e) refl), v),
)
  where
    if_same :
        (c : Bool)
        → (if c then some (none, t) else some (none, t))
          ≡ (let r : Option (Option ℕ × Process) = some (none, t) in r)
    if_same true = refl
    if_same false = refl
