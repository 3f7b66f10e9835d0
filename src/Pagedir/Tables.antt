-- ===== src/Pagedir/Tables.antt =====
-- The two levels of tables in src/userprog/pagedir.c: consistent page directories, and lookup_page.
use csed.Common.{
  ℕ, ◌+◌, ◌*◌, ◌/◌, ◌%◌, ◌^◌, ◌<◌, ◌≡◌, ◌≢◌, refl, Bool, true, false, ◌==◌, none, some, arith,
  Option, if◌then◌else◌, Bool-cases, inl, inr, ap, ap₂, lt→ltb, update, update_other, update_same,
}
use csed.Pagedir.{phys_base, has, pte_addr, pt_no, pd_no, pde_get_pt, lookup_page}
use csed.Pagedir.Entry.{IsPage, pde_get_pt_eq}

-- The address of the entry for a user address, if its table is there, and the entry, or 0.
abbrev pub slot : ℕ → (ℕ → ℕ) → ℕ → ℕ
slot pd word va = pte_addr (word (pd + 4 * pd_no va)) + phys_base + 4 * pt_no va

abbrev pub entry : ℕ → (ℕ → ℕ) → ℕ → ℕ
entry pd word va = if word (pd + 4 * pd_no va) == 0 then 0 else word (slot pd word va)

-- A page table at `pd + 4 * d`.
pub record IsTable (pd : ℕ) (pde : ℕ) : Type 0 where
  pub present : pde % 2 ≡ 1
  pub low : pte_addr pde + phys_base < 2 ^ 32
  pub apart : pte_addr pde + phys_base ≢ pd

-- A page directory whose user part has tables of its own, and entries that lead to pages.
pub record IsDirectory (pd : ℕ) (word : ℕ → ℕ) : Type 0 where
  pub aligned : pd % 4096 ≡ 0
  pub table : (d : ℕ) → d < 768 → (word (pd + 4 * d) == 0) ≡ false → IsTable pd (word (pd + 4 * d))
  pub distinct :
      (d e : ℕ)
      → d < 768
      → e < 768
      → (word (pd + 4 * d) == 0) ≡ false
      → (word (pd + 4 * e) == 0) ≡ false
      → pte_addr (word (pd + 4 * d)) ≡ pte_addr (word (pd + 4 * e))
      → d ≡ e
  pub frame :
      (va : ℕ)
      → va < phys_base
      → has 1 (entry pd word va) ≡ true
      → pte_addr (entry pd word va) < 2 ^ 30

module _ (pd : ℕ) (word : ℕ → ℕ) (v : IsDirectory pd word) where
  dir_no : (va : ℕ) → va < phys_base → pd_no va < 768
  dir_no va h = omega arith

  -- Entries are not in the directory, and those of different pages are not in one place.
  pub slot_outside :
      (va d : ℕ)
      → va < phys_base
      → (word (pd + 4 * pd_no va) == 0) ≡ false
      → d < 1024
      → slot pd word va ≢ pd + 4 * d
  slot_outside va d h p b e =
      let t = v.table (pd_no va) (omega arith) p in t.apart (omega (arith, v.aligned, e))

  pub slot_apart :
      (va vb : ℕ)
      → va < phys_base
      → vb < phys_base
      → (word (pd + 4 * pd_no va) == 0) ≡ false
      → (word (pd + 4 * pd_no vb) == 0) ≡ false
      → slot pd word va ≡ slot pd word vb
      → va / 4096 ≡ vb / 4096
  slot_apart va vb h g p q e =
      let s = v.distinct (pd_no va) (pd_no vb) (omega arith) (omega arith) p q (omega (arith, e)) in
      omega (arith, s, e, ap (λ d. pte_addr (word (pd + 4 * d))) s)

  -- lookup_page without `create`.
  pub lookup_none :
      (va : ℕ) (fresh : Option ℕ)
      → (word (pd + 4 * pd_no va) == 0) ≡ true
      → lookup_page pd va false fresh word ≡ some (none, word)
  unfolding lookup_page
  lookup_none va fresh p = rw (p) refl

  pub lookup_some :
      (va : ℕ) (create : Bool) (fresh : Option ℕ)
      → va < phys_base
      → (word (pd + 4 * pd_no va) == 0) ≡ false
      → lookup_page pd va create fresh word ≡ some (some (slot pd word va), word)
  unfolding lookup_page
  lookup_some va create fresh h p =
      let t = v.table (pd_no va) (omega arith) p in
      let e : pde_get_pt (word (pd + 4 * pd_no va))
          ≡ some (pte_addr (word (pd + 4 * pd_no va)) + phys_base) =
        pde_get_pt_eq (word (pd + 4 * pd_no va)) (omega (arith, t.low)) t.present in
      by_create create e
    where
      by_create :
          (create : Bool)
          → pde_get_pt (word (pd + 4 * pd_no va))
            ≡ some (pte_addr (word (pd + 4 * pd_no va)) + phys_base)
          → lookup_page pd va create fresh word ≡ some (some (slot pd word va), word)
      by_create true e = rw (lt→ltb va phys_base h, p, e) refl
      by_create false e = rw (p, e) refl

  -- The directory after a write of the entry for `va`.
  kept_pde :
      (va d x : ℕ)
      → va < phys_base
      → (word (pd + 4 * pd_no va) == 0) ≡ false
      → d < 1024
      → update word (slot pd word va) x (pd + 4 * d) ≡ word (pd + 4 * d)
  kept_pde va d x h p b =
      update_other word (slot pd word va) (pd + 4 * d) x (slot_outside va d h p b)

  kept_slot :
      (va vb x : ℕ)
      → va < phys_base
      → vb < phys_base
      → (word (pd + 4 * pd_no va) == 0) ≡ false
      → slot pd (update word (slot pd word va) x) vb ≡ slot pd word vb
  kept_slot va vb x h g p =
      ap (λ w. pte_addr w + phys_base + 4 * pt_no vb) (kept_pde va (pd_no vb) x h p (omega arith))

  pub write_entry :
      (va vb x : ℕ)
      → va < phys_base
      → vb < phys_base
      → (word (pd + 4 * pd_no va) == 0) ≡ false
      → entry pd (update word (slot pd word va) x) vb
        ≡ (if va / 4096 == vb / 4096 then x else entry pd word vb)
  write_entry va vb x h g p = rw (kept_pde va (pd_no vb) x h p (omega arith)) by_page
    where
      same_table : va / 4096 ≡ vb / 4096 → (word (pd + 4 * pd_no vb) == 0) ≡ false
      same_table e = let d : pd_no vb ≡ pd_no va = omega (arith, e) in rw (d) p

      same_slot : va / 4096 ≡ vb / 4096 → slot pd word va ≡ slot pd word vb
      same_slot e =
          let d : pd_no va ≡ pd_no vb = omega (arith, e) in
          ap₂ (λ d n. pte_addr (word (pd + 4 * d)) + phys_base + 4 * n) d (omega (arith, e))

      by_page :
          (if word (pd + 4 * pd_no vb) == 0
            then 0
            else update word (slot pd word va) x (slot pd word vb))
          ≡ (if va / 4096 == vb / 4096 then x else entry pd word vb)
      by_page = elim (Bool-cases (va / 4096 == vb / 4096)) [
        | inl e ↦
            let q : va / 4096 ≡ vb / 4096 = ground arith in
            rw
              (
                same_table q,
                e,
                update_same word (slot pd word va) (slot pd word vb) x (same_slot q),
              )
              refl
        | inr e ↦ elim (Bool-cases (word (pd + 4 * pd_no vb) == 0)) [
          | inl z ↦ rw (z, e) refl
          | inr z ↦
              rw
                (
                  z,
                  e,
                  update_other word (slot pd word va) (slot pd word vb) x
                      (λ q. absurd (ground (arith, slot_apart va vb h g p z q))),
                )
                refl
        ]
      ]

  -- A page table that is new is a page of zeros, which is no table yet.
  pub record IsFresh (page : ℕ) : Type 0 where
    pub at : IsPage page
    pub zeros : (i : ℕ) → i < 1024 → word (page + 4 * i) ≡ 0
    pub other : page ≢ pd
    pub unused :
        (d : ℕ)
        → d < 768
        → (word (pd + 4 * d) == 0) ≡ false
        → pte_addr (word (pd + 4 * d)) + phys_base ≢ page

  pub write_IsDirectory :
      (va x : ℕ)
      → va < phys_base
      → (word (pd + 4 * pd_no va) == 0) ≡ false
      → (has 1 x ≡ true → pte_addr x < 2 ^ 30)
      → IsDirectory pd (update word (slot pd word va) x)
  write_IsDirectory va x h p low = record {
    aligned = v.aligned;
    table = λ d b. rw (kept_pde va d x h p (omega arith)) (v.table d b);
    distinct = λ d e b c.
        rw (kept_pde va d x h p (omega arith), kept_pde va e x h p (omega arith))
          (v.distinct d e b c);
    frame = λ vb b. rw (write_entry va vb x h b p) (by_page vb b (va / 4096 == vb / 4096));
  }
    where
      by_page :
          (vb : ℕ)
          → vb < phys_base
          → (c : Bool) → has 1 (if c then x else entry pd word vb) ≡ true
          → pte_addr (if c then x else entry pd word vb) < 2 ^ 30
      by_page vb b true q = low q
      by_page vb b false q = v.frame vb b q
