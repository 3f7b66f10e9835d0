-- ===== src/Pagedir/Fresh.antt =====
-- The page tables that lookup_page in src/userprog/pagedir.c adds.
use csed.Common.{
  update_other, update_same, ℕ, ◌+◌, ◌-◌, ◌*◌, ◌<◌, ◌≡◌, ◌≢◌, refl, true, false, ◌==◌, some, arith,
  if◌then◌else◌, Bool-cases, inl, inr, ◌∙◌, ap, ap₂, lt→ltb, update, sym, subst,
}
use csed.Pagedir.{phys_base, pte_addr, pt_no, pd_no, lookup_page, new_table}
use csed.Pagedir.Entry.{pde_create_eq, table_of}
use csed.Pagedir.Tables.{slot, entry, IsTable, IsDirectory, IsFresh, slot_outside}

module _ (pd : ℕ) (word : ℕ → ℕ) (v : IsDirectory pd word) (page va : ℕ)
    (f : IsFresh pd word v page) (h : va < phys_base)
    (z : (word (pd + 4 * pd_no va) == 0) ≡ true) where
  -- The memory with the new table.
  abbrev pub with_table : ℕ → ℕ
  with_table = update word (pd + 4 * pd_no va) (page - phys_base + 7)

  abbrev new_pde : ℕ
  new_pde = page - phys_base + 7

  new_pde_addr : pte_addr new_pde ≡ page - phys_base
  new_pde_addr = omega (arith, f.at.aligned, f.at.low)

  pde_here : with_table (pd + 4 * pd_no va) ≡ new_pde
  pde_here = update_same word (pd + 4 * pd_no va) (pd + 4 * pd_no va) new_pde refl

  pde_there : (d : ℕ) → pd_no va ≢ d → with_table (pd + 4 * d) ≡ word (pd + 4 * d)
  pde_there d n =
      update_other word (pd + 4 * pd_no va) (pd + 4 * d) new_pde (λ e. n (omega (arith, e)))

  table_entry : (i : ℕ) → i < 1024 → with_table (page + 4 * i) ≡ 0
  table_entry i b =
      update_other word (pd + 4 * pd_no va) (page + 4 * i) new_pde
        (λ e. f.other (omega (arith, f.at.aligned, v.aligned, e)))
      ∙ f.zeros i b

  pub fresh_slot : slot pd with_table va ≡ page + 4 * pt_no va
  fresh_slot =
      ap (λ w. pte_addr w + phys_base + 4 * pt_no va) pde_here
      ∙ omega (arith, new_pde_addr, f.at.low)

  pub fresh_present : (with_table (pd + 4 * pd_no va) == 0) ≡ false
  fresh_present = ap (λ w. w == 0) pde_here ∙ ground arith

  -- No entry changes.
  pub fresh_entry : (vb : ℕ) → vb < phys_base → entry pd with_table vb ≡ entry pd word vb
  fresh_entry vb g = elim (Bool-cases (pd_no va == pd_no vb)) [
    | inl e ↦ same_table (ground arith)
    | inr e ↦ other_table (λ q. absurd (ground arith))
  ]
    where
      same_table : pd_no va ≡ pd_no vb → entry pd with_table vb ≡ entry pd word vb
      same_table e =
          let q : (word (pd + 4 * pd_no vb) == 0) ≡ true =
            ap (λ d. word (pd + 4 * d) == 0) (sym e) ∙ z in
          let p : with_table (pd + 4 * pd_no vb) ≡ new_pde =
            ap (λ d. with_table (pd + 4 * d)) (sym e) ∙ pde_here in
          let s : slot pd with_table vb ≡ page + 4 * pt_no vb =
            ap (λ w. pte_addr w + phys_base + 4 * pt_no vb) p
            ∙ omega (arith, new_pde_addr, f.at.low) in
          ap₂ (λ w s. if w == 0 then 0 else with_table s) p s
          ∙ ap (λ x. if new_pde == 0 then 0 else x) (table_entry (pt_no vb) (omega arith))
          ∙ ground (arith, q)

      other_table : pd_no va ≢ pd_no vb → entry pd with_table vb ≡ entry pd word vb
      other_table n = elim (Bool-cases (word (pd + 4 * pd_no vb) == 0)) [
        | inl q ↦ rw (pde_there (pd_no vb) n, q) refl
        | inr q ↦
            rw
              (
                pde_there (pd_no vb) n,
                q,
                update_other word (pd + 4 * pd_no va) (slot pd word vb) new_pde
                    (λ e. slot_outside pd word v vb (pd_no va) g q (omega arith) (sym e)),
              )
              refl
      ]

  pub fresh_IsDirectory : IsDirectory pd with_table
  fresh_IsDirectory = record {
    aligned = v.aligned;
    table = λ d b. elim (Bool-cases (pd_no va == d)) [
      | inl e ↦
          let q : pd_no va ≡ d = ground arith in
          subst (λ d. (with_table (pd + 4 * d) == 0) ≡ false → IsTable pd (with_table (pd + 4 * d)))
            q (λ p. subst (IsTable pd) (sym pde_here) new_table_ok)
      | inr e ↦ rw (pde_there d (λ q. absurd (ground arith))) (v.table d b)
    ];
    distinct = apart;
    frame = λ vb b. rw (fresh_entry vb b) (v.frame vb b);
  }
    where
      new_table_ok : IsTable pd new_pde
      new_table_ok = record {
        present = omega (arith, f.at.aligned, f.at.low);
        low = omega (arith, new_pde_addr, f.at.high, f.at.low);
        apart = λ e. f.other (omega (arith, new_pde_addr, f.at.low, e));
      }

      clash :
          (e : ℕ)
          → e < 768
          → pd_no va ≢ e
          → (with_table (pd + 4 * e) == 0) ≡ false
          → pte_addr (with_table (pd + 4 * pd_no va)) ≢ pte_addr (with_table (pd + 4 * e))
      clash e c n q r =
          let same = pde_there e n in
          f.unused e c (ap (λ w. w == 0) (sym same) ∙ q)
            (omega (arith, ap pte_addr pde_here, ap pte_addr same, r, new_pde_addr, f.at.low))

      apart :
          (d e : ℕ)
          → d < 768
          → e < 768
          → (with_table (pd + 4 * d) == 0) ≡ false
          → (with_table (pd + 4 * e) == 0) ≡ false
          → pte_addr (with_table (pd + 4 * d)) ≡ pte_addr (with_table (pd + 4 * e))
          → d ≡ e
      apart d e b c p q r = elim (Bool-cases (pd_no va == d)) [
        | inl x ↦ elim (Bool-cases (pd_no va == e)) [
          | inl y ↦ ground arith
          | inr y ↦
              let k : d ≡ pd_no va = ground arith in
              absurd (
                clash e c (λ q. absurd (ground arith)) q
                  (ap (λ d. pte_addr (with_table (pd + 4 * d))) (sym k) ∙ r))
        ]
        | inr x ↦ elim (Bool-cases (pd_no va == e)) [
          | inl y ↦
              let k : e ≡ pd_no va = ground arith in
              absurd (
                clash d b (λ q. absurd (ground arith)) p
                  (ap (λ d. pte_addr (with_table (pd + 4 * d))) (sym k) ∙ sym r))
          | inr y ↦
              let s = pde_there d (λ q. absurd (ground arith)) in
              let t = pde_there e (λ q. absurd (ground arith)) in
              v.distinct d e b c (ap (λ w. w == 0) (sym s) ∙ p) (ap (λ w. w == 0) (sym t) ∙ q)
                (ap pte_addr (sym s) ∙ r ∙ ap pte_addr t)
        ]
      ]

  -- lookup_page with `create` puts the table there.
  pub lookup_fresh :
      lookup_page pd va true (some page) word ≡ some (some (slot pd with_table va), with_table)
  unfolding lookup_page new_table
  lookup_fresh =
      rw (lt→ltb va phys_base h, z, pde_create_eq page f.at, table_of page f.at)
        (ap (λ s. some (some s, with_table)) (sym fresh_slot))
