-- ===== src/Pagedir/Clear.antt =====
-- pagedir_clear_page in src/userprog/pagedir.c.
use csed.Common.{
  ℕ, ◌+◌, ◌-◌, ◌*◌, ◌/◌, ◌%◌, ◌^◌, ◌<◌, ◌≡◌, refl, Bool, true, false, ◌==◌, none, some, arith,
  if◌then◌else◌, Bool-cases, inl, inr, ◌∙◌, ap, ap₂, lt→ltb, update, sym, bit_and,
}
use csed.Common.Masks.{and_clear}
use csed.Pagedir.{phys_base, has, pte_addr, pt_no, pd_no, pagedir_get_page, pagedir_clear_page}
use csed.Pagedir.Entry.{present_eq}
use csed.Pagedir.Tables.{
  slot, entry, IsDirectory, lookup_some, lookup_none, write_entry, write_IsDirectory,
}
use csed.Pagedir.Mapping.{mapped, leads, entry-slot, pagedir_get_page_eq}

module _ (pd : ℕ) (word : ℕ → ℕ) (v : IsDirectory pd word) where
  cleared_word : (x : ℕ) → x < 2 ^ 32 → has 1 x ≡ true → has 1 (bit_and x (2 ^ 32 - 1 - 1)) ≡ false
  cleared_word x b h =
      present_eq (bit_and x (2 ^ 32 - 1 - 1))
      ∙ ground (arith, and_clear 32 0 x (omega arith) b, present_eq x)

  clear_present :
      (va : ℕ)
      → va % 4096 ≡ 0
      → va < phys_base
      → has 1 (entry pd word va) ≡ true
      → pagedir_clear_page pd va word
        ≡ some (update word (slot pd word va) (bit_and (entry pd word va) (2 ^ 32 - 1 - 1)))
  unfolding pagedir_clear_page
  clear_present va a h p = elim (Bool-cases (word (pd + 4 * pd_no va) == 0)) [
    | inl z ↦ absurd (cc (p, has_none z))
    | inr z ↦
        rw
          (
            (let q : (va % 4096 == 0) ≡ true = ground arith in q),
            lt→ltb va phys_base h,
            lookup_some pd word v va false none h z,
          )
          (rw (ap (has 1) (sym (entry-slot pd word va z)) ∙ p) (
            ap (λ x. some (update word (slot pd word va) (bit_and x (2 ^ 32 - 1 - 1))))
              (sym (entry-slot pd word va z))))
  ]
    where
      has_none : (word (pd + 4 * pd_no va) == 0) ≡ true → has 1 (entry pd word va) ≡ false
      has_none z = rw (z) refl

  clear_absent :
      (va : ℕ)
      → va % 4096 ≡ 0
      → va < phys_base
      → has 1 (entry pd word va) ≡ false
      → pagedir_clear_page pd va word ≡ some word
  unfolding pagedir_clear_page
  clear_absent va a h p = elim (Bool-cases (word (pd + 4 * pd_no va) == 0)) [
    | inl z ↦
        rw
          (
            (let q : (va % 4096 == 0) ≡ true = ground arith in q),
            lt→ltb va phys_base h,
            lookup_none pd word v va none z,
          )
          refl
    | inr z ↦
        rw
          (
            (let q : (va % 4096 == 0) ≡ true = ground arith in q),
            lt→ltb va phys_base h,
            lookup_some pd word v va false none h z,
          )
          (rw (ap (has 1) (sym (entry-slot pd word va z)) ∙ p) refl)
  ]

  -- pagedir_clear_page unmaps the page, and no other page; the directory stays consistent. The entry
  -- is a 32-bit word.
  pub pagedir_clear_page_lem :
      (va : ℕ)
      → va % 4096 ≡ 0
      → va < phys_base
      → entry pd word va < 2 ^ 32
      → (word' : ℕ → ℕ) × (pagedir_clear_page pd va word ≡ some word')
        × IsDirectory pd word'
        × ((vb : ℕ)
            → vb < phys_base
            → pagedir_get_page pd vb word'
              ≡ (if va / 4096 == vb / 4096 then some none else pagedir_get_page pd vb word))
  pagedir_clear_page_lem va a h b = elim (Bool-cases (has 1 (entry pd word va))) [
    | inl p ↦
        let x = bit_and (entry pd word va) (2 ^ 32 - 1 - 1) in
        let z = table_there p in
        let f = cleared_word (entry pd word va) b p in
        let d = write_IsDirectory pd word v va x h z (λ q. absurd (cc (q, f))) in
        (
          update word (slot pd word va) x,
          clear_present va a h p,
          d,
          λ vb g.
              pagedir_get_page_eq pd (update word (slot pd word va) x) vb d g
              ∙ ap (λ e. some (leads e vb)) (write_entry pd word v va vb x h g z)
              ∙ by_page (va / 4096 == vb / 4096) vb x f
              ∙ ap (λ o. if va / 4096 == vb / 4096 then some none else o)
                  (sym (pagedir_get_page_eq pd word vb v g)),
        )
    | inr p ↦ (
      word,
      clear_absent va a h p,
      v,
      λ vb g. elim (Bool-cases (va / 4096 == vb / 4096)) [
        | inl q ↦ pagedir_get_page_eq pd word vb v g ∙ same_page vb p (ground arith) ∙ (rw (q) refl)
        | inr q ↦ rw (q) refl
      ],
    )
  ]
    where
      table_there : has 1 (entry pd word va) ≡ true → (word (pd + 4 * pd_no va) == 0) ≡ false
      table_there p = elim (Bool-cases (word (pd + 4 * pd_no va) == 0)) [
        | inl z ↦ let n : has 1 (entry pd word va) ≡ false = rw (z) refl in absurd (cc (p, n))
        | inr z ↦ z
      ]

      by_page :
          (c : Bool) (vb x : ℕ)
          → has 1 x ≡ false
          → some (leads (if c then x else entry pd word vb) vb)
            ≡ (if c then some none else some (mapped pd word vb))
      by_page true vb x f = rw (f) refl
      by_page false vb x f = refl

      same_page :
          (vb : ℕ)
          → has 1 (entry pd word va) ≡ false
          → va / 4096 ≡ vb / 4096
          → some (mapped pd word vb) ≡ some none
      same_page vb p r = ap some (
          ap (λ e. leads e vb)
            (ap₂
              (λ d n.
                if word (pd + 4 * d) == 0
                then 0
                else word (pte_addr (word (pd + 4 * d)) + phys_base + 4 * n))
              (let k : pd_no vb ≡ pd_no va = omega (arith, r) in k)
              (let k : pt_no vb ≡ pt_no va = omega (arith, r) in k))
          ∙ (rw (p) refl))
