-- ===== src/Pagedir/Install.antt =====
-- pagedir_install_page and pagedir_set_page in src/userprog/pagedir.c.
use csed.Common.{
  ℕ, ◌+◌, ◌-◌, ◌*◌, ◌/◌, ◌%◌, ◌<◌, ◌≡◌, ◌≢◌, refl, Bool, true, false, ◌==◌, none, some, arith,
  Option, if◌then◌else◌, Bool-cases, inl, inr, ◌∙◌, ap, lt→ltb, sym, leb,
}
use csed.Palloc.{pg_ofs}
use csed.Pagedir.{
  phys_base, has, pd_no, lookup_page, new_table, pagedir_get_page, pagedir_set_page,
  pagedir_install_page, vtop, set_entry,
}
use csed.Pagedir.Entry.{IsPage, low_flags, entry_parts}
use csed.Pagedir.Tables.{slot, entry, IsDirectory, IsFresh, lookup_some}
use csed.Pagedir.Fresh.{with_table, fresh_present, fresh_entry, fresh_IsDirectory, lookup_fresh}
use csed.Pagedir.Mapping.{mapped, leads, pagedir_get_page_eq, set_entry_eq}

-- The page that palloc_get_page gives for a new table, or NULL.
pub data Supply (pd : ℕ) (word : ℕ → ℕ) (v : IsDirectory pd word) : Option ℕ → Type 0 where
  out : Supply pd word v none
  page : (p : ℕ) → IsFresh pd word v p → Supply pd word v (some p)

abbrev pub is_some : Option ℕ → Bool
is_some none = false
is_some (some p) = true

-- Whether pagedir_install_page finds the page unmapped, and memory for a table if it needs one.
abbrev pub can_install : ℕ → (ℕ → ℕ) → ℕ → Option ℕ → Bool
can_install pd word upage fresh =
    if has 1 (entry pd word upage)
    then false
    else if word (pd + 4 * pd_no upage) == 0
    then is_some fresh
    else true

no_table_eq :
    (pd : ℕ) (word : ℕ → ℕ) (upage : ℕ)
    → upage < phys_base
    → (word (pd + 4 * pd_no upage) == 0) ≡ true
    → lookup_page pd upage true none word ≡ some (none, word)
unfolding lookup_page new_table
no_table_eq pd word upage h z = rw (lt→ltb upage phys_base h, z) refl

false≢true : false ≢ true
false≢true e = absurd (cc (e))

module _ (init_ram_pages init_page_dir pd : ℕ) (word : ℕ → ℕ) (upage kpage : ℕ) (w : Bool)
    (v : IsDirectory pd word) (aligned : upage % 4096 ≡ 0) (h : upage < phys_base)
    (k : IsPage kpage) (ram : (kpage - phys_base) / 4096 < init_ram_pages)
    (other : pd ≢ init_page_dir) where
  -- The assertions of pagedir_set_page hold.
  set_page_eq :
      (fresh : Option ℕ) (o : Option ℕ × (ℕ → ℕ))
      → lookup_page pd upage true fresh word ≡ some o
      → pagedir_set_page init_ram_pages init_page_dir pd upage kpage w fresh word
        ≡ set_entry kpage w o
  unfolding pagedir_set_page vtop
  set_page_eq fresh o e =
      rw
        (
          (let q : (upage % 4096 == 0) ≡ true = ground arith in q),
          (let q : (kpage % 4096 == 0) ≡ true = ground (arith, k.aligned) in q),
          lt→ltb upage phys_base h,
          (let q : leb phys_base kpage ≡ true = ground (arith, k.low) in q),
          lt→ltb ((kpage - phys_base) / 4096) init_ram_pages ram,
          (let q : (pd == init_page_dir) ≡ false = by_other in q),
          e,
        )
        refl
    where
      by_other : (pd == init_page_dir) ≡ false
      by_other = elim (Bool-cases (pd == init_page_dir)) [
        | inl q ↦ absurd (other (ground arith))
        | inr q ↦ q
      ]

  set_page-none :
      (word (pd + 4 * pd_no upage) == 0) ≡ true
      → pagedir_set_page init_ram_pages init_page_dir pd upage kpage w none word
        ≡ some (false, word)
  unfolding set_entry
  set_page-none z = set_page_eq none (none, word) no_table
    where
      no_table : lookup_page pd upage true none word ≡ some (none, word)
      no_table = no_table_eq pd word upage h z

  -- The words after a call that maps the page.
  abbrev Maps : (ℕ → ℕ) → Type 0
  Maps word' =
      IsDirectory pd word'
      × ((vb : ℕ)
          → vb < phys_base
          → pagedir_get_page pd vb word'
            ≡ some
                (if upage / 4096 == vb / 4096 then some (kpage + pg_ofs vb) else mapped pd word vb))

  maps :
      (word' : ℕ → ℕ)
      → IsDirectory pd word'
      → ((vb : ℕ)
          → vb < phys_base
          → entry pd word' vb ≡ (
              if upage / 4096 == vb / 4096
              then kpage - phys_base + (if w then 7 else 5)
              else entry pd word vb))
      → Maps word'
  maps word' d e = (d, λ vb b. pagedir_get_page_eq pd word' vb d b ∙ ap some (by_page vb b))
    where
      new_leads :
          (vb : ℕ) → leads (kpage - phys_base + (if w then 7 else 5)) vb ≡ some (kpage + pg_ofs vb)
      new_leads vb =
          let (present, writable, user) = low_flags kpage w k in
          let (a, b) = entry_parts kpage (if w then 7 else 5) k (ground arith) in
          rw (present) (ap (λ x. some (x + pg_ofs vb)) (omega (arith, a, k.low)))

      by_page :
          (vb : ℕ)
          → vb < phys_base
          → mapped pd word' vb
            ≡ (if upage / 4096 == vb / 4096 then some (kpage + pg_ofs vb) else mapped pd word vb)
      by_page vb b = elim (Bool-cases (upage / 4096 == vb / 4096)) [
        | inl q ↦
            let x : entry pd word' vb ≡ kpage - phys_base + (if w then 7 else 5) =
              e vb b ∙ (rw (q) refl) in
            ap (λ x. leads x vb) x ∙ new_leads vb ∙ (rw (q) refl)
        | inr q ↦
            let x : entry pd word' vb ≡ entry pd word vb = e vb b ∙ (rw (q) refl) in
            ap (λ x. leads x vb) x ∙ (rw (q) refl)
      ]

  mapped_page :
      (fresh : Option ℕ)
      → Supply pd word v fresh
      → has 1 (entry pd word upage) ≡ false
      → (if word (pd + 4 * pd_no upage) == 0 then is_some fresh else true) ≡ true
      → (word' : ℕ → ℕ) × (pagedir_set_page init_ram_pages init_page_dir pd upage kpage w fresh word
          ≡ some (true, word'))
        × Maps word'
  mapped_page fresh s free c = elim (Bool-cases (word (pd + 4 * pd_no upage) == 0)) [
    | inr z ↦
        let (word', e, d, same) = set_entry_eq pd word upage kpage w v h k z free in
        (
          word',
          set_page_eq fresh (some (slot pd word upage), word)
                (lookup_some pd word v upage true fresh h z)
              ∙ e,
          maps word' d same,
        )
    | inl z ↦
        let e : (if word (pd + 4 * pd_no upage) == 0 then is_some fresh else true) ≡ is_some fresh =
          rw (z) refl in
        supplied fresh s z (sym e ∙ c)
  ]
    where
      supplied :
          (fresh : Option ℕ)
          → Supply pd word v fresh
          → (word (pd + 4 * pd_no upage) == 0) ≡ true
          → is_some fresh ≡ true
          → (word' : ℕ → ℕ) × (pagedir_set_page init_ram_pages init_page_dir pd upage kpage w fresh
                word
              ≡ some (true, word'))
            × Maps word'
      supplied _ out z c = absurd (cc (c))
      supplied _ (page p f) z c =
          let word1 = with_table pd word v p upage f h z in
          let d1 = fresh_IsDirectory pd word v p upage f h z in
          let same1 = fresh_entry pd word v p upage f h z in
          let (word', e, d, same) =
            set_entry_eq pd word1 upage kpage w d1 h k (fresh_present pd word v p upage f h z)
              (ap (has 1) (same1 upage h) ∙ free) in
          (
            word',
            set_page_eq (some p) (some (slot pd word1 upage), word1)
                  (lookup_fresh pd word v p upage f h z)
                ∙ e,
            maps word' d (λ vb b.
                same vb b
                ∙ ap
                    (λ x.
                      if upage / 4096 == vb / 4096
                      then kpage - phys_base + (if w then 7 else 5)
                      else x)
                    (same1 vb b)),
          )

  -- pagedir_install_page returns false and changes nothing if the page is mapped or there is no
  -- memory for a table that it needs; otherwise it returns true, the page is mapped to the given
  -- page of the kernel's memory, and every other page is mapped as before. The directory stays
  -- consistent, and no assertion fails.
  pub pagedir_install_page_lem :
      (fresh : Option ℕ)
      → Supply pd word v fresh
      → (can_install pd word upage fresh ≡ false
          → pagedir_install_page init_ram_pages init_page_dir pd upage kpage w fresh word
            ≡ some (false, word))
        × (can_install pd word upage fresh ≡ true
            → (word' : ℕ → ℕ) × (pagedir_install_page init_ram_pages init_page_dir pd upage kpage w
                  fresh word
                ≡ some (true, word'))
              × IsDirectory pd word'
              × ((vb : ℕ)
                  → vb < phys_base
                  → pagedir_get_page pd vb word'
                    ≡ some (
                        if upage / 4096 == vb / 4096
                        then some (kpage + pg_ofs vb)
                        else mapped pd word vb)))
  unfolding pagedir_install_page
  pagedir_install_page_lem fresh s = (
    (λ c. elim (Bool-cases (has 1 (entry pd word upage))) [
      | inl q ↦ rw (pagedir_get_page_eq pd word upage v h, q) refl
      | inr q ↦
          rw (pagedir_get_page_eq pd word upage v h, q)
            (elim (Bool-cases (word (pd + 4 * pd_no upage) == 0)) [
              | inl z ↦
                  let e : can_install pd word upage fresh ≡ is_some fresh = rw (q, z) refl in
                  no_memory fresh s z (sym e ∙ c)
              | inr z ↦
                  let e : can_install pd word upage fresh ≡ true = rw (q, z) refl in
                  absurd (false≢true (sym c ∙ e))
            ])
    ]),
    λ c. elim (Bool-cases (has 1 (entry pd word upage))) [
      | inl q ↦
          let e : can_install pd word upage fresh ≡ false = rw (q) refl in
          absurd (false≢true (sym e ∙ c))
      | inr q ↦
          let (word', e, m) = mapped_page fresh s q (unmapped q c) in
          (word', rw (pagedir_get_page_eq pd word upage v h, q) e, m.0, m.1)
    ],
  )
    where
      unmapped :
          has 1 (entry pd word upage) ≡ false
          → can_install pd word upage fresh ≡ true
          → (if word (pd + 4 * pd_no upage) == 0 then is_some fresh else true) ≡ true
      unmapped q c =
          let e : can_install pd word upage fresh
              ≡ (if word (pd + 4 * pd_no upage) == 0 then is_some fresh else true) =
            rw (q) refl in
          sym e ∙ c

      no_memory :
          (fresh : Option ℕ)
          → Supply pd word v fresh
          → (word (pd + 4 * pd_no upage) == 0) ≡ true
          → is_some fresh ≡ false
          → pagedir_set_page init_ram_pages init_page_dir pd upage kpage w fresh word
            ≡ some (false, word)
      no_memory _ out z c = set_page-none z
      no_memory _ (page p f) z c = absurd (false≢true (sym c))
