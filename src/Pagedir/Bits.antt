-- ===== src/Pagedir/Bits.antt =====
-- The functions of src/userprog/pagedir.c that change single bits of an entry.
use csed.Common.{
  ℕ, zero, suc, ◌+◌, ◌-◌, ◌*◌, ◌/◌, ◌^◌, ◌<◌, ◌≡◌, refl, Bool, true, false, ◌==◌, none, some, arith,
  if◌then◌else◌, Bool-cases, inl, inr, ◌∙◌, ap, ap₂, update, sym, bit_or, bit_and,
}
use csed.Common.Bits.{bit, test_mask}
use csed.Common.Masks.{or_mask, and_clear}
use csed.Palloc.{pg_ofs}
use csed.Pagedir.{
  phys_base, has, pte_addr, pt_no, pd_no, pagedir_get_page, is_flagged, set_flagged,
  pagedir_set_dirty, pagedir_is_dirty, pagedir_is_accessed,
}
use csed.Pagedir.Entry.{present_eq}
use csed.Pagedir.Tables.{
  slot, entry, IsDirectory, lookup_some, lookup_none, write_entry, write_IsDirectory,
}
use csed.Pagedir.Mapping.{mapped, leads, entry-slot, pagedir_get_page_eq}

zero_bit : (i : ℕ) → bit i 0 ≡ 0
zero_bit zero = refl
zero_bit (suc i) = zero_bit i

-- A flag set to a value in a word.
abbrev put_flag : ℕ → Bool → ℕ → ℕ
put_flag i value x = if value then bit_or x (2 ^ i) else bit_and x (2 ^ 32 - 1 - 2 ^ i)

-- For the accessed and the dirty bit.
put_flag_eq :
    (i x : ℕ) (value : Bool)
    → i < 32
    → x < 2 ^ 32
    → put_flag i value x
      ≡ (if bit i x == 1 then (if value then x else x - 2 ^ i) else if value then x + 2 ^ i else x)
put_flag_eq i x true h b = or_mask i x
put_flag_eq i x false h b = and_clear 32 i x h b

-- A change of the flag `2 ^ i` sets it, and keeps the address, the present bit, and the flag `2 ^ j`.
record Sets (i j x : ℕ) (value : Bool) : Type 0 where
  flag : has (2 ^ i) (put_flag i value x) ≡ value
  addr : pte_addr (put_flag i value x) ≡ pte_addr x
  present : has 1 (put_flag i value x) ≡ has 1 x
  other : has (2 ^ j) (put_flag i value x) ≡ has (2 ^ j) x

accessed_bit : (x : ℕ) (value : Bool) → x < 2 ^ 32 → Sets 5 6 x value
accessed_bit x true b = record {
  flag = test_mask 5 (put_flag 5 true x) ∙ ground (arith, put_flag_eq 5 x true (omega arith) b);
  addr = ground (arith, put_flag_eq 5 x true (omega arith) b);
  present =
      present_eq (put_flag 5 true x)
      ∙ ground (arith, put_flag_eq 5 x true (omega arith) b)
      ∙ sym (present_eq x);
  other =
      test_mask 6 (put_flag 5 true x)
      ∙ ground (arith, put_flag_eq 5 x true (omega arith) b)
      ∙ sym (test_mask 6 x);
}
accessed_bit x false b = record {
  flag = test_mask 5 (put_flag 5 false x) ∙ ground (arith, put_flag_eq 5 x false (omega arith) b);
  addr = ground (arith, put_flag_eq 5 x false (omega arith) b);
  present =
      present_eq (put_flag 5 false x)
      ∙ ground (arith, put_flag_eq 5 x false (omega arith) b)
      ∙ sym (present_eq x);
  other =
      test_mask 6 (put_flag 5 false x)
      ∙ ground (arith, put_flag_eq 5 x false (omega arith) b)
      ∙ sym (test_mask 6 x);
}

dirty_bit : (x : ℕ) (value : Bool) → x < 2 ^ 32 → Sets 6 5 x value
dirty_bit x true b = record {
  flag = test_mask 6 (put_flag 6 true x) ∙ ground (arith, put_flag_eq 6 x true (omega arith) b);
  addr = ground (arith, put_flag_eq 6 x true (omega arith) b);
  present =
      present_eq (put_flag 6 true x)
      ∙ ground (arith, put_flag_eq 6 x true (omega arith) b)
      ∙ sym (present_eq x);
  other =
      test_mask 5 (put_flag 6 true x)
      ∙ ground (arith, put_flag_eq 6 x true (omega arith) b)
      ∙ sym (test_mask 5 x);
}
dirty_bit x false b = record {
  flag = test_mask 6 (put_flag 6 false x) ∙ ground (arith, put_flag_eq 6 x false (omega arith) b);
  addr = ground (arith, put_flag_eq 6 x false (omega arith) b);
  present =
      present_eq (put_flag 6 false x)
      ∙ ground (arith, put_flag_eq 6 x false (omega arith) b)
      ∙ sym (present_eq x);
  other =
      test_mask 5 (put_flag 6 false x)
      ∙ ground (arith, put_flag_eq 6 x false (omega arith) b)
      ∙ sym (test_mask 5 x);
}

module _ (pd : ℕ) (word : ℕ → ℕ) (v : IsDirectory pd word) where
  -- A flag of the entry for a user address; there is none without a table.
  pub is_flagged_eq :
      (i va : ℕ)
      → va < phys_base
      → is_flagged (2 ^ i) pd va word ≡ some (has (2 ^ i) (entry pd word va))
  unfolding is_flagged
  is_flagged_eq i va h = elim (Bool-cases (word (pd + 4 * pd_no va) == 0)) [
    | inl z ↦ rw (lookup_none pd word v va none z, z) (ap some (sym (zero_flag i)))
    | inr z ↦ rw (lookup_some pd word v va false none h z, z) refl
  ]
    where
      zero_flag : (i : ℕ) → has (2 ^ i) 0 ≡ false
      zero_flag i = test_mask i 0 ∙ ground (arith, zero_bit i)

  set_flagged_eq :
      (i va : ℕ) (value : Bool)
      → va < phys_base
      → (word (pd + 4 * pd_no va) == 0) ≡ false
      → set_flagged (2 ^ i) pd va value word
        ≡ some (update word (slot pd word va) (put_flag i value (entry pd word va)))
  unfolding set_flagged
  set_flagged_eq i va value h z = rw (lookup_some pd word v va false none h z) (
      ap (λ x. some (update word (slot pd word va) (put_flag i value x)))
        (sym (entry-slot pd word va z)))

  flags_lem :
      (i j va : ℕ) (value : Bool)
      → va < phys_base
      → Sets i j (entry pd word va) value
      → (word (pd + 4 * pd_no va) == 0) ≡ false
      → let word' = update word (slot pd word va) (put_flag i value (entry pd word va)) in
        IsDirectory pd word'
        × ((vb : ℕ)
            → vb < phys_base
            → (mapped pd word' vb ≡ mapped pd word vb)
              × (has (2 ^ i) (entry pd word' vb)
                  ≡ (if va / 4096 == vb / 4096 then value else has (2 ^ i) (entry pd word vb)))
              × (has (2 ^ j) (entry pd word' vb) ≡ has (2 ^ j) (entry pd word vb)))
  flags_lem i j va value h s z = (
    write_IsDirectory pd word v va x h z
        (λ q. omega (arith, s.addr, v.frame va h (sym s.present ∙ q))),
    λ vb g. by_page vb g,
  )
    where
      x : ℕ
      x = put_flag i value (entry pd word va)

      by_page :
          (vb : ℕ)
          → vb < phys_base
          → (mapped pd (update word (slot pd word va) x) vb ≡ mapped pd word vb)
            × (has (2 ^ i) (entry pd (update word (slot pd word va) x) vb)
                ≡ (if va / 4096 == vb / 4096 then value else has (2 ^ i) (entry pd word vb)))
            × (has (2 ^ j) (entry pd (update word (slot pd word va) x) vb)
                ≡ has (2 ^ j) (entry pd word vb))
      by_page vb g = elim (Bool-cases (va / 4096 == vb / 4096)) [
        | inl q ↦
            let e : entry pd (update word (slot pd word va) x) vb ≡ x =
              write_entry pd word v va vb x h g z ∙ (rw (q) refl) in
            let r : va / 4096 ≡ vb / 4096 = ground arith in
            let o : entry pd word va ≡ entry pd word vb =
              ap₂
                (λ d n.
                  if word (pd + 4 * d) == 0
                  then 0
                  else word (pte_addr (word (pd + 4 * d)) + phys_base + 4 * n))
                (let k : pd_no va ≡ pd_no vb = omega (arith, r) in k)
                (let k : pt_no va ≡ pt_no vb = omega (arith, r) in k) in
            (
              ap (λ y. leads y vb) e
                  ∙ ap₂ (λ b a. if b then some (a + phys_base + pg_ofs vb) else none)
                      (s.present ∙ ap (has 1) o) (s.addr ∙ ap pte_addr o),
              ap (has (2 ^ i)) e ∙ s.flag ∙ (rw (q) refl),
              ap (has (2 ^ j)) e ∙ s.other ∙ ap (has (2 ^ j)) o,
            )
        | inr q ↦
            let e : entry pd (update word (slot pd word va) x) vb ≡ entry pd word vb =
              write_entry pd word v va vb x h g z ∙ (rw (q) refl) in
            (ap (λ y. leads y vb) e, ap (has (2 ^ i)) e ∙ (rw (q) refl), ap (has (2 ^ j)) e)
      ]

module _ (pd : ℕ) (word : ℕ → ℕ) (v : IsDirectory pd word) where
  -- The functions read what the entries say.
  read_back :
      (word' : ℕ → ℕ) (d : IsDirectory pd word') (va vb : ℕ) (value : Bool)
      → vb < phys_base
      → (mapped pd word' vb ≡ mapped pd word vb)
        × (has 64 (entry pd word' vb)
            ≡ (if va / 4096 == vb / 4096 then value else has 64 (entry pd word vb)))
        × (has 32 (entry pd word' vb) ≡ has 32 (entry pd word vb))
      → (pagedir_get_page pd vb word' ≡ pagedir_get_page pd vb word)
        × (pagedir_is_dirty pd vb word'
            ≡ (if va / 4096 == vb / 4096 then some value else pagedir_is_dirty pd vb word))
        × (pagedir_is_accessed pd vb word' ≡ pagedir_is_accessed pd vb word)
  unfolding pagedir_is_dirty pagedir_is_accessed
  read_back word' d va vb value g (m, f, o) = (
    pagedir_get_page_eq pd word' vb d g ∙ ap some m ∙ sym (pagedir_get_page_eq pd word vb v g),
    is_flagged_eq pd word' d 6 vb g
        ∙ ap some f
        ∙ some_if (va / 4096 == vb / 4096) (has 64 (entry pd word vb))
        ∙ ap (λ o. if va / 4096 == vb / 4096 then some value else o)
            (sym (is_flagged_eq pd word v 6 vb g)),
    is_flagged_eq pd word' d 5 vb g ∙ ap some o ∙ sym (is_flagged_eq pd word v 5 vb g),
  )
    where
      some_if : (c x : Bool) → some (if c then value else x) ≡ (if c then some value else some x)
      some_if true x = refl
      some_if false x = refl

  -- pagedir_set_dirty of a page that has a page table sets its dirty bit to the value, which
  -- pagedir_is_dirty then reads; the dirty bits of other pages, every accessed bit and the mapping
  -- stay as they were, and the directory stays consistent. Without a page table it does nothing. The
  -- entry is a 32-bit word.
  pub pagedir_set_dirty_lem :
      (va : ℕ) (value : Bool)
      → va < phys_base
      → entry pd word va < 2 ^ 32
      → ((word (pd + 4 * pd_no va) == 0) ≡ true → pagedir_set_dirty pd va value word ≡ some word)
        × ((word (pd + 4 * pd_no va) == 0) ≡ false
            → (word' : ℕ → ℕ) × (pagedir_set_dirty pd va value word ≡ some word')
              × IsDirectory pd word'
              × ((vb : ℕ)
                  → vb < phys_base
                  → (pagedir_get_page pd vb word' ≡ pagedir_get_page pd vb word)
                    × (pagedir_is_dirty pd vb word' ≡ (
                        if va / 4096 == vb / 4096 then some value else pagedir_is_dirty pd vb word))
                    × (pagedir_is_accessed pd vb word' ≡ pagedir_is_accessed pd vb word)))
  unfolding pagedir_set_dirty set_flagged
  pagedir_set_dirty_lem va value h b = (
    (λ z. rw (lookup_none pd word v va none z) refl),
    λ z.
        let word' = update word (slot pd word va) (put_flag 6 value (entry pd word va)) in
        let (d, same) =
          flags_lem pd word v 6 5 va value h (dirty_bit (entry pd word va) value b) z in
        (
          word',
          set_flagged_eq pd word v 6 va value h z,
          d,
          λ vb g. read_back word' d va vb value g (same vb g),
        ),
  )
