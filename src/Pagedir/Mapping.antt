-- ===== src/Pagedir/Mapping.antt =====
-- The functions of src/userprog/pagedir.c as operations on the mapping of user pages to pages of the
-- kernel's memory.
use csed.Common.{
  ℕ, ◌+◌, ◌-◌, ◌*◌, ◌/◌, ◌<◌, ◌≡◌, refl, Bool, true, false, ◌==◌, none, some, arith, Option,
  if◌then◌else◌, Bool-cases, inl, inr, ◌∙◌, ap, lt→ltb, update, sym,
}
use csed.Palloc.{pg_ofs}
use csed.Pagedir.{phys_base, has, pte_addr, pd_no, pagedir_get_page, get_entry, set_entry}
use csed.Pagedir.Entry.{IsPage, pte_create_user_eq, pte_get_page_eq, entry_parts}
use csed.Pagedir.Tables.{
  slot, entry, IsDirectory, lookup_some, lookup_none, write_entry, write_IsDirectory,
}

-- The address in the kernel's memory that an entry gives to `va`.
abbrev pub leads : ℕ → ℕ → Option ℕ
leads e va = if has 1 e then some (pte_addr e + phys_base + pg_ofs va) else none

-- The mapping: where a user address is in the kernel's memory.
abbrev pub mapped : ℕ → (ℕ → ℕ) → ℕ → Option ℕ
mapped pd word va = leads (entry pd word va) va

pub entry-slot :
    (pd : ℕ) (word : ℕ → ℕ) (va : ℕ)
    → (word (pd + 4 * pd_no va) == 0) ≡ false
    → entry pd word va ≡ word (slot pd word va)
entry-slot pd word va p = rw (p) refl

pub get_entry_eq :
    (va p : ℕ) (word : ℕ → ℕ)
    → (has 1 (word p) ≡ true → pte_addr (word p) < phys_base)
    → get_entry va (some p, word) ≡ some (leads (word p) va)
unfolding get_entry
get_entry_eq va p word h = elim (Bool-cases (has 1 (word p))) [
  | inl q ↦ rw (q, get_entry, pte_get_page_eq (word p) (h q)) refl
  | inr q ↦ rw (q, get_entry) refl
]

-- pagedir_get_page reads the mapping.
pub pagedir_get_page_eq :
    (pd : ℕ) (word : ℕ → ℕ) (va : ℕ)
    → IsDirectory pd word
    → va < phys_base
    → pagedir_get_page pd va word ≡ some (mapped pd word va)
unfolding pagedir_get_page get_entry
pagedir_get_page_eq pd word va v h = elim (Bool-cases (word (pd + 4 * pd_no va) == 0)) [
  | inl z ↦ rw (lt→ltb va phys_base h, lookup_none pd word v va none z, z) refl
  | inr z ↦
      let same = entry-slot pd word va z in
      rw (lt→ltb va phys_base h, lookup_some pd word v va false none h z)
        (get_entry_eq va (slot pd word va) word
            (λ q. omega (arith, ap pte_addr same, v.frame va h (ap (has 1) same ∙ q)))
          ∙ ap (λ e. some (leads e va)) (sym same))
]

-- The words after pagedir_set_page has put the entry for `upage` there.
pub set_entry_eq :
    (pd : ℕ) (word : ℕ → ℕ) (upage kpage : ℕ) (w : Bool)
    → IsDirectory pd word
    → upage < phys_base
    → IsPage kpage
    → (word (pd + 4 * pd_no upage) == 0) ≡ false
    → has 1 (entry pd word upage) ≡ false
    → (word' : ℕ → ℕ) × (set_entry kpage w (some (slot pd word upage), word) ≡ some (true, word'))
      × IsDirectory pd word'
      × ((vb : ℕ)
          → vb < phys_base
          → entry pd word' vb ≡ (
              if upage / 4096 == vb / 4096
              then kpage - phys_base + (if w then 7 else 5)
              else entry pd word vb))
unfolding set_entry
set_entry_eq pd word upage kpage w v h k z free =
    let x = kpage - phys_base + (if w then 7 else 5) in
    (
      update word (slot pd word upage) x,
      rw (ap (has 1) (sym (entry-slot pd word upage z)) ∙ free, pte_create_user_eq kpage w k) refl,
      write_IsDirectory pd word v upage x h z (λ q.
          omega
            (arith, (entry_parts kpage (if w then 7 else 5) k (ground arith)).0, k.high, k.low)),
      λ vb g. write_entry pd word v upage vb x h g z,
    )
