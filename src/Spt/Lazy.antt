-- ===== src/Spt/Lazy.antt =====
-- spt_initialize_file_as_lazy in src/vm/spt.c.
use csed.Common.{
  ℕ, zero, suc, ◌+◌, ◌-◌, ◌*◌, ◌%◌, ◌^◌, ◌≤◌, ◌<◌, ◌≡◌, ◌≢◌, refl, Bool, true, false, ◌==◌, ltb,
  min, some, arith, Option, if◌then◌else◌, Bool-cases, inl, inr, ap, ◌∙◌,
}
use csed.Spt.{
  Table, SptEntry, put, lazy_entry, is_mapped, pg_round_down, add_lazy_page, lazy_loop,
  spt_initialize_file_as_lazy,
}

add_eq :
    (spt : Table) (file ofs upage page_read : ℕ) (w m : Bool)
    → page_read ≤ 4096
    → upage % 4096 ≡ 0
    → is_mapped (spt upage) ≡ false
    → add_lazy_page true spt file ofs upage page_read (4096 - page_read) w m
      ≡ (true, put spt upage (lazy_entry file ofs upage page_read (4096 - page_read) w m))
unfolding add_lazy_page
add_eq spt file ofs upage page_read w m h a free =
    let e : pg_round_down upage ≡ upage = omega arith in
    let s : ((page_read + (4096 - page_read)) % 2 ^ 32 == 4096) ≡ true = ground arith in
    rw (e, s, free) refl

-- The rest of a round, after add_lazy_page.
abbrev goes_on :
    (ℕ → Bool) → ℕ → ℕ → ℕ → ℕ → ℕ → ℕ → Bool → Bool → Bool × Table → Option (Bool × Table)
goes_on memory rounds file ofs upage rb zb w m r =
    let p = if ltb rb 4096 then rb else 4096 in
    elim r.0 [
      | true ↦
          lazy_loop memory rounds r.1 file ((ofs + 4096) % 2 ^ 32) ((upage + 4096) % 2 ^ 32)
            (rb - p) ((zb + 2 ^ 32 - (4096 - p)) % 2 ^ 32) w m
      | false ↦ some (false, r.1)
    ]

loop_step :
    (memory : ℕ → Bool) (rounds : ℕ) (spt : Table) (file ofs upage rb zb : ℕ) (w m : Bool)
    → 1 ≤ rb + zb
    → let p = (if ltb rb 4096 then rb else 4096) in
      lazy_loop memory (suc rounds) spt file ofs upage rb zb w m
      ≡ goes_on memory rounds file ofs upage rb zb w m
          (add_lazy_page (memory upage) spt file ofs upage p (4096 - p) w m)
unfolding lazy_loop
loop_step memory rounds spt file ofs upage zero zero w m h = absurd (omega arith)
loop_step memory rounds spt file ofs upage zero (suc zb) w m h = refl
loop_step memory rounds spt file ofs upage (suc rb) zb w m h = refl

-- The entry of page `i`: the bytes of the file at the same distance, as far as they are asked for,
-- and zeros.
abbrev pub entry_at : ℕ → ℕ → ℕ → ℕ → Bool → Bool → ℕ → SptEntry
entry_at file ofs upage rb w m i =
    lazy_entry file (ofs + 4096 * i) (upage + 4096 * i) (min 4096 (rb - 4096 * i))
      (4096 - min 4096 (rb - 4096 * i)) w m

-- `n` pages from `upage` on come from the file, and the others are as before.
pub record Covered (spt spt' : Table) (file ofs upage rb n : ℕ) (w m : Bool) : Type 0 where
  pub inside : (i : ℕ) → i < n → spt' (upage + 4096 * i) ≡ some (entry_at file ofs upage rb w m i)
  pub outside : (a : ℕ) → ((i : ℕ) → i < n → a ≢ upage + 4096 * i) → spt' a ≡ spt a

next_page :
    (spt spt1 spt' : Table) (file ofs upage rb n p : ℕ) (w m : Bool)
    → p ≡ min 4096 rb
    → spt1 ≡ put spt upage (lazy_entry file ofs upage p (4096 - p) w m)
    → Covered spt1 spt' file (ofs + 4096) (upage + 4096) (rb - p) n w m
    → Covered spt spt' file ofs upage rb (suc n) w m
next_page spt spt1 spt' file ofs upage rb n p w m e q c = record {
  inside = λ i l. by_index i l;
  outside = λ a o.
      c.outside a (λ i l r. o (suc i) (omega arith) (omega (arith, r)))
      ∙ ap (λ f. f a) q
      ∙ other a (o 0 (omega arith));
}
  where
    other :
        (a : ℕ)
        → a ≢ upage + 4096 * 0
        → put spt upage (lazy_entry file ofs upage p (4096 - p) w m) a ≡ spt a
    other a n = elim (Bool-cases (upage == a)) [
      | inl s ↦ absurd (n (ground arith))
      | inr s ↦ rw (s) refl
    ]

    put_here :
        (upage == upage + 4096 * 0) ≡ true
        → put spt upage (lazy_entry file ofs upage p (4096 - p) w m) (upage + 4096 * 0)
          ≡ some (lazy_entry file ofs upage p (4096 - p) w m)
    put_here s = rw (s) refl

    same_entry :
        (o u r z o' u' r' z' : ℕ)
        → o ≡ o'
        → u ≡ u'
        → r ≡ r'
        → z ≡ z'
        → lazy_entry file o u r z w m ≡ lazy_entry file o' u' r' z' w m
    same_entry o u r z o' u' r' z' a b c d = rw (a, b, c, d) refl

    first :
        p ≡ min 4096 rb
        → lazy_entry file ofs upage p (4096 - p) w m ≡ entry_at file ofs upage rb w m 0
    first e =
        same_entry ofs upage p (4096 - p) (ofs + 4096 * 0) (upage + 4096 * 0)
          (min 4096 (rb - 4096 * 0)) (4096 - min 4096 (rb - 4096 * 0)) (omega arith) (omega arith)
          (omega (arith, e)) (omega (arith, e))

    later :
        (i : ℕ)
        → entry_at file (ofs + 4096) (upage + 4096) (rb - p) w m i
          ≡ entry_at file ofs upage rb w m (suc i)
    later i =
        same_entry (ofs + 4096 + 4096 * i) (upage + 4096 + 4096 * i) (min 4096 (rb - p - 4096 * i))
          (4096 - min 4096 (rb - p - 4096 * i)) (ofs + 4096 * suc i) (upage + 4096 * suc i)
          (min 4096 (rb - 4096 * suc i)) (4096 - min 4096 (rb - 4096 * suc i)) (omega arith)
          (omega arith) (omega (arith, e)) (omega (arith, e))

    by_index :
        (i : ℕ) → i < suc n → spt' (upage + 4096 * i) ≡ some (entry_at file ofs upage rb w m i)
    by_index zero l =
        c.outside (upage + 4096 * 0) (λ i l r. absurd (omega (arith, r)))
        ∙ ap (λ f. f (upage + 4096 * 0)) q
        ∙ put_here (ground arith)
        ∙ ap some (first e)
    by_index (suc i) l = ap spt' (omega arith) ∙ c.inside i (omega arith) ∙ ap some (later i)

lazy_loop_lem :
    (memory : ℕ → Bool) (n : ℕ) (spt : Table) (file ofs upage rb zb : ℕ) (w m : Bool)
    → rb + zb ≡ 4096 * n
    → upage % 4096 ≡ 0
    → upage + 4096 * n < 2 ^ 32
    → ofs + 4096 * n < 2 ^ 32
    → ((i : ℕ) → i < n → is_mapped (spt (upage + 4096 * i)) ≡ false)
    → ((i : ℕ) → i < n → memory (upage + 4096 * i) ≡ true)
    → (spt' : Table) × (lazy_loop memory n spt file ofs upage rb zb w m ≡ some (true, spt'))
      × Covered spt spt' file ofs upage rb n w m
unfolding lazy_loop
lazy_loop_lem memory zero spt file ofs upage zero zero w m t a u o free mem =
    (spt, refl, record { inside = λ i l. absurd (omega arith); outside = λ a n. refl })
lazy_loop_lem memory zero spt file ofs upage (suc rb) zb w m t a u o free mem = absurd (omega arith)
lazy_loop_lem memory zero spt file ofs upage zero (suc zb) w m t a u o free mem =
    absurd (omega arith)
lazy_loop_lem memory (suc n) spt file ofs upage rb zb w m t a u o free mem =
    let p = if ltb rb 4096 then rb else 4096 in
    let small : p ≤ 4096 = ground arith in
    let least : p ≡ min 4096 rb = ground arith in
    let spt1 = put spt upage (lazy_entry file ofs upage p (4096 - p) w m) in
    let mem0 : memory upage ≡ true = ap memory (omega arith) ∙ mem 0 (omega arith) in
    let free0 : is_mapped (spt upage) ≡ false =
      ap (λ x. is_mapped (spt x)) (omega arith) ∙ free 0 (omega arith) in
    let (spt', e, c) =
      lazy_loop_lem memory n spt1 file (ofs + 4096) (upage + 4096) (rb - p) (zb - (4096 - p)) w m
        (ground arith) (omega arith) (omega arith) (omega arith)
        (λ i l. rest_free i (free (suc i) (omega arith)))
        (λ i l. ap memory (omega arith) ∙ mem (suc i) (omega arith)) in
    (
      spt',
      loop_step memory n spt file ofs upage rb zb w m (omega arith)
          ∙ ap (goes_on memory n file ofs upage rb zb w m) (
              ap (λ b. add_lazy_page b spt file ofs upage p (4096 - p) w m) mem0
              ∙ add_eq spt file ofs upage p w m small a free0)
          ∙ unwrapped spt1 (ground arith)
          ∙ e,
      next_page spt spt1 spt' file ofs upage rb n p w m least refl c,
    )
  where
    unwrapped :
        (spt1 : Table)
        → 4096 - (if ltb rb 4096 then rb else 4096) ≤ zb
        → goes_on memory n file ofs upage rb zb w m (true, spt1)
          ≡ lazy_loop memory n spt1 file
              (ofs + 4096)
              (upage + 4096)
              (rb - (if ltb rb 4096 then rb else 4096))
              (zb - (4096 - (if ltb rb 4096 then rb else 4096)))
              w
              m
    unwrapped spt1 h =
        let p = if ltb rb 4096 then rb else 4096 in
        ap
          (λ x.
            lazy_loop memory n spt1 file x ((upage + 4096) % 2 ^ 32) (rb - p)
              ((zb + 2 ^ 32 - (4096 - p)) % 2 ^ 32) w m)
          (let q : (ofs + 4096) % 2 ^ 32 ≡ ofs + 4096 = omega arith in q)
        ∙ ap
            (λ x.
              lazy_loop memory n spt1 file (ofs + 4096) x (rb - p)
                ((zb + 2 ^ 32 - (4096 - p)) % 2 ^ 32) w m)
            (let q : (upage + 4096) % 2 ^ 32 ≡ upage + 4096 = omega arith in q)
        ∙ ap (λ x. lazy_loop memory n spt1 file (ofs + 4096) (upage + 4096) (rb - p) x w m)
            (let q : (zb + 2 ^ 32 - (4096 - p)) % 2 ^ 32 ≡ zb - (4096 - p) = omega arith in q)

    rest_free :
        (i : ℕ)
        → is_mapped (spt (upage + 4096 * suc i)) ≡ false
        → is_mapped (
            put spt upage
              (lazy_entry file ofs upage
                (if ltb rb 4096 then rb else 4096)
                (4096 - (if ltb rb 4096 then rb else 4096))
                w
                m)
              (upage + 4096 + 4096 * i))
          ≡ false
    rest_free i h =
        let q : (upage == upage + 4096 + 4096 * i) ≡ false = ground arith in
        rw (q) (ap (λ x. is_mapped (spt x)) (omega arith) ∙ h)

-- spt_initialize_file_as_lazy of a whole number of pages that are not in the table, at an aligned
-- address, with memory for their entries, ends and succeeds: page after page is to be loaded from
-- the file, from the right offset, with zeros behind the bytes that are asked for, and no other page
-- changes. Neither the addresses nor the offsets reach 2 ^ 32.
pub spt_initialize_file_as_lazy_lem :
    (memory : ℕ → Bool) (n : ℕ) (spt : Table) (file ofs upage rb zb : ℕ) (w m : Bool)
    → rb + zb ≡ 4096 * n
    → upage % 4096 ≡ 0
    → upage + 4096 * n < 2 ^ 32
    → ofs + 4096 * n < 2 ^ 32
    → ((i : ℕ) → i < n → is_mapped (spt (upage + 4096 * i)) ≡ false)
    → ((i : ℕ) → i < n → memory (upage + 4096 * i) ≡ true)
    → (spt' : Table) × (spt_initialize_file_as_lazy memory n spt file ofs upage rb zb w m
        ≡ some (true, spt'))
      × Covered spt spt' file ofs upage rb n w m
unfolding spt_initialize_file_as_lazy
spt_initialize_file_as_lazy_lem memory n spt file ofs upage rb zb w m t a u o free mem =
    lazy_loop_lem memory n spt file ofs upage rb zb w m t a u o free mem
