-- ===== src/Palloc/Get.antt =====
-- palloc_get_multiple of src/threads/palloc.c.
use csed.Common.{
  ℕ, ◌+◌, ◌-◌, ◌*◌, ◌≤◌, ◌<◌, ◌≡◌, refl, Bool, true, false, not, ◌==◌, some, arith, ap, subst, sym,
  ◌∙◌, Bool-cases, inl, inr, ==_iff, Returns, Returns-result, if◌then◌else◌,
}
use csed.Bitmap.{Bitmap, bitmap_error, bitmap_scan_and_flip}
use csed.Bitmap.Single.{bit_at}
use csed.Bitmap.Multiple.{among, Filled}
use csed.Bitmap.Scan.{Scanned, Flipped, bitmap_scan_and_flip_lem}
use csed.Palloc.{Pool, Memory, Flags, get_pool, put_map, memset, page_at, palloc_get_multiple}
use csed.Palloc.Pages.{IsPool, IsMemory, Got, get_pool-IsPool, get-put, get-memset}

-- No `cnt` free pages of the pool are next to each other.
abbrev pub NoGroup : Pool → ℕ → Type 0
NoGroup p cnt =
    (i : ℕ)
    → i < p.used_map.bit_cnt + 1 - cnt
    → (j : ℕ) × (among i cnt j ≡ true) × (bit_at p.used_map j ≡ true)

-- How palloc_get_multiple ends: NULL for want of pages and nothing changed, or with pages.
abbrev pub GotOrNull : Bool → ℕ → Memory → ℕ × Memory → Type 0
GotOrNull user cnt m r =
    if r.0 == 0 then (r.1 ≡ m) × NoGroup (get_pool user m) cnt else Got user cnt m r.0 r.1

put_same : (user : Bool) (m : Memory) → put_map user (get_pool user m).used_map m ≡ m
put_same true m = refl
put_same false m = refl

module _ (flags : Flags) (cnt : ℕ) (m : Memory) (idx : ℕ) (map : Bitmap) where
  abbrev pool : Pool
  pool = get_pool flags.pal_user m

  abbrev marked : Memory
  marked = put_map flags.pal_user map m

  abbrev filled : ℕ → Memory
  filled pages = if flags.pal_zero then memset pages 0 (4096 * cnt) marked else marked

  get_null :
      (cnt == 0) ≡ false
      → bitmap_scan_and_flip pool.used_map 0 cnt false ≡ some (idx, map)
      → (page_at pool idx == 0) ≡ true
      → flags.pal_assert ≡ false
      → palloc_get_multiple flags cnt m ≡ some (0, marked)
  unfolding palloc_get_multiple
  get_null n e h f = ground (arith, e, h)

  get_pages :
      (cnt == 0) ≡ false
      → bitmap_scan_and_flip pool.used_map 0 cnt false ≡ some (idx, map)
      → (page_at pool idx == 0) ≡ false
      → palloc_get_multiple flags cnt m ≡ some (page_at pool idx, filled (page_at pool idx))
  unfolding palloc_get_multiple
  get_pages n e h = ground (arith, e, h)

  get_filled : (user : Bool) (pages : ℕ) → get_pool user (filled pages) ≡ get_pool user marked
  get_filled user pages =
      elim flags.pal_zero
        as (λ z.
          get_pool user (if z then memset pages 0 (4096 * cnt) marked else marked)
          ≡ get_pool user marked) [
            | true ↦ get-memset user pages 0 (4096 * cnt) marked
            | false ↦ refl
          ]

  page_address :
      IsPool pool
      → (idx == bitmap_error) ≡ false
      → idx < pool.used_map.bit_cnt
      → page_at pool idx ≡ pool.base + 4096 * idx
  page_address p e h = ground (arith, p.below)

  Got-filled :
      IsPool pool
      → 1 ≤ cnt
      → (idx == bitmap_error) ≡ false
      → Scanned (bit_at pool.used_map) 0 (pool.used_map.bit_cnt + 1 - cnt) cnt false idx
      → Filled pool.used_map idx cnt true map
      → Got flags.pal_user cnt m (page_at pool idx) (filled (page_at pool idx))
  Got-filled p c e s f =
      let (low, high, group) = s.found (λ t. absurd (ground (arith, t))) in
      let g = get-put flags.pal_user map m in
      record {
        idx = idx;
        place = page_address p e (omega (arith, high));
        inside = omega (arith, high);
        free = group;
        taken =
            subst (λ b. Filled pool.used_map idx cnt true b)
              (sym (ap (λ q. q.used_map) (get_filled flags.pal_user (page_at pool idx)) ∙ g.0)) f;
        base = ap (λ q. q.base) (get_filled flags.pal_user (page_at pool idx)) ∙ g.1;
        other = get_filled (not flags.pal_user) (page_at pool idx) ∙ g.2;
      }

  get_ended :
      IsPool pool
      → 1 ≤ cnt
      → flags.pal_assert ≡ false
      → bitmap_scan_and_flip pool.used_map 0 cnt false ≡ some (idx, map)
      → Scanned (bit_at pool.used_map) 0 (pool.used_map.bit_cnt + 1 - cnt) cnt false idx
      → Flipped pool.used_map cnt false idx map
      → Returns (palloc_get_multiple flags cnt m) (GotOrNull flags.pal_user cnt m)
  get_ended p c f e s t = elim (Bool-cases (idx == bitmap_error)) [
    | inl h ↦
        let same : map ≡ pool.used_map =
          subst (λ z. if z then map ≡ pool.used_map else Filled pool.used_map idx cnt true map) h
            t in
        rw (get_null (ground (arith, c)) e (ground (arith, h)) f) (
          ap (λ b. put_map flags.pal_user b m) same ∙ put_same flags.pal_user m,
          λ i b. s.first i (omega arith) b (inl ((==_iff idx bitmap_error).0 h)),
        )
    | inr h ↦
        let filled_map : Filled pool.used_map idx cnt true map =
          subst (λ z. if z then map ≡ pool.used_map else Filled pool.used_map idx cnt true map) h
            t in
        let (low, high, group) = s.found (λ q. absurd (ground (arith, q))) in
        let address : page_at pool idx ≡ pool.base + 4096 * idx =
          page_address p h (omega (arith, high)) in
        let there : (page_at pool idx == 0) ≡ false = ground (arith, address, p.some_base) in
        rw (get_pages (ground (arith, c)) e there, there) (Got-filled p c h s filled_map)
  ]

-- palloc_get_multiple without PAL_ASSERT returns: with NULL if no such group of pages is free, and then
-- nothing has changed, or else with pages that were free and are in use now, and no other page changed
-- hands.
pub palloc_get_multiple_lem :
    (flags : Flags) (cnt : ℕ) (m : Memory)
    → IsMemory m
    → 1 ≤ cnt
    → flags.pal_assert ≡ false
    → Returns (palloc_get_multiple flags cnt m) (GotOrNull flags.pal_user cnt m)
palloc_get_multiple_lem flags cnt m v c f =
    let (r, e, (s, t)) =
      Returns-result
        (λ r.
          Scanned (bit_at p.used_map) 0 (p.used_map.bit_cnt + 1 - cnt) cnt false r.0
          × Flipped p.used_map cnt false r.0 r.1)
        (bitmap_scan_and_flip p.used_map 0 cnt false)
        (bitmap_scan_and_flip_lem p.used_map 0 cnt false w.map (omega arith)) in
    get_ended flags cnt m r.0 r.1 w c f e s t
  where
    p : Pool
    p = get_pool flags.pal_user m

    w : IsPool p
    w = get_pool-IsPool flags.pal_user m v
