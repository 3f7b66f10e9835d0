-- ===== src/Palloc/Pages.antt =====
-- The pools of src/threads/palloc.c, and palloc_free_multiple.
use csed.Common.{
  ℕ, ◌+◌, ◌-◌, ◌*◌, ◌/◌, ◌%◌, ◌^◌, ◌≤◌, ◌<◌, ◌≡◌, refl, Bool, true, false, not, ◌||◌, ◌==◌, some,
  arith, ap, subst, sym, ◌∙◌, Bool-cases, inl, inr, Returns, Returns-bind, Returns-result, ◌>>=◌,
  if◌then◌else◌,
}
use csed.Bitmap.{Bitmap, bitmap_all, bitmap_contains, bitmap_set_multiple}
use csed.Bitmap.Single.{bit_at}
use csed.Bitmap.Single as Single
use csed.Bitmap.Multiple.{among, Filled, Contains, bitmap_set_multiple_lem, bitmap_contains_lem}
use csed.Bitmap.Scan.{Group}
use csed.Palloc.{
  Pool, Memory, get_pool, put_map, memset, page_from_pool, find_pool, palloc_free_multiple,
}

-- A pool of whole pages, none of them at NULL, below 4 GB.
pub record IsPool (p : Pool) : Type 0 where
  pub map : Single.IsValid p.used_map
  pub whole : p.base % 4096 ≡ 0
  pub some_base : 4096 ≤ p.base
  pub below : p.base + 4096 * p.used_map.bit_cnt < 2 ^ 32

-- The kernel pool lies below the user pool.
pub record IsMemory (m : Memory) : Type 0 where
  pub kernel : IsPool m.kernel_pool
  pub user : IsPool m.user_pool
  pub order : m.kernel_pool.base + 4096 * m.kernel_pool.used_map.bit_cnt ≤ m.user_pool.base

-- bitmap_all over a group of set bits.
all_true :
    (b : Bitmap) (start cnt : ℕ)
    → Single.IsValid b
    → start + cnt ≤ b.bit_cnt
    → Group (bit_at b) start cnt true
    → bitmap_all b start cnt ≡ some true
unfolding bitmap_all
all_true b start cnt v h g =
    let (r, e, c) =
      Returns-result (Contains (bit_at b) start cnt false) (bitmap_contains b start cnt false)
        (bitmap_contains_lem b start cnt false v h) in
    rw (e) (elim (Bool-cases r) [
      | inr t ↦ ap (λ x. some (not x)) t
      | inl t ↦ let (i, p, q) = c.if_found t in absurd (ground (arith, g i p, q))
    ])

-- The pages that a call took: `cnt` pages of the pool from `idx` on, which were free.
pub record Got (user : Bool) (cnt : ℕ) (m : Memory) (pages : ℕ) (m' : Memory) : Type 0 where
  pub idx : ℕ
  pub place : pages ≡ (get_pool user m).base + 4096 * idx
  pub inside : idx + cnt ≤ (get_pool user m).used_map.bit_cnt
  pub free : Group (bit_at (get_pool user m).used_map) idx cnt false
  pub taken : Filled (get_pool user m).used_map idx cnt true (get_pool user m').used_map
  pub base : (get_pool user m').base ≡ (get_pool user m).base
  pub other : get_pool (not user) m' ≡ get_pool (not user) m

from_pool :
    (p : Pool) (pages idx : ℕ)
    → p.base % 4096 ≡ 0
    → pages ≡ p.base + 4096 * idx
    → idx < p.used_map.bit_cnt
    → page_from_pool p pages ≡ true
from_pool p pages idx w e h = ground arith

not_from_pool :
    (p : Pool) (pages : ℕ)
    → p.base % 4096 ≡ 0
    → p.base + 4096 * p.used_map.bit_cnt ≤ pages
    → page_from_pool p pages ≡ false
not_from_pool p pages w h = ground arith

index_eq :
    (base pages idx : ℕ)
    → base % 4096 ≡ 0
    → pages ≡ base + 4096 * idx
    → pages / 4096 - base / 4096 ≡ idx
index_eq base pages idx w e = omega arith

find-Got :
    (user : Bool) (cnt : ℕ) (m : Memory) (pages : ℕ) (m' : Memory)
    → IsMemory m
    → 1 ≤ cnt
    → Got user cnt m pages m'
    → find_pool pages m' ≡ some user
unfolding find_pool
find-Got false cnt m pages m' v c g =
    rw
      (from_pool m'.kernel_pool pages g.idx (ap (λ b. b % 4096) g.base ∙ v.kernel.whole)
        (omega (arith, g.place, g.base)) (omega (arith, g.inside, g.taken.size)))
      refl
find-Got true cnt m pages m' v c g =
    rw
      (
        not_from_pool m'.kernel_pool pages (ap (λ p. p.base % 4096) g.other ∙ v.kernel.whole)
            (below_user g.other),
        from_pool m'.user_pool pages g.idx (ap (λ b. b % 4096) g.base ∙ v.user.whole)
            (omega (arith, g.place, g.base)) (omega (arith, g.inside, g.taken.size)),
      )
      refl
  where
    below_user :
        m'.kernel_pool ≡ m.kernel_pool
        → m'.kernel_pool.base + 4096 * m'.kernel_pool.used_map.bit_cnt ≤ pages
    below_user e =
        subst (λ p. p.base + 4096 * p.used_map.bit_cnt ≤ pages) (sym e)
          (omega (arith, v.order, g.place))

pub get_pool-IsPool : (user : Bool) (m : Memory) → IsMemory m → IsPool (get_pool user m)
get_pool-IsPool true m v = v.user
get_pool-IsPool false m v = v.kernel

pub get-put :
    (user : Bool) (map : Bitmap) (m : Memory)
    → ((get_pool user (put_map user map m)).used_map ≡ map)
      × ((get_pool user (put_map user map m)).base ≡ (get_pool user m).base)
      × (get_pool (not user) (put_map user map m) ≡ get_pool (not user) m)
get-put true map m = (refl, refl, refl)
get-put false map m = (refl, refl, refl)

pub get-memset :
    (user : Bool) (dst value size : ℕ) (m : Memory)
    → get_pool user (memset dst value size m) ≡ get_pool user m
get-memset true dst value size m = refl
get-memset false dst value size m = refl

-- What palloc_free_multiple does once its assertions hold.
free_eq :
    (user : Bool) (cnt pages idx : ℕ) (m : Memory)
    → (pages % 4096 == 0) ≡ true
    → (pages == 0 || cnt == 0) ≡ false
    → find_pool pages m ≡ some user
    → pages / 4096 - (get_pool user m).base / 4096 ≡ idx
    → bitmap_all (get_pool user m).used_map idx cnt ≡ some true
    → palloc_free_multiple pages cnt m ≡ (
        bitmap_set_multiple (get_pool user m).used_map idx cnt false >>= λ map.
        some (put_map user map (memset pages 0xcc (4096 * cnt) m)))
unfolding palloc_free_multiple
free_eq user cnt pages idx m w n f i a = rw (w, n, f, i, a) refl

-- palloc_free_multiple of pages that palloc_get_multiple handed out returns, with the same pages in use
-- as before the call that took them.
pub palloc_free_multiple-Got :
    (user : Bool) (cnt : ℕ) (m : Memory) (pages : ℕ) (m' : Memory)
    → IsMemory m
    → 1 ≤ cnt
    → Got user cnt m pages m'
    → Returns (palloc_free_multiple pages cnt m') λ m''.
      ((j : ℕ) → bit_at (get_pool user m'').used_map j ≡ bit_at (get_pool user m).used_map j)
      × (get_pool (not user) m'' ≡ get_pool (not user) m)
palloc_free_multiple-Got user cnt m pages m' v c g =
    rw
      (free_eq user cnt pages g.idx m' (ground (arith, g.place, p.whole))
        (ground (arith, g.place, p.some_base, c)) (find-Got user cnt m pages m' v c g)
        (index_eq (get_pool user m').base pages g.idx (ap (λ b. b % 4096) g.base ∙ p.whole)
          (omega (arith, g.place, g.base)))
        (all_true (get_pool user m').used_map g.idx cnt g.taken.valid
          (omega (arith, g.inside, g.taken.size)) λ j h. ground (arith, g.taken.at j, h)))
      (Returns-bind (Filled (get_pool user m').used_map g.idx cnt false) _
        (bitmap_set_multiple (get_pool user m').used_map g.idx cnt false)
        (λ map. some (put_map user map (memset pages 0xcc (4096 * cnt) m')))
        (bitmap_set_multiple_lem (get_pool user m').used_map g.idx cnt false g.taken.valid
          (omega (arith, g.inside, g.taken.size)))
        λ map f. (
          (λ j.
              ap (λ b. bit_at b j) (get-put user map (memset pages 0xcc (4096 * cnt) m')).0
              ∙ back j (f.at j) (g.taken.at j) (g.free j)),
          (get-put user map (memset pages 0xcc (4096 * cnt) m')).2
              ∙ get-memset (not user) pages 0xcc (4096 * cnt) m'
              ∙ g.other,
        ))
  where
    p : IsPool (get_pool user m)
    p = get_pool-IsPool user m v

    back :
        {x y z : Bool} (j : ℕ)
        → x ≡ (if among g.idx cnt j then false else y)
        → y ≡ (if among g.idx cnt j then true else z)
        → (among g.idx cnt j ≡ true → z ≡ false)
        → x ≡ z
    back j a b c = ground arith
