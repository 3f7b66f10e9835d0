-- ===== src/Palloc/Tests.antt =====
-- The pools of src/threads/palloc.c with eight pages each; the first two user pages are in use.
use csed.Common.{ℕ, zero, suc, ◌≡◌, refl, true, false, [], ◌∷◌, arith, Returns}
use csed.Bitmap.Single.{bit_at}
use csed.Bitmap.{bitmap_set_multiple, set_from, bitmap_set, bitmap_mark}
use csed.Bitmap.Multiple.{Filled, bitmap_set_multiple_lem}
use csed.Bitmap.Scan.{Group}
use csed.Palloc.{Pool, Memory, Flags, get_pool, palloc_get_multiple, palloc_free_multiple}
use csed.Palloc.Pages.{IsMemory, Got, palloc_free_multiple-Got}
use csed.Palloc.Get.{GotOrNull, palloc_get_multiple_lem}

abbrev eight : ℕ → ℕ → Pool
eight base used = record { used_map = record { bit_cnt = 8; bits = used ∷ [] }; base = base }

abbrev two_pools : Memory
two_pools = record { kernel_pool = eight 65536 0; user_pool = eight 131072 3; byte = λ a. 0 }

two_pools-IsMemory : IsMemory two_pools
two_pools-IsMemory = record {
  kernel = record {
    map = record { room = omega arith; small = omega arith };
    whole = refl;
    some_base = omega arith;
    below = omega arith;
  };
  user = record {
    map = record { room = omega arith; small = omega arith };
    whole = refl;
    some_base = omega arith;
    below = omega arith;
  };
  order = omega arith;
}

abbrev user_pages : Flags
user_pages = record { pal_assert = false; pal_zero = true; pal_user = true }

palloc_get_multiple_example :
    Returns (palloc_get_multiple user_pages 2 two_pools) (GotOrNull true 2 two_pools)
palloc_get_multiple_example =
    palloc_get_multiple_lem user_pages 2 two_pools two_pools-IsMemory (omega arith) refl

-- The same with the next two user pages in use.
abbrev four_used : Memory
four_used = record two_pools { user_pool = eight 131072 15 }

two_taken : Filled two_pools.user_pool.used_map 2 2 true four_used.user_pool.used_map
unfolding bitmap_set_multiple set_from bitmap_set bitmap_mark
two_taken =
    bitmap_set_multiple_lem two_pools.user_pool.used_map 2 2 true two_pools-IsMemory.user.map
      (omega arith)

two_free : Group (bit_at two_pools.user_pool.used_map) 2 2 false
two_free zero h = absurd (cc)
two_free (suc zero) h = absurd (cc)
two_free (suc (suc zero)) h = refl
two_free (suc (suc (suc zero))) h = refl
two_free (suc (suc (suc (suc j)))) h = absurd (ground arith)

four_used-Got : Got true 2 two_pools 139264 four_used
four_used-Got = record {
  idx = 2;
  place = refl;
  inside = omega arith;
  free = two_free;
  taken = two_taken;
  base = refl;
  other = refl;
}

palloc_free_multiple_example : Returns (palloc_free_multiple 139264 2 four_used) λ m''.
    ((j : ℕ) → bit_at (get_pool true m'').used_map j ≡ bit_at (get_pool true two_pools).used_map j)
    × (get_pool false m'' ≡ get_pool false two_pools)
palloc_free_multiple_example =
    palloc_free_multiple-Got true 2 two_pools 139264 four_used two_pools-IsMemory (omega arith)
      four_used-Got
