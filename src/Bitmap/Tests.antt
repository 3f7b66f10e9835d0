-- ===== src/Bitmap/Tests.antt =====
-- A bitmap of src/lib/kernel/bitmap.c with 40 bits in two words: bits 0, 1 and 33 are set.
use csed.Common.{◌≡◌, refl, true, false, [], ◌∷◌, some, arith, Returns}
use csed.Bitmap.{
  Bitmap, bitmap_set, bitmap_set_multiple, bitmap_count, bitmap_contains, bitmap_scan,
  bitmap_scan_and_flip, bitmap_create, bitmap_flip, scan_from, contains_from, bitmap_test,
}
use csed.Bitmap.Single.{IsValid, Put, bit_at, bitmap_set_lem, bitmap_flip-Put}
use csed.Bitmap.Multiple.{
  Filled, Contains, bitmap_set_multiple_lem, bitmap_count_lem, bitmap_contains_lem,
}
use csed.Bitmap.Scan.{
  Group, Scanned, Flipped, bitmap_scan_lem, bitmap_scan_and_flip_lem, bitmap_create_lem,
}

abbrev forty : Bitmap
forty = record { bit_cnt = 40; bits = 3 ∷ 2 ∷ [] }

forty-IsValid : IsValid forty
forty-IsValid = record { room = omega arith; small = omega arith }

finds : bitmap_scan forty 0 2 false ≡ some 2
unfolding bitmap_scan scan_from bitmap_contains contains_from bitmap_test
finds = refl

bitmap_set_example : Returns (bitmap_set forty 39 true) λ b'. Put forty 39 true b' × IsValid b'
bitmap_set_example = bitmap_set_lem forty 39 true forty-IsValid

bitmap_flip_example : Put forty 33 false (bitmap_flip forty 33)
bitmap_flip_example = bitmap_flip-Put forty 33 forty-IsValid (omega arith)

bitmap_set_multiple_example : Returns (bitmap_set_multiple forty 30 5 true) (Filled forty 30 5 true)
bitmap_set_multiple_example = bitmap_set_multiple_lem forty 30 5 true forty-IsValid (omega arith)

bitmap_count_example : bitmap_count forty 0 40 true ≡ some 3
bitmap_count_example = bitmap_count_lem forty 0 40 true forty-IsValid (omega arith)

bitmap_contains_example :
    Returns (bitmap_contains forty 2 20 true) (Contains (bit_at forty) 2 20 true)
bitmap_contains_example = bitmap_contains_lem forty 2 20 true forty-IsValid (omega arith)

bitmap_scan_example : Returns (bitmap_scan forty 0 2 false) (Scanned (bit_at forty) 0 39 2 false)
bitmap_scan_example = bitmap_scan_lem forty 0 2 false forty-IsValid (omega arith)

bitmap_scan_and_flip_example :
    Returns
      (bitmap_scan_and_flip forty 0 2 false)
      λ r. Scanned (bit_at forty) 0 39 2 false r.0 × Flipped forty 2 false r.0 r.1
bitmap_scan_and_flip_example = bitmap_scan_and_flip_lem forty 0 2 false forty-IsValid (omega arith)

bitmap_create_example :
    Returns
      (bitmap_create 40 (some (7 ∷ 9 ∷ [])))
      λ o. (b : Bitmap) × (o ≡ some b) × (b.bit_cnt ≡ 40) × Group (bit_at b) 0 40 false × IsValid b
bitmap_create_example = bitmap_create_lem 40 (7 ∷ 9 ∷ []) refl (omega arith)
