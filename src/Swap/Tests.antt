-- ===== src/Swap/Tests.antt =====
-- A swap device for src/vm/swap.c of four slots, of which slot 0 is in use.
use csed.Common.{ℕ, ◌+◌, ◌≡◌, ◌≢◌, refl, false, true, List, [], ◌∷◌, none, some, arith}
use csed.Swap.{Swap, swap_in, swap_out, swap_free}
use csed.Swap.Slots.{IsSwap, is_used, page_in, Agree, swap_in_lem, swap_free_lem, unused_panics}
use csed.Swap.Out.{swap_out_lem, swap_in-swap_out}

abbrev four_slots : Swap ℕ
four_slots = record {
  swap_device = record {
    size = 33;
    foreign = false;
    sector = λ n. n + 100;
    read_cnt = 0;
    write_cnt = 0;
  };
  swap_total_pages = 4;
  swap_bitmap = record { bit_cnt = 4; bits = 1 ∷ [] };
}

abbrev page : List ℕ
page = 1 ∷ 2 ∷ 3 ∷ 4 ∷ 5 ∷ 6 ∷ 7 ∷ 8 ∷ []

four_slots-IsSwap : IsSwap four_slots
four_slots-IsSwap = record {
  bitmap = record { room = omega arith; small = omega arith };
  pages = refl;
  room = omega arith;
  bound = omega arith;
  native = refl;
}

swap_in_example :
    (s' : Swap ℕ) × (swap_in 0 four_slots ≡ some (page_in four_slots 0, s'))
    × (is_used s' 0 ≡ false)
    × ((j : ℕ) → j ≢ 0 → Agree four_slots s' j)
    × IsSwap s'
swap_in_example = swap_in_lem four_slots 0 four_slots-IsSwap refl

swap_free_example :
    (s' : Swap ℕ) × (swap_free 0 four_slots ≡ some s')
    × (is_used s' 0 ≡ false)
    × ((j : ℕ) → j ≢ 0 → Agree four_slots s' j)
    × IsSwap s'
swap_free_example = swap_free_lem four_slots 0 four_slots-IsSwap refl

unused_panics_example : (swap_in 2 four_slots ≡ none) × (swap_free 2 four_slots ≡ none)
unused_panics_example = unused_panics four_slots 2 four_slots-IsSwap refl

swap_out_example :
    (i : ℕ) × (s' : Swap ℕ) × (swap_out page four_slots ≡ some (i, s'))
    × (is_used four_slots i ≡ false)
    × (is_used s' i ≡ true)
    × (page_in s' i ≡ page)
    × ((j : ℕ) → j ≢ i → Agree four_slots s' j)
    × IsSwap s'
swap_out_example = swap_out_lem page four_slots 3 four_slots-IsSwap refl (omega arith) refl

swap_in-swap_out_example :
    (i : ℕ) × (s₁ : Swap ℕ) × (s₂ : Swap ℕ) × (swap_out page four_slots ≡ some (i, s₁))
    × (swap_in i s₁ ≡ some (page, s₂))
    × ((j : ℕ) → is_used s₂ j ≡ is_used four_slots j)
swap_in-swap_out_example =
    swap_in-swap_out page four_slots 3 four_slots-IsSwap refl (omega arith) refl
