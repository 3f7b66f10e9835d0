-- ===== src/Frames/Tests.antt =====
-- The frame table of src/vm/frame.c with three frames: the first is pinned, the second was
-- accessed.
use csed.Common.{
  ℕ, zero, suc, ◌≡◌, refl, true, false, [], ◌∷◌, some, none, arith, ◌==◌, Returns, get_elem?,
}
use csed.Frames.{Frame, Table, at_end, choose_frame, turn}
use csed.Frames.Clock.{Unpinned, Chosen, choose_frame_lem, turn_stuck}
use csed.Frames.Fair.{Apart, WasIdle, second_chance}

abbrev three : Table
three = record {
  frame_table =
      record { kaddr = 10; uaddr = 1; owner = 7; pinned = true }
      ∷ record { kaddr = 11; uaddr = 2; owner = 7; pinned = false }
      ∷ record { kaddr = 12; uaddr = 3; owner = 7; pinned = false }
      ∷ [];
  clock_hand = at_end;
  accessed = λ t a. a == 2;
}

abbrev third : Frame
third = record { kaddr = 12; uaddr = 3; owner = 7; pinned = false }

third-Unpinned : Unpinned three 2 third
third-Unpinned = record { place = refl; free = refl }

three-uaddr : (i : ℕ) (f : Frame) → get_elem? three.frame_table i ≡ some f → f.uaddr ≡ suc i
three-uaddr zero f p = ground arith
three-uaddr (suc zero) f p = ground arith
three-uaddr (suc (suc zero)) f p = ground arith
three-uaddr (suc (suc (suc i))) f p = absurd (cc)

three-Apart : Apart three.frame_table
three-Apart i j f g p q o a = omega (arith, three-uaddr i f p, three-uaddr j g q)

choose_frame_example : Returns (choose_frame three) (Chosen three)
choose_frame_example = choose_frame_lem three 2 third third-Unpinned (omega arith)

second_chance_example : Returns (choose_frame three) (WasIdle three three-Apart)
second_chance_example = second_chance three three-Apart 2 third third-Unpinned refl (omega arith)

-- A table of one frame, which is pinned.
abbrev one_pinned : Table
one_pinned = record three {
  frame_table = record { kaddr = 10; uaddr = 1; owner = 7; pinned = true } ∷ [];
}

one_pinned-pinned :
    (p : ℕ) (f : Frame) → get_elem? one_pinned.frame_table p ≡ some f → f.pinned ≡ true
one_pinned-pinned zero f e = ground arith
one_pinned-pinned (suc p) f e = absurd (cc)

turn_stuck_example : turn 100 0 one_pinned ≡ none
turn_stuck_example = turn_stuck 100 0 one_pinned one_pinned-pinned (omega arith)
