-- ===== src/Frames.antt =====
-- src/vm/frame.c: the frame table, and the choice of a frame to evict by the clock. The functions run
-- under frame_table_lock, one at a time, so they are steps here, and the lock is not in the state.
pub mod Clock
pub mod Fair
mod Tests
use csed.Common.{
  ℕ, zero, suc, ◌+◌, ◌-◌, ◌*◌, Bool, true, false, not, ◌&&◌, ◌==◌, leb, ltb, List, [], ◌∷◌, ◌++◌,
  Option, none, some, ◌>>=◌, if◌then◌else◌, length, get_elem?, set,
}

-- `struct frame`; the owner is its thread.
pub record Frame : Type 0 where
  pub kaddr : ℕ
  pub uaddr : ℕ
  pub owner : ℕ
  pub pinned : Bool

-- `clock_hand`: NULL, the end of the list, or the element at a place in the table.
pub data Hand : Type 0 where
  nowhere at_end : Hand
  at : ℕ → Hand

-- The static data of frame.c; `accessed t a` is the accessed bit of page `a` in the page directory of
-- thread `t`.
pub record Table : Type 0 where
  pub frame_table : List Frame
  pub clock_hand : Hand
  pub accessed : ℕ → ℕ → Bool

unfoldable pub frame_init : Table → Table
frame_init t = record t { frame_table = []; clock_hand = nowhere }

-- The end of frame_alloc: the new frame, pinned, behind the others.
unfoldable pub frame_add : ℕ → ℕ → ℕ → Table → Table
frame_add kaddr uaddr owner t = record t {
  frame_table =
      t.frame_table ++ record { kaddr = kaddr; uaddr = uaddr; owner = owner; pinned = true } ∷ [];
}

abbrev pub remove_at : ℕ → List Frame → List Frame
remove_at i [] = []
remove_at zero (f ∷ rest) = rest
remove_at (suc i) (f ∷ rest) = f ∷ remove_at i rest

-- The hand after the element at `i` is gone: it moves on if it was there.
abbrev pub hand_without : ℕ → ℕ → Hand → Hand
hand_without i n nowhere = nowhere
hand_without i n at_end = at_end
hand_without i n (at h) =
    if h == i then (if suc i == n then at_end else at i) else if ltb i h then at (h - 1) else at h

-- frame_free of the frame at place `i`, without the page itself.
unfoldable pub frame_free : ℕ → Table → Table
frame_free i t = record t {
  clock_hand = hand_without i (length t.frame_table) t.clock_hand;
  frame_table = remove_at i t.frame_table;
}

unfoldable pub find_frame_by_kaddr : ℕ → List Frame → Option Frame
find_frame_by_kaddr kaddr [] = none
find_frame_by_kaddr kaddr (f ∷ rest) =
    let found = find_frame_by_kaddr kaddr rest in if f.kaddr == kaddr then some f else found

-- pagedir_is_accessed and pagedir_set_accessed (.., false) for a frame.
abbrev pub is_accessed : Table → Frame → Bool
is_accessed t f = t.accessed f.owner f.uaddr

abbrev pub clear_accessed : Table → Frame → Table
clear_accessed t f = record t {
  accessed = λ o a.
      if o == f.owner then (if a == f.uaddr then false else t.accessed o a) else t.accessed o a;
}

-- The place behind `i` in the circle.
abbrev pub advance : ℕ → Table → ℕ
advance i t = if suc i == length t.frame_table then 0 else suc i

-- The place at which the clock starts.
abbrev pub hand_start : Hand → ℕ
hand_start nowhere = 0
hand_start at_end = 0
hand_start (at i) = i

-- The loop of evict_frame up to its choice, with the hand at place `i`: the place of the frame to evict.
-- `none` if the fuel runs out.
unfoldable pub turn : ℕ → ℕ → Table → Option (ℕ × Table)
turn zero i t = none
turn (suc fuel) i t = get_elem? t.frame_table i >>= λ f. elim f.pinned [
  | true ↦ turn fuel (advance i t) t
  | false ↦ elim (is_accessed t f) [
    | true ↦ turn fuel (advance i t) (clear_accessed t f)
    | false ↦ some (
      i,
      record t {
        clock_hand = at i;
        frame_table = set t.frame_table i (record f { pinned = true });
      },
    )
  ]
]

-- The choice of evict_frame. The circle is passed twice at most.
unfoldable pub choose_frame : Table → Option (ℕ × Table)
unfolding turn
choose_frame t = turn (2 * length t.frame_table) (hand_start t.clock_hand) t
