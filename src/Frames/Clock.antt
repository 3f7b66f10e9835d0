-- ===== src/Frames/Clock.antt =====
-- The loop of evict_frame in src/vm/frame.c: how many rounds the clock takes.
use csed.Common.{
  ℕ, zero, suc, ◌+◌, ◌-◌, ◌*◌, ◌<◌, ◌≡◌, refl, true, false, ◌==◌, List, [], ◌∷◌, ap, ◌∙◌, some,
  none, arith, ltb, length, get_elem?, set, Returns, Returns-mono, if◌then◌else◌, Bool-cases, inl,
  inr, ==_iff,
}
use csed.Frames.{
  Frame, at, Table, is_accessed, clear_accessed, advance, hand_start, turn, choose_frame,
}

-- The frame at a place, which is not pinned.
pub record Unpinned (t : Table) (u : ℕ) (f : Frame) : Type 0 where
  pub place : get_elem? t.frame_table u ≡ some f
  pub free : f.pinned ≡ false

-- The choice of the clock: a frame that is not pinned and has no accessed bit (any more). The clock
-- pins it, stays there, and has done no more to the table than to clear accessed bits.
pub record Chosen (t : Table) (r : ℕ × Table) : Type 0 where
  pub victim : Frame
  pub unpinned : Unpinned t r.0 victim
  pub idle : is_accessed r.1 victim ≡ false
  pub table : r.1.frame_table ≡ set t.frame_table r.0 (record victim { pinned = true })
  pub hand : r.1.clock_hand ≡ at r.0
  pub cleared : (o a : ℕ) → t.accessed o a ≡ false → r.1.accessed o a ≡ false

pub get_elem?-bound :
    (l : List Frame) (i : ℕ) → i < length l → (f : Frame) × (get_elem? l i ≡ some f)
get_elem?-bound [] i h = absurd (omega arith)
get_elem?-bound (x ∷ l) zero h = (x, refl)
get_elem?-bound (x ∷ l) (suc i) h = get_elem?-bound l i (omega arith)

pub bound-get_elem? : (l : List Frame) (i : ℕ) (f : Frame) → get_elem? l i ≡ some f → i < length l
bound-get_elem? [] i f h = absurd (cc)
bound-get_elem? (x ∷ l) zero f h = omega arith
bound-get_elem? (x ∷ l) (suc i) f h = omega (arith, bound-get_elem? l i f h)

module _ (fuel i : ℕ) (t : Table) (f : Frame) (p : get_elem? t.frame_table i ≡ some f) where
  pub turn_pinned : f.pinned ≡ true → turn (suc fuel) i t ≡ turn fuel (advance i t) t
  unfolding turn
  turn_pinned e = rw (p, e) refl

  pub turn_accessed :
      f.pinned ≡ false
      → is_accessed t f ≡ true
      → turn (suc fuel) i t ≡ turn fuel (advance i t) (clear_accessed t f)
  unfolding turn
  turn_accessed e a = rw (p, e, a) refl

  turn-Chosen :
      f.pinned ≡ false → is_accessed t f ≡ false → Returns (turn (suc fuel) i t) (Chosen t)
  unfolding turn
  turn-Chosen e a =
      rw (p, e, a)
        (record {
          victim = f;
          unpinned = record { place = p; free = e };
          idle = a;
          table = refl;
          hand = refl;
          cleared = λ o b h. h;
        })

clear_mono :
    (t : Table) (f : Frame) (o a : ℕ)
    → t.accessed o a ≡ false
    → (clear_accessed t f).accessed o a ≡ false
clear_mono t f o a h = ground arith

clear_own : (t : Table) (f : Frame) → is_accessed (clear_accessed t f) f ≡ false
clear_own t f = ground arith

Chosen-clear : (t : Table) (f : Frame) (r : ℕ × Table) → Chosen (clear_accessed t f) r → Chosen t r
Chosen-clear t f r c = record {
  victim = c.victim;
  unpinned = record { place = c.unpinned.place; free = c.unpinned.free };
  idle = c.idle;
  table = c.table;
  hand = c.hand;
  cleared = λ o a h. c.cleared o a (clear_mono t f o a h);
}

-- How far the hand is from a place.
abbrev pub distance : ℕ → ℕ → ℕ → ℕ
distance n i u = if ltb u i then u + n - i else u - i

-- Once the accessed bit is clear, the clock gets there.
turn_clear :
    (fuel i u : ℕ) (t : Table) (f : Frame)
    → Unpinned t u f
    → is_accessed t f ≡ false
    → i < length t.frame_table
    → distance (length t.frame_table) i u < fuel
    → Returns (turn fuel i t) (Chosen t)
turn_clear zero i u t f v a b d = absurd (omega arith)
turn_clear (suc fuel) i u t f v a b d =
    let (g, p) = get_elem?-bound t.frame_table i b in
    let size : u < length t.frame_table = bound-get_elem? t.frame_table u f v.place in
    elim (Bool-cases (i == u)) [
      | inl e ↦
          let here : get_elem? t.frame_table i ≡ some f =
            ap (get_elem? t.frame_table) ((==_iff i u).0 e) ∙ v.place in
          turn-Chosen fuel i t f here v.free a
      | inr e ↦ elim (Bool-cases g.pinned) [
        | inl q ↦ rw (turn_pinned fuel i t g p q) (
            turn_clear fuel (advance i t) u t f v a (ground (arith, b))
              (ground (arith, d, b, size, e)))
        | inr q ↦ elim (Bool-cases (is_accessed t g)) [
          | inl r ↦ rw (turn_accessed fuel i t g p q r) (
              Returns-mono (Chosen (clear_accessed t g)) (Chosen t)
                (turn fuel (advance i t) (clear_accessed t g))
                (turn_clear fuel (advance i t) u (clear_accessed t g) f
                  (record { place = v.place; free = v.free }) (clear_mono t g f.owner f.uaddr a)
                  (ground (arith, b)) (ground (arith, d, b, size, e)))
                (Chosen-clear t g))
          | inr r ↦ turn-Chosen fuel i t g p q r
        ]
      ]
    ]

-- The clock finds the frame in the round after the one that clears its bit.
turn_any :
    (fuel i u : ℕ) (t : Table) (f : Frame)
    → Unpinned t u f
    → i < length t.frame_table
    → distance (length t.frame_table) i u + length t.frame_table < fuel
    → Returns (turn fuel i t) (Chosen t)
turn_any zero i u t f v b d = absurd (omega arith)
turn_any (suc fuel) i u t f v b d =
    let (g, p) = get_elem?-bound t.frame_table i b in
    let size : u < length t.frame_table = bound-get_elem? t.frame_table u f v.place in
    let next : advance i t < length t.frame_table = ground (arith, b) in
    elim (Bool-cases g.pinned) [
      | inl q ↦
          let other : (i == u) ≡ false = pinned_other i u t f g v p q in
          rw (turn_pinned fuel i t g p q)
            (turn_any fuel (advance i t) u t f v next (ground (arith, d, b, size, other)))
      | inr q ↦ elim (Bool-cases (is_accessed t g)) [
        | inr r ↦ turn-Chosen fuel i t g p q r
        | inl r ↦ rw (turn_accessed fuel i t g p q r) (
            Returns-mono (Chosen (clear_accessed t g)) (Chosen t)
              (turn fuel (advance i t) (clear_accessed t g))
              (elim (Bool-cases (i == u)) [
                | inl e ↦
                    turn_clear fuel (advance i t) i (clear_accessed t g) g
                      (record { place = p; free = q }) (clear_own t g) next (ground (arith, d, b))
                | inr e ↦
                    turn_any fuel (advance i t) u (clear_accessed t g) f
                      (record { place = v.place; free = v.free }) next
                      (ground (arith, d, b, size, e))
              ])
              (Chosen-clear t g))
      ]
    ]
  where
    pinned_other :
        (i u : ℕ) (t : Table) (f g : Frame)
        → Unpinned t u f
        → get_elem? t.frame_table i ≡ some g
        → g.pinned ≡ true
        → (i == u) ≡ false
    pinned_other i u t f g v p q = elim (Bool-cases (i == u)) [
      | inr e ↦ e
      | inl e ↦
          absurd
            (ground (arith, p, v.place, q, v.free, ap (get_elem? t.frame_table) ((==_iff i u).0 e)))
    ]

-- evict_frame's clock, in a table with a frame that is not pinned, ends within two rounds. The frame
-- that it chooses is not pinned and has its accessed bit clear.
pub choose_frame_lem :
    (t : Table) (u : ℕ) (f : Frame)
    → Unpinned t u f
    → hand_start t.clock_hand < length t.frame_table
    → Returns (choose_frame t) (Chosen t)
unfolding choose_frame
choose_frame_lem t u f v h =
    turn_any (2 * length t.frame_table) (hand_start t.clock_hand) u t f v h
      (ground (arith, h, bound-get_elem? t.frame_table u f v.place))

-- If every frame is pinned, the clock does not end, however long it runs.
pub turn_stuck :
    (fuel i : ℕ) (t : Table)
    → ((p : ℕ) (f : Frame) → get_elem? t.frame_table p ≡ some f → f.pinned ≡ true)
    → i < length t.frame_table
    → turn fuel i t ≡ none
unfolding turn
turn_stuck zero i t h b = refl
turn_stuck (suc fuel) i t h b =
    let (f, p) = get_elem?-bound t.frame_table i b in
    turn_pinned fuel i t f p (h i f p) ∙ turn_stuck fuel (advance i t) t h (ground (arith, b))
