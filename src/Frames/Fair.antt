-- ===== src/Frames/Fair.antt =====
-- The loop of evict_frame in src/vm/frame.c: which frame the clock prefers.
use csed.Common.{
  ℕ, zero, suc, ◌*◌, ◌≤◌, ◌<◌, ◌≡◌, refl, Bool, true, false, ◌==◌, List, ap, sym, ◌∙◌, some, arith,
  length, get_elem?, set, Returns, Bool-cases, inl, inr, ==_iff,
}
use csed.Frames.{
  Frame, at, Table, is_accessed, clear_accessed, advance, hand_start, turn, choose_frame,
}
use csed.Frames.Clock.{
  Unpinned, distance, get_elem?-bound, bound-get_elem?, turn_pinned, turn_accessed,
}

-- Each frame holds another page.
abbrev pub Apart : List Frame → Type 0
Apart l =
    (i j : ℕ) (f g : Frame)
    → get_elem? l i ≡ some f
    → get_elem? l j ≡ some g
    → f.owner ≡ g.owner
    → f.uaddr ≡ g.uaddr
    → i ≡ j

turn_stops :
    (fuel i : ℕ) (t : Table) (f : Frame)
    → get_elem? t.frame_table i ≡ some f
    → f.pinned ≡ false
    → is_accessed t f ≡ false
    → turn (suc fuel) i t
      ≡ some (
        i,
        record t {
          clock_hand = at i;
          frame_table = set t.frame_table i (record f { pinned = true });
        },
      )
unfolding turn
turn_stops fuel i t f p e a = rw (p, e, a) refl

module _ (t₀ : Table) (apart : Apart t₀.frame_table) where
  abbrev n : ℕ
  n = length t₀.frame_table

  -- The table with other accessed bits.
  abbrev now : (ℕ → ℕ → Bool) → Table
  now bits = record t₀ { accessed = bits }

  -- The frames from place `i` to place `u` have the bits that they had at the start.
  abbrev Untouched : (ℕ → ℕ → Bool) → ℕ → ℕ → Type 0
  Untouched bits i u =
      (p : ℕ) (f : Frame)
      → get_elem? t₀.frame_table p ≡ some f
      → distance n i p ≤ distance n i u
      → is_accessed (now bits) f ≡ is_accessed t₀ f

  -- The frame at the place chosen had its bit clear at the start.
  abbrev pub WasIdle : ℕ × Table → Type 0
  WasIdle r = (g : Frame) × (get_elem? t₀.frame_table r.0 ≡ some g) × (is_accessed t₀ g ≡ false)

  Untouched-advance :
      (bits : ℕ → ℕ → Bool) (i u : ℕ)
      → i < n
      → u < n
      → (i == u) ≡ false
      → Untouched bits i u
      → Untouched bits (advance i t₀) u
  Untouched-advance bits i u h q e a p f pl d =
      a p f pl (ground (arith, h, q, e, d, bound-get_elem? t₀.frame_table p f pl))

  Untouched-clear :
      (bits : ℕ → ℕ → Bool) (i u : ℕ) (g : Frame)
      → i < n
      → u < n
      → (i == u) ≡ false
      → get_elem? t₀.frame_table i ≡ some g
      → Untouched bits i u
      → Untouched (clear_accessed (now bits) g).accessed (advance i t₀) u
  Untouched-clear bits i u g h q e pg a p f pl d = ground (
    arith,
    Untouched-advance bits i u h q e a p f pl d,
    apart i p g f pg pl,
    h,
    q,
    e,
    d,
    bound-get_elem? t₀.frame_table p f pl,
  )

  turn_fair :
      (fuel i u : ℕ) (bits : ℕ → ℕ → Bool) (f : Frame)
      → Unpinned t₀ u f
      → is_accessed t₀ f ≡ false
      → i < n
      → distance n i u < fuel
      → Untouched bits i u
      → Returns (turn fuel i (now bits)) WasIdle
  turn_fair zero i u bits f v a b d same = absurd (omega arith)
  turn_fair (suc fuel) i u bits f v a b d same =
      let (g, p) = get_elem?-bound t₀.frame_table i b in
      let size : u < n = bound-get_elem? t₀.frame_table u f v.place in
      elim (Bool-cases (i == u)) [
        | inl e ↦
            let here : get_elem? t₀.frame_table i ≡ some f =
              ap (get_elem? t₀.frame_table) ((==_iff i u).0 e) ∙ v.place in
            rw (turn_stops fuel i (now bits) f here v.free (same u f v.place (ground arith) ∙ a))
              (f, here, a)
        | inr e ↦ elim (Bool-cases g.pinned) [
          | inl q ↦ rw (turn_pinned fuel i (now bits) g p q) (
              turn_fair fuel (advance i t₀) u bits f v a (ground (arith, b))
                (ground (arith, d, b, size, e)) (Untouched-advance bits i u b size e same))
          | inr q ↦ elim (Bool-cases (is_accessed (now bits) g)) [
            | inl r ↦ rw (turn_accessed fuel i (now bits) g p q r) (
                turn_fair fuel (advance i t₀) u (clear_accessed (now bits) g).accessed f v a
                  (ground (arith, b)) (ground (arith, d, b, size, e))
                  (Untouched-clear bits i u g b size e p same))
            | inr r ↦
                rw (turn_stops fuel i (now bits) g p q r)
                  (g, p, sym (same i g p (ground (arith, b))) ∙ r)
          ]
        ]
      ]

  -- While a frame is not pinned and has its accessed bit clear, the clock chooses one whose bit was
  -- clear before. The frames hold different pages.
  pub second_chance :
      (u : ℕ) (f : Frame)
      → Unpinned t₀ u f
      → is_accessed t₀ f ≡ false
      → hand_start t₀.clock_hand < length t₀.frame_table
      → Returns (choose_frame t₀) WasIdle
  unfolding choose_frame
  second_chance u f v a h =
      turn_fair (2 * n) (hand_start t₀.clock_hand) u t₀.accessed f v a h
        (ground (arith, h, bound-get_elem? t₀.frame_table u f v.place)) λ p g pl d. refl
