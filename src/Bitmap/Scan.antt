-- ===== src/Bitmap/Scan.antt =====
-- Groups of bits in src/lib/kernel/bitmap.c: bitmap_scan, bitmap_scan_and_flip, bitmap_create.
use csed.Common.{
  ℕ, zero, suc, ◌+◌, ◌-◌, ◌^◌, ◌≤◌, ◌<◌, ◌≡◌, ◌≢◌, ◌⊎◌, refl, Bool, true, false, not, ◌==◌, leb,
  List, Option, none, some, arith, length, if◌then◌else◌, ◌>>=◌, Returns, Returns-bind,
  Returns-mono, Bool-cases, inl, inr, ==_iff, le→leb,
}
use csed.Bitmap.{
  Bitmap, bitmap_error, elem_cnt, bitmap_set_multiple, bitmap_set_all, bitmap_contains, scan_from,
  bitmap_scan, bitmap_scan_and_flip, bitmap_create,
}
use csed.Bitmap.Single.{IsValid, bit_at}
use csed.Bitmap.Multiple.{among, Filled, Contains, bitmap_set_multiple_lem, bitmap_contains_lem}

-- All `cnt` bits from `i` on are the value.
abbrev pub Group : (ℕ → Bool) → ℕ → ℕ → Bool → Type 0
Group f i cnt x = (j : ℕ) → among i cnt j ≡ true → f j ≡ x

-- What bitmap_scan answers: the first group that starts in [from, to), or the error value.
pub record Scanned (f : ℕ → Bool) (from to cnt : ℕ) (x : Bool) (r : ℕ) : Type 0 where
  pub found : r ≢ bitmap_error → (from ≤ r) × (r < to) × Group f r cnt x
  pub first :
      (i : ℕ)
      → from ≤ i
      → i < to
      → (r ≡ bitmap_error) ⊎ (i < r)
      → (j : ℕ) × (among i cnt j ≡ true) × (f j ≡ not x)

scan_hit :
    (b : Bitmap) (rounds i cnt : ℕ) (x : Bool)
    → bitmap_contains b i cnt (not x) ≡ some false
    → scan_from b i (suc rounds) cnt x ≡ some i
unfolding scan_from
scan_hit b rounds i cnt x e = rw (e) refl

scan_miss :
    (b : Bitmap) (rounds i cnt : ℕ) (x : Bool)
    → bitmap_contains b i cnt (not x) ≡ some true
    → scan_from b i (suc rounds) cnt x ≡ scan_from b (suc i) rounds cnt x
unfolding scan_from
scan_miss b rounds i cnt x e = rw (e) refl

not-not : (a : Bool) → not (not a) ≡ a
not-not true = refl
not-not false = refl

Scanned-here :
    (b : Bitmap) (rounds i cnt : ℕ) (x : Bool)
    → i < bitmap_error
    → Contains (bit_at b) i cnt (not x) false
    → Scanned (bit_at b) i (i + suc rounds) cnt x i
Scanned-here b rounds i cnt x h c = record {
  found = λ _. (omega arith, omega arith, λ j p. rw (c.if_not j p refl) (not-not x));
  first = λ j p q o. absurd (ground (arith, h));
}

Scanned-later :
    (b : Bitmap) (rounds i cnt r : ℕ) (x : Bool)
    → Contains (bit_at b) i cnt (not x) true
    → Scanned (bit_at b) (suc i) (suc i + rounds) cnt x r
    → Scanned (bit_at b) i (i + suc rounds) cnt x r
Scanned-later b rounds i cnt r x c s = record {
  found = λ n. let (p, q, g) = s.found n in (omega arith, omega arith, g);
  first = λ j p q o. elim (Bool-cases (i == j)) [
    | inl t ↦ rw (← (==_iff i j).0 t) (c.if_found refl)
    | inr t ↦ s.first j (ground arith) (omega arith) o
  ];
}

scan_from-Scanned :
    (b : Bitmap) (rounds i cnt : ℕ) (x : Bool)
    → IsValid b
    → (1 ≤ rounds → i + rounds + cnt ≤ b.bit_cnt + 1)
    → Returns (scan_from b i rounds cnt x) (Scanned (bit_at b) i (i + rounds) cnt x)
scan_from-Scanned b zero i cnt x v h =
    unfold scan_from in
    (record { found = λ n. absurd (n refl); first = λ j p q _. absurd (omega arith) })
scan_from-Scanned b (suc rounds) i cnt x v h =
    round (bitmap_contains b i cnt (not x)) refl
      (bitmap_contains_lem b i cnt (not x) v (omega (arith, h)))
      (scan_from-Scanned b rounds (suc i) cnt x v (λ g. omega (arith, h)))
  where
    round :
        (o : Option Bool)
        → bitmap_contains b i cnt (not x) ≡ o
        → Returns o (Contains (bit_at b) i cnt (not x))
        → Returns
            (scan_from b (suc i) rounds cnt x)
            (Scanned (bit_at b) (suc i) (suc i + rounds) cnt x)
        → Returns (scan_from b i (suc rounds) cnt x) (Scanned (bit_at b) i (i + suc rounds) cnt x)
    round none e c l = absurd c
    round (some false) e c l =
        rw (scan_hit b rounds i cnt x e)
          (Scanned-here b rounds i cnt x (omega (arith, h, v.small)) c)
    round (some true) e c l = rw (scan_miss b rounds i cnt x e) (
        Returns-mono (Scanned (bit_at b) (suc i) (suc i + rounds) cnt x)
          (Scanned (bit_at b) i (i + suc rounds) cnt x) (scan_from b (suc i) rounds cnt x) l
          λ r s. Scanned-later b rounds i cnt r x c s)

Scanned-range :
    (f : ℕ → Bool) (from to to' cnt : ℕ) (x : Bool) (r : ℕ)
    → to' ≡ from + (to - from)
    → Scanned f from to' cnt x r
    → Scanned f from to cnt x r
Scanned-range f from to to' cnt x r e s = record {
  found = λ n. let (p, q, g) = s.found n in (p, omega arith, g);
  first = λ j p q o. s.first j p (omega arith) o;
}

-- bitmap_scan answers the first place from `start` on at which `cnt` bits in a row are the value, or
-- BITMAP_ERROR if there is no such place. The start is in the bitmap or just behind it.
pub bitmap_scan_lem :
    (b : Bitmap) (start cnt : ℕ) (x : Bool)
    → IsValid b
    → start ≤ b.bit_cnt
    → Returns (bitmap_scan b start cnt x) (Scanned (bit_at b) start (b.bit_cnt + 1 - cnt) cnt x)
unfolding bitmap_scan
bitmap_scan_lem b start cnt x v h = rw (le→leb start b.bit_cnt h) (by_size (leb cnt b.bit_cnt) refl)
  where
    last : ℕ
    last = b.bit_cnt - cnt

    by_size :
        (fits : Bool)
        → leb cnt b.bit_cnt ≡ fits
        → Returns
            (elim fits [
              | true ↦ scan_from b start (last + 1 - start) cnt x
              | false ↦ some bitmap_error
            ])
            (Scanned (bit_at b) start (b.bit_cnt + 1 - cnt) cnt x)
    by_size false e = record {
      found = λ n. absurd (n refl);
      first = λ j p q o. absurd (ground (arith, q));
    }
    by_size true e =
        Returns-mono (Scanned (bit_at b) start (start + (last + 1 - start)) cnt x)
          (Scanned (bit_at b) start (b.bit_cnt + 1 - cnt) cnt x)
          (scan_from b start (last + 1 - start) cnt x)
          (scan_from-Scanned b (last + 1 - start) start cnt x v (λ g. ground (arith, g)))
          λ r s.
            Scanned-range (bit_at b) start (b.bit_cnt + 1 - cnt) (start + (last + 1 - start)) cnt x
              r (ground arith) s

-- What bitmap_scan_and_flip leaves: the group that it found has turned, or the bitmap is as it was.
abbrev pub Flipped : Bitmap → ℕ → Bool → ℕ → Bitmap → Type 0
Flipped b cnt x idx b' = if idx == bitmap_error then b' ≡ b else Filled b idx cnt (not x) b'

-- bitmap_scan_and_flip finds the group that bitmap_scan finds, and turns it; every other bit stays as
-- it was, and so does the bitmap if there is no group.
pub bitmap_scan_and_flip_lem :
    (b : Bitmap) (start cnt : ℕ) (x : Bool)
    → IsValid b
    → start ≤ b.bit_cnt
    → Returns
        (bitmap_scan_and_flip b start cnt x)
        λ r. Scanned (bit_at b) start (b.bit_cnt + 1 - cnt) cnt x r.0 × Flipped b cnt x r.0 r.1
unfolding bitmap_scan_and_flip
bitmap_scan_and_flip_lem b start cnt x v h =
    Returns-bind (Scanned (bit_at b) start (b.bit_cnt + 1 - cnt) cnt x) Post
      (bitmap_scan b start cnt x) _ (bitmap_scan_lem b start cnt x v h)
      λ idx s. found idx s (idx == bitmap_error) refl
  where
    Post : ℕ × Bitmap → Type 0
    Post r = Scanned (bit_at b) start (b.bit_cnt + 1 - cnt) cnt x r.0 × Flipped b cnt x r.0 r.1

    found :
        (idx : ℕ)
        → Scanned (bit_at b) start (b.bit_cnt + 1 - cnt) cnt x idx
        → (e : Bool) → (idx == bitmap_error) ≡ e
        → Returns
            (elim e [
              | true ↦ some (idx, b)
              | false ↦ bitmap_set_multiple b idx cnt (not x) >>= λ b'. some (idx, b')
            ])
            Post
    found idx s true e = (s, rw (e) refl)
    found idx s false e =
        Returns-bind (Filled b idx cnt (not x)) Post (bitmap_set_multiple b idx cnt (not x)) _
          (bitmap_set_multiple_lem b idx cnt (not x) v (ground (arith, s.found (ground arith))))
          λ b' f. (s, rw (e) f)

-- bitmap_create with memory for the words returns a bitmap of the size asked for in which every bit is
-- false; without memory it returns NULL, unless no bits are asked for.
pub bitmap_create_lem :
    (bit_cnt : ℕ) (fresh : List ℕ)
    → length fresh ≡ elem_cnt bit_cnt
    → bit_cnt < 2 ^ 32 - 32
    → Returns (bitmap_create bit_cnt (some fresh)) λ o.
      (b : Bitmap) × (o ≡ some b)
      × (b.bit_cnt ≡ bit_cnt)
      × Group (bit_at b) 0 bit_cnt false
      × IsValid b
unfolding bitmap_create bitmap_set_all
bitmap_create_lem bit_cnt fresh len small =
    Returns-bind (Filled b₀ 0 bit_cnt false) _ (bitmap_set_multiple b₀ 0 bit_cnt false) _
      (bitmap_set_multiple_lem b₀ 0 bit_cnt false v (omega arith))
      λ b f. (b, refl, f.size, (λ j p. ground (arith, f.at j)), f.valid)
  where
    b₀ : Bitmap
    b₀ = record { bit_cnt = bit_cnt; bits = fresh }

    v : IsValid b₀
    v = record { room = omega arith; small = omega arith }
