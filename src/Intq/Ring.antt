-- ===== src/Intq/Ring.antt =====
-- The circular buffer of src/devices/intq.h as a sequence of bytes.
use csed.Common.{
  ℕ, zero, suc, ◌+◌, ◌-◌, ◌%◌, ◌≤◌, ◌<◌, ◌≡◌, refl, List, [], ◌∷◌, ◌++◌, ap, arith, get_or,
  get_or-set, set, length,
}
use csed.Intq.{Intq, next}

-- The `n` bytes from `pos` on.
abbrev pub ring : ℕ → ℕ → List ℕ → List ℕ
ring zero pos buf = []
ring (suc n) pos buf = get_or buf pos 0 ∷ ring n (next pos) buf

-- How many bytes are in the queue.
abbrev pub fill : Intq → ℕ
fill q = (q.head + 64 - q.tail) % 64

-- The bytes in the queue, the oldest first.
abbrev pub contents : Intq → List ℕ
contents q = ring (fill q) q.tail q.buf

pub record IsQueue (q : Intq) : Type 0 where
  pub head_bound : q.head < 64
  pub tail_bound : q.tail < 64
  pub size : length q.buf ≡ 64

pub length-ring : (n pos : ℕ) (buf : List ℕ) → length (ring n pos buf) ≡ n
length-ring zero pos buf = refl
length-ring (suc n) pos buf = ap suc (length-ring n (next pos) buf)

-- A write outside the bytes leaves them.
pub ring-set :
    (n pos h v : ℕ) (buf : List ℕ)
    → pos < 64
    → h < length buf
    → length buf ≡ 64
    → n ≤ (h + 64 - pos) % 64
    → ring n pos (set buf h v) ≡ ring n pos buf
ring-set zero pos h v buf p q l s = refl
ring-set (suc n) pos h v buf p q l s = ground (
  arith,
  get_or-set buf h pos v 0 q,
  ring-set n (next pos) h v buf (omega arith) q l (omega arith),
)

pub ring-snoc :
    (n pos : ℕ) (buf : List ℕ)
    → pos < 64
    → ring (suc n) pos buf ≡ ring n pos buf ++ get_or buf ((pos + n) % 64) 0 ∷ []
ring-snoc zero pos buf p = ap (λ i. get_or buf i 0 ∷ []) (omega arith)
ring-snoc (suc n) pos buf p =
    ap (◌∷◌ (get_or buf pos 0)) (rw (ring-snoc n (next pos) buf (omega arith), place) refl)
  where
    place : (next pos + n) % 64 ≡ (pos + suc n) % 64
    place = omega arith
