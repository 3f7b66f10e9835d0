-- ===== src/Intq/Fifo.antt =====
-- intq_putc and intq_getc of src/devices/intq.c as the operations of a queue of bytes.
use csed.Common.{
  ℕ, suc, ◌≡◌, refl, Bool, true, false, List, [], ◌∷◌, ◌++◌, append-nil, ap, ap₂, sym, ◌∙◌, arith,
  get_or, get_or-set, set, length-set, Option, none, some, Returns, Returns-bind, Bool-cases, inl,
  inr, ◌>>=◌,
}
use mathlib.Core.List.{head-eq_of_cons-eq, tail-eq_of_cons-eq, cons≢nil}
use csed.Threads.Kernel.{Kernel, blocked, has_status, points_to}
use csed.Threads.Invariant.{IsValid}
use csed.Threads.Wake.{woken, woken-IsValid, thread_unblock_eq}
use csed.Intq.{
  Intq, Result, ended, Waiter, for_room, for_byte, get_waiter, set_waiter, must_wait, is_empty,
  is_full, signal, intq_empty, intq_full, intq_getc, intq_putc, next, wait, wait_locked,
  getc_locked,
}
use csed.Threads.Synch.{done, lock_acquire_from}
use csed.Intq.Ring.{fill, contents, IsQueue, ring-set, ring-snoc}

-- The threads that wait, as a list.
abbrev pub to_list : Option ℕ → List ℕ
to_list none = []
to_list (some t) = t ∷ []

-- A thread that waits is blocked, and not the idle thread.
abbrev pub is_waiting : Kernel → Option ℕ → Bool
is_waiting k none = true
is_waiting k (some t) = elim (points_to k.idle_thread t) [
  | true ↦ false
  | false ↦ has_status k t blocked
]

-- What `signal` does: the waiter, if there is one, is made ready.
record Signalled (w : Waiter) (q : Intq) (k : Kernel) (r : Intq × Kernel) : Type 0 where
  reset : r.0 ≡ set_waiter w none q
  queue : r.1.ready_list ≡ k.ready_list ++ to_list (get_waiter w q)
  valid : IsValid r.1

waiter-IsQueue : (w : Waiter) (t : Option ℕ) (q : Intq) → IsQueue q → IsQueue (set_waiter w t q)
waiter-IsQueue for_room t q s = record {
  head_bound = s.head_bound;
  tail_bound = s.tail_bound;
  size = s.size;
}
waiter-IsQueue for_byte t q s = record {
  head_bound = s.head_bound;
  tail_bound = s.tail_bound;
  size = s.size;
}

unwaited : (w : Waiter) (q : Intq) → get_waiter w q ≡ none → set_waiter w none q ≡ q
unwaited for_room q e = ap (λ t. record q { not_full = t }) (sym e)
unwaited for_byte q e = ap (λ t. record q { not_empty = t }) (sym e)

module _ (w : Waiter) (q : Intq) (k : Kernel) where
  signal-none :
      k.interrupts ≡ false
      → must_wait w q ≡ false
      → get_waiter w q ≡ none
      → signal w q k ≡ some (q, k)
  unfolding signal
  signal-none off free e = simp (off, free, e) refl

  signal-some :
      (t : ℕ)
      → k.interrupts ≡ false
      → must_wait w q ≡ false
      → get_waiter w q ≡ some t
      → has_status k t blocked ≡ true
      → signal w q k ≡ some (set_waiter w none q, woken k t)
  unfolding signal
  signal-some t off free e b =
      simp (off, free, e, thread_unblock_eq k t (ground (arith, off)) b) refl

  signal_lem :
      IsValid k
      → k.interrupts ≡ false
      → must_wait w q ≡ false
      → is_waiting k (get_waiter w q) ≡ true
      → Returns (signal w q k) (Signalled w q k)
  signal_lem v off free h = by_waiter (get_waiter w q) refl
    where
      waiter_awake :
          (t : ℕ)
          → get_waiter w q ≡ some t
          → (points_to k.idle_thread t ≡ false) × (has_status k t blocked ≡ true)
      waiter_awake t e = ground arith

      by_waiter : (o : Option ℕ) → get_waiter w q ≡ o → Returns (signal w q k) (Signalled w q k)
      by_waiter none e = rw (signal-none off free e) (record {
        reset = sym (unwaited w q e);
        queue = rw (e) (sym (append-nil k.ready_list));
        valid = v;
      })
      by_waiter (some t) e =
          let busy : (points_to k.idle_thread t ≡ false) × (has_status k t blocked ≡ true) =
            waiter_awake t e in
          rw (signal-some t off free e busy.1) (record {
            reset = refl;
            queue = rw (e) refl;
            valid = woken-IsValid k t v busy.0 busy.1;
          })

-- What a call leaves that does not sleep: the value, and the queue of bytes; the thread that waited
-- for it is ready.
abbrev pub Ended {ℓ} : {A : Type ℓ} → Kernel → Option ℕ → A → List ℕ → Result A → Type ℓ
Ended k waiter a bytes r =
    (q' : Intq) × (k' : Kernel) × (r ≡ ended a q' k')
    × (contents q' ≡ bytes)
    × IsQueue q'
    × (k'.ready_list ≡ k.ready_list ++ to_list waiter)
    × IsValid k'

module _ (q : Intq) (k : Kernel) (byte : ℕ) where
  abbrev added : Intq
  added = record q { buf = set q.buf q.head byte; head = next q.head }

  added-contents : IsQueue q → is_full q ≡ false → contents added ≡ contents q ++ byte ∷ []
  added-contents s free = rw (more) (
      ring-snoc (fill q) q.tail (set q.buf q.head byte) s.tail_bound
      ∙ ap₂ (λ l x. l ++ x ∷ [])
          (ring-set (fill q) q.tail q.head byte q.buf s.tail_bound (omega (arith, s.size)) s.size
            (omega arith))
          (ground
            (arith, get_or-set q.buf q.head q.head byte 0, s.size, s.head_bound, s.tail_bound)))
    where
      more : fill added ≡ suc (fill q)
      more = ground (arith, s.head_bound, s.tail_bound)

  added-IsQueue : IsQueue q → IsQueue added
  added-IsQueue s = record {
    head_bound = omega arith;
    tail_bound = s.tail_bound;
    size = length-set q.buf q.head byte ∙ s.size;
  }

  putc_eq :
      k.interrupts ≡ false
      → is_full q ≡ false
      → intq_putc q byte k ≡ (signal for_byte added k >>= λ r. some (ended tt r.0 r.1))
  unfolding intq_putc intq_full
  putc_eq off free = simp (off, free) refl

  -- intq_putc of a queue with room adds the byte behind the others, and makes the thread ready that
  -- waits for a byte.
  pub intq_putc_lem :
      IsValid k
      → IsQueue q
      → k.interrupts ≡ false
      → is_full q ≡ false
      → is_waiting k q.not_empty ≡ true
      → Returns (intq_putc q byte k) (Ended k q.not_empty tt (contents q ++ byte ∷ []))
  intq_putc_lem v s off free h = rw (putc_eq off free) (
      Returns-bind (Signalled for_byte added k) (Ended k q.not_empty tt (contents q ++ byte ∷ []))
        (signal for_byte added k) (λ r. some (ended tt r.0 r.1))
        (signal_lem for_byte added k v off (ground (arith, free, s.head_bound, s.tail_bound)) h)
        λ r g. (
          r.0,
          r.1,
          refl,
          rw (g.reset) (added-contents s free),
          rw (g.reset) (waiter-IsQueue for_byte none added (added-IsQueue s)),
          g.queue,
          g.valid,
        ))

module _ (q : Intq) (k : Kernel) where
  abbrev removed : Intq
  removed = record q { tail = next q.tail }

  removed-contents :
      IsQueue q → is_empty q ≡ false → contents q ≡ get_or q.buf q.tail 0 ∷ contents removed
  removed-contents s full = rw (less) refl
    where
      less : fill q ≡ suc (fill removed)
      less = ground (arith, s.head_bound, s.tail_bound)

  empty-contents : IsQueue q → is_empty q ≡ true → contents q ≡ []
  empty-contents s e = rw (none_left) refl
    where
      none_left : fill q ≡ 0
      none_left = ground (arith, s.head_bound, s.tail_bound)

  removed-IsQueue : IsQueue q → IsQueue removed
  removed-IsQueue s = record { head_bound = s.head_bound; tail_bound = omega arith; size = s.size }

  getc_eq :
      k.interrupts ≡ false
      → is_empty q ≡ false
      → intq_getc q k
        ≡ (signal for_room removed k >>= λ r. some (ended (get_or q.buf q.tail 0) r.0 r.1))
  unfolding intq_getc intq_empty
  getc_eq off full = simp (off, full) refl

  -- intq_getc of a queue with a byte in it takes the oldest one off, and makes the thread ready that
  -- waits for room.
  pub intq_getc_lem :
      (byte : ℕ) (rest : List ℕ)
      → IsValid k
      → IsQueue q
      → k.interrupts ≡ false
      → contents q ≡ byte ∷ rest
      → is_waiting k q.not_full ≡ true
      → Returns (intq_getc q k) (Ended k q.not_full byte rest)
  intq_getc_lem byte rest v s off e h = rw (getc_eq off full) (
      Returns-bind (Signalled for_room removed k) (Ended k q.not_full byte rest)
        (signal for_room removed k) (λ r. some (ended (get_or q.buf q.tail 0) r.0 r.1))
        (signal_lem for_room removed k v off (ground (arith, s.head_bound, s.tail_bound)) h)
        λ r g. (
          r.0,
          r.1,
          ap (λ x. ended x r.0 r.1) (head-eq_of_cons-eq split),
          rw (g.reset) (tail-eq_of_cons-eq split),
          rw (g.reset) (waiter-IsQueue for_room none removed (removed-IsQueue s)),
          g.queue,
          g.valid,
        ))
    where
      full : is_empty q ≡ false
      full = elim (Bool-cases (is_empty q)) [
        | inl t ↦ absurd (cons≢nil (sym e ∙ empty-contents s t))
        | inr t ↦ t
      ]

      split : get_or q.buf q.tail 0 ∷ contents removed ≡ byte ∷ rest
      split = sym (removed-contents s full) ∙ e

wait_panics : (w : Waiter) (q : Intq) (k : Kernel) → must_wait w q ≡ false → wait w q k ≡ none
unfolding wait
wait_panics w q k e = ground arith

-- A reader that slept for the lock of the queue, and has it now, panics if a byte came meanwhile.
pub getc_locked_panics :
    (q : Intq) (k k' : Kernel)
    → lock_acquire_from k.interrupts q.lock k ≡ some (done tt k')
    → is_empty q ≡ false
    → getc_locked q k ≡ none
unfolding getc_locked wait_locked
getc_locked_panics q k k' e full = rw (e, wait_panics for_byte q k' full) refl
