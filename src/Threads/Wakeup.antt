-- ===== src/Threads/Wakeup.antt =====
-- sema_up of src/threads/synch.c.
use csed.Common.{
  ℕ, ◌+◌, ◌≤◌, ◌<◌, ◌%◌, ◌^◌, ◌≡◌, refl, Bool, true, false, ◌&&◌, List, [], ◌∷◌, ◌++◌, some, arith,
  ◌==◌, if◌then◌else◌, count, Returns, PanicsIf, PanicsIf-intro, PanicsIf-returns, Bool-cases, inl,
  inr, append-nil, none,
}
use csed.Threads.Kernel.{
  blocked, Kernel, has_status, points_to, intr_disable, intr_set_level, thread_unblock, is_nested,
}
use csed.Threads.Invariant.{IsValid, rest_of}
use csed.Threads.Wake.{thread_unblock_eq, woken, woken-IsValid}
use csed.Threads.Waiting.{IsSound}
use csed.Threads.Synch.{put_semaphore, sema_up}
use csed.Threads.Semaphores.{at_level, at_level-IsSound, put_value, put_value-IsSound}

abbrev pub popped : Kernel → ℕ → List ℕ → Kernel
popped k s rest = put_semaphore k s (record (k.semaphore s) { waiters = rest })

module _ (k : Kernel) (s t : ℕ) (rest : List ℕ) (v : IsSound k)
    (e : (k.semaphore s).waiters ≡ t ∷ rest) where
  popped_waiters :
      (x u : ℕ)
      → count u ((popped k s rest).semaphore x).waiters + (if s == x && t == u then 1 else 0)
        ≡ count u (k.semaphore x).waiters
  popped_waiters x u = ground arith

  woken_status :
      (u : ℕ)
      → has_status (woken (popped k s rest) t) u blocked
        ≡ (if t == u then false else has_status k u blocked)
  woken_status u = ground (arith, v.waiting.waiters_blocked s t)

  head_blocked : (has_status k t blocked ≡ true) × (points_to k.idle_thread t ≡ false)
  head_blocked = ground (arith, v.waiting.waiters_blocked s t)

  popped-IsValid : IsValid (popped k s rest)
  popped-IsValid = record {
    lists = record {
      queued = v.valid.lists.queued;
      listed = v.valid.lists.listed;
      idle_alive = v.valid.lists.idle_alive;
    };
    one_running = v.valid.one_running;
  }

  woken-IsSound : IsSound (woken (popped k s rest) t)
  woken-IsSound = record {
    valid = woken-IsValid (popped k s rest) t popped-IsValid head_blocked.1 head_blocked.0;
    waiting = record {
      waiters_blocked = λ x u h. rw (woken_status u) (
          ground (
            arith,
            popped_waiters x u,
            popped_waiters s u,
            v.waiting.waiters_blocked x u,
            v.waiting.one_place x s u,
            v.waiting.waits_once x u,
          ));
      waits_once = λ x u. ground (arith, popped_waiters x u, v.waiting.waits_once x u);
      one_place = λ x y u h g.
          ground (arith, popped_waiters x u, popped_waiters y u, v.waiting.one_place x y u);
    };
  }

abbrev pub oldest : List ℕ → List ℕ
oldest [] = []
oldest (t ∷ rest) = t ∷ []

-- What sema_up on `s` promises.
abbrev pub Up : Kernel → ℕ → Kernel → Type 0
Up k s k' =
    IsSound k'
    × ((k'.semaphore s).value ≡ (k.semaphore s).value + 1)
    × ((k'.semaphore s).waiters ≡ rest_of (k.semaphore s).waiters)
    × (k'.ready_list ≡ k.ready_list ++ oldest (k.semaphore s).waiters)
    × (k'.current ≡ k.current)
    × (k'.interrupts ≡ k.interrupts)
    × ((x : ℕ) → k'.holder x ≡ k.holder x)
    × ((x : ℕ) → k'.condition x ≡ k.condition x)
    × ((x : ℕ) → (k'.semaphore x).value ≤ (k.semaphore x).value + 1)
    × (k'.in_external ≡ k.in_external)

-- The kernel after sema_up, from the one that the wake-up left.
abbrev upped : Kernel → ℕ → Bool → Kernel
upped k s level = at_level level (put_value k s (((k.semaphore s).value + 1) % 2 ^ 32))

upped-IsSound : (k : Kernel) (s : ℕ) (level : Bool) → IsSound k → IsSound (upped k s level)
upped-IsSound k s level v = at_level-IsSound level _ (put_value-IsSound k s _ v)

up_alone :
    (k : Kernel) (s : ℕ)
    → is_nested k ≡ false
    → (k.semaphore s).waiters ≡ []
    → sema_up s k ≡ some (upped (at_level false k) s k.interrupts)
unfolding sema_up intr_disable intr_set_level
up_alone k s n e = ground arith

up_waking :
    (k : Kernel) (s t : ℕ) (rest : List ℕ)
    → is_nested k ≡ false
    → IsSound k
    → (k.semaphore s).waiters ≡ t ∷ rest
    → sema_up s k ≡ some (upped (woken (popped (at_level false k) s rest) t) s k.interrupts)
unfolding sema_up intr_disable intr_set_level
up_waking k s t rest n v e = ground (
  arith,
  thread_unblock_eq (popped (at_level false k) s rest) t refl (head_blocked k s t rest v e).0,
)

pub up_panics : (k : Kernel) (s : ℕ) → is_nested k ≡ true → sema_up s k ≡ none
unfolding sema_up intr_disable intr_set_level thread_unblock
up_panics k s n =
    elim (k.semaphore s).waiters as (λ l. (k.semaphore s).waiters ≡ l → sema_up s k ≡ none) [
      | [] ↦ λ q. ground arith
      | t ∷ rest ↦ λ q. ground arith
    ]
      refl

-- sema_up adds one to the value and moves the longest waiter, if there is one, to the end of the
-- run queue; the caller runs on, at its interrupt level. It panics exactly in an external interrupt
-- with interrupts on.
pub sema_up_lem :
    (k : Kernel) (s : ℕ)
    → IsSound k
    → (k.semaphore s).value + 1 < 2 ^ 32
    → PanicsIf (is_nested k) (sema_up s k) (Up k s)
sema_up_lem k s v small = PanicsIf-intro _ (sema_up s k) _ (up_panics k s) λ n.
    elim (k.semaphore s).waiters
        as (λ l. (k.semaphore s).waiters ≡ l → Returns (sema_up s k) (Up k s)) [
          | [] ↦ λ q. rw (up_alone k s n q) (
            upped-IsSound _ s k.interrupts (at_level-IsSound false k v),
            ground arith,
            ground arith,
            ground (arith, append-nil k.ready_list),
            refl,
            refl,
            λ x. refl,
            λ x. refl,
            λ x. ground arith,
            refl,
          )
          | t ∷ rest ↦ λ q. rw (up_waking k s t rest n v q) (
            upped-IsSound _ s k.interrupts
                (woken-IsSound (at_level false k) s t rest (at_level-IsSound false k v) q),
            ground arith,
            ground arith,
            ground arith,
            refl,
            refl,
            λ x. refl,
            λ x. refl,
            λ x. ground arith,
            refl,
          )
        ]
      refl

-- Where it returns.
pub sema_up_returns :
    (k : Kernel) (s : ℕ)
    → IsSound k
    → (k.semaphore s).value + 1 < 2 ^ 32
    → is_nested k ≡ false
    → Returns (sema_up s k) (Up k s)
sema_up_returns k s v small n =
    PanicsIf-returns (is_nested k) (sema_up s k) (Up k s) n (sema_up_lem k s v small)

pub sema_up_result :
    (k k' : Kernel) (s : ℕ)
    → IsSound k
    → (k.semaphore s).value + 1 < 2 ^ 32
    → sema_up s k ≡ some k'
    → Up k s k'
sema_up_result k k' s v small e = elim (Bool-cases (is_nested k)) [
  | inl n ↦ absurd (cc (e, up_panics k s n))
  | inr n ↦ rw e at (sema_up_returns k s v small n)
]
