-- ===== src/Threads/Locks.antt =====
-- lock_acquire, lock_try_acquire and lock_release of src/threads/synch.c as whole calls.
use csed.Common.{
  ℕ, ◌+◌, ◌≡◌, refl, Bool, true, false, not, [], ◌∷◌, ◌++◌, Option, none, some, arith,
  if◌then◌else◌, append-nil, Returns, Returns-mono, PanicsIf, PanicsIf-intro, PanicsIf-returns,
  ◌>>=◌, ltb, ◌||◌, Bool-cases, inl, inr, Returns-bind,
}
use csed.Threads.Kernel.{Kernel, points_to, thread_current, is_nested}
use csed.Threads.Invariant.{next_of, rest_of}
use csed.Threads.Waiting.{IsSound}
use csed.Threads.Semaphores.{Down, TriedDown, sema_down_lem, sema_try_down_lem}
use csed.Threads.Wakeup.{sema_up_returns, up_panics, oldest}
use csed.Threads.System.{set_holder}
use csed.Threads.Mutex.{holder-IsSound}
use csed.Threads.Synch.{
  Outcome, done, asleep, sema_down, sema_up, sema_try_down, lock_acquire, lock_release,
  lock_try_acquire, and_then, take_lock, lock_held_by_current_thread,
}

pub held_eq :
    (l : ℕ) (k : Kernel)
    → IsSound k
    → lock_held_by_current_thread l k ≡ some (points_to (k.holder l) k.current)
unfolding lock_held_by_current_thread thread_current
held_eq l k v = ground (arith, v.valid.one_running k.current)

lock_release_eq :
    (l : ℕ) (k : Kernel)
    → IsSound k
    → lock_release l k
      ≡ (if points_to (k.holder l) k.current then sema_up l (set_holder k l none) else none)
unfolding lock_release
lock_release_eq l k v = rw (held_eq l k v) (ground arith)

-- lock_release by a thread that does not hold the lock panics, and so does one in an external
-- interrupt with interrupts on. By the holder it clears the holder and frees the lock, and the longest waiter becomes ready.
pub lock_release_lem :
    (l : ℕ) (k : Kernel)
    → IsSound k
    → (k.semaphore l).value ≡ 0
    → PanicsIf (not (points_to (k.holder l) k.current) || is_nested k) (lock_release l k) λ k'.
      (k'.holder l ≡ none)
      × ((k'.semaphore l).value ≡ 1)
      × ((k'.semaphore l).waiters ≡ rest_of (k.semaphore l).waiters)
      × (k'.ready_list ≡ k.ready_list ++ oldest (k.semaphore l).waiters)
      × (k'.current ≡ k.current)
      × (k'.interrupts ≡ k.interrupts)
      × IsSound k'
lock_release_lem l k v z =
    PanicsIf-intro _ (lock_release l k) _
      (λ h. elim (Bool-cases (points_to (k.holder l) k.current)) [
        | inl b ↦
            rw (lock_release_eq l k v, b) (up_panics (set_holder k l none) l (ground (arith, b)))
        | inr b ↦ rw (lock_release_eq l k v, b) refl
      ])
      (λ h.
        let b : points_to (k.holder l) k.current ≡ true = ground arith in
        rw (lock_release_eq l k v, b)
          (Returns-mono _ _ (sema_up l (set_holder k l none))
            (sema_up_returns (set_holder k l none) l (holder-IsSound l none k v) (ground arith)
              (ground arith))
            λ k' u. (ground (arith, u.6 l), ground arith, u.2, u.3, u.4, u.5, u.0)))

lock_acquire_eq :
    (l : ℕ) (k : Kernel)
    → IsSound k
    → k.in_external ≡ false
    → lock_acquire l k ≡ (
        if points_to (k.holder l) k.current
        then none
        else and_then (sema_down l k) (λ _ k'. take_lock l k'))
unfolding lock_acquire
lock_acquire_eq l k v internal = rw (held_eq l k v) (ground arith)

and_then-Returns {ℓ κ} :
    {A : Type ℓ} {B : Type κ} (P : Outcome A → Type 0) (Q : Outcome B → Type 0)
    (o : Option (Outcome A)) (f : A → Kernel → Option (Outcome B))
    → Returns o P
    → ((a : A) (k : Kernel) → P (done a k) → Returns (f a k) Q)
    → ((k : Kernel) → P (asleep k) → Q (asleep k))
    → Returns (and_then o f) Q
and_then-Returns P Q none f h g w = h
and_then-Returns P Q (some (done a k)) f h g w = g a k h
and_then-Returns P Q (some (asleep k)) f h g w = w k h

take_lock_eq :
    (l : ℕ) (k : Kernel)
    → IsSound k
    → take_lock l k ≡ some (done tt (set_holder k l (some k.current)))
unfolding thread_current
take_lock_eq l k v = ground (arith, v.valid.one_running k.current)

current_eq : (k : Kernel) → IsSound k → thread_current k ≡ some k.current
unfolding thread_current
current_eq k v = ground (arith, v.valid.one_running k.current)

-- What lock_acquire promises: the caller holds the lock, which was free, or the lock was taken and
-- the caller waits behind the others.
abbrev pub Acquired : Kernel → ℕ → ℕ → Outcome (Unit {0}) → Type 0
Acquired k l next (done _ k') =
    IsSound k'
    × ((k.semaphore l).value ≡ (k'.semaphore l).value + 1)
    × (k'.holder l ≡ some k.current)
    × ((k'.semaphore l).waiters ≡ (k.semaphore l).waiters)
    × (k'.ready_list ≡ k.ready_list)
    × (k'.current ≡ k.current)
    × (k'.interrupts ≡ k.interrupts)
    × (k'.in_external ≡ k.in_external)
Acquired k l next (asleep k') =
    IsSound k'
    × ((k.semaphore l).value ≡ 0)
    × (k'.holder l ≡ k.holder l)
    × ((k'.semaphore l).waiters ≡ (k.semaphore l).waiters ++ k.current ∷ [])
    × (k'.current ≡ next)

-- The call returned, and the release of the lock that follows it ends in `P`.
abbrev pub Released : ℕ → Outcome (Unit {0}) → (Kernel → Type 0) → Type 0
Released l (done _ k) P = Returns (lock_release l k) P
Released l (asleep k) P = ⊥

-- The lock and the running thread are as they were.
abbrev pub IsBack : ℕ → Kernel → Kernel → Type 0
IsBack l k k' =
    (k'.semaphore l ≡ k.semaphore l)
    × (k'.holder l ≡ none)
    × (k'.ready_list ≡ k.ready_list)
    × (k'.current ≡ k.current)
    × (k'.interrupts ≡ k.interrupts)

module _ (l next : ℕ) (k : Kernel) (v : IsSound k) (internal : k.in_external ≡ false)
    (busy : points_to k.idle_thread k.current ≡ false) (e : next_of k ≡ some next) where
  -- Outside an external interrupt, and for a thread other than the idle one, while the scheduler has a
  -- thread to run: lock_acquire panics if the caller holds the lock already. Otherwise the caller ends as the
  -- holder, or asleep at the end of the lock's wait list, and the threads' data stay sound.
  pub lock_acquire_lem :
      PanicsIf (points_to (k.holder l) k.current) (lock_acquire l k) (Acquired k l next)
  lock_acquire_lem =
      PanicsIf-intro _ (lock_acquire l k) (Acquired k l next)
        (λ h. rw (lock_acquire_eq l k v internal, h) refl)
        (λ h.
          rw (lock_acquire_eq l k v internal, h)
            (and_then-Returns (Down k.interrupts k l next) (Acquired k l next) (sema_down l k) _
              (sema_down_lem k l next v internal busy e)
              (λ a k' d. rw (take_lock_eq l k' d.0) (
                holder-IsSound l (some k'.current) k' d.0,
                d.1,
                ground (arith, d.3),
                d.2,
                d.4,
                d.3,
                d.5,
                d.7,
              ))
              (λ k' d. (d.0, d.1, d.7 l, d.3, d.4))))

  release_after :
      (o : Outcome (Unit {0}))
      → (k.semaphore l).value ≡ 1
      → (k.semaphore l).waiters ≡ []
      → Acquired k l next o
      → Released l o (IsBack l k)
  release_after (done x k') one alone a =
      Returns-mono _ (IsBack l k) (lock_release l k')
        (PanicsIf-returns _ (lock_release l k') _ (ground (arith, a.2, a.5, a.7, internal))
          (lock_release_lem l k' a.0 (ground (arith, a.1))))
        λ k'' r. (
          ground (arith, r.1, r.2, a.3, a.1),
          r.0,
          ground (arith, r.3, a.3, a.4, append-nil k'.ready_list),
          ground (arith, r.4, a.5),
          ground (arith, r.5, a.6),
        )
  release_after (asleep k') one alone a = absurd (ground (arith, a.1))

  -- A lock that is free and that nobody waits for is free again after its acquisition and release,
  -- and the caller has not lost the processor.
  pub lock_release-lock_acquire :
      (k.semaphore l).value ≡ 1
      → (k.semaphore l).waiters ≡ []
      → k.holder l ≡ none
      → Returns (lock_acquire l k) (λ o. Released l o (IsBack l k))
  lock_release-lock_acquire one alone free =
      Returns-mono (Acquired k l next) _ (lock_acquire l k)
        (PanicsIf-returns _ (lock_acquire l k) (Acquired k l next) (ground arith) lock_acquire_lem)
        λ o a. release_after o one alone a

-- The rest of lock_try_acquire, after sema_try_down.
abbrev try_end : ℕ → Bool × Kernel → Option (Bool × Kernel)
try_end l (true, k) = do cur ← thread_current k; some (true, set_holder k l (some cur))
try_end l (false, k) = some (false, k)

lock_try_acquire_eq :
    (l : ℕ) (k : Kernel)
    → IsSound k
    → lock_try_acquire l k
      ≡ (if points_to (k.holder l) k.current then none else (sema_try_down l k >>= try_end l))
unfolding lock_try_acquire
lock_try_acquire_eq l k v = rw (held_eq l k v) (ground arith)

-- What lock_try_acquire promises: whether the lock was free, and the holder that follows from that.
abbrev pub Tried : ℕ → Kernel → Bool × Kernel → Type 0
Tried l k (taken, k') =
    IsSound k'
    × (taken ≡ ltb 0 (k.semaphore l).value)
    × (k'.holder l ≡ (if taken then some k.current else k.holder l))
    × ((k.semaphore l).value ≡ (k'.semaphore l).value + (if taken then 1 else 0))

try_end-Tried :
    (l : ℕ) (k : Kernel) (r : Bool × Kernel) → TriedDown k l r → Returns (try_end l r) (Tried l k)
try_end-Tried l k (true, k') d =
    rw (current_eq k' d.0)
      (holder-IsSound l (some k'.current) k' d.0, d.2, ground (arith, d.4), d.1)
try_end-Tried l k (false, k') d = (d.0, d.2, d.6 l, d.1)

-- lock_try_acquire panics if the caller holds the lock, and in an external interrupt with interrupts
-- on. Otherwise it answers whether the lock was
-- free; if so the caller holds it, and if not the holder and the value are as they were.
pub lock_try_acquire_lem :
    (l : ℕ) (k : Kernel)
    → IsSound k
    → PanicsIf (points_to (k.holder l) k.current || is_nested k) (lock_try_acquire l k) (Tried l k)
lock_try_acquire_lem l k v =
    PanicsIf-intro _ (lock_try_acquire l k) (Tried l k)
      (λ h. elim (Bool-cases (points_to (k.holder l) k.current)) [
        | inl b ↦ rw (lock_try_acquire_eq l k v, b) refl
        | inr b ↦
            let n : is_nested k ≡ true = ground arith in
            let e : sema_try_down l k ≡ none = rw n at (sema_try_down_lem k l v) in
            rw (lock_try_acquire_eq l k v, b, e) refl
      ])
      (λ h.
        let b : points_to (k.holder l) k.current ≡ false = ground arith in
        rw (lock_try_acquire_eq l k v, b)
          (Returns-bind (TriedDown k l) (Tried l k) (sema_try_down l k) (try_end l)
            (PanicsIf-returns (is_nested k) (sema_try_down l k) (TriedDown k l) (ground arith)
              (sema_try_down_lem k l v))
            (try_end-Tried l k)))
