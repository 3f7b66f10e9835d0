-- ===== src/Threads/Waiting.antt =====
-- The wait lists of semaphores share the list element `elem` with the run queue (src/threads/thread.h).
use csed.Common.{
  ℕ, ◌+◌, ◌≤◌, ◌≡◌, refl, true, false, ◌&&◌, [], ◌∷◌, ◌++◌, some, arith, ◌==◌, if◌then◌else◌, count,
  count-append,
}
use csed.Threads.Kernel.{blocked, Kernel, has_status, points_to}
use csed.Threads.Invariant.{IsValid, next_of, scheduled, scheduled-IsValid}
use csed.Threads.Switch.{blocking, blocking-IsSwitching}
use csed.Threads.Synch.{put_semaphore}

-- A waiter is blocked and not the idle thread, and waits once, for one semaphore.
pub record IsWaiting (k : Kernel) : Type 0 where
  pub waiters_blocked :
      (s t : ℕ)
      → 1 ≤ count t (k.semaphore s).waiters
      → (has_status k t blocked ≡ true) × (points_to k.idle_thread t ≡ false)
  pub waits_once : (s t : ℕ) → count t (k.semaphore s).waiters ≤ 1
  pub one_place :
      (s s' t : ℕ)
      → 1 ≤ count t (k.semaphore s).waiters
      → 1 ≤ count t (k.semaphore s').waiters
      → s ≡ s'

pub record IsSound (k : Kernel) : Type 0 where
  pub valid : IsValid k
  pub waiting : IsWaiting k

abbrev pub enqueued : Kernel → ℕ → Kernel
enqueued k s =
    put_semaphore k s
      (record (k.semaphore s) { waiters = (k.semaphore s).waiters ++ k.current ∷ [] })

-- The kernel that the next thread finds when the running one waits for `s`.
abbrev pub slept : Kernel → ℕ → ℕ → Kernel
slept k s next = scheduled (blocking (enqueued k s)) next

module _ (k : Kernel) (s next : ℕ) (v : IsSound k) (off : k.interrupts ≡ false)
    (e : next_of k ≡ some next) where
  running_waits_not : (x : ℕ) → count k.current (k.semaphore x).waiters ≡ 0
  running_waits_not x =
      ground (arith, v.waiting.waiters_blocked x k.current, v.valid.one_running k.current)

  pub enqueued-IsValid : IsValid (enqueued k s)
  enqueued-IsValid = record {
    lists = record {
      queued = v.valid.lists.queued;
      listed = v.valid.lists.listed;
      idle_alive = v.valid.lists.idle_alive;
    };
    one_running = v.valid.one_running;
  }

  next_waits_not : (x : ℕ) → count next (k.semaphore x).waiters ≡ 0
  next_waits_not x =
      elim k.ready_list as (λ l. k.ready_list ≡ l → count next (k.semaphore x).waiters ≡ 0) [
        | [] ↦ λ q. ground (arith, v.waiting.waiters_blocked x next)
        | t ∷ r ↦ λ q. ground (arith, v.waiting.waiters_blocked x t, v.valid.lists.queued t)
      ]
        refl

  next_ne_running : points_to k.idle_thread k.current ≡ false → (k.current == next) ≡ false
  next_ne_running busy =
      elim k.ready_list as (λ l. k.ready_list ≡ l → (k.current == next) ≡ false) [
        | [] ↦ λ q. ground arith
        | t ∷ r ↦ λ q. ground (arith, v.valid.one_running t, v.valid.lists.queued t)
      ]
        refl

  slept_status :
      (t : ℕ)
      → (k.current == next) ≡ false
      → has_status (slept k s next) t blocked
        ≡ (if k.current == t then true else if next == t then false else has_status k t blocked)
  slept_status t ne = ground (arith, v.valid.one_running k.current)

  pub slept_waiters :
      (x t : ℕ)
      → count t ((slept k s next).semaphore x).waiters
        ≡ count t (k.semaphore x).waiters + (if s == x && k.current == t then 1 else 0)
  slept_waiters x t = ground (arith, count-append t (k.semaphore s).waiters (k.current ∷ []))

  slept_idle : (slept k s next).idle_thread ≡ k.idle_thread
  slept_idle = ground arith

  slept_blocked :
      points_to k.idle_thread k.current ≡ false
      → (x t : ℕ) → 1 ≤ count t ((slept k s next).semaphore x).waiters
      → (has_status (slept k s next) t blocked ≡ true)
        × (points_to (slept k s next).idle_thread t ≡ false)
  slept_blocked busy x t h =
      rw (slept_status t (next_ne_running busy), slept_idle)
        (ground (arith, slept_waiters x t, v.waiting.waiters_blocked x t, next_waits_not x))

  pub slept-IsSound : points_to k.idle_thread k.current ≡ false → IsSound (slept k s next)
  slept-IsSound busy = record {
    valid =
        scheduled-IsValid (blocking (enqueued k s)) next
          (blocking-IsSwitching (enqueued k s) enqueued-IsValid off) e;
    waiting = record {
      waiters_blocked = λ x t h. slept_blocked busy x t h;
      waits_once =
          λ x t. ground (arith, slept_waiters x t, v.waiting.waits_once x t, running_waits_not x);
      one_place = λ x y t h g. ground (
        arith,
        slept_waiters x t,
        slept_waiters y t,
        v.waiting.one_place x y t,
        running_waits_not x,
        running_waits_not y,
      );
    };
  }
