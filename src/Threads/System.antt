-- ===== src/Threads/System.antt =====
-- Any number of threads that take and release one lock of src/threads/synch.c, interleaved at every
-- point where interrupts are on, over the kernel's own operations.
use csed.Common.{ℕ, ◌≡◌, Bool, [], true, false, ◌||◌, ◌==◌, leb, count, Option, none, some, update}
use csed.Threads.Kernel.{Kernel, points_to}
use csed.Threads.Invariant.{next_of}
use csed.Threads.Waiting.{IsSound}
use csed.Threads.Synch.{Outcome, done, asleep, sema_down_from, sema_down, sema_up}

-- Where a thread stands with the lock. In lock_acquire, `waiting` is at the test of the loop of
-- sema_down after a sleep, and `taken` is before the assignment to `holder`. In lock_release,
-- `releasing` is after that assignment and before sema_up.
pub data Pc : Type 0 where
  outside waiting taken holding releasing : Pc

pub record System : Type 0 where
  pub kernel : Kernel
  pub pc : ℕ → Pc

-- The running thread after a sema_down on the lock's semaphore.
abbrev pub after_down : System → Outcome (Unit {0}) → System
after_down s (done _ k) = record { kernel = k; pc = update s.pc s.kernel.current taken }
after_down s (asleep k) = record { kernel = k; pc = update s.pc s.kernel.current waiting }

-- The idle thread takes no lock, and the scheduler has a thread to run (the idle one, if no other).
pub record CanWait (k : Kernel) : Type 0 where
  pub busy : points_to k.idle_thread k.current ≡ false
  pub internal : k.in_external ≡ false
  pub next : ℕ
  pub next_runs : next_of k ≡ some next

abbrev pub set_holder : Kernel → ℕ → Option ℕ → Kernel
set_holder k l h = record k { holder = update k.holder l h }

-- The thread runs, or is on the run queue.
abbrev pub is_runnable : Kernel → ℕ → Bool
is_runnable k t = (k.current == t) || leb 1 (count t k.ready_list)

-- A step of the running thread in lock_acquire or lock_release on `l`, or anything else that the
-- kernel does and that leaves the lock alone: other operations, preemption, interrupts. None of these
-- makes a thread sleep that is in sema_down of this lock and awake.
pub data Step (l : ℕ) (s u : System) : Type 0 where
  acquire :
      (o : Outcome (Unit {0}))
      → s.pc s.kernel.current ≡ outside
      → CanWait s.kernel
      → sema_down l s.kernel ≡ some o
      → u ≡ after_down s o
      → Step l s u
  retry :
      (old : Bool) (o : Outcome (Unit {0}))
      → s.pc s.kernel.current ≡ waiting
      → CanWait s.kernel
      → s.kernel.interrupts ≡ false
      → sema_down_from old l s.kernel ≡ some o
      → u ≡ after_down s o
      → Step l s u
  own :
      s.pc s.kernel.current ≡ taken
      → u ≡ record {
        kernel = set_holder s.kernel l (some s.kernel.current);
        pc = update s.pc s.kernel.current holding;
      }
      → Step l s u
  disown :
      s.pc s.kernel.current ≡ holding
      → u ≡ record {
        kernel = set_holder s.kernel l none;
        pc = update s.pc s.kernel.current releasing;
      }
      → Step l s u
  release :
      (k : Kernel)
      → s.pc s.kernel.current ≡ releasing
      → sema_up l s.kernel ≡ some k
      → u ≡ record { kernel = k; pc = update s.pc s.kernel.current outside }
      → Step l s u
  other :
      (k : Kernel)
      → IsSound k
      → k.semaphore l ≡ s.kernel.semaphore l
      → k.holder l ≡ s.kernel.holder l
      → ((t : ℕ) → s.pc t ≡ waiting → is_runnable s.kernel t ≡ true → is_runnable k t ≡ true)
      → u ≡ record s { kernel = k }
      → Step l s u

-- All threads start outside, with the lock as lock_init leaves it.
pub record IsInitial (l : ℕ) (s : System) : Type 0 where
  pub sound : IsSound s.kernel
  pub free : (s.kernel.semaphore l).value ≡ 1
  pub nobody_waits : (s.kernel.semaphore l).waiters ≡ []
  pub unheld : s.kernel.holder l ≡ none
  pub all_outside : (t : ℕ) → s.pc t ≡ outside

pub data Reach (l : ℕ) (s : System) : System → Type 0 where
  start : Reach l s s
  later : {t u : System} → Reach l s t → Step l t u → Reach l s u
