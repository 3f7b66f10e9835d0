-- ===== src/Threads/Tests.antt =====
-- The theorems about threads, semaphores and locks at the sample kernel.
use csed.Common.{
  ℕ, ◌+◌, ◌≡◌, refl, ◌⊎◌, true, false, [], ◌∷◌, none, some, arith, ◌==◌, if◌then◌else◌, update,
  Returns, count,
}
use csed.Threads.Kernel.{
  Status, running, ready, blocked, intr_disable, intr_set_level, Kernel, status, points_to,
  schedule, next_thread_to_run, thread_schedule_tail, thread_current, thread_block, thread_yield,
  thread_exit, thread_unblock, init_thread, thread_tick, thread_by_tid,
}
use csed.Threads.Invariant.{IsValid}
use csed.Threads.Switch.{Switched, thread_block_lem, thread_yield_lem, thread_exit_lem}
use csed.Threads.Wake.{
  Found, thread_unblock_lem, init_thread_lem, thread_tick_lem, thread_by_tid_lem,
}
use csed.Threads.Fair.{yields, round_robin}
use csed.Threads.Waiting.{IsSound, slept}
use csed.Threads.Sample.{
  th, in_state, four, four_external, four-IsValid, four_external-IsValid, four-IsSound,
}
use csed.Threads.Semaphores.{Down, TriedDown, sema_down_lem, sema_try_down_lem}
use csed.Threads.Wakeup.{Up, sema_up_lem}
use csed.Threads.Locks.{
  Acquired, IsBack, Released, lock_acquire_lem, lock_release_lem, lock_try_acquire_lem,
  lock_release-lock_acquire,
}
use csed.Threads.Conditions.{cond_broadcast_lem}
use csed.Threads.Synch.{
  done, asleep, sema_down, sema_down_from, sema_up, sema_try_down, lock_acquire, lock_release,
  lock_try_acquire, cond_broadcast,
}
use csed.Threads.System.{
  outside, waiting, is_runnable, System, acquire, other, after_down, IsInitial, Reach, start, later,
}
use csed.Threads.Mutex.{is_critical, is_holding, mutual_exclusion, holder_is_owner, no_lost_wakeup}

thread_block_example : Returns (thread_block four) λ k'.
    Switched four 2 k'
    × (k'.ready_list ≡ [])
    × (status k' 1 ≡ some (if ◌==◌ 1 2 then running else blocked))
thread_block_example = thread_block_lem four 2 four-IsValid refl refl refl

thread_yield_example : Returns (thread_yield four) λ k'.
    IsValid k'
    × (k'.current ∷ k'.ready_list ≡ 2 ∷ 1 ∷ [])
    × (k'.idle_thread ≡ some 3)
    × (k'.in_external ≡ false)
thread_yield_example = thread_yield_lem four four-IsValid refl refl

thread_exit_example : Returns (thread_exit four) λ k'.
    Switched four 2 k'
    × (k'.ready_list ≡ [])
    × (count 1 k'.all_list ≡ 0)
    × (status k' 1 ≡ (if ◌==◌ 1 1 then some Status.dying else none))
thread_exit_example = thread_exit_lem four 2 four-IsValid refl refl refl

thread_unblock_example : Returns (thread_unblock 4 four) λ k'.
    IsValid k'
    × (k'.ready_list ≡ 2 ∷ 4 ∷ [])
    × (status k' 4 ≡ some ready)
    × (k'.current ≡ 1)
    × (k'.interrupts ≡ false)
thread_unblock_example = thread_unblock_lem four 4 four-IsValid refl

init_thread_example : Returns (init_thread 5 20 four) λ k'.
    IsValid k'
    × (status k' 5 ≡ some blocked)
    × (k'.all_list ≡ 1 ∷ 2 ∷ 3 ∷ 4 ∷ 5 ∷ [])
    × (k'.ready_list ≡ 2 ∷ [])
    × (k'.interrupts ≡ false)
init_thread_example = init_thread_lem four 5 20 four-IsValid refl

thread_tick_example : Returns (thread_tick four_external) λ k'.
    IsValid k'
    × (k'.thread_ticks ≡ 4)
    × (k'.idle_ticks ≡ 7)
    × (k'.idle_ticks + k'.kernel_ticks ≡ 28)
    × (k'.yield_on_return ≡ true)
    × (k'.ready_list ≡ 2 ∷ [])
thread_tick_example = thread_tick_lem four_external four_external-IsValid refl (omega arith)

thread_by_tid_example : Found four 2 (thread_by_tid 2 four)
thread_by_tid_example = thread_by_tid_lem four 2 four-IsValid

round_robin_example :
    Returns (yields 1 four) λ k'. (k'.current ≡ 2) × (k'.ready_list ≡ 1 ∷ []) × IsValid k'
round_robin_example = round_robin [] [] 2 four four-IsValid refl refl refl

sema_down_example : Returns (sema_down 9 four) (Down false four 9 2)
sema_down_example = sema_down_lem four 9 2 four-IsSound refl refl refl

sema_try_down_example : Returns (sema_try_down 9 four) (TriedDown four 9)
sema_try_down_example = sema_try_down_lem four 9 four-IsSound

sema_up_example : Returns (sema_up 9 four) (Up four 9)
sema_up_example = sema_up_lem four 9 four-IsSound (omega arith)

lock_acquire_example : Returns (lock_acquire 5 four) (Acquired four 5 2)
lock_acquire_example = lock_acquire_lem 5 2 four four-IsSound refl refl refl

lock_try_acquire_example : lock_try_acquire 6 four ≡ none
lock_try_acquire_example = lock_try_acquire_lem 6 four four-IsSound

lock_release_example : Returns (lock_release 6 four) λ k'.
    (k'.holder 6 ≡ none)
    × ((k'.semaphore 6).value ≡ 1)
    × ((k'.semaphore 6).waiters ≡ [])
    × (k'.ready_list ≡ 2 ∷ [])
    × (k'.current ≡ 1)
    × (k'.interrupts ≡ false)
    × IsSound k'
lock_release_example = lock_release_lem 6 four four-IsSound refl

lock_release-lock_acquire_example :
    Returns (lock_acquire 5 four) (λ o. Released 5 o (IsBack 5 four))
lock_release-lock_acquire_example =
    lock_release-lock_acquire 5 2 four four-IsSound refl refl refl refl refl refl

cond_broadcast_example :
    Returns (cond_broadcast 8 6 four) λ k'. IsSound k' × (k'.condition 8 ≡ []) × (k'.current ≡ 1)
cond_broadcast_example = cond_broadcast_lem 8 6 four four-IsSound refl refl (λ x. ground arith)

-- All threads outside the free lock 5; then thread 1 acquires it.
abbrev before : System
before = record { kernel = four; pc = λ _. outside }

before-IsInitial : IsInitial 5 before
before-IsInitial = record {
  sound = four-IsSound;
  free = refl;
  nobody_waits = refl;
  unheld = refl;
  all_outside = λ t. refl;
}

abbrev entered : System
entered = after_down before (
    done tt
      (record four { semaphore = update four.semaphore 5 (record { value = 0; waiters = [] }) }))

entered-Reach : Reach 5 before entered
unfolding sema_down sema_down_from intr_disable intr_set_level
entered-Reach =
    later start (
      acquire _ refl (record { busy = refl; internal = refl; next = 2; next_runs = refl }) refl
        refl)

mutual_exclusion_example : ◌≡◌ {A = ℕ} 1 1
mutual_exclusion_example = mutual_exclusion 5 before-IsInitial entered-Reach 1 1 refl refl

holder_is_owner_example : points_to (entered.kernel.holder 5) 1 ≡ is_holding (entered.pc 1)
holder_is_owner_example = holder_is_owner 5 before-IsInitial entered-Reach 1

-- Thread 2 is scheduled, and goes to sleep on the lock.
abbrev second : Kernel
second = record entered.kernel {
  thread = λ p.
      if p == 1
      then some (th 1 (record in_state { status = ready }))
      else if p == 2
      then some (th 2 in_state)
      else four.thread p;
  current = 2;
  ready_list = 1 ∷ [];
}

second-IsSound : IsSound second
second-IsSound = record {
  valid = record {
    lists = record {
      queued = λ t. ground arith;
      listed = λ t. ground arith;
      idle_alive = λ t. ground arith;
    };
    one_running = λ t. ground arith;
  };
  waiting = record {
    waiters_blocked = λ s t. ground arith;
    waits_once = λ s t. ground arith;
    one_place = λ s s' t. ground arith;
  };
}

abbrev resumed : System
resumed = record { kernel = second; pc = entered.pc }

abbrev contended : System
contended = after_down resumed (asleep (slept (record second { interrupts = false }) 5 1))

keeps :
    (t : ℕ)
    → entered.pc t ≡ waiting
    → is_runnable entered.kernel t ≡ true
    → is_runnable second t ≡ true
keeps t at on = absurd (ground (arith, at))

contended-Reach : Reach 5 before contended
unfolding sema_down sema_down_from thread_current thread_block schedule next_thread_to_run
    thread_schedule_tail intr_disable
contended-Reach =
    later (later entered-Reach (other second second-IsSound refl refl keeps refl)) (
      acquire _ refl (record { busy = refl; internal = refl; next = 1; next_runs = refl }) refl
        refl)

contended_waiters : (contended.kernel.semaphore 5).waiters ≡ 2 ∷ []
contended_waiters = refl

no_lost_wakeup_example :
    (t : ℕ) × ((is_critical (contended.pc t) ≡ true)
      ⊎ ((contended.pc t ≡ waiting) × (is_runnable contended.kernel t ≡ true)))
no_lost_wakeup_example = no_lost_wakeup 5 before-IsInitial contended-Reach (λ e. cc)
