-- ===== src/Threads/Sample.antt =====
-- A kernel for src/threads/thread.c with four threads: the tests run on it.
use csed.Common.{ℕ, true, false, [], ◌∷◌, none, some, arith, ◌==◌, if◌then◌else◌}
use csed.Threads.Kernel.{running, ready, blocked, Thread, Kernel}
use csed.Threads.Invariant.{IsValid}
use csed.Threads.Waiting.{IsSound}

abbrev pub th : ℕ → (s : Thread) → Thread
th tid s = record s { tid = tid }

abbrev pub in_state : Thread
in_state = record { tid = 0; status = running; priority = 31; tick_to_wake = 0 }

-- Thread 1 runs, 2 is ready, 3 is the idle thread, and 4 waits for semaphore 9. Lock 5 is free, and
-- lock 6 is held by thread 1.
abbrev pub four : Kernel
four = record {
  thread = λ p.
      if p == 1
      then some (th 1 in_state)
      else if p == 2
      then some (th 2 (record in_state { status = ready }))
      else if p == 3
      then some (th 3 (record in_state { status = blocked }))
      else if p == 4
      then some (th 4 (record in_state { status = blocked }))
      else none;
  current = 1;
  ready_list = 2 ∷ [];
  all_list = 1 ∷ 2 ∷ 3 ∷ 4 ∷ [];
  idle_thread = some 3;
  initial_thread = 1;
  next_tid = 5;
  thread_ticks = 3;
  idle_ticks = 7;
  kernel_ticks = 20;
  interrupts = false;
  in_external = false;
  yield_on_return = false;
  semaphore = λ s.
      if s == 9
      then record { value = 0; waiters = 4 ∷ [] }
      else if s == 6
      then record { value = 0; waiters = [] }
      else record { value = 1; waiters = [] };
  holder = λ l. if l == 6 then some 1 else none;
  condition = λ c. if c == 8 then 9 ∷ [] else [];
}

pub four-IsValid : IsValid four
four-IsValid = record {
  lists = record {
    queued = λ t. ground arith;
    listed = λ t. ground arith;
    idle_alive = λ t. ground arith;
  };
  one_running = λ t. ground arith;
}

pub four-IsSound : IsSound four
four-IsSound = record {
  valid = four-IsValid;
  waiting = record {
    waiters_blocked = λ s t. ground arith;
    waits_once = λ s t. ground arith;
    one_place = λ s s' t. ground arith;
  };
}

-- The same with interrupts on, in an external interrupt.
abbrev pub four_external : Kernel
four_external = record four { in_external = true }

pub four_external-IsValid : IsValid four_external
four_external-IsValid = record {
  lists = record {
    queued = λ t. ground arith;
    listed = λ t. ground arith;
    idle_alive = λ t. ground arith;
  };
  one_running = λ t. ground arith;
}
