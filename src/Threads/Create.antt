-- ===== src/Threads/Create.antt =====
-- The part of src/threads/thread.c that starts threads: allocate_tid, thread_create, thread_init,
-- thread_start and the idle thread. Of a new thread's page only `struct thread` is modelled, not the
-- stack frames with the function that it is to run.
use mathlib.Core.Option
use csed.Common.{
  ℕ, ◌+◌, ◌%◌, ◌^◌, true, false, not, [], Option, none, some, ◌>>=◌, ◌>>◌, check, update,
}
use csed.Threads.Kernel.{
  running, Thread, Kernel, set_status, intr_disable, thread_current, thread_block, thread_unblock,
  init_thread,
}
use csed.Threads.Synch.{
  Outcome, done, and_then, sema_init, sema_down, sema_up, lock_init, lock_acquire, lock_release,
}

-- The address of `tid_lock`.
abbrev pub tid_lock : ℕ
tid_lock = 0

-- `next_tid++` under the lock, in the 32 bits of an int.
abbrev pub take_tid : Kernel → Option (Outcome ℕ)
take_tid k = do
  k' ← lock_release tid_lock (record k { next_tid = (k.next_tid + 1) % 2 ^ 32 })
  some (done k.next_tid k')

unfoldable pub allocate_tid : Kernel → Option (Outcome ℕ)
unfolding lock_acquire
allocate_tid k = and_then (lock_acquire tid_lock k) (λ _ k'. take_tid k')

abbrev pub with_tid : ℕ → Thread → Thread
with_tid tid th = record th { tid = tid }

abbrev pub set_tid : ℕ → ℕ → Kernel → Kernel
set_tid t tid k = record k { thread = update k.thread t (Option.map (with_tid tid) (k.thread t)) }

-- `page` is the answer of palloc_get_page; TID_ERROR is `none`.
unfoldable pub thread_create : Option ℕ → ℕ → Kernel → Option (Outcome (Option ℕ))
unfolding init_thread allocate_tid thread_unblock
thread_create page priority k = elim page [
  | none ↦ some (done none k)
  | some t ↦ init_thread t priority k >>= λ k'.
      and_then (allocate_tid k')
        (λ tid k''. do k₁ ← thread_unblock t (set_tid t tid k''); some (done (some tid) k₁))
]

abbrev pub pri_default : ℕ
pri_default = 31

-- The static data of the kernel, and the loader's stack in the page `main`.
abbrev pub loaded : ℕ → Kernel
loaded main = record {
  thread = λ _. none;
  current = main;
  ready_list = [];
  all_list = [];
  idle_thread = none;
  initial_thread = 0;
  next_tid = 1;
  thread_ticks = 0;
  idle_ticks = 0;
  kernel_ticks = 0;
  interrupts = false;
  in_external = false;
  yield_on_return = false;
  semaphore = λ _. record { value = 0; waiters = [] };
  holder = λ _. none;
  condition = λ _. [];
}

unfoldable pub thread_init : Kernel → Option (Outcome (Unit {0}))
unfolding lock_init init_thread allocate_tid
thread_init k = do
  check (not k.interrupts)
  let k₁ = record (lock_init tid_lock k) {
    ready_list = [];
    all_list = [];
    initial_thread = k.current;
  }
  k₂ ← init_thread k₁.initial_thread pri_default k₁
  and_then (allocate_tid (set_status k₂ k₂.initial_thread running))
      (λ tid k₃. some (done tt (set_tid k₃.initial_thread tid k₃)))

-- thread_start up to the wait for the idle thread; `started` is the address of `idle_started`.
unfoldable pub thread_start : ℕ → Option ℕ → Kernel → Option (Outcome (Unit {0}))
unfolding sema_init thread_create sema_down
thread_start started page k =
    and_then (thread_create page 0 (sema_init started 0 k))
      (λ _ k'. sema_down started (record k' { interrupts = true }))

-- The idle thread up to its loop, and a round of the loop up to the block.
unfoldable pub idle_begin : ℕ → Kernel → Option Kernel
unfolding thread_current sema_up
idle_begin started k = do
  cur ← thread_current k
  sema_up started (record k { idle_thread = some cur })

unfoldable pub idle_round : Kernel → Option Kernel
unfolding intr_disable thread_block
idle_round k = let (_, k') = intr_disable k in thread_block k'
