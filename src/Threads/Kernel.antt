-- ===== src/Threads/Kernel.antt =====
-- src/threads/thread.h and src/threads/thread.c in the configuration of src/threads/Make.vars, in which USERPROG
-- and VM are not defined. A pointer is its address, a number; NULL is `none`.
use mathlib.Core.Option
use csed.Common.{
  ℕ, ◌+◌, ◌%◌, ◌^◌, Bool, true, false, not, ◌&&◌, List, [], ◌∷◌, ◌++◌, Option, none, some, ◌==◌,
  leb, if◌then◌else◌, ◌>>=◌, ◌>>◌, check, update,
}

-- `enum thread_status`
pub data Status : Type 0 where
  running ready blocked dying : Status

abbrev pub same : Status → Status → Bool
same running running = true
same ready ready = true
same blocked blocked = true
same dying dying = true
same _ _ = false

-- `struct thread`: the members that the scheduler and the timer read. The list elements are the
-- places in the lists of `Kernel`; that the record is there stands for `magic`.
pub record Thread : Type 0 where
  pub tid : ℕ
  pub status : Status
  pub priority : ℕ
  pub tick_to_wake : ℕ

-- `struct semaphore`
pub record Semaphore : Type 0 where
  pub value : ℕ
  pub waiters : List ℕ

-- The state of the kernel: `thread p` is the `struct thread` at page `p`, `current` is the page that
-- the stack pointer is in. A lock is its holder, and the semaphore at the same address. A condition is
-- the list of its waiters' semaphores.
pub record Kernel : Type 0 where
  pub thread : ℕ → Option Thread
  pub current : ℕ
  pub ready_list : List ℕ
  pub all_list : List ℕ
  pub idle_thread : Option ℕ
  pub initial_thread : ℕ
  pub next_tid : ℕ
  pub thread_ticks : ℕ
  pub idle_ticks : ℕ
  pub kernel_ticks : ℕ
  pub interrupts : Bool
  pub in_external : Bool
  pub yield_on_return : Bool
  pub semaphore : ℕ → Semaphore
  pub holder : ℕ → Option ℕ
  pub condition : ℕ → List ℕ

abbrev pub status : Kernel → ℕ → Option Status
status k t = Option.map (λ th. th.status) (k.thread t)

abbrev pub has_status : Kernel → ℕ → Status → Bool
has_status k t s = elim (k.thread t) [ none ↦ false | some th ↦ same th.status s ]

abbrev pub with_status : Status → Thread → Thread
with_status s th = record th { status = s }

abbrev pub set_status : Kernel → ℕ → Status → Kernel
set_status k t s = record k { thread = update k.thread t (Option.map (with_status s) (k.thread t)) }

abbrev pub is_thread : Kernel → ℕ → Bool
is_thread k t = elim (k.thread t) [ none ↦ false | some _ ↦ true ]

abbrev pub points_to : Option ℕ → ℕ → Bool
points_to none t = false
points_to (some p) t = p == t

abbrev pub pri_min : ℕ
pri_min = 0

abbrev pub pri_max : ℕ
pri_max = 63

abbrev pub time_slice : ℕ
time_slice = 4

unfoldable pub intr_disable : Kernel → Bool × Kernel
intr_disable k = (k.interrupts, record k { interrupts = false })

-- intr_enable asserts that no external interrupt is handled.
unfoldable pub intr_set_level : Bool → Kernel → Option Kernel
intr_set_level level k = do
  check (not (level && k.in_external))
  some (record k { interrupts = level })

-- In an external interrupt, and with interrupts on.
abbrev pub is_nested : Kernel → Bool
is_nested k = k.interrupts && k.in_external

unfoldable pub thread_current : Kernel → Option ℕ
thread_current k = do
  check (is_thread k k.current && has_status k k.current running)
  some k.current

-- The thread that runs next, and the kernel with it taken off the run queue.
unfoldable pub next_thread_to_run : Kernel → Option (ℕ × Kernel)
next_thread_to_run k = elim k.ready_list [
  | [] ↦ Option.map (λ t. (t, k)) k.idle_thread
  | t ∷ rest ↦ some (t, record k { ready_list = rest })
]

unfoldable pub thread_schedule_tail : Option ℕ → Kernel → Option Kernel
thread_schedule_tail prev k = do
  check (not k.interrupts)
  let k' = record (set_status k k.current running) { thread_ticks = 0 }
  elim prev [
    | none ↦ some k'
    | some p ↦
        if has_status k' p dying && not (p == k'.initial_thread)
        then (do
          check (not (p == k'.current))
          some (record k' { thread = update k'.thread p none }))
        else some k'
  ]

unfoldable pub schedule : Kernel → Option Kernel
unfolding next_thread_to_run thread_schedule_tail
schedule k = do
  (next, k') ← next_thread_to_run k
  check (not k'.interrupts)
  check (not (has_status k' k'.current running))
  check (is_thread k' next)
  if k'.current == next
      then thread_schedule_tail none k'
      else thread_schedule_tail (some k'.current) (record k' { current = next })

unfoldable pub thread_block : Kernel → Option Kernel
unfolding thread_current schedule
thread_block k = do
  check (not k.in_external)
  check (not k.interrupts)
  cur ← thread_current k
  schedule (set_status k cur blocked)

unfoldable pub thread_unblock : ℕ → Kernel → Option Kernel
unfolding intr_disable intr_set_level
thread_unblock t k = do
  check (is_thread k t)
  let (old, k') = intr_disable k
  check (has_status k' t blocked)
  intr_set_level old (set_status (record k' { ready_list = k'.ready_list ++ t ∷ [] }) t ready)

-- The kernel as the thread that runs next finds it: `intr_set_level` is run by the caller, once it
-- is scheduled again.
unfoldable pub thread_yield : Kernel → Option Kernel
unfolding thread_current intr_disable schedule
thread_yield k = do
  cur ← thread_current k
  check (not k.in_external)
  let (old, k') = intr_disable k
  schedule (
      set_status
        (if points_to k'.idle_thread cur
          then k'
          else record k' { ready_list = k'.ready_list ++ cur ∷ [] })
        cur ready)

-- `list_remove` of a thread's element: its first place in the list goes.
unfoldable pub list_remove : ℕ → List ℕ → List ℕ
list_remove t [] = []
list_remove t (x ∷ xs) = if x == t then xs else x ∷ list_remove t xs

unfoldable pub thread_exit : Kernel → Option Kernel
unfolding intr_disable thread_current list_remove schedule
thread_exit k = do
  check (not k.in_external)
  let (_, k') = intr_disable k
  cur ← thread_current k'
  schedule (set_status (record k' { all_list = list_remove cur k'.all_list }) cur dying)

-- The timer interrupt's part: the statistics, and the end of a time slice.
unfoldable pub thread_tick : Kernel → Option Kernel
unfolding thread_current
thread_tick k = do
  t ← thread_current k
  let counted =
      (if points_to k.idle_thread t
        then record k { idle_ticks = k.idle_ticks + 1 }
        else record k { kernel_ticks = k.kernel_ticks + 1 })
  let spent = (counted.thread_ticks + 1) % 2 ^ 32
  if leb time_slice spent
      then (do
        check counted.in_external
        some (record counted { thread_ticks = spent; yield_on_return = true }))
      else some (record counted { thread_ticks = spent })

abbrev pub new_thread : ℕ → Thread
new_thread priority = record { tid = 0; status = blocked; priority = priority; tick_to_wake = 0 }

-- A negative `priority` is no number here; it fails the same assertion.
unfoldable pub init_thread : ℕ → ℕ → Kernel → Option Kernel
unfolding intr_disable intr_set_level
init_thread t priority k = do
  check (leb pri_min priority && leb priority pri_max)
  let k' = record k { thread = update k.thread t (some (new_thread priority)) }
  let (old, k'') = intr_disable k'
  intr_set_level old (record k'' { all_list = k''.all_list ++ t ∷ [] })

-- The first thread of `all_list` with the given identifier.
unfoldable pub find_tid : (ℕ → Option Thread) → ℕ → List ℕ → Option ℕ
find_tid thread target [] = none
find_tid thread target (t ∷ rest) =
    let later = find_tid thread target rest in
    elim (thread t) [ none ↦ later | some th ↦ if th.tid == target then some t else later ]

unfoldable pub thread_by_tid : ℕ → Kernel → Option ℕ
unfolding find_tid
thread_by_tid target k = find_tid k.thread target k.all_list
