-- ===== src/Threads/Invariant.antt =====
-- The invariant of the data of src/threads/thread.c: who runs, who is queued, who is listed.
use csed.Common.{
  ℕ, ◌≡◌, refl, Bool, true, false, not, ◌&&◌, List, [], ◌∷◌, Option, none, some, arith, ◌==◌,
  if◌then◌else◌, count, update,
}
use csed.Threads.Kernel.{
  running, ready, dying, Kernel, has_status, is_thread, points_to, set_status, next_thread_to_run,
  thread_schedule_tail, schedule,
}

-- A thread that has a structure and is not dying.
abbrev pub is_alive : Kernel → ℕ → Bool
is_alive k t = is_thread k t && not (has_status k t dying)

-- The run queue holds each ready thread once, the idle thread never; `all_list` holds each thread
-- that lives once.
pub record IsListed (k : Kernel) : Type 0 where
  pub queued :
      (t : ℕ)
      → count t k.ready_list
        ≡ (if points_to k.idle_thread t then 0 else if has_status k t ready then 1 else 0)
  pub listed : (t : ℕ) → count t k.all_list ≡ (if is_alive k t then 1 else 0)
  pub idle_alive : (t : ℕ) → points_to k.idle_thread t ≡ true → is_alive k t ≡ true

pub record IsValid (k : Kernel) : Type 0 where
  pub lists : IsListed k
  pub one_running : (t : ℕ) → has_status k t running ≡ (k.current == t)

-- Between the change of the running thread's status and the switch no thread runs.
pub record IsSwitching (k : Kernel) : Type 0 where
  pub lists : IsListed k
  pub none_running : (t : ℕ) → has_status k t running ≡ false
  pub off : k.interrupts ≡ false

-- The thread that the scheduler should choose: the oldest of the run queue, or the idle thread.
abbrev pub next_of : Kernel → Option ℕ
next_of k = elim k.ready_list [ [] ↦ k.idle_thread | t ∷ _ ↦ some t ]

abbrev pub rest_of : List ℕ → List ℕ
rest_of [] = []
rest_of (t ∷ rest) = rest

abbrev pub after_switch : Kernel → ℕ → Kernel
after_switch k next =
    set_status (record k { ready_list = rest_of k.ready_list; current = next; thread_ticks = 0 })
      next running

-- Only a dying thread that was not there at the start loses its page.
abbrev pub is_reaped : Kernel → ℕ → Bool
is_reaped k next =
    not (k.current == next) && (has_status k k.current dying && not (k.current == k.initial_thread))

abbrev pub scheduled : Kernel → ℕ → Kernel
scheduled k next =
    if is_reaped k next
    then record (after_switch k next) {
      thread = update (after_switch k next).thread k.current none;
    }
    else after_switch k next

module _ (k : Kernel) (next : ℕ) (v : IsSwitching k) (e : next_of k ≡ some next) where
  pub next_alive : is_alive k next ≡ true
  next_alive =
      elim k.ready_list as (λ l. k.ready_list ≡ l → is_alive k next ≡ true) [
        | [] ↦ λ q. ground (arith, v.lists.idle_alive next)
        | t ∷ r ↦ λ q. ground (arith, v.lists.queued t, v.lists.queued next)
      ]
        refl

  pub schedule_lem : schedule k ≡ some (scheduled k next)
  unfolding schedule next_thread_to_run thread_schedule_tail
  schedule_lem = ground (arith, next_alive, v.none_running k.current, v.off)

  scheduled-queued :
      (t : ℕ)
      → count t (scheduled k next).ready_list ≡ (
          if points_to k.idle_thread t
          then 0
          else if has_status (scheduled k next) t ready
          then 1
          else 0)
  scheduled-queued t =
      elim k.ready_list
          as (λ l.
            k.ready_list ≡ l
            → count t (scheduled k next).ready_list ≡ (
                if points_to k.idle_thread t
                then 0
                else if has_status (scheduled k next) t ready
                then 1
                else 0)) [
                  | [] ↦ λ q. ground (arith, v.lists.queued t, next_alive)
                  | x ∷ r ↦ λ q. ground (arith, v.lists.queued t, v.lists.queued next, next_alive)
                ]
        refl

  scheduled-listed :
      (t : ℕ)
      → count t (scheduled k next).all_list ≡ (if is_alive (scheduled k next) t then 1 else 0)
  scheduled-listed t = ground (arith, v.lists.listed t, next_alive)

  scheduled-idle_alive :
      (t : ℕ) → points_to k.idle_thread t ≡ true → is_alive (scheduled k next) t ≡ true
  scheduled-idle_alive t = ground (arith, v.lists.idle_alive t, next_alive)

  scheduled-one_running : (t : ℕ) → has_status (scheduled k next) t running ≡ (next == t)
  scheduled-one_running t = ground (arith, v.none_running t, next_alive)

  -- `schedule` switches to the thread that should run next, and restores the invariant.
  pub scheduled-IsValid : IsValid (scheduled k next)
  scheduled-IsValid = record {
    lists = record {
      queued = λ t. ground (arith, scheduled-queued t);
      listed = scheduled-listed;
      idle_alive = λ t. ground (arith, scheduled-idle_alive t);
    };
    one_running = λ t. ground (arith, scheduled-one_running t);
  }
