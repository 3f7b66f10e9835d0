-- ===== src/Threads/Wake.antt =====
-- thread_unblock, init_thread, thread_tick and thread_by_tid of src/threads/thread.c.
use csed.Common.{
  ℕ, ◌+◌, ◌≤◌, ◌<◌, ◌^◌, ◌≡◌, refl, Bool, true, false, ◌&&◌, ◌||◌, List, [], ◌∷◌, ◌++◌, Option,
  none, some, arith, ◌==◌, leb, if◌then◌else◌, count, count-append, Returns, PanicsIf,
  PanicsIf-intro, not, ltb, update,
}
use csed.Threads.Kernel.{
  ready, blocked, Thread, Kernel, status, has_status, points_to, pri_max, intr_disable,
  intr_set_level, thread_current, thread_unblock, init_thread, thread_tick, find_tid, thread_by_tid,
  new_thread, set_status, is_nested,
}
use csed.Threads.Invariant.{IsValid, is_alive}

abbrev pub woken : Kernel → ℕ → Kernel
woken k t = set_status (record k { ready_list = k.ready_list ++ t ∷ [] }) t ready

abbrev created : Kernel → ℕ → ℕ → Kernel
created k t priority = record k {
  thread = update k.thread t (some (new_thread priority));
  all_list = k.all_list ++ t ∷ [];
}

module _ (k : Kernel) (t : ℕ) where
  pub thread_unblock_eq :
      is_nested k ≡ false → has_status k t blocked ≡ true → thread_unblock t k ≡ some (woken k t)
  unfolding thread_unblock intr_disable intr_set_level
  thread_unblock_eq n b = ground arith

  unblock_panics : (not (has_status k t blocked) || is_nested k) ≡ true → thread_unblock t k ≡ none
  unfolding thread_unblock intr_disable intr_set_level
  unblock_panics b = ground arith

  pub woken-IsValid :
      IsValid k
      → points_to k.idle_thread t ≡ false
      → has_status k t blocked ≡ true
      → IsValid (woken k t)
  woken-IsValid v busy b = record {
    lists = record {
      queued = λ x. ground (arith, v.lists.queued x, count-append x k.ready_list (t ∷ []));
      listed = λ x. ground (arith, v.lists.listed x);
      idle_alive = λ x. ground (arith, v.lists.idle_alive x);
    };
    one_running = λ x. ground (arith, v.one_running x);
  }

  -- thread_unblock of a blocked thread other than the idle one puts it at the end of the run queue
  -- and leaves the running thread and the interrupt level alone. Of any other thread, and in an external
  -- interrupt with interrupts on, it panics.
  pub thread_unblock_lem :
      IsValid k
      → points_to k.idle_thread t ≡ false
      → PanicsIf (not (has_status k t blocked) || is_nested k) (thread_unblock t k) λ k'.
        IsValid k'
        × (k'.ready_list ≡ k.ready_list ++ t ∷ [])
        × (status k' t ≡ some ready)
        × (k'.current ≡ k.current)
        × (k'.interrupts ≡ k.interrupts)
  thread_unblock_lem v busy =
      PanicsIf-intro _ (thread_unblock t k) _ (λ b. unblock_panics b)
        (λ b.
          rw (thread_unblock_eq (ground arith) (ground arith))
            (woken-IsValid v busy (ground arith), refl, ground arith, refl, refl))

  -- init_thread with a page that holds no thread makes a blocked thread there, which is listed and
  -- on no queue, and keeps the scheduler's data consistent. A priority above PRI_MAX is a panic, and
  -- so is a call in an external interrupt with interrupts on.
  pub init_thread_lem :
      (priority : ℕ)
      → IsValid k
      → k.thread t ≡ none
      → PanicsIf (ltb pri_max priority || is_nested k) (init_thread t priority k) λ k'.
        IsValid k'
        × (status k' t ≡ some blocked)
        × (k'.all_list ≡ k.all_list ++ t ∷ [])
        × (k'.ready_list ≡ k.ready_list)
        × (k'.interrupts ≡ k.interrupts)
  unfolding init_thread intr_disable intr_set_level
  init_thread_lem priority v free =
      PanicsIf-intro _ (init_thread t priority k) _ (λ b. ground arith)
        (λ b. rw (run (ground arith) (ground arith)) (
          record {
            lists = record {
              queued = λ x. ground (arith, v.lists.queued x);
              listed = λ x. ground (arith, v.lists.listed x, count-append x k.all_list (t ∷ []));
              idle_alive = λ x. ground (arith, v.lists.idle_alive x);
            };
            one_running = λ x. ground (arith, v.one_running x);
          },
          ground arith,
          refl,
          refl,
          refl,
        ))
    where
      run :
          is_nested k ≡ false
          → priority ≤ pri_max
          → init_thread t priority k ≡ some (created k t priority)
      run n b = ground arith

-- A timer tick counts once, for the idle thread or for a kernel thread, and asks for a yield
-- exactly from the fourth tick of a time slice on. It keeps the run queue, and the scheduler's
-- data consistent.
pub thread_tick_lem :
    (k : Kernel)
    → IsValid k
    → k.in_external ≡ true
    → k.thread_ticks + 1 < 2 ^ 32
    → Returns (thread_tick k) λ k'.
      IsValid k'
      × (k'.thread_ticks ≡ k.thread_ticks + 1)
      × (k'.idle_ticks
          ≡ (if points_to k.idle_thread k.current then k.idle_ticks + 1 else k.idle_ticks))
      × (k'.idle_ticks + k'.kernel_ticks ≡ k.idle_ticks + k.kernel_ticks + 1)
      × (k'.yield_on_return ≡ (leb 3 k.thread_ticks || k.yield_on_return))
      × (k'.ready_list ≡ k.ready_list)
unfolding thread_tick thread_current
thread_tick_lem k v ext small = ground (arith, v.one_running k.current)

-- The tid of a thread.
abbrev pub has_tid : (ℕ → Option Thread) → ℕ → ℕ → Bool
has_tid thread target t = elim (thread t) [ none ↦ false | some th ↦ th.tid == target ]

find_tid_sound :
    (thread : ℕ → Option Thread) (target : ℕ) (xs : List ℕ) (t : ℕ)
    → find_tid thread target xs ≡ some t
    → (has_tid thread target t ≡ true) × (1 ≤ count t xs)
unfolding find_tid
find_tid_sound thread target [] t e = absurd (ground arith)
find_tid_sound thread target (x ∷ xs) t e = ground (arith, find_tid_sound thread target xs t)

find_tid_complete :
    (thread : ℕ → Option Thread) (target : ℕ) (xs : List ℕ) (t : ℕ)
    → find_tid thread target xs ≡ none
    → 1 ≤ count t xs
    → has_tid thread target t ≡ false
unfolding find_tid
find_tid_complete thread target [] t e h = absurd (omega arith)
find_tid_complete thread target (x ∷ xs) t e h =
    ground (arith, find_tid_complete thread target xs t)

-- What thread_by_tid should answer.
abbrev pub Found : Kernel → ℕ → Option ℕ → Type 0
Found k target none = (t : ℕ) → (is_alive k t && has_tid k.thread target t) ≡ false
Found k target (some t) = (is_alive k t && has_tid k.thread target t) ≡ true

by_tid-Found :
    (k : Kernel) (target : ℕ) (o : Option ℕ)
    → IsValid k
    → find_tid k.thread target k.all_list ≡ o
    → Found k target o
by_tid-Found k target none v e =
    λ t. ground (arith, v.lists.listed t, find_tid_complete k.thread target k.all_list t)
by_tid-Found k target (some t) v e =
    ground (arith, v.lists.listed t, find_tid_sound k.thread target k.all_list t)

-- thread_by_tid returns a living thread with that tid, and NULL only if no living thread has it.
pub thread_by_tid_lem :
    (k : Kernel) (target : ℕ) → IsValid k → Found k target (thread_by_tid target k)
unfolding thread_by_tid
thread_by_tid_lem k target v = by_tid-Found k target _ v refl
