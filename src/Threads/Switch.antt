-- ===== src/Threads/Switch.antt =====
-- thread_block, thread_yield and thread_exit of src/threads/thread.c.
use csed.Common.{
  ℕ, ◌≡◌, ◌≢◌, false, List, [], ◌∷◌, ◌++◌, none, some, arith, ◌==◌, if◌then◌else◌, count,
  count-append, Returns,
}
use csed.Threads.Kernel.{
  running, ready, blocked, dying, Kernel, status, points_to, set_status, list_remove,
  thread_current, intr_disable, thread_block, thread_yield, thread_exit,
}
use csed.Threads.Invariant.{
  IsValid, IsSwitching, next_of, rest_of, scheduled, next_alive, schedule_lem, scheduled-IsValid,
}

abbrev pub blocking : Kernel → Kernel
blocking k = set_status k k.current blocked

abbrev yielding : Kernel → Kernel
yielding k =
    set_status
      (if points_to k.idle_thread k.current
        then record k { interrupts = false }
        else record k { interrupts = false; ready_list = k.ready_list ++ k.current ∷ [] })
      k.current ready

abbrev exiting : Kernel → Kernel
unfolding list_remove
exiting k =
    set_status (record k { interrupts = false; all_list = list_remove k.current k.all_list })
      k.current dying

count-list_remove :
    (a b : ℕ) (xs : List ℕ)
    → count b xs ≡ 1
    → count a (list_remove b xs) ≡ (if b == a then 0 else count a xs)
unfolding list_remove
count-list_remove a b [] h = absurd (omega arith)
count-list_remove a b (x ∷ xs) h = ground (arith, count-list_remove a b xs)

module _ (k : Kernel) (v : IsValid k) where
  pub blocking-IsSwitching : k.interrupts ≡ false → IsSwitching (blocking k)
  blocking-IsSwitching off = record {
    lists = record {
      queued = λ t. ground (arith, v.lists.queued t, v.one_running t, v.one_running k.current);
      listed = λ t. ground (arith, v.lists.listed t, v.one_running t, v.one_running k.current);
      idle_alive =
          λ t. ground (arith, v.lists.idle_alive t, v.one_running t, v.one_running k.current);
    };
    none_running = λ t. ground (arith, v.one_running t, v.one_running k.current);
    off = off;
  }

  yielding-IsSwitching : IsSwitching (yielding k)
  yielding-IsSwitching = record {
    lists = record {
      queued = λ t. ground (
        arith,
        v.lists.queued t,
        v.one_running t,
        v.one_running k.current,
        count-append t k.ready_list (k.current ∷ []),
      );
      listed = λ t. ground (arith, v.lists.listed t, v.one_running t, v.one_running k.current);
      idle_alive =
          λ t. ground (arith, v.lists.idle_alive t, v.one_running t, v.one_running k.current);
    };
    none_running = λ t. ground (arith, v.one_running t, v.one_running k.current);
    off = ground arith;
  }

  exiting-IsSwitching : points_to k.idle_thread k.current ≡ false → IsSwitching (exiting k)
  unfolding list_remove
  exiting-IsSwitching busy = record {
    lists = record {
      queued = λ t. ground (arith, v.lists.queued t, v.one_running t, v.one_running k.current);
      listed = λ t. ground (
        arith,
        v.lists.listed t,
        v.lists.listed k.current,
        v.one_running t,
        v.one_running k.current,
        count-list_remove t k.current k.all_list,
      );
      idle_alive =
          λ t. ground (arith, v.lists.idle_alive t, v.one_running t, v.one_running k.current);
    };
    none_running = λ t. ground (arith, v.one_running t, v.one_running k.current);
    off = ground arith;
  }

abbrev front : List ℕ → ℕ → ℕ
front [] t = t
front (x ∷ xs) t = x

-- What a thread that gives up the processor leaves behind.
pub record Switched (k : Kernel) (next : ℕ) (k' : Kernel) : Type 0 where
  pub valid : IsValid k'
  pub runs : k'.current ≡ next
  pub others : (t : ℕ) → t ≢ k.current → t ≢ next → k'.thread t ≡ k.thread t

module _ (k : Kernel) (next : ℕ) (v : IsValid k) where
  pub thread_block_eq :
      k.interrupts ≡ false
      → k.in_external ≡ false
      → next_of k ≡ some next
      → thread_block k ≡ some (scheduled (blocking k) next)
  unfolding thread_block thread_current
  thread_block_eq off internal e = ground (
    arith,
    v.one_running k.current,
    schedule_lem (blocking k) next (blocking-IsSwitching k v off) e,
  )

  -- thread_block runs the oldest ready thread, or the idle thread when none is ready. The caller is
  -- blocked, unless it is the one to run, no other thread is touched, and the scheduler's data stay consistent.
  pub thread_block_lem :
      k.interrupts ≡ false
      → k.in_external ≡ false
      → next_of k ≡ some next
      → Returns (thread_block k) λ k'.
        Switched k next k'
        × (k'.ready_list ≡ rest_of k.ready_list)
        × (status k' k.current ≡ some (if k.current == next then running else blocked))
  thread_block_lem off internal e = rw (thread_block_eq off internal e) (
    record {
      valid = scheduled-IsValid (blocking k) next sw e;
      runs = ground arith;
      others = λ t h g. ground arith;
    },
    ground arith,
    ground (arith, v.one_running k.current),
  )
    where
      sw : IsSwitching (blocking k)
      sw = blocking-IsSwitching k v off

  -- thread_exit takes the thread off `all_list` and runs the next one, which frees the page of the
  -- thread that exits, unless it is the initial thread.
  pub thread_exit_lem :
      k.in_external ≡ false
      → points_to k.idle_thread k.current ≡ false
      → next_of k ≡ some next
      → Returns (thread_exit k) λ k'.
        Switched k next k'
        × (k'.ready_list ≡ rest_of k.ready_list)
        × (count k.current k'.all_list ≡ 0)
        × (status k' k.current ≡ (if k.current == k.initial_thread then some dying else none))
  unfolding thread_exit thread_current intr_disable list_remove
  thread_exit_lem internal busy e = rw run (
    record {
      valid = scheduled-IsValid (exiting k) next sw e;
      runs = ground arith;
      others = λ t h g. ground arith;
    },
    ground arith,
    ground (arith, gone),
    ground (arith, v.one_running k.current, next_alive (exiting k) next sw e),
  )
    where
      sw : IsSwitching (exiting k)
      sw = exiting-IsSwitching k v busy

      run : thread_exit k ≡ some (scheduled (exiting k) next)
      run = ground (arith, v.one_running k.current, schedule_lem (exiting k) next sw e)

      gone : count k.current (list_remove k.current k.all_list) ≡ 0
      gone = ground (
        arith,
        count-list_remove k.current k.current k.all_list,
        v.lists.listed k.current,
        v.one_running k.current,
      )

module _ (k : Kernel) (v : IsValid k) where
  -- thread_yield by a thread other than the idle one turns the run queue by one place: the thread
  -- joins at the end, and the one at the front runs.
  pub thread_yield_lem :
      k.in_external ≡ false
      → points_to k.idle_thread k.current ≡ false
      → Returns (thread_yield k) λ k'.
        IsValid k'
        × (k'.current ∷ k'.ready_list ≡ k.ready_list ++ k.current ∷ [])
        × (k'.idle_thread ≡ k.idle_thread)
        × (k'.in_external ≡ false)
  unfolding thread_yield thread_current intr_disable
  thread_yield_lem internal busy =
      rw run (scheduled-IsValid (yielding k) next sw e, ground arith, ground arith, ground arith)
    where
      next : ℕ
      next = front k.ready_list k.current

      e : next_of (yielding k) ≡ some next
      e = ground arith

      sw : IsSwitching (yielding k)
      sw = yielding-IsSwitching k v

      run : thread_yield k ≡ some (scheduled (yielding k) next)
      run = ground (arith, v.one_running k.current, schedule_lem (yielding k) next sw e)
