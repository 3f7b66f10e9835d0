-- ===== src/Timer/Sleep.antt =====
-- timer_sleep of src/devices/timer.c.
use mathlib.Core.List.{Perm}
use csed.Common.{
  ℕ, ◌+◌, ◌≤◌, ◌≡◌, ◌≢◌, refl, true, false, List, [], ◌∷◌, ◌++◌, ap, fun_ext, ◌∙◌, some, arith,
  ◌==◌, if◌then◌else◌, count, count-append, count-Perm, Returns,
}
use csed.Order.{is_sorted, list_sort}
use csed.Order.Sort.{list_sort_lem}
use csed.Threads.Kernel.{blocked, Kernel, has_status, points_to, intr_disable, thread_current}
use csed.Threads.Invariant.{IsValid, next_of, scheduled, scheduled-IsValid}
use csed.Threads.Switch.{blocking, blocking-IsSwitching, thread_block_eq}
use csed.Timer.{Timer, tick_to_wake, compare_wake_time, set_tick, timer_sleep}
use csed.Timer.Wake.{AreAsleep, timer_ticks_eq}

-- The kernel with the running thread's wake-up time set and interrupts off.
abbrev dozing : Kernel → ℕ → Kernel
dozing k tick = set_tick k.current tick (record k { interrupts = false })

dozing-IsValid : (k : Kernel) (tick : ℕ) → IsValid k → IsValid (dozing k tick)
dozing-IsValid k tick v = record {
  lists = record {
    queued = λ t. ground (arith, v.lists.queued t);
    listed = λ t. ground (arith, v.lists.listed t);
    idle_alive = λ t. ground (arith, v.lists.idle_alive t);
  };
  one_running = λ t. ground (arith, v.one_running t);
}

-- The thread that runs next is awake.
next_awake :
    (k : Kernel) (l : List ℕ) (next : ℕ)
    → IsValid k
    → AreAsleep k l
    → next_of k ≡ some next
    → count next l ≡ 0
next_awake k l next v a e =
    elim k.ready_list as (λ r. k.ready_list ≡ r → count next l ≡ 0) [
      | [] ↦ λ q. ground (arith, a.asleep_blocked next)
      | t ∷ r ↦ λ q. ground (arith, a.asleep_blocked next, v.lists.queued next)
    ]
      refl

-- The switch keeps the wake-up times.
switch_tick :
    (k : Kernel) (next t : ℕ)
    → IsValid k
    → tick_to_wake (scheduled (blocking k) next) t ≡ tick_to_wake k t
switch_tick k next t v = ground (arith, v.one_running k.current)

-- A thread that is not the idle thread is not the next to run while it runs.
next_other :
    (k : Kernel) (next : ℕ)
    → IsValid k
    → points_to k.idle_thread k.current ≡ false
    → next_of k ≡ some next
    → next ≢ k.current
next_other k next v busy e =
    elim k.ready_list as (λ r. k.ready_list ≡ r → next ≢ k.current) [
      | [] ↦ λ q p. ground arith
      | t ∷ r ↦ λ q p. ground (arith, v.lists.queued next, v.one_running next)
    ]
      refl

-- Where the switch leaves the status of a thread that does not run next.
switch_status :
    (k : Kernel) (tick next t : ℕ)
    → IsValid k
    → next ≢ t
    → has_status (scheduled (blocking (dozing k tick)) next) t blocked
      ≡ (if k.current == t then true else has_status k t blocked)
switch_status k tick next t v h = ground (arith, v.one_running k.current)

dozing-AreAsleep :
    (k : Kernel) (tick next : ℕ) (l out : List ℕ)
    → IsValid k
    → AreAsleep k l
    → points_to k.idle_thread k.current ≡ false
    → next_of k ≡ some next
    → Perm out (l ++ k.current ∷ [])
    → AreAsleep (scheduled (blocking (dozing k tick)) next) out
dozing-AreAsleep k tick next l out v a busy e p = record {
  asleep_blocked = λ t h. (sleeps t (places t) h, ground (arith, places t, a.asleep_blocked t));
  once = λ t. ground (arith, places t, a.once t, a.asleep_blocked t, v.one_running t);
}
  where
    places : (t : ℕ) → count t out ≡ count t l + (if k.current == t then 1 else 0)
    places t = ground (arith, count-Perm t p, count-append t l (k.current ∷ []))

    sleeps :
        (t : ℕ)
        → count t out ≡ count t l + (if k.current == t then 1 else 0)
        → 1 ≤ count t out
        → has_status (scheduled (blocking (dozing k tick)) next) t blocked ≡ true
    sleeps t q h =
        rw
          (switch_status k tick next t v
            λ n. absurd (ground (arith, n, next_awake k l next v a e, next_other k next v busy e)))
          (ground (arith, a.asleep_blocked t))

current_thread :
    (k : Kernel) → IsValid k → thread_current (record k { interrupts = false }) ≡ some k.current
unfolding thread_current
current_thread k v = ground (arith, v.one_running k.current)

timer_sleep_eq :
    (n : ℕ) (s : Timer) (next : ℕ) (out : List ℕ)
    → IsValid s.kernel
    → s.kernel.interrupts ≡ true
    → s.kernel.in_external ≡ false
    → next_of s.kernel ≡ some next
    → list_sort
        (compare_wake_time (dozing s.kernel (s.ticks + n)))
        (s.sleeping_list ++ s.kernel.current ∷ [])
      ≡ some out
    → timer_sleep n s
      ≡ some (record s {
        kernel = scheduled (blocking (dozing s.kernel (s.ticks + n))) next;
        sleeping_list = out;
      })
unfolding timer_sleep intr_disable
timer_sleep_eq n s next out v on internal e h =
    rw
      (
        timer_ticks_eq s.ticks s.kernel (ground (arith, internal)),
        on,
        current_thread s.kernel v,
        h,
        thread_block_eq (dozing s.kernel (s.ticks + n)) next
            (dozing-IsValid s.kernel (s.ticks + n) v) refl internal e,
      )
      refl

-- timer_sleep puts the caller among the sleeping threads, to be woken `n` ticks from now, with the
-- list in the order of the wake-up times, and runs the next thread. The caller is not the idle
-- thread, interrupts are on, and the threads on the list sleep.
pub timer_sleep_lem :
    (n : ℕ) (s : Timer) (next : ℕ)
    → IsValid s.kernel
    → AreAsleep s.kernel s.sleeping_list
    → s.kernel.interrupts ≡ true
    → s.kernel.in_external ≡ false
    → points_to s.kernel.idle_thread s.kernel.current ≡ false
    → next_of s.kernel ≡ some next
    → Returns (timer_sleep n s) λ s'.
      IsValid s'.kernel
      × (s'.kernel.current ≡ next)
      × AreAsleep s'.kernel s'.sleeping_list
      × (is_sorted (compare_wake_time s'.kernel) s'.sleeping_list ≡ true)
      × Perm s'.sleeping_list (s.sleeping_list ++ s.kernel.current ∷ [])
      × (tick_to_wake s'.kernel s.kernel.current ≡ s.ticks + n)
timer_sleep_lem n s next v a on internal busy e =
    let (out, h, o, p) =
      list_sort_lem (compare_wake_time d) (λ x y. asym x y)
        (s.sleeping_list ++ s.kernel.current ∷ []) in
    rw (timer_sleep_eq n s next out v on internal e h) (
      scheduled-IsValid (blocking d) next (blocking-IsSwitching d dv refl) e,
      ground arith,
      dozing-AreAsleep s.kernel tick next s.sleeping_list out v a busy e p,
      ap (λ f. is_sorted f out)
            (fun_ext λ x. fun_ext λ y. rw (switch_tick d next x dv, switch_tick d next y dv) refl)
          ∙ o,
      p,
      ground (arith, switch_tick d next s.kernel.current dv, v.one_running s.kernel.current),
    )
  where
    tick : ℕ
    tick = s.ticks + n

    d : Kernel
    d = dozing s.kernel tick

    dv : IsValid d
    dv = dozing-IsValid s.kernel tick v

    asym : (x y : ℕ) → compare_wake_time d x y ≡ true → compare_wake_time d y x ≡ false
    asym x y h = ground arith
