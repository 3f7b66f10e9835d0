-- ===== src/Threads/Semaphores.antt =====
-- sema_down and sema_try_down of src/threads/synch.c.
use csed.Common.{
  ℕ, ◌+◌, ◌-◌, ◌<◌, ◌≡◌, refl, Bool, true, false, not, [], ◌∷◌, ◌++◌, some, arith, if◌then◌else◌,
  Returns, PanicsIf, PanicsIf-intro, ◌>>=◌, Bool-cases, ltb, inl, inr, ap, check,
}
use csed.Threads.Kernel.{Kernel, points_to, thread_current, intr_disable, intr_set_level, is_nested}
use csed.Threads.Invariant.{next_of, rest_of}
use csed.Threads.Switch.{thread_block_eq}
use csed.Threads.Waiting.{IsSound, enqueued, enqueued-IsValid, slept, slept-IsSound}
use csed.Threads.Synch.{
  Outcome, done, asleep, put_semaphore, sema_down_from, sema_down, sema_try_down,
}

abbrev pub at_level : Bool → Kernel → Kernel
at_level b k = record k { interrupts = b }

-- The interrupt level is no matter of the invariant, nor is the value of a semaphore.
pub at_level-IsSound : (b : Bool) (k : Kernel) → IsSound k → IsSound (at_level b k)
at_level-IsSound b k v = record {
  valid = record {
    lists = record {
      queued = v.valid.lists.queued;
      listed = v.valid.lists.listed;
      idle_alive = v.valid.lists.idle_alive;
    };
    one_running = v.valid.one_running;
  };
  waiting = record {
    waiters_blocked = v.waiting.waiters_blocked;
    waits_once = v.waiting.waits_once;
    one_place = v.waiting.one_place;
  };
}

abbrev pub put_value : Kernel → ℕ → ℕ → Kernel
put_value k s n = put_semaphore k s (record (k.semaphore s) { value = n })

pub put_value_waiters :
    (k : Kernel) (s n x : ℕ) → ((put_value k s n).semaphore x).waiters ≡ (k.semaphore x).waiters
put_value_waiters k s n x = ground arith

pub put_value-IsSound : (k : Kernel) (s n : ℕ) → IsSound k → IsSound (put_value k s n)
put_value-IsSound k s n v = record {
  valid = record {
    lists = record {
      queued = v.valid.lists.queued;
      listed = v.valid.lists.listed;
      idle_alive = v.valid.lists.idle_alive;
    };
    one_running = v.valid.one_running;
  };
  waiting = record {
    waiters_blocked = λ x t h. v.waiting.waiters_blocked x t (rw (put_value_waiters k s n x) at h);
    waits_once = λ x t. rw (put_value_waiters k s n x) (v.waiting.waits_once x t);
    one_place = λ x y t h g.
        v.waiting.one_place x y t (rw (put_value_waiters k s n x) at h)
          (rw (put_value_waiters k s n y) at g);
  };
}

-- What sema_down on `s` promises: the value fell by one and nothing else changed, or the value was
-- zero and the caller waits at the end of the list while another thread runs.
abbrev pub Down : Bool → Kernel → ℕ → ℕ → Outcome (Unit {0}) → Type 0
Down old k s next (done _ k') =
    IsSound k'
    × ((k.semaphore s).value ≡ (k'.semaphore s).value + 1)
    × ((k'.semaphore s).waiters ≡ (k.semaphore s).waiters)
    × (k'.current ≡ k.current)
    × (k'.ready_list ≡ k.ready_list)
    × (k'.interrupts ≡ old)
    × ((x : ℕ) → k'.holder x ≡ k.holder x)
    × (k'.in_external ≡ k.in_external)
Down old k s next (asleep k') =
    IsSound k'
    × ((k.semaphore s).value ≡ 0)
    × ((k'.semaphore s).value ≡ 0)
    × ((k'.semaphore s).waiters ≡ (k.semaphore s).waiters ++ k.current ∷ [])
    × (k'.current ≡ next)
    × (k'.ready_list ≡ rest_of k.ready_list)
    × (k'.interrupts ≡ false)
    × ((x : ℕ) → k'.holder x ≡ k.holder x)

module _ (k : Kernel) (s next : ℕ) (v : IsSound k) (internal : k.in_external ≡ false)
    (busy : points_to k.idle_thread k.current ≡ false) (e : next_of k ≡ some next) where
  down_asleep :
      (old : Bool)
      → k.interrupts ≡ false
      → (k.semaphore s).value ≡ 0
      → sema_down_from old s k ≡ some (asleep (slept k s next))
  unfolding sema_down_from thread_current
  down_asleep old off z = ground (
    arith,
    v.valid.one_running k.current,
    thread_block_eq (enqueued k s) next (enqueued-IsValid k s next v off e) off internal e,
  )

  down_done :
      (old : Bool)
      → 0 < (k.semaphore s).value
      → sema_down_from old s k
        ≡ some (done tt (at_level old (put_value k s ((k.semaphore s).value - 1))))
  unfolding sema_down_from intr_set_level
  down_done old p = ground (arith, internal)

  -- The loop of sema_down, at its test, with interrupts off.
  pub sema_down_from_lem :
      (old : Bool) → k.interrupts ≡ false → Returns (sema_down_from old s k) (Down old k s next)
  sema_down_from_lem old off = elim (Bool-cases (ltb 0 (k.semaphore s).value)) [
    | inl p ↦ rw (down_done old (ground arith)) (
      at_level-IsSound old _ (put_value-IsSound k s _ v),
      ground arith,
      ground arith,
      refl,
      refl,
      refl,
      λ x. refl,
      refl,
    )
    | inr z ↦ rw (down_asleep old off (ground arith)) (
      slept-IsSound k s next v off e busy,
      ground arith,
      ground arith,
      ground arith,
      ground arith,
      ground arith,
      ground arith,
      λ x. ground arith,
    )
  ]

sema_down_eq :
    (k : Kernel) (s : ℕ)
    → k.in_external ≡ false
    → sema_down s k ≡ sema_down_from k.interrupts s (at_level false k)
unfolding sema_down intr_disable
sema_down_eq k s internal =
    ap (λ b. check (not b) >>= λ _. sema_down_from k.interrupts s (at_level false k)) internal

-- sema_down by a thread other than the idle one, outside an external interrupt, returns or goes to
-- sleep, as the value says, and keeps the threads' data sound. It never panics while the scheduler has a thread to run.
pub sema_down_lem :
    (k : Kernel) (s next : ℕ)
    → IsSound k
    → k.in_external ≡ false
    → points_to k.idle_thread k.current ≡ false
    → next_of k ≡ some next
    → Returns (sema_down s k) (Down k.interrupts k s next)
sema_down_lem k s next v internal busy e = rw (sema_down_eq k s internal) (
    sema_down_from_lem (at_level false k) s next (at_level-IsSound false k v) internal busy e
      k.interrupts refl)

-- What sema_try_down promises.
abbrev pub TriedDown : Kernel → ℕ → Bool × Kernel → Type 0
TriedDown k s (taken, k') =
    IsSound k'
    × ((k.semaphore s).value ≡ (k'.semaphore s).value + (if taken then 1 else 0))
    × (taken ≡ ltb 0 (k.semaphore s).value)
    × ((k'.semaphore s).waiters ≡ (k.semaphore s).waiters)
    × (k'.current ≡ k.current)
    × (k'.interrupts ≡ k.interrupts)
    × ((x : ℕ) → k'.holder x ≡ k.holder x)

-- sema_try_down takes one from a positive value and answers true, or answers false; the wait list,
-- the running thread and the interrupt level stay. It panics exactly in an external interrupt with
-- interrupts on.
pub sema_try_down_lem :
    (k : Kernel) (s : ℕ) → IsSound k → PanicsIf (is_nested k) (sema_try_down s k) (TriedDown k s)
unfolding sema_try_down intr_disable intr_set_level
sema_try_down_lem k s v =
    PanicsIf-intro _ (sema_try_down s k) _ (λ b. ground arith)
      λ b. elim (Bool-cases (ltb 0 (k.semaphore s).value)) [
        | inl p ↦ rw (run b p) (
          put_value-IsSound k s _ v,
          ground arith,
          ground arith,
          ground arith,
          refl,
          refl,
          λ x. refl,
        )
        | inr z ↦ rw (stay b z) (v, ground arith, ground arith, refl, refl, refl, λ x. refl)
      ]
  where
    run :
        is_nested k ≡ false
        → ltb 0 (k.semaphore s).value ≡ true
        → sema_try_down s k ≡ some (true, put_value k s ((k.semaphore s).value - 1))
    run b p = ground arith

    stay :
        is_nested k ≡ false
        → ltb 0 (k.semaphore s).value ≡ false
        → sema_try_down s k ≡ some (false, k)
    stay b z = ground arith
