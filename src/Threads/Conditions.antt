-- ===== src/Threads/Conditions.antt =====
-- cond_signal and cond_broadcast of src/threads/synch.c.
use csed.Common.{
  ℕ, suc, ◌+◌, ◌<◌, ◌^◌, ◌≡◌, refl, true, false, List, [], ◌∷◌, ◌++◌, arith, update, Returns,
  Returns-mono, Returns-bind, length,
}
use csed.Threads.Kernel.{Kernel, points_to}
use csed.Threads.Waiting.{IsSound}
use csed.Threads.Wakeup.{Up, sema_up_returns, oldest}
use csed.Threads.Locks.{held_eq}
use csed.Threads.Synch.{sema_up, cond_signal, broadcast_loop, cond_broadcast}

abbrev pub set_condition : Kernel → ℕ → List ℕ → Kernel
set_condition k c ws = record k { condition = update k.condition c ws }

condition-IsSound : (c : ℕ) (ws : List ℕ) (k : Kernel) → IsSound k → IsSound (set_condition k c ws)
condition-IsSound c ws k v = record {
  valid = record {
    lists = record {
      queued = v.valid.lists.queued;
      listed = v.valid.lists.listed;
      idle_alive = v.valid.lists.idle_alive;
    };
    one_running = v.valid.one_running;
  };
  waiting = record {
    waiters_blocked = v.waiting.waiters_blocked;
    waits_once = v.waiting.waits_once;
    one_place = v.waiting.one_place;
  };
}

-- The kernel is ready for a signal on the lock `l`, and no semaphore overflows in `n` signals.
record CanSignal (l n : ℕ) (k : Kernel) : Type 0 where
  sound : IsSound k
  internal : k.in_external ≡ false
  holds : points_to (k.holder l) k.current ≡ true
  small : (x : ℕ) → (k.semaphore x).value + n < 2 ^ 32

module _ (c l : ℕ) where
  signal_eq :
      (w : ℕ) (ws : List ℕ) (k : Kernel)
      → IsSound k
      → k.in_external ≡ false
      → points_to (k.holder l) k.current ≡ true
      → k.condition c ≡ w ∷ ws
      → cond_signal c l k ≡ sema_up w (set_condition k c ws)
  unfolding cond_signal
  signal_eq w ws k v internal holds e = rw (held_eq l k v) (ground arith)

  -- What a signal to the waiter with the semaphore `w` leaves.
  abbrev Signalled : ℕ → ℕ → List ℕ → Kernel → Kernel → Type 0
  Signalled n w ws k k' =
      CanSignal l n k'
      × (k'.condition c ≡ ws)
      × ((k'.semaphore w).value ≡ (k.semaphore w).value + 1)
      × (k'.ready_list ≡ k.ready_list ++ oldest (k.semaphore w).waiters)
      × (k'.current ≡ k.current)

  signal-Signalled :
      (n w : ℕ) (ws : List ℕ) (k : Kernel)
      → CanSignal l (suc n) k
      → k.condition c ≡ w ∷ ws
      → Returns (cond_signal c l k) (Signalled n w ws k)
  signal-Signalled n w ws k v e = rw (signal_eq w ws k v.sound v.internal v.holds e) (
      Returns-mono (Up (set_condition k c ws) w) (Signalled n w ws k)
        (sema_up w (set_condition k c ws))
        (sema_up_returns (set_condition k c ws) w (condition-IsSound c ws k v.sound)
          (ground (arith, v.small w)) (ground (arith, v.internal)))
        λ k' u. (
          record {
            sound = u.0;
            internal = ground (arith, u.9, v.internal);
            holds = ground (arith, u.6 l, u.4, v.holds);
            small = λ x. ground (arith, u.8 x, v.small x);
          },
          ground (arith, u.7 c),
          u.1,
          u.3,
          u.4,
        ))

  loop-empties :
      (ws : List ℕ) (k : Kernel)
      → CanSignal l (length ws) k
      → k.condition c ≡ ws
      → Returns
          (broadcast_loop (length ws) c l k)
          λ k'. IsSound k' × (k'.condition c ≡ []) × (k'.current ≡ k.current)
  unfolding broadcast_loop
  loop-empties [] k v e = (v.sound, e, refl)
  loop-empties (w ∷ ws) k v e = rw e (
      Returns-bind (Signalled (length ws) w ws k) _ (cond_signal c l k)
        (broadcast_loop (length ws) c l) (signal-Signalled (length ws) w ws k v e)
        λ k' u.
          Returns-mono _ _ (broadcast_loop (length ws) c l k') (loop-empties ws k' u.0 u.1)
            λ k'' g. (g.0, g.1, ground (arith, g.2, u.4)))

-- cond_broadcast by the holder of the lock returns, with every waiter taken off the condition, the
-- threads' data sound and the caller still running, while no waiter's semaphore can overflow.
pub cond_broadcast_lem :
    (c l : ℕ) (k : Kernel)
    → IsSound k
    → k.in_external ≡ false
    → points_to (k.holder l) k.current ≡ true
    → ((x : ℕ) → (k.semaphore x).value + length (k.condition c) < 2 ^ 32)
    → Returns
        (cond_broadcast c l k)
        λ k'. IsSound k' × (k'.condition c ≡ []) × (k'.current ≡ k.current)
unfolding cond_broadcast
cond_broadcast_lem c l k v internal holds small =
    loop-empties c l (k.condition c) k
      (record { sound = v; internal = internal; holds = holds; small = small }) refl
