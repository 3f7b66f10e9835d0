-- ===== src/Threads/Synch.antt =====
-- src/threads/synch.c: semaphores, locks and condition variables. A call that goes to sleep ends with the
-- kernel as the next thread finds it; when the sleeper runs again it goes on at `sema_down_from`.
use csed.Common.{
  ℕ, zero, suc, ◌+◌, ◌-◌, ◌%◌, ◌^◌, Bool, true, false, not, [], ◌∷◌, ◌++◌, Option, none, some, ◌==◌,
  if◌then◌else◌, ◌>>=◌, ◌>>◌, check, update, length,
}
use csed.Threads.Kernel.{
  Kernel, Semaphore, points_to, intr_disable, intr_set_level, thread_current, thread_block,
  thread_unblock,
}

-- How a call that may sleep ends.
pub data Outcome {ℓ} (A : Type ℓ) : Type ℓ where
  done : A → Kernel → Outcome A
  asleep : Kernel → Outcome A

-- Go on after a call that may sleep, if it did not.
abbrev pub and_then {ℓ κ} :
    {A : Type ℓ} {B : Type κ}
    → Option (Outcome A)
    → (A → Kernel → Option (Outcome B))
    → Option (Outcome B)
and_then none f = none
and_then (some (done a k)) f = f a k
and_then (some (asleep k)) f = some (asleep k)

abbrev pub put_semaphore : Kernel → ℕ → Semaphore → Kernel
put_semaphore k s x = record k { semaphore = update k.semaphore s x }

unfoldable pub sema_init : ℕ → ℕ → Kernel → Kernel
sema_init s value k = put_semaphore k s (record { value = value; waiters = [] })

-- The loop of sema_down, from its test on, with interrupts off.
unfoldable pub sema_down_from : Bool → ℕ → Kernel → Option (Outcome (Unit {0}))
unfolding thread_current thread_block intr_set_level
sema_down_from old s k =
    let x = k.semaphore s in
    if x.value == 0
    then (do
      cur ← thread_current k
      k' ← thread_block (put_semaphore k s (record x { waiters = x.waiters ++ cur ∷ [] }))
      some (asleep k'))
    else (do
      k' ← intr_set_level old (put_semaphore k s (record x { value = x.value - 1 }))
      some (done tt k'))

unfoldable pub sema_down : ℕ → Kernel → Option (Outcome (Unit {0}))
sema_down s k = do
  check (not k.in_external)
  let (old, k') = intr_disable k
  sema_down_from old s k'

unfoldable pub sema_try_down : ℕ → Kernel → Option (Bool × Kernel)
unfolding intr_disable intr_set_level
sema_try_down s k =
    let (old, k') = intr_disable k in
    let x = k'.semaphore s in
    if x.value == 0 then (do k'' ← intr_set_level old k'; some (false, k'')) else (do
      k'' ← intr_set_level old (put_semaphore k' s (record x { value = x.value - 1 }))
      some (true, k''))

abbrev pub increment : ℕ → Kernel → Kernel
increment s k =
    let x = k.semaphore s in put_semaphore k s (record x { value = (x.value + 1) % 2 ^ 32 })

unfoldable pub sema_up : ℕ → Kernel → Option Kernel
unfolding intr_disable intr_set_level thread_unblock
sema_up s k = do
  let (old, k') = intr_disable k
  k'' ← elim (k'.semaphore s).waiters [
    | [] ↦ some k'
    | t ∷ rest ↦ thread_unblock t (put_semaphore k' s (record (k'.semaphore s) { waiters = rest }))
  ]
  intr_set_level old (increment s k'')

unfoldable pub lock_init : ℕ → Kernel → Kernel
unfolding sema_init
lock_init l k = sema_init l 1 (record k { holder = update k.holder l none })

unfoldable pub lock_held_by_current_thread : ℕ → Kernel → Option Bool
unfolding thread_current
lock_held_by_current_thread l k = do cur ← thread_current k; some (points_to (k.holder l) cur)

abbrev pub take_lock : ℕ → Kernel → Option (Outcome (Unit {0}))
unfolding thread_current
take_lock l k = do
  cur ← thread_current k
  some (done tt (record k { holder = update k.holder l (some cur) }))

unfoldable pub lock_acquire : ℕ → Kernel → Option (Outcome (Unit {0}))
lock_acquire l k = do
  check (not k.in_external)
  held ← lock_held_by_current_thread l k
  check (not held)
  and_then (sema_down l k) (λ _ k'. take_lock l k')

-- lock_acquire after a sleep.
unfoldable pub lock_acquire_from : Bool → ℕ → Kernel → Option (Outcome (Unit {0}))
lock_acquire_from old l k = and_then (sema_down_from old l k) (λ _ k'. take_lock l k')

unfoldable pub lock_try_acquire : ℕ → Kernel → Option (Bool × Kernel)
lock_try_acquire l k = do
  held ← lock_held_by_current_thread l k
  check (not held)
  (success, k') ← sema_try_down l k
  if success
      then (do
        cur ← thread_current k'
        some (true, record k' { holder = update k'.holder l (some cur) }))
      else some (false, k')

unfoldable pub lock_release : ℕ → Kernel → Option Kernel
lock_release l k = do
  held ← lock_held_by_current_thread l k
  check held
  sema_up l (record k { holder = update k.holder l none })

unfoldable pub cond_init : ℕ → Kernel → Kernel
cond_init c k = record k { condition = update k.condition c [] }

-- cond_wait up to its first sleep; `w` is the address of the waiter's semaphore.
unfoldable pub cond_wait : ℕ → ℕ → ℕ → Kernel → Option (Outcome (Unit {0}))
cond_wait c l w k = do
  check (not k.in_external)
  held ← lock_held_by_current_thread l k
  check held
  let k' = sema_init w 0 k
  k'' ← lock_release l (record k' { condition = update k'.condition c (k'.condition c ++ w ∷ []) })
  and_then (sema_down w k'') (λ _. lock_acquire l)

-- cond_wait after the sleep on the waiter's semaphore.
unfoldable pub cond_wait_from : Bool → ℕ → ℕ → Kernel → Option (Outcome (Unit {0}))
cond_wait_from old l w k = and_then (sema_down_from old w k) (λ _. lock_acquire l)

unfoldable pub cond_signal : ℕ → ℕ → Kernel → Option Kernel
cond_signal c l k = do
  check (not k.in_external)
  held ← lock_held_by_current_thread l k
  check held
  elim (k.condition c) [
    | [] ↦ some k
    | w ∷ rest ↦ sema_up w (record k { condition = update k.condition c rest })
  ]

-- The loop of cond_broadcast: each round takes one waiter off, so their number is fuel enough.
unfoldable pub broadcast_loop : ℕ → ℕ → ℕ → Kernel → Option Kernel
broadcast_loop zero c l k = some k
broadcast_loop (suc fuel) c l k = elim (k.condition c) [
  | [] ↦ some k
  | w ∷ rest ↦ cond_signal c l k >>= broadcast_loop fuel c l
]

unfoldable pub cond_broadcast : ℕ → ℕ → Kernel → Option Kernel
cond_broadcast c l k = broadcast_loop (length (k.condition c)) c l k
