-- ===== src/Intq.antt =====
-- src/devices/intq.c and intq.h: the queue of bytes between threads and interrupt handlers. A call that
-- goes to sleep ends with the kernel as the next thread finds it; when the sleeper runs again it goes
-- on at getc_locked or getc_woken, and likewise for intq_putc.
pub mod Ring
pub mod Fifo
mod Tests
use csed.Common.{
  ℕ, ◌+◌, ◌%◌, Bool, true, false, not, List, Option, none, some, ◌==◌, if◌then◌else◌, ◌>>=◌, ◌>>◌,
  check, set, get_or, replicate,
}
use csed.Threads.Kernel.{Kernel, thread_current, thread_block, thread_unblock}
use csed.Threads.Synch.{
  Outcome, done, asleep, lock_init, lock_acquire, lock_acquire_from, lock_release,
}

-- `struct intq`; `lock` is the address of its lock.
pub record Intq : Type 0 where
  pub lock : ℕ
  pub not_full : Option ℕ
  pub not_empty : Option ℕ
  pub buf : List ℕ
  pub head : ℕ
  pub tail : ℕ

-- How intq_getc and intq_putc end: with a result, or asleep.
pub data Result {ℓ} (A : Type ℓ) : Type ℓ where
  ended : A → Intq → Kernel → Result A
  sleeps : Intq → Kernel → Result A

-- Which member `waiter` points to.
pub data Waiter : Type 0 where
  for_room for_byte : Waiter

abbrev pub intq_bufsize : ℕ
intq_bufsize = 64

abbrev pub next : ℕ → ℕ
next pos = (pos + 1) % 64

-- The buffer of the queue is as it was in memory.
unfoldable pub intq_init : Intq → Kernel → Intq × Kernel
intq_init q k =
    (record q { not_full = none; not_empty = none; head = 0; tail = 0 }, lock_init q.lock k)

-- The two tests without their assertion.
abbrev pub is_empty : Intq → Bool
is_empty q = q.head == q.tail

abbrev pub is_full : Intq → Bool
is_full q = next q.head == q.tail

unfoldable pub intq_empty : Intq → Kernel → Option Bool
intq_empty q k = do check (not k.interrupts); some (is_empty q)

unfoldable pub intq_full : Intq → Kernel → Option Bool
intq_full q k = do check (not k.interrupts); some (is_full q)

abbrev pub get_waiter : Waiter → Intq → Option ℕ
get_waiter for_room q = q.not_full
get_waiter for_byte q = q.not_empty

abbrev pub set_waiter : Waiter → Option ℕ → Intq → Intq
set_waiter for_room t q = record q { not_full = t }
set_waiter for_byte t q = record q { not_empty = t }

-- Whether there is a reason to wait.
abbrev pub must_wait : Waiter → Intq → Bool
must_wait for_room q = is_full q
must_wait for_byte q = is_empty q

unfoldable pub wait : Waiter → Intq → Kernel → Option (Intq × Kernel)
wait w q k = do
  check (not k.in_external)
  check (not k.interrupts)
  check (must_wait w q)
  cur ← thread_current k
  k' ← thread_block k
  some (set_waiter w (some cur) q, k')

unfoldable pub signal : Waiter → Intq → Kernel → Option (Intq × Kernel)
signal w q k = do
  check (not k.interrupts)
  check (not (must_wait w q))
  elim (get_waiter w q) [
    | none ↦ some (q, k)
    | some t ↦ (do k' ← thread_unblock t k; some (set_waiter w none q, k'))
  ]

-- The body of the loops, once the lock is tried.
unfoldable pub wait_locked : {A : Type 0} → Waiter → Intq → Outcome (Unit {0}) → Option (Result A)
wait_locked w q (asleep k) = some (sleeps q k)
wait_locked w q (done _ k) = do (q', k') ← wait w q k; some (sleeps q' k')

unfoldable pub wait_round : {A : Type 0} → Waiter → Intq → Kernel → Option (Result A)
wait_round w q k = do check (not k.in_external); r ← lock_acquire q.lock k; wait_locked w q r

-- From the test of the loop on.
unfoldable pub intq_getc : Intq → Kernel → Option (Result ℕ)
intq_getc q k = do
  check (not k.interrupts)
  empty ← intq_empty q k
  elim empty [
    | true ↦ wait_round for_byte q k
    | false ↦ (do
      (q', k') ← signal for_room (record q { tail = next q.tail }) k
      some (ended (get_or q.buf q.tail 0) q' k'))
  ]

unfoldable pub intq_putc : Intq → ℕ → Kernel → Option (Result (Unit {0}))
intq_putc q byte k = do
  check (not k.interrupts)
  full ← intq_full q k
  elim full [
    | true ↦ wait_round for_room q k
    | false ↦ (do
      (q', k') ← signal for_byte (record q { buf = set q.buf q.head byte; head = next q.head }) k
      some (ended tt q' k'))
  ]

-- intq_getc and intq_putc after a sleep for the lock.
unfoldable pub getc_locked : Intq → Kernel → Option (Result ℕ)
getc_locked q k = do r ← lock_acquire_from k.interrupts q.lock k; wait_locked for_byte q r

unfoldable pub putc_locked : Intq → Kernel → Option (Result (Unit {0}))
putc_locked q k = do r ← lock_acquire_from k.interrupts q.lock k; wait_locked for_room q r

-- intq_getc and intq_putc after `wait`.
unfoldable pub getc_woken : Intq → Kernel → Option (Result ℕ)
getc_woken q k = lock_release q.lock k >>= intq_getc q

unfoldable pub putc_woken : Intq → ℕ → Kernel → Option (Result (Unit {0}))
putc_woken q byte k = lock_release q.lock k >>= intq_putc q byte
