-- ===== src/Timer.antt =====
-- src/devices/timer.c: the list of sleeping threads and the timer interrupt. The calibrated busy
-- waits are not modelled; a number of ticks to sleep is not negative here.
pub mod Wake
pub mod Sleep
mod Tests
use mathlib.Core.Option
use csed.Common.{
  ℕ, ◌+◌, ◌*◌, ◌/◌, Bool, true, false, List, [], ◌∷◌, ◌++◌, Option, none, some, ltb, if◌then◌else◌,
  ◌>>=◌, ◌>>◌, check, update,
}
use csed.Order.{list_sort}
use csed.Threads.Kernel.{
  Thread, Kernel, intr_disable, intr_set_level, thread_current, thread_block, thread_unblock,
  thread_tick,
}

pub record Timer : Type 0 where
  pub kernel : Kernel
  pub ticks : ℕ
  pub sleeping_list : List ℕ

-- `t->tick_to_wake`
abbrev pub tick_to_wake : Kernel → ℕ → ℕ
tick_to_wake k t = elim (k.thread t) [ none ↦ 0 | some th ↦ th.tick_to_wake ]

abbrev pub compare_wake_time : Kernel → ℕ → ℕ → Bool
compare_wake_time k a b = ltb (tick_to_wake k a) (tick_to_wake k b)

abbrev pub with_tick : ℕ → Thread → Thread
with_tick tick th = record th { tick_to_wake = tick }

abbrev pub set_tick : ℕ → ℕ → Kernel → Kernel
set_tick t tick k = record k {
  thread = update k.thread t (Option.map (with_tick tick) (k.thread t));
}

unfoldable pub timer_ticks : ℕ → Kernel → Option (ℕ × Kernel)
timer_ticks ticks k = do
  let (old, k₁) = intr_disable k
  k₂ ← intr_set_level old k₁
  some (ticks, k₂)

-- The timer as the next thread finds it: the sleeper is in thread_block.
unfoldable pub timer_sleep : ℕ → Timer → Option Timer
timer_sleep n s = do
  (start, k₀) ← timer_ticks s.ticks s.kernel
  check k₀.interrupts
  let (old, k) = intr_disable k₀
  cur ← thread_current k
  let k₁ = set_tick cur (start + n) k
  sorted ← list_sort (compare_wake_time k₁) (s.sleeping_list ++ cur ∷ [])
  k₂ ← thread_block k₁
  some (record s { kernel = k₂; sleeping_list = sorted })

-- The loop of the interrupt handler: the threads that still sleep, and the kernel.
unfoldable pub wake_due : ℕ → List ℕ → Kernel → Option (List ℕ × Kernel)
wake_due now [] k = some ([], k)
wake_due now (t ∷ rest) k = do
  (now', k') ← timer_ticks now k
  elim (ltb now' (tick_to_wake k' t)) [
    | true ↦ some (t ∷ rest, k')
    | false ↦ thread_unblock t k' >>= wake_due now rest
  ]

unfoldable pub timer_interrupt : Timer → Option Timer
timer_interrupt s = do
  let now = s.ticks + 1
  (rest, k) ← wake_due now s.sleeping_list s.kernel
  k' ← thread_tick k
  some (record { kernel = k'; ticks = now; sleeping_list = rest })
