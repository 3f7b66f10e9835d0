-- ===== src/Timer/Tests.antt =====
-- The timer of src/devices/timer.c with the sample kernel: thread 4 sleeps.
use mathlib.Core.List.{Perm}
use csed.Common.{ℕ, ◌≡◌, refl, true, List, [], ◌∷◌, ◌++◌, arith, Returns}
use csed.Order.{is_sorted}
use csed.Threads.Invariant.{IsValid}
use csed.Threads.Sample.{four, four_external, four_external-IsValid}
use csed.Timer.{Timer, tick_to_wake, compare_wake_time, timer_sleep, timer_interrupt}
use csed.Timer.Wake.{AreAsleep, all_due, none_due, timer_interrupt_lem}
use csed.Timer.Sleep.{timer_sleep_lem}

abbrev in_handler : Timer
in_handler = record { kernel = four_external; ticks = 41; sleeping_list = 4 ∷ [] }

in_handler-AreAsleep : AreAsleep in_handler.kernel in_handler.sleeping_list
in_handler-AreAsleep = record { asleep_blocked = λ t h. ground arith; once = λ t. ground arith }

timer_interrupt_example : Returns (timer_interrupt in_handler) λ s'.
    (gone : List ℕ) × (gone ++ s'.sleeping_list ≡ 4 ∷ [])
    × (all_due in_handler.kernel s'.ticks gone ≡ true)
    × (none_due in_handler.kernel s'.ticks s'.sleeping_list ≡ true)
    × (s'.kernel.ready_list ≡ (2 ∷ []) ++ gone)
    × (s'.ticks ≡ 42)
    × IsValid s'.kernel
unfolding is_sorted
timer_interrupt_example =
    timer_interrupt_lem in_handler four_external-IsValid in_handler-AreAsleep refl refl refl
      (omega arith)

abbrev in_thread : Timer
in_thread = record in_handler { kernel = record four { interrupts = true } }

in_thread-IsValid : IsValid in_thread.kernel
in_thread-IsValid = record {
  lists = record {
    queued = λ t. ground arith;
    listed = λ t. ground arith;
    idle_alive = λ t. ground arith;
  };
  one_running = λ t. ground arith;
}

in_thread-AreAsleep : AreAsleep in_thread.kernel in_thread.sleeping_list
in_thread-AreAsleep = record { asleep_blocked = λ t h. ground arith; once = λ t. ground arith }

timer_sleep_example : Returns (timer_sleep 5 in_thread) λ s'.
    IsValid s'.kernel
    × (s'.kernel.current ≡ 2)
    × AreAsleep s'.kernel s'.sleeping_list
    × (is_sorted (compare_wake_time s'.kernel) s'.sleeping_list ≡ true)
    × Perm s'.sleeping_list (4 ∷ 1 ∷ [])
    × (tick_to_wake s'.kernel 1 ≡ 46)
timer_sleep_example =
    timer_sleep_lem 5 in_thread 2 in_thread-IsValid in_thread-AreAsleep refl refl refl refl
