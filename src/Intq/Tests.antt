-- ===== src/Intq/Tests.antt =====
-- A queue of src/devices/intq.c whose two bytes stand at the end of the buffer; thread 4 of the
-- sample kernel waits.
use csed.Common.{◌≡◌, refl, false, [], ◌∷◌, none, some, replicate, update, arith, Returns}
use csed.Threads.Kernel.{Kernel, thread_current, intr_set_level}
use csed.Threads.Synch.{done, lock_acquire_from, sema_down_from}
use csed.Threads.Sample.{four, four-IsValid}
use csed.Intq.{Intq, intq_getc, intq_putc, getc_locked}
use csed.Intq.Ring.{IsQueue}
use csed.Intq.Fifo.{Ended, intq_getc_lem, intq_putc_lem, getc_locked_panics}

abbrev two_bytes : Intq
two_bytes = record {
  lock = 5;
  not_full = none;
  not_empty = some 4;
  buf = replicate 64 7;
  head = 0;
  tail = 62;
}

two_bytes-IsQueue : IsQueue two_bytes
two_bytes-IsQueue = record { head_bound = omega arith; tail_bound = omega arith; size = refl }

intq_putc_example : Returns (intq_putc two_bytes 9 four) (Ended four (some 4) tt (7 ∷ 7 ∷ 9 ∷ []))
intq_putc_example = intq_putc_lem two_bytes four 9 four-IsValid two_bytes-IsQueue refl refl refl

intq_getc_example : Returns (intq_getc two_bytes four) (Ended four none 7 (7 ∷ []))
intq_getc_example =
    intq_getc_lem two_bytes four 7 (7 ∷ []) four-IsValid two_bytes-IsQueue refl refl refl

abbrev locked : Kernel
locked = record four {
  semaphore = update four.semaphore 5 (record { value = 0; waiters = [] });
  holder = update four.holder 5 (some 1);
}

takes_lock : lock_acquire_from false 5 four ≡ some (done tt locked)
unfolding lock_acquire_from sema_down_from thread_current intr_set_level
takes_lock = refl

getc_locked_panics_example : getc_locked two_bytes four ≡ none
getc_locked_panics_example = getc_locked_panics two_bytes four locked takes_lock refl
