-- ===== src/Timer/Wake.antt =====
-- timer_interrupt of src/devices/timer.c.
use csed.Common.{
  ℕ, ◌+◌, ◌≤◌, ◌<◌, ◌^◌, ◌≡◌, refl, Bool, true, false, ◌&&◌, List, [], ◌∷◌, ◌++◌, append_assoc,
  append-nil, ap, fun_ext, ltb→lt, some, arith, ltb, leb, count, Returns, Returns-bind,
  Returns-mono, Bool-cases, ◌>>=◌, ◌∙◌, inl, inr,
}
use csed.Order.{is_sorted, sorted_from}
use csed.Threads.Kernel.{
  blocked, Kernel, has_status, points_to, thread_tick, is_nested, thread_unblock, intr_disable,
  intr_set_level,
}
use csed.Threads.Invariant.{IsValid}
use csed.Threads.Wake.{woken, woken-IsValid, thread_unblock_eq, thread_tick_lem}
use csed.Timer.{Timer, tick_to_wake, compare_wake_time, timer_ticks, wake_due, timer_interrupt}

pub timer_ticks_eq :
    (ticks : ℕ) (k : Kernel) → is_nested k ≡ false → timer_ticks ticks k ≡ some (ticks, k)
unfolding timer_ticks intr_disable intr_set_level
timer_ticks_eq ticks k n = ground arith

-- The threads of a list sleep: they are blocked, not the idle thread, and listed once.
pub record AreAsleep (k : Kernel) (l : List ℕ) : Type 0 where
  pub asleep_blocked :
      (t : ℕ)
      → 1 ≤ count t l
      → (has_status k t blocked ≡ true) × (points_to k.idle_thread t ≡ false)
  pub once : (t : ℕ) → count t l ≤ 1

-- Whether every thread of the list is due.
abbrev pub all_due : Kernel → ℕ → List ℕ → Bool
all_due k now [] = true
all_due k now (t ∷ rest) = leb (tick_to_wake k t) now && all_due k now rest

-- Whether no thread of the list is due.
abbrev pub none_due : Kernel → ℕ → List ℕ → Bool
none_due k now [] = true
none_due k now (t ∷ rest) = ltb now (tick_to_wake k t) && none_due k now rest

-- In a list in order no thread behind one that is not due is due.
sorted_none_due :
    (k : Kernel) (now t : ℕ) (rest : List ℕ)
    → now < tick_to_wake k t
    → sorted_from (compare_wake_time k) t rest ≡ true
    → none_due k now rest ≡ true
unfolding sorted_from
sorted_none_due k now t [] h s = refl
sorted_none_due k now t (u ∷ rest) h s = ground (arith, sorted_none_due k now u rest)

sorted_tail :
    (k : Kernel) (t : ℕ) (rest : List ℕ)
    → is_sorted (compare_wake_time k) (t ∷ rest) ≡ true
    → is_sorted (compare_wake_time k) rest ≡ true
unfolding is_sorted sorted_from
sorted_tail k t [] h = refl
sorted_tail k t (u ∷ rest) h = ground arith

is_sorted_head :
    (k : Kernel) (t : ℕ) (rest : List ℕ)
    → is_sorted (compare_wake_time k) (t ∷ rest) ≡ true
    → sorted_from (compare_wake_time k) t rest ≡ true
unfolding is_sorted
is_sorted_head k t rest h = h

-- The loop took `gone` off the front of the list and made them ready.
record Woke (k : Kernel) (now : ℕ) (l rest : List ℕ) (k' : Kernel) : Type 0 where
  gone : List ℕ
  split : gone ++ rest ≡ l
  due : all_due k now gone ≡ true
  late : none_due k now rest ≡ true
  queue : k'.ready_list ≡ k.ready_list ++ gone
  valid : IsValid k'
  asleep : AreAsleep k' rest
  same_ticks : (t : ℕ) → tick_to_wake k' t ≡ tick_to_wake k t
  frame :
      (k'.current ≡ k.current)
      × (k'.in_external ≡ k.in_external)
      × (k'.thread_ticks ≡ k.thread_ticks)

woken_tick : (k : Kernel) (t u : ℕ) → tick_to_wake (woken k t) u ≡ tick_to_wake k u
woken_tick k t u = ground arith

all_due-woken : (k : Kernel) (t now : ℕ) (l : List ℕ) → all_due (woken k t) now l ≡ all_due k now l
all_due-woken k t now [] = refl
all_due-woken k t now (u ∷ l) = rw (woken_tick k t u, all_due-woken k t now l)

none_due-woken :
    (k : Kernel) (t now : ℕ) (l : List ℕ) → none_due (woken k t) now l ≡ none_due k now l
none_due-woken k t now [] = refl
none_due-woken k t now (u ∷ l) = rw (woken_tick k t u, none_due-woken k t now l)

sorted-woken :
    (k : Kernel) (t : ℕ) (l : List ℕ)
    → is_sorted (compare_wake_time (woken k t)) l ≡ is_sorted (compare_wake_time k) l
sorted-woken k t l =
    ap (λ f. is_sorted f l) (fun_ext λ a. fun_ext λ b. rw (woken_tick k t a, woken_tick k t b) refl)

AreAsleep-rest :
    (k : Kernel) (t : ℕ) (rest : List ℕ) → AreAsleep k (t ∷ rest) → AreAsleep (woken k t) rest
AreAsleep-rest k t rest v = record {
  asleep_blocked = λ u h. ground (arith, v.asleep_blocked u, v.once u);
  once = λ u. ground (arith, v.once u);
}

due_later :
    (now t : ℕ) (rest : List ℕ) (k : Kernel)
    → is_nested k ≡ false
    → ltb now (tick_to_wake k t) ≡ true
    → wake_due now (t ∷ rest) k ≡ some (t ∷ rest, k)
unfolding wake_due
due_later now t rest k n e =
    rw (timer_ticks_eq now k n, wake_due)
      (ap
        (λ b. elim b [
          | true ↦ some (t ∷ rest, k)
          | false ↦ thread_unblock t k >>= wake_due now rest
        ])
        e)

due_now :
    (now t : ℕ) (rest : List ℕ) (k : Kernel)
    → is_nested k ≡ false
    → ltb now (tick_to_wake k t) ≡ false
    → has_status k t blocked ≡ true
    → wake_due now (t ∷ rest) k ≡ wake_due now rest (woken k t)
unfolding wake_due
due_now now t rest k n e b =
    rw (timer_ticks_eq now k n, wake_due)
      (ap
          (λ b. elim b [
            | true ↦ some (t ∷ rest, k)
            | false ↦ thread_unblock t k >>= wake_due now rest
          ])
          e
        ∙ ap (λ m. m >>= wake_due now rest) (thread_unblock_eq k t n b))

Woke-woken :
    (now t : ℕ) (l rest : List ℕ) (k k' : Kernel)
    → leb (tick_to_wake k t) now ≡ true
    → Woke (woken k t) now l rest k'
    → Woke k now (t ∷ l) rest k'
Woke-woken now t l rest k k' due w = record {
  gone = t ∷ w.gone;
  split = ap (◌∷◌ t) w.split;
  due = ground (arith, w.due, all_due-woken k t now w.gone);
  late = ground (arith, w.late, none_due-woken k t now rest);
  queue = ground (arith, w.queue, append_assoc k.ready_list (t ∷ []) w.gone);
  valid = w.valid;
  asleep = w.asleep;
  same_ticks = λ u. ground (arith, w.same_ticks u, woken_tick k t u);
  frame = w.frame;
}

wake_due-Woke :
    (now : ℕ) (l : List ℕ) (k : Kernel)
    → is_nested k ≡ false
    → IsValid k
    → AreAsleep k l
    → is_sorted (compare_wake_time k) l ≡ true
    → Returns (wake_due now l k) (λ r. Woke k now l r.0 r.1)
wake_due-Woke now [] k n v a s =
    unfold wake_due in
    record {
      gone = [];
      split = refl;
      due = refl;
      late = refl;
      queue = ground (arith, append-nil k.ready_list);
      valid = v;
      asleep = a;
      same_ticks = λ t. refl;
      frame = (refl, refl, refl);
    }
wake_due-Woke now (t ∷ rest) k n v a s = elim (Bool-cases (ltb now (tick_to_wake k t))) [
  | inl e ↦ rw (due_later now t rest k n e) (record {
    gone = [];
    split = refl;
    due = refl;
    late =
        ground (arith, sorted_none_due k now t rest (ltb→lt now _ e) (is_sorted_head k t rest s));
    queue = ground (arith, append-nil k.ready_list);
    valid = v;
    asleep = a;
    same_ticks = λ u. refl;
    frame = (refl, refl, refl);
  })
  | inr e ↦
      let sleeps : (has_status k t blocked ≡ true) × (points_to k.idle_thread t ≡ false) =
        ground (arith, a.asleep_blocked t) in
      rw (due_now now t rest k n e sleeps.0) (
        Returns-mono _ _ (wake_due now rest (woken k t))
          (wake_due-Woke now rest (woken k t) n (woken-IsValid k t v sleeps.1 sleeps.0)
            (AreAsleep-rest k t rest a) (rw (sorted-woken k t rest) (sorted_tail k t rest s)))
          λ r w. Woke-woken now t rest r.0 k r.1 (ground arith) w)
]

-- The timer interrupt moves the threads that are due, in their order in the list, to the end of
-- the run queue; all that it leaves asleep are not due. The list is assumed in order, and interrupts off, as
-- intr_handler has them for an external interrupt. The threads'
-- data stay consistent, and the tick is counted.
pub timer_interrupt_lem :
    (s : Timer)
    → IsValid s.kernel
    → AreAsleep s.kernel s.sleeping_list
    → is_sorted (compare_wake_time s.kernel) s.sleeping_list ≡ true
    → s.kernel.in_external ≡ true
    → s.kernel.interrupts ≡ false
    → s.kernel.thread_ticks + 1 < 2 ^ 32
    → Returns (timer_interrupt s) λ s'.
      (gone : List ℕ) × (gone ++ s'.sleeping_list ≡ s.sleeping_list)
      × (all_due s.kernel s'.ticks gone ≡ true)
      × (none_due s.kernel s'.ticks s'.sleeping_list ≡ true)
      × (s'.kernel.ready_list ≡ s.kernel.ready_list ++ gone)
      × (s'.ticks ≡ s.ticks + 1)
      × IsValid s'.kernel
unfolding timer_interrupt
timer_interrupt_lem s v a o ext off small =
    Returns-bind (λ r. Woke s.kernel (s.ticks + 1) s.sleeping_list r.0 r.1) _
      (wake_due (s.ticks + 1) s.sleeping_list s.kernel) _
      (wake_due-Woke (s.ticks + 1) s.sleeping_list s.kernel (ground (arith, off)) v a o)
      λ r w.
        Returns-bind _ _ (thread_tick r.1) _
          (thread_tick_lem r.1 w.valid (ground (arith, w.frame.1)) (ground (arith, w.frame.2)))
          λ k' t. (w.gone, w.split, w.due, w.late, ground (arith, t.5, w.queue), refl, t.0)
