-- ===== src/Threads/Mutex.antt =====
-- One lock of src/threads/synch.c among any number of threads: its invariant.
use csed.Common.{
  ℕ, ◌+◌, ◌≤◌, ◌≡◌, refl, ◌≢◌, Bool, true, false, ◌&&◌, List, [], ◌∷◌, Option, none, some, arith,
  ◌==◌, count, count-append, update, ap, ◌∙◌, ◌⊎◌, inl, inr,
}
use csed.Threads.Kernel.{Kernel, points_to}
use csed.Threads.Invariant.{rest_of}
use csed.Threads.Waiting.{IsSound}
use csed.Threads.Semaphores.{Down, sema_down_lem, sema_down_from_lem}
use csed.Threads.Wakeup.{Up, sema_up_result, oldest}
use csed.Threads.Synch.{Outcome, done, asleep}
use csed.Threads.System.{
  Pc, outside, waiting, taken, holding, releasing, System, after_down, set_holder, is_runnable,
  Step, acquire, retry, own, disown, release, other, IsInitial, Reach, start, later,
}

-- Between the return of sema_down in lock_acquire and the call of sema_up in lock_release.
abbrev pub is_critical : Pc → Bool
is_critical outside = false
is_critical waiting = false
is_critical _ = true

abbrev pub is_holding : Pc → Bool
is_holding holding = true
is_holding _ = false

abbrev taken_count : Option ℕ → ℕ
taken_count none = 0
taken_count (some t) = 1

-- With `owner` the thread in its critical section.
pub record Inv (l : ℕ) (s : System) (owner : Option ℕ) : Type 0 where
  pub sound : IsSound s.kernel
  pub value : (s.kernel.semaphore l).value + taken_count owner ≡ 1
  pub critical : (t : ℕ) → is_critical (s.pc t) ≡ points_to owner t
  pub held : (t : ℕ) → points_to (s.kernel.holder l) t ≡ is_holding (s.pc t)
  pub queued : (t : ℕ) → 1 ≤ count t (s.kernel.semaphore l).waiters → s.pc t ≡ waiting
  pub woken :
      owner ≡ none
      → (s.kernel.semaphore l).waiters ≢ []
      → (t : ℕ) × (s.pc t ≡ waiting) × (is_runnable s.kernel t ≡ true)

-- The holder of a lock is no matter of the threads' data.
pub holder-IsSound : (l : ℕ) (h : Option ℕ) (k : Kernel) → IsSound k → IsSound (set_holder k l h)
holder-IsSound l h k v = record {
  valid = record {
    lists = record {
      queued = v.valid.lists.queued;
      listed = v.valid.lists.listed;
      idle_alive = v.valid.lists.idle_alive;
    };
    one_running = v.valid.one_running;
  };
  waiting = record {
    waiters_blocked = v.waiting.waiters_blocked;
    waits_once = v.waiting.waits_once;
    one_place = v.waiting.one_place;
  };
}

count-rest_of : (t : ℕ) (ws : List ℕ) → count t (rest_of ws) ≤ count t ws
count-rest_of t [] = omega arith
count-rest_of t (w ∷ ws) = omega arith

head_of : (ws : List ℕ) → rest_of ws ≢ [] → (t : ℕ) × (1 ≤ count t ws) × (1 ≤ count t (oldest ws))
head_of [] h = absurd (h refl)
head_of (w ∷ ws) h = (w, ground arith, ground arith)

module _ (l : ℕ) (s : System) (owner : Option ℕ) (v : Inv l s owner) where
  abbrev c : ℕ
  c = s.kernel.current

  running_waits_not : count c (s.kernel.semaphore l).waiters ≡ 0
  running_waits_not =
      ground (arith, v.sound.waiting.waiters_blocked l c, v.sound.valid.one_running c)

  -- A sema_down by the running thread, at the call or at the test of its loop.
  after_down-Inv :
      (old : Bool) (next : ℕ) (o : Outcome (Unit {0})) (p : Pc)
      → s.pc c ≡ p
      → is_critical p ≡ false
      → Down old s.kernel l next o
      → (w : Option ℕ) × Inv l (after_down s o) w
  after_down-Inv old next (done x k) p at free d = (
    some c,
    record {
      sound = d.0;
      value = ground (arith, v.value, d.1);
      critical = λ t. ground (arith, v.critical t, v.value, d.1);
      held = λ t. ground (arith, v.held t, d.6 l);
      queued = λ t h. ground (arith, v.queued t, running_waits_not);
      woken = λ n. absurd (cc);
    },
  )
  after_down-Inv old next (asleep k) p at free d = (
    owner,
    record {
      sound = d.0;
      value = ground (arith, v.value, d.1, d.2);
      critical = λ t. ground (arith, v.critical t);
      held = λ t. ground (arith, v.held t, d.7 l);
      queued =
          λ t h. ground (arith, v.queued t, count-append t (s.kernel.semaphore l).waiters (c ∷ []));
      woken = λ n. absurd (ground (arith, v.value, d.1));
    },
  )

  -- The running thread sets or clears `holder` inside its critical section.
  holder-Inv :
      (h : Option ℕ) (p q : Pc)
      → s.pc c ≡ p
      → is_critical p ≡ true
      → is_critical q ≡ true
      → ((t : ℕ) → points_to h t ≡ (is_holding q && (c == t)))
      → Inv l (record { kernel = set_holder s.kernel l h; pc = update s.pc c q }) owner
  holder-Inv h p q at inside stays sets = record {
    sound = holder-IsSound l h s.kernel v.sound;
    value = v.value;
    critical = λ t. ground (arith, v.critical t);
    held = λ t. ground (arith, v.critical t, v.critical c, v.held t, sets t, no_other t);
    queued = λ t g. ground (arith, v.queued t, running_waits_not);
    woken = λ n ne. let (t, w, o) = v.woken n ne in (t, ground arith, ground arith);
  }
    where
      no_other : (t : ℕ) → (c == t) ≡ false → is_holding (s.pc t) ≡ false
      no_other t ne = ground (arith, v.critical t, v.critical c)

  release-Inv :
      (k : Kernel)
      → s.pc c ≡ releasing
      → Up s.kernel l k
      → (w : Option ℕ) × Inv l (record { kernel = k; pc = update s.pc c outside }) w
  release-Inv k at u = (
    none,
    record {
      sound = u.0;
      value = ground (arith, v.value, v.critical c, u.1);
      critical = λ t. ground (arith, v.critical t, v.critical c);
      held = λ t. ground (arith, v.critical t, v.critical c, v.held t, u.6 l);
      queued = λ t g. ground (
        arith,
        v.queued t,
        running_waits_not,
        count-rest_of t (s.kernel.semaphore l).waiters,
        u.2,
      );
      woken = λ n ne.
          let (t, first, moved) = head_of (s.kernel.semaphore l).waiters (ground arith) in
          (
            t,
            ground (arith, v.queued t, running_waits_not),
            ground (
              arith,
              moved,
              u.3,
              count-append t s.kernel.ready_list (oldest (s.kernel.semaphore l).waiters),
            ),
          );
    },
  )

-- Every step keeps the lock's invariant, with the owner that the step makes.
pub Step-Inv :
    (l : ℕ) {s u : System} (owner : Option ℕ)
    → Inv l s owner
    → Step l s u
    → (w : Option ℕ) × Inv l u w
Step-Inv l {s} {u} owner v (acquire o at can e q) = rw q (
    after_down-Inv l s owner v s.kernel.interrupts can.next o outside at refl
      (rw e at (sema_down_lem s.kernel l can.next v.sound can.internal can.busy can.next_runs)))
Step-Inv l {s} {u} owner v (retry old o at can off e q) = rw q (
    after_down-Inv l s owner v old can.next o waiting at refl (
      rw e at (
        sema_down_from_lem s.kernel l can.next v.sound can.internal can.busy can.next_runs old
          off)))
Step-Inv l {s} {u} owner v (own at q) = rw q (
  owner,
  holder-Inv l s owner v (some s.kernel.current) taken holding at refl refl (λ t. ground arith),
)
Step-Inv l {s} {u} owner v (disown at q) =
    rw q (owner, holder-Inv l s owner v none holding releasing at refl refl (λ t. ground arith))
Step-Inv l {s} {u} owner v (release k at e q) =
    rw q (
      release-Inv l s owner v k at
        (sema_up_result s.kernel k l v.sound (ground (arith, v.value)) e))
Step-Inv l {s} {u} owner v (other k sound same_sema same_holder kept q) = rw q (
  owner,
  record {
    sound = sound;
    value = rw same_sema v.value;
    critical = v.critical;
    held = λ t. rw same_holder (v.held t);
    queued = λ t. rw same_sema (v.queued t);
    woken = λ n ne.
        let (t, at, on) = v.woken n (λ e. ne (ap (λ x. x.waiters) same_sema ∙ e)) in
        (t, at, kept t at on);
  },
)

Initial-Inv : (l : ℕ) (s : System) → IsInitial l s → Inv l s none
Initial-Inv l s i = record {
  sound = i.sound;
  value = ground (arith, i.free);
  critical = λ t. ground (arith, i.all_outside t);
  held = λ t. ground (arith, i.all_outside t, i.unheld);
  queued = λ t h. ground (arith, i.nobody_waits);
  woken = λ n ne. absurd (ne i.nobody_waits);
}

Reach-Inv : (l : ℕ) {s u : System} → IsInitial l s → Reach l s u → (w : Option ℕ) × Inv l u w
Reach-Inv l {s} i start = (none, Initial-Inv l s i)
Reach-Inv l i (later r st) = let (w, v) = Reach-Inv l i r in Step-Inv l w v st

-- However the threads interleave, two of them are never both past sema_down in lock_acquire and
-- before sema_up in lock_release.
pub mutual_exclusion :
    (l : ℕ) {s u : System}
    → IsInitial l s
    → Reach l s u
    → (t t' : ℕ) → is_critical (u.pc t) ≡ true
    → is_critical (u.pc t') ≡ true
    → t ≡ t'
mutual_exclusion l i r t t' a b =
    let (w, v) = Reach-Inv l i r in ground (arith, v.critical t, v.critical t')

-- The holder that the lock records is the one thread that has acquired it and has not begun to
-- release it.
pub holder_is_owner :
    (l : ℕ) {s u : System}
    → IsInitial l s
    → Reach l s u
    → (t : ℕ) → points_to (u.kernel.holder l) t ≡ is_holding (u.pc t)
holder_is_owner l i r t = let (w, v) = Reach-Inv l i r in v.held t

awake :
    (l : ℕ) (u : System) (w : Option ℕ)
    → Inv l u w
    → (u.kernel.semaphore l).waiters ≢ []
    → (t : ℕ) × ((is_critical (u.pc t) ≡ true)
        ⊎ ((u.pc t ≡ waiting) × (is_runnable u.kernel t ≡ true)))
awake l u none v ne = let (t, at, on) = v.woken refl ne in (t, inr (at, on))
awake l u (some t) v ne = (t, inl (ground (arith, v.critical t)))

-- No wake-up is lost: while threads sleep on a lock, either some thread is in the critical section,
-- which will call sema_up, or a thread that has been woken from that sleep runs or is on the run queue,
-- to test the value again.
pub no_lost_wakeup :
    (l : ℕ) {s u : System}
    → IsInitial l s
    → Reach l s u
    → (u.kernel.semaphore l).waiters ≢ []
    → (t : ℕ) × ((is_critical (u.pc t) ≡ true)
        ⊎ ((u.pc t ≡ waiting) × (is_runnable u.kernel t ≡ true)))
no_lost_wakeup l {s} {u} i r ne = let (w, v) = Reach-Inv l i r in awake l u w v ne
