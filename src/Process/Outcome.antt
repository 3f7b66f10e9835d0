-- ===== src/Process/Outcome.antt =====
-- What a process of src/userprog/process.c and its parent can rely on.
use csed.Common.{
  ℕ, zero, suc, ◌≤◌, ◌≡◌, ◌≢◌, ◌⊎◌, refl, Bool, ◌==◌, true, false, ◌||◌, arith, Bool-cases, inl,
  inr, if◌then◌else◌,
}
use csed.Process.Family.{
  Shared, Child, Parent, start_process, process_cleanup, sys_exec, process_wait, release_child,
  Step, by_start, by_cleanup, by_exec, by_wait, by_release, Reach, up,
}
use csed.Process.Places.{
  SaysChild, is_freed, is_done, zombie_down, zombie_up, wait_up, load_up, IsSound,
}
use csed.Process.Reaping.{Reach-IsSound}

freed_down : (c : Child) (s : Shared) → SaysChild c s → is_freed c ≡ true → zombie_down c ≡ 1
freed_down Child.aborted s v h = refl
freed_down Child.exited s v h = refl
freed_down Child.unstarted s v h = absurd v
freed_down Child.loading s v h = absurd (cc (h))
freed_down Child.loaded s v h = absurd (cc (h))
freed_down Child.failed s v h = absurd (cc (h))
freed_down Child.running s v h = absurd (cc (h))
freed_down Child.cleaning s v h = absurd (cc (h))
freed_down Child.zombie s v h = absurd (cc (h))

-- The parent is in the loop of process_cleanup, behind sema_up of zombie_sema.
abbrev pub is_leaving : Parent → Bool
is_leaving Parent.leaving = true
is_leaving _ = false

up_done : (p : Parent) → zombie_up p ≡ 1 → (is_done p || is_leaving p) ≡ true
up_done Parent.leaving h = refl
up_done Parent.refused h = refl
up_done (Parent.reaped status) h = refl
up_done Parent.left h = refl
up_done Parent.created h = absurd (omega arith)
up_done Parent.listed h = absurd (omega arith)
up_done Parent.woken h = absurd (omega arith)
up_done Parent.executed h = absurd (omega arith)
up_done Parent.waiting h = absurd (omega arith)
up_done Parent.waited h = absurd (omega arith)
up_done (Parent.got status) h = absurd (omega arith)

up_bound : (p : Parent) → zombie_up p ≤ 1
up_bound Parent.refused = omega arith
up_bound (Parent.reaped status) = omega arith
up_bound Parent.left = omega arith
up_bound Parent.leaving = omega arith
up_bound Parent.created = omega arith
up_bound Parent.listed = omega arith
up_bound Parent.woken = omega arith
up_bound Parent.executed = omega arith
up_bound Parent.waiting = omega arith
up_bound Parent.waited = omega arith
up_bound (Parent.got status) = omega arith

-- For a child that the parent starts by sys_exec, with a page for argv in start_process: however the
-- two threads interleave, the child's `struct thread` is freed only when the parent has done with it, or
-- is in the loop of process_cleanup, between the sema_up of zombie_sema and the list_next that reads
-- the child's child_elem.
pub freed_last :
    (c : Child) (p : Parent) (s : Shared)
    → Reach true c p s
    → is_freed c ≡ true
    → (is_done p || is_leaving p) ≡ true
freed_last c p s r h =
    let v = Reach-IsSound c p s r in
    up_done p (omega (arith, v.zombie, freed_down c s v.child h, up_bound p))

-- The child is behind process_cleanup.
abbrev pub has_exited : Child → Bool
has_exited Child.zombie = true
has_exited Child.exited = true
has_exited _ = false

up_exited : (c : Child) → 1 ≤ wait_up c → has_exited c ≡ true
up_exited Child.zombie h = refl
up_exited Child.exited h = refl
up_exited Child.aborted h = absurd (omega arith)
up_exited Child.loading h = absurd (omega arith)
up_exited Child.loaded h = absurd (omega arith)
up_exited Child.failed h = absurd (omega arith)
up_exited Child.running h = absurd (omega arith)
up_exited Child.cleaning h = absurd (omega arith)
up_exited Child.unstarted h = absurd (omega arith)

-- For a child that the parent starts by sys_exec, with a page for argv in start_process: process_wait
-- returns once the child has loaded and is behind its process_cleanup, and then with the status that process_cleanup stored.
pub process_wait_lem :
    (c : Child) (status : ℕ) (s : Shared)
    → Reach true c (Parent.reaped status) s
    → (has_exited c ≡ true) × (s.load_success ≡ true) × (s.exit_status ≡ status)
process_wait_lem c status s r =
    let v = Reach-IsSound c (Parent.reaped status) s r in
    (up_exited c (omega (arith, v.wait)), v.parent.0, v.parent.1)

-- A step that the two threads can make.
abbrev pub Moves : Child → Parent → Shared → Type 0
Moves c p s = (c' : Child) × (p' : Parent) × (s' : Shared) × Step true c p s c' p' s'

-- A thread that is not asleep on a semaphore at 0 can go on.
down_some : (value : ℕ) → value ≢ 0 → (rest : ℕ) × (value ≡ suc rest)
down_some zero n = absurd (n refl)
down_some (suc value) n = (value, refl)

-- The parent goes on once the child is behind load, and behind process_cleanup if load succeeded.
parent-Moves :
    (c : Child) (p : Parent) (s : Shared)
    → IsSound c p s
    → load_up c ≡ 1
    → (s.load_success ≡ true → wait_up c ≡ 1)
    → zombie_up p ≡ 0
    → Moves c p s
unfolding sys_exec process_wait
parent-Moves c Parent.created s v l w z = (c, Parent.listed, s, by_exec refl)
parent-Moves c Parent.listed s v l w z =
    let (rest, e) = down_some s.load_sema (λ q. absurd (omega (arith, v.load))) in
    (c, Parent.woken, record s { load_sema = rest }, by_exec (rw (e) refl))
parent-Moves c Parent.woken s v l w z =
    let r : Parent × Shared =
      if s.load_success
      then (Parent.executed, s)
      else (Parent.refused, record s { zombie_sema = up s.zombie_sema }) in
    (c, r.0, r.1, by_exec refl)
parent-Moves c Parent.executed s v l w z = (c, Parent.waiting, s, by_wait refl)
parent-Moves c Parent.waiting s v l w z =
    let (rest, e) = down_some s.wait_sema (λ q. absurd (omega (arith, v.wait, w v.parent))) in
    (c, Parent.waited, record s { wait_sema = rest }, by_wait (rw (e) refl))
parent-Moves c Parent.waited s v l w z = (c, Parent.got s.exit_status, s, by_wait refl)
parent-Moves c (Parent.got status) s v l w z =
    (c, Parent.reaped status, record s { zombie_sema = up s.zombie_sema }, by_wait refl)
parent-Moves c Parent.refused s v l w z = absurd (omega arith)
parent-Moves c Parent.left s v l w z = absurd (omega arith)
parent-Moves c Parent.leaving s v l w z = absurd (omega arith)
parent-Moves c (Parent.reaped status) s v l w z = absurd (omega arith)

-- A state in which something can still happen, or both have ended.
abbrev pub Goes : Child → Parent → Shared → Type 0
Goes c p s = ((is_freed c ≡ true) × (is_done p ≡ true)) ⊎ Moves c p s

freed-Goes :
    (c : Child) (p : Parent) (s : Shared)
    → is_freed c ≡ true
    → (is_done p || is_leaving p) ≡ true
    → Goes c p s
unfolding release_child
freed-Goes c Parent.leaving s h d = inr (c, Parent.left, s, by_release refl)
freed-Goes c Parent.refused s h d = inl (h, refl)
freed-Goes c Parent.left s h d = inl (h, refl)
freed-Goes c (Parent.reaped status) s h d = inl (h, refl)
freed-Goes c Parent.created s h d = absurd (cc (d))
freed-Goes c Parent.listed s h d = absurd (cc (d))
freed-Goes c Parent.woken s h d = absurd (cc (d))
freed-Goes c Parent.executed s h d = absurd (cc (d))
freed-Goes c Parent.waiting s h d = absurd (cc (d))
freed-Goes c Parent.waited s h d = absurd (cc (d))
freed-Goes c (Parent.got status) s h d = absurd (cc (d))

failed-Goes : (p : Parent) (s : Shared) → IsSound Child.failed p s → Goes Child.failed p s
unfolding start_process
failed-Goes p s v = elim (Bool-cases (zombie_up p == 0)) [
  | inl z ↦
      inr (parent-Moves Child.failed p s v refl (λ t. absurd (cc (t, v.child))) (ground arith))
  | inr z ↦
      let (rest, e) = down_some s.zombie_sema (λ q. absurd (ground (arith, v.zombie))) in
      inr (Child.aborted, p, record s { zombie_sema = rest }, by_start true (rw (e) refl))
]

zombie-Goes : (p : Parent) (s : Shared) → IsSound Child.zombie p s → Goes Child.zombie p s
unfolding process_cleanup
zombie-Goes p s v = elim (Bool-cases (zombie_up p == 0)) [
  | inl z ↦ inr (parent-Moves Child.zombie p s v refl (λ t. refl) (ground arith))
  | inr z ↦
      let (rest, e) = down_some s.zombie_sema (λ q. absurd (ground (arith, v.zombie))) in
      inr (Child.exited, p, record s { zombie_sema = rest }, by_cleanup 0 (rw (e) refl))
]

-- For a child that the parent starts by sys_exec, with a page for argv in start_process: the two
-- threads never wait for each other. In every state that they reach, one of them can go on,
-- or the child's `struct thread` is freed and the parent has done with it.
pub no_deadlock : (c : Child) (p : Parent) (s : Shared) → Reach true c p s → Goes c p s
unfolding start_process process_cleanup
no_deadlock Child.loading p s r =
    inr (Child.loaded, p, record s { load_success = true }, by_start true refl)
no_deadlock Child.loaded p s r = inr (
  if s.load_success then Child.running else Child.failed,
  p,
  record s { load_sema = up s.load_sema },
  by_start true refl,
)
no_deadlock Child.running p s r =
    inr (Child.cleaning, p, record s { exit_status = 0 }, by_cleanup 0 refl)
no_deadlock Child.cleaning p s r =
    inr (Child.zombie, p, record s { wait_sema = up s.wait_sema }, by_cleanup 0 refl)
no_deadlock Child.failed p s r = failed-Goes p s (Reach-IsSound Child.failed p s r)
no_deadlock Child.zombie p s r = zombie-Goes p s (Reach-IsSound Child.zombie p s r)
no_deadlock Child.aborted p s r =
    freed-Goes Child.aborted p s refl (freed_last Child.aborted p s r refl)
no_deadlock Child.unstarted p s r = absurd ((Reach-IsSound Child.unstarted p s r).child)
no_deadlock Child.exited p s r =
    freed-Goes Child.exited p s refl (freed_last Child.exited p s r refl)
