-- ===== src/Process/Family.antt =====
-- A process that src/userprog/syscall.c starts by sys_exec, and its parent, over the semaphores of
-- `struct thread`: start_process, process_wait and process_cleanup in src/userprog/process.c. Each
-- step is one action on what the two threads share; `none` is a thread that sleeps in sema_down, or
-- that is at another place in the code.
use csed.Common.{ℕ, zero, suc, Bool, true, false, Option, none, some, ◌>>=◌, if◌then◌else◌, ◌≡◌}

-- What the two threads share, in the child's `struct thread`.
pub record Shared : Type 0 where
  pub load_sema : ℕ
  pub load_success : Bool
  pub exit_status : ℕ
  pub wait_sema : ℕ
  pub zombie_sema : ℕ

-- Where the child is: before load is done; before sema_up of load_sema; in a system call for
-- sema_down of zombie_sema after a load that failed; in the program; before sema_up of wait_sema;
-- before sema_down of zombie_sema. Then its `struct thread` is freed; `unstarted` is after the
-- thread_exit of start_process without a page for argv.
pub data Child : Type 0 where
  loading loaded failed running cleaning zombie aborted exited unstarted : Child

-- Where the parent is: after thread_create; before sema_down of load_sema; before the test of
-- load_success; in its program; before sema_down of wait_sema; before it reads exit_status; before sema_up of zombie_sema with
-- the status; `leaving` is in the loop of process_cleanup before list_next. Then it has done with the
-- child.
pub data Parent : Type 0 where
  created listed woken executed waiting waited refused leaving left : Parent
  got : ℕ → Parent
  reaped : ℕ → Parent

-- sema_up, and sema_down where it does not sleep.
abbrev pub up : ℕ → ℕ
up value = suc value

abbrev pub down : ℕ → Option ℕ
down zero = none
down (suc value) = some value

-- `memory` says whether palloc_get_page finds a page for argv, and `success` is what load returns.
unfoldable pub start_process : Bool → Bool → Child → Shared → Option (Child × Shared)
start_process false success Child.loading s = some (Child.unstarted, s)
start_process true success Child.loading s =
    some (Child.loaded, record s { load_success = success })
start_process memory success Child.loaded s = some (
  if s.load_success then Child.running else Child.failed,
  record s { load_sema = up s.load_sema },
)
start_process memory success Child.failed s = do
  value ← down s.zombie_sema
  some (Child.aborted, record s { zombie_sema = value })
start_process memory success _ s = none

-- process_cleanup of the child.
unfoldable pub process_cleanup : ℕ → Child → Shared → Option (Child × Shared)
process_cleanup status Child.running s = some (Child.cleaning, record s { exit_status = status })
process_cleanup status Child.cleaning s =
    some (Child.zombie, record s { wait_sema = up s.wait_sema })
process_cleanup status Child.zombie s = do
  value ← down s.zombie_sema
  some (Child.exited, record s { zombie_sema = value })
process_cleanup status _ s = none

-- process_execute puts the child on the list, and sys_exec goes on.
unfoldable pub sys_exec : Parent → Shared → Option (Parent × Shared)
sys_exec Parent.created s = some (Parent.listed, s)
sys_exec Parent.listed s = do
  value ← down s.load_sema
  some (Parent.woken, record s { load_sema = value })
sys_exec Parent.woken s = some (
    if s.load_success
    then (Parent.executed, s)
    else (Parent.refused, record s { zombie_sema = up s.zombie_sema }))
sys_exec _ s = none

-- process_wait for a child on the list.
unfoldable pub process_wait : Parent → Shared → Option (Parent × Shared)
process_wait Parent.executed s = some (Parent.waiting, s)
process_wait Parent.waiting s = do
  value ← down s.wait_sema
  some (Parent.waited, record s { wait_sema = value })
process_wait Parent.waited s = some (Parent.got s.exit_status, s)
process_wait (Parent.got status) s =
    some (Parent.reaped status, record s { zombie_sema = up s.zombie_sema })
process_wait _ s = none

-- The loop of the parent's process_cleanup over its children, for one that is on its list: sema_up of
-- zombie_sema, and then list_next, which reads the child's child_elem.
unfoldable pub release_child : Parent → Shared → Option (Parent × Shared)
release_child Parent.executed s = some (Parent.leaving, record s { zombie_sema = up s.zombie_sema })
release_child Parent.leaving s = some (Parent.left, s)
release_child _ s = none

-- The two threads in turn, in any order. `memory` says whether there is a page for argv.
pub data Step (memory : Bool) : Child → Parent → Shared → Child → Parent → Shared → Type 0 where
  by_start :
      {c c' : Child} {p : Parent} {s s' : Shared} (success : Bool)
      → start_process memory success c s ≡ some (c', s')
      → Step memory c p s c' p s'
  by_cleanup :
      {c c' : Child} {p : Parent} {s s' : Shared} (status : ℕ)
      → process_cleanup status c s ≡ some (c', s')
      → Step memory c p s c' p s'
  by_exec :
      {c : Child} {p p' : Parent} {s s' : Shared}
      → sys_exec p s ≡ some (p', s')
      → Step memory c p s c p' s'
  by_wait :
      {c : Child} {p p' : Parent} {s s' : Shared}
      → process_wait p s ≡ some (p', s')
      → Step memory c p s c p' s'
  by_release :
      {c : Child} {p p' : Parent} {s s' : Shared}
      → release_child p s ≡ some (p', s')
      → Step memory c p s c p' s'

abbrev pub initial : Shared
initial = record {
  load_sema = 0;
  load_success = false;
  exit_status = 0;
  wait_sema = 0;
  zombie_sema = 0;
}

-- What can happen after thread_create.
pub data Reach (memory : Bool) : Child → Parent → Shared → Type 0 where
  start : Reach memory Child.loading Parent.created initial
  later :
      {c c' : Child} {p p' : Parent} {s s' : Shared}
      → Reach memory c p s
      → Step memory c p s c' p' s'
      → Reach memory c' p' s'
