-- ===== src/Process/Unstarted.antt =====
-- A child for which start_process in src/userprog/process.c finds no page for argv.
use csed.Common.{◌≡◌, Bool, true, false}
use csed.Process.Family.{Shared, Child, Parent}

-- The child has done nothing for its parent.
abbrev pub is_silent : Child → Bool
is_silent Child.loading = true
is_silent Child.unstarted = true
is_silent _ = false

-- The parent is in sys_exec, and not behind its sema_down.
abbrev pub in_exec : Parent → Bool
in_exec Parent.created = true
in_exec Parent.listed = true
in_exec _ = false

record IsLost (c : Child) (p : Parent) (s : Shared) : Type 0 where
  silent : is_silent c ≡ true
  waits : in_exec p ≡ true
  unloaded : s.load_sema ≡ 0
