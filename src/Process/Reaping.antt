-- ===== src/Process/Reaping.antt =====
-- The invariant of a process and its parent in src/userprog/process.c, with a page for argv.
use csed.Common.{ℕ, ◌≡◌, refl, Bool, true, false, arith, if◌then◌else◌}
use csed.Process.Family.{
  Shared, Child, Parent, start_process, process_cleanup, sys_exec, process_wait, release_child,
  Step, by_start, by_cleanup, by_exec, by_wait, by_release, Reach, start, later, up,
}
use csed.Process.Places.{
  IsSound, IfAny, use_IfAny, parent_early, parent_same, down-IfAny, child_same,
}

loaded-IsSound :
    (b : Bool) (p : Parent) (s : Shared)
    → s.load_success ≡ b
    → IsSound Child.loaded p s
    → IsSound
        (if b then Child.running else Child.failed)
        p
        (record s { load_sema = up s.load_sema })
loaded-IsSound true p s e v = record {
  load = omega (arith, v.load);
  wait = v.wait;
  zombie = v.zombie;
  child = e;
  parent = parent_same p s (record s { load_sema = up s.load_sema }) refl (λ h. refl) v.parent;
}
loaded-IsSound false p s e v = record {
  load = omega (arith, v.load);
  wait = v.wait;
  zombie = v.zombie;
  child = e;
  parent = parent_same p s (record s { load_sema = up s.load_sema }) refl (λ h. refl) v.parent;
}

start_process-IsSound :
    (success : Bool) (c : Child) (p : Parent) (s : Shared)
    → IsSound c p s
    → IfAny (start_process true success c s) λ r. IsSound r.0 p r.1
unfolding start_process
start_process-IsSound success Child.loading p s v = record {
  load = v.load;
  wait = v.wait;
  zombie = v.zombie;
  child = tt;
  parent = parent_early p s (record s { load_success = success }) (omega (arith, v.load));
}
start_process-IsSound success Child.loaded p s v = loaded-IsSound s.load_success p s refl v
start_process-IsSound success Child.failed p s v =
    down-IfAny s.zombie_sema (λ value. (Child.aborted, record s { zombie_sema = value }))
      (λ r. IsSound r.0 p r.1)
      λ value e. record {
        load = v.load;
        wait = v.wait;
        zombie = omega (arith, v.zombie, e);
        child = v.child;
        parent = parent_same p s (record s { zombie_sema = value }) refl (λ h. refl) v.parent;
      }
start_process-IsSound success Child.running p s v = tt
start_process-IsSound success Child.cleaning p s v = tt
start_process-IsSound success Child.zombie p s v = tt
start_process-IsSound success Child.aborted p s v = tt
start_process-IsSound success Child.exited p s v = tt
start_process-IsSound success Child.unstarted p s v = tt

process_cleanup-IsSound :
    (status : ℕ) (c : Child) (p : Parent) (s : Shared)
    → IsSound c p s
    → IfAny (process_cleanup status c s) λ r. IsSound r.0 p r.1
unfolding process_cleanup
process_cleanup-IsSound status Child.running p s v = record {
  load = v.load;
  wait = v.wait;
  zombie = v.zombie;
  child = v.child;
  parent =
      parent_same p s (record s { exit_status = status }) refl (λ h. absurd (omega (arith, v.wait)))
        v.parent;
}
process_cleanup-IsSound status Child.cleaning p s v = record {
  load = v.load;
  wait = omega (arith, v.wait);
  zombie = v.zombie;
  child = v.child;
  parent = parent_same p s (record s { wait_sema = up s.wait_sema }) refl (λ h. refl) v.parent;
}
process_cleanup-IsSound status Child.zombie p s v =
    down-IfAny s.zombie_sema (λ value. (Child.exited, record s { zombie_sema = value }))
      (λ r. IsSound r.0 p r.1)
      λ value e. record {
        load = v.load;
        wait = v.wait;
        zombie = omega (arith, v.zombie, e);
        child = v.child;
        parent = parent_same p s (record s { zombie_sema = value }) refl (λ h. refl) v.parent;
      }
process_cleanup-IsSound status Child.loading p s v = tt
process_cleanup-IsSound status Child.loaded p s v = tt
process_cleanup-IsSound status Child.failed p s v = tt
process_cleanup-IsSound status Child.aborted p s v = tt
process_cleanup-IsSound status Child.exited p s v = tt
process_cleanup-IsSound status Child.unstarted p s v = tt

woken-IsSound :
    (b : Bool) (c : Child) (s : Shared)
    → s.load_success ≡ b
    → IsSound c Parent.woken s
    → let r : Parent × Shared =
        if b
        then (Parent.executed, s)
        else (Parent.refused, record s { zombie_sema = up s.zombie_sema }) in
      IsSound c r.0 r.1
woken-IsSound true c s e v = record {
  load = v.load;
  wait = v.wait;
  zombie = v.zombie;
  child = v.child;
  parent = e;
}
woken-IsSound false c s e v = record {
  load = v.load;
  wait = v.wait;
  zombie = omega (arith, v.zombie);
  child = child_same c s (record s { zombie_sema = up s.zombie_sema }) refl v.child;
  parent = e;
}

sys_exec-IsSound :
    (c : Child) (p : Parent) (s : Shared)
    → IsSound c p s
    → IfAny (sys_exec p s) λ r. IsSound c r.0 r.1
unfolding sys_exec
sys_exec-IsSound c Parent.created s v = record {
  load = v.load;
  wait = v.wait;
  zombie = v.zombie;
  child = v.child;
  parent = tt;
}
sys_exec-IsSound c Parent.listed s v =
    down-IfAny s.load_sema (λ value. (Parent.woken, record s { load_sema = value }))
      (λ r. IsSound c r.0 r.1)
      λ value e. record {
        load = omega (arith, v.load, e);
        wait = v.wait;
        zombie = v.zombie;
        child = child_same c s (record s { load_sema = value }) refl v.child;
        parent = tt;
      }
sys_exec-IsSound c Parent.woken s v = woken-IsSound s.load_success c s refl v
sys_exec-IsSound c Parent.executed s v = tt
sys_exec-IsSound c Parent.waiting s v = tt
sys_exec-IsSound c Parent.waited s v = tt
sys_exec-IsSound c Parent.refused s v = tt
sys_exec-IsSound c Parent.left s v = tt
sys_exec-IsSound c Parent.leaving s v = tt
sys_exec-IsSound c (Parent.got status) s v = tt
sys_exec-IsSound c (Parent.reaped status) s v = tt

process_wait-IsSound :
    (c : Child) (p : Parent) (s : Shared)
    → IsSound c p s
    → IfAny (process_wait p s) λ r. IsSound c r.0 r.1
unfolding process_wait
process_wait-IsSound c Parent.executed s v = record {
  load = v.load;
  wait = v.wait;
  zombie = v.zombie;
  child = v.child;
  parent = v.parent;
}
process_wait-IsSound c Parent.waiting s v =
    down-IfAny s.wait_sema (λ value. (Parent.waited, record s { wait_sema = value }))
      (λ r. IsSound c r.0 r.1)
      λ value e. record {
        load = v.load;
        wait = omega (arith, v.wait, e);
        zombie = v.zombie;
        child = child_same c s (record s { wait_sema = value }) refl v.child;
        parent = v.parent;
      }
process_wait-IsSound c Parent.waited s v = record {
  load = v.load;
  wait = v.wait;
  zombie = v.zombie;
  child = v.child;
  parent = (v.parent, refl);
}
process_wait-IsSound c (Parent.got status) s v = record {
  load = v.load;
  wait = v.wait;
  zombie = omega (arith, v.zombie);
  child = child_same c s (record s { zombie_sema = up s.zombie_sema }) refl v.child;
  parent = v.parent;
}
process_wait-IsSound c Parent.created s v = tt
process_wait-IsSound c Parent.listed s v = tt
process_wait-IsSound c Parent.woken s v = tt
process_wait-IsSound c Parent.refused s v = tt
process_wait-IsSound c Parent.left s v = tt
process_wait-IsSound c Parent.leaving s v = tt
process_wait-IsSound c (Parent.reaped status) s v = tt

release_child-IsSound :
    (c : Child) (p : Parent) (s : Shared)
    → IsSound c p s
    → IfAny (release_child p s) λ r. IsSound c r.0 r.1
unfolding release_child
release_child-IsSound c Parent.executed s v = record {
  load = v.load;
  wait = v.wait;
  zombie = omega (arith, v.zombie);
  child = child_same c s (record s { zombie_sema = up s.zombie_sema }) refl v.child;
  parent = v.parent;
}
release_child-IsSound c Parent.leaving s v = record {
  load = v.load;
  wait = v.wait;
  zombie = v.zombie;
  child = v.child;
  parent = v.parent;
}
release_child-IsSound c Parent.created s v = tt
release_child-IsSound c Parent.listed s v = tt
release_child-IsSound c Parent.woken s v = tt
release_child-IsSound c Parent.waiting s v = tt
release_child-IsSound c Parent.waited s v = tt
release_child-IsSound c Parent.refused s v = tt
release_child-IsSound c Parent.left s v = tt
release_child-IsSound c (Parent.got status) s v = tt
release_child-IsSound c (Parent.reaped status) s v = tt

Step-IsSound :
    (c c' : Child) (p p' : Parent) (s s' : Shared)
    → IsSound c p s
    → Step true c p s c' p' s'
    → IsSound c' p' s'
Step-IsSound c c' p _ s s' v (by_start success e) =
    use_IfAny (λ r. IsSound r.0 p r.1) (start_process true success c s) (c', s')
      (start_process-IsSound success c p s v) e
Step-IsSound c c' p _ s s' v (by_cleanup status e) =
    use_IfAny (λ r. IsSound r.0 p r.1) (process_cleanup status c s) (c', s')
      (process_cleanup-IsSound status c p s v) e
Step-IsSound c _ p p' s s' v (by_exec e) =
    use_IfAny (λ r. IsSound c r.0 r.1) (sys_exec p s) (p', s') (sys_exec-IsSound c p s v) e
Step-IsSound c _ p p' s s' v (by_wait e) =
    use_IfAny (λ r. IsSound c r.0 r.1) (process_wait p s) (p', s') (process_wait-IsSound c p s v) e
Step-IsSound c _ p p' s s' v (by_release e) =
    use_IfAny (λ r. IsSound c r.0 r.1) (release_child p s) (p', s') (release_child-IsSound c p s v)
      e

pub Reach-IsSound : (c : Child) (p : Parent) (s : Shared) → Reach true c p s → IsSound c p s
Reach-IsSound _ _ _ start = record {
  load = refl;
  wait = refl;
  zombie = refl;
  child = tt;
  parent = tt;
}
Reach-IsSound c' p' s' (later {c = c} {p = p} {s = s} r t) =
    Step-IsSound c c' p p' s s' (Reach-IsSound c p s r) t
