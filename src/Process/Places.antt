-- ===== src/Process/Places.antt =====
-- Where a process of src/userprog/process.c and its parent are, and what holds there.
use csed.Common.{
  ℕ, zero, suc, ◌+◌, ◌≤◌, ◌≡◌, refl, Bool, true, false, none, some, arith, Option, ◌∙◌, subst,
  ◌>>=◌,
}
use mathlib.Core.Option.{some-injective}
use csed.Process.Family.{Shared, Child, Parent, down}

-- How often each of them has passed a semaphore's operation.
abbrev pub load_up : Child → ℕ
load_up Child.loading = 0
load_up Child.loaded = 0
load_up Child.unstarted = 0
load_up _ = 1

abbrev pub load_down : Parent → ℕ
load_down Parent.created = 0
load_down Parent.listed = 0
load_down _ = 1

abbrev pub wait_up : Child → ℕ
wait_up Child.zombie = 1
wait_up Child.exited = 1
wait_up _ = 0

abbrev pub wait_down : Parent → ℕ
wait_down Parent.waited = 1
wait_down (Parent.got status) = 1
wait_down (Parent.reaped status) = 1
wait_down _ = 0

abbrev pub zombie_down : Child → ℕ
zombie_down Child.aborted = 1
zombie_down Child.exited = 1
zombie_down _ = 0

abbrev pub zombie_up : Parent → ℕ
zombie_up Parent.refused = 1
zombie_up (Parent.reaped status) = 1
zombie_up Parent.left = 1
zombie_up Parent.leaving = 1
zombie_up _ = 0

-- The `struct thread` of the child is freed, and the parent has done with it.
abbrev pub is_freed : Child → Bool
is_freed Child.aborted = true
is_freed Child.exited = true
is_freed Child.unstarted = true
is_freed _ = false

abbrev pub is_done : Parent → Bool
is_done Parent.refused = true
is_done (Parent.reaped status) = true
is_done Parent.left = true
is_done _ = false

-- What the places say about load_success and exit_status. With a page for argv the child starts.
abbrev pub SaysChild : Child → Shared → Type 0
SaysChild Child.loading s = Unit
SaysChild Child.loaded s = Unit
SaysChild Child.unstarted s = ⊥
SaysChild Child.failed s = s.load_success ≡ false
SaysChild Child.aborted s = s.load_success ≡ false
SaysChild _ s = s.load_success ≡ true

abbrev pub SaysParent : Parent → Shared → Type 0
SaysParent Parent.created s = Unit
SaysParent Parent.listed s = Unit
SaysParent Parent.woken s = Unit
SaysParent Parent.refused s = s.load_success ≡ false
SaysParent (Parent.got status) s = (s.load_success ≡ true) × (s.exit_status ≡ status)
SaysParent (Parent.reaped status) s = (s.load_success ≡ true) × (s.exit_status ≡ status)
SaysParent _ s = s.load_success ≡ true

pub record IsSound (c : Child) (p : Parent) (s : Shared) : Type 0 where
  pub load : s.load_sema + load_down p ≡ load_up c
  pub wait : s.wait_sema + wait_down p ≡ wait_up c
  pub zombie : s.zombie_sema + zombie_down c ≡ zombie_up p
  pub child : SaysChild c s
  pub parent : SaysParent p s

-- What holds of a result, if there is one.
abbrev pub IfAny {ℓ} : {A : Type ℓ} → Option A → (A → Type 0) → Type 0
IfAny none P = Unit
IfAny (some a) P = P a

pub use_IfAny {ℓ} :
    {A : Type ℓ} (P : A → Type 0) (m : Option A) (a : A) → IfAny m P → m ≡ some a → P a
use_IfAny P none a h e = absurd (cc (e))
use_IfAny P (some b) a h e = subst P (some-injective b a e) h

-- The parent says nothing while it sleeps for load, and no status before it has waited.
pub parent_early : (p : Parent) (s s' : Shared) → load_down p ≡ 0 → SaysParent p s'
parent_early Parent.created s s' h = tt
parent_early Parent.listed s s' h = tt
parent_early Parent.woken s s' h = tt
parent_early Parent.executed s s' h = absurd (omega arith)
parent_early Parent.waiting s s' h = absurd (omega arith)
parent_early Parent.waited s s' h = absurd (omega arith)
parent_early Parent.refused s s' h = absurd (omega arith)
parent_early Parent.left s s' h = absurd (omega arith)
parent_early Parent.leaving s s' h = absurd (omega arith)
parent_early (Parent.got status) s s' h = absurd (omega arith)
parent_early (Parent.reaped status) s s' h = absurd (omega arith)

pub parent_same :
    (p : Parent) (s s' : Shared)
    → s'.load_success ≡ s.load_success
    → (1 ≤ wait_down p → s'.exit_status ≡ s.exit_status)
    → SaysParent p s
    → SaysParent p s'
parent_same Parent.created s s' e f h = tt
parent_same Parent.listed s s' e f h = tt
parent_same Parent.woken s s' e f h = tt
parent_same Parent.executed s s' e f h = e ∙ h
parent_same Parent.waiting s s' e f h = e ∙ h
parent_same Parent.waited s s' e f h = e ∙ h
parent_same Parent.refused s s' e f h = e ∙ h
parent_same Parent.left s s' e f h = e ∙ h
parent_same Parent.leaving s s' e f h = e ∙ h
parent_same (Parent.got status) s s' e f (h, g) = (e ∙ h, f (omega arith) ∙ g)
parent_same (Parent.reaped status) s s' e f (h, g) = (e ∙ h, f (omega arith) ∙ g)

-- A semaphore that is not 0 is passed.
pub down-IfAny {ℓ} :
    {B : Type ℓ} (value : ℕ) (f : ℕ → B) (P : B → Type 0)
    → ((rest : ℕ) → value ≡ suc rest → P (f rest))
    → IfAny (down value >>= λ rest. some (f rest)) P
down-IfAny zero f P h = tt
down-IfAny (suc value) f P h = h value refl

pub child_same :
    (c : Child) (s s' : Shared) → s'.load_success ≡ s.load_success → SaysChild c s → SaysChild c s'
child_same Child.loading s s' e h = tt
child_same Child.loaded s s' e h = tt
child_same Child.failed s s' e h = e ∙ h
child_same Child.aborted s s' e h = e ∙ h
child_same Child.running s s' e h = e ∙ h
child_same Child.cleaning s s' e h = e ∙ h
child_same Child.zombie s s' e h = e ∙ h
child_same Child.exited s s' e h = e ∙ h
child_same Child.unstarted s s' e h = h
