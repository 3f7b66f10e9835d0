-- ===== src/Common/Fault.antt =====
-- Code that can fail an ASSERT or call PANIC returns an `Option`: `none` is the panic.
use mathlib.Core.Path.{◌≡◌, refl}
use mathlib.Core.Bool.{Bool, true, false}
use mathlib.Core.Option.{Option, none, some}

infixl 5 ◌>>=◌ ◌>>◌
abbrev pub ◌>>=◌ {ℓ κ} : {A : Type ℓ} {B : Type κ} → Option A → (A → Option B) → Option B
none >>= f = none
some a >>= f = f a

abbrev pub ◌>>◌ {ℓ} : {B : Type ℓ} → Option (Unit {0}) → Option B → Option B
m >> k = m >>= λ _. k

-- ASSERT (b).
abbrev pub check : Bool → Option (Unit {0})
check true = some tt
check false = none

-- The code returns, and its result satisfies `P`.
abbrev pub Returns {ℓ} : {A : Type ℓ} → Option A → (A → Type 0) → Type 0
Returns none P = ⊥
Returns (some a) P = P a

pub Returns-bind {ℓ κ} :
    {A : Type ℓ} {B : Type κ} (P : A → Type 0) (Q : B → Type 0) (m : Option A) (f : A → Option B)
    → Returns m P
    → ((a : A) → P a → Returns (f a) Q)
    → Returns (m >>= f) Q
Returns-bind P Q none f h g = h
Returns-bind P Q (some a) f h g = g a h

pub Returns-mono {ℓ} :
    {A : Type ℓ} (P Q : A → Type 0) (m : Option A)
    → Returns m P
    → ((a : A) → P a → Q a)
    → Returns m Q
Returns-mono P Q none h g = h
Returns-mono P Q (some a) h g = g a h

-- The code panics if `b` holds, and otherwise returns a result that satisfies `P`.
abbrev pub PanicsIf : {A : Type 0} → Bool → Option A → (A → Type 0) → Type 0
PanicsIf true m P = m ≡ none
PanicsIf false m P = Returns m P

pub PanicsIf-intro :
    {A : Type 0} (b : Bool) (m : Option A) (P : A → Type 0)
    → (b ≡ true → m ≡ none)
    → (b ≡ false → Returns m P)
    → PanicsIf b m P
PanicsIf-intro true m P f g = f refl
PanicsIf-intro false m P f g = g refl

pub PanicsIf-returns :
    {A : Type 0} (b : Bool) (m : Option A) (P : A → Type 0)
    → b ≡ false
    → PanicsIf b m P
    → Returns m P
PanicsIf-returns true m P e h = absurd (cc)
PanicsIf-returns false m P e h = h

-- The result of code that returns.
pub Returns-result {ℓ} :
    {A : Type ℓ} (P : A → Type 0) (m : Option A) → Returns m P → (a : A) × (m ≡ some a) × P a
Returns-result P none h = absurd h
Returns-result P (some a) h = (a, refl, h)
