-- ===== src/Common/Store.antt =====
-- A store of objects by address.
use Prim.Native.Nat.{ℕ}
use mathlib.Core.Path.{◌≡◌, refl}
use mathlib.Core.Logic.{◌≢◌, inl, inr}
use native.Mathlib.Omega.{arith}
use csed.Common.Tests.{◌==◌, if◌then◌else◌, Bool-cases, ==_refl}

abbrev pub update {ℓ} : {A : Type ℓ} → (ℕ → A) → ℕ → A → ℕ → A
update f p v q = if p == q then v else f q

module _ {ℓ} {A : Type ℓ} where
  pub update_other : (f : ℕ → A) (p q : ℕ) (v : A) → p ≢ q → update f p v q ≡ f q
  update_other f p q v n = elim (Bool-cases (p == q)) [
    | inl e ↦ absurd (n (ground arith))
    | inr e ↦ rw (e) refl
  ]

  pub update_same : (f : ℕ → A) (p q : ℕ) (v : A) → p ≡ q → update f p v q ≡ v
  update_same f p q v e = rw (e, ==_refl q) refl
