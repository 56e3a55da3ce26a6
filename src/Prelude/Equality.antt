-- ===== src/Prelude/Equality.antt =====
-- `===` as an interface: a test with its law.
use Prim.Native.Nat.{ℕ}
use mathlib.Core.Path.{◌≡◌}
use mathlib.Core.Logic.{◌↔◌}
use mathlib.Core.Bool.{Bool, true}
use agex_ts.Prelude.Tests.{nat_eq, nat_eq_iff}

-- `same` answers true exactly for equal values.
pub record Eq {ℓ} (K : Type ℓ) : Type ℓ where
  pub same : K → K → Bool
  pub same_iff : (x y : K) → (same x y ≡ true) ↔ (x ≡ y)

module _ {ℓ} {K : Type ℓ} ⦃e : Eq K⦄ where
  -- `x === y`
  infix 50 ◌==◌
  abbrev pub ◌==◌ : K → K → Bool
  x == y = e.same x y

instance abbrev pub nat_Eq : Eq ℕ
nat_Eq = record { same = nat_eq; same_iff = nat_eq_iff }
