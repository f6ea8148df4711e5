-- ===== src/Shared/Equality.antt =====
-- Keys that a Python dictionary can look up: types with a Boolean test of equality.
use mathlib.Core.Path.{◌≡◌, refl}
use mathlib.Core.Logic.{◌↔◌, ◌≢◌}
use mathlib.Core.Bool.{Bool, true, false}
use native.Mathlib.Omega.{arith}

pub record Comparable {ℓ} (K : Type ℓ) : Type ℓ where
  pub same : (left right : K) → Bool
  pub same_iff : (left right : K) → (same left right ≡ true) ↔ (left ≡ right)

module _ {ℓ} {K : Type ℓ} ⦃keys : Comparable K⦄ where
  infix 50 ◌==◌
  abbrev pub ◌==◌ : K → K → Bool
  left == right = keys.same left right

  pub beq_self : (k : K) → (k == k) ≡ true
  beq_self k = (keys.same_iff k k).1 refl

  pub beq_ne : (k l : K) → k ≢ l → (k == l) ≡ false
  beq_ne k l h = ground (arith, keys.same_iff k l)
