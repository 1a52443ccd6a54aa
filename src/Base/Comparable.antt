-- ===== src/Base/Comparable.antt =====
-- Types that Go's `==` compares, as an interface: a Boolean test that decides equality.
use mathlib.Core.Path.{◌≡◌, refl}
use mathlib.Core.Logic.{◌↔◌, ◌≢◌}
use mathlib.Core.Bool.{Bool, true, false}
use native.Mathlib.Omega.{arith}

pub record Comparable {ℓ} (A : Type ℓ) : Type ℓ where
  pub compares : A → A → Bool
  pub compares_iff : (x y : A) → (compares x y ≡ true) ↔ (x ≡ y)

module _ {ℓ} {A : Type ℓ} ⦃e : Comparable A⦄ where
  pub compares_refl : (a : A) → e.compares a a ≡ true
  compares_refl a = (e.compares_iff a a).1 refl

  pub compares_ne : (a b : A) → a ≢ b → e.compares a b ≡ false
  compares_ne a b h = ground (arith, e.compares_iff a b)
