-- ===== src/Base/Sort/Filter.antt =====
-- Filtering a list by a test, under keys.
use mathlib.Core.Path.{◌≡◌, refl}
use mathlib.Core.Logic.{inl, inr}
use mathlib.Core.Bool.{Bool}
use mathlib.Core.Option.{Option, none, some}
use mathlib.Core.List.{List, [], ◌∷◌}
use native.Mathlib.Omega.{arith}
use distributed_service_mesh.Base.Tests.{if◌then◌else◌, Bool-cases}
use distributed_service_mesh.Base.Lists.{keep_if}
use distributed_service_mesh.Base.Text.{Text, text_eq_iff}
use distributed_service_mesh.Base.Sort.{find, Below, IsAscending, find-Below}

module _ {ℓ} {A : Type ℓ} where
  abbrev pub only : (A → Bool) → Option A → Option A
  only p none = none
  only p (some a) = if p a then some a else none

module _ {ℓ} {A : Type ℓ} (key : A → Text) (p : A → Bool) where
  Below-keep_if : (k : Text) (xs : List A) → Below key k xs → Below key k (keep_if p xs)
  Below-keep_if k [] b = tt
  Below-keep_if k (x ∷ xs) b = elim (Bool-cases (p x)) [
    | inl h ↦ rw h (b.0, Below-keep_if k xs b.1)
    | inr h ↦ rw h (Below-keep_if k xs b.1)
  ]

  pub keep_if-IsAscending : (xs : List A) → IsAscending key xs → IsAscending key (keep_if p xs)
  keep_if-IsAscending [] a = tt
  keep_if-IsAscending (x ∷ xs) a = elim (Bool-cases (p x)) [
    | inl h ↦ rw h (Below-keep_if (key x) xs a.0, keep_if-IsAscending xs a.1)
    | inr h ↦ rw h (keep_if-IsAscending xs a.1)
  ]

  pub find-keep_if :
      (k : Text) (xs : List A)
      → IsAscending key xs
      → find key k (keep_if p xs) ≡ only p (find key k xs)
  unfolding find
  find-keep_if k [] a = refl
  find-keep_if k (x ∷ xs) a =
      ground (arith, find-keep_if k xs a.1, text_eq_iff (key x) k, find-Below key (key x) xs a.0)
