-- ===== src/Base/Dict/Counts.antt =====
-- How many entries a map has.
use Prim.Native.Nat.{suc}
use mathlib.Core.Path.{◌≡◌, refl, ap, subst}
use mathlib.Core.Logic.{inl, inr}
use mathlib.Core.Option.{none, some}
use mathlib.Core.List.{[], ◌∷◌}
use native.Mathlib.Omega.{arith}
use distributed_service_mesh.Base.Tests.{Bool-cases}
use distributed_service_mesh.Base.Lists.{length}
use distributed_service_mesh.Base.Comparable.{Comparable}
use distributed_service_mesh.Base.Dict.{Dict, get, put, delete, IsMap}

module _ {ℓ κ} {K : Type ℓ} {V : Type κ} ⦃e : Comparable K⦄ where
  pub length-put-new :
      (k : K) (v : V) (m : Dict K V) → get k m ≡ none → length (put k v m) ≡ suc (length m)
  unfolding get put
  length-put-new k v [] h = refl
  length-put-new k v ((j, w) ∷ m) h = elim (Bool-cases (e.compares j k)) [
    | inl same ↦ absurd (ground (arith, same, h))
    | inr other ↦ rw (other, put) (ap suc (length-put-new k v m (ground (arith, other, h))))
  ]

  pub length-put-old :
      (k : K) (v : V) (m : Dict K V) {w : V} → get k m ≡ some w → length (put k v m) ≡ length m
  unfolding get put
  length-put-old k v [] h = absurd (ground (arith, h))
  length-put-old k v ((j, u) ∷ m) {w} h = elim (Bool-cases (e.compares j k)) [
    | inl same ↦ rw (same, put) refl
    | inr other ↦ rw (other, put) (ap suc (length-put-old k v m {w = w} (ground (arith, other, h))))
  ]

  pub delete-absent : (k : K) (m : Dict K V) → get k m ≡ none → delete k m ≡ m
  unfolding get delete
  delete-absent k [] h = refl
  delete-absent k ((j, w) ∷ m) h = elim (Bool-cases (e.compares j k)) [
    | inl same ↦ absurd (ground (arith, same, h))
    | inr other ↦
        rw (other, delete) (ap (λ n. (j, w) ∷ n) (delete-absent k m (ground (arith, other, h))))
  ]

  pub length-delete-old :
      (k : K) (m : Dict K V) {w : V}
      → IsMap m
      → get k m ≡ some w
      → suc (length (delete k m)) ≡ length m
  unfolding get delete IsMap
  length-delete-old k [] v h = absurd (ground (arith, h))
  length-delete-old k ((j, u) ∷ m) {w} v h = elim (Bool-cases (e.compares j k)) [
    | inl same ↦
        let here : j ≡ k = (e.compares_iff j k).0 same in
        rw (same, delete)
          (ap (λ n. suc (length n)) (delete-absent k m (subst (λ i. get i m ≡ none) here v.0)))
    | inr other ↦
        rw (other, delete) (ap suc (length-delete-old k m {w = w} v.1 (ground (arith, other, h))))
  ]
