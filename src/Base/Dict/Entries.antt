-- ===== src/Base/Dict/Entries.antt =====
-- Predicates on the entries of a map, and the operations.
use mathlib.Core.Path.{◌≡◌, subst, refl, sym, ◌∙◌}
use mathlib.Core.Logic.{inl, inr}
use mathlib.Core.Option.{some, none, none-ne-some}
use mathlib.Core.List.{[], ◌∷◌}
use native.Mathlib.Omega.{arith}
use distributed_service_mesh.Base.Tests.{Bool-cases}
use distributed_service_mesh.Base.Comparable.{Comparable}
use distributed_service_mesh.Base.Dict.{Dict, get, put, delete, IsMap}

module _ {ℓ κ μ} {K : Type ℓ} {V : Type κ} ⦃e : Comparable K⦄ (P : K → V → Type μ) where
  -- What holds of every entry.
  abbrev pub Entries : Dict K V → Type μ
  Entries [] = Unit
  Entries ((k, v) ∷ m) = P k v × Entries m

  pub Entries-get : (k : K) (m : Dict K V) {v : V} → Entries m → get k m ≡ some v → P k v
  unfolding get
  Entries-get k [] h g = ground arith
  Entries-get k ((j, w) ∷ m) {v} h g = elim (Bool-cases (e.compares j k)) [
    | inl same ↦
        let jk : j ≡ k = (e.compares_iff j k).0 same in
        let wv : w ≡ v = ground (arith, same) in subst (λ z. P z v) jk (subst (λ z. P j z) wv h.0)
    | inr other ↦ Entries-get k m h.1 (ground (arith, other))
  ]

  pub put-Entries : (k : K) (v : V) (m : Dict K V) → P k v → Entries m → Entries (put k v m)
  unfolding put
  put-Entries k v [] p h = (p, tt)
  put-Entries k v ((j, w) ∷ m) p h = elim (Bool-cases (e.compares j k)) [
    | inl same ↦ rw same (p, h.1)
    | inr other ↦ rw other (h.0, put-Entries k v m p h.1)
  ]

  pub delete-Entries : (k : K) (m : Dict K V) → Entries m → Entries (delete k m)
  unfolding delete
  delete-Entries k [] h = tt
  delete-Entries k ((j, w) ∷ m) h = elim (Bool-cases (e.compares j k)) [
    | inl same ↦ rw same (delete-Entries k m h.1)
    | inr other ↦ rw other (h.0, delete-Entries k m h.1)
  ]

  -- The converse of `Entries-get`, for a map.
  pub Entries-of_get :
      (m : Dict K V) → IsMap m → ((k : K) (v : V) → get k m ≡ some v → P k v) → Entries m
  unfolding get IsMap
  Entries-of_get [] v h = tt
  Entries-of_get ((j, w) ∷ m) v h = (
    h j w (rw ((e.compares_iff j j).1 refl) refl),
    Entries-of_get m v.1 λ k u g. elim (Bool-cases (e.compares j k)) [
      | inl same ↦
          let here : j ≡ k = (e.compares_iff j k).0 same in
          absurd (none-ne-some u (sym (subst (λ i. get i m ≡ none) here v.0) ∙ g))
      | inr other ↦ h k u (rw other g)
    ],
  )
