-- ===== src/Base/Sort.antt =====
-- `sort.Strings` and `sort.Slice` by a string key, as an insertion sort, and what makes their
-- result independent of the order of the input: with distinct keys there is one ascending
-- arrangement. `sort.Slice` is not stable, so with equal keys only the contents are specified.
pub mod Filter
use mathlib.Core.Path.{◌≡◌, refl, sym, ap, ◌∙◌, subst}
use mathlib.Core.Logic.{inl, inr}
use mathlib.Core.Bool.{true}
use mathlib.Core.Option.{Option, none, some}
use mathlib.Core.List.{List, [], ◌∷◌, Perm}
use mathlib.Core.List.Perm
use native.Mathlib.Omega.{arith}
use distributed_service_mesh.Base.Tests.{if◌then◌else◌, Bool-cases}
use distributed_service_mesh.Base.Lists.{All, All-map}
use distributed_service_mesh.Base.Text.{Text, text_eq, text_eq_iff, text_eq_refl}
use distributed_service_mesh.Base.TextOrder.{
  text_lt, text_lt_irrefl, text_lt_trans, text_lt_total, text_lt_asymm,
}

module _ {ℓ} {A : Type ℓ} (key : A → Text) where
  unfoldable pub insert_by : A → List A → List A
  insert_by x [] = x ∷ []
  insert_by x (y ∷ ys) = if text_lt (key y) (key x) then y ∷ insert_by x ys else x ∷ y ∷ ys

  unfoldable pub sort_by : List A → List A
  unfolding insert_by
  sort_by [] = []
  sort_by (x ∷ xs) = insert_by x (sort_by xs)

  -- The first entry with the key.
  unfoldable pub find : Text → List A → Option A
  find k [] = none
  find k (x ∷ xs) = if text_eq (key x) k then some x else find k xs

  unfoldable pub IsDistinct : List A → Type ℓ
  unfolding find
  IsDistinct [] = Unit
  IsDistinct (x ∷ xs) = (find (key x) xs ≡ none) × IsDistinct xs

  abbrev pub Below : Text → List A → Type 0
  Below k = All (λ x. text_lt k (key x) ≡ true)

  -- Strictly ascending keys.
  abbrev pub IsAscending : List A → Type 0
  IsAscending [] = Unit
  IsAscending (x ∷ xs) = Below (key x) xs × IsAscending xs

  pub insert_by-Perm : (x : A) (xs : List A) → Perm (insert_by x xs) (x ∷ xs)
  unfolding insert_by
  insert_by-Perm x [] = Perm.refl (x ∷ [])
  insert_by-Perm x (y ∷ ys) = elim (Bool-cases (text_lt (key y) (key x))) [
    | inl h ↦ rw h (Perm.trans (Perm.cons y (insert_by-Perm x ys)) (Perm.swap x y ys))
    | inr h ↦ rw h (Perm.refl (x ∷ y ∷ ys))
  ]

  -- Sorting rearranges.
  pub sort_by-Perm : (xs : List A) → Perm (sort_by xs) xs
  unfolding sort_by
  sort_by-Perm [] = Perm.refl []
  sort_by-Perm (x ∷ xs) = Perm.trans (insert_by-Perm x (sort_by xs)) (Perm.cons x (sort_by-Perm xs))

  find-insert_by :
      (k : Text) (x : A) (xs : List A)
      → find (key x) xs ≡ none
      → find k (insert_by x xs) ≡ (if text_eq (key x) k then some x else find k xs)
  unfolding find insert_by
  find-insert_by k x [] h = refl
  find-insert_by k x (y ∷ ys) h = ground (
    arith,
    find-insert_by k x ys,
    text_eq_iff (key x) k,
    text_eq_iff (key y) k,
    text_eq_iff (key y) (key x),
  )

  -- Sorting keeps what is found under each key.
  pub find-sort_by : (k : Text) (xs : List A) → IsDistinct xs → find k (sort_by xs) ≡ find k xs
  unfolding find sort_by IsDistinct
  find-sort_by k [] h = refl
  find-sort_by k (x ∷ xs) h =
      find-insert_by k x (sort_by xs) (find-sort_by (key x) xs h.1 ∙ h.0)
      ∙ ap (λ o. if text_eq (key x) k then some x else o) (find-sort_by k xs h.1)

  Below-trans : (j k : Text) (xs : List A) → text_lt j k ≡ true → Below k xs → Below j xs
  Below-trans j k xs h b =
      All-map (λ x. text_lt k (key x) ≡ true) (λ x. text_lt j (key x) ≡ true) xs
        (λ x q. text_lt_trans j k (key x) h q) b

  Below-insert_by :
      (k : Text) (x : A) (xs : List A)
      → text_lt k (key x) ≡ true
      → Below k xs
      → Below k (insert_by x xs)
  unfolding insert_by
  Below-insert_by k x [] h b = (h, tt)
  Below-insert_by k x (y ∷ ys) h b = ground (arith, Below-insert_by k x ys h b.1)

  insert_by-IsAscending :
      (x : A) (xs : List A) → find (key x) xs ≡ none → IsAscending xs → IsAscending (insert_by x xs)
  unfolding insert_by find
  insert_by-IsAscending x [] n a = (tt, tt)
  insert_by-IsAscending x (y ∷ ys) n a = elim (Bool-cases (text_lt (key y) (key x))) [
    | inl h ↦
        rw h (Below-insert_by (key y) x ys h a.0, insert_by-IsAscending x ys (ground (arith)) a.1)
    | inr h ↦
        let less : text_lt (key x) (key y) ≡ true =
          ground (arith, text_lt_total (key x) (key y), text_eq_iff (key y) (key x)) in
        rw h ((less, Below-trans (key x) (key y) ys less a.0), a)
  ]

  -- With distinct keys the result is strictly ascending.
  pub sort_by-IsAscending : (xs : List A) → IsDistinct xs → IsAscending (sort_by xs)
  unfolding sort_by IsDistinct
  sort_by-IsAscending [] h = tt
  sort_by-IsAscending (x ∷ xs) h =
      insert_by-IsAscending x (sort_by xs) (find-sort_by (key x) xs h.1 ∙ h.0)
        (sort_by-IsAscending xs h.1)

  pub find-Below : (k : Text) (xs : List A) → Below k xs → find k xs ≡ none
  unfolding find
  find-Below k [] b = refl
  find-Below k (x ∷ xs) b =
      ground (arith, find-Below k xs b.1, text_eq_iff (key x) k, text_lt_irrefl k)

  pub find-head : (x : A) (xs : List A) → find (key x) (x ∷ xs) ≡ some x
  unfolding find
  find-head x xs = rw (text_eq_refl (key x))

  pub key-find : (k : Text) (xs : List A) {x : A} → find k xs ≡ some x → key x ≡ k
  unfolding find
  key-find k [] h = ground arith
  key-find k (y ∷ ys) {x} h = ground (arith, text_eq_iff (key y) k, key-find k ys {x = x})

  lt_of_find :
      (j k : Text) (xs : List A) {x : A} → Below j xs → find k xs ≡ some x → text_lt j k ≡ true
  unfolding find
  lt_of_find j k [] b h = ground arith
  lt_of_find j k (y ∷ ys) {x} b h = ground (arith, text_eq_iff (key y) k, lt_of_find j k ys {x = x})

  abbrev pub SameFind : List A → List A → Type ℓ
  SameFind xs ys = (k : Text) → find k xs ≡ find k ys

  SameFind-head :
      (x y : A) (xs ys : List A)
      → IsAscending (x ∷ xs)
      → IsAscending (y ∷ ys)
      → SameFind (x ∷ xs) (y ∷ ys)
      → x ≡ y
  unfolding find
  SameFind-head x y xs ys a b h = ground (
    arith,
    h (key x),
    h (key y),
    text_eq_refl (key x),
    text_eq_refl (key y),
    lt_of_find (key y) (key x) ys {x = x} b.0,
    lt_of_find (key x) (key y) xs {x = y} a.0,
    text_lt_asymm (key x) (key y),
  )

  SameFind-tail :
      (x : A) (xs ys : List A)
      → Below (key x) xs
      → Below (key x) ys
      → SameFind (x ∷ xs) (x ∷ ys)
      → SameFind xs ys
  unfolding find
  SameFind-tail x xs ys a b h k =
      ground (arith, h k, text_eq_iff (key x) k, find-Below (key x) xs a, find-Below (key x) ys b)

  -- Two strictly ascending lists that hold the same under each key are one list.
  pub IsAscending-unique :
      (xs ys : List A) → IsAscending xs → IsAscending ys → SameFind xs ys → xs ≡ ys
  unfolding find
  IsAscending-unique [] [] a b h = refl
  IsAscending-unique [] (y ∷ ys) a b h = cc (h (key y), find-head y ys)
  IsAscending-unique (x ∷ xs) [] a b h = cc (h (key x), find-head x xs)
  IsAscending-unique (x ∷ xs) (y ∷ ys) a b h =
      let e : x ≡ y = SameFind-head x y xs ys a b h in
      let b' : IsAscending (x ∷ ys) = subst (λ z. IsAscending (z ∷ ys)) (sym e) b in
      let h' : SameFind (x ∷ xs) (x ∷ ys) = subst (λ z. SameFind (x ∷ xs) (z ∷ ys)) (sym e) h in
      cc (e, IsAscending-unique xs ys a.1 b'.1 (SameFind-tail x xs ys a.0 b'.0 h'))

  -- An ascending list has distinct keys.
  pub IsAscending-IsDistinct : (xs : List A) → IsAscending xs → IsDistinct xs
  unfolding IsDistinct
  IsAscending-IsDistinct [] a = tt
  IsAscending-IsDistinct (x ∷ xs) a = (find-Below (key x) xs a.0, IsAscending-IsDistinct xs a.1)

  -- Sorting two lists that hold the same under each key gives one list.
  pub sort_by_unique :
      (xs ys : List A) → IsDistinct xs → IsDistinct ys → SameFind xs ys → sort_by xs ≡ sort_by ys
  sort_by_unique xs ys dx dy h =
      IsAscending-unique (sort_by xs) (sort_by ys) (sort_by-IsAscending xs dx)
        (sort_by-IsAscending ys dy) (λ k. find-sort_by k xs dx ∙ (h k ∙ sym (find-sort_by k ys dy)))
