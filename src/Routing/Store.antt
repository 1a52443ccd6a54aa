-- ===== src/Routing/Store.antt =====
-- internal/routing/route.go: the store of desired specs. It is a map from service names, and holds
-- accepted specs only.
use distributed_service_mesh.Routing.Validation.{validate_iff, IsAccepted}
use distributed_service_mesh.Base.Outcome.{err, ok, Outcome, Outcome-cases}
use distributed_service_mesh.Base.Dict.Entries.{put-Entries, Entries-get, delete-Entries, Entries}
use distributed_service_mesh.Base.Text.{text_eq, text_eq_instance, Text}
use distributed_service_mesh.Routing.Spec.{Error, validate, Spec}
use distributed_service_mesh.Base.Dict.{
  get-delete, put, get-put, put-IsMap, get, delete-IsMap, delete, Dict, IsMap,
}
use distributed_service_mesh.Base.{
  arith, refl, inr, none, ◌≢◌, inl, some, Option, if◌then◌else◌, ◌∷◌, List, [], ◌≡◌,
}

pub record Store : Type 0 where
  pub specs : Dict Text Spec

-- `NewStore`
abbrev pub new_store : Store
new_store = record { specs = [] }

unfoldable pub set : Spec → Store → Outcome Error (Unit {0}) × Store
set spec s = elim (validate spec) [
  | err e ↦ (err e, s)
  | ok _ ↦ (ok tt, record { specs = put spec.service spec s.specs })
]

-- `Get` returns a flag beside the spec: `none` stands for false.
unfoldable pub spec_of : Text → Store → Option Spec
spec_of service s = get service s.specs

unfoldable pub remove : Text → Store → Store
remove service s = record { specs = delete service s.specs }

-- Set returns what Validate says. A spec that is refused changes nothing. One that is accepted is
-- what its service reads from then on, while other services read what they read before.
pub spec_of-set :
    (spec : Spec) (s : Store) (service : Text)
    → ((set spec s).0 ≡ validate spec)
      × (validate spec ≢ ok tt → (set spec s).1 ≡ s)
      × (validate spec ≡ ok tt
          → spec_of service (set spec s).1
            ≡ (if text_eq spec.service service then some spec else spec_of service s))
unfolding set spec_of
spec_of-set spec s service = elim (Outcome-cases (validate spec)) [
  | inl (t, e) ↦ (
    rw (e, set) refl,
    λ n. absurd (n e),
    λ _. rw (e, set) (get-put spec.service service spec s.specs),
  )
  | inr (x, e) ↦ (rw (e, set) refl, λ _. rw (e, set) refl, λ h. absurd (ground (arith, e, h)))
]

-- After a deletion the service reads no spec, and the others what they read before.
pub spec_of-remove :
    (deleted service : Text) (s : Store)
    → spec_of service (remove deleted s)
      ≡ (if text_eq deleted service then none else spec_of service s)
unfolding spec_of remove
spec_of-remove deleted service s = get-delete deleted service s.specs

-- Every stored spec is filed under its service and was accepted.
abbrev pub IsStored : Text → Spec → Type 0
IsStored service spec = (spec.service ≡ service) × (validate spec ≡ ok tt)

pub record IsSound (s : Store) : Type 0 where
  pub is_map : IsMap s.specs
  pub stored : Entries IsStored s.specs

-- The requests that change the store.
pub data Change : Type 0 where
  put_spec : Spec → Change
  drop_spec : Text → Change

unfoldable pub change : Change → Store → Store
unfolding set remove
change (put_spec spec) s = (set spec s).1
change (drop_spec service) s = remove service s

unfoldable pub change_all : List Change → Store → Store
change_all [] s = s
change_all (c ∷ cs) s = change_all cs (change c s)

set-IsSound : (spec : Spec) (s : Store) → IsSound s → IsSound (set spec s).1
unfolding set
set-IsSound spec s v = elim (Outcome-cases (validate spec)) [
  | inl (t, e) ↦
      rw (e, set)
        (record {
          is_map = put-IsMap spec.service spec s.specs v.is_map;
          stored = put-Entries IsStored spec.service spec s.specs (refl, e) v.stored;
        })
  | inr (x, e) ↦ rw (e, set) v
]

remove-IsSound : (service : Text) (s : Store) → IsSound s → IsSound (remove service s)
unfolding remove
remove-IsSound service s v = record {
  is_map = delete-IsMap service s.specs v.is_map;
  stored = delete-Entries IsStored service s.specs v.stored;
}

pub change_all-IsSound : (cs : List Change) (s : Store) → IsSound s → IsSound (change_all cs s)
unfolding change_all change
change_all-IsSound [] s v = v
change_all-IsSound (put_spec spec ∷ cs) s v =
    change_all-IsSound cs (set spec s).1 (set-IsSound spec s v)
change_all-IsSound (drop_spec service ∷ cs) s v =
    change_all-IsSound cs (remove service s) (remove-IsSound service s v)

pub IsSound-new : IsSound new_store
unfolding IsMap
IsSound-new = record { is_map = tt; stored = tt }

-- Whatever specs are set and deleted, from the empty store on, a spec that Get returns is filed
-- under its own service and fulfils what Validate promises.
pub spec_of-IsAccepted :
    (cs : List Change) (service : Text) {spec : Spec}
    → spec_of service (change_all cs new_store) ≡ some spec
    → (spec.service ≡ service) × IsAccepted spec
unfolding spec_of
spec_of-IsAccepted cs service {spec} h =
    let v = change_all-IsSound cs new_store IsSound-new in
    let (same, good) = Entries-get IsStored service (change_all cs new_store).specs v.stored h in
    (same, (validate_iff spec).0 good)
