-- ===== src/Registry/Services.antt =====
-- `ListServices`: which names it lists, for every order in which the map is ranged over.
use distributed_service_mesh.Registry.View.{lookup}
use distributed_service_mesh.Registry.Validity.{IsValid}
use distributed_service_mesh.Base.{
  refl, Bool-ext, sym, Option-cases, true, ◌≢◌, ◌↔◌, ◌∙◌, ◌≡◌, ap, Bool, false, not, ◌&&◌, Option,
  none, some, [], ◌∷◌, ◌++◌, arith, if◌then◌else◌, Bool-cases, inl, inr, length, drop, ltb,
  is_empty, length-append,
}
use distributed_service_mesh.Base.Text.{
  text_eq_refl, codes, Text, text_eq, text_eq_iff, text_eq_instance, begins_with,
  begins_with-append, begins_with-split, drop-length-append,
}
use distributed_service_mesh.Base.Dict.{Dict, get, IsMap}
use distributed_service_mesh.Base.Sort.{
  IsAscending-unique, find-sort_by, sort_by-IsAscending, IsAscending, IsDistinct, find,
}
use distributed_service_mesh.Registry.Types.{Instance, InMemory, key, Members}
use distributed_service_mesh.Registry.Ops.{list_services, service_names}

-- The test of the loop of `ListServices` on a key.
abbrev names_service : Text → Text → Bool
names_service p k = ltb (length p) (length k) && begins_with p k

names_service-append : (p n : Text) → names_service p (p ++ n) ≡ not (is_empty n)
names_service-append p [] = ground (arith, length-append p [])
names_service-append p (c ∷ n) =
    ground (arith, length-append p (c ∷ n), begins_with-append p (c ∷ n))

-- The loop takes the name `n` from `k` exactly if `k` is the prefix followed by `n`, not empty.
names_service_iff :
    (p k n : Text)
    → (names_service p k && text_eq (drop (length p) k) n)
      ≡ (text_eq k (p ++ n) && not (is_empty n))
names_service_iff p k n = elim (Bool-cases (text_eq k (p ++ n))) [
  | inl same ↦ rw ((text_eq_iff k (p ++ n)).0 same) (
      ground (
        arith,
        names_service-append p n,
        text_eq_iff (p ++ n) (p ++ n),
        text_eq_iff (drop (length p) (p ++ n)) n,
        drop-length-append p n,
      ))
  | inr other ↦ ground (
    arith,
    other,
    text_eq_iff (drop (length p) k) n,
    text_eq_iff k (p ++ n),
    begins_with-split p k,
    λ (e : drop (length p) k ≡ n). ap (λ t. p ++ t) e,
  )
]

abbrev pub occupied : Option Members → Bool
occupied none = false
occupied (some m) = not (is_empty m)

abbrev pub itself : Text → Text
itself n = n

abbrev listed_name : Text → Option Members → Option Text
listed_name n o = if not (is_empty n) && occupied o then some n else none

find-service_names :
    (p n : Text) (svcs : Dict Text Members)
    → IsMap svcs
    → find itself n (service_names p svcs) ≡ listed_name n (get (p ++ n) svcs)
unfolding find service_names get IsMap
find-service_names p n [] h = ground arith
find-service_names p n ((k, m) ∷ svcs) h = ground (
  arith,
  find-service_names p n svcs h.1,
  names_service_iff p k n,
  h.0,
  text_eq_iff k (p ++ n),
  text_eq_iff (drop (length p) k) n,
)

service_names-IsDistinct :
    (p : Text) (svcs : Dict Text Members) → IsMap svcs → IsDistinct itself (service_names p svcs)
unfolding service_names IsMap IsDistinct
service_names-IsDistinct p [] h = tt
service_names-IsDistinct p ((k, m) ∷ svcs) h =
    let rest = service_names-IsDistinct p svcs h.1 in
    ground (
      arith,
      find-service_names p (drop (length p) k) svcs h.1,
      begins_with-split p k,
      ap (λ t. listed_name (drop (length p) k) (get t svcs)),
      h.0,
      rest,
    )

-- The names in the listing are strictly ascending.
pub list_services-IsAscending :
    (namespace : Text) (r : InMemory) → IsValid r → IsAscending itself (list_services namespace r)
unfolding list_services
list_services-IsAscending namespace r v =
    sort_by-IsAscending itself _ (service_names-IsDistinct (namespace ++ codes "/") r.svcs v.is_map)

find-list_services :
    (namespace n : Text) (r : InMemory)
    → IsValid r
    → find itself n (list_services namespace r) ≡ listed_name n (get (key namespace n) r.svcs)
unfolding list_services key
find-list_services namespace n r v =
    let p = namespace ++ codes "/" in
    find-sort_by itself n (service_names p r.svcs) (service_names-IsDistinct p r.svcs v.is_map)
    ∙ find-service_names p n r.svcs v.is_map

-- Some instance is stored for the service.
abbrev pub IsPopulated : Text → InMemory → Type 0
IsPopulated k r = (id : Text) × (inst : Instance) × (lookup k id r ≡ some inst)

occupied-IsPopulated : (k : Text) (r : InMemory) → occupied (get k r.svcs) ≡ true → IsPopulated k r
unfolding lookup get
occupied-IsPopulated k r h = elim (Option-cases (get k r.svcs)) [
  | inl absent ↦ absurd (ground (arith, absent))
  | inr ([], found) ↦ absurd (ground (arith, found))
  | inr ((i, inst) ∷ m, found) ↦ (i, inst, rw (found, lookup) (rw (text_eq_refl i) refl))
]

IsPopulated-occupied : (k : Text) (r : InMemory) → IsPopulated k r → occupied (get k r.svcs) ≡ true
unfolding lookup get
IsPopulated-occupied k r (i, inst, e) = elim (Option-cases (get k r.svcs)) [
  | inl absent ↦ absurd (ground (arith, absent))
  | inr ([], found) ↦ absurd (ground (arith, found))
  | inr (x ∷ m, found) ↦ rw found refl
]

-- In a valid registry a name is listed for a namespace exactly when it is not empty and some
-- instance is stored for that service of the namespace.
pub list_services_complete :
    (namespace n : Text) (r : InMemory)
    → IsValid r
    → (find itself n (list_services namespace r) ≡ some n)
      ↔ ((n ≢ []) × IsPopulated (key namespace n) r)
list_services_complete namespace n r v =
    let k = key namespace n in
    let e = find-list_services namespace n r v in
    (
      λ h. (
        λ z. ground (arith, e, h, ap is_empty z),
        occupied-IsPopulated k r (ground (arith, e, h)),
      ),
      λ (ne, p). ground (arith, e, IsPopulated-occupied k r p),
    )

-- The same view of a service.
abbrev pub SameService : Text → InMemory → InMemory → Type 0
SameService k r s = (id : Text) → lookup k id r ≡ lookup k id s

occupied_transport :
    (k : Text) (r s : InMemory)
    → SameService k r s
    → occupied (get k r.svcs) ≡ true
    → occupied (get k s.svcs) ≡ true
occupied_transport k r s same h =
    let (i, inst, e) = occupied-IsPopulated k r h in
    IsPopulated-occupied k s (i, inst, sym (same i) ∙ e)

pub occupied-same :
    (k : Text) (r s : InMemory)
    → SameService k r s
    → occupied (get k r.svcs) ≡ occupied (get k s.svcs)
occupied-same k r s same =
    Bool-ext _ _ (occupied_transport k r s same) (occupied_transport k s r (λ i. sym (same i)))

-- Two valid registries that store the same instances for the services of a namespace list the same
-- names for it, whatever the order of their maps.
pub list_services_unique :
    (namespace : Text) (r s : InMemory)
    → IsValid r
    → IsValid s
    → ((n : Text) → SameService (key namespace n) r s)
    → list_services namespace r ≡ list_services namespace s
list_services_unique namespace r s vr vs same =
    IsAscending-unique itself _ _ (list_services-IsAscending namespace r vr)
      (list_services-IsAscending namespace s vs)
      λ n.
        find-list_services namespace n r vr
        ∙ (ap (λ b. if not (is_empty n) && b then some n else none)
              (occupied-same (key namespace n) r s (same n))
            ∙ sym (find-list_services namespace n s vs))
