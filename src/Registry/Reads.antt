-- ===== src/Registry/Reads.antt =====
-- `GetService` and `HealthyInstances` as functions of the abstract view: the order in which the
-- maps are ranged over, and what is stored for other services, do not matter.
use distributed_service_mesh.Base.Dict.{get}
use distributed_service_mesh.Registry.View.{get-members, lookup}
use distributed_service_mesh.Base.Sort.Filter.{only}
use distributed_service_mesh.Registry.Services.{SameService}
use distributed_service_mesh.Registry.Validity.{members-IsService, IsValid}
use distributed_service_mesh.Base.Outcome.{ok, err, Outcome}
use distributed_service_mesh.Registry.Listing.{
  find-healthy_instances, healthy_instances-IsAscending, find-sorted_instances,
  sorted_instances-IsAscending, fresh, id_of,
}
use distributed_service_mesh.Registry.Types.{
  key, not_found, Error, Time, InMemory, Duration, Instance,
}
use distributed_service_mesh.Registry.Ops.{
  values, healthy_instances, sorted_instances, members, get_service,
}
use distributed_service_mesh.Base.Sort.{
  find-head, IsAscending-unique, find, IsAscending, sort_by, insert_by,
}
use distributed_service_mesh.Base.Text.{text_eq_instance, Text}
use mathlib.Core.Path.{subst}
use distributed_service_mesh.Base.{
  ap, [], ◌∙◌, refl, inr, inl, none, sym, arith, ◌↔◌, Option-cases, ◌∷◌, List, ◌≡◌,
}

-- A listing that is not empty, or the error.
abbrev or_missing : List Instance → Outcome Error (List Instance)
or_missing [] = err not_found
or_missing (x ∷ xs) = ok (x ∷ xs)

or_missing-insert_by :
    (x : Instance) (xs : List Instance)
    → or_missing (insert_by id_of x xs) ≡ ok (insert_by id_of x xs)
unfolding insert_by
or_missing-insert_by x [] = refl
or_missing-insert_by x (y ∷ ys) = ground arith

pub get_service-eq :
    (namespace service : Text) (r : InMemory)
    → get_service namespace service r
      ≡ or_missing (sorted_instances (members (key namespace service) r))
unfolding get_service members sorted_instances sort_by
get_service-eq namespace service r = elim (Option-cases (get (key namespace service) r.svcs)) [
  | inl absent ↦ rw (absent, get_service, members) refl
  | inr ([], found) ↦ rw (found, get_service, members) refl
  | inr ((i, inst) ∷ m, found) ↦
      rw (found, get_service, members) (sym (or_missing-insert_by inst (sort_by id_of (values m))))
]

-- What is listed for a service is a function of the view of that service.
pub sorted_instances_unique :
    (k : Text) (r s : InMemory)
    → IsValid r
    → IsValid s
    → SameService k r s
    → sorted_instances (members k r) ≡ sorted_instances (members k s)
sorted_instances_unique k r s vr vs same =
    let sr = members-IsService k r vr in
    let ss = members-IsService k s vs in
    IsAscending-unique id_of _ _ (sorted_instances-IsAscending k (members k r) sr)
      (sorted_instances-IsAscending k (members k s) ss)
      λ id.
        find-sorted_instances k id (members k r) sr
        ∙ (get-members k id r
            ∙ (same id ∙ sym (find-sorted_instances k id (members k s) ss ∙ get-members k id s)))

-- In two valid registries that store the same instances for a service, GetService returns the same
-- for it, error or listing, whatever the order of their maps and whatever else they store.
pub get_service_unique :
    (namespace service : Text) (r s : InMemory)
    → IsValid r
    → IsValid s
    → SameService (key namespace service) r s
    → get_service namespace service r ≡ get_service namespace service s
get_service_unique namespace service r s vr vs same =
    get_service-eq namespace service r
    ∙ (ap or_missing (sorted_instances_unique (key namespace service) r s vr vs same)
        ∙ sym (get_service-eq namespace service s))

-- In a valid registry a successful GetService returns, in strictly ascending order of the IDs,
-- exactly the stored instances of the service.
pub get_service_complete :
    (namespace service : Text) (r : InMemory) {xs : List Instance}
    → IsValid r
    → get_service namespace service r ≡ ok xs
    → IsAscending id_of xs × ((id : Text) → find id_of id xs ≡ lookup (key namespace service) id r)
get_service_complete namespace service r {xs} v e =
    let k = key namespace service in
    let s = members-IsService k r v in
    let l : sorted_instances (members k r) ≡ xs =
      or_missing-ok (sorted_instances (members k r))
        (sym (get_service-eq namespace service r) ∙ e) in
    (
      subst (IsAscending id_of) l (sorted_instances-IsAscending k (members k r) s),
      λ id.
          ap (find id_of id) (sym l)
          ∙ (find-sorted_instances k id (members k r) s ∙ get-members k id r),
    )
  where
    or_missing-ok : (ys : List Instance) {zs : List Instance} → or_missing ys ≡ ok zs → ys ≡ zs
    or_missing-ok [] h = cc
    or_missing-ok (y ∷ ys) h = cc

-- In a valid registry GetService fails exactly when no instance of the service is stored.
pub get_service-error_iff :
    (namespace service : Text) (r : InMemory)
    → IsValid r
    → (get_service namespace service r ≡ err not_found)
      ↔ ((id : Text) → lookup (key namespace service) id r ≡ none)
get_service-error_iff namespace service r v =
    let k = key namespace service in
    let s = members-IsService k r v in
    let l = sorted_instances (members k r) in
    (
      λ e id.
          sym (find-sorted_instances k id (members k r) s ∙ get-members k id r)
          ∙ empty_of l (sym (get_service-eq namespace service r) ∙ e) id,
      λ h.
          get_service-eq namespace service r
          ∙ missing_of l
              (λ id. find-sorted_instances k id (members k r) s ∙ (get-members k id r ∙ h id)),
    )
  where
    empty_of :
        (ys : List Instance) → or_missing ys ≡ err not_found → (id : Text) → find id_of id ys ≡ none
    empty_of [] h id = unfold find in refl
    empty_of (y ∷ ys) h id = absurd (ground arith)

    missing_of :
        (ys : List Instance)
        → ((id : Text) → find id_of id ys ≡ none)
        → or_missing ys ≡ err not_found
    missing_of [] h = refl
    missing_of (y ∷ ys) h = cc (h (id_of y), find-head id_of y ys)

-- The listing of healthy instances is a function of the fresh part of the view of the service.
pub healthy_instances_unique :
    (namespace service : Text) (stale_after : Duration) (now : Time) (r s : InMemory)
    → IsValid r
    → IsValid s
    → ((id : Text)
        → only (fresh stale_after now) (lookup (key namespace service) id r)
          ≡ only (fresh stale_after now) (lookup (key namespace service) id s))
    → healthy_instances namespace service stale_after now r
      ≡ healthy_instances namespace service stale_after now s
healthy_instances_unique namespace service stale_after now r s vr vs same =
    IsAscending-unique id_of _ _
      (healthy_instances-IsAscending namespace service r vr stale_after now)
      (healthy_instances-IsAscending namespace service s vs stale_after now)
      λ id.
        find-healthy_instances namespace service r vr stale_after now id
        ∙ (same id ∙ sym (find-healthy_instances namespace service s vs stale_after now id))
