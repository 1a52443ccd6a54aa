-- ===== src/Registry/Listing.antt =====
-- What the reading methods return, in terms of the abstract view: a listing of a service holds, in
-- strictly ascending order of the IDs, what the view holds for the service.
use distributed_service_mesh.Base.{
  ◌≡◌, refl, ap, ◌∙◌, Bool, not, ◌&&◌, List, [], ◌∷◌, arith, if◌then◌else◌, Option-cases, inl, inr,
  keep_if, is_empty,
}
use distributed_service_mesh.Base.Int.{pos, ltb_ℤ}
use distributed_service_mesh.Base.Text.{Text, text_eq_iff, text_eq_instance}
use distributed_service_mesh.Base.Dict.{get, IsMap}
use distributed_service_mesh.Base.Sort.{
  sort_by, find, IsDistinct, IsAscending, find-sort_by, sort_by-IsAscending,
}
use distributed_service_mesh.Base.Sort.Filter.{only, keep_if-IsAscending, find-keep_if}
use distributed_service_mesh.Base.Outcome.{Outcome, ok, err}
use distributed_service_mesh.Registry.Types.{
  Time, Duration, Instance, Error, Members, InMemory, key,
}
use distributed_service_mesh.Registry.Ops.{
  members, values, sorted_instances, get_service, overdue, healthy_of, healthy_instances,
}
use distributed_service_mesh.Registry.View.{lookup, get-members}
use distributed_service_mesh.Registry.Validity.{IsService, IsValid, members-IsService}

abbrev pub id_of : Instance → Text
id_of inst = inst.instance_id

find-values : (k id : Text) (m : Members) → IsService k m → find id_of id (values m) ≡ get id m
unfolding find values get IsMap
find-values k id [] s = refl
find-values k id ((j, inst) ∷ m) s = ground (
  arith,
  find-values k id m (s.0.1, s.1.1),
  s.1.0.same_id,
  text_eq_iff inst.instance_id id,
  text_eq_iff j id,
)

values-IsDistinct : (k : Text) (m : Members) → IsService k m → IsDistinct id_of (values m)
unfolding values IsDistinct IsMap
values-IsDistinct k [] s = tt
values-IsDistinct k ((j, inst) ∷ m) s = (
  find-values k inst.instance_id m (s.0.1, s.1.1) ∙ (ap (λ i. get i m) s.1.0.same_id ∙ s.0.0),
  values-IsDistinct k m (s.0.1, s.1.1),
)

pub sorted_instances-IsAscending :
    (k : Text) (m : Members) → IsService k m → IsAscending id_of (sorted_instances m)
unfolding sorted_instances
sorted_instances-IsAscending k m s = sort_by-IsAscending id_of (values m) (values-IsDistinct k m s)

pub find-sorted_instances :
    (k id : Text) (m : Members) → IsService k m → find id_of id (sorted_instances m) ≡ get id m
unfolding sorted_instances
find-sorted_instances k id m s =
    find-sort_by id_of id (values m) (values-IsDistinct k m s) ∙ find-values k id m s

-- Marked healthy, and not overdue unless staleness is switched off.
unfoldable pub fresh : Duration → Time → Instance → Bool
unfolding overdue
fresh stale_after now inst =
    inst.healthy && not (ltb_ℤ (pos 0) stale_after && overdue stale_after now inst)

healthy_of-eq :
    (stale_after : Duration) (now : Time) (xs : List Instance)
    → healthy_of stale_after now xs ≡ keep_if (fresh stale_after now) xs
unfolding healthy_of fresh
healthy_of-eq stale_after now [] = refl
healthy_of-eq stale_after now (inst ∷ rest) = ground (arith, healthy_of-eq stale_after now rest)

healthy_members-eq :
    (stale_after : Duration) (now : Time) (m : Members)
    → (if is_empty m then [] else healthy_of stale_after now (sorted_instances m))
      ≡ keep_if (fresh stale_after now) (sorted_instances m)
unfolding sorted_instances sort_by
healthy_members-eq stale_after now [] = refl
healthy_members-eq stale_after now (e ∷ m) =
    healthy_of-eq stale_after now (sorted_instances (e ∷ m))

healthy_instances-eq :
    (namespace service : Text) (stale_after : Duration) (now : Time) (r : InMemory)
    → healthy_instances namespace service stale_after now r
      ≡ keep_if (fresh stale_after now) (sorted_instances (members (key namespace service) r))
unfolding healthy_instances
healthy_instances-eq namespace service stale_after now r =
    healthy_members-eq stale_after now (members (key namespace service) r)

module _ (namespace service : Text) (r : InMemory) (v : IsValid r) where
  pub find-healthy_instances :
      (stale_after : Duration) (now : Time) (id : Text)
      → find id_of id (healthy_instances namespace service stale_after now r)
        ≡ only (fresh stale_after now) (lookup (key namespace service) id r)
  find-healthy_instances stale_after now id =
      let k = key namespace service in
      let s = members-IsService k r v in
      rw (healthy_instances-eq namespace service stale_after now r) (
        find-keep_if id_of (fresh stale_after now) id (sorted_instances (members k r))
          (sorted_instances-IsAscending k (members k r) s)
        ∙ ap (only (fresh stale_after now))
            (find-sorted_instances k id (members k r) s ∙ get-members k id r))

  -- It is in strictly ascending order of the IDs.
  pub healthy_instances-IsAscending :
      (stale_after : Duration) (now : Time)
      → IsAscending id_of (healthy_instances namespace service stale_after now r)
  healthy_instances-IsAscending stale_after now =
      let k = key namespace service in
      rw (healthy_instances-eq namespace service stale_after now r) (
        keep_if-IsAscending id_of (fresh stale_after now) (sorted_instances (members k r))
          (sorted_instances-IsAscending k (members k r) (members-IsService k r v)))

-- The listing that a result of `GetService` stands for: an error is an empty one.
abbrev pub listed : Outcome Error (List Instance) → List Instance
listed (ok xs) = xs
listed (err e) = []

listed-get_service :
    (namespace service : Text) (r : InMemory)
    → listed (get_service namespace service r)
      ≡ sorted_instances (members (key namespace service) r)
unfolding get_service members sorted_instances sort_by
listed-get_service namespace service r = elim (Option-cases (get (key namespace service) r.svcs)) [
  | inl absent ↦ rw (absent, get_service, members) refl
  | inr ([], found) ↦ rw (found, get_service, members) refl
  | inr (e ∷ m, found) ↦ rw (found, get_service, members) refl
]
