-- ===== src/Registry/Ops.antt =====
-- internal/registry/registry.go: the methods of InMemory. A method that writes returns its result
-- and the new state; a method that reads the clock takes the reading as an argument.
use distributed_service_mesh.Base.{
  Bool, true, false, not, ◌&&◌, ◌||◌, none, some, List, [], ◌∷◌, ◌++◌, ltb, length, drop, is_empty,
  if◌then◌else◌,
}
use distributed_service_mesh.Base.Int.{pos, ltb_ℤ}
use distributed_service_mesh.Base.Text.{Text, codes, begins_with, text_eq, text_eq_instance}
use distributed_service_mesh.Base.Dict.{Dict, get, put, delete}
use distributed_service_mesh.Base.Sort.{sort_by}
use distributed_service_mesh.Base.Outcome.{Outcome, ok, err}
use distributed_service_mesh.Registry.Types.{
  Time, Duration, since, Instance, Error, not_found, missing_names, Members, InMemory, key,
}

-- `r.svcs[k]`, where a missing entry reads as a nil map, which ranges and reads like an empty one.
unfoldable pub members : Text → InMemory → Members
members k r = elim (get k r.svcs) [ none ↦ [] | some m ↦ m ]

-- What `Register` stores.
unfoldable pub stamped : Instance → Time → Instance
stamped inst now = record inst {
  registered_at = now;
  last_heartbeat = now;
  healthy = if not inst.healthy then true else inst.healthy;
}

unfoldable pub register : Instance → Time → InMemory → Outcome Error (Unit {0}) × InMemory
unfolding members stamped
register inst now r =
    if text_eq inst.service_name [] || text_eq inst.instance_id []
    then (err missing_names, r)
    else let k = key inst.namespace inst.service_name in
      (
        ok tt,
        record { svcs = put k (put inst.instance_id (stamped inst now) (members k r)) r.svcs },
      )

unfoldable pub deregister : Text → Text → Text → InMemory → Outcome Error (Unit {0}) × InMemory
deregister namespace service id r =
    let k = key namespace service in
    elim (get k r.svcs) [
      | none ↦ (ok tt, r)
      | some instances ↦ (ok tt, record { svcs = put k (delete id instances) r.svcs })
    ]

unfoldable pub heartbeat :
    Text → Text → Text → Time → InMemory → Outcome Error (Unit {0}) × InMemory
heartbeat namespace service id now r =
    let k = key namespace service in
    elim (get k r.svcs) [
      | none ↦ (err not_found, r)
      | some instances ↦ elim (get id instances) [
        | none ↦ (err not_found, r)
        | some inst ↦
            let inst' : Instance = record inst { last_heartbeat = now; healthy = true } in
            (ok tt, record { svcs = put k (put id inst' instances) r.svcs })
      ]
    ]

-- The loop of `ListServices`, before the sort.
unfoldable pub service_names : Text → Dict Text Members → List Text
service_names prefix [] = []
service_names prefix ((k, instances) ∷ svcs) =
    let names = service_names prefix svcs in
    if is_empty instances
    then names
    else if ltb (length prefix) (length k) && begins_with prefix k
    then drop (length prefix) k ∷ names
    else names

unfoldable pub list_services : Text → InMemory → List Text
unfolding service_names
list_services namespace r = sort_by (λ n. n) (service_names (namespace ++ codes "/") r.svcs)

-- The values of a map.
unfoldable pub values : Members → List Instance
values [] = []
values ((id, inst) ∷ m) = inst ∷ values m

unfoldable pub sorted_instances : Members → List Instance
unfolding values
sorted_instances m = sort_by (λ inst. inst.instance_id) (values m)

unfoldable pub get_service : Text → Text → InMemory → Outcome Error (List Instance)
get_service namespace service r = elim (get (key namespace service) r.svcs) [
  | none ↦ err not_found
  | some instances ↦ if is_empty instances then err not_found else ok (sorted_instances instances)
]

-- Longer without a heartbeat than `stale_after`.
unfoldable pub overdue : Duration → Time → Instance → Bool
unfolding since
overdue stale_after now inst = ltb_ℤ stale_after (since now inst.last_heartbeat)

-- The loop of `HealthyInstances`; the two branches that skip are `continue`.
unfoldable pub healthy_of : Duration → Time → List Instance → List Instance
unfolding overdue
healthy_of stale_after now [] = []
healthy_of stale_after now (inst ∷ rest) =
    let out = healthy_of stale_after now rest in
    if not inst.healthy
    then out
    else if ltb_ℤ (pos 0) stale_after && overdue stale_after now inst
    then out
    else inst ∷ out

unfoldable pub healthy_instances : Text → Text → Duration → Time → InMemory → List Instance
unfolding members healthy_of
healthy_instances namespace service stale_after now r =
    let instances = members (key namespace service) r in
    if is_empty instances then [] else healthy_of stale_after now (sorted_instances instances)

-- One round of the inner loop of `SweepStale`.
unfoldable pub swept : Duration → Time → Instance → Bool
unfolding overdue
swept stale_after now inst = inst.healthy && overdue stale_after now inst

unfoldable pub mark : Duration → Time → Instance → Instance
unfolding swept
mark stale_after now inst =
    if swept stale_after now inst then record inst { healthy = false } else inst

unfoldable pub sweep_members : Duration → Time → Members → Members
unfolding mark
sweep_members stale_after now [] = []
sweep_members stale_after now ((id, inst) ∷ m) =
    (id, mark stale_after now inst) ∷ sweep_members stale_after now m

unfoldable pub sweep_svcs : Duration → Time → Dict Text Members → Dict Text Members
unfolding sweep_members
sweep_svcs stale_after now [] = []
sweep_svcs stale_after now ((k, m) ∷ svcs) =
    (k, sweep_members stale_after now m) ∷ sweep_svcs stale_after now svcs

-- What the inner loop appends to `transitioned`: the instances as they are after the mark.
unfoldable pub transitions : Duration → Time → Members → List Instance
unfolding mark
transitions stale_after now [] = []
transitions stale_after now ((id, inst) ∷ m) =
    let out = transitions stale_after now m in
    if swept stale_after now inst then mark stale_after now inst ∷ out else out

unfoldable pub transitions_svcs : Duration → Time → Dict Text Members → List Instance
unfolding transitions
transitions_svcs stale_after now [] = []
transitions_svcs stale_after now ((k, m) ∷ svcs) =
    transitions stale_after now m ++ transitions_svcs stale_after now svcs

unfoldable pub sweep_stale : Duration → Time → InMemory → List Instance × InMemory
unfolding sweep_svcs transitions_svcs
sweep_stale stale_after now r = if not (ltb_ℤ (pos 0) stale_after) then ([], r) else (
  sort_by (λ inst. inst.instance_id) (transitions_svcs stale_after now r.svcs),
  record { svcs = sweep_svcs stale_after now r.svcs },
)
