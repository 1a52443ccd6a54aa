-- ===== src/Delivery.antt =====
-- internal/api, internal/registry and internal/xds together: the way of an instance from the request
-- that registers it to the endpoints that the proxies get.
pub mod Snapshot
use distributed_service_mesh.Xds.Assignments.{name_for, Assigns}
use distributed_service_mesh.Xds.Resources.{ClusterLoadAssignment}
use distributed_service_mesh.Api.Expected.{stamped-registered_as, registered_as}
use distributed_service_mesh.Base.Sort.Filter.{only}
use distributed_service_mesh.Registry.View.{lookup}
use distributed_service_mesh.Registry.Validity.{register-IsValid}
use mathlib.Core.Path.{ap₂, subst}
use distributed_service_mesh.Api.Trips.{lookup-register_named, registry-serve}
use distributed_service_mesh.Registry.Listing.{id_of}
use distributed_service_mesh.Base.Sort.{find}
use distributed_service_mesh.Xds.Build.{cluster_name, build_cluster_load_assignment}
use distributed_service_mesh.Registry.Health.{fresh-exact}
use distributed_service_mesh.Api.Paths.{services_path}
use distributed_service_mesh.Registry.Validity.{IsValid}
use distributed_service_mesh.Routing.Spec.{VersionWeight, CircuitBreaker}
use distributed_service_mesh.Xds.Snapshot.{build_splits, default_namespace, History, Moment}
use distributed_service_mesh.Api.Server.{serve, Server, Circumstance}
use distributed_service_mesh.Base.Text.{text_eq_iff, codes, Text}
use distributed_service_mesh.Registry.Types.{key, Instance, Time}
use distributed_service_mesh.Api.Request.{namespace_or_default, Request, RegisterServiceRequest}
use distributed_service_mesh.Api.Instances.{instance_of}
use distributed_service_mesh.Api.Mux.{Target}
use distributed_service_mesh.Registry.Ops.{stamped}
use distributed_service_mesh.Api.Debug.{SnapshotReader}
use distributed_service_mesh.Xds.Endpoints.{build_splits-endpoints, serves}
use distributed_service_mesh.Base.{
  ap, ◌∙◌, sym, get_elem?, arith, ◌≢◌, true, ◌*◌, ◌+◌, some, ◌≤◌, List, ◌⊎◌, [], ℕ, ◌≡◌,
}

pub registered_as-serves :
    (d : RegisterServiceRequest) (now : Time) (version : Text) (m : Moment)
    → (version ≡ []) ⊎ (d.version ≡ version)
    → m.now ≤ now + 15 * 1_000_000_000
    → serves version m (registered_as d now) ≡ true
registered_as-serves d now version m same early =
    ground (arith, early, same, text_eq_iff version [], text_eq_iff d.version version)

module _ {Snapshot : Type 0} (reader : SnapshotReader Snapshot) (page : Target → Request → ℕ)
    (env : Circumstance Snapshot) (req : Request) (s : Server Snapshot) (clock : ℕ → Time) where
  -- After the request, with a clock that goes on.
  abbrev pub afterwards : History
  afterwards n =
      let s' : Server Snapshot = (serve reader page env req s).1 in
      record { registry = s'.registry; routes = some s'.routes; now = clock n }

  -- With a valid registry, after POST /v1/services for the default namespace, with a service name
  -- and an instance ID, and no further request, BuildSnapshot puts the instance into the load
  -- assignment of every split of its service that names its version or none, with the time of the
  -- registration, if the clock reads at most 15 s past it at the call for the split.
  pub registered-endpoint :
      (t j : ℕ) (cb : CircuitBreaker) (splits : List VersionWeight) {d : RegisterServiceRequest}
      {split : VersionWeight}
      → IsValid s.registry
      → req.method ≡ codes "POST"
      → req.path ≡ services_path
      → req.registration ≡ some d
      → d.service_name ≢ []
      → d.instance_id ≢ []
      → namespace_or_default d.namespace ≡ default_namespace
      → get_elem? splits j ≡ some split
      → (split.version ≡ []) ⊎ (d.version ≡ split.version)
      → clock (t + j) ≤ env.now + 15 * 1_000_000_000
      → (a : ClusterLoadAssignment) × (xs : List Instance) × (get_elem?
            (build_splits afterwards t d.service_name cb splits).endpoints
            j
          ≡ some a)
        × Assigns (name_for d.service_name split.version) xs a
        × (find id_of d.instance_id xs ≡ some (registered_as d env.now))
  registered-endpoint t j cb splits {d} {split} v em ep good hn hi ns at same early =
      let made = registry-serve reader page env req s em ep good hn hi in
      let valid : (c : ℕ) → IsValid (afterwards c).registry =
        λ c. subst IsValid (sym made) (register-IsValid (instance_of d) env.now s.registry v) in
      let (a, xs, listed, assigned, _, held) =
        build_splits-endpoints afterwards t d.service_name cb splits j split valid at in
      let stored : lookup (key default_namespace d.service_name) d.instance_id
            (afterwards (t + j)).registry
          ≡ some (registered_as d env.now) =
        ap₂ (λ n r. lookup (key n d.service_name) d.instance_id r) (sym ns) made
        ∙ lookup-register_named d env.now s.registry hn hi
        ∙ ap some (stamped-registered_as d env.now) in
      let serving = registered_as-serves d env.now split.version (afterwards (t + j)) same early in
      (
        a,
        xs,
        listed,
        assigned,
        held d.instance_id
            ∙ (ap (only (serves split.version (afterwards (t + j)))) stored
                ∙ ground (arith, serving)),
      )
