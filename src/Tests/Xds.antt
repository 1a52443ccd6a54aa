-- ===== src/Tests/Xds.antt =====
-- Snapshots: a run of the builder, and its theorems at that run.
use distributed_service_mesh.Xds.Assignments.{Assigns}
use distributed_service_mesh.Xds.Resources.{ClusterLoadAssignment}
use distributed_service_mesh.Routing.Validation.{sum_weights}
use mathlib.Core.Path.{subst}
use distributed_service_mesh.Registry.View.{lookup}
use distributed_service_mesh.Xds.Endpoints.{build_splits-endpoints, serves}
use distributed_service_mesh.Base.Sort.Filter.{only}
use distributed_service_mesh.Registry.Listing.{id_of}
use distributed_service_mesh.Xds.Traffic.{build_services-IsWhole, IsWhole, IsSane}
use distributed_service_mesh.Xds.Ports.{listener-ports}
use distributed_service_mesh.Xds.References.{build_services-IsClosed, IsClosed}
use distributed_service_mesh.Base.Sort.{find, IsAscending, sort_by}
use distributed_service_mesh.Base.Dict.{put, get}
use distributed_service_mesh.Registry.Types.{Instance, key}
use distributed_service_mesh.Routing.Store.{spec_of-set, new_store, set, spec_of}
use distributed_service_mesh.Base.Outcome.{ok}
use distributed_service_mesh.Routing.Spec.{
  check_total, check_splits, validate, zero_spec, no_breaker,
}
use distributed_service_mesh.Registry.Ops.{
  list_services, sorted_instances, register, stamped, healthy_instances,
}
use distributed_service_mesh.Xds.Build.{
  cluster_name, build_route_configuration, listener_with, build_cluster_load_assignment,
  filter_by_version, build_listener, build_cluster,
}
use distributed_service_mesh.Base.Text.{begins_with, text_eq, codes, Text}
use distributed_service_mesh.Tests.Data.{canary-validate, one_web-IsValid, canary, web, quiet, demo}
use distributed_service_mesh.Xds.Snapshot.{
  default_namespace, routed, build_splits, Resources, build_services, build_snapshot,
}
use distributed_service_mesh.Base.{
  ◌^◌, some, arith, get_elem?, none, ℕ, ◌<◌, All, refl, [], ◌∷◌, List, ◌≡◌,
}

-- What is built for the services "api", which has no spec, and "web".
abbrev services : List Text
services = codes "api" ∷ codes "web" ∷ []

abbrev built : Resources demo
built = record {
  clusters =
      build_cluster (codes "api") no_breaker
      ∷ build_cluster (codes "web::v1") no_breaker
      ∷ build_cluster (codes "web::v2") no_breaker
      ∷ [];
  endpoints =
      build_cluster_load_assignment (codes "api") []
      ∷ build_cluster_load_assignment (codes "web::v1") (stamped web 5 ∷ [])
      ∷ build_cluster_load_assignment (codes "web::v2") []
      ∷ [];
  listeners =
      listener_with demo (codes "api") 20000 1 ∷ listener_with demo (codes "web") 20001 1 ∷ [];
  route_configs =
      build_route_configuration (codes "api-route") (codes "api")
        (record { name = codes "api"; weight = 100 } ∷ []) zero_spec
      ∷ build_route_configuration (codes "web-route") (codes "web")
          (record { name = codes "web::v1"; weight = 90 }
            ∷ record { name = codes "web::v2"; weight = 10 }
            ∷ [])
          canary
      ∷ [];
}

tests : Unit {0}
unfolding build_services build_splits build_listener healthy_instances filter_by_version routed
    spec_of set register key get put text_eq sorted_instances sort_by stamped cluster_name validate
    check_splits check_total
tests = tt

build_services_web : build_services demo quiet 1 0 services ≡ ok built
unfolding tests
build_services_web = refl

abbrev built_web : Resources demo
built_web = record {
  clusters =
      build_cluster (codes "web::v1") no_breaker ∷ build_cluster (codes "web::v2") no_breaker ∷ [];
  endpoints =
      build_cluster_load_assignment (codes "web::v1") (stamped web 5 ∷ [])
      ∷ build_cluster_load_assignment (codes "web::v2") []
      ∷ [];
  listeners = listener_with demo (codes "web") 20000 1 ∷ [];
  route_configs =
      build_route_configuration (codes "web-route") (codes "web")
        (record { name = codes "web::v1"; weight = 90 }
          ∷ record { name = codes "web::v2"; weight = 10 }
          ∷ [])
        canary
      ∷ [];
}

build_snapshot_web : build_snapshot demo quiet (codes "v1") ≡ ok built_web
unfolding tests build_snapshot list_services begins_with
build_snapshot_web = refl

build_services-IsClosed_example : IsClosed built
build_services-IsClosed_example =
    build_services-IsClosed demo quiet 1 0 services {res = built} build_services_web

no_spec : (service : Text) → spec_of service new_store ≡ none
unfolding spec_of get
no_spec service = refl

quiet-IsSane : (t : ℕ) → IsSane (quiet t)
unfolding routed
quiet-IsSane t service spec e =
    let stored = (spec_of-set canary new_store service).2 canary-validate in
    let same : canary ≡ spec = ground (arith, stored, e, no_spec service) in
    subst (λ s. (validate s ≡ ok tt) × (sum_weights s.splits < 2 ^ 32)) same
      (canary-validate, omega arith)

build_services-IsWhole_example : All IsWhole built.route_configs
build_services-IsWhole_example =
    build_services-IsWhole demo quiet quiet-IsSane 1 0 services {res = built} build_services_web

listener-ports_example : (20001 < 65536) × (◌≡◌ {A = ℕ} 20001 20000 → ◌≡◌ {A = ℕ} 1 0)
unfolding listener_with
listener-ports_example =
    listener-ports demo quiet 1 services {res = built} (omega arith) build_services_web 1 0
      (listener_with demo (codes "web") 20001 1) (listener_with demo (codes "api") 20000 1) refl
      refl

build_splits-endpoints_example :
    (a : ClusterLoadAssignment) × (xs : List Instance) × (get_elem?
        (build_splits quiet 1 (codes "web") no_breaker canary.splits).endpoints
        0
      ≡ some a)
    × Assigns (codes "web::v1") xs a
    × IsAscending id_of xs
    × ((id : Text)
        → find id_of id xs
          ≡ only
              (serves (codes "v1") (quiet 1))
              (lookup (key default_namespace (codes "web")) id (quiet 1).registry))
unfolding text_eq
build_splits-endpoints_example =
    build_splits-endpoints quiet 1 (codes "web") no_breaker canary.splits 0
      (record { version = codes "v1"; weight = 90 }) (λ c. one_web-IsValid) refl
