-- ===== src/Tests/Delivery.antt =====
-- Delivery: a registration, and a reconciliation during which another service is registered.
use distributed_service_mesh.Api.Expected.{registered_as}
use distributed_service_mesh.Api.Instances.{handle_deregister_instance}
use distributed_service_mesh.Registry.Ops.{deregister}
use distributed_service_mesh.Base.Dict.{delete}
use distributed_service_mesh.Xds.Build.{build_cluster_load_assignment}
use distributed_service_mesh.Mesh.Removed.{deregistered-IsLiveWithout, IsLiveWithout}
use distributed_service_mesh.Base.Outcome.{ok}
use distributed_service_mesh.Mesh.Delivered.{requested, weather}
use distributed_service_mesh.Tests.Requests.{delete_web}
use mathlib.Core.Option.{some-injective}
use mathlib.Core.Path.{subst}
use distributed_service_mesh.Xds.Resources.{ResourceLists}
use distributed_service_mesh.Api.Apart.{apart_request, IsApartRequest}
use distributed_service_mesh.Mesh.Delivered
use distributed_service_mesh.Mesh.Delivered.{after, registered-IsDelivered}
use distributed_service_mesh.Registry.View.{at}
use distributed_service_mesh.Api.Request.{RegisterServiceRequest, Request}
use distributed_service_mesh.Tests.Data.{demo_cache, demo}
use distributed_service_mesh.Delivery.Snapshot.{IsDelivered}
use distributed_service_mesh.Tests.Mesh.{demo_reader, at_time}
use distributed_service_mesh.Metrics.Collectors.{collect_all}
use distributed_service_mesh.Api.Response.{head_of}
use distributed_service_mesh.Api.Request.{namespace_or_default, path_value}
use distributed_service_mesh.Api.Routes.{handle_put_route}
use distributed_service_mesh.Api.Instances.{handle_register_service}
use distributed_service_mesh.Api.Mux.{register_service, match_method, dispatch}
use distributed_service_mesh.Reconciliation.Decimal.{version_name}
use distributed_service_mesh.Registry.Ops.{get_service, sweep_stale}
use distributed_service_mesh.Routing.Spec.{check_total, check_splits, validate}
use distributed_service_mesh.Base.Sort.{sort_by}
use distributed_service_mesh.Base.Dict.{put, get}
use distributed_service_mesh.Registry.Types.{key}
use distributed_service_mesh.Routing.Store.{set, spec_of}
use distributed_service_mesh.Registry.Ops.{
  list_services, stamped, sorted_instances, register, healthy_instances,
}
use distributed_service_mesh.Xds.Build.{cluster_name, filter_by_version, build_listener}
use distributed_service_mesh.Api.Server.{Circumstance, handle, serve_all, serve}
use distributed_service_mesh.Base.Text.{contains, begins_with, text_eq, codes}
use distributed_service_mesh.Reconciliation.Reconciler.{
  next_uint64, node_id, count_endpoints, reconcile,
}
use distributed_service_mesh.Xds.Snapshot.{
  no_resources, Resources, default_namespace, routed, build_splits, build_services, build_snapshot,
}
use distributed_service_mesh.Mesh.System.{requesting, Event, Interval, Mesh, run_mesh}
use distributed_service_mesh.Base.{
  map, false, inr, ◌∷◌, ◌==◌, if◌then◌else◌, Bool-cases, List, All, inl, refl, [], none, some, ℕ,
  ◌≡◌,
}
use distributed_service_mesh.Tests.Requests.{page, post_web, registration}
use distributed_service_mesh.Base.{arith}

tests : Unit {0}
unfolding run_mesh reconcile build_snapshot build_services build_splits build_listener
    healthy_instances filter_by_version routed spec_of set register key get put text_eq
    sorted_instances sort_by stamped cluster_name validate check_splits check_total list_services
    begins_with sweep_stale count_endpoints get_service version_name serve serve_all handle dispatch
    match_method handle_register_service handle_put_route path_value namespace_or_default head_of
    contains collect_all handle_deregister_instance deregister delete build_cluster_load_assignment
tests = tt

-- While the reconciliation goes on, an instance of another service is registered.
abbrev post_db : Request
post_db = record post_web {
  registration = some (record registration { service_name = codes "db" });
}

post_db-apart :
    IsApartRequest (key default_namespace (codes "web")) (codes "i1") (codes "web") post_db
unfolding tests
post_db-apart =
    apart_request (key default_namespace (codes "web")) (codes "i1") (codes "web") register_service
      [] post_db refl
      λ d e.
        subst
          (λ (x : RegisterServiceRequest).
            at (key (namespace_or_default x.namespace) x.service_name) x.instance_id
              (key default_namespace (codes "web")) (codes "i1")
            ≡ false)
          (some-injective _ _ e) refl

abbrev busy_batches : ℕ → List (Circumstance (ResourceLists ℕ) × Request)
busy_batches m = if m == 2 then (at_time 12, post_db) ∷ [] else []

busy-apart :
    (m : ℕ)
    → All
        (λ c. IsApartRequest (key default_namespace (codes "web")) (codes "i1") (codes "web") c.1)
        (busy_batches m)
busy-apart m = elim (Bool-cases (m == 2)) [
  | inl here ↦ rw here (post_db-apart, tt)
  | inr elsewhere ↦ rw elsewhere tt
]

abbrev busy : Interval (ResourceLists ℕ)
busy = record {
  batches = busy_batches;
  clock = λ n. 11;
  sweep_time = 10;
  listing_at = 4;
  counting_from = 5;
  ends_at = 7;
}

abbrev after_busy : Mesh demo demo_cache demo_reader page
after_busy = after demo demo_cache demo_reader page 10 [] 0 (at_time 9) post_web busy

reconciled_busy :
    Delivered.error demo demo_cache demo_reader page 10 [] 0 (at_time 9) post_web busy ≡ none
unfolding tests
reconciled_busy = refl

registered-IsDelivered_example :
    (snap : demo.Snapshot) × (after_busy.server.last_snapshot ≡ some snap)
    × (demo_cache.set_snapshot node_id snap 0 ≡ (none, after_busy.reconciler.published))
    × IsDelivered demo
        (codes "web")
        (codes "i1")
        (record { version = []; weight = 100 })
        (registered_as registration 9)
        (version_name (next_uint64 0))
        snap
unfolding tests
registered-IsDelivered_example =
    registered-IsDelivered demo demo_cache demo_reader page 10 [] 0 (at_time 9) post_web busy 0 refl
      refl refl (λ e. absurd (ground (arith, e))) (λ e. absurd (ground (arith, e))) refl refl
      (inl refl) (omega arith) (omega arith) (omega arith) (λ k. omega arith) busy-apart
      reconciled_busy

-- Two services are registered, then the instance of one is deregistered.
abbrev two_registrations : List (Event (ResourceLists ℕ))
two_registrations = requesting (at_time 7) post_web ∷ requesting (at_time 8) post_db ∷ []

abbrev after_delete : Mesh demo demo_cache demo_reader page
after_delete =
    after demo demo_cache demo_reader page 10 two_registrations 0 (at_time 9) delete_web busy

abbrev without_web : ResourceLists ℕ
without_web = elim after_delete.server.last_snapshot [ none ↦ no_resources demo | some snap ↦ snap ]

shown_without_web : after_delete.server.last_snapshot ≡ some without_web
unfolding tests
shown_without_web = refl

reconciled_without_web :
    Delivered.error demo demo_cache demo_reader page 10 two_registrations 0
      (at_time 9)
      delete_web
      busy
    ≡ none
unfolding tests
reconciled_without_web = refl

one_endpoint_left : map (λ a. a.cluster_name) without_web.endpoints ≡ codes "db" ∷ []
unfolding tests
one_endpoint_left = refl

deregistered-IsLiveWithout_example :
    (res : Resources demo) × (demo.new_snapshot
        (version_name (
          next_uint64
            (requested demo demo_cache demo_reader page 10 two_registrations 0
              (at_time 9)
              delete_web
              busy).reconciler.version))
        res
      ≡ ok without_web)
    × All
        (IsLiveWithout demo
          (weather demo demo_cache demo_reader page 10 two_registrations 0
            (at_time 9)
            delete_web
            busy).building
          (codes "web")
          (codes "i1"))
        res.endpoints
unfolding namespace_or_default text_eq
deregistered-IsLiveWithout_example =
    deregistered-IsLiveWithout demo demo_cache demo_reader page 10 two_registrations 0 (at_time 9)
      delete_web busy (codes "web") (codes "i1") (λ e. absurd (ground (arith, e)))
      (λ e. absurd (ground (arith, e))) refl refl refl busy-apart reconciled_without_web
      shown_without_web
