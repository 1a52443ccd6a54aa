-- ===== src/Tests/Mesh.antt =====
-- Mesh: a registration, and a reconciliation during which the route is put.
use distributed_service_mesh.Mesh.Origin.{published_endpoints, seen}
use distributed_service_mesh.Xds.Sources.{IsLive}
use distributed_service_mesh.Metrics.Collectors.{collect_all}
use distributed_service_mesh.Api.Response.{head_of}
use distributed_service_mesh.Api.Request.{namespace_or_default, path_value}
use distributed_service_mesh.Api.Routes.{handle_put_route}
use distributed_service_mesh.Api.Instances.{handle_register_service}
use distributed_service_mesh.Api.Mux.{match_method, dispatch}
use distributed_service_mesh.Reconciliation.Decimal.{version_name}
use distributed_service_mesh.Registry.Ops.{get_service, sweep_stale}
use distributed_service_mesh.Routing.Spec.{check_total, check_splits, validate}
use distributed_service_mesh.Base.Sort.{sort_by}
use distributed_service_mesh.Base.Dict.{put, get}
use distributed_service_mesh.Registry.Types.{key}
use distributed_service_mesh.Routing.Store.{set, spec_of}
use distributed_service_mesh.Registry.Ops.{
  list_services, stamped, sorted_instances, register, healthy_instances,
}
use distributed_service_mesh.Base.Outcome.{ok}
use distributed_service_mesh.Xds.Build.{cluster_name, filter_by_version, build_listener}
use distributed_service_mesh.Base.Int.{pos}
use distributed_service_mesh.Mesh.Published.{
  events-IsIntact, IsHealthyMoment, IsIntact, events-IsIntact, IsHealthyMoment,
}
use distributed_service_mesh.Tests.Requests.{page, post_web, put_web}
use distributed_service_mesh.Api.Server.{handle, serve_all, serve, Circumstance}
use distributed_service_mesh.Base.Text.{contains, begins_with, text_eq, codes, Text}
use distributed_service_mesh.Tests.Data.{demo_cache, demo}
use distributed_service_mesh.Reconciliation.Reconciler.{next_uint64, count_endpoints, reconcile}
use distributed_service_mesh.Xds.Snapshot.{
  routed, build_splits, build_services, build_snapshot, no_resources, Resources,
}
use distributed_service_mesh.Mesh.System.{
  reconciling, new_mesh, requesting, Event, Mesh, run_mesh, Interval,
}
use distributed_service_mesh.Xds.Resources.{Cluster, ResourceLists}
use distributed_service_mesh.Api.Debug.{SnapshotReader}
use distributed_service_mesh.Base.{
  ◌++◌, refl, All, ◌+◌, ◌∷◌, [], ◌==◌, if◌then◌else◌, map, none, some, ℕ, List, ◌≡◌,
}

abbrev pub demo_reader : SnapshotReader (ResourceLists ℕ)
demo_reader = record {
  clusters = λ res. map (λ (c : Cluster). c.name) res.clusters;
  endpoints = λ res. map (λ (c : Cluster). c.name) res.clusters;
  routes = λ res. [];
  listeners = λ res. [];
  version = λ _. codes "1";
}

abbrev pub empty_mesh : Mesh demo demo_cache demo_reader page
empty_mesh = new_mesh demo demo_cache demo_reader page 0

abbrev pub at_time : ℕ → Circumstance (ResourceLists ℕ)
at_time n = record { now = n; later = empty_mesh.server; random = none }

-- The route is put before the fourth call of BuildSnapshot.
abbrev with_put : Interval (ResourceLists ℕ)
with_put = record {
  batches = λ n. if n == 3 then (at_time 12, put_web) ∷ [] else [];
  clock = λ n. 11 + n;
  sweep_time = 10;
  listing_at = 4;
  counting_from = 5;
  ends_at = 7;
}

abbrev two_events : List (Event (ResourceLists ℕ))
two_events = requesting (at_time 9) post_web ∷ reconciling with_put ∷ []

abbrev last_mesh : Mesh demo demo_cache demo_reader page
last_mesh = run_mesh demo demo_cache demo_reader page (pos 10) two_events empty_mesh

tests : Unit {0}
unfolding run_mesh reconcile build_snapshot build_services build_splits build_listener
    healthy_instances filter_by_version routed spec_of set register key get put text_eq
    sorted_instances sort_by stamped cluster_name validate check_splits check_total list_services
    begins_with sweep_stale count_endpoints get_service version_name serve serve_all handle dispatch
    match_method handle_register_service handle_put_route path_value namespace_or_default head_of
    contains collect_all
tests = tt

-- The services were listed with no route, so the service has one split.
abbrev made_snapshot : ResourceLists ℕ
made_snapshot = elim last_mesh.server.last_snapshot [ none ↦ no_resources demo | some snap ↦ snap ]

last_made : last_mesh.server.last_snapshot ≡ some made_snapshot
unfolding tests
last_made = refl

events-IsIntact_example : IsIntact demo demo_cache demo_reader page last_mesh
events-IsIntact_example = events-IsIntact demo demo_cache demo_reader page (pos 10) two_events 0

published_endpoints_example :
    (before after : List (Event (ResourceLists ℕ))) × (i : Interval (ResourceLists ℕ)) × (two_events
      ≡ before ++ reconciling i ∷ after)
    × let m = run_mesh demo demo_cache demo_reader page (pos 10) before empty_mesh in
      (res : Resources demo) × (demo.new_snapshot
          (version_name (next_uint64 m.reconciler.version))
          res
        ≡ ok made_snapshot)
      × All (IsLive (seen demo demo_cache demo_reader page (pos 10) m i)) res.endpoints
published_endpoints_example =
    published_endpoints demo demo_cache demo_reader page (pos 10) two_events 0 last_made
