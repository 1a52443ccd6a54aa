-- ===== src/Mesh/Delivered.antt =====
-- internal/controlplane/controlplane.go: the way of a registered instance into the next snapshot,
-- with other requests served meanwhile.
use distributed_service_mesh.Api.Expected.{stamped-registered_as, registered_as}
use distributed_service_mesh.Base.Outcome.{ok}
use distributed_service_mesh.Delivery.{registered_as-serves}
use distributed_service_mesh.Reconciliation.Rounds.{reconcile-IsAttempt}
use distributed_service_mesh.Reconciliation.Decimal.{version_name}
use distributed_service_mesh.Delivery.Snapshot.{stored-IsDelivered, IsDelivered}
use distributed_service_mesh.Api.Trips.{lookup-register_named, registry-serve}
use mathlib.Core.Path.{subst, ap₂}
use distributed_service_mesh.Registry.Health.{fresh-exact, lookup-sweep_stale-fresh}
use distributed_service_mesh.Routing.Store.{spec_of}
use distributed_service_mesh.Registry.Listing.{fresh}
use distributed_service_mesh.Registry.View.{lookup}
use distributed_service_mesh.Api.Paths.{services_path}
use distributed_service_mesh.Routing.Spec.{VersionWeight}
use distributed_service_mesh.Registry.Types.{key, Instance}
use distributed_service_mesh.Xds.Snapshot.{
  build_snapshot, splits_or_default, default_namespace, routed,
}
use distributed_service_mesh.Mesh.Published.{
  weather_of-IsHealthyMoment, events-IsIntact, run_mesh-IsIntact,
}
use distributed_service_mesh.Base.Int.{max_int64, pos}
use distributed_service_mesh.Api.Requests.{IsHealthy}
use distributed_service_mesh.Api.Apart.{serve_all-Apart, Apart, IsApartRequest}
use distributed_service_mesh.Api.Server.{Server, Circumstance}
use distributed_service_mesh.Base.Text.{codes, Text}
use distributed_service_mesh.Mesh.System.{
  requesting, new_mesh, reconciling, reconcile_mesh, swept_server, step, weather_of, run_mesh, Mesh,
  Interval, Event, server_at,
}
use distributed_service_mesh.Base.{
  ap, arith, none, ◌*◌, ◌+◌, ◌≤◌, sym, ◌<◌, ◌⊎◌, get_elem?, true, ◌≢◌, zero, some, ◌∙◌, suc, [],
  ◌∷◌, ◌≡◌, Option, All, List, ℕ,
}
use distributed_service_mesh.Api.Request.{namespace_or_default, RegisterServiceRequest, Request}
use distributed_service_mesh.Api.Mux.{Target}
use distributed_service_mesh.Api.Debug.{SnapshotReader}
use distributed_service_mesh.Xds.Build.{XdsLibrary}
use distributed_service_mesh.Reconciliation.Reconciler.{
  ReconcileError, Weather, SnapshotCache, reconcile, next_uint64, node_id,
}

module _ (lib : XdsLibrary) (cache : SnapshotCache lib) (reader : SnapshotReader lib.Snapshot)
    (page : Target → Request → ℕ) where
  pub server_at-Apart :
      (k id service : Text) (batches : ℕ → List (Circumstance lib.Snapshot × Request))
      (s : Server lib.Snapshot) (n : ℕ)
      → ((m : ℕ) → All (λ c. IsApartRequest k id service c.1) (batches m))
      → Apart k id service s (server_at lib cache reader page batches s n)
  unfolding server_at
  server_at-Apart k id service batches s zero h =
      serve_all-Apart k id service reader page (batches 0) s (h 0)
  server_at-Apart k id service batches s (suc n) h =
      let (stays, routed) = server_at-Apart k id service batches s n h in
      let (later, routed_later) =
        serve_all-Apart k id service reader page (batches (suc n))
          (server_at lib cache reader page batches s n) (h (suc n)) in
      (later ∙ stays, routed_later ∙ routed)

  module _ (n : ℕ) (es : List (Event lib.Snapshot)) (c : cache.Cache)
      (env : Circumstance lib.Snapshot) (req : Request) (i : Interval lib.Snapshot) where
    -- Any events from the start on, then the request, then the reconciliation.
    abbrev pub before : Mesh lib cache reader page
    before = run_mesh lib cache reader page (pos n) es (new_mesh lib cache reader page c)

    abbrev pub requested : Mesh lib cache reader page
    requested = step lib cache reader page (pos n) (requesting env req) before

    abbrev pub weather : Weather lib cache
    weather = weather_of lib cache reader page (pos n) i requested.server

    abbrev pub error : Option (ReconcileError lib.Failure)
    error = (reconcile lib cache (pos n) weather requested.server.registry requested.reconciler).0

    abbrev pub after : Mesh lib cache reader page
    after = step lib cache reader page (pos n) (reconciling i) requested

    pub requested-IsHealthy : IsHealthy requested.server
    unfolding run_mesh
    requested-IsHealthy =
        (run_mesh-IsIntact lib cache reader page (pos n) (requesting env req ∷ []) before
          (events-IsIntact lib cache reader page (pos n) es c)).healthy

    seen-lookup :
        (k id service : Text) (m : ℕ) {inst : Instance}
        → ((m : ℕ) → All (λ c. IsApartRequest k id service c.1) (i.batches m))
        → lookup k id requested.server.registry ≡ some inst
        → fresh (pos n) i.sweep_time inst ≡ true
        → (lookup k id (weather.building m).registry ≡ some inst)
          × (routed service (weather.building m) ≡ spec_of service requested.server.routes)
    unfolding weather_of swept_server routed
    seen-lookup k id service m apart stored alive =
        let swept = swept_server lib cache reader page (pos n) i requested.server in
        let (stays, route) = server_at-Apart k id service i.batches swept m apart in
        (
          stays
              ∙ lookup-sweep_stale-fresh (pos n) i.sweep_time requested.server.registry k id stored
                  alive,
          route,
        )

    requested-lookup :
        {d : RegisterServiceRequest}
        → req.method ≡ codes "POST"
        → req.path ≡ services_path
        → req.registration ≡ some d
        → d.service_name ≢ []
        → d.instance_id ≢ []
        → namespace_or_default d.namespace ≡ default_namespace
        → lookup (key default_namespace d.service_name) d.instance_id requested.server.registry
          ≡ some (registered_as d env.now)
    unfolding step
    requested-lookup {d} em ep good hn hi ns =
        ap₂ (λ m x. lookup (key m d.service_name) d.instance_id x) (sym ns)
          (registry-serve reader page env req before.server em ep good hn hi)
        ∙ lookup-register_named d env.now before.server.registry hn hi
        ∙ ap some (stamped-registered_as d env.now)

    -- From the start on, after any events and then POST /v1/services for the default namespace,
    -- with a service name and an instance ID, comes a reconciliation, between whose calls any
    -- requests are served that do not register, deregister or heartbeat that instance and do not
    -- put or delete the route of its service. If it sweeps with a positive bound below the largest
    -- int64, at most that bound after the registration, reads the clock for its endpoints at most
    -- 15 s after it, and does not fail, then the cache accepts and the server shows a snapshot that
    -- the library made under the next version from resources in which the load assignment of the
    -- given split of the service, which names the version of the instance or none, has the sockets
    -- of a list of instances. In that list is the instance under its ID, with the fields of the
    -- body, healthy, with the time of the registration, and among the sockets are its address and
    -- port.
    pub registered-IsDelivered :
        (j : ℕ) {d : RegisterServiceRequest} {split : VersionWeight}
        → req.method ≡ codes "POST"
        → req.path ≡ services_path
        → req.registration ≡ some d
        → d.service_name ≢ []
        → d.instance_id ≢ []
        → namespace_or_default d.namespace ≡ default_namespace
        → get_elem? (splits_or_default (spec_of d.service_name requested.server.routes)) j
          ≡ some split
        → (split.version ≡ []) ⊎ (d.version ≡ split.version)
        → 0 < n
        → n < max_int64
        → i.sweep_time ≤ env.now + n
        → ((m : ℕ) → i.clock m ≤ env.now + 15 * 1_000_000_000)
        → ((m : ℕ)
            → All
                (λ c.
                  IsApartRequest
                    (key default_namespace d.service_name)
                    d.instance_id
                    d.service_name
                    c.1)
                (i.batches m))
        → error ≡ none
        → (snap : lib.Snapshot) × (after.server.last_snapshot ≡ some snap)
          × (cache.set_snapshot node_id snap requested.reconciler.published
              ≡ (none, after.reconciler.published))
          × IsDelivered lib d.service_name d.instance_id split
              (registered_as d env.now)
              (version_name (next_uint64 requested.reconciler.version))
              snap
    unfolding step reconcile_mesh weather_of
    registered-IsDelivered j {d} {split} em ep good hn hi ns at same hp hm swept_early early apart
          fine =
        let inst = registered_as d env.now in
        let k = key default_namespace d.service_name in
        let alive = fresh-exact n i.sweep_time inst hp hm in
        let seen : (m : ℕ)
            → (lookup k d.instance_id (weather.building m).registry ≡ some inst)
              × (routed d.service_name (weather.building m)
                  ≡ spec_of d.service_name requested.server.routes) =
          λ m.
            seen-lookup k d.instance_id d.service_name m apart
              (requested-lookup em ep good hn hi ns) (ground (arith, alive, swept_early)) in
        let (_, attempt) =
          reconcile-IsAttempt lib cache (pos n) weather requested.server.registry
            requested.reconciler in
        let (snap, built, set, last) = attempt.publishes fine in
        (
          snap,
          last,
          set,
          stored-IsDelivered lib d.service_name d.instance_id weather.building j
              (version_name (next_uint64 requested.reconciler.version))
              (λ m.
                (weather_of-IsHealthyMoment lib cache reader page (pos n) i requested.server m
                  requested-IsHealthy).0)
              (λ m. (seen m).0)
              (λ m.
                registered_as-serves d env.now split.version (weather.building m) same (early m))
              (λ m. ap (λ o. get_elem? (splits_or_default o) j) (seen m).1 ∙ at) hn
              (subst (λ x. build_snapshot lib weather.building (version_name x) ≡ ok snap)
                attempt.one_version built),
        )
