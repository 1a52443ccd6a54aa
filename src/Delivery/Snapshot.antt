-- ===== src/Delivery/Snapshot.antt =====
-- internal/api and internal/reconciliation together: the way of a registered instance into the
-- snapshot of the next reconciliation.
use distributed_service_mesh.Xds.Assignments.{
  sockets, name_for, Assigns, socket_of-found, socket_of,
}
use distributed_service_mesh.Xds.Resources.{ClusterLoadAssignment}
use distributed_service_mesh.Api.Expected.{stamped-registered_as, registered_as}
use distributed_service_mesh.Delivery.{registered_as-serves}
use distributed_service_mesh.Reconciliation.Rounds.{reconcile-IsAttempt}
use distributed_service_mesh.Registry.Health.{lookup-sweep_stale-fresh, fresh-exact}
use mathlib.Core.Path.{ap₂, subst}
use distributed_service_mesh.Api.Trips.{lookup-register_named, registry-serve}
use distributed_service_mesh.Reconciliation.Decimal.{version_name}
use distributed_service_mesh.Api.Instances.{instance_of}
use distributed_service_mesh.Routing.Store.{spec_of}
use distributed_service_mesh.Api.Paths.{services_path}
use distributed_service_mesh.Base.Int.{max_int64, pos}
use distributed_service_mesh.Registry.Ops.{sweep_stale}
use distributed_service_mesh.Api.Server.{serve, Server, Circumstance}
use distributed_service_mesh.Base.Sort.Filter.{only}
use distributed_service_mesh.Api.Request.{namespace_or_default, RegisterServiceRequest, Request}
use distributed_service_mesh.Api.Mux.{Target}
use distributed_service_mesh.Api.Debug.{SnapshotReader}
use distributed_service_mesh.Xds.Snapshot.{spec_or_zero}
use distributed_service_mesh.Xds.Parts.{build_services-Covers, services_of-listed}
use distributed_service_mesh.Xds.Consistency.{build_snapshot-consistent}
use distributed_service_mesh.Registry.Listing.{id_of}
use distributed_service_mesh.Base.Sort.{find}
use distributed_service_mesh.Xds.Endpoints.{build_splits-endpoints, serves}
use distributed_service_mesh.Base.Outcome.{ok}
use distributed_service_mesh.Registry.View.{lookup}
use distributed_service_mesh.Registry.Validity.{register-IsValid, sweep_stale-IsValid, IsValid}
use distributed_service_mesh.Registry.Types.{InMemory, Time, key, Instance}
use distributed_service_mesh.Xds.Rounds.{round_splits}
use distributed_service_mesh.Routing.Spec.{VersionWeight}
use distributed_service_mesh.Base.Text.{codes, Text}
use distributed_service_mesh.Xds.Snapshot.{
  services_of, build_snapshot, routed, splits_or_default, default_namespace, Resources, History,
}
use distributed_service_mesh.Xds.Build.{XdsLibrary}
use distributed_service_mesh.Base.{
  sym, none, ◌*◌, ◌≤◌, ◌<◌, ◌⊎◌, Option, arith, ◌+◌, ap, ◌∙◌, suc, [], ◌≢◌, get_elem?, true, some,
  Has, List, ℕ, ◌≡◌,
}
use distributed_service_mesh.Reconciliation.Reconciler.{
  next_uint64, node_id, ReconcileError, reconcile, SnapshotCache, Weather, Reconciler,
}

module _ (lib : XdsLibrary) (service id : Text) where
  -- The snapshot was made of resources, and the load assignment of the split has the instance.
  abbrev pub IsDelivered : VersionWeight → Instance → Text → lib.Snapshot → Type 0
  IsDelivered split inst version snap =
      (res : Resources lib) × (a : ClusterLoadAssignment) × (xs : List Instance) × (lib.new_snapshot
          version res
        ≡ ok snap)
      × Has res.endpoints a
      × Assigns (name_for service split.version) xs a
      × (find id_of id xs ≡ some inst)
      × Has (sockets a) (socket_of inst)

  pub stored-IsDelivered :
      (h : History) (j : ℕ) (version : Text) {split : VersionWeight} {inst : Instance}
      {snap : lib.Snapshot}
      → ((c : ℕ) → IsValid (h c).registry)
      → ((c : ℕ) → lookup (key default_namespace service) id (h c).registry ≡ some inst)
      → ((c : ℕ) → serves split.version (h c) inst ≡ true)
      → ((c : ℕ) → get_elem? (splits_or_default (routed service (h c))) j ≡ some split)
      → service ≢ []
      → build_snapshot lib h version ≡ ok snap
      → IsDelivered split inst version snap
  unfolding round_splits
  stored-IsDelivered h j version {split} {inst} v stored serving at named built =
      let (res, services, _, made, _) = build_snapshot-consistent lib h version built in
      let listed = services_of-listed lib h service (v 0) named (id, inst, stored 0) in
      let (t, covered) =
        build_services-Covers lib h 1 0 (services_of lib h) services service listed in
      let (a, xs, there, assigned, _, held) =
        build_splits-endpoints h (suc t) service
          (spec_or_zero (routed service (h t))).circuit_breaker
          (splits_or_default (routed service (h t))) j split v (at t) in
      let found : find id_of id xs ≡ some inst =
        held id
        ∙ (ap (only (serves split.version (h (suc t + j)))) (stored (suc t + j))
            ∙ ground (arith, serving (suc t + j))) in
      (
        res,
        a,
        xs,
        made,
        covered a (j, there),
        assigned,
        found,
        subst (λ l. Has l (socket_of inst)) (sym assigned.1) (socket_of-found id xs found),
      )

module _ (lib : XdsLibrary) (cache : SnapshotCache lib) (reader : SnapshotReader lib.Snapshot)
    (page : Target → Request → ℕ) (env : Circumstance lib.Snapshot) (req : Request)
    (s : Server lib.Snapshot) (n : ℕ) (w : Weather lib cache) (clock : ℕ → Time)
    (r : Reconciler lib cache) where
  -- The server after the request, and the reconciliation after it, in which no request comes.
  abbrev pub requested : Server lib.Snapshot
  requested = (serve reader page env req s).1

  abbrev pub left : InMemory
  left = (sweep_stale (pos n) w.sweep_time requested.registry).1

  abbrev pub undisturbed : Weather lib cache
  undisturbed = record w {
    building = λ k. record { registry = left; routes = some requested.routes; now = clock k };
  }

  abbrev pub reconciled : Option (ReconcileError lib.Failure) × InMemory × Reconciler lib cache
  reconciled = reconcile lib cache (pos n) undisturbed requested.registry r

  -- With a valid registry, after POST /v1/services for the default namespace, with a service name
  -- and an instance ID, and with no request until the reconciliation that follows has ended: if it
  -- sweeps with a positive bound below the largest int64, at most that bound after the
  -- registration, reads the clock for its endpoints at most 15 s after it, and does not fail, then
  -- the cache accepts and the reconciler remembers a snapshot that the library made under the next
  -- version from resources in which the load assignment of the given split of the service, which
  -- names the version of the instance or none, has the instance under its ID, with the time of the
  -- registration.
  pub registered-published :
      (j : ℕ) {d : RegisterServiceRequest} {split : VersionWeight}
      → IsValid s.registry
      → req.method ≡ codes "POST"
      → req.path ≡ services_path
      → req.registration ≡ some d
      → d.service_name ≢ []
      → d.instance_id ≢ []
      → namespace_or_default d.namespace ≡ default_namespace
      → get_elem? (splits_or_default (spec_of d.service_name requested.routes)) j ≡ some split
      → (split.version ≡ []) ⊎ (d.version ≡ split.version)
      → 0 < n
      → n < max_int64
      → w.sweep_time ≤ env.now + n
      → ((k : ℕ) → clock k ≤ env.now + 15 * 1_000_000_000)
      → reconciled.0 ≡ none
      → (snap : lib.Snapshot) × (reconciled.2.last_snapshot ≡ some snap)
        × (cache.set_snapshot node_id snap r.published ≡ (none, reconciled.2.published))
        × IsDelivered lib d.service_name d.instance_id split
            (registered_as d env.now)
            (version_name (next_uint64 r.version))
            snap
  unfolding routed
  registered-published j {d} {split} v em ep good hn hi ns at same hp hm swept_early early fine =
      let made = registry-serve reader page env req s em ep good hn hi in
      let valid : IsValid left =
        sweep_stale-IsValid (pos n) w.sweep_time requested.registry
          (subst IsValid (sym made) (register-IsValid (instance_of d) env.now s.registry v)) in
      let alive = fresh-exact n w.sweep_time (registered_as d env.now) hp hm in
      let stored : lookup (key default_namespace d.service_name) d.instance_id requested.registry
          ≡ some (registered_as d env.now) =
        ap₂ (λ m x. lookup (key m d.service_name) d.instance_id x) (sym ns) made
        ∙ lookup-register_named d env.now s.registry hn hi
        ∙ ap some (stamped-registered_as d env.now) in
      let kept =
        lookup-sweep_stale-fresh (pos n) w.sweep_time requested.registry
          (key default_namespace d.service_name) d.instance_id stored
          (ground (arith, alive, swept_early)) in
      let (_, attempt) = reconcile-IsAttempt lib cache (pos n) undisturbed requested.registry r in
      let (snap, built, set, last) = attempt.publishes fine in
      (
        snap,
        last,
        set,
        stored-IsDelivered lib d.service_name d.instance_id undisturbed.building j
            (version_name (next_uint64 r.version)) (λ c. valid) (λ c. kept)
            (λ c.
              registered_as-serves d env.now split.version (undisturbed.building c) same (early c))
            (λ c. at) hn
            (subst (λ x. build_snapshot lib undisturbed.building (version_name x) ≡ ok snap)
              attempt.one_version built),
      )
