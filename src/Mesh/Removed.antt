-- ===== src/Mesh/Removed.antt =====
-- internal/controlplane/controlplane.go: what the next snapshot has of an instance that was
-- deregistered, with other requests served meanwhile.
use distributed_service_mesh.Mesh.Published.{weather_of-IsHealthyMoment}
use distributed_service_mesh.Registry.Validity.{IsValid}
use distributed_service_mesh.Xds.Consistency.{build_snapshot-consistent}
use mathlib.Core.Option.{some-injective}
use distributed_service_mesh.Reconciliation.Rounds.{reconcile-IsAttempt}
use distributed_service_mesh.Api.Answers.{deregister-answers}
use distributed_service_mesh.Base.Outcome.{ok}
use distributed_service_mesh.Reconciliation.Decimal.{version_name}
use distributed_service_mesh.Api.Paths.{instance_path}
use distributed_service_mesh.Base.Int.{pos}
use distributed_service_mesh.Api.Apart.{IsApartRequest}
use distributed_service_mesh.Xds.Endpoints.{serves}
use distributed_service_mesh.Base.Sort.Filter.{only}
use distributed_service_mesh.Api.Server.{Circumstance}
use distributed_service_mesh.Registry.Listing.{id_of}
use distributed_service_mesh.Mesh.System.{
  reconcile_mesh, swept_server, step, weather_of, Interval, Event,
}
use distributed_service_mesh.Registry.Types.{Instance, key}
use distributed_service_mesh.Base.Sort.{find}
use distributed_service_mesh.Api.Request.{namespace_or_default, Request}
use distributed_service_mesh.Registry.View.{lookup-sweep_stale, lookup}
use distributed_service_mesh.Api.Mux.{Target}
use distributed_service_mesh.Base.{
  All-map, sym, arith, some, [], All, ◌≢◌, ap, ◌∙◌, none, ◌≡◌, List, ℕ,
}
use distributed_service_mesh.Xds.Sources.{build_services-IsLive, IsLive}
use distributed_service_mesh.Xds.Resources.{ClusterLoadAssignment}
use distributed_service_mesh.Api.Debug.{SnapshotReader}
use distributed_service_mesh.Base.Text.{codes, Text}
use distributed_service_mesh.Xds.Snapshot.{services_of, Resources, default_namespace, History}
use distributed_service_mesh.Xds.Build.{XdsLibrary}
use distributed_service_mesh.Mesh.Delivered.{
  requested-IsHealthy, before, server_at-Apart, after, error, requested, weather,
}
use distributed_service_mesh.Reconciliation.Reconciler.{SnapshotCache, next_uint64}

module _ (lib : XdsLibrary) (h : History) where
  abbrev pub instances_in : (a : ClusterLoadAssignment) → IsLive h a → List Instance
  instances_in a (service, t, (split, has, (c, xs, _, _, _))) = xs

  -- It is the load assignment of a split, and without the instance if it is of that service.
  abbrev pub IsLiveWithout : Text → Text → ClusterLoadAssignment → Type 0
  IsLiveWithout service id a =
      (live : IsLive h a) × (live.0 ≡ service → find id_of id (instances_in a live) ≡ none)

  IsLive-without :
      (service id : Text) (a : ClusterLoadAssignment)
      → ((c : ℕ) → lookup (key default_namespace service) id (h c).registry ≡ none)
      → IsLive h a
      → IsLiveWithout service id a
  IsLive-without service id a gone live =
      let (of, t, (split, has, (c, xs, made, ascending, exact))) = live in
      (
        live,
        λ same.
            exact id
            ∙ ap (only (serves split.version (h c)))
                (ap (λ s. lookup (key default_namespace s) id (h c).registry) same ∙ gone c),
      )

module _ (lib : XdsLibrary) (cache : SnapshotCache lib) (reader : SnapshotReader lib.Snapshot)
    (page : Target → Request → ℕ) (n : ℕ) (es : List (Event lib.Snapshot)) (c : cache.Cache)
    (env : Circumstance lib.Snapshot) (req : Request) (i : Interval lib.Snapshot) where
  seen-gone :
      (k id service : Text) (m : ℕ)
      → ((m : ℕ) → All (λ c. IsApartRequest k id service c.1) (i.batches m))
      → lookup k id (requested lib cache reader page n es c env req i).server.registry ≡ none
      → lookup k id ((weather lib cache reader page n es c env req i).building m).registry ≡ none
  unfolding weather_of swept_server
  seen-gone k id service m apart gone =
      let s = (requested lib cache reader page n es c env req i).server in
      let swept = swept_server lib cache reader page (pos n) i s in
      let (stays, _) = server_at-Apart lib cache reader page k id service i.batches swept m apart in
      stays ∙ (lookup-sweep_stale (pos n) i.sweep_time s.registry k id ∙ ground (arith, gone))

  -- From the start on, after any events and then DELETE of an instance in the default namespace,
  -- for a service and an ID that are not empty, comes a reconciliation, between whose calls any
  -- requests are served that do not register, deregister or heartbeat that instance and do not put
  -- or delete the route of its service. If it does not fail, the snapshot that the server shows
  -- after it was made by the library, under the next version, from resources of which each load
  -- assignment is that of a service and one of its splits, with exactly the instances that were
  -- stored at one of the calls and served the split then, and is without the ID if the service is
  -- that of the instance.
  pub deregistered-IsLiveWithout :
      (service id : Text) {snap : lib.Snapshot}
      → service ≢ []
      → id ≢ []
      → req.method ≡ codes "DELETE"
      → req.path ≡ instance_path service id
      → namespace_or_default req.namespace ≡ default_namespace
      → ((m : ℕ)
          → All (λ c. IsApartRequest (key default_namespace service) id service c.1) (i.batches m))
      → error lib cache reader page n es c env req i ≡ none
      → (after lib cache reader page n es c env req i).server.last_snapshot ≡ some snap
      → (res : Resources lib) × (lib.new_snapshot
            (version_name
              (next_uint64 (requested lib cache reader page n es c env req i).reconciler.version))
            res
          ≡ ok snap)
        × All
            (IsLiveWithout lib (weather lib cache reader page n es c env req i).building service id)
            res.endpoints
  unfolding step reconcile_mesh
  deregistered-IsLiveWithout service id {snap} hs hi em ep ns apart fine shown =
      let m = requested lib cache reader page n es c env req i in
      let w = weather lib cache reader page n es c env req i in
      let s = (before lib cache reader page n es c env req i).server in
      let (_, gone, _) = deregister-answers reader page env req s service id hs hi em ep in
      let removed : lookup (key default_namespace service) id m.server.registry ≡ none =
        ap (λ x. lookup (key x service) id m.server.registry) (sym ns) ∙ gone in
      let (_, attempt) = reconcile-IsAttempt lib cache (pos n) w m.server.registry m.reconciler in
      let (made, built, _, last) = attempt.publishes fine in
      let same : made ≡ snap = some-injective _ _ (sym last ∙ shown) in
      let (res, services, _, new, _) = build_snapshot-consistent lib w.building _ built in
      let valid : (k : ℕ) → IsValid (w.building k).registry = λ k.
        (weather_of-IsHealthyMoment lib cache reader page (pos n) i m.server k
          (requested-IsHealthy lib cache reader page n es c env req i)).0 in
      (
        res,
        ap (λ v. lib.new_snapshot (version_name v) res) (sym attempt.one_version)
            ∙ (new ∙ ap ok same),
        All-map (IsLive w.building) (IsLiveWithout lib w.building service id) res.endpoints
            (λ a live.
              IsLive-without lib w.building service id a
                (λ k. seen-gone (key default_namespace service) id service k apart removed) live)
            (build_services-IsLive w.building valid lib 1 0 (services_of lib w.building) services),
      )
