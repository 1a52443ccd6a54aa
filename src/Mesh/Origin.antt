-- ===== src/Mesh/Origin.antt =====
-- internal/controlplane/controlplane.go: which reconciliation the last snapshot is from, and whose
-- instances are in it.
use distributed_service_mesh.Registry.Validity.{IsValid}
use distributed_service_mesh.Xds.Consistency.{build_snapshot-consistent}
use mathlib.Core.Option.{some-injective}
use distributed_service_mesh.Mesh.Published.{weather_of-IsHealthyMoment, events-IsIntact}
use distributed_service_mesh.Xds.Sources.{build_services-IsLive, IsLive}
use distributed_service_mesh.Reconciliation.Rounds.{reconcile-IsAttempt}
use distributed_service_mesh.Base.Outcome.{ok}
use distributed_service_mesh.Reconciliation.Decimal.{version_name}
use distributed_service_mesh.Xds.Snapshot.{services_of, build_snapshot, Resources, History}
use distributed_service_mesh.Mesh.System.{
  readying, streaming, requesting, reconciling, weather_of, new_mesh, Event, Interval,
  reconcile_mesh, Mesh, run_mesh, step,
}
use distributed_service_mesh.Registry.Types.{Duration}
use distributed_service_mesh.Base.{
  refl, arith, ◌∙◌, sym, Option-cases, All, [], ap, inr, inl, ◌∷◌, ◌⊎◌, some, ◌++◌, ◌≡◌, Option,
  List, ℕ,
}
use distributed_service_mesh.Api.Request.{Request}
use distributed_service_mesh.Api.Mux.{Target}
use distributed_service_mesh.Api.Debug.{SnapshotReader}
use distributed_service_mesh.Xds.Build.{XdsLibrary}
use distributed_service_mesh.Reconciliation.Reconciler.{SnapshotCache, reconcile, next_uint64}

module _ (lib : XdsLibrary) (cache : SnapshotCache lib) (reader : SnapshotReader lib.Snapshot)
    (page : Target → Request → ℕ) (stale_after : Duration) where
  -- What the reconciliation of the interval sees that comes next: the registry, the store and the
  -- clock at each of its calls.
  abbrev pub seen : Mesh lib cache reader page → Interval lib.Snapshot → History
  seen m i = (weather_of lib cache reader page stale_after i m.server).building

  -- One of the events was a reconciliation that built the snapshot of what it saw.
  abbrev pub IsFrom : Mesh lib cache reader page → List (Event lib.Snapshot) → lib.Snapshot → Type 0
  IsFrom m es snap =
      (before after : List (Event lib.Snapshot)) × (i : Interval lib.Snapshot) × (es
        ≡ before ++ reconciling i ∷ after)
      × let m' = run_mesh lib cache reader page stale_after before m in
        build_snapshot lib (seen m' i) (version_name (next_uint64 m'.reconciler.version)) ≡ ok snap

  abbrev last : Mesh lib cache reader page → Option lib.Snapshot
  last m = m.reconciler.last_snapshot

  step-last :
      (e : Event lib.Snapshot) (es : List (Event lib.Snapshot)) (m : Mesh lib cache reader page)
      {snap : lib.Snapshot}
      → last (step lib cache reader page stale_after e m) ≡ some snap
      → (last m ≡ some snap) ⊎ IsFrom m (e ∷ es) snap
  unfolding step reconcile_mesh run_mesh
  step-last (requesting env req) es m h = inl h
  step-last (streaming c) es m h = inl h
  step-last (readying ready) es m h = inl h
  step-last (reconciling i) es m {snap} h =
      let w = weather_of lib cache reader page stale_after i m.server in
      let done = reconcile lib cache stale_after w m.server.registry m.reconciler in
      let (_, attempt) =
        reconcile-IsAttempt lib cache stale_after w m.server.registry m.reconciler in
      elim (Option-cases done.0) [
        | inl fine ↦
            let (new_one, built, _, is_last) = attempt.publishes fine in
            inr (
              [],
              es,
              i,
              refl,
              ap (λ v. build_snapshot lib w.building (version_name v)) (sym attempt.one_version)
                  ∙ (built ∙ ap ok (some-injective _ _ (sym is_last ∙ h))),
            )
        | inr (x, bad) ↦ inl (sym (attempt.keeps (rw bad refl)) ∙ h)
      ]

  run_mesh-last :
      (es : List (Event lib.Snapshot)) (m : Mesh lib cache reader page) {snap : lib.Snapshot}
      → last (run_mesh lib cache reader page stale_after es m) ≡ some snap
      → (last m ≡ some snap) ⊎ IsFrom m es snap
  unfolding run_mesh
  run_mesh-last [] m h = inl h
  run_mesh-last (e ∷ es) m h =
      elim (run_mesh-last es (step lib cache reader page stale_after e m) h) [
        | inl earlier ↦ step-last e es m earlier
        | inr (before, after, i, split, built) ↦
            inr (e ∷ before, after, i, ap (λ l. e ∷ l) split, built)
      ]

  -- Whatever events come, from the start on, with requests between any two calls of a
  -- reconciliation: if there is a last snapshot, one of the events was a reconciliation, and the
  -- library made the snapshot, under the version that came next then, from resources of which each
  -- load assignment is that of a service and one of the splits that the store had for it at one of
  -- its calls, or of the one split of a service with no route. It has the name that is for the
  -- service and the version, and the sockets, address and port, of exactly the instances of the
  -- service that the registry of the server held at one of its calls and that served the split
  -- then, in strictly ascending order of the IDs: marked healthy, with a heartbeat at most 15 s
  -- before, and of its version if it names one.
  pub published_endpoints :
      (es : List (Event lib.Snapshot)) (c : cache.Cache) {snap : lib.Snapshot}
      → let start = new_mesh lib cache reader page c in
        (run_mesh lib cache reader page stale_after es start).server.last_snapshot ≡ some snap
        → (before after : List (Event lib.Snapshot)) × (i : Interval lib.Snapshot) × (es
            ≡ before ++ reconciling i ∷ after)
          × let m = run_mesh lib cache reader page stale_after before start in
            (res : Resources lib) × (lib.new_snapshot
                (version_name (next_uint64 m.reconciler.version))
                res
              ≡ ok snap)
            × All (IsLive (seen m i)) res.endpoints
  published_endpoints es c {snap} e =
      let start = new_mesh lib cache reader page c in
      let safe = events-IsIntact lib cache reader page stale_after es c in
      elim (run_mesh-last es start (sym safe.same ∙ e)) [
        | inl never ↦ absurd (ground (arith, never))
        | inr (before, after, i, split, built) ↦
            let m = run_mesh lib cache reader page stale_after before start in
            let healthy = (events-IsIntact lib cache reader page stale_after before c).healthy in
            let (res, services, _, made, _) = build_snapshot-consistent lib (seen m i) _ built in
            let sound : (n : ℕ) → IsValid (seen m i n).registry = λ n.
              (weather_of-IsHealthyMoment lib cache reader page stale_after i m.server n
                healthy).0 in
            (
              before,
              after,
              i,
              split,
              (
                res,
                made,
                build_services-IsLive (seen m i) sound lib 1 0 (services_of lib (seen m i))
                    services,
              ),
            )
      ]
