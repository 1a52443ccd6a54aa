-- ===== src/Mesh/Published.antt =====
-- internal/controlplane/controlplane.go: what holds of the last snapshot, the collectors, the
-- registry and the store after any events.
use distributed_service_mesh.Routing.Store.{IsSound-new}
use mathlib.Core.Option.{some-injective}
use distributed_service_mesh.Reconciliation.Decimal.{version_name}
use distributed_service_mesh.Reconciliation.Rounds.{reconcile-IsAttempt}
use distributed_service_mesh.Metrics.Agreement.{new-IsMeasured, reconcile-IsMeasured, IsMeasured}
use distributed_service_mesh.Base.Outcome.{ok}
use distributed_service_mesh.Api.Requests.{serve-IsStep, serve_all-IsHealthy, IsHealthy}
use distributed_service_mesh.Base.Text.{Text}
use distributed_service_mesh.Registry.Types.{Duration}
use distributed_service_mesh.Api.Server.{serve_all, Server, Circumstance}
use distributed_service_mesh.Mesh.System.{
  reconciling, readying, streaming, new_mesh, requesting, step, Event, run_mesh, Interval,
  weather_of, swept_server, reconcile_mesh, server_at, Mesh,
}
use distributed_service_mesh.Api.Request.{Request}
use distributed_service_mesh.Api.Mux.{Target}
use distributed_service_mesh.Mesh.Traffic.{IsSoundMoment}
use distributed_service_mesh.Api.Debug.{SnapshotReader}
use distributed_service_mesh.Reconciliation.Reconciler.{reconcile, SnapshotCache}
use distributed_service_mesh.Registry.Validity.{new-IsValid, sweep_stale-IsValid, IsValid}
use distributed_service_mesh.Xds.Build.{XdsLibrary}
use distributed_service_mesh.Xds.Snapshot.{build_snapshot, History, Moment}
use distributed_service_mesh.Base.{
  arith, [], ◌∷◌, inr, sym, ap, ◌∙◌, inl, Option-cases, zero, suc, refl, some, List, ℕ, ◌≡◌,
}

-- A call finds a valid registry and a sound store.
abbrev pub IsHealthyMoment : Moment → Type 0
IsHealthyMoment m = IsValid m.registry × IsSoundMoment m

module _ (lib : XdsLibrary) (cache : SnapshotCache lib) (reader : SnapshotReader lib.Snapshot)
    (page : Target → Request → ℕ) where
  server_at-IsHealthy :
      (batches : ℕ → List (Circumstance lib.Snapshot × Request)) (s : Server lib.Snapshot) (n : ℕ)
      → IsHealthy s
      → IsHealthy (server_at lib cache reader page batches s n)
  unfolding server_at
  server_at-IsHealthy batches s zero h = serve_all-IsHealthy reader page (batches 0) s h
  server_at-IsHealthy batches s (suc n) h =
      serve_all-IsHealthy reader page (batches (suc n)) _ (server_at-IsHealthy batches s n h)

  swept_server-IsHealthy :
      (stale_after : Duration) (i : Interval lib.Snapshot) (s : Server lib.Snapshot)
      → IsHealthy s
      → IsHealthy (swept_server lib cache reader page stale_after i s)
  unfolding swept_server
  swept_server-IsHealthy stale_after i s h = record {
    registry = sweep_stale-IsValid stale_after i.sweep_time s.registry h.registry;
    routes = h.routes;
  }

  -- The library made the snapshot from resources that were built of what healthy moments had.
  abbrev pub IsMade : lib.Snapshot → Type 0
  IsMade snap =
      (h : History) × (version : Text) × ((n : ℕ) → IsHealthyMoment (h n))
      × (build_snapshot lib h version ≡ ok snap)

  pub record IsIntact (m : Mesh lib cache reader page) : Type 0 where
    pub healthy : IsHealthy m.server
    pub same : m.server.last_snapshot ≡ m.reconciler.last_snapshot
    pub made : (snap : lib.Snapshot) → m.reconciler.last_snapshot ≡ some snap → IsMade snap
    pub measured : IsMeasured lib cache m.reconciler

  pub weather_of-IsHealthyMoment :
      (stale_after : Duration) (i : Interval lib.Snapshot) (s : Server lib.Snapshot) (n : ℕ)
      → IsHealthy s
      → IsHealthyMoment ((weather_of lib cache reader page stale_after i s).building n)
  unfolding weather_of
  weather_of-IsHealthyMoment stale_after i s n h =
      let swept = swept_server lib cache reader page stale_after i s in
      let during = server_at lib cache reader page i.batches swept n in
      let healthy =
        server_at-IsHealthy i.batches swept n (swept_server-IsHealthy stale_after i s h) in
      (healthy.registry, (during.routes, refl, healthy.routes))

  reconcile_mesh-IsIntact :
      (stale_after : Duration) (i : Interval lib.Snapshot) (m : Mesh lib cache reader page)
      → IsIntact m
      → IsIntact (reconcile_mesh lib cache reader page stale_after i m)
  unfolding reconcile_mesh reconcile swept_server
  reconcile_mesh-IsIntact stale_after i m h =
      let w = weather_of lib cache reader page stale_after i m.server in
      let done = reconcile lib cache stale_after w m.server.registry m.reconciler in
      let swept = swept_server lib cache reader page stale_after i m.server in
      let after =
        server_at-IsHealthy i.batches swept i.ends_at
          (swept_server-IsHealthy stale_after i m.server h.healthy) in
      let (_, attempt) =
        reconcile-IsAttempt lib cache stale_after w m.server.registry m.reconciler in
      record {
        healthy = record { registry = after.registry; routes = after.routes };
        same = refl;
        made = λ snap e. elim (Option-cases done.0) [
          | inl fine ↦
              let (new_one, built, _, last) = attempt.publishes fine in
              (
                w.building,
                version_name done.2.version,
                λ n. weather_of-IsHealthyMoment stale_after i m.server n h.healthy,
                built ∙ ap ok (some-injective _ _ (sym last ∙ e)),
              )
          | inr (x, bad) ↦ h.made snap (sym (attempt.keeps (rw bad refl)) ∙ e)
        ];
        measured =
            reconcile-IsMeasured lib cache stale_after w m.server.registry m.reconciler h.measured;
      }

  step-IsIntact :
      (stale_after : Duration) (e : Event lib.Snapshot) (m : Mesh lib cache reader page)
      → IsIntact m
      → IsIntact (step lib cache reader page stale_after e m)
  unfolding step serve_all
  step-IsIntact stale_after (requesting env req) m h = record {
    healthy = serve_all-IsHealthy reader page ((env, req) ∷ []) m.server h.healthy;
    same = (serve-IsStep reader page env req m.server).last_snapshot ∙ h.same;
    made = h.made;
    measured = h.measured;
  }
  step-IsIntact stale_after (streaming c) m h = record {
    healthy = record { registry = h.healthy.registry; routes = h.healthy.routes };
    same = h.same;
    made = h.made;
    measured = h.measured;
  }
  step-IsIntact stale_after (readying ready) m h = record {
    healthy = record { registry = h.healthy.registry; routes = h.healthy.routes };
    same = h.same;
    made = h.made;
    measured = h.measured;
  }
  step-IsIntact stale_after (reconciling i) m h = reconcile_mesh-IsIntact stale_after i m h

  pub run_mesh-IsIntact :
      (stale_after : Duration) (es : List (Event lib.Snapshot)) (m : Mesh lib cache reader page)
      → IsIntact m
      → IsIntact (run_mesh lib cache reader page stale_after es m)
  unfolding run_mesh
  run_mesh-IsIntact stale_after [] m h = h
  run_mesh-IsIntact stale_after (e ∷ es) m h =
      run_mesh-IsIntact stale_after es (step lib cache reader page stale_after e m)
        (step-IsIntact stale_after e m h)

  module _ (stale_after : Duration) (es : List (Event lib.Snapshot)) (c : cache.Cache) where
    -- Whatever events come, from the start on, the registry is valid and the store sound, the
    -- server shows the last snapshot of the reconciler, that was built at moments with a valid
    -- registry and a sound store, and the collectors agree with the counters of the reconciler.
    pub events-IsIntact :
        IsIntact (run_mesh lib cache reader page stale_after es (new_mesh lib cache reader page c))
    events-IsIntact = run_mesh-IsIntact stale_after es (new_mesh lib cache reader page c) (record {
      healthy = record { registry = new-IsValid; routes = IsSound-new };
      same = refl;
      made = λ snap e. absurd (ground (arith, e));
      measured = new-IsMeasured lib cache c;
    })
