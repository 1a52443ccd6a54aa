-- ===== src/Mesh/System.antt =====
-- internal/controlplane/controlplane.go: the server of the management API, the reconciler and the
-- tracker over the same registry and store. Requests are served between any two calls of a
-- reconciliation.
use distributed_service_mesh.Routing.Store.{new_store}
use distributed_service_mesh.Registry.Ops.{sweep_stale}
use distributed_service_mesh.Api.Mux.{Target}
use distributed_service_mesh.Api.Debug.{SnapshotReader}
use distributed_service_mesh.Xds.Tracker.{new_tracker, callback, Callback}
use distributed_service_mesh.Xds.Snapshot.{History, Moment}
use distributed_service_mesh.Reconciliation.Reconciler.{
  new_reconciler, reconcile, Weather, Reconciler, SnapshotCache,
}
use distributed_service_mesh.Registry.Types.{new, Duration, Time}
use distributed_service_mesh.Api.Request.{Request}
use distributed_service_mesh.Xds.Build.{XdsLibrary}
use distributed_service_mesh.Api.Server.{serve, serve_all, Circumstance, Server}
use distributed_service_mesh.Base.{true, ◌+◌, none, [], zero, ◌∷◌, suc, false, some, Bool, List, ℕ}

-- What goes on during a reconciliation: the requests that are served before each of its calls, the
-- clock at them, and which moments the calls for the metrics and the end come at.
pub record Interval (Snapshot : Type 0) : Type 0 where
  pub batches : ℕ → List (Circumstance Snapshot × Request)
  pub clock : ℕ → Time
  pub sweep_time : Time
  pub listing_at : ℕ
  pub counting_from : ℕ
  pub ends_at : ℕ

pub data Event (Snapshot : Type 0) : Type 0 where
  requesting : Circumstance Snapshot → Request → Event Snapshot
  streaming : Callback → Event Snapshot
  readying : Bool → Event Snapshot
  reconciling : Interval Snapshot → Event Snapshot

-- What a call of BuildSnapshot sees of a server.
abbrev pub moment_of : {Snapshot : Type 0} → Server Snapshot → Time → Moment
moment_of s now = record { registry = s.registry; routes = some s.routes; now = now }

module _ (lib : XdsLibrary) (cache : SnapshotCache lib) (reader : SnapshotReader lib.Snapshot)
    (page : Target → Request → ℕ) where
  pub record Mesh : Type 0 where
    pub server : Server lib.Snapshot
    pub reconciler : Reconciler lib cache

  -- `New`: nothing is registered, and the tracker moves the gauge of connections.
  abbrev pub new_mesh : cache.Cache → Mesh
  new_mesh c = record {
    server = record {
      ready = false;
      registry = new;
      routes = new_store;
      last_snapshot = none;
      envoys = new_tracker true true;
    };
    reconciler = new_reconciler lib cache c true;
  }

  -- The server after the requests up to the `n`-th moment of an interval.
  unfoldable pub server_at :
      (ℕ → List (Circumstance lib.Snapshot × Request))
      → Server lib.Snapshot
      → ℕ
      → Server lib.Snapshot
  server_at batches s zero = (serve_all reader page (batches 0) s).1
  server_at batches s (suc n) = (serve_all reader page (batches (suc n)) (server_at batches s n)).1

  -- The sweep of a reconciliation that comes first.
  unfoldable pub swept_server :
      Duration → Interval lib.Snapshot → Server lib.Snapshot → Server lib.Snapshot
  swept_server stale_after i s = record s {
    registry = (sweep_stale stale_after i.sweep_time s.registry).1;
  }

  unfoldable pub weather_of :
      Duration → Interval lib.Snapshot → Server lib.Snapshot → Weather lib cache
  weather_of stale_after i s =
      let during = server_at i.batches (swept_server stale_after i s) in
      let seen : History = λ n. moment_of (during n) (i.clock n) in
      record {
        sweep_time = i.sweep_time;
        building = seen;
        listing = seen i.listing_at;
        counting = λ n. seen (i.counting_from + n);
      }

  -- A reconciliation, with the requests that are served meanwhile.
  unfoldable pub reconcile_mesh : Duration → Interval lib.Snapshot → Mesh → Mesh
  unfolding server_at swept_server weather_of
  reconcile_mesh stale_after i m =
      let weather = weather_of stale_after i m.server in
      let (error, swept, r') =
        reconcile lib cache stale_after weather m.server.registry m.reconciler in
      let s' = server_at i.batches (record m.server { registry = swept }) i.ends_at in
      record { server = record s' { last_snapshot = r'.last_snapshot }; reconciler = r' }

  unfoldable pub step : Duration → Event lib.Snapshot → Mesh → Mesh
  unfolding reconcile_mesh
  step stale_after (requesting env req) m = record m {
    server = (serve reader page env req m.server).1;
  }
  step stale_after (streaming c) m = record m {
    server = record m.server { envoys = callback c m.server.envoys };
  }
  step stale_after (readying ready) m = record m { server = record m.server { ready = ready } }
  step stale_after (reconciling i) m = reconcile_mesh stale_after i m

  unfoldable pub run_mesh : Duration → List (Event lib.Snapshot) → Mesh → Mesh
  unfolding step
  run_mesh stale_after [] m = m
  run_mesh stale_after (e ∷ es) m = run_mesh stale_after es (step stale_after e m)
