-- ===== src/Reconciliation/Reconciler.antt =====
-- internal/reconciliation/reconciler.go: one reconciliation, and the loop of `Run`.
use distributed_service_mesh.Base.Float.{to_float64}
use mathlib.Core.Option
use distributed_service_mesh.Base.Outcome.{ok, err}
use distributed_service_mesh.Reconciliation.Decimal.{version_name}
use distributed_service_mesh.Registry.Ops.{get_service, sweep_stale, list_services}
use distributed_service_mesh.Registry.Types.{Instance, InMemory, Time, Duration}
use distributed_service_mesh.Xds.Snapshot.{
  default_namespace, Moment, build_snapshot, History, BuildError,
}
use distributed_service_mesh.Base.Text.{codes, Text}
use distributed_service_mesh.Xds.Build.{XdsLibrary}
use distributed_service_mesh.Base.{
  ◌++◌, ◌^◌, if◌then◌else◌, some, length, suc, ◌%◌, [], none, Bool, Option, ◌∷◌, ◌+◌, List, ℕ,
}

-- What the program takes from the snapshot cache of go-control-plane: `SetSnapshot`, with the error
-- that it returns, if any.
pub record SnapshotCache (lib : XdsLibrary) : Type 1 where
  pub Cache : Type 0
  pub set_snapshot : Text → lib.Snapshot → Cache → Option lib.Failure × Cache

-- The calls on the Prometheus collectors, in order. A version is converted to a float64; the lengths
-- of lists are below 2 ^ 53, where that loses nothing. `ReconciliationDuration.Observe` is given
-- without its duration, which is wall-clock time.
pub data MetricCall : Type 0 where
  inc_attempts : MetricCall
  add_stale : ℕ → MetricCall
  inc_failures : MetricCall
  inc_update_failures : MetricCall
  inc_updates : MetricCall
  set_version : ℕ → MetricCall
  set_services : ℕ → MetricCall
  set_endpoints : ℕ → MetricCall
  observe_duration : MetricCall

-- `const NodeID`
abbrev pub node_id : Text
node_id = codes "demo-envoy"

pub data ReconcileError (F : Type 0) : Type 0 where
  build_failed : BuildError F → ReconcileError F
  publish_failed : F → ReconcileError F

-- `n.Add(1)` of an atomic.Uint64.
abbrev pub next_uint64 : ℕ → ℕ
next_uint64 n = (n + 1) % 2 ^ 64

-- The instances that the services have, one call of the registry for the names and one for each.
unfoldable pub count_from : History → ℕ → List Text → ℕ
count_from h t [] = 0
count_from h t (service ∷ rest) =
    let more = count_from h (suc t) rest in
    elim (get_service default_namespace service (h t).registry) [
      | err e ↦ more
      | ok instances ↦ length instances + more
    ]

unfoldable pub count_endpoints : History → ℕ
unfolding count_from
count_endpoints h = count_from h 1 (list_services default_namespace (h 0).registry)

module _ (lib : XdsLibrary) (cache : SnapshotCache lib) where
  pub record Reconciler : Type 0 where
    pub version : ℕ
    pub attempts : ℕ
    pub failures : ℕ
    pub last_snapshot : Option lib.Snapshot
    pub published : cache.Cache
    -- `none` where `metricsReg` is nil
    pub metrics : Option (List MetricCall)

  -- `New`
  abbrev pub new_reconciler : cache.Cache → Bool → Reconciler
  new_reconciler c measured = record {
    version = 0;
    attempts = 0;
    failures = 0;
    last_snapshot = none;
    published = c;
    metrics = if measured then some [] else none;
  }

  -- Calls on the collectors, if there are any.
  unfoldable pub record_calls : List MetricCall → Reconciler → Reconciler
  record_calls calls r = record r { metrics = Option.map (λ log. log ++ calls) r.metrics }

  -- What happens between the sweep and the end of a reconciliation, as its environment decides it:
  -- the sweep's clock, and the moments that the later calls see.
  pub record Weather : Type 0 where
    pub sweep_time : Time
    pub building : History
    -- the call of `ListServices` for the metric, and those of `countEndpoints`
    pub listing : Moment
    pub counting : History

  -- The sweep, with the metric of its transitions.
  unfoldable pub swept_metrics : List Instance → Reconciler → Reconciler
  unfolding record_calls
  swept_metrics [] r = r
  swept_metrics (inst ∷ rest) r = record_calls (add_stale (length (inst ∷ rest)) ∷ []) r

  unfoldable pub failed : Reconciler → Reconciler
  unfolding record_calls
  failed r =
      record_calls (inc_failures ∷ inc_update_failures ∷ [])
        (record r { failures = next_uint64 r.failures })

  unfoldable pub succeeded : Weather → lib.Snapshot → Reconciler → Reconciler
  unfolding record_calls count_endpoints
  succeeded w snap r =
      record_calls
        (inc_updates
          ∷ set_version (to_float64 r.version)
          ∷ set_services (length (list_services default_namespace w.listing.registry))
          ∷ set_endpoints (count_endpoints w.counting)
          ∷ [])
        (record r { last_snapshot = some snap })

  -- Handing a built snapshot to the cache.
  unfoldable pub publish :
      Weather → lib.Snapshot → Reconciler → Option (ReconcileError lib.Failure) × Reconciler
  unfolding failed succeeded
  publish w snap r =
      let (error, c) = cache.set_snapshot node_id snap r.published in
      let r' : Reconciler = record r { published = c } in
      elim error [
        | some e ↦ (some (publish_failed e), failed r')
        | none ↦ (none, succeeded w snap r')
      ]

  -- Everything after the sweep.
  unfoldable pub build_and_publish :
      Weather → Reconciler → Option (ReconcileError lib.Failure) × Reconciler
  unfolding publish
  build_and_publish w r =
      let r' : Reconciler = record r { version = next_uint64 r.version } in
      elim (build_snapshot lib w.building (version_name r'.version)) [
        | err e ↦ (some (build_failed e), failed r')
        | ok snap ↦ publish w snap r'
      ]

  -- `Reconcile`: its error, the registry that the sweep leaves and the reconciler afterwards.
  unfoldable pub reconcile :
      Duration
      → Weather
      → InMemory
      → Reconciler
      → Option (ReconcileError lib.Failure) × InMemory × Reconciler
  unfolding build_and_publish swept_metrics
  reconcile stale_after w reg r =
      let started =
        record_calls (inc_attempts ∷ []) (record r { attempts = next_uint64 r.attempts }) in
      let (transitioned, reg') = sweep_stale stale_after w.sweep_time reg in
      let (error, r') = build_and_publish w (swept_metrics transitioned started) in
      (error, reg', record_calls (observe_duration ∷ []) r')
