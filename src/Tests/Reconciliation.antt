-- ===== src/Tests/Reconciliation.antt =====
-- Reconciliation: runs of the loop with a library that works and one that refuses every snapshot.
use distributed_service_mesh.Base.Float.{to_float64}
use distributed_service_mesh.Metrics.Agreement.{run-IsMeasured, Agrees, Shows}
use distributed_service_mesh.Metrics.Collectors.{Readings}
use distributed_service_mesh.Routing.Spec.{check_total, check_splits, validate}
use distributed_service_mesh.Base.Sort.{sort_by}
use distributed_service_mesh.Base.Dict.{put, get}
use distributed_service_mesh.Routing.Store.{set, spec_of}
use distributed_service_mesh.Registry.Ops.{
  get_service, sweep_stale, list_services, stamped, sorted_instances, register, healthy_instances,
}
use distributed_service_mesh.Reconciliation.Rounds.{reconcile-IsAttempt, IsAttempt}
use distributed_service_mesh.Registry.Types.{key}
use distributed_service_mesh.Xds.Build.{cluster_name, filter_by_version, build_listener}
use distributed_service_mesh.Base.Int.{pos}
use distributed_service_mesh.Reconciliation.Decimal.{version_name}
use distributed_service_mesh.Xds.Snapshot.{
  routed, construct_failed, build_splits, build_services, no_resources, BuildError, build_snapshot,
}
use distributed_service_mesh.Tests.Data.{one_web, broken_cache, quiet, demo_cache, broken, demo}
use distributed_service_mesh.Xds.Resources.{ResourceLists}
use distributed_service_mesh.Base.Outcome.{ok, err}
use distributed_service_mesh.Reconciliation.Runs.{run-panics, AllFail}
use distributed_service_mesh.Reconciliation.Reconciler.{
  count_endpoints, observe_duration, set_endpoints, set_services, set_version, inc_updates,
  next_uint64, inc_attempts, new_reconciler, Weather, reconcile, Reconciler,
}
use distributed_service_mesh.Reconciliation.Loop.{run, Round}
use distributed_service_mesh.Base.Text.{begins_with, text_eq, codes, Text}
use distributed_service_mesh.Reconciliation.Backoff.{backoff_bounds, max_backoff, second, backoff}
use distributed_service_mesh.Base.{
  ◌-◌, ◌+◌, ◌<◌, ◌≤◌, ◌*◌, zero, true, suc, ◌^◌, min, ◌∷◌, refl, [], arith, List, some, none, ℕ,
  ◌≡◌,
}

abbrev calm : Weather demo demo_cache
calm = record { sweep_time = 6; building = quiet; listing = quiet 0; counting = quiet }

abbrev fresh_start : Reconciler demo demo_cache
fresh_start = new_reconciler demo demo_cache 0 true

abbrev calm_round : Round demo demo_cache
calm_round = record { registry = one_web; weather = calm; draw = 0 }

tests : Unit {0}
unfolding reconcile build_snapshot build_services build_splits build_listener healthy_instances
    filter_by_version routed spec_of set register key get put text_eq sorted_instances sort_by
    stamped cluster_name validate check_splits check_total list_services begins_with sweep_stale
    count_endpoints get_service version_name to_float64
tests = tt

metrics_of_success :
    (reconcile demo demo_cache (pos 10) calm one_web fresh_start).2.metrics
    ≡ some (
        inc_attempts
        ∷ inc_updates
        ∷ set_version 1
        ∷ set_services 1
        ∷ set_endpoints 1
        ∷ observe_duration
        ∷ [])
unfolding tests
metrics_of_success = refl

reconcile-IsAttempt_example :
    ((reconcile demo demo_cache (pos 10) calm one_web fresh_start).2.attempts
      ≡ next_uint64 fresh_start.attempts)
    × IsAttempt demo demo_cache calm
        (reconcile demo demo_cache (pos 10) calm one_web fresh_start).0
        fresh_start
        (reconcile demo demo_cache (pos 10) calm one_web fresh_start).2
reconcile-IsAttempt_example = reconcile-IsAttempt demo demo_cache (pos 10) calm one_web fresh_start

abbrev after_calm : Reconciler demo demo_cache
after_calm = (reconcile demo demo_cache (pos 10) calm one_web fresh_start).2

run_calm :
    run demo demo_cache (pos 10) (pos 2) (calm_round ∷ []) 0 fresh_start
    ≡ some (pos 2 ∷ [], after_calm)
unfolding run tests
run_calm = refl

abbrev calm_snapshot : ResourceLists ℕ
calm_snapshot = elim (build_snapshot demo quiet (version_name 1)) [
  | ok snap ↦ snap
  | err e ↦ no_resources demo
]

last_calm : after_calm.last_snapshot ≡ some calm_snapshot
unfolding tests
last_calm = refl

backoff_bounds_example :
    (d : ℕ) × (backoff 3 7 ≡ some (pos d))
    × (min (2 ^ 3 * second) max_backoff ≤ d)
    × (5 * d < 6 * min (2 ^ 3 * second) max_backoff)
backoff_bounds_example = backoff_bounds 3 7 (omega arith) (omega arith)

-- 34 rounds with a library that refuses every snapshot.
abbrev storm : Weather broken broken_cache
storm = record { sweep_time = 6; building = quiet; listing = quiet 0; counting = quiet }

abbrev storm_round : Round broken broken_cache
storm_round = record { registry = one_web; weather = storm; draw = 0 }

repeated : ℕ → List (Round broken broken_cache)
repeated zero = []
repeated (suc n) = storm_round ∷ repeated n

broken_fails :
    (version : Text) → (e : BuildError Text) × (build_snapshot broken quiet version ≡ err e)
unfolding tests
broken_fails version = (construct_failed (codes "no"), refl)

all_fail :
    (n : ℕ) (r : Reconciler broken broken_cache)
    → AllFail broken broken_cache (pos 10) (pos 2) (repeated n) r
unfolding repeated tests
all_fail zero r = tt
all_fail (suc n) r = (refl, all_fail n _)

run-panics_example :
    run broken broken_cache
      (pos 10)
      (pos 2)
      (repeated 34)
      0
      (new_reconciler broken broken_cache 0 true)
    ≡ none
run-panics_example =
    run-panics broken broken_cache (pos 10) (pos 2) (repeated 34) 0
      (new_reconciler broken broken_cache 0 true) (omega arith) (unfold repeated in omega arith)
      (all_fail 34 (new_reconciler broken broken_cache 0 true))

run-IsMeasured_example :
    (m : Readings) × Shows demo demo_cache after_calm m × Agrees demo demo_cache after_calm m
run-IsMeasured_example =
    run-IsMeasured demo demo_cache (pos 10) (pos 2) (calm_round ∷ []) 0 {waits = pos 2 ∷ []}
      {last = after_calm} run_calm

-- A tie goes to the even multiple, and the largest uint64 to 2 ^ 64.
to_float64_ties :
    (to_float64 (2 ^ 53 + 1) ≡ 2 ^ 53)
    × (to_float64 (2 ^ 53 + 3) ≡ 2 ^ 53 + 4)
    × (to_float64 (2 ^ 64 - 1) ≡ 2 ^ 64)
unfolding to_float64
to_float64_ties = (refl, refl, refl)
