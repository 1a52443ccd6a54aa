-- ===== src/Reconciliation/Loop.antt =====
-- internal/reconciliation/reconciler.go: `Run`, over the rounds that it makes before its context is
-- done, and what holds after any number of them.
use distributed_service_mesh.Reconciliation.Backoff.{backoff}
use distributed_service_mesh.Base.Int.{add_int64}
use mathlib.Core.Option
use distributed_service_mesh.Registry.Types.{InMemory, Duration}
use distributed_service_mesh.Reconciliation.Reconciler.{
  reconcile, Reconciler, Weather, ReconcileError, SnapshotCache,
}
use distributed_service_mesh.Xds.Build.{XdsLibrary}
use distributed_service_mesh.Base.{zero, [], none, ◌∷◌, suc, some, List, ℕ, Option}

module _ (lib : XdsLibrary) (cache : SnapshotCache lib) where
  -- What the environment chooses for a round: the registry as it is then, what the calls of the
  -- reconciliation see, and the draw for the jitter.
  pub record Round : Type 0 where
    pub registry : InMemory
    pub weather : Weather lib cache
    pub draw : ℕ

  -- `consecutiveFailures` after a round.
  unfoldable pub failures_after : Option (ReconcileError lib.Failure) → ℕ → ℕ
  failures_after none k = 0
  failures_after (some e) k = suc k

  -- The wait after a round: `none` is a panic.
  unfoldable pub wait_after : Duration → ℕ → ℕ → Option Duration
  wait_after interval zero draw = some interval
  wait_after interval (suc k) draw = Option.map (add_int64 interval) (backoff (suc k) draw)

  -- The waits and the reconciler after the rounds, from `k` consecutive failures on. `none` is a
  -- panic, which ends the process.
  unfoldable pub run :
      Duration
      → Duration
      → List Round
      → ℕ
      → Reconciler lib cache
      → Option (List Duration × Reconciler lib cache)
  unfolding failures_after wait_after
  run stale_after interval [] k r = some ([], r)
  run stale_after interval (round ∷ rounds) k r =
      let (error, _, r') = reconcile lib cache stale_after round.weather round.registry r in
      let k' = failures_after error k in
      let rest = run stale_after interval rounds k' r' in
      elim (wait_after interval k' round.draw) [
        | none ↦ none
        | some wait ↦ Option.map (λ (waits, last). (wait ∷ waits, last)) rest
      ]
