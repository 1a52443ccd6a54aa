-- ===== src/Reconciliation/Waits.antt =====
-- internal/reconciliation/reconciler.go: `Run` goes on as long as no 34 rounds fail in a row.
use distributed_service_mesh.Reconciliation.Loop.{failures_after, Round}
use distributed_service_mesh.Registry.Types.{Duration}
use distributed_service_mesh.Reconciliation.Reconciler.{reconcile, Reconciler, SnapshotCache}
use distributed_service_mesh.Xds.Build.{XdsLibrary}
use distributed_service_mesh.Base.{[], ◌∷◌, ◌<◌, ℕ, List}

module _ (lib : XdsLibrary) (cache : SnapshotCache lib) (stale_after interval : Duration) where
  -- From the reconciler `r` with `k` failures behind it, no round makes 34 failures in a row.
  abbrev pub NeverReaches : List (Round lib cache) → ℕ → Reconciler lib cache → Type 0
  NeverReaches [] k r = Unit
  NeverReaches (round ∷ rounds) k r =
      let done = reconcile lib cache stale_after round.weather round.registry r in
      let k' = failures_after lib cache done.0 k in (k' < 34) × NeverReaches rounds k' done.2
