-- ===== src/Watcher/Recovery.antt =====
-- cmd/k8s-watcher/main.go: one good reconciliation makes up for whatever calls were lost before it.
use distributed_service_mesh.Watcher.Convergence.{reconcile-endpoint, reconcile-gone}
use distributed_service_mesh.Watcher.Rounds.{IsSynced}
use distributed_service_mesh.Base.Dict.{get}
use distributed_service_mesh.Watcher.Loops.{entry, server, Now}
use distributed_service_mesh.Watcher.Listed.{ArePlain}
use distributed_service_mesh.Base.Text.{text_eq_instance, Text}
use distributed_service_mesh.Watcher.Polls.{watched-IsProper, watch, ArePlainPolls, Poll}
use distributed_service_mesh.Watcher.Paths.{IsPlain}
use distributed_service_mesh.Watcher.Calls.{Network, Watcher}
use distributed_service_mesh.Api.Server.{Server, Circumstance}
use distributed_service_mesh.Api.Request.{Request}
use distributed_service_mesh.Api.Mux.{Target}
use distributed_service_mesh.Api.Debug.{SnapshotReader}
use distributed_service_mesh.Watcher.Reconcile.{
  is_registered, add_subsets, EndpointAddress, RangeOrder, reconcile,
}
use distributed_service_mesh.Base.{
  inr, inl, Option-cases, if◌then◌else◌, false, none, ◌⊎◌, some, [], Bool, List, ℕ, ◌≡◌,
}

module _ {Snapshot : Type 0} (reader : SnapshotReader Snapshot) (page : Target → Request → ℕ)
    (weather : ℕ → Circumstance Snapshot) (w : Watcher) (plain : IsPlain w.service) (net : Network)
    (world : net.World) (polls : List Poll) (are_plain : ArePlainPolls net w polls)
    (at : ℕ × Server Snapshot) (by_id : RangeOrder Text) (by_registered : RangeOrder Bool)
    (subsets : List (List EndpointAddress)) (all_plain : ArePlain subsets) where
  -- What the polls have left registered, with the server as it is now.
  abbrev pub after_polls : Now reader page weather w plain
  after_polls = ((watch net w polls ([], world)).0, at)

  abbrev pub recovered : Now reader page weather w plain
  recovered =
      (reconcile (server reader page weather w plain) w by_id by_registered (some subsets)
        after_polls).1

  -- A listed ID is registered and its instance up. Another is not registered, and if it was, its
  -- instance is gone.
  abbrev pub IsRecovered : Text → Type 0
  IsRecovered id =
      ((addr : Text) × (get id (add_subsets subsets []) ≡ some addr)
        × IsSynced reader page weather w plain id recovered)
      ⊎ ((get id (add_subsets subsets []) ≡ none)
          × (is_registered id recovered.0 ≡ false)
          × (entry reader page weather w plain recovered id ≡ (
              if is_registered id after_polls.0
              then none
              else entry reader page weather w plain after_polls id)))

  -- After any polls over any network, which may lose calls and answers or answer anything, and with
  -- the server in any state, one reconciliation in which every call arrives, with no one else
  -- changing the server meanwhile, leaves each listed ID registered with a stored instance that is
  -- marked healthy, and any other ID not registered, its instance gone if the polls had left it
  -- registered and as it was otherwise. The service and the IDs stand for themselves in a path.
  pub watch-IsRecovered : (id : Text) → IsRecovered id
  watch-IsRecovered id =
      let proper = watched-IsProper net w polls world are_plain in
      elim (Option-cases (get id (add_subsets subsets []))) [
        | inl absent ↦
            let (dropped, kept_or_gone) =
              reconcile-gone reader page weather w plain by_id by_registered subsets all_plain
                after_polls proper id absent in
            inr (absent, dropped, kept_or_gone)
        | inr (addr, found) ↦ inl (
          addr,
          found,
          reconcile-endpoint reader page weather w plain by_id by_registered subsets all_plain
              after_polls proper id addr found,
        )
      ]
