-- ===== src/Lifecycle/Draining.antt =====
-- internal/controlplane/controlplane.go: readiness while `Run` shuts down.
use distributed_service_mesh.Lifecycle.Process.{
  Main, Process, Step, Steps, starting, selecting, lowering, stopping_reconcile, stopping_xds,
  shutting_down, awaiting_http, awaiting_xds, returned, here, next, canceling, announcing,
  http_ending, xds_ending, choosing_done, choosing_http, choosing_xds, lowers, stops_reconcile,
  stops_xds, opens_stream, closes_stream, shuts_down, takes_http, takes_xds, cancel, announce,
  lower, stop_reconcile, finish, exit_http, exit_xds, after_shutdown, take_http, take_xds,
}
use distributed_service_mesh.Base.{
  none, refl, some, inr, ap, inl, false, Bool, ◌⊎◌, arith, ◌≢◌, true, ◌≡◌,
}

module _ {Failure : Type 0} where
  -- `Run` has left the `select` and called `SetReady(false)`.
  unfoldable pub is_draining : Main Failure → Bool
  is_draining selecting = false
  is_draining lowering = false
  is_draining stopping_reconcile = true
  is_draining stopping_xds = true
  is_draining shutting_down = true
  is_draining awaiting_http = true
  is_draining awaiting_xds = true
  is_draining (returned result) = true

  -- The goroutine of the HTTP server has called `SetReady(true)`.
  abbrev pub IsAnnounced : Process Failure → Type 0
  IsAnnounced p = p.http ≢ starting

  abbrev IsLowered : Process Failure → Type 0
  IsLowered p =
      IsAnnounced p × ((p.main ≡ lowering) ⊎ ((is_draining p.main ≡ true) × (p.ready ≡ false)))

  not_selecting : (p : Process Failure) → IsLowered p → p.main ≢ selecting
  unfolding is_draining
  not_selecting p (_, inl m) e = absurd (ground (arith, m, e))
  not_selecting p (_, inr (d, _)) e = absurd (ground (arith, d, e, ap is_draining e))

  Step-IsLowered : {p q : Process Failure} → Step p q → IsLowered p → IsLowered q
  unfolding is_draining cancel announce lower stop_reconcile finish exit_http exit_xds
      after_shutdown take_http take_xds
  Step-IsLowered (canceling h) l = l
  Step-IsLowered (announcing h) (a, _) = absurd (a h)
  Step-IsLowered (http_ending o h) (_, l) = (λ e. absurd (ground (arith, e)), l)
  Step-IsLowered (xds_ending o h) l = l
  Step-IsLowered {p} (choosing_done m c) l = absurd (not_selecting p l m)
  Step-IsLowered {p} (choosing_http o m h) l = absurd (not_selecting p l m)
  Step-IsLowered {p} (choosing_xds o m h) l = absurd (not_selecting p l m)
  Step-IsLowered (lowers m) (a, _) = (a, inr (refl, refl))
  Step-IsLowered (stops_reconcile m) (a, l) = (a, inr (refl, ground (arith, l, m)))
  Step-IsLowered (opens_stream h b) l = l
  Step-IsLowered (closes_stream n h) l = l
  Step-IsLowered (stops_xds m idle) (a, l) = (a, inr (refl, ground (arith, l, m)))
  Step-IsLowered (shuts_down none m) (a, l) = (a, inr (refl, ground (arith, l, m)))
  Step-IsLowered (shuts_down (some e) m) (a, l) = (a, inr (refl, ground (arith, l, m)))
  Step-IsLowered (takes_http o m h) (a, l) =
      (λ e. absurd (ground (arith, e)), inr (refl, ground (arith, l, m)))
  Step-IsLowered (takes_xds o m h) (a, l) = (a, inr (refl, ground (arith, l, m)))

  Steps-IsLowered : {p q : Process Failure} → Steps p q → IsLowered p → IsLowered q
  Steps-IsLowered here l = l
  Steps-IsLowered (next r st) l = Step-IsLowered st (Steps-IsLowered r l)

  -- If a shutdown is chosen when the HTTP goroutine has announced itself, the process is not ready
  -- from the lowering of readiness on, whatever the goroutines do.
  pub stays_unready :
      {p q : Process Failure}
      → Steps p q
      → p.main ≡ lowering
      → IsAnnounced p
      → is_draining q.main ≡ true
      → q.ready ≡ false
  unfolding is_draining
  stays_unready {p} {q} r m a d = elim (Steps-IsLowered r (a, inl m)).1 [
    | inl e ↦ absurd (ground (arith, d, ap is_draining e))
    | inr (_, e) ↦ e
  ]
