-- ===== src/Lifecycle/Results.antt =====
-- internal/controlplane/controlplane.go: what the result of `Run` tells of the goroutines.
use mathlib.Core.Option
use mathlib.Core.Path.{subst}
use distributed_service_mesh.Lifecycle.Process.{
  Thread, Main, Process, Step, Reach, RunError, first_process, starting, serving, sent, taken,
  selecting, lowering, stopping_reconcile, stopping_xds, shutting_down, awaiting_http, awaiting_xds,
  returned, http_exited, xds_exited, shutdown_failed, here, next, canceling, announcing,
  http_ending, xds_ending, choosing_done, choosing_http, choosing_xds, lowers, stops_reconcile,
  stops_xds, opens_stream, closes_stream, shuts_down, takes_http, takes_xds, cancel, announce,
  lower, stop_reconcile, finish, exit_http, exit_xds, after_shutdown, take_http, take_xds,
}
use distributed_service_mesh.Base.{
  ◌∙◌, ap, refl, none, some, inr, arith, ◌⊎◌, true, inl, ◌≢◌, Bool, Option, false, ◌≡◌,
}

module _ {Failure : Type 0} where
  -- The result of the thread has been received, and what it is.
  unfoldable pub is_taken : Thread Failure → Bool
  is_taken starting = false
  is_taken serving = false
  is_taken (sent o) = false
  is_taken (taken o) = true

  abbrev pub Untaken : Thread Failure → Type 0
  Untaken t = is_taken t ≡ false

  abbrev pub Received : Thread Failure → Type 0
  Received t = (o : Option Failure) × (t ≡ taken o)

  -- What a result of `Run` says of the two goroutines and of the context.
  unfoldable pub IsTold :
      Option (RunError Failure) → Thread Failure → Thread Failure → Bool → Type 0
  IsTold none http xds canceled =
      ((canceled ≡ true) × Received http × Received xds)
      ⊎ ((http ≡ taken none) ⊎ (xds ≡ taken none))
  IsTold (some (http_exited e)) http xds canceled = http ≡ taken (some e)
  IsTold (some (xds_exited e)) http xds canceled = xds ≡ taken (some e)
  IsTold (some (shutdown_failed e)) http xds canceled = canceled ≡ true

  -- What holds where `Run` is.
  unfoldable pub Fits : Main Failure → Thread Failure → Thread Failure → Bool → Type 0
  unfolding IsTold
  Fits selecting http xds canceled = Untaken http × Untaken xds
  Fits lowering http xds canceled = (canceled ≡ true) × Untaken http × Untaken xds
  Fits stopping_reconcile http xds canceled = (canceled ≡ true) × Untaken http × Untaken xds
  Fits stopping_xds http xds canceled = (canceled ≡ true) × Untaken http × Untaken xds
  Fits shutting_down http xds canceled = (canceled ≡ true) × Untaken http × Untaken xds
  Fits awaiting_http http xds canceled = (canceled ≡ true) × Untaken http × Untaken xds
  Fits awaiting_xds http xds canceled = (canceled ≡ true) × Received http × Untaken xds
  Fits (returned result) http xds canceled = IsTold result http xds canceled

  abbrev pub IsSane : Process Failure → Type 0
  IsSane p = Fits p.main p.http p.xds p.canceled

  -- A thread that goes on before its result is received.
  received-Untaken : {t : Thread Failure} {o : Option Failure} → Untaken t → t ≢ taken o
  unfolding is_taken
  received-Untaken u e = grind (arith, u, e)

  module _ (t t' other : Thread Failure) (c : Bool) (u : Untaken t) (u' : Untaken t') where
    IsTold-http :
        (result : Option (RunError Failure)) → IsTold result t other c → IsTold result t' other c
    unfolding IsTold
    IsTold-http none (inl (_, (_, e), _)) = absurd (received-Untaken u e)
    IsTold-http none (inr (inl e)) = absurd (received-Untaken u e)
    IsTold-http none (inr (inr e)) = inr (inr e)
    IsTold-http (some (http_exited f)) e = absurd (received-Untaken u e)
    IsTold-http (some (xds_exited f)) e = e
    IsTold-http (some (shutdown_failed f)) e = e

    IsTold-xds :
        (result : Option (RunError Failure)) → IsTold result other t c → IsTold result other t' c
    unfolding IsTold
    IsTold-xds none (inl (_, _, (_, e))) = absurd (received-Untaken u e)
    IsTold-xds none (inr (inl e)) = inr (inl e)
    IsTold-xds none (inr (inr e)) = absurd (received-Untaken u e)
    IsTold-xds (some (http_exited f)) e = e
    IsTold-xds (some (xds_exited f)) e = absurd (received-Untaken u e)
    IsTold-xds (some (shutdown_failed f)) e = e

    Fits-http : (m : Main Failure) → Fits m t other c → Fits m t' other c
    unfolding Fits
    Fits-http selecting (h, x) = (u', x)
    Fits-http lowering (done, h, x) = (done, u', x)
    Fits-http stopping_reconcile (done, h, x) = (done, u', x)
    Fits-http stopping_xds (done, h, x) = (done, u', x)
    Fits-http shutting_down (done, h, x) = (done, u', x)
    Fits-http awaiting_http (done, h, x) = (done, u', x)
    Fits-http awaiting_xds (done, (o, e), x) = absurd (received-Untaken u e)
    Fits-http (returned result) h = IsTold-http result h

    Fits-xds : (m : Main Failure) → Fits m other t c → Fits m other t' c
    unfolding Fits
    Fits-xds selecting (h, x) = (h, u')
    Fits-xds lowering (done, h, x) = (done, h, u')
    Fits-xds stopping_reconcile (done, h, x) = (done, h, u')
    Fits-xds stopping_xds (done, h, x) = (done, h, u')
    Fits-xds shutting_down (done, h, x) = (done, h, u')
    Fits-xds awaiting_http (done, h, x) = (done, h, u')
    Fits-xds awaiting_xds (done, h, x) = (done, h, u')
    Fits-xds (returned result) h = IsTold-xds result h

  module _ (http xds : Thread Failure) (c : Bool) where
    IsTold-canceled :
        (result : Option (RunError Failure))
        → IsTold result http xds c
        → IsTold result http xds true
    unfolding IsTold
    IsTold-canceled none (inl (_, h, x)) = inl (refl, h, x)
    IsTold-canceled none (inr e) = inr e
    IsTold-canceled (some (http_exited f)) e = e
    IsTold-canceled (some (xds_exited f)) e = e
    IsTold-canceled (some (shutdown_failed f)) e = refl

    Fits-canceled : (m : Main Failure) → Fits m http xds c → Fits m http xds true
    unfolding Fits
    Fits-canceled selecting h = h
    Fits-canceled lowering (_, h, x) = (refl, h, x)
    Fits-canceled stopping_reconcile (_, h, x) = (refl, h, x)
    Fits-canceled stopping_xds (_, h, x) = (refl, h, x)
    Fits-canceled shutting_down (_, h, x) = (refl, h, x)
    Fits-canceled awaiting_http (_, h, x) = (refl, h, x)
    Fits-canceled awaiting_xds (_, h, x) = (refl, h, x)
    Fits-canceled (returned result) h = IsTold-canceled result h

    exit_http-IsTold : (o : Option Failure) → IsTold (Option.map http_exited o) (taken o) xds c
    unfolding IsTold
    exit_http-IsTold none = inr (inl refl)
    exit_http-IsTold (some e) = refl

    exit_xds-IsTold : (o : Option Failure) → IsTold (Option.map xds_exited o) http (taken o) c
    unfolding IsTold
    exit_xds-IsTold none = inr (inr refl)
    exit_xds-IsTold (some e) = refl

  -- What is known where `Run` is at a place that is given.
  pub at :
      (p : Process Failure) {m : Main Failure}
      → IsSane p
      → p.main ≡ m
      → Fits m p.http p.xds p.canceled
  at p s e = subst (λ m. Fits m p.http p.xds p.canceled) e s

  Untaken-eq : {t : Thread Failure} (t' : Thread Failure) → t ≡ t' → Untaken t' → Untaken t
  Untaken-eq t' e u = ap is_taken e ∙ u

  Step-IsSane : {p q : Process Failure} → IsSane p → Step p q → IsSane q
  unfolding Fits is_taken cancel announce lower stop_reconcile finish exit_http exit_xds
      after_shutdown take_http take_xds
  Step-IsSane {p} s (canceling h) = Fits-canceled p.http p.xds p.canceled p.main s
  Step-IsSane {p} s (announcing h) =
      Fits-http p.http serving p.xds p.canceled (Untaken-eq starting h refl) refl p.main s
  Step-IsSane {p} s (http_ending o h) =
      Fits-http p.http (sent o) p.xds p.canceled (Untaken-eq serving h refl) refl p.main s
  Step-IsSane {p} s (xds_ending o h) =
      Fits-xds p.xds (sent o) p.http p.canceled (Untaken-eq serving h refl) refl p.main s
  Step-IsSane {p} s (choosing_done m c) = let (h, x) = at p s m in (c, h, x)
  Step-IsSane {p} s (choosing_http o m h) = exit_http-IsTold p.http p.xds p.canceled o
  Step-IsSane {p} s (choosing_xds o m h) = exit_xds-IsTold p.http p.xds p.canceled o
  Step-IsSane {p} s (lowers m) = at p s m
  Step-IsSane {p} s (stops_reconcile m) = at p s m
  Step-IsSane {p} s (stops_xds m idle) = at p s m
  Step-IsSane {p} s (opens_stream h a) = s
  Step-IsSane {p} s (closes_stream n h) = s
  Step-IsSane {p} s (shuts_down none m) = at p s m
  Step-IsSane {p} s (shuts_down (some e) m) = (at p s m).0
  Step-IsSane {p} s (takes_http o m h) = let (c, _, x) = at p s m in (c, (o, refl), x)
  Step-IsSane {p} s (takes_xds o m h) =
      let (c, received, _) = at p s m in inl (c, received, (o, refl))

  pub Reach-IsSane : {p : Process Failure} → Reach p → IsSane p
  unfolding first_process Fits is_taken
  Reach-IsSane here = (refl, refl)
  Reach-IsSane (next r st) = Step-IsSane (Reach-IsSane r) st

  -- In every reachable process, if `Run` has returned an error, the server that it names sent that
  -- error, or, for a failed shutdown, the context is done. If it has returned nil, one server sent
  -- nil, or the context is done and both servers have ended, with or without an error.
  pub Reach-IsTold :
      {p : Process Failure} {result : Option (RunError Failure)}
      → Reach p
      → p.main ≡ returned result
      → IsTold result p.http p.xds p.canceled
  unfolding Fits
  Reach-IsTold {p} r e = at p (Reach-IsSane r) e
