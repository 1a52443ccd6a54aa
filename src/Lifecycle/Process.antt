-- ===== src/Lifecycle/Process.antt =====
-- internal/controlplane/controlplane.go: `Run` and the two goroutines that it starts, as steps on
-- what they share. An error of a library is a `Failure`; `none` is nil.
use mathlib.Core.Option
use distributed_service_mesh.Base.{suc, ℕ, some, none, Bool, false, Option, true, ◌≡◌}

-- A goroutine that serves: before it announces itself, in its serving call, with the result of the
-- call in its channel, and with that received.
pub data Thread (Failure : Type 0) : Type 0 where
  starting : Thread Failure
  serving : Thread Failure
  sent : Option Failure → Thread Failure
  taken : Option Failure → Thread Failure

pub data RunError (Failure : Type 0) : Type 0 where
  http_exited : Failure → RunError Failure
  xds_exited : Failure → RunError Failure
  shutdown_failed : Failure → RunError Failure

-- The next thing that `Run` does.
pub data Main (Failure : Type 0) : Type 0 where
  selecting : Main Failure
  lowering : Main Failure
  stopping_reconcile : Main Failure
  stopping_xds : Main Failure
  shutting_down : Main Failure
  awaiting_http : Main Failure
  awaiting_xds : Main Failure
  returned : Option (RunError Failure) → Main Failure

-- `canceled` is whether the context of `Run` is done, and `reconciling` whether that of the
-- reconciliation loop is not. `streams` counts the xDS streams that proxies hold open.
pub record Process (Failure : Type 0) : Type 0 where
  pub main : Main Failure
  pub http : Thread Failure
  pub xds : Thread Failure
  pub ready : Bool
  pub canceled : Bool
  pub reconciling : Bool
  pub streams : ℕ

-- At the `select`, with both goroutines started; the one for xDS has nothing to announce.
unfoldable pub first_process : {Failure : Type 0} → Process Failure
first_process = record {
  main = selecting;
  http = starting;
  xds = serving;
  ready = false;
  canceled = false;
  reconciling = true;
  streams = 0;
}

module _ {Failure : Type 0} where
  -- The context of the reconciliation loop is made from that of `Run`.
  unfoldable pub cancel : Process Failure → Process Failure
  cancel p = record p { canceled = true; reconciling = false }

  unfoldable pub announce : Process Failure → Process Failure
  announce p = record p { http = serving; ready = true }

  -- `SetReady(false)`
  unfoldable pub lower : Process Failure → Process Failure
  lower p = record p { main = stopping_reconcile; ready = false }

  unfoldable pub stop_reconcile : Process Failure → Process Failure
  stop_reconcile p = record p { main = stopping_xds; reconciling = false }

  -- `Run` returns, and its deferred `stopReconcile` runs.
  unfoldable pub finish : Option (RunError Failure) → Process Failure → Process Failure
  finish result p = record p { main = returned result; reconciling = false }

  -- A value from a channel ends the `select`.
  unfoldable pub exit_http : Option Failure → Process Failure → Process Failure
  unfolding finish
  exit_http o p = finish (Option.map http_exited o) (record p { http = taken o })

  unfoldable pub exit_xds : Option Failure → Process Failure → Process Failure
  unfolding finish
  exit_xds o p = finish (Option.map xds_exited o) (record p { xds = taken o })

  -- After `Shutdown`.
  unfoldable pub after_shutdown : Option Failure → Process Failure → Process Failure
  unfolding finish
  after_shutdown (some e) p = finish (some (shutdown_failed e)) p
  after_shutdown none p = record p { main = awaiting_http }

  unfoldable pub take_http : Option Failure → Process Failure → Process Failure
  take_http o p = record p { main = awaiting_xds; http = taken o }

  unfoldable pub take_xds : Option Failure → Process Failure → Process Failure
  unfolding finish
  take_xds o p = finish none (record p { xds = taken o })

  -- Whether the server for xDS takes new streams: GracefulStop stops that when it is called, and a
  -- return of `Run` ends the process.
  unfoldable pub accepts : Main Failure → Bool
  accepts selecting = true
  accepts lowering = true
  accepts stopping_reconcile = true
  accepts stopping_xds = false
  accepts shutting_down = false
  accepts awaiting_http = false
  accepts awaiting_xds = false
  accepts (returned result) = false

-- The select, the goroutines, and the calls of libraries, which may return whatever they return.
-- Shutdown ends at its timeout, and a serving call ends when its server is shut down.
pub data Step {Failure : Type 0} (p : Process Failure) : Process Failure → Type 0 where
  canceling : p.canceled ≡ false → Step p (cancel p)
  announcing : p.http ≡ starting → Step p (announce p)
  http_ending : (o : Option Failure) → p.http ≡ serving → Step p (record p { http = sent o })
  xds_ending : (o : Option Failure) → p.xds ≡ serving → Step p (record p { xds = sent o })
  choosing_done : p.main ≡ selecting → p.canceled ≡ true → Step p (record p { main = lowering })
  choosing_http :
      (o : Option Failure) → p.main ≡ selecting → p.http ≡ sent o → Step p (exit_http o p)
  choosing_xds : (o : Option Failure) → p.main ≡ selecting → p.xds ≡ sent o → Step p (exit_xds o p)
  lowers : p.main ≡ lowering → Step p (lower p)
  stops_reconcile : p.main ≡ stopping_reconcile → Step p (stop_reconcile p)
  -- GracefulStop returns when no stream is open any more.
  stops_xds : p.main ≡ stopping_xds → p.streams ≡ 0 → Step p (record p { main = shutting_down })
  shuts_down : (o : Option Failure) → p.main ≡ shutting_down → Step p (after_shutdown o p)
  takes_http :
      (o : Option Failure) → p.main ≡ awaiting_http → p.http ≡ sent o → Step p (take_http o p)
  takes_xds : (o : Option Failure) → p.main ≡ awaiting_xds → p.xds ≡ sent o → Step p (take_xds o p)
  -- What proxies do.
  opens_stream :
      p.xds ≡ serving → accepts p.main ≡ true → Step p (record p { streams = suc p.streams })
  closes_stream : (n : ℕ) → p.streams ≡ suc n → Step p (record p { streams = n })

-- Any number of steps, of any goroutine.
pub data Steps {Failure : Type 0} (p : Process Failure) : Process Failure → Type 0 where
  here : Steps p p
  next : {q r : Process Failure} → Steps p q → Step q r → Steps p r

abbrev pub Reach : {Failure : Type 0} → Process Failure → Type 0
Reach q = Steps first_process q
