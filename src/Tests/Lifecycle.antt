-- ===== src/Tests/Lifecycle.antt =====
-- Lifecycle: a process that is canceled while it serves.
use distributed_service_mesh.Lifecycle.Returns.{
  returns_or_waits, step_count, opened, IsWaiting, HasStep,
}
use distributed_service_mesh.Lifecycle.Draining.{stays_unready, is_draining}
use distributed_service_mesh.Base.Text.{codes, Text}
use distributed_service_mesh.Lifecycle.Process.{
  opens_stream, accepts, stopping_xds, xds_ending, choosing_done, stops_xds, takes_http, canceling,
  stops_reconcile, announcing, http_ending, shuts_down, takes_xds, RunError, lowers, here, next,
  Reach, first_process, Steps, returned, shutting_down, finish, lower, sent, after_shutdown,
  stop_reconcile, lowering, take_xds, take_http, announce, cancel, Process,
}
use distributed_service_mesh.Lifecycle.Results.{is_taken, Reach-IsTold, IsTold}
use distributed_service_mesh.Base.{
  ◌*◌, ◌+◌, true, ◌⊎◌, arith, refl, Option, ◌≤◌, false, some, none, ◌≡◌,
}

tests : Unit {0}
unfolding first_process cancel announce lower stop_reconcile finish after_shutdown take_http
    take_xds is_draining is_taken IsTold step_count
tests = tt

abbrev ready_process : Process Text
ready_process = announce first_process

abbrev chosen_process : Process Text
chosen_process = record (cancel ready_process) { main = lowering }

abbrev down_process : Process Text
down_process = record (stop_reconcile (lower chosen_process)) { main = shutting_down }

abbrev ended_process : Process Text
ended_process = record (after_shutdown none down_process) { http = sent none }

-- GracefulStop made the server for xDS fail with an error that nothing reads.
abbrev closing_process : Process Text
closing_process = record (take_http none ended_process) { xds = sent (some (codes "stopped")) }

abbrev last_process : Process Text
last_process = take_xds (some (codes "stopped")) closing_process

to_chosen : Reach chosen_process
unfolding tests
to_chosen = next (next (next here (announcing refl)) (canceling refl)) (choosing_done refl refl)

to_down : {p : Process Text} → Steps p chosen_process → Steps p down_process
unfolding tests
to_down r = next (next (next r (lowers refl)) (stops_reconcile refl)) (stops_xds refl refl)

to_closing : {p : Process Text} → Steps p down_process → Steps p closing_process
unfolding tests
to_closing r =
    next
      (next (next (next r (shuts_down none refl)) (http_ending none refl))
        (takes_http none refl refl))
      (xds_ending (some (codes "stopped")) refl)

to_last : {p : Process Text} → Steps p closing_process → Steps p last_process
unfolding tests
to_last r = next r (takes_xds (some (codes "stopped")) refl refl)

last_returned : last_process.main ≡ returned none
unfolding tests
last_returned = refl

Reach-IsTold_example : IsTold none last_process.http last_process.xds last_process.canceled
Reach-IsTold_example = Reach-IsTold (to_last (to_closing (to_down to_chosen))) last_returned

-- A proxy has opened a stream before the shutdown, and GracefulStop waits for it.
abbrev held_process : Process Text
held_process = record (stop_reconcile (lower (record chosen_process { streams = 1 }))) {
  main = stopping_xds;
}

to_held : Reach held_process
unfolding tests accepts
to_held =
    next
      (next
        (next (next (next (next here (announcing refl)) (opens_stream refl refl)) (canceling refl))
          (choosing_done refl refl))
        (lowers refl))
      (stops_reconcile refl)

returns_or_waits_example :
    (step_count to_held ≤ 13 + 2 * opened to_held)
    × (((result : Option (RunError Text)) × (held_process.main ≡ returned result))
        ⊎ (IsWaiting held_process ⊎ HasStep held_process))
unfolding tests
returns_or_waits_example = returns_or_waits to_held refl

-- The goroutine for HTTP announces itself after the shutdown has lowered readiness.
abbrev raced_process : Process Text
raced_process = announce (lower (record (cancel first_process) { main = lowering }))

raced : Reach raced_process
unfolding tests
raced =
    next (next (next (next here (canceling refl)) (choosing_done refl refl)) (lowers refl))
      (announcing refl)

raced_ready : (is_draining raced_process.main ≡ true) × (raced_process.ready ≡ true)
unfolding tests
raced_ready = (refl, refl)

stays_unready_example : last_process.ready ≡ false
unfolding tests
stays_unready_example =
    stays_unready (to_last (to_closing (to_down here))) refl (λ e. absurd (ground (arith, e))) refl
