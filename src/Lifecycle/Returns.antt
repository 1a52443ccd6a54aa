-- ===== src/Lifecycle/Returns.antt =====
-- internal/controlplane/controlplane.go: `Run` returns, or waits for open streams.
use distributed_service_mesh.Lifecycle.Process.{
  Thread, Main, Process, Step, Steps, Reach, RunError, first_process, starting, serving, sent,
  taken, selecting, lowering, stopping_reconcile, stopping_xds, shutting_down, awaiting_http,
  awaiting_xds, returned, here, next, canceling, announcing, http_ending, xds_ending, choosing_done,
  choosing_http, choosing_xds, lowers, stops_reconcile, stops_xds, shuts_down, takes_http,
  takes_xds, opens_stream, closes_stream, accepts, cancel, announce, lower, stop_reconcile, finish,
  exit_http, exit_xds, after_shutdown, take_http, take_xds,
}
use distributed_service_mesh.Lifecycle.Results.{Fits, Reach-IsSane, is_taken, Untaken}
use distributed_service_mesh.Base.{
  ◌*◌, Bool, false, zero, suc, true, ◌≢◌, ◌≤◌, none, refl, some, inr, if◌then◌else◌, ap, inl, arith,
  ◌+◌, Option, ℕ, ◌<◌, ◌⊎◌, ◌≡◌,
}

zero_cases : (n : ℕ) → (n ≡ 0) ⊎ (0 < n)
zero_cases zero = inl refl
zero_cases (suc n) = inr (omega arith)

module _ {Failure : Type 0} where
  -- How many steps are left at most.
  unfoldable pub main_left : Main Failure → ℕ
  main_left selecting = 7
  main_left lowering = 6
  main_left stopping_reconcile = 5
  main_left stopping_xds = 4
  main_left shutting_down = 3
  main_left awaiting_http = 2
  main_left awaiting_xds = 1
  main_left (returned result) = 0

  unfoldable pub thread_left : Thread Failure → ℕ
  thread_left starting = 3
  thread_left serving = 2
  thread_left (sent o) = 1
  thread_left (taken o) = 0

  unfoldable pub steps_left : Process Failure → ℕ
  unfolding main_left thread_left
  steps_left p =
      main_left p.main + (thread_left p.http + (thread_left p.xds + (if p.canceled then 0 else 1)))

  -- The steps of proxies: the opening of a stream, and whether it is one of the two.
  unfoldable pub openings : {p q : Process Failure} → Step p q → ℕ
  openings (opens_stream h a) = 1
  openings _ = 0

  unfoldable pub is_own : {p q : Process Failure} → Step p q → Bool
  is_own (opens_stream h a) = false
  is_own (closes_stream n h) = false
  is_own _ = true

  abbrev weight : Process Failure → ℕ
  weight p = steps_left p + p.streams

  Step-weight : {p q : Process Failure} (st : Step p q) → weight q < weight p + 2 * openings st
  unfolding openings steps_left cancel announce lower stop_reconcile finish exit_http exit_xds
      after_shutdown take_http take_xds
  Step-weight {p} (canceling h) = ground (arith, h)
  Step-weight {p} (announcing h) = ground (arith, h, ap thread_left h)
  Step-weight {p} (http_ending o h) = ground (arith, ap thread_left h)
  Step-weight {p} (xds_ending o h) = ground (arith, ap thread_left h)
  Step-weight {p} (choosing_done m c) = ground (arith, ap main_left m)
  Step-weight {p} (choosing_http o m h) = ground (arith, ap main_left m, ap thread_left h)
  Step-weight {p} (choosing_xds o m h) = ground (arith, ap main_left m, ap thread_left h)
  Step-weight {p} (lowers m) = ground (arith, ap main_left m)
  Step-weight {p} (stops_reconcile m) = ground (arith, ap main_left m)
  Step-weight {p} (stops_xds m idle) = ground (arith, ap main_left m)
  Step-weight {p} (shuts_down none m) = ground (arith, ap main_left m)
  Step-weight {p} (shuts_down (some e) m) = ground (arith, ap main_left m)
  Step-weight {p} (takes_http o m h) = ground (arith, ap main_left m, ap thread_left h)
  Step-weight {p} (takes_xds o m h) = ground (arith, ap main_left m, ap thread_left h)
  Step-weight {p} (opens_stream h a) = omega arith
  Step-weight {p} (closes_stream n h) = omega arith

  -- A thread whose result is not received can go on, or has sent it.
  thread_cases :
      (t : Thread Failure)
      → Untaken t
      → ((t ≡ starting) ⊎ (t ≡ serving)) ⊎ ((o : Option Failure) × (t ≡ sent o))
  unfolding is_taken
  thread_cases starting u = inl (inl refl)
  thread_cases serving u = inl (inr refl)
  thread_cases (sent o) u = inr (o, refl)
  thread_cases (taken o) u = absurd (ground (arith, u))

  -- The goroutines or a call of a library can go on.
  abbrev pub HasStep : Process Failure → Type 0
  HasStep p = (q : Process Failure) × (st : Step p q) × (is_own st ≡ true)

  -- GracefulStop waits for streams that are open.
  abbrev pub IsWaiting : Process Failure → Type 0
  IsWaiting p = (p.main ≡ stopping_xds) × (0 < p.streams)

  -- The goroutine for xDS has nothing to announce.
  Step-xds : {p q : Process Failure} → Step p q → p.xds ≢ starting → q.xds ≢ starting
  unfolding cancel announce lower stop_reconcile finish exit_http exit_xds after_shutdown take_http
      take_xds
  Step-xds (canceling h) n = n
  Step-xds (announcing h) n = n
  Step-xds (http_ending o h) n = n
  Step-xds (xds_ending o h) n = λ e. absurd (ground (arith, e))
  Step-xds (choosing_done m c) n = n
  Step-xds (choosing_http o m h) n = n
  Step-xds (choosing_xds o m h) n = λ e. absurd (ground (arith, e))
  Step-xds (lowers m) n = n
  Step-xds (stops_reconcile m) n = n
  Step-xds (stops_xds m idle) n = n
  Step-xds (opens_stream h a) n = n
  Step-xds (closes_stream k h) n = n
  Step-xds (shuts_down none m) n = n
  Step-xds (shuts_down (some e) m) n = n
  Step-xds (takes_http o m h) n = n
  Step-xds (takes_xds o m h) n = λ e. absurd (ground (arith, e))

  Reach-xds : {p : Process Failure} → Reach p → p.xds ≢ starting
  unfolding first_process
  Reach-xds here = λ e. absurd (ground (arith, e))
  Reach-xds (next r st) = Step-xds st (Reach-xds r)

  module _ (p : Process Failure) (canceled : p.canceled ≡ true) (apart : p.xds ≢ starting) where
    proceed :
        (m : Main Failure)
        → p.main ≡ m
        → Fits m p.http p.xds p.canceled
        → ((result : Option (RunError Failure)) × (p.main ≡ returned result))
          ⊎ (IsWaiting p ⊎ HasStep p)
    unfolding Fits is_own
    proceed selecting e s = inr (inr (_, choosing_done e canceled, refl))
    proceed lowering e s = inr (inr (_, lowers e, refl))
    proceed stopping_reconcile e s = inr (inr (_, stops_reconcile e, refl))
    proceed stopping_xds e s = elim (zero_cases p.streams) [
      | inl idle ↦ inr (inr (_, stops_xds e idle, refl))
      | inr busy ↦ inr (inl (e, busy))
    ]
    proceed shutting_down e s = inr (inr (_, shuts_down none e, refl))
    proceed awaiting_http e (_, http, _) = elim (thread_cases p.http http) [
      | inl (inl before) ↦ inr (inr (_, announcing before, refl))
      | inl (inr during) ↦ inr (inr (_, http_ending none during, refl))
      | inr (o, ended) ↦ inr (inr (_, takes_http o e ended, refl))
    ]
    proceed awaiting_xds e (_, _, xds) = elim (thread_cases p.xds xds) [
      | inl (inl before) ↦ absurd (apart before)
      | inl (inr during) ↦ inr (inr (_, xds_ending none during, refl))
      | inr (o, ended) ↦ inr (inr (_, takes_xds o e ended, refl))
    ]
    proceed (returned result) e s = inl (result, e)

  unfoldable pub step_count : {p q : Process Failure} → Steps p q → ℕ
  step_count here = 0
  step_count (next r st) = suc (step_count r)

  -- How many streams were opened on the way.
  unfoldable pub opened : {p q : Process Failure} → Steps p q → ℕ
  unfolding openings
  opened here = 0
  opened (next r st) = openings st + opened r

  Reach-weight : {p : Process Failure} (r : Reach p) → step_count r + weight p ≤ 13 + 2 * opened r
  unfolding step_count opened steps_left first_process
  Reach-weight here = omega arith
  Reach-weight (next r st) = omega (arith, Reach-weight r, Step-weight st)

  -- Whatever the calls of the libraries return, a process whose context is done has made at most 13
  -- steps and 2 for each stream that was opened, and `Run` has returned, or it waits in
  -- GracefulStop for streams that are open, or a goroutine or a call of a library can go on.
  pub returns_or_waits :
      {p : Process Failure} (r : Reach p)
      → p.canceled ≡ true
      → (step_count r ≤ 13 + 2 * opened r)
        × (((result : Option (RunError Failure)) × (p.main ≡ returned result))
            ⊎ (IsWaiting p ⊎ HasStep p))
  returns_or_waits {p} r c =
      (omega (arith, Reach-weight r), proceed p c (Reach-xds r) p.main refl (Reach-IsSane r))

  -- GracefulStop was called, and goes on, or no stream is open.
  abbrev IsStopping : Process Failure → Type 0
  IsStopping p = (p.main ≡ stopping_xds) ⊎ ((accepts p.main ≡ false) × (p.streams ≡ 0))

  Step-IsStopping : {p q : Process Failure} → Step p q → IsStopping p → IsStopping q
  unfolding accepts cancel announce lower stop_reconcile finish exit_http exit_xds after_shutdown
      take_http take_xds
  Step-IsStopping (canceling h) s = s
  Step-IsStopping (announcing h) s = s
  Step-IsStopping (http_ending o h) s = s
  Step-IsStopping (xds_ending o h) s = s
  Step-IsStopping (choosing_done m c) s = absurd (ground (arith, s, m, ap accepts m))
  Step-IsStopping (choosing_http o m h) s = absurd (ground (arith, s, m, ap accepts m))
  Step-IsStopping (choosing_xds o m h) s = absurd (ground (arith, s, m, ap accepts m))
  Step-IsStopping (lowers m) s = absurd (ground (arith, s, m, ap accepts m))
  Step-IsStopping (stops_reconcile m) s = inl refl
  Step-IsStopping (stops_xds m idle) s = inr (refl, idle)
  Step-IsStopping (shuts_down none m) s = inr (refl, ground (arith, s, m))
  Step-IsStopping (shuts_down (some e) m) s = inr (refl, ground (arith, s, m))
  Step-IsStopping (takes_http o m h) s = inr (refl, ground (arith, s, m))
  Step-IsStopping (takes_xds o m h) s = inr (refl, ground (arith, s, m))
  Step-IsStopping (opens_stream h a) (inl m) = inl m
  Step-IsStopping (opens_stream h a) (inr (closed, idle)) = absurd (ground (arith, a, closed))
  Step-IsStopping (closes_stream n h) (inl m) = inl m
  Step-IsStopping (closes_stream n h) (inr (closed, idle)) = absurd (ground (arith, h, idle))

  Steps-IsStopping : {p q : Process Failure} → Steps p q → IsStopping p → IsStopping q
  Steps-IsStopping here s = s
  Steps-IsStopping (next r st) s = Step-IsStopping st (Steps-IsStopping r s)

  -- From the call of GracefulStop on, `Run` stays there as long as a stream is open, whatever the
  -- goroutines do.
  pub waits_for_streams :
      {p q : Process Failure}
      → Steps p q
      → p.main ≡ stopping_xds
      → 0 < q.streams
      → q.main ≡ stopping_xds
  waits_for_streams {p} {q} r m busy = elim (Steps-IsStopping r (inl m)) [
    | inl e ↦ e
    | inr (_, idle) ↦ absurd (omega arith)
  ]
