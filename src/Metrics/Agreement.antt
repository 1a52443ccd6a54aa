-- ===== src/Metrics/Agreement.antt =====
-- internal/reconciliation/reconciler.go and internal/metrics/metrics.go: what the collectors show
-- after any run of the loop.
use distributed_service_mesh.Base.Float.{to_float64-exact, to_float64}
use distributed_service_mesh.Reconciliation.Runs.{run_induction}
use mathlib.Core.Path.{subst}
use distributed_service_mesh.Reconciliation.Loop.{run, Round}
use distributed_service_mesh.Reconciliation.Reconciler.{new_reconciler, reconcile}
use distributed_service_mesh.Registry.Ops.{sweep_stale}
use distributed_service_mesh.Registry.Types.{InMemory, Duration, Instance}
use mathlib.Core.Option
use distributed_service_mesh.Reconciliation.Decimal.{version_name}
use distributed_service_mesh.Xds.Snapshot.{History, build_snapshot}
use distributed_service_mesh.Base.Outcome.{ok, Outcome-cases}
use distributed_service_mesh.Reconciliation.Rounds.{IsAttempt, reconcile-IsAttempt, is_some}
use distributed_service_mesh.Xds.Build.{XdsLibrary}
use distributed_service_mesh.Reconciliation.Reconciler.{
  observe_duration, add_stale, inc_attempts, swept_metrics, reconcile, build_failed, publish_failed,
  inc_update_failures, next_uint64, inc_failures, node_id, ReconcileError, Weather,
  build_and_publish, Reconciler, record_calls, failed, publish, succeeded, SnapshotCache,
  MetricCall,
}
use distributed_service_mesh.Metrics.Collectors.{zero_readings, collect, Readings, collect_all}
use distributed_service_mesh.Base.{
  ◌<◌, true, sym, arith, length, ◌+◌, ◌^◌, ◌∙◌, ℕ, ◌%◌, inr, suc, inl, Option-cases, none,
  if◌then◌else◌, ap, some, Option, refl, [], ◌∷◌, ◌++◌, List, ◌≡◌,
}

collect_all-append :
    (xs ys : List MetricCall) (m : Readings)
    → collect_all (xs ++ ys) m ≡ collect_all ys (collect_all xs m)
unfolding collect_all
collect_all-append [] ys m = refl
collect_all-append (x ∷ xs) ys m = collect_all-append xs ys (collect x m)

module _ (lib : XdsLibrary) (cache : SnapshotCache lib) where
  -- The collectors are there, and the calls on them so far make them read `m`.
  abbrev pub Shows : Reconciler lib cache → Readings → Type 0
  Shows r m = (log : List MetricCall) × (r.metrics ≡ some log) × (collect_all log zero_readings ≡ m)

  Shows-record_calls :
      (calls : List MetricCall) (r : Reconciler lib cache) (m : Readings)
      → Shows r m
      → Shows (record_calls lib cache calls r) (collect_all calls m)
  unfolding record_calls
  Shows-record_calls calls r m (log, e, same) = (
    log ++ calls,
    ap (Option.map (λ l. l ++ calls)) e,
    collect_all-append log calls zero_readings ∙ ap (collect_all calls) same,
  )

  -- What an attempt that returned `error` leaves of the readings, where it took the version
  -- `taken`.
  record IsMetered (error : Option (ReconcileError lib.Failure)) (taken : ℕ) (m m' : Readings)
      : Type 0 where
    attempts : m'.attempts ≡ m.attempts
    durations : m'.durations ≡ m.durations
    failures : m'.failures ≡ (if is_some error then suc m.failures else m.failures)
    update_failures :
        m'.update_failures ≡ (if is_some error then suc m.update_failures else m.update_failures)
    updates : m'.updates ≡ (if is_some error then m.updates else suc m.updates)
    version : m'.version ≡ (if is_some error then m.version else to_float64 taken)

  abbrev Metered :
      Reconciler lib cache → Option (ReconcileError lib.Failure) × Reconciler lib cache → Type 0
  Metered r (error, r') =
      (m : Readings) → Shows r m → (m' : Readings) × Shows r' m' × IsMetered error r'.version m m'

  failed-Metered :
      (e : ReconcileError lib.Failure) (r : Reconciler lib cache)
      → Metered r (some e, failed lib cache r)
  unfolding failed collect_all
  failed-Metered e r m shows = (
    _,
    Shows-record_calls (inc_failures ∷ inc_update_failures ∷ [])
        (record r { failures = next_uint64 r.failures }) m shows,
    record {
      attempts = refl;
      durations = refl;
      failures = refl;
      update_failures = refl;
      updates = refl;
      version = refl;
    },
  )

  succeeded-Metered :
      (w : Weather lib cache) (snap : lib.Snapshot) (r : Reconciler lib cache)
      → Metered r (none, succeeded lib cache w snap r)
  unfolding succeeded collect_all
  succeeded-Metered w snap r m shows = (
    _,
    Shows-record_calls _ (record r { last_snapshot = some snap }) m shows,
    record {
      attempts = refl;
      durations = refl;
      failures = refl;
      update_failures = refl;
      updates = refl;
      version = refl;
    },
  )

  publish-Metered :
      (w : Weather lib cache) (snap : lib.Snapshot) (r : Reconciler lib cache)
      → Metered r (publish lib cache w snap r)
  unfolding publish
  publish-Metered w snap r =
      let r' : Reconciler lib cache = record r {
        published = (cache.set_snapshot node_id snap r.published).1;
      } in
      elim (Option-cases (cache.set_snapshot node_id snap r.published).0) [
        | inl fine ↦ rw (fine, publish) (succeeded-Metered w snap r')
        | inr (e, bad) ↦ rw (bad, publish) (failed-Metered (publish_failed e) r')
      ]

  build_and_publish-Metered :
      (w : Weather lib cache) (r : Reconciler lib cache)
      → Metered r (build_and_publish lib cache w r)
  unfolding build_and_publish
  build_and_publish-Metered w r =
      let r' : Reconciler lib cache = record r { version = next_uint64 r.version } in
      elim (Outcome-cases (build_snapshot lib w.building (version_name r'.version))) [
        | inl (snap, built) ↦ rw (built, build_and_publish) (publish-Metered w snap r')
        | inr (e, bad) ↦ rw (bad, build_and_publish) (failed-Metered (build_failed e) r')
      ]

  -- The start of a reconciliation: one attempt more, and the stale instances.
  begun-Shows :
      (ts : List Instance) (r : Reconciler lib cache) (m : Readings)
      → Shows r m
      → (n : ℕ) × Shows
          (swept_metrics lib cache ts (
            record_calls lib cache
              (inc_attempts ∷ [])
              (record r { attempts = next_uint64 r.attempts })))
          (record m { attempts = suc m.attempts; stale = n })
  unfolding swept_metrics collect_all
  begun-Shows [] r m shows = (
    m.stale,
    Shows-record_calls (inc_attempts ∷ []) (record r { attempts = next_uint64 r.attempts }) m shows,
  )
  begun-Shows (x ∷ ts) r m shows =
      let r' : Reconciler lib cache = record r { attempts = next_uint64 r.attempts } in
      (
        m.stale + length (x ∷ ts),
        Shows-record_calls (add_stale (length (x ∷ ts)) ∷ [])
            (record_calls lib cache (inc_attempts ∷ []) r') (record m { attempts = suc m.attempts })
            (Shows-record_calls (inc_attempts ∷ []) r' m shows),
      )

  -- The reading is the version of the last snapshot as a float64, if one was published.
  abbrev pub IsPublished : Option lib.Snapshot → ℕ → Type 0
  IsPublished none v = v ≡ 0
  IsPublished (some snap) v =
      (h : History) × (taken : ℕ) × (build_snapshot lib h (version_name taken) ≡ ok snap)
      × (v ≡ to_float64 taken)
      × (taken < 2 ^ 53 → v ≡ taken)

  -- The collectors agree with the reconciler's own counters, which are 64 bits wide.
  pub record Agrees (r : Reconciler lib cache) (m : Readings) : Type 0 where
    pub attempts : r.attempts ≡ m.attempts % 2 ^ 64
    pub versions : r.version ≡ m.attempts % 2 ^ 64
    pub failures : r.failures ≡ m.failures % 2 ^ 64
    pub update_failures : m.update_failures ≡ m.failures
    pub updates : m.updates + m.failures ≡ m.attempts
    pub durations : m.durations ≡ m.attempts
    pub published : IsPublished r.last_snapshot m.version

  abbrev pub IsMeasured : Reconciler lib cache → Type 0
  IsMeasured r = (m : Readings) × Shows r m × Agrees r m

  Agrees-attempt :
      (w : Weather lib cache) (n : ℕ) (error : Option (ReconcileError lib.Failure))
      (r r' : Reconciler lib cache) (m m' : Readings)
      → Agrees r m
      → r'.attempts ≡ next_uint64 r.attempts
      → IsAttempt lib cache w error r r'
      → IsMetered error r'.version (record m { attempts = suc m.attempts; stale = n }) m'
      → Agrees r' (record m' { durations = suc m'.durations })
  Agrees-attempt w n none r r' m m' a one attempt metered =
      let (snap, built, _, last) = attempt.publishes refl in
      record {
        attempts = one ∙ omega (arith, a.attempts, metered.attempts);
        versions = attempt.one_version ∙ omega (arith, a.versions, metered.attempts);
        failures = attempt.one_failure ∙ omega (arith, a.failures, metered.failures);
        update_failures =
            omega (arith, a.update_failures, metered.update_failures, metered.failures);
        updates = omega (arith, a.updates, metered.updates, metered.failures, metered.attempts);
        durations = omega (arith, a.durations, metered.durations, metered.attempts);
        published =
            subst (λ o. IsPublished o m'.version) (sym last)
              (
                w.building,
                r'.version,
                built,
                metered.version,
                λ small. metered.version ∙ to_float64-exact r'.version small,
              );
      }
  Agrees-attempt w n (some e) r r' m m' a one attempt metered = record {
    attempts = one ∙ omega (arith, a.attempts, metered.attempts);
    versions = attempt.one_version ∙ omega (arith, a.versions, metered.attempts);
    failures = attempt.one_failure ∙ omega (arith, a.failures, metered.failures);
    update_failures = omega (arith, a.update_failures, metered.update_failures, metered.failures);
    updates = omega (arith, a.updates, metered.updates, metered.failures, metered.attempts);
    durations = omega (arith, a.durations, metered.durations, metered.attempts);
    published =
        subst (λ o. IsPublished o m'.version) (sym (attempt.keeps refl))
          (subst (IsPublished r.last_snapshot) (sym metered.version) a.published);
  }

  pub reconcile-IsMeasured :
      (stale_after : Duration) (w : Weather lib cache) (reg : InMemory) (r : Reconciler lib cache)
      → IsMeasured r
      → IsMeasured (reconcile lib cache stale_after w reg r).2
  unfolding reconcile collect_all record_calls
  reconcile-IsMeasured stale_after w reg r (m, shows, a) =
      let ts = (sweep_stale stale_after w.sweep_time reg).0 in
      let (n, begun) = begun-Shows ts r m shows in
      let started : Reconciler lib cache = swept_metrics lib cache ts (
        record_calls lib cache (inc_attempts ∷ [])
          (record r { attempts = next_uint64 r.attempts })) in
      let (m', shown, metered) = build_and_publish-Metered w started _ begun in
      let (one_attempt, attempt) = reconcile-IsAttempt lib cache stale_after w reg r in
      (
        collect_all (observe_duration ∷ []) m',
        Shows-record_calls (observe_duration ∷ []) (build_and_publish lib cache w started).1 m'
            shown,
        Agrees-attempt w n _ r _ m m' a one_attempt attempt metered,
      )

  pub new-IsMeasured : (c : cache.Cache) → IsMeasured (new_reconciler lib cache c true)
  unfolding collect_all
  new-IsMeasured c = (
    zero_readings,
    ([], refl, refl),
    record {
      attempts = refl;
      versions = refl;
      failures = refl;
      update_failures = refl;
      updates = refl;
      durations = refl;
      published = refl;
    },
  )

module _ (lib : XdsLibrary) (cache : SnapshotCache lib) (stale_after interval : Duration) where
  -- When `run` ends without a panic, from a new reconciler with collectors, the readings that its
  -- calls make agree with it: attempts, versions and failures are the readings modulo 2 ^ 64, the
  -- updates and the failures sum to the attempts, each failure is one of an update, each attempt
  -- has a duration, and the version shown is the one that the last snapshot was built under,
  -- converted to a float64, which it equals below 2 ^ 53, or 0 if there is none.
  pub run-IsMeasured :
      (rounds : List (Round lib cache)) (c : cache.Cache) {waits : List Duration}
      {last : Reconciler lib cache}
      → run lib cache stale_after interval rounds 0 (new_reconciler lib cache c true)
        ≡ some (waits, last)
      → (m : Readings) × Shows lib cache last m × Agrees lib cache last m
  unfolding collect_all
  run-IsMeasured rounds c e =
      run_induction lib cache stale_after interval (IsMeasured lib cache)
        (λ round. reconcile-IsMeasured lib cache stale_after round.weather round.registry) rounds 0
        (new_reconciler lib cache c true) e (new-IsMeasured lib cache c)
