-- ===== src/Reconciliation/Rounds.antt =====
-- What one reconciliation does, on every path.
use distributed_service_mesh.Registry.Ops.{sweep_stale}
use distributed_service_mesh.Registry.Types.{InMemory, Instance, Duration}
use distributed_service_mesh.Reconciliation.Decimal.{version_name}
use distributed_service_mesh.Xds.Snapshot.{BuildError, build_snapshot}
use distributed_service_mesh.Base.Outcome.{err, ok, Outcome-cases}
use distributed_service_mesh.Reconciliation.Reconciler.{
  publish_failed, build_failed, observe_duration, inc_attempts, reconcile, record_calls,
  swept_metrics, failed, node_id, next_uint64, Reconciler, publish, build_and_publish,
  ReconcileError, Weather, SnapshotCache,
}
use distributed_service_mesh.Xds.Build.{XdsLibrary}
use distributed_service_mesh.Base.{
  ap, ◌∙◌, [], ◌∷◌, List, refl, arith, inr, Option-cases, inl, if◌then◌else◌, none, true, some,
  false, Bool, Option, ◌≡◌,
}

abbrev pub is_some {ℓ} : {A : Type ℓ} → Option A → Bool
is_some none = false
is_some (some a) = true

module _ (lib : XdsLibrary) (cache : SnapshotCache lib) where
  -- What an attempt that returned `error` did, from `r` to `r'`.
  pub record IsAttempt (w : Weather lib cache) (error : Option (ReconcileError lib.Failure))
      (r r' : Reconciler lib cache) : Type 0 where
    pub one_version : r'.version ≡ next_uint64 r.version
    pub one_failure : r'.failures ≡ (if is_some error then next_uint64 r.failures else r.failures)
    pub keeps : is_some error ≡ true → r'.last_snapshot ≡ r.last_snapshot
    pub publishes :
        error ≡ none
        → (snap : lib.Snapshot) × (build_snapshot lib w.building (version_name r'.version)
            ≡ ok snap)
          × (cache.set_snapshot node_id snap r.published ≡ (none, r'.published))
          × (r'.last_snapshot ≡ some snap)
    pub leaves_cache :
        (x : BuildError lib.Failure)
        → error ≡ some (build_failed x)
        → (build_snapshot lib w.building (version_name r'.version) ≡ err x)
          × (r'.published ≡ r.published)
    pub refused :
        (x : lib.Failure)
        → error ≡ some (publish_failed x)
        → (snap : lib.Snapshot) × (build_snapshot lib w.building (version_name r'.version)
            ≡ ok snap)
          × (cache.set_snapshot node_id snap r.published ≡ (some x, r'.published))

  module _ (w : Weather lib cache) where
    publish-IsAttempt :
        (snap : lib.Snapshot) (r : Reconciler lib cache)
        → build_snapshot lib w.building (version_name (next_uint64 r.version)) ≡ ok snap
        → IsAttempt w
            (publish lib cache w snap (record r { version = next_uint64 r.version })).0
            r
            (publish lib cache w snap (record r { version = next_uint64 r.version })).1
    unfolding publish
    publish-IsAttempt snap r built =
        elim (Option-cases (cache.set_snapshot node_id snap r.published).0) [
          | inl fine ↦
              rw (fine, publish)
                (record {
                  one_version = refl;
                  one_failure = refl;
                  keeps = λ h. cc;
                  publishes = λ _. (
                    snap,
                    built,
                    λ i. (fine i, (cache.set_snapshot node_id snap r.published).1),
                    refl,
                  );
                  leaves_cache = λ x h. absurd (ground (arith, h));
                  refused = λ x h. absurd (ground (arith, h));
                })
          | inr (e, bad) ↦
              rw (bad, publish)
                (record {
                  one_version = refl;
                  one_failure = refl;
                  keeps = λ h. refl;
                  publishes = λ h. absurd (ground arith);
                  leaves_cache = λ x h. absurd (ground (arith, h));
                  refused = λ x h.
                      let same : e ≡ x = ground (arith, h) in
                      (
                        snap,
                        built,
                        λ i. (
                          (bad ∙ ap some same) i,
                          (cache.set_snapshot node_id snap r.published).1,
                        ),
                      );
                })
        ]

    build_and_publish-IsAttempt :
        (r : Reconciler lib cache)
        → IsAttempt w (build_and_publish lib cache w r).0 r (build_and_publish lib cache w r).1
    unfolding build_and_publish
    build_and_publish-IsAttempt r =
        elim (Outcome-cases
          (build_snapshot lib w.building (version_name (next_uint64 r.version)))) [
            | inl (snap, built) ↦ rw (built, build_and_publish) (publish-IsAttempt snap r built)
            | inr (e, bad) ↦
                rw (bad, build_and_publish)
                  (unfold failed in
                    record {
                      one_version = refl;
                      one_failure = refl;
                      keeps = λ h. refl;
                      publishes = λ h. absurd (ground arith);
                      leaves_cache =
                          λ x h. let same : e ≡ x = ground (arith, h) in (bad ∙ ap err same, refl);
                      refused = λ x h. absurd (ground (arith, h));
                    })
          ]

    attempts-build_and_publish :
        (r : Reconciler lib cache) → (build_and_publish lib cache w r).1.attempts ≡ r.attempts
    unfolding build_and_publish
    attempts-build_and_publish r =
        elim (Outcome-cases
          (build_snapshot lib w.building (version_name (next_uint64 r.version)))) [
            | inl (snap, built) ↦
                elim (Option-cases (cache.set_snapshot node_id snap r.published).0) [
                  | inl fine ↦ rw (built, build_and_publish) (rw (fine, publish) refl)
                  | inr (e, bad) ↦ rw (built, build_and_publish) (rw (bad, publish) refl)
                ]
            | inr (e, bad) ↦ rw (bad, build_and_publish) refl
          ]

    begun : List Instance → Reconciler lib cache → Reconciler lib cache
    unfolding swept_metrics
    begun transitioned r = swept_metrics lib cache transitioned (
        record_calls lib cache (inc_attempts ∷ []) (record r { attempts = next_uint64 r.attempts }))

    attempts-begun :
        (ts : List Instance) (r : Reconciler lib cache)
        → (begun ts r).attempts ≡ next_uint64 r.attempts
    unfolding begun
    attempts-begun [] r = refl
    attempts-begun (x ∷ ts) r = refl

    IsAttempt-begun :
        (ts : List Instance) (r r' : Reconciler lib cache)
        (error : Option (ReconcileError lib.Failure))
        → IsAttempt w error (begun ts r) r'
        → IsAttempt w error r (record_calls lib cache (observe_duration ∷ []) r')
    unfolding begun record_calls
    IsAttempt-begun [] r r' error a = record {
      one_version = a.one_version;
      one_failure = a.one_failure;
      keeps = a.keeps;
      publishes = a.publishes;
      leaves_cache = a.leaves_cache;
      refused = a.refused;
    }
    IsAttempt-begun (x ∷ ts) r r' error a = record {
      one_version = a.one_version;
      one_failure = a.one_failure;
      keeps = a.keeps;
      publishes = a.publishes;
      leaves_cache = a.leaves_cache;
      refused = a.refused;
    }

  -- Every reconciliation counts one attempt and takes one version, and counts a failure exactly if
  -- it returns an error. With an error it keeps the last snapshot: either the build has failed with
  -- that error, under the new version's name, and the cache is as it was, or a snapshot was built
  -- and the cache has refused it with that error. With none it has built a snapshot under the new
  -- version's name, has handed it to the cache without an error, and remembers it.
  pub reconcile-IsAttempt :
      (stale_after : Duration) (w : Weather lib cache) (reg : InMemory) (r : Reconciler lib cache)
      → ((reconcile lib cache stale_after w reg r).2.attempts ≡ next_uint64 r.attempts)
        × IsAttempt w
            (reconcile lib cache stale_after w reg r).0
            r
            (reconcile lib cache stale_after w reg r).2
  unfolding reconcile begun record_calls
  reconcile-IsAttempt stale_after w reg r =
      let ts = (sweep_stale stale_after w.sweep_time reg).0 in
      (
        attempts-build_and_publish w (begun w ts r) ∙ attempts-begun w ts r,
        IsAttempt-begun w ts r _ _ (build_and_publish-IsAttempt w (begun w ts r)),
      )
