-- ===== src/Reconciliation/Runs.antt =====
-- What holds after any number of rounds of `Run`.
use distributed_service_mesh.Reconciliation.Backoff.{backoff-overflows}
use distributed_service_mesh.Base.Int.{add_int64}
use mathlib.Core.Option
use mathlib.Core.Option.{some-injective}
use mathlib.Core.Path.{subst}
use distributed_service_mesh.Xds.Consistency.{build_snapshot-consistent}
use distributed_service_mesh.Reconciliation.Rounds.{is_some, reconcile-IsAttempt}
use distributed_service_mesh.Reconciliation.Loop.{wait_after, failures_after, Round, run}
use distributed_service_mesh.Registry.Types.{Duration}
use distributed_service_mesh.Reconciliation.Reconciler.{
  new_reconciler, reconcile, Reconciler, SnapshotCache,
}
use distributed_service_mesh.Xds.Build.{XdsLibrary}
use distributed_service_mesh.Base.{
  ==_iff, ◌==◌, Bool-cases, suc, ap, Option, refl, inr, ◌∙◌, sym, length, inl, ◌+◌, true, arith,
  Option-cases, none, ◌<◌, [], ◌≤◌, ℕ, Bool, some, ◌∷◌, List, ◌≡◌,
}

-- The rest of a run under its wait.
module _ {A : Type 0} where
  abbrev pub after_wait : Option Duration → Option (List Duration × A) → Option (List Duration × A)
  after_wait o m = elim o [
    | none ↦ none
    | some wait ↦ Option.map (λ (waits, last). (wait ∷ waits, last)) m
  ]

  goes_on :
      (o : Option Duration) (m : Option (List Duration × A)) {waits : List Duration} {last : A}
      → after_wait o m ≡ some (waits, last)
      → (waits' : List Duration) × (m ≡ some (waits', last))
  goes_on none m e = absurd (ground arith)
  goes_on (some wait) none e = absurd (ground arith)
  goes_on (some wait) (some (ws, l)) e =
      (ws, ap (λ x. some (ws, x)) (ap (λ (x : List Duration × A). x.1) (some-injective _ _ e)))

  stops : (o : Option Duration) (m : Option (List Duration × A)) → o ≡ none → after_wait o m ≡ none
  stops none m e = refl
  stops (some wait) m e = absurd (ground arith)

  ends : (o : Option Duration) (m : Option (List Duration × A)) → m ≡ none → after_wait o m ≡ none
  ends none m e = refl
  ends (some wait) m e = ap (Option.map (λ (waits, last). (wait ∷ waits, last))) e

  pub waits_more :
      (o : Option Duration) (m : Option (List Duration × A)) {wait : Duration}
      {waits : List Duration} {last : A}
      → o ≡ some wait
      → m ≡ some (waits, last)
      → after_wait o m ≡ some (wait ∷ waits, last)
  waits_more o m e f = rw (e, f) refl

is_some-witness {ℓ} : {A : Type ℓ} (o : Option A) → is_some o ≡ true → (a : A) × (o ≡ some a)
is_some-witness none h = absurd (ground arith)
is_some-witness (some a) h = (a, refl)

module _ (lib : XdsLibrary) (cache : SnapshotCache lib) (stale_after interval : Duration) where
  module _ {κ} (P : Reconciler lib cache → Type κ)
      (step : (round : Round lib cache) (r : Reconciler lib cache)
        → P r
        → P (reconcile lib cache stale_after round.weather round.registry r).2) where
    -- What every reconciliation keeps holds after a run that does not panic.
    pub run_induction :
        (rounds : List (Round lib cache)) (k : ℕ) (r : Reconciler lib cache) {waits : List Duration}
        {last : Reconciler lib cache}
        → run lib cache stale_after interval rounds k r ≡ some (waits, last)
        → P r
        → P last
    unfolding run
    run_induction [] k r {waits} {last} e p =
        subst P (ap (λ (x : List Duration × Reconciler lib cache). x.1) (some-injective _ _ e)) p
    run_induction (round ∷ rounds) k r {waits} {last} e p =
        let done = reconcile lib cache stale_after round.weather round.registry r in
        let k' = failures_after lib cache done.0 k in
        let (waits', later) =
          goes_on (wait_after lib cache interval k' round.draw)
            (run lib cache stale_after interval rounds k' done.2) e in
        run_induction rounds k' done.2 later (step round r p)

  -- The last snapshot, if there is one, passed the library's consistency check.
  abbrev pub IsConsistent : Reconciler lib cache → Type 0
  IsConsistent r =
      (snap : lib.Snapshot) → r.last_snapshot ≡ some snap → lib.inconsistency snap ≡ none

  reconcile-IsConsistent :
      (round : Round lib cache) (r : Reconciler lib cache)
      → IsConsistent r
      → IsConsistent (reconcile lib cache stale_after round.weather round.registry r).2
  reconcile-IsConsistent round r c snap e =
      let (_, a) = reconcile-IsAttempt lib cache stale_after round.weather round.registry r in
      elim (Option-cases (reconcile lib cache stale_after round.weather round.registry r).0) [
        | inl fine ↦
            let (made, built, _, last) = a.publishes fine in
            let (_, _, _, _, consistent) =
              build_snapshot-consistent lib round.weather.building _ built in
            subst (λ s. lib.inconsistency s ≡ none) (some-injective _ _ (sym last ∙ e)) consistent
        | inr (x, bad) ↦ c snap (sym (a.keeps (rw bad refl)) ∙ e)
      ]

  -- When `run` ends without a panic, after any number of rounds from a new reconciler, failing or
  -- not, the last snapshot, if there is one, passed the consistency check.
  pub run-IsConsistent :
      (rounds : List (Round lib cache)) (c : cache.Cache) (measured : Bool) {waits : List Duration}
      {last : Reconciler lib cache}
      → run lib cache stale_after interval rounds 0 (new_reconciler lib cache c measured)
        ≡ some (waits, last)
      → (snap : lib.Snapshot) → last.last_snapshot ≡ some snap
      → lib.inconsistency snap ≡ none
  run-IsConsistent rounds c measured e =
      run_induction IsConsistent reconcile-IsConsistent rounds 0
        (new_reconciler lib cache c measured) e (λ snap p. absurd (ground (arith, p)))

  -- Attempts and versions count alike, and no more failures than attempts are counted.
  abbrev pub IsCounted : Reconciler lib cache → Type 0
  IsCounted r = (r.version ≡ r.attempts) × (r.failures ≤ r.attempts)

  -- Every round of the list fails, from the reconciler `r` on.
  abbrev pub AllFail : List (Round lib cache) → Reconciler lib cache → Type 0
  AllFail [] r = Unit
  AllFail (round ∷ rounds) r =
      let done = reconcile lib cache stale_after round.weather round.registry r in
      (is_some done.0 ≡ true) × AllFail rounds done.2

  -- If every round fails and, with the `k` below 34 failures before them, the rounds make 34
  -- failures or more, `run` has no result: the backoff after the 34th consecutive failure panics.
  pub run-panics :
      (rounds : List (Round lib cache)) (k : ℕ) (r : Reconciler lib cache)
      → k < 34
      → 34 ≤ k + length rounds
      → AllFail rounds r
      → run lib cache stale_after interval rounds k r ≡ none
  unfolding run failures_after wait_after
  run-panics [] k r l h f = absurd (omega arith)
  run-panics (round ∷ rounds) k r l h f =
      let done = reconcile lib cache stale_after round.weather round.registry r in
      let (e, bad) = is_some-witness done.0 f.0 in
      let counted : failures_after lib cache done.0 k ≡ suc k = rw bad refl in
      elim (Bool-cases (suc k == 34)) [
        | inl last ↦
            stops (wait_after lib cache interval (failures_after lib cache done.0 k) round.draw) _ (
              ap (λ n. wait_after lib cache interval n round.draw)
                (counted ∙ (==_iff (suc k) 34).0 last)
              ∙ ap (Option.map (add_int64 interval)) (backoff-overflows round.draw))
        | inr more ↦
            ends (wait_after lib cache interval (failures_after lib cache done.0 k) round.draw) _ (
              ap (λ n. run lib cache stale_after interval rounds n done.2) counted
              ∙ run-panics rounds (suc k) done.2 (ground arith) (omega arith) f.1)
      ]
