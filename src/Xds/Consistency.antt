-- ===== src/Xds/Consistency.antt =====
-- A snapshot that BuildSnapshot returns is made of closed resources and passed the consistency check.
use mathlib.Core.Path.{subst}
use distributed_service_mesh.Xds.References.{build_services-IsClosed, IsClosed}
use distributed_service_mesh.Base.Text.{Text}
use distributed_service_mesh.Base.Outcome.{>>=-succeeds, err, Outcome, ok}
use distributed_service_mesh.Xds.Snapshot.{
  construct_failed, services_of, build_services, Resources, wrap, History, BuildError,
  build_snapshot, check_consistent,
}
use distributed_service_mesh.Xds.Build.{XdsLibrary}
use distributed_service_mesh.Base.{inr, arith, inl, Option-cases, none, ◌≡◌}

module _ (lib : XdsLibrary) where
  check_consistent-ok :
      (snap : lib.Snapshot) {checked : lib.Snapshot}
      → check_consistent lib snap ≡ ok checked
      → (lib.inconsistency checked ≡ none) × (snap ≡ checked)
  unfolding check_consistent
  check_consistent-ok snap {checked} e = elim (Option-cases (lib.inconsistency snap)) [
    | inl fine ↦
        let same : snap ≡ checked = ground (arith, fine, e) in
        (subst (λ s. lib.inconsistency s ≡ none) same fine, same)
    | inr (x, bad) ↦ absurd (ground (arith, bad, e))
  ]

  wrap-ok-snapshot :
      (f : lib.Failure → BuildError lib.Failure) (o : Outcome lib.Failure lib.Snapshot)
      {a : lib.Snapshot}
      → wrap f o ≡ ok a
      → o ≡ ok a
  wrap-ok-snapshot f (ok a) e = cc
  wrap-ok-snapshot f (err x) e = cc

  -- If BuildSnapshot returns a snapshot, the library made it, under the version asked for, from
  -- resources that refer only to one another, and its consistency check passed, whatever the
  -- handlers change while it is built.
  pub build_snapshot-consistent :
      (h : History) (version : Text) {snap : lib.Snapshot}
      → build_snapshot lib h version ≡ ok snap
      → (res : Resources lib) × (build_services lib h 1 0 (services_of lib h) ≡ ok res)
        × IsClosed res
        × (lib.new_snapshot version res ≡ ok snap)
        × (lib.inconsistency snap ≡ none)
  unfolding build_snapshot
  build_snapshot-consistent h version {snap} e =
      let (res, built, e') = >>=-succeeds (build_services lib h 1 0 (services_of lib h)) _ e in
      let (made, new, e'') =
        >>=-succeeds (wrap construct_failed (lib.new_snapshot version res)) _ e' in
      let (consistent, same) = check_consistent-ok made e'' in
      (
        res,
        built,
        build_services-IsClosed lib h 1 0 (services_of lib h) built,
        subst (λ s. lib.new_snapshot version res ≡ ok s) same
            (wrap-ok-snapshot construct_failed _ new),
        consistent,
      )
