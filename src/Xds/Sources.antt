-- ===== src/Xds/Sources.antt =====
-- internal/xds/snapshot.go: where the load assignments of a snapshot come from.
use distributed_service_mesh.Xds.Assignments.{
  name_for, Assigns, build_cluster_load_assignment-Assigns,
}
use distributed_service_mesh.Registry.View.{lookup}
use distributed_service_mesh.Base.Sort.Filter.{only}
use distributed_service_mesh.Xds.Endpoints.{
  serves, find-split_instances, split_instances-IsAscending,
}
use distributed_service_mesh.Registry.Listing.{id_of}
use distributed_service_mesh.Base.Outcome.{ok}
use distributed_service_mesh.Base.Sort.{find, IsAscending}
use distributed_service_mesh.Xds.Build.{XdsLibrary}
use distributed_service_mesh.Registry.Types.{key, Instance}
use distributed_service_mesh.Xds.Rounds.{build_services_induction, round_splits}
use distributed_service_mesh.Registry.Validity.{IsValid}
use distributed_service_mesh.Routing.Spec.{CircuitBreaker, VersionWeight}
use distributed_service_mesh.Xds.Resources.{ClusterLoadAssignment}
use distributed_service_mesh.Base.Text.{Text}
use distributed_service_mesh.Xds.Snapshot.{
  default_namespace, spec_or_zero, split_instances, build_services, Resources, build_splits, routed,
  splits_or_default, History,
}
use distributed_service_mesh.Base.{refl, [], suc, All-map, All-append, ◌∷◌, All, Has, List, ℕ, ◌≡◌}

module _ (h : History) where
  -- The load assignment is that of a split at one moment: its instances, in strictly ascending
  -- order of the IDs, are exactly the stored ones of the service that serve the split then.
  abbrev pub IsSplitAt : Text → VersionWeight → ClusterLoadAssignment → Type 0
  IsSplitAt service split a =
      (c : ℕ) × (xs : List Instance) × Assigns (name_for service split.version) xs a
      × IsAscending id_of xs
      × ((id : Text)
          → find id_of id xs
            ≡ only (serves split.version (h c))
                (lookup (key default_namespace service) id (h c).registry))

  abbrev pub IsOfSplits : Text → List VersionWeight → ClusterLoadAssignment → Type 0
  IsOfSplits service splits a =
      (split : VersionWeight) × Has splits split × IsSplitAt service split a

  -- It is the load assignment of a split that the store had for a service.
  abbrev pub IsLive : ClusterLoadAssignment → Type 0
  IsLive a =
      (service : Text) × (t : ℕ) × IsOfSplits service (splits_or_default (routed service (h t))) a

  module _ (v : (c : ℕ) → IsValid (h c).registry) where
    build_splits-IsOfSplits :
        (t : ℕ) (service : Text) (cb : CircuitBreaker) (splits : List VersionWeight)
        → All (IsOfSplits service splits) (build_splits h t service cb splits).endpoints
    unfolding build_splits
    build_splits-IsOfSplits t service cb [] = tt
    build_splits-IsOfSplits t service cb (split ∷ rest) = (
      (
        split,
        (0, refl),
        (
          t,
          split_instances (h t) service split.version,
          build_cluster_load_assignment-Assigns service split.version
              (split_instances (h t) service split.version),
          split_instances-IsAscending (h t) service (v t) split.version,
          find-split_instances (h t) service (v t) split.version,
        ),
      ),
      All-map (IsOfSplits service rest) (IsOfSplits service (split ∷ rest))
          (build_splits h (suc t) service cb rest).endpoints
          (λ a (sp, (i, e), at). (sp, (suc i, e), at))
          (build_splits-IsOfSplits (suc t) service cb rest),
    )

    pub build_services-IsLive :
        (lib : XdsLibrary) (t i : ℕ) (services : List Text) {res : Resources lib}
        → build_services lib h t i services ≡ ok res
        → All IsLive res.endpoints
    unfolding round_splits
    build_services-IsLive lib t i services e =
        build_services_induction lib h (λ _ _ _ res. All IsLive res.endpoints) (λ _ _. tt)
          (λ t' _ service _ _ more _ k.
            let splits = splits_or_default (routed service (h t')) in
            let built = (round_splits lib h t' service).endpoints in
            All-append IsLive built more.endpoints
              (All-map (IsOfSplits service splits) IsLive built (λ a at. (service, t', at))
                (build_splits-IsOfSplits (suc t') service
                  (spec_or_zero (routed service (h t'))).circuit_breaker splits))
              k)
          t i services e
