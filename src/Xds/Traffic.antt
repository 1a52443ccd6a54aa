-- ===== src/Xds/Traffic.antt =====
-- How a route divides the traffic of its service.
use distributed_service_mesh.Base.Outcome.{ok}
use distributed_service_mesh.Xds.Rounds.{build_splits-names, build_services_induction, round_splits}
use distributed_service_mesh.Routing.Validation.{validate-sum, sum_weights}
use distributed_service_mesh.Routing.Spec.{validate, Spec, VersionWeight}
use distributed_service_mesh.Xds.References.{config_shares-build, config_shares}
use distributed_service_mesh.Base.Text.{Text}
use distributed_service_mesh.Xds.Resources.{ClusterWeight, RouteConfiguration}
use distributed_service_mesh.Xds.Build.{build_route_configuration, cluster_name, XdsLibrary}
use distributed_service_mesh.Xds.Snapshot.{
  spec_or_zero, route_config_name, build_services, Resources, splits_or_default, routed, History,
  Moment,
}
use distributed_service_mesh.Base.{
  ◌∙◌, ap, suc, ◌^◌, ◌<◌, All, refl, [], inr, arith, ◌+◌, inl, some, Option-cases, ◌∷◌, ℕ, map,
  List, ◌≡◌,
}

abbrev pub total_weight : List ClusterWeight → ℕ
total_weight [] = 0
total_weight (w ∷ ws) = w.weight + total_weight ws

-- A configuration that sends each hundred requests somewhere.
abbrev pub IsWhole : RouteConfiguration → Type 0
IsWhole rc = total_weight (config_shares rc) ≡ 100

-- Every spec that is read is accepted, and its weights do not add up past a uint32.
abbrev pub IsSane : Moment → Type 0
IsSane m =
    (service : Text) (spec : Spec)
    → routed service m ≡ some spec
    → (validate spec ≡ ok tt) × (sum_weights spec.splits < 2 ^ 32)

total-splits :
    (service : Text) (sps : List VersionWeight)
    → total_weight
        (map (λ sp. record { name = cluster_name service sp.version; weight = sp.weight }) sps)
      ≡ sum_weights sps
total-splits service [] = refl
total-splits service (sp ∷ sps) = omega (arith, total-splits service sps)

sum-splits_or_default :
    (m : Moment) (service : Text)
    → IsSane m
    → sum_weights (splits_or_default (routed service m)) ≡ 100
sum-splits_or_default m service sane = elim (Option-cases (routed service m)) [
  | inl absent ↦ rw absent refl
  | inr (spec, found) ↦
      let (accepted, small) = sane service spec found in rw found (validate-sum spec small accepted)
]

module _ (lib : XdsLibrary) (h : History) where
  -- The shares of a service's route are the weights of its splits.
  pub round-total :
      (t : ℕ) (service : Text)
      → total_weight (
          config_shares (
            build_route_configuration
              (route_config_name service)
              service
              (round_splits lib h t service).weights
              (spec_or_zero (routed service (h t)))))
        ≡ sum_weights (splits_or_default (routed service (h t)))
  unfolding round_splits
  round-total t service =
      let spec = routed service (h t) in
      let splits = splits_or_default spec in
      let names = build_splits-names h service (spec_or_zero spec).circuit_breaker (suc t) splits in
      ap total_weight (
        config_shares-build (route_config_name service) service
          (round_splits lib h t service).weights (spec_or_zero spec))
      ∙ (ap total_weight names.2 ∙ total-splits service splits)

module _ (lib : XdsLibrary) (h : History) (sane : (t : ℕ) → IsSane (h t)) where
  round-IsWhole :
      (t : ℕ) (service : Text)
      → IsWhole (
          build_route_configuration
            (route_config_name service)
            service
            (round_splits lib h t service).weights
            (spec_or_zero (routed service (h t))))
  round-IsWhole t service =
      round-total lib h t service ∙ sum-splits_or_default (h t) service (sane t)

  -- If every spec that the store returns was accepted and its weights sum to less than 2 ^ 32, the
  -- weights of each route of the built resources sum to 100, also for services with no spec.
  pub build_services-IsWhole :
      (t i : ℕ) (services : List Text) {res : Resources lib}
      → build_services lib h t i services ≡ ok res
      → All IsWhole res.route_configs
  build_services-IsWhole t i services e =
      build_services_induction lib h (λ _ _ _ r. All IsWhole r.route_configs) (λ _ _. tt)
        (λ t' _ service _ _ _ _ k. (round-IsWhole t' service, k)) t i services e
