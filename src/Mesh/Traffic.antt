-- ===== src/Mesh/Traffic.antt =====
-- internal/routing and internal/xds together: the weights of the routes that are built from a sound
-- store, with the wrap-around that Validate has.
use distributed_service_mesh.Base.Dict.Entries.{Entries-get}
use distributed_service_mesh.Xds.Rounds.{build_services_induction}
use distributed_service_mesh.Routing.Validation.{validate_iff, sum_weights}
use distributed_service_mesh.Base.Text.{text_eq_instance, Text}
use distributed_service_mesh.Base.Outcome.{ok}
use distributed_service_mesh.Xds.References.{config_shares}
use distributed_service_mesh.Xds.Traffic.{round-total, total_weight}
use distributed_service_mesh.Routing.Store.{IsStored, IsSound, spec_of, Store}
use distributed_service_mesh.Routing.Spec.{validate, Spec}
use distributed_service_mesh.Xds.Build.{XdsLibrary}
use distributed_service_mesh.Xds.Resources.{RouteConfiguration}
use distributed_service_mesh.Xds.Snapshot.{
  build_services, splits_or_default, Resources, History, Moment, routed,
}
use distributed_service_mesh.Base.{
  ◌∙◌, refl, ap, inr, inl, All, Option-cases, ◌^◌, List, ◌%◌, some, ℕ, ◌≡◌,
}

-- The weights of a route sum to 100, as far as a uint32 shows.
abbrev pub IsWholeUint32 : RouteConfiguration → Type 0
IsWholeUint32 rc = total_weight (config_shares rc) % 2 ^ 32 ≡ 100

abbrev pub IsSoundMoment : Moment → Type 0
IsSoundMoment m = (s : Store) × (m.routes ≡ some s) × IsSound s

validate-total : (spec : Spec) → validate spec ≡ ok tt → sum_weights spec.splits % 2 ^ 32 ≡ 100
validate-total spec good = ((validate_iff spec).0 good).total

splits-total :
    (service : Text) (m : Moment)
    → IsSoundMoment m
    → sum_weights (splits_or_default (routed service m)) % 2 ^ 32 ≡ 100
unfolding routed spec_of
splits-total service m (s, there, sound) = elim (Option-cases (spec_of service s)) [
  | inl absent ↦ rw (there, routed) (rw (absent, routed) refl)
  | inr (spec, found) ↦
      rw (there, routed)
        (rw (found, routed)
          (validate-total spec (Entries-get IsStored service s.specs sound.stored found).1))
]

module _ (lib : XdsLibrary) (h : History) (sound : (t : ℕ) → IsSoundMoment (h t)) where
  pub build_services-IsWholeUint32 :
      (t i : ℕ) (services : List Text) {res : Resources lib}
      → build_services lib h t i services ≡ ok res
      → All IsWholeUint32 res.route_configs
  build_services-IsWholeUint32 t i services e =
      build_services_induction lib h (λ _ _ _ r. All IsWholeUint32 r.route_configs) (λ _ _. tt)
        (λ t' _ service _ _ _ _ k. (
          ap (λ n. n % 2 ^ 32) (round-total lib h t' service)
              ∙ splits-total service (h t') (sound t'),
          k,
        ))
        t i services e
