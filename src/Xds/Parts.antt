-- ===== src/Xds/Parts.antt =====
-- internal/xds/snapshot.go: what is built for a service is part of the snapshot.
use mathlib.Core.Path.{subst}
use distributed_service_mesh.Registry.Ops.{list_services}
use distributed_service_mesh.Registry.Types.{key}
use distributed_service_mesh.Xds.Rounds.{build_services_induction, round_splits, joined}
use distributed_service_mesh.Base.Outcome.{ok}
use distributed_service_mesh.Registry.Services.{
  list_services_complete, list_services-IsAscending, IsPopulated, itself,
}
use distributed_service_mesh.Xds.Resources.{ClusterLoadAssignment, Listener}
use distributed_service_mesh.Registry.Validity.{IsValid}
use distributed_service_mesh.Base.Text.{text_eq_iff, text_eq, Text}
use distributed_service_mesh.Base.Sort.{IsAscending-IsDistinct, find-sort_by, find}
use distributed_service_mesh.Xds.Snapshot.{
  default_namespace, build_services, Resources, services_of, History,
}
use distributed_service_mesh.Xds.Build.{XdsLibrary}
use distributed_service_mesh.Base.{
  Has-append_right, inr, sym, ◌∙◌, Has-append_left, inl, arith, Bool-cases, Has, [], some, ◌∷◌, ◌≢◌,
  ℕ, List, ◌≡◌,
}

module _ (lib : XdsLibrary) (h : History) where
  -- The load assignments of a service that is listed are those of some moment.
  abbrev pub Covers : List Text → Resources lib → Type 0
  Covers services res =
      (service : Text)
      → find itself service services ≡ some service
      → (t : ℕ) × ((a : ClusterLoadAssignment)
          → Has (round_splits lib h t service).endpoints a
          → Has res.endpoints a)

  Covers-round :
      (t : ℕ) (service : Text) (rest : List Text) (listener : Listener lib.Any)
      (more : Resources lib)
      → Covers rest more
      → Covers (service ∷ rest) (joined lib h t service listener more)
  unfolding find
  Covers-round t service rest listener more k wanted found =
      let built = (round_splits lib h t service).endpoints in
      elim (Bool-cases (text_eq service wanted)) [
        | inl here ↦
            let same : service ≡ wanted = (text_eq_iff service wanted).0 here in
            (
              t,
              λ a there.
                  Has-append_left built more.endpoints
                    (subst (λ s. Has (round_splits lib h t s).endpoints a) (sym same) there),
            )
        | inr later ↦
            let (t', covered) = k wanted (ground (arith, later, found)) in
            (t', λ a there. Has-append_right built more.endpoints (covered a there))
      ]

  pub build_services-Covers :
      (t i : ℕ) (services : List Text) {res : Resources lib}
      → build_services lib h t i services ≡ ok res
      → Covers services res
  unfolding find
  build_services-Covers t i services e =
      build_services_induction lib h (λ _ _ names r. Covers names r)
        (λ _ _ service found. absurd (ground (arith, found)))
        (λ t' _ service rest listener more _ k. Covers-round t' service rest listener more k) t i
        services e

  -- A populated service of the first moment is among the services.
  pub services_of-listed :
      (service : Text)
      → IsValid (h 0).registry
      → service ≢ []
      → IsPopulated (key default_namespace service) (h 0).registry
      → find itself service (services_of lib h) ≡ some service
  unfolding services_of
  services_of-listed service v named populated =
      let names = list_services default_namespace (h 0).registry in
      find-sort_by itself service names (
        IsAscending-IsDistinct itself names
          (list_services-IsAscending default_namespace (h 0).registry v))
      ∙ (list_services_complete default_namespace service (h 0).registry v).1 (named, populated)
