-- ===== src/Xds/Rounds.antt =====
-- Induction over the rounds of the loop of BuildSnapshot, and what one round appends.
use mathlib.Core.Path.{subst}
use distributed_service_mesh.Xds.Resources.{Listener}
use distributed_service_mesh.Routing.Spec.{VersionWeight, CircuitBreaker}
use distributed_service_mesh.Base.Outcome.{ok-injective, >>=-succeeds, ok, Outcome}
use distributed_service_mesh.Base.Text.{Text}
use distributed_service_mesh.Xds.Snapshot.{
  route_config_name, listener_port, build_listener_failed, splits_or_default, no_resources, routed,
  spec_or_zero, add_service, wrap, BuildError, build_splits, Resources, SplitResources,
  build_services, History,
}
use distributed_service_mesh.Xds.Build.{
  build_listener, build_cluster_load_assignment, cluster_name, build_cluster, XdsLibrary,
}
use distributed_service_mesh.Base.{refl, ap, map, length, [], ◌∷◌, ◌+◌, List, suc, ℕ, ◌≡◌}

module _ (lib : XdsLibrary) (h : History) where
  -- What the round for `service`, at the `t`-th call and with `i` services built, appends.
  unfoldable pub round_splits : ℕ → Text → SplitResources
  round_splits t service =
      build_splits h (suc t) service (spec_or_zero (routed service (h t))).circuit_breaker
        (splits_or_default (routed service (h t)))

  abbrev pub next_call : ℕ → Text → ℕ
  next_call t service = suc t + length (splits_or_default (routed service (h t)))

  abbrev pub listener_of : ℕ → Text → Outcome (BuildError lib.Failure) (Listener lib.Any)
  listener_of i service =
      wrap (build_listener_failed service)
        (build_listener lib service (listener_port i) (route_config_name service))

  abbrev pub joined : ℕ → Text → Listener lib.Any → Resources lib → Resources lib
  joined t service listener more =
      add_service lib service (routed service (h t)) (round_splits t service) listener more

  build_services-cons :
      (t i : ℕ) (service : Text) (rest : List Text) {res : Resources lib}
      → build_services lib h t i (service ∷ rest) ≡ ok res
      → (listener : Listener lib.Any) × (more : Resources lib) × (listener_of i service
          ≡ ok listener)
        × (build_services lib h (next_call t service) (suc i) rest ≡ ok more)
        × (joined t service listener more ≡ res)
  unfolding build_services round_splits
  build_services-cons t i service rest e =
      let (listener, l, e') = >>=-succeeds (listener_of i service) _ e in
      let (more, m, e'') =
        >>=-succeeds (build_services lib h (next_call t service) (suc i) rest) _ e' in
      (listener, more, l, m, ok-injective e'')

  module _ {κ} (P : ℕ → ℕ → List Text → Resources lib → Type κ)
      (base : (t i : ℕ) → P t i [] (no_resources lib))
      (round : (t i : ℕ) (service : Text) (rest : List Text) (listener : Listener lib.Any)
          (more : Resources lib)
        → listener_of i service ≡ ok listener
        → P (next_call t service) (suc i) rest more
        → P t i (service ∷ rest) (joined t service listener more)) where
    -- What holds with no service and is kept by a round holds of all that is built.
    pub build_services_induction :
        (t i : ℕ) (services : List Text) {res : Resources lib}
        → build_services lib h t i services ≡ ok res
        → P t i services res
    unfolding build_services
    build_services_induction t i [] {res} e = subst (P t i []) (ok-injective e) (base t i)
    build_services_induction t i (service ∷ rest) e =
        let (listener, more, l, m, j) = build_services-cons t i service rest e in
        subst (P t i (service ∷ rest)) j (
          round t i service rest listener more l
            (build_services_induction (next_call t service) (suc i) rest m))

module _ (h : History) (service : Text) (cb : CircuitBreaker) where
  -- The names of the clusters, of the assignments and of the weights of a service, in order.
  pub build_splits-names :
      (t : ℕ) (splits : List VersionWeight)
      → (map (λ c. c.name) (build_splits h t service cb splits).clusters
          ≡ map (λ sp. cluster_name service sp.version) splits)
        × (map (λ e. e.cluster_name) (build_splits h t service cb splits).endpoints
            ≡ map (λ sp. cluster_name service sp.version) splits)
        × ((build_splits h t service cb splits).weights
            ≡ map
                (λ sp. record { name = cluster_name service sp.version; weight = sp.weight })
                splits)
  unfolding build_splits build_cluster build_cluster_load_assignment
  build_splits-names t [] = (refl, refl, refl)
  build_splits-names t (sp ∷ rest) =
      let (a, b, c) = build_splits-names (suc t) rest in
      (
        ap (λ l. cluster_name service sp.version ∷ l) a,
        ap (λ l. cluster_name service sp.version ∷ l) b,
        ap (λ l. record { name = cluster_name service sp.version; weight = sp.weight } ∷ l) c,
      )
