-- ===== src/Xds/References.antt =====
-- The resources of a snapshot refer to one another: what names what.
use mathlib.Core.Path.{ap₂, subst}
use distributed_service_mesh.Base.Outcome.{ok}
use distributed_service_mesh.Xds.Rounds.{
  build_splits-names, build_services_induction, joined, round_splits,
}
use distributed_service_mesh.Xds.Snapshot.{
  route_config_name, splits_or_default, spec_or_zero, routed, build_splits, build_services,
  Resources, History,
}
use distributed_service_mesh.Routing.Spec.{VersionWeight, CircuitBreaker, Spec}
use distributed_service_mesh.Base.Text.{text_eq_refl, contains-append, Text, contains}
use distributed_service_mesh.Xds.Build.{
  cluster_name, XdsLibrary, build_route_configuration, specifier_of,
}
use distributed_service_mesh.Xds.Resources.{
  Listener, weighted_clusters, to_cluster, Route, VirtualHost, ClusterLoadAssignment, Cluster,
  ClusterWeight, ClusterSpecifier, RouteConfiguration, ResourceLists,
}
use mathlib.Core.List.{append-nil, map-append}
use distributed_service_mesh.Base.{
  sym, suc, ap, All-map, ℕ, refl, ◌∙◌, [], arith, ◌++◌, true, map, ◌∷◌, All, List, ◌≡◌,
}

abbrev pub cluster_names : List Cluster → List Text
cluster_names = map (λ c. c.name)

abbrev pub assignment_names : List ClusterLoadAssignment → List Text
assignment_names = map (λ e. e.cluster_name)

-- The weighted clusters that a specifier sends to. A single cluster takes all 100 per cent.
unfoldable pub shares : ClusterSpecifier → List ClusterWeight
shares (to_cluster name) = record { name = name; weight = 100 } ∷ []
shares (weighted_clusters ws) = ws

unfoldable pub route_shares : List Route → List ClusterWeight
unfolding shares
route_shares [] = []
route_shares (r ∷ rs) = shares r.action.specifier ++ route_shares rs

unfoldable pub host_shares : List VirtualHost → List ClusterWeight
unfolding route_shares
host_shares [] = []
host_shares (v ∷ vs) = route_shares v.routes ++ host_shares vs

-- All that a route configuration sends to.
unfoldable pub config_shares : RouteConfiguration → List ClusterWeight
unfolding host_shares
config_shares rc = host_shares rc.virtual_hosts

-- The action of a route divides the traffic as the list of weights does, also where a single
-- cluster with weight 100 is named directly.
pub shares-specifier_of : (ws : List ClusterWeight) → shares (specifier_of ws) ≡ ws
unfolding shares specifier_of
shares-specifier_of [] = refl
shares-specifier_of (w ∷ []) = ground arith
shares-specifier_of (w ∷ v ∷ ws) = refl

pub config_shares-build :
    (name host : Text) (ws : List ClusterWeight) (spec : Spec)
    → config_shares (build_route_configuration name host ws spec) ≡ ws
unfolding config_shares build_route_configuration
config_shares-build name host ws spec =
    append-nil (shares (specifier_of ws) ++ [])
    ∙ (append-nil (shares (specifier_of ws)) ∙ shares-specifier_of ws)

-- A cluster of that name is in the list.
abbrev pub IsDefined : List Cluster → ClusterWeight → Type 0
IsDefined cs w = contains w.name (cluster_names cs) ≡ true

abbrev pub AllDefined : List Cluster → RouteConfiguration → Type 0
AllDefined cs rc = All (IsDefined cs) (config_shares rc)

-- Each cluster has its load assignment, in the same order, and a route sends only to clusters that
-- are defined.
pub record IsClosed {Any : Type 0} (res : ResourceLists Any) : Type 0 where
  pub matched : cluster_names res.clusters ≡ assignment_names res.endpoints
  pub defined : All (AllDefined res.clusters) res.route_configs

IsDefined-left :
    (cs ds : List Cluster) (w : ClusterWeight) → IsDefined cs w → IsDefined (cs ++ ds) w
IsDefined-left cs ds w h =
    rw (map-append (λ (c : Cluster). c.name) cs ds)
      (ground (arith, contains-append w.name (cluster_names cs) (cluster_names ds)))

IsDefined-right :
    (cs ds : List Cluster) (w : ClusterWeight) → IsDefined ds w → IsDefined (cs ++ ds) w
IsDefined-right cs ds w h =
    rw (map-append (λ (c : Cluster). c.name) cs ds)
      (ground (arith, contains-append w.name (cluster_names cs) (cluster_names ds)))

All-own_names :
    (ws : List ClusterWeight) → All (λ w. contains w.name (map (λ v. v.name) ws) ≡ true) ws
unfolding contains
All-own_names [] = tt
All-own_names (v ∷ vs) = (
  ground (arith, text_eq_refl v.name),
  All-map (λ w. contains w.name (map (λ u. u.name) vs) ≡ true)
      (λ w. contains w.name (map (λ u. u.name) (v ∷ vs)) ≡ true) vs (λ w k. ground arith)
      (All-own_names vs),
)

-- What a service's own route sends to is among its own clusters.
All-built :
    (h : History) (t : ℕ) (service : Text) (cb : CircuitBreaker) (splits : List VersionWeight)
    → All
        (IsDefined (build_splits h t service cb splits).clusters)
        (build_splits h t service cb splits).weights
All-built h t service cb splits =
    let (a, b, c) = build_splits-names h service cb t splits in
    let built = build_splits h t service cb splits in
    subst (λ ns. All (λ w. contains w.name ns ≡ true) built.weights)
      (ap (map (λ w. w.name)) c ∙ (map-names splits ∙ sym a)) (All-own_names built.weights)
  where
    map-names :
        (sps : List VersionWeight)
        → map
            (λ (w : ClusterWeight). w.name)
            (map (λ sp. record { name = cluster_name service sp.version; weight = sp.weight }) sps)
          ≡ map (λ sp. cluster_name service sp.version) sps
    map-names [] = refl
    map-names (sp ∷ sps) = ap (λ l. cluster_name service sp.version ∷ l) (map-names sps)

module _ (lib : XdsLibrary) (h : History) where
  round-IsClosed :
      (t : ℕ) (service : Text) (listener : Listener lib.Any) (more : Resources lib)
      → IsClosed more
      → IsClosed (joined lib h t service listener more)
  unfolding round_splits
  round-IsClosed t service listener more closed =
      let spec = routed service (h t) in
      let cb = (spec_or_zero spec).circuit_breaker in
      let built = round_splits lib h t service in
      let (a, b, c) = build_splits-names h service cb (suc t) (splits_or_default spec) in
      record {
        matched =
            map-append (λ (x : Cluster). x.name) built.clusters more.clusters
            ∙ (ap₂ ◌++◌ (a ∙ sym b) closed.matched
                ∙ sym (
                    map-append (λ (x : ClusterLoadAssignment). x.cluster_name) built.endpoints
                      more.endpoints));
        defined = (
          rw
              (config_shares-build (route_config_name service) service built.weights
                (spec_or_zero spec))
              (All-map (IsDefined built.clusters) (IsDefined (built.clusters ++ more.clusters))
                built.weights (IsDefined-left built.clusters more.clusters)
                (All-built h (suc t) service cb (splits_or_default spec))),
          All-map (AllDefined more.clusters) (AllDefined (built.clusters ++ more.clusters))
              more.route_configs
              (λ rc k.
                All-map (IsDefined more.clusters) (IsDefined (built.clusters ++ more.clusters))
                  (config_shares rc) (IsDefined-right built.clusters more.clusters) k)
              closed.defined,
        );
      }

  -- Whatever the handlers do meanwhile, the built resources are closed: each cluster has its load
  -- assignment, in the same order, and each route sends only to clusters among them.
  pub build_services-IsClosed :
      (t i : ℕ) (services : List Text) {res : Resources lib}
      → build_services lib h t i services ≡ ok res
      → IsClosed res
  build_services-IsClosed t i services e =
      build_services_induction lib h (λ _ _ _ r. IsClosed r)
        (λ _ _. record { matched = refl; defined = tt })
        (λ t' _ service _ listener more _ k. round-IsClosed t' service listener more k) t i services
        e
