-- ===== src/Xds/Snapshot.antt =====
-- internal/xds/snapshot.go: BuildSnapshot. It takes the locks of the registry and of the store anew
-- for every call, so handlers may change both between two calls: what it reads is a history, which
-- says for each call in turn what the registry, the store and the clock are then.
use distributed_service_mesh.Registry.Ops.{healthy_instances, list_services}
use distributed_service_mesh.Base.Sort.{sort_by}
use distributed_service_mesh.Routing.Store.{spec_of, Store}
use distributed_service_mesh.Xds.Resources.{
  ClusterWeight, Listener, ClusterLoadAssignment, ResourceLists, Cluster,
}
use distributed_service_mesh.Routing.Spec.{zero_spec, Spec, VersionWeight, CircuitBreaker}
use distributed_service_mesh.Base.Int.{pos}
use distributed_service_mesh.Base.Text.{text_eq, codes, Text}
use distributed_service_mesh.Base.Outcome.{err, ok, ◌>>=◌, Outcome}
use distributed_service_mesh.Xds.Build.{
  cluster_name, filter_by_version, build_cluster_load_assignment, build_listener, build_cluster,
  build_route_configuration, XdsLibrary,
}
use distributed_service_mesh.Registry.Types.{Time, Instance, InMemory, Duration}
use distributed_service_mesh.Base.{
  length, not, if◌then◌else◌, ◌^◌, suc, ◌%◌, some, ◌∷◌, ◌*◌, ◌++◌, none, ◌+◌, Option, ℕ, [], List,
}

pub record Moment : Type 0 where
  pub registry : InMemory
  -- `none` is a nil `routes`
  pub routes : Option Store
  pub now : Time

abbrev pub History : Type 0
History = ℕ → Moment

abbrev pub base_port : ℕ
base_port = 20000

-- 15 * time.Second
abbrev pub stale_after : Duration
stale_after = pos (15 * 1_000_000_000)

abbrev pub default_namespace : Text
default_namespace = codes "default"

abbrev pub no_version_split : List VersionWeight
no_version_split = record { version = []; weight = 100 } ∷ []

-- `routes.Get(svc)`, at one moment.
unfoldable pub routed : Text → Moment → Option Spec
routed service m = elim m.routes [ none ↦ none | some store ↦ spec_of service store ]

-- The spec and the splits that a service is built with.
abbrev pub spec_or_zero : Option Spec → Spec
spec_or_zero none = zero_spec
spec_or_zero (some spec) = spec

abbrev pub splits_or_default : Option Spec → List VersionWeight
splits_or_default none = no_version_split
splits_or_default (some spec) = spec.splits

-- The instances behind one split.
unfoldable pub split_instances : Moment → Text → Text → List Instance
split_instances m service version =
    let instances = healthy_instances default_namespace service stale_after m.now m.registry in
    if not (text_eq version []) then filter_by_version instances version else instances

-- What the inner loop appends for one service.
pub record SplitResources : Type 0 where
  pub clusters : List Cluster
  pub endpoints : List ClusterLoadAssignment
  pub weights : List ClusterWeight

abbrev no_splits : SplitResources
no_splits = record { clusters = []; endpoints = []; weights = [] }

-- The inner loop: the call of `HealthyInstances` for a split is one call of the history.
unfoldable pub build_splits :
    History → ℕ → Text → CircuitBreaker → List VersionWeight → SplitResources
unfolding split_instances
build_splits h t service cb [] = no_splits
build_splits h t service cb (split ∷ rest) =
    let more = build_splits h (suc t) service cb rest in
    let name = cluster_name service split.version in
    record {
      clusters = build_cluster name cb ∷ more.clusters;
      endpoints =
          build_cluster_load_assignment name (split_instances (h t) service split.version)
          ∷ more.endpoints;
      weights = record { name = name; weight = split.weight } ∷ more.weights;
    }

unfoldable pub route_config_name : Text → Text
route_config_name service = service ++ codes "-route"

unfoldable pub listener_port : ℕ → ℕ
listener_port i = (base_port + i) % 2 ^ 32

pub data BuildError (F : Type 0) : Type 0 where
  -- "build listener for %q: %w"
  build_listener_failed : Text → F → BuildError F
  -- "construct snapshot: %w"
  construct_failed : F → BuildError F
  -- "inconsistent snapshot: %w"
  inconsistent : F → BuildError F

abbrev pub wrap {ℓ κ μ} :
    {E : Type ℓ} {F : Type κ} {A : Type μ} → (E → F) → Outcome E A → Outcome F A
wrap f (ok a) = ok a
wrap f (err e) = err (f e)

module _ (lib : XdsLibrary) where
  abbrev pub Resources : Type 0
  Resources = ResourceLists lib.Any

  abbrev pub no_resources : Resources
  no_resources = record { clusters = []; endpoints = []; listeners = []; route_configs = [] }

  -- One round of the outer loop joined to the rounds after it.
  abbrev pub add_service :
      Text → Option Spec → SplitResources → Listener lib.Any → Resources → Resources
  add_service service spec built listener more = record {
    clusters = built.clusters ++ more.clusters;
    endpoints = built.endpoints ++ more.endpoints;
    listeners = listener ∷ more.listeners;
    route_configs =
        build_route_configuration (route_config_name service) service built.weights
          (spec_or_zero spec)
        ∷ more.route_configs;
  }

  -- The outer loop: from the `t`-th call on, with `i` services built. A service takes one call for
  -- its route and one for each split.
  unfoldable pub build_services :
      History → ℕ → ℕ → List Text → Outcome (BuildError lib.Failure) Resources
  unfolding build_splits routed listener_port route_config_name
  build_services h t i [] = ok no_resources
  build_services h t i (service ∷ rest) =
      let spec = routed service (h t) in
      let splits = splits_or_default spec in
      let built = build_splits h (suc t) service (spec_or_zero spec).circuit_breaker splits in
      let later = build_services h (suc t + length splits) (suc i) rest in
      do
        listener ←
            wrap (build_listener_failed service)
              (build_listener lib service (listener_port i) (route_config_name service))
        more ← later
        ok (add_service service spec built listener more)

  -- The names that the snapshot is built for, sorted once more.
  unfoldable pub services_of : History → List Text
  services_of h = sort_by (λ n. n) (list_services default_namespace (h 0).registry)

  unfoldable pub check_consistent : lib.Snapshot → Outcome (BuildError lib.Failure) lib.Snapshot
  check_consistent snap = elim (lib.inconsistency snap) [
    | none ↦ ok snap
    | some e ↦ err (inconsistent e)
  ]

  unfoldable pub build_snapshot : History → Text → Outcome (BuildError lib.Failure) lib.Snapshot
  unfolding build_services services_of check_consistent
  build_snapshot h version = do
    resources ← build_services h 1 0 (services_of h)
    snap ← wrap construct_failed (lib.new_snapshot version resources)
    check_consistent snap
