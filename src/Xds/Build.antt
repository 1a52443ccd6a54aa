-- ===== src/Xds/Build.antt =====
-- internal/xds/snapshot.go: the functions that build one resource each.
use distributed_service_mesh.Base.Int.{to_uint32, pos}
use distributed_service_mesh.Xds.Resources.{
  round_robin, weighted_clusters, to_cluster, eds, RouteConfiguration, RouteAction, ads_source,
  ResourceLists, ClusterSpecifier, ClusterWeight, ClusterLoadAssignment, Listener,
  HttpConnectionManager, Cluster, LbEndpoint,
}
use distributed_service_mesh.Routing.Spec.{Spec, CircuitBreaker}
use distributed_service_mesh.Registry.Types.{Instance}
use distributed_service_mesh.Base.Text.{codes, text_eq, Text}
use distributed_service_mesh.Base.Outcome.{ok, ◌>>=◌, Outcome}
use distributed_service_mesh.Base.{
  ◌&&◌, none, [], ◌*◌, some, ◌==◌, ◌++◌, ltb, map, not, Bool, Option, if◌then◌else◌, ◌∷◌, List, ℕ,
}

unfoldable pub cluster_name : Text → Text → Text
cluster_name service version =
    if text_eq version [] then service else service ++ codes "::" ++ version

unfoldable pub filter_by_version : List Instance → Text → List Instance
filter_by_version [] version = []
filter_by_version (inst ∷ rest) version =
    let out = filter_by_version rest version in
    if text_eq inst.version version then inst ∷ out else out

-- `if x > 0 { field = wrapperspb.UInt32(x) }`
abbrev pub bound : ℕ → Option ℕ
bound x = if ltb 0 x then some x else none

-- `cb != (routing.CircuitBreaker{})`
unfoldable pub is_set : CircuitBreaker → Bool
is_set cb = not (
    (cb.max_connections == 0)
    && (cb.max_pending_requests == 0)
    && (cb.max_requests == 0)
    && (cb.max_retries == 0))

unfoldable pub build_cluster : Text → CircuitBreaker → Cluster
unfolding is_set
build_cluster name cb = record {
  name = name;
  connect_timeout = pos (2 * 1_000_000_000);
  discovery_type = eds;
  eds_config = ads_source;
  lb_policy = round_robin;
  circuit_breakers =
      if is_set cb
      then some (
          record {
            max_connections = bound cb.max_connections;
            max_pending_requests = bound cb.max_pending_requests;
            max_requests = bound cb.max_requests;
            max_retries = bound cb.max_retries;
          }
          ∷ [])
      else none;
}

unfoldable pub lb_endpoint : Instance → LbEndpoint
lb_endpoint inst = record {
  endpoint = record { address = inst.address; port_value = to_uint32 inst.port };
}

unfoldable pub build_cluster_load_assignment : Text → List Instance → ClusterLoadAssignment
unfolding lb_endpoint
build_cluster_load_assignment name instances = record {
  cluster_name = name;
  endpoints = record { lb_endpoints = map lb_endpoint instances } ∷ [];
}

-- `len(weightedClusters) == 1 && weightedClusters[0].Weight.GetValue() == 100`
unfoldable pub specifier_of : List ClusterWeight → ClusterSpecifier
specifier_of (w ∷ []) = if w.weight == 100 then to_cluster w.name else weighted_clusters (w ∷ [])
specifier_of ws = weighted_clusters ws

unfoldable pub route_action : List ClusterWeight → Spec → RouteAction
unfolding specifier_of
route_action ws spec = record {
  specifier = specifier_of ws;
  timeout = if ltb 0 spec.timeout_ms then some (pos (spec.timeout_ms * 1_000_000)) else none;
  retry_policy =
      if not (text_eq spec.retry_on [])
      then some (record { retry_on = spec.retry_on; num_retries = spec.num_retries })
      else none;
}

unfoldable pub build_route_configuration :
    Text → Text → List ClusterWeight → Spec → RouteConfiguration
unfolding route_action
build_route_configuration name host ws spec = record {
  name = name;
  virtual_hosts =
      record {
        name = host;
        domains = codes "*" ∷ [];
        routes = record { prefix = codes "/"; action = route_action ws spec } ∷ [];
      }
      ∷ [];
}

-- What the program takes from go-control-plane and protobuf: packing a message, which may fail,
-- and snapshots of resources under a version, with their consistency check.
pub record XdsLibrary : Type 1 where
  pub Failure : Type 0
  pub Any : Type 0
  -- `anypb.New(&routerv3.Router{})`
  pub pack_router : Outcome Failure Any
  -- `anypb.New(hcm)`
  pub pack_manager : HttpConnectionManager Any → Outcome Failure Any
  pub Snapshot : Type 0
  -- `cachev3.NewSnapshot`
  pub new_snapshot : Text → ResourceLists Any → Outcome Failure Snapshot
  -- `snap.Consistent()`, `none` for nil
  pub inconsistency : Snapshot → Option Failure

module _ (lib : XdsLibrary) where
  unfoldable pub connection_manager : Text → Text → lib.Any → HttpConnectionManager lib.Any
  connection_manager service route_config router = record {
    stat_prefix = service;
    rds = record { route_config_name = route_config; config_source = ads_source };
    http_filters = record { name = codes "envoy.filters.http.router"; typed_config = router } ∷ [];
  }

  unfoldable pub listener_with : Text → ℕ → lib.Any → Listener lib.Any
  listener_with service port manager = record {
    name = service ++ codes "-listener";
    address = record { address = codes "0.0.0.0"; port_value = port };
    filter_chains =
        record {
          filters =
              record {
                name = codes "envoy.filters.network.http_connection_manager";
                typed_config = manager;
              }
              ∷ [];
        }
        ∷ [];
  }

  unfoldable pub build_listener : Text → ℕ → Text → Outcome lib.Failure (Listener lib.Any)
  unfolding connection_manager listener_with
  build_listener service port route_config = do
    router ← lib.pack_router
    manager ← lib.pack_manager (connection_manager service route_config router)
    ok (listener_with service port manager)
