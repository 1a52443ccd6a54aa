-- ===== src/Xds/Resources.antt =====
-- internal/xds/snapshot.go: the Envoy messages that it fills in, with the fields that it sets. The
-- messages are generated code of a library. A packed message (`anypb.Any`) is a parameter.
use distributed_service_mesh.Registry.Types.{Duration}
use distributed_service_mesh.Base.Text.{Text}
use distributed_service_mesh.Base.{ℕ, List, Option}

pub data ApiVersion : Type 0 where
  v3 : ApiVersion

-- `ConfigSourceSpecifier`: the aggregated stream.
pub data SourceSpecifier : Type 0 where
  ads : SourceSpecifier

pub record ConfigSource : Type 0 where
  pub resource_api_version : ApiVersion
  pub specifier : SourceSpecifier

abbrev pub ads_source : ConfigSource
ads_source = record { resource_api_version = v3; specifier = ads }

pub data DiscoveryType : Type 0 where
  eds : DiscoveryType

pub data LbPolicy : Type 0 where
  round_robin : LbPolicy

-- `none` is a nil wrapper: the field is not set.
pub record Thresholds : Type 0 where
  pub max_connections : Option ℕ
  pub max_pending_requests : Option ℕ
  pub max_requests : Option ℕ
  pub max_retries : Option ℕ

pub record Cluster : Type 0 where
  pub name : Text
  pub connect_timeout : Duration
  pub discovery_type : DiscoveryType
  pub eds_config : ConfigSource
  pub lb_policy : LbPolicy
  pub circuit_breakers : Option (List Thresholds)

pub record SocketAddress : Type 0 where
  pub address : Text
  pub port_value : ℕ

-- An `LbEndpoint` holds one endpoint with its address.
pub record LbEndpoint : Type 0 where
  pub endpoint : SocketAddress

pub record LocalityLbEndpoints : Type 0 where
  pub lb_endpoints : List LbEndpoint

pub record ClusterLoadAssignment : Type 0 where
  pub cluster_name : Text
  pub endpoints : List LocalityLbEndpoints

pub record ClusterWeight : Type 0 where
  pub name : Text
  pub weight : ℕ

pub data ClusterSpecifier : Type 0 where
  to_cluster : Text → ClusterSpecifier
  weighted_clusters : List ClusterWeight → ClusterSpecifier

pub record RetryPolicy : Type 0 where
  pub retry_on : Text
  pub num_retries : ℕ

pub record RouteAction : Type 0 where
  pub specifier : ClusterSpecifier
  pub timeout : Option Duration
  pub retry_policy : Option RetryPolicy

-- A route that matches a path prefix.
pub record Route : Type 0 where
  pub prefix : Text
  pub action : RouteAction

pub record VirtualHost : Type 0 where
  pub name : Text
  pub domains : List Text
  pub routes : List Route

pub record RouteConfiguration : Type 0 where
  pub name : Text
  pub virtual_hosts : List VirtualHost

-- A filter by name, with its packed configuration; `HttpFilter` and `listenerv3.Filter` alike.
pub record Filter (Any : Type 0) : Type 0 where
  pub name : Text
  pub typed_config : Any

pub record Rds : Type 0 where
  pub route_config_name : Text
  pub config_source : ConfigSource

pub record HttpConnectionManager (Any : Type 0) : Type 0 where
  pub stat_prefix : Text
  pub rds : Rds
  pub http_filters : List (Filter Any)

pub record FilterChain (Any : Type 0) : Type 0 where
  pub filters : List (Filter Any)

pub record Listener (Any : Type 0) : Type 0 where
  pub name : Text
  pub address : SocketAddress
  pub filter_chains : List (FilterChain Any)

-- The four lists that a snapshot is made of.
pub record ResourceLists (Any : Type 0) : Type 0 where
  pub clusters : List Cluster
  pub endpoints : List ClusterLoadAssignment
  pub listeners : List (Listener Any)
  pub route_configs : List RouteConfiguration
