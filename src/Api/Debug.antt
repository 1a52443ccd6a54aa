-- ===== src/Api/Debug.antt =====
-- internal/api/debug_handlers.go: what the mesh knows of a service, which Envoys are connected, and
-- what is published. A handler that calls two components may see changes between the two calls, so
-- it takes each component as it is at its own call.
use distributed_service_mesh.Api.Routes.{service_in}
use distributed_service_mesh.Base.Outcome.{ok, err}
use distributed_service_mesh.Registry.Ops.{get_service}
use distributed_service_mesh.Api.Instances.{name_of}
use distributed_service_mesh.Routing.Store.{spec_of, Store}
use distributed_service_mesh.Api.Response.{
  config_body, debug_body, set_json, literal, write_json_error, envoys_body, ConfigView, EnvoyView,
  write, Recorder,
}
use distributed_service_mesh.Registry.Types.{InMemory}
use distributed_service_mesh.Api.Request.{namespace_or_default, Request}
use distributed_service_mesh.Xds.Tracker.{connected, count, ConnectedEnvoy, ConnectionTracker}
use distributed_service_mesh.Base.Dict.{Dict}
use distributed_service_mesh.Base.Text.{codes, contains, text_eq, Text}
use distributed_service_mesh.Base.{
  some, take, ◌&&◌, ◌++◌, [], length, keep_if, ◌∷◌, ◌||◌, none, leb, Bool, Option, List,
}

unfoldable pub handle_debug_service :
    Request → Dict Text Text → InMemory → Store → Recorder → Recorder
handle_debug_service req values r s w =
    let ns = namespace_or_default req.namespace in
    let name = name_of values in
    elim (get_service ns name r) [
      | err e ↦ write_json_error 404 (literal (codes "service not found")) w
      | ok instances ↦ write (debug_body name ns instances (spec_of name s)) (set_json w)
    ]

-- The loop of `handleDebugEnvoys`.
unfoldable pub views_of : List ConnectedEnvoy → List EnvoyView
views_of [] = []
views_of (c ∷ cs) =
    record { stream_id = c.stream_id; node = c.node; connected_since = c.connected_at }
    ∷ views_of cs

-- The tracker at the call of `Connected` and at that of `Count`.
unfoldable pub handle_debug_envoys : ConnectionTracker → ConnectionTracker → Recorder → Recorder
unfolding views_of
handle_debug_envoys listed counted w =
    write (envoys_body (count counted) (views_of (connected listed))) (set_json w)

unfoldable pub has_prefix : Text → Text → Bool
has_prefix s prefix = leb (length prefix) (length s) && text_eq (take (length prefix) s) prefix

-- What the program reads of a published snapshot: `GetResources` of a type, as the names of the
-- resources in the order of a range, and `GetVersion` of the clusters.
pub record SnapshotReader (Snapshot : Type 0) : Type 0 where
  pub clusters : Snapshot → List Text
  pub endpoints : Snapshot → List Text
  pub routes : Snapshot → List Text
  pub listeners : Snapshot → List Text
  pub version : Snapshot → Text

-- The test of the two loops of `handleDebugConfig`.
unfoldable pub is_cluster_of : Text → Text → Bool
unfolding has_prefix
is_cluster_of service name = text_eq name service || has_prefix name (service ++ codes "::")

unfoldable pub config_view :
    {Snapshot : Type 0} → SnapshotReader Snapshot → Text → Snapshot → Store → ConfigView
unfolding is_cluster_of
config_view reader service snap s = record {
  service = service;
  config_version = reader.version snap;
  clusters = keep_if (is_cluster_of service) (reader.clusters snap);
  endpoints = keep_if (is_cluster_of service) (reader.endpoints snap);
  has_route = contains (service ++ codes "-route") (reader.routes snap);
  has_listener = contains (service ++ codes "-listener") (reader.listeners snap);
  traffic_spec = spec_of service s;
}

unfoldable pub handle_debug_config :
    {Snapshot : Type 0}
    → SnapshotReader Snapshot
    → Dict Text Text
    → Option Snapshot
    → Store
    → Recorder
    → Recorder
unfolding config_view
handle_debug_config reader values snapshot s w = elim snapshot [
  | none ↦ write_json_error 404 (literal (codes "no snapshot has been published yet")) w
  | some snap ↦ write (config_body (config_view reader (service_in values) snap s)) (set_json w)
]
