-- ===== src/Api/Instances.antt =====
-- internal/api/registry_handlers.go: registration, heartbeats and listings. A handler takes the
-- values of its path and the reading of the clock, and returns what it wrote and the registry.
use distributed_service_mesh.Registry.Ops.{
  register, healthy_instances, deregister, get_service, heartbeat,
}
use distributed_service_mesh.Base.Int.{pos}
use distributed_service_mesh.Api.Response.{
  set_json, write_header, instances_body, status_body, literal, of_registry, write_json_error,
  write, Recorder,
}
use distributed_service_mesh.Base.Text.{text_eq, codes, Text}
use distributed_service_mesh.Base.Outcome.{err, ok, Outcome}
use distributed_service_mesh.Base.Dict.{Dict}
use distributed_service_mesh.Api.Request.{
  path_value, RegisterServiceRequest, namespace_or_default, Request,
}
use distributed_service_mesh.Registry.Types.{
  missing_names, not_found, Time, Instance, InMemory, Duration,
}
use distributed_service_mesh.Base.{some, ◌||◌, [], if◌then◌else◌, none, false, ◌*◌, List}
use distributed_service_mesh.Registry

-- 15 * time.Second
abbrev pub default_stale_after : Duration
default_stale_after = pos (15 * 1_000_000_000)

-- The `registry.Instance` of a request; its other fields have their zero values.
unfoldable pub instance_of : RegisterServiceRequest → Instance
unfolding namespace_or_default
instance_of req = record {
  service_name = req.service_name;
  namespace = namespace_or_default req.namespace;
  instance_id = req.instance_id;
  address = req.address;
  port = req.port;
  protocol = req.protocol;
  version = req.version;
  metadata = req.metadata;
  healthy = false;
  registered_at = 0;
  last_heartbeat = 0;
}

-- After the body is decoded.
unfoldable pub register_decoded :
    RegisterServiceRequest → Time → InMemory → Recorder → Recorder × InMemory
unfolding instance_of
register_decoded req now r w =
    if text_eq req.service_name [] || text_eq req.instance_id []
    then (write_json_error 400 (literal (codes "service_name and instance_id are required")) w, r)
    else let (result, r') = register (instance_of req) now r in
      elim result [
        | err e ↦ (write_json_error 400 (of_registry e) w, r')
        | ok _ ↦ (write (status_body (codes "registered")) (write_header 201 w), r')
      ]

unfoldable pub handle_register_service : Request → Time → InMemory → Recorder → Recorder × InMemory
unfolding register_decoded
handle_register_service req now r w = elim req.registration [
  | none ↦ (write_json_error 400 (literal (codes "invalid request body")) w, r)
  | some decoded ↦ register_decoded decoded now r w
]

-- What the other handlers of this file read first.
abbrev pub name_of : Dict Text Text → Text
name_of values = path_value (codes "name") values

abbrev pub id_in : Dict Text Text → Text
id_in values = path_value (codes "id") values

unfoldable pub handle_deregister_instance :
    Request → Dict Text Text → InMemory → Recorder → Recorder × InMemory
handle_deregister_instance req values r w =
    let ns = namespace_or_default req.namespace in
    let (result, r') = deregister ns (name_of values) (id_in values) r in
    elim result [
      | err e ↦ (write_json_error 500 (of_registry e) w, r')
      | ok _ ↦ (write_header 204 w, r')
    ]

-- The `switch` on the error of a heartbeat.
unfoldable pub heartbeat_reply : Outcome Registry.Types.Error (Unit {0}) → Recorder → Recorder
heartbeat_reply (ok _) w = write (status_body (codes "ok")) (write_header 200 w)
heartbeat_reply (err not_found) w = write_json_error 404 (literal (codes "instance not found")) w
heartbeat_reply (err missing_names) w = write_json_error 500 (of_registry missing_names) w

unfoldable pub handle_heartbeat :
    Request → Dict Text Text → Time → InMemory → Recorder → Recorder × InMemory
unfolding heartbeat_reply
handle_heartbeat req values now r w =
    let ns = namespace_or_default req.namespace in
    let (result, r') = heartbeat ns (name_of values) (id_in values) now r in
    (heartbeat_reply result w, r')

-- The end of the two listings. An error other than `ErrNotFound` leaves the instances nil.
unfoldable pub instances_reply :
    Text → Outcome Registry.Types.Error (List Instance) → Recorder → Recorder
instances_reply name (ok xs) w = write (instances_body name xs) (set_json w)
instances_reply name (err not_found) w =
    write_json_error 404 (literal (codes "service not found")) w
instances_reply name (err missing_names) w = write (instances_body name []) (set_json w)

unfoldable pub handle_get_service : Request → Dict Text Text → InMemory → Recorder → Recorder
unfolding instances_reply
handle_get_service req values r w =
    let ns = namespace_or_default req.namespace in
    instances_reply (name_of values) (get_service ns (name_of values) r) w

unfoldable pub handle_list_instances :
    Request → Dict Text Text → Time → InMemory → Recorder → Recorder
unfolding instances_reply
handle_list_instances req values now r w =
    let ns = namespace_or_default req.namespace in
    let name = name_of values in
    let healthy_only = text_eq req.healthy (codes "true") in
    if healthy_only
    then write (instances_body name (healthy_instances ns name default_stale_after now r))
        (set_json w)
    else instances_reply name (get_service ns name r) w
