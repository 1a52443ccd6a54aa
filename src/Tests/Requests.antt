-- ===== src/Tests/Requests.antt =====
-- Api: a server and requests to it, for the runs of Api, Watcher and Delivery.
use distributed_service_mesh.Xds.Tracker.{new_tracker}
use distributed_service_mesh.Routing.Store.{new_store}
use distributed_service_mesh.Registry.Types.{new}
use distributed_service_mesh.Base.Int.{pos}
use distributed_service_mesh.Tests.Data.{canary}
use distributed_service_mesh.Api.Trips.{route_path}
use distributed_service_mesh.Api.Paths.{instance_path, heartbeat_path, services_path, service_path}
use distributed_service_mesh.Base.Text.{Text, codes}
use distributed_service_mesh.Api.Debug.{SnapshotReader}
use distributed_service_mesh.Api.Request.{RegisterServiceRequest, Request}
use distributed_service_mesh.Api.Mux.{Target}
use distributed_service_mesh.Api.Server.{serve, Server, Circumstance}
use distributed_service_mesh.Base.{true, none, ◌∷◌, [], some, ℕ, List}

-- A snapshot is the names of its clusters.
abbrev pub names_reader : SnapshotReader (List Text)
names_reader = record {
  clusters = λ names. names;
  endpoints = λ names. names;
  routes = λ names. names;
  listeners = λ names. names;
  version = λ _. codes "7";
}

abbrev pub page : Target → Request → ℕ
page _ _ = 200

abbrev pub start : Server (List Text)
start = record {
  ready = true;
  registry = new;
  routes = new_store;
  last_snapshot = some (codes "web::v1" ∷ codes "web-route" ∷ codes "webshop::v1" ∷ []);
  envoys = new_tracker true true;
}

abbrev pub at_nine : Circumstance (List Text)
at_nine = record {
  now = 9;
  later = start;
  random = some (0x00 ∷ 0x11 ∷ 0x22 ∷ 0x33 ∷ 0x44 ∷ 0x55 ∷ 0x66 ∷ 0x77 ∷ []);
}

abbrev pub empty_request : Request
empty_request = record {
  method = codes "GET";
  path = [];
  namespace = [];
  healthy = [];
  correlation_id = [];
  registration = none;
  spec = none;
}

abbrev pub registration : RegisterServiceRequest
registration = record {
  service_name = codes "web";
  namespace = [];
  instance_id = codes "i1";
  address = codes "10.0.0.1";
  port = pos 9000;
  protocol = codes "http";
  version = codes "v1";
  metadata = [];
}

abbrev pub post_web : Request
post_web = record empty_request {
  method = codes "POST";
  path = services_path;
  registration = some registration;
}

abbrev pub get_web : Request
get_web = record empty_request { path = service_path (codes "web") }

abbrev pub beat_web : Request
beat_web = record empty_request {
  method = codes "POST";
  path = heartbeat_path (codes "web") (codes "i1");
  correlation_id = codes "abc";
}

abbrev pub delete_web : Request
delete_web = record empty_request {
  method = codes "DELETE";
  path = instance_path (codes "web") (codes "i1");
}

abbrev pub put_web : Request
put_web = record empty_request {
  method = codes "PUT";
  path = route_path (codes "web");
  spec = some canary;
}

abbrev pub get_web_route : Request
get_web_route = record empty_request { path = route_path (codes "web") }

abbrev pub registered_server : Server (List Text)
registered_server = (serve names_reader page at_nine post_web start).1

abbrev pub get_registered : Request
get_registered = record empty_request {
  path = codes "v1" ∷ codes "debug" ∷ codes "config" ∷ codes "web" ∷ [];
}
