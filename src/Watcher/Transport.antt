-- ===== src/Watcher/Transport.antt =====
-- The watcher's calls on the server of the management API: what net/http makes of a call, for URLs
-- in which nothing is escaped.
use mathlib.Core.Option
use distributed_service_mesh.Registry.Namespaces.{slash_byte}
use distributed_service_mesh.Api.Server.{serve, Server, Circumstance}
use distributed_service_mesh.Api.Request.{Request, RegisterServiceRequest}
use distributed_service_mesh.Api.Mux.{Target}
use distributed_service_mesh.Base.Text.{Text}
use distributed_service_mesh.Api.Debug.{SnapshotReader}
use distributed_service_mesh.Watcher.Calls.{Network, HttpCall, RegistrationBody}
use distributed_service_mesh.Base.{
  none, suc, some, ◌==◌, Option, if◌then◌else◌, ℕ, [], length, ◌∷◌, drop, List,
}

-- The segments of a path, between its slashes; the first is what stands before the first slash.
unfoldable pub split_path : Text → List Text
split_path [] = [] ∷ []
split_path (b ∷ bs) = elim (split_path bs) [
  | [] ↦ []
  | s ∷ rest ↦ if b == slash_byte then [] ∷ s ∷ rest else (b ∷ s) ∷ rest
]

abbrev pub tail_of : List Text → List Text
tail_of [] = []
tail_of (s ∷ rest) = rest

-- The URL past the address of the server, in segments.
unfoldable pub path_in : Text → Text → List Text
unfolding split_path
path_in addr url = tail_of (split_path (drop (length addr) url))

-- What decoding a marshalled body gives: the keys that it lacks have their zero values.
unfoldable pub decoded : RegistrationBody → RegisterServiceRequest
decoded body = record {
  service_name = body.service_name;
  namespace = [];
  instance_id = body.instance_id;
  address = body.address;
  port = body.port;
  protocol = [];
  version = [];
  metadata = [];
}

unfoldable pub request_of : Text → HttpCall → Request
unfolding path_in decoded
request_of addr call = record {
  method = call.method;
  path = path_in addr call.url;
  namespace = [];
  healthy = [];
  correlation_id = [];
  registration = Option.map decoded call.body;
  spec = none;
}

-- The server as a network that loses nothing: the world is the number of requests so far and the
-- server, and each request has the circumstance of its number.
module _ {Snapshot : Type 0} (reader : SnapshotReader Snapshot) (page : Target → Request → ℕ)
    (weather : ℕ → Circumstance Snapshot) where
  unfoldable pub send_call :
      Text → HttpCall → ℕ × Server Snapshot → Option ℕ × (ℕ × Server Snapshot)
  unfolding request_of
  send_call addr call (n, s) =
      let (response, s') = serve reader page (weather n) (request_of addr call) s in
      (some response.head.status, (suc n, s'))

  abbrev pub direct : Text → Network
  direct addr = record { World = ℕ × Server Snapshot; send = send_call addr }
