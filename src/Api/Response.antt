-- ===== src/Api/Response.antt =====
-- internal/api/server.go: the response that a handler writes through `statusRecorder`, and the
-- helpers that write one. JSON text is left as the value that is encoded.
use distributed_service_mesh.Routing.Spec.{Spec}
use distributed_service_mesh.Registry.Types.{Instance, Time}
use distributed_service_mesh.Base.Text.{Text}
use distributed_service_mesh.Base.Int.{ℤ}
use distributed_service_mesh.Base.{none, [], List, false, ◌∷◌, Option, Bool, some, ℕ, ◌++◌, true}
use distributed_service_mesh.Registry
use distributed_service_mesh.Routing

-- The message of an error body: a literal of the source, or what an error prints.
pub data Message : Type 0 where
  literal : Text → Message
  of_registry : Registry.Types.Error → Message
  of_routing : Routing.Spec.Error → Message

pub record EnvoyView : Type 0 where
  pub stream_id : ℤ
  pub node : Text
  pub connected_since : Time

-- The keys of the map that `handleDebugConfig` encodes.
pub record ConfigView : Type 0 where
  pub service : Text
  pub config_version : Text
  pub clusters : List Text
  pub endpoints : List Text
  pub has_route : Bool
  pub has_listener : Bool
  pub traffic_spec : Option Spec

pub data Body : Type 0 where
  status_body : Text → Body
  error_body : Message → Body
  instances_body : Text → List Instance → Body
  spec_body : Spec → Body
  debug_body : Text → Text → List Instance → Option Spec → Body
  envoys_body : ℕ → List EnvoyView → Body
  config_body : ConfigView → Body
  -- what net/http, promhttp or pprof writes
  library_body : Body

-- What goes out with the status line.
pub record Head : Type 0 where
  pub status : ℕ
  pub is_json : Bool
  pub correlation_id : Text

-- `statusRecorder` and the writer below it: `status` is the recorder's own, `is_json` and
-- `correlation_id` are the header map so far, and `sent` is the head once it has gone out.
pub record Recorder : Type 0 where
  pub status : ℕ
  pub is_json : Bool
  pub correlation_id : Text
  pub sent : Option Head
  pub body : List Body

abbrev pub new_recorder : Text → Recorder
new_recorder id = record {
  status = 200;
  is_json = false;
  correlation_id = id;
  sent = none;
  body = [];
}

-- `w.Header().Set("Content-Type", "application/json")`
unfoldable pub set_json : Recorder → Recorder
set_json w = record w { is_json = true }

-- The head goes out once; a later one is ignored.
abbrev pub send_head : ℕ → Recorder → Option Head
send_head status w = elim w.sent [
  | some head ↦ some head
  | none ↦ some (record { status = status; is_json = w.is_json; correlation_id = w.correlation_id })
]

-- `statusRecorder.WriteHeader`
unfoldable pub write_header : ℕ → Recorder → Recorder
write_header status w = record w { status = status; sent = send_head status w }

-- `Write`, through `json.NewEncoder(w).Encode`: it sends a head with status 200 if none is out.
unfoldable pub write : Body → Recorder → Recorder
write b w = record w { sent = send_head 200 w; body = w.body ++ b ∷ [] }

-- What net/http does when the handler has returned.
unfoldable pub head_of : Recorder → Head
head_of w = elim w.sent [
  | some head ↦ head
  | none ↦ record { status = 200; is_json = w.is_json; correlation_id = w.correlation_id }
]

unfoldable pub write_json_error : ℕ → Message → Recorder → Recorder
unfolding set_json write_header write
write_json_error status msg w = write (error_body msg) (write_header status (set_json w))
