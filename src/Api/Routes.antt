-- ===== src/Api/Routes.antt =====
-- internal/api/routing_handlers.go: the traffic specs.
use distributed_service_mesh.Base.Outcome.{ok, err}
use distributed_service_mesh.Api.Response.{
  set_json, spec_body, status_body, write, literal, of_routing, write_json_error, write_header,
  Recorder,
}
use distributed_service_mesh.Routing.Spec.{Spec}
use distributed_service_mesh.Routing.Store.{remove, spec_of, set, Store}
use distributed_service_mesh.Base.Text.{codes, Text}
use distributed_service_mesh.Base.Dict.{Dict}
use distributed_service_mesh.Api.Request.{path_value, Request}
use distributed_service_mesh.Base.{some, none}

abbrev pub service_in : Dict Text Text → Text
service_in values = path_value (codes "service") values

-- After the body is decoded: the service of the path replaces that of the body.
unfoldable pub put_decoded : Text → Spec → Store → Recorder → Recorder × Store
put_decoded name spec s w =
    let (result, s') = set (record spec { service = name }) s in
    elim result [
      | err e ↦ (write_json_error 400 (of_routing e) w, s')
      | ok _ ↦ (write (status_body (codes "route updated")) (set_json w), s')
    ]

unfoldable pub handle_put_route : Request → Dict Text Text → Store → Recorder → Recorder × Store
unfolding put_decoded
handle_put_route req values s w = elim req.spec [
  | none ↦ (write_json_error 400 (literal (codes "invalid request body")) w, s)
  | some spec ↦ put_decoded (service_in values) spec s w
]

unfoldable pub handle_get_route : Dict Text Text → Store → Recorder → Recorder
handle_get_route values s w = elim (spec_of (service_in values) s) [
  | none ↦ write_json_error 404 (literal (codes "no route configured for service")) w
  | some spec ↦ write (spec_body spec) (set_json w)
]

unfoldable pub handle_delete_route : Dict Text Text → Store → Recorder → Recorder × Store
handle_delete_route values s w = (write_header 204 w, remove (service_in values) s)
