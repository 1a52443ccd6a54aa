-- ===== src/Tests/Api.antt =====
-- Api: a registration, a heartbeat, a route and a listing through the whole server.
use distributed_service_mesh.Api.Expected.{registered_as, namespace_for}
use distributed_service_mesh.Registry.View.{at}
use distributed_service_mesh.Api.Logged.{serve-logged}
use distributed_service_mesh.Logging.{correlation_id_key, new_logger, from_context}
use distributed_service_mesh.Api.Correlation.{new_correlation_id_injective, new_correlation_id}
use distributed_service_mesh.Tests.Requests.{
  names_reader, page, start, at_nine, empty_request, registration, post_web, get_web, beat_web,
  delete_web, put_web, get_web_route, registered_server, get_registered,
}
use distributed_service_mesh.Base.Dict.{delete, put, get}
use distributed_service_mesh.Api.Routes.{handle_get_route, handle_put_route}
use distributed_service_mesh.Xds.Tracker.{count, connected}
use distributed_service_mesh.Api.Answers.{
  heartbeat-answers, register-answers, deregister-answers, IsNamed,
}
use distributed_service_mesh.Registry.Listing.{id_of}
use distributed_service_mesh.Api.Counting.{serve-counted}
use distributed_service_mesh.Base.Sort.{sort_by, find}
use distributed_service_mesh.Api.Instances.{
  handle_list_instances, handle_deregister_instance, handle_get_service, handle_heartbeat,
  handle_register_service, instance_of,
}
use distributed_service_mesh.Base.Outcome.{ok}
use distributed_service_mesh.Registry.Ops.{
  sorted_instances, get_service, healthy_instances, stamped, heartbeat, deregister, register,
}
use distributed_service_mesh.Registry.View.{refreshed, lookup}
use distributed_service_mesh.Routing.Store.{spec_of, set, IsSound-new}
use distributed_service_mesh.Registry.Validity.{new-IsValid}
use distributed_service_mesh.Tests.Data.{canary-validate, canary}
use distributed_service_mesh.Api.Trips.{register-get_service, put_route-get_route}
use distributed_service_mesh.Api.Paths.{heartbeat_path}
use distributed_service_mesh.Api.Response.{
  head_of, write_json_error, instances_body, config_body, spec_body,
}
use distributed_service_mesh.Registry.Types.{key, new, Instance}
use distributed_service_mesh.Base.Text.{contains, text_eq, Text, codes}
use distributed_service_mesh.Api.Debug.{has_prefix, handle_debug_envoys, handle_debug_config}
use distributed_service_mesh.Routing.Spec.{check_total, check_splits, validate}
use distributed_service_mesh.Api.Server.{request_context, handle, serve_all, Circumstance, serve}
use distributed_service_mesh.Api.Requests.{serve-safe, IsHealthy}
use distributed_service_mesh.Api.Request.{
  path_value, namespace_or_default, Request, RegisterServiceRequest,
}
use distributed_service_mesh.Api.Mux.{
  match_method, patterns, readyz, dispatch, lit, is_exact, exact, match_pattern,
}
use distributed_service_mesh.Base.{
  ◌++◌, Option, ◌⊎◌, refl, false, none, arith, true, if◌then◌else◌, inl, some, keep_if, ◌≢◌, ◌∷◌,
  [], List, get_elem?, ◌≡◌,
}

tests : Unit {0}
unfolding serve serve_all handle dispatch match_method text_eq handle_register_service
    handle_heartbeat handle_get_service handle_put_route handle_get_route handle_debug_config
    handle_deregister_instance handle_list_instances healthy_instances handle_debug_envoys
    has_prefix path_value write_json_error head_of register stamped heartbeat get_service
    sorted_instances sort_by key get put set spec_of validate check_splits check_total connected
    count contains namespace_or_default deregister delete
tests = tt

head_of_unknown :
    (serve names_reader page at_nine
      (record empty_request { path = codes "nowhere" ∷ [] })
      start).0.head.status
    ≡ 404
unfolding tests
head_of_unknown = refl

wrong_method :
    (serve names_reader page at_nine
      (record get_web { method = codes "PATCH" })
      start).0.head.status
    ≡ 405
unfolding tests
wrong_method = refl

-- The configuration of web lists its own clusters, and not those of webshop.
config_of_web :
    (serve names_reader page at_nine get_registered start).0.body
    ≡ config_body (record {
      service = codes "web";
      config_version = codes "7";
      clusters = codes "web::v1" ∷ [];
      endpoints = codes "web::v1" ∷ [];
      has_route = true;
      has_listener = false;
      traffic_spec = none;
    })
      ∷ []
unfolding tests
config_of_web = refl

beat_status : (serve names_reader page at_nine beat_web registered_server).0.head.status ≡ 200
unfolding tests
beat_status = refl

web-ne : codes "web" ≢ []
web-ne = λ e. absurd (ground (arith, e))

i1-ne : codes "i1" ≢ []
i1-ne = λ e. absurd (ground (arith, e))

start-IsHealthy : IsHealthy start
start-IsHealthy = record { registry = new-IsValid; routes = IsSound-new }

canary-valid : validate (record canary { service = codes "web" }) ≡ ok tt
canary-valid = canary-validate

first_two : get_elem? (keep_if is_exact patterns) 1 ≡ some (exact "GET" (lit "readyz" ∷ []) readyz)
first_two = refl

readyz_match :
    match_pattern (exact "GET" (lit "readyz" ∷ []) readyz) (codes "GET") (codes "readyz" ∷ [])
    ≡ some []
unfolding match_pattern tests
readyz_match = refl

serve-counted_example :
    let r = (serve names_reader page at_nine beat_web start).0 in
    (r.head.status ≡ r.counted.status)
    × (r.counted.method ≡ codes "POST")
    × (r.counted.path ≡ heartbeat_path (codes "web") (codes "i1"))
    × (r.head.correlation_id
        ≡ (if text_eq (codes "abc") [] then new_correlation_id at_nine.random else codes "abc"))
serve-counted_example = serve-counted names_reader page at_nine beat_web start

serve-safe_example :
    (serve names_reader page at_nine get_web registered_server).1 ≡ registered_server
serve-safe_example = serve-safe names_reader page at_nine get_web registered_server (inl refl)

abbrev three_requests : List (Circumstance (List Text) × Request)
three_requests = (at_nine, post_web) ∷ (at_nine, put_web) ∷ (at_nine, delete_web) ∷ []

register-answers_example :
    let (response, s') = serve names_reader page at_nine post_web start in
    ((d : RegisterServiceRequest) × (post_web.registration ≡ some d)
      × (d.service_name ≢ [])
      × (d.instance_id ≢ [])
      × (response.head.status ≡ 201)
      × (s' ≡ record start { registry = (register (instance_of d) 9 new).1 })
      × ((k id : Text)
          → lookup k id s'.registry ≡ (
              if at (key (namespace_for d) d.service_name) d.instance_id k id
              then some (registered_as d 9)
              else lookup k id new)))
    ⊎ (¬ (IsNamed post_web.registration) × (response.head.status ≡ 400) × (s' ≡ start))
register-answers_example = register-answers names_reader page at_nine post_web start refl refl

heartbeat-answers_example :
    let (response, s') = serve names_reader page at_nine beat_web start in
    let ns = namespace_or_default [] in
    ((inst : Instance) × (lookup (key ns (codes "web")) (codes "i1") new ≡ some inst)
      × (response.head.status ≡ 200)
      × (lookup (key ns (codes "web")) (codes "i1") s'.registry ≡ some (refreshed 9 inst))
      × (s' ≡ record start { registry = (heartbeat ns (codes "web") (codes "i1") 9 new).1 }))
    ⊎ ((lookup (key ns (codes "web")) (codes "i1") new ≡ none)
        × (response.head.status ≡ 404)
        × (s' ≡ start))
heartbeat-answers_example =
    heartbeat-answers names_reader page at_nine beat_web start (codes "web") (codes "i1") web-ne
      i1-ne refl refl

deregister-answers_example :
    let (response, s') = serve names_reader page at_nine delete_web registered_server in
    let ns = namespace_or_default [] in
    (response.head.status ≡ 204)
    × (lookup (key ns (codes "web")) (codes "i1") s'.registry ≡ none)
    × (s' ≡ record registered_server {
      registry = (deregister ns (codes "web") (codes "i1") registered_server.registry).1;
    })
deregister-answers_example =
    deregister-answers names_reader page at_nine delete_web registered_server (codes "web")
      (codes "i1") web-ne i1-ne refl refl

register-get_service_example :
    let response =
      (serve names_reader page at_nine get_web
        (serve names_reader page at_nine post_web start).1).0 in
    (xs : List Instance) × (response.head.status ≡ 200)
    × (response.body ≡ instances_body (codes "web") xs ∷ [])
    × (find id_of (codes "i1") xs ≡ some (registered_as registration 9))
register-get_service_example =
    register-get_service names_reader page at_nine at_nine post_web get_web start {d = registration}
      new-IsValid refl refl refl web-ne i1-ne refl refl refl

put_route-get_route_example :
    let (put, s') = serve names_reader page at_nine put_web start in
    let got = (serve names_reader page at_nine get_web_route s').0 in
    (put.head.status ≡ 200)
    × (got.head.status ≡ 200)
    × (got.body ≡ spec_body (record canary { service = codes "web" }) ∷ [])
put_route-get_route_example =
    put_route-get_route names_reader page at_nine at_nine put_web get_web_route start (codes "web")
      {spec = canary} web-ne refl refl refl canary-valid refl refl

abbrev some_bytes : Text
some_bytes = 1 ∷ 2 ∷ 30 ∷ 4 ∷ 5 ∷ 255 ∷ 7 ∷ 8 ∷ []

hex_of_some : new_correlation_id (some some_bytes) ≡ codes "01021e0405ff0708"
unfolding new_correlation_id
hex_of_some = refl

new_correlation_id_injective_example : ◌≡◌ {A = Option Text} (some some_bytes) (some some_bytes)
new_correlation_id_injective_example =
    new_correlation_id_injective (some some_bytes) (some some_bytes) (refl, omega arith)
      (refl, omega arith) refl

serve-logged_example :
    from_context (request_context names_reader page get_web at_nine) (new_logger (codes "info"))
    ≡ record (new_logger (codes "info")) {
      attrs =
          (new_logger (codes "info")).attrs
          ++ (
            correlation_id_key,
            (serve names_reader page at_nine get_web start).0.head.correlation_id,
          )
            ∷ [];
    }
serve-logged_example =
    serve-logged names_reader page at_nine get_web start (new_logger (codes "info"))
      (refl, omega arith)
