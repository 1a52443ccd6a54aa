-- ===== src/Api/Server.antt =====
-- internal/api/server.go: the server, its health endpoints, and a request on its way through
-- `withCorrelationID`, `withMetrics` and the mux.
use distributed_service_mesh.Logging.{background, with_correlation_id, Context}
use distributed_service_mesh.Api.Correlation.{new_correlation_id}
use distributed_service_mesh.Api.Routes.{handle_delete_route, handle_get_route, handle_put_route}
use distributed_service_mesh.Xds.Tracker.{ConnectionTracker}
use distributed_service_mesh.Api.Instances.{
  handle_list_instances, handle_get_service, handle_heartbeat, handle_deregister_instance,
  handle_register_service,
}
use distributed_service_mesh.Base.Dict.{Dict}
use distributed_service_mesh.Routing.Store.{Store}
use distributed_service_mesh.Api.Request.{Request}
use distributed_service_mesh.Api.Mux.{
  deregister_instance, register_service, pprof_trace, pprof_symbol, pprof_profile, pprof_cmdline,
  pprof_index, metrics_page, readyz, page_not_found, healthz, method_not_allowed, handled, Routed,
  dispatch, Target, heartbeat_instance, get_service_page, list_instances, put_route, get_route,
  delete_route, debug_service, debug_envoys, debug_config,
}
use distributed_service_mesh.Base.Text.{codes, text_eq, Text}
use distributed_service_mesh.Api.Debug.{
  handle_debug_config, handle_debug_envoys, handle_debug_service, SnapshotReader,
}
use distributed_service_mesh.Registry.Types.{InMemory, Time}
use distributed_service_mesh.Api.Response.{
  write_header, new_recorder, head_of, library_body, status_body, Body, write, Recorder, Head,
}
use distributed_service_mesh.Base.{[], Option, ◌∷◌, ℕ, not, if◌then◌else◌, List, Bool}

-- What the handlers of a server share, with the last snapshot of the reconciler.
pub record Server (Snapshot : Type 0) : Type 0 where
  pub ready : Bool
  pub registry : InMemory
  pub routes : Store
  pub last_snapshot : Option Snapshot
  pub envoys : ConnectionTracker

unfoldable pub handle_healthz : Recorder → Recorder
handle_healthz w = write (status_body (codes "ok")) (write_header 200 w)

unfoldable pub handle_readyz : Bool → Recorder → Recorder
handle_readyz ready w =
    if not ready
    then write (status_body (codes "not ready")) (write_header 503 w)
    else write (status_body (codes "ready")) (write_header 200 w)

-- What the environment gives to a request: the reading of the clock, the server as a second call of
-- its handler sees it, and the bytes that rand.Read gives, or `none` where it fails.
pub record Circumstance (Snapshot : Type 0) : Type 0 where
  pub now : Time
  pub later : Server Snapshot
  pub random : Option Text

-- The labels of the request counter; the status stands for its text.
pub record Counted : Type 0 where
  pub path : List Text
  pub method : Text
  pub status : ℕ

pub record Response : Type 0 where
  pub head : Head
  pub body : List Body
  pub counted : Counted

-- `page` is the status with which promhttp or pprof answers.
module _ {Snapshot : Type 0} (reader : SnapshotReader Snapshot) (page : Target → Request → ℕ) where
  abbrev library_page : Target → Request → Recorder → Recorder
  library_page target req w = write library_body (write_header (page target req) w)

  abbrev with_registry : Server Snapshot → Recorder × InMemory → Recorder × Server Snapshot
  with_registry s (w, r) = (w, record s { registry = r })

  abbrev with_routes : Server Snapshot → Recorder × Store → Recorder × Server Snapshot
  with_routes s (w, routes) = (w, record s { routes = routes })

  -- The handlers that `New` registers.
  unfoldable pub handle :
      Target
      → Dict Text Text
      → Request
      → Circumstance Snapshot
      → Server Snapshot
      → Recorder
      → Recorder × Server Snapshot
  unfolding handle_healthz handle_readyz
  handle healthz values req env s w = (handle_healthz w, s)
  handle readyz values req env s w = (handle_readyz s.ready w, s)
  handle metrics_page values req env s w = (library_page metrics_page req w, s)
  handle pprof_index values req env s w = (library_page pprof_index req w, s)
  handle pprof_cmdline values req env s w = (library_page pprof_cmdline req w, s)
  handle pprof_profile values req env s w = (library_page pprof_profile req w, s)
  handle pprof_symbol values req env s w = (library_page pprof_symbol req w, s)
  handle pprof_trace values req env s w = (library_page pprof_trace req w, s)
  handle register_service values req env s w =
      with_registry s (handle_register_service req env.now s.registry w)
  handle deregister_instance values req env s w =
      with_registry s (handle_deregister_instance req values s.registry w)
  handle heartbeat_instance values req env s w =
      with_registry s (handle_heartbeat req values env.now s.registry w)
  handle get_service_page values req env s w = (handle_get_service req values s.registry w, s)
  handle list_instances values req env s w =
      (handle_list_instances req values env.now s.registry w, s)
  handle put_route values req env s w = with_routes s (handle_put_route req values s.routes w)
  handle get_route values req env s w = (handle_get_route values s.routes w, s)
  handle delete_route values req env s w = with_routes s (handle_delete_route values s.routes w)
  handle debug_service values req env s w =
      (handle_debug_service req values s.registry env.later.routes w, s)
  handle debug_envoys values req env s w = (handle_debug_envoys s.envoys env.later.envoys w, s)
  handle debug_config values req env s w =
      (handle_debug_config reader values s.last_snapshot env.later.routes w, s)

  -- `mux.ServeHTTP`
  unfoldable pub serve_mux :
      Routed
      → Request
      → Circumstance Snapshot
      → Server Snapshot
      → Recorder
      → Recorder × Server Snapshot
  unfolding handle
  serve_mux (handled target values) req env s w = handle target values req env s w
  serve_mux method_not_allowed req env s w = (write library_body (write_header 405 w), s)
  serve_mux page_not_found req env s w = (write library_body (write_header 404 w), s)

  -- `withCorrelationID`: the header of the request, or a new one.
  unfoldable pub correlation_of : Request → Circumstance Snapshot → Text
  correlation_of req env =
      if text_eq req.correlation_id [] then new_correlation_id env.random else req.correlation_id

  -- The context that `withCorrelationID` gives to the handlers.
  unfoldable pub request_context : Request → Circumstance Snapshot → Context
  unfolding correlation_of
  request_context req env = with_correlation_id background (correlation_of req env)

  -- `withMetrics`, with what net/http sends.
  unfoldable pub response_of : Request → Recorder → Response
  response_of req w = record {
    head = head_of w;
    body = w.body;
    counted = record { path = req.path; method = req.method; status = w.status };
  }

  unfoldable pub serve :
      Circumstance Snapshot → Request → Server Snapshot → Response × Server Snapshot
  unfolding serve_mux correlation_of response_of
  serve env req s =
      let (w, s') =
        serve_mux (dispatch req.method req.path) req env s
          (new_recorder (correlation_of req env)) in
      (response_of req w, s')

  -- Requests one after another, each in its circumstance.
  unfoldable pub serve_all :
      List (Circumstance Snapshot × Request) → Server Snapshot → List Response × Server Snapshot
  unfolding serve
  serve_all [] s = ([], s)
  serve_all ((env, req) ∷ rest) s =
      let (response, s') = serve env req s in
      let (responses, last) = serve_all rest s' in (response ∷ responses, last)
