-- ===== src/Api/Counting.antt =====
-- internal/api/server.go: what `withMetrics` counts and what `withCorrelationID` sets, against what
-- goes out.
use distributed_service_mesh.Api.Correlation.{new_correlation_id}
use distributed_service_mesh.Registry.Ops.{register, deregister, get_service}
use distributed_service_mesh.Api.Server.{
  Server, Circumstance, handle_healthz, correlation_of, handle_readyz, response_of, serve,
  serve_mux, handle,
}
use distributed_service_mesh.Routing.Store.{set, spec_of, Store}
use distributed_service_mesh.Registry.Types.{missing_names, not_found, Instance, Time, InMemory}
use distributed_service_mesh.Base.Outcome.{Outcome-cases, err, ok, Outcome}
use distributed_service_mesh.Base.Dict.{Dict}
use distributed_service_mesh.Api.Request.{namespace_or_default, Request}
use distributed_service_mesh.Api.Mux.{
  put_route, list_instances, get_service_page, heartbeat_instance, deregister_instance,
  register_service, pprof_trace, pprof_symbol, pprof_profile, pprof_cmdline, pprof_index,
  metrics_page, readyz, healthz, page_not_found, method_not_allowed, dispatch, handled, Routed,
  Target, get_route, delete_route, debug_service, debug_envoys, debug_config,
}
use distributed_service_mesh.Api.Routes.{
  handle_delete_route, service_in, put_decoded, handle_put_route, handle_get_route,
}
use distributed_service_mesh.Api.Instances.{
  instance_of, handle_get_service, handle_heartbeat, id_in, name_of, register_decoded,
  handle_deregister_instance, instances_reply, heartbeat_reply, handle_register_service,
  handle_list_instances,
}
use distributed_service_mesh.Api.Response.{
  Message, Body, new_recorder, head_of, set_json, Recorder, write_json_error, write_header, write,
}
use distributed_service_mesh.Base.Text.{codes, text_eq, Text}
use distributed_service_mesh.Api.Debug.{
  handle_debug_envoys, handle_debug_service, handle_debug_config, SnapshotReader,
}
use distributed_service_mesh.Base.{
  if◌then◌else◌, ◌||◌, [], inr, none, inl, some, Bool-cases, Option-cases, refl, Option, List, ℕ,
  ◌≡◌,
}
use distributed_service_mesh.Registry

-- The recorder has the status of the head that goes out, and the head the ID.
abbrev IsCounted : Text → Recorder → Type 0
IsCounted id w = ((head_of w).status ≡ w.status) × ((head_of w).correlation_id ≡ id)

module _ (id : Text) where
  error-IsCounted :
      (status : ℕ) (msg : Message) → IsCounted id (write_json_error status msg (new_recorder id))
  unfolding write_json_error head_of
  error-IsCounted status msg = (refl, refl)

  plain-IsCounted :
      (status : ℕ) (b : Body) → IsCounted id (write b (write_header status (new_recorder id)))
  unfolding write write_header head_of
  plain-IsCounted status b = (refl, refl)

  json-IsCounted : (b : Body) → IsCounted id (write b (set_json (new_recorder id)))
  unfolding write set_json head_of
  json-IsCounted b = (refl, refl)

  empty-IsCounted : (status : ℕ) → IsCounted id (write_header status (new_recorder id))
  unfolding write_header head_of
  empty-IsCounted status = (refl, refl)

  register-IsCounted :
      (req : Request) (now : Time) (r : InMemory)
      → IsCounted id (handle_register_service req now r (new_recorder id)).0
  unfolding handle_register_service register_decoded
  register-IsCounted req now r = elim (Option-cases req.registration) [
    | inl bad ↦ rw (bad, handle_register_service) (error-IsCounted _ _)
    | inr (d, good) ↦ elim (Bool-cases (text_eq d.service_name [] || text_eq d.instance_id [])) [
      | inl unnamed ↦ rw (good, unnamed, handle_register_service) (error-IsCounted _ _)
      | inr named ↦ elim (Outcome-cases (register (instance_of d) now r).0) [
        | inl (t, done) ↦ rw (good, named, done, handle_register_service) (plain-IsCounted _ _)
        | inr (e, bad) ↦ rw (good, named, bad, handle_register_service) (error-IsCounted _ _)
      ]
    ]
  ]

  deregister-IsCounted :
      (req : Request) (values : Dict Text Text) (r : InMemory)
      → IsCounted id (handle_deregister_instance req values r (new_recorder id)).0
  unfolding handle_deregister_instance
  deregister-IsCounted req values r =
      let ns = namespace_or_default req.namespace in
      elim (Outcome-cases (deregister ns (name_of values) (id_in values) r).0) [
        | inl (t, done) ↦ rw (done, handle_deregister_instance) (empty-IsCounted _)
        | inr (e, bad) ↦ rw (bad, handle_deregister_instance) (error-IsCounted _ _)
      ]

  heartbeat_reply-IsCounted :
      (o : Outcome Registry.Types.Error (Unit {0}))
      → IsCounted id (heartbeat_reply o (new_recorder id))
  unfolding heartbeat_reply
  heartbeat_reply-IsCounted (ok t) = plain-IsCounted _ _
  heartbeat_reply-IsCounted (err not_found) = error-IsCounted _ _
  heartbeat_reply-IsCounted (err missing_names) = error-IsCounted _ _

  instances_reply-IsCounted :
      (name : Text) (o : Outcome Registry.Types.Error (List Instance))
      → IsCounted id (instances_reply name o (new_recorder id))
  unfolding instances_reply
  instances_reply-IsCounted name (ok xs) = json-IsCounted _
  instances_reply-IsCounted name (err not_found) = error-IsCounted _ _
  instances_reply-IsCounted name (err missing_names) = json-IsCounted _

  list-IsCounted :
      (req : Request) (values : Dict Text Text) (now : Time) (r : InMemory)
      → IsCounted id (handle_list_instances req values now r (new_recorder id))
  unfolding handle_list_instances
  list-IsCounted req values now r = elim (Bool-cases (text_eq req.healthy (codes "true"))) [
    | inl only_healthy ↦ rw (only_healthy, handle_list_instances) (json-IsCounted _)
    | inr all ↦ rw (all, handle_list_instances) (instances_reply-IsCounted _ _)
  ]

  put-IsCounted :
      (req : Request) (values : Dict Text Text) (s : Store)
      → IsCounted id (handle_put_route req values s (new_recorder id)).0
  unfolding handle_put_route put_decoded
  put-IsCounted req values s = elim (Option-cases req.spec) [
    | inl bad ↦ rw (bad, handle_put_route) (error-IsCounted _ _)
    | inr (spec, good) ↦
        elim (Outcome-cases (set (record spec { service = service_in values }) s).0) [
          | inl (t, done) ↦ rw (good, done, handle_put_route, put_decoded) (json-IsCounted _)
          | inr (e, refused) ↦
              rw (good, refused, handle_put_route, put_decoded) (error-IsCounted _ _)
        ]
  ]

  get-IsCounted :
      (values : Dict Text Text) (s : Store)
      → IsCounted id (handle_get_route values s (new_recorder id))
  unfolding handle_get_route
  get-IsCounted values s = elim (Option-cases (spec_of (service_in values) s)) [
    | inl absent ↦ rw (absent, handle_get_route) (error-IsCounted _ _)
    | inr (spec, found) ↦ rw (found, handle_get_route) (json-IsCounted _)
  ]

  debug_service-IsCounted :
      (req : Request) (values : Dict Text Text) (r : InMemory) (s : Store)
      → IsCounted id (handle_debug_service req values r s (new_recorder id))
  unfolding handle_debug_service
  debug_service-IsCounted req values r s =
      let ns = namespace_or_default req.namespace in
      elim (Outcome-cases (get_service ns (name_of values) r)) [
        | inl (xs, found) ↦ rw (found, handle_debug_service) (json-IsCounted _)
        | inr (e, absent) ↦ rw (absent, handle_debug_service) (error-IsCounted _ _)
      ]

  debug_config-IsCounted :
      {Snapshot : Type 0} (reader : SnapshotReader Snapshot) (values : Dict Text Text)
      (snapshot : Option Snapshot) (s : Store)
      → IsCounted id (handle_debug_config reader values snapshot s (new_recorder id))
  unfolding handle_debug_config
  debug_config-IsCounted reader values none s = error-IsCounted _ _
  debug_config-IsCounted reader values (some snap) s = json-IsCounted _

module _ {Snapshot : Type 0} (reader : SnapshotReader Snapshot) (page : Target → Request → ℕ) where
  handle-IsCounted :
      (t : Target) (values : Dict Text Text) (req : Request) (env : Circumstance Snapshot)
      (s : Server Snapshot) (id : Text)
      → IsCounted id (handle reader page t values req env s (new_recorder id)).0
  unfolding handle handle_readyz handle_healthz handle_debug_envoys handle_delete_route
      handle_heartbeat handle_get_service
  handle-IsCounted healthz values req env s id = plain-IsCounted id _ _
  handle-IsCounted readyz values req env s id = elim (Bool-cases s.ready) [
    | inl up ↦ rw (up, handle_readyz) (plain-IsCounted id _ _)
    | inr down ↦ rw (down, handle_readyz) (plain-IsCounted id _ _)
  ]
  handle-IsCounted metrics_page values req env s id = plain-IsCounted id _ _
  handle-IsCounted pprof_index values req env s id = plain-IsCounted id _ _
  handle-IsCounted pprof_cmdline values req env s id = plain-IsCounted id _ _
  handle-IsCounted pprof_profile values req env s id = plain-IsCounted id _ _
  handle-IsCounted pprof_symbol values req env s id = plain-IsCounted id _ _
  handle-IsCounted pprof_trace values req env s id = plain-IsCounted id _ _
  handle-IsCounted register_service values req env s id =
      register-IsCounted id req env.now s.registry
  handle-IsCounted deregister_instance values req env s id =
      deregister-IsCounted id req values s.registry
  handle-IsCounted heartbeat_instance values req env s id = heartbeat_reply-IsCounted id _
  handle-IsCounted get_service_page values req env s id = instances_reply-IsCounted id _ _
  handle-IsCounted list_instances values req env s id =
      list-IsCounted id req values env.now s.registry
  handle-IsCounted put_route values req env s id = put-IsCounted id req values s.routes
  handle-IsCounted get_route values req env s id = get-IsCounted id values s.routes
  handle-IsCounted delete_route values req env s id = empty-IsCounted id _
  handle-IsCounted debug_service values req env s id =
      debug_service-IsCounted id req values s.registry env.later.routes
  handle-IsCounted debug_envoys values req env s id = json-IsCounted id _
  handle-IsCounted debug_config values req env s id =
      debug_config-IsCounted id reader values s.last_snapshot env.later.routes

  serve_mux-IsCounted :
      (to : Routed) (req : Request) (env : Circumstance Snapshot) (s : Server Snapshot) (id : Text)
      → IsCounted id (serve_mux reader page to req env s (new_recorder id)).0
  unfolding serve_mux
  serve_mux-IsCounted (handled t values) req env s id = handle-IsCounted t values req env s id
  serve_mux-IsCounted method_not_allowed req env s id = plain-IsCounted id _ _
  serve_mux-IsCounted page_not_found req env s id = plain-IsCounted id _ _

  -- Every response has the status that the request is counted under, with the method and the path
  -- of the request, and the correlation ID of the request, or a new one if it has none.
  pub serve-counted :
      (env : Circumstance Snapshot) (req : Request) (s : Server Snapshot)
      → let r = (serve reader page env req s).0 in
        (r.head.status ≡ r.counted.status)
        × (r.counted.method ≡ req.method)
        × (r.counted.path ≡ req.path)
        × (r.head.correlation_id ≡ (
            if text_eq req.correlation_id []
            then new_correlation_id env.random
            else req.correlation_id))
  unfolding serve response_of correlation_of
  serve-counted env req s =
      let (same, id) =
        serve_mux-IsCounted (dispatch req.method req.path) req env s
          (correlation_of reader page req env) in
      (same, refl, refl, id)
