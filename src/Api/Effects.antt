-- ===== src/Api/Effects.antt =====
-- internal/api: what a request changes. Each handler makes one call at most that changes the
-- registry or the store, and a GET handler makes none.
use distributed_service_mesh.Base.Outcome.{Outcome-cases}
use mathlib.Core.Path.{subst}
use distributed_service_mesh.Routing.Spec.{Spec}
use distributed_service_mesh.Registry.Ops.{register, deregister}
use distributed_service_mesh.Base.Text.{text_eq, Text}
use distributed_service_mesh.Api.Response.{Recorder}
use distributed_service_mesh.Base.Dict.{Dict}
use distributed_service_mesh.Api.Request.{namespace_or_default, Request}
use distributed_service_mesh.Api.Server.{handle, Circumstance, Server}
use distributed_service_mesh.Registry.Calls.{registers, deregisters, beats, call, Call, call_all}
use distributed_service_mesh.Api.Debug.{SnapshotReader}
use distributed_service_mesh.Routing.Store.{
  put_spec, set, drop_spec, change, Change, change_all, Store,
}
use distributed_service_mesh.Registry.Types.{Time, InMemory}
use distributed_service_mesh.Api.Instances.{
  instance_of, id_in, name_of, register_decoded, handle_deregister_instance,
  handle_register_service, handle_heartbeat,
}
use distributed_service_mesh.Api.Routes.{
  service_in, put_decoded, handle_put_route, handle_delete_route,
}
use distributed_service_mesh.Base.{
  ◌||◌, sym, Bool-cases, inr, inl, Option-cases, ◌≤◌, true, arith, ℕ, ◌∷◌, length, false, refl, [],
  Bool, List, ◌≡◌,
}
use distributed_service_mesh.Api.Mux.{
  Target, healthz, readyz, metrics_page, pprof_index, pprof_cmdline, pprof_profile, pprof_symbol,
  pprof_trace, register_service, deregister_instance, heartbeat_instance, get_service_page,
  list_instances, put_route, get_route, delete_route, debug_service, debug_envoys, debug_config,
}

-- The registry after one call at most.
abbrev pub Called : InMemory → InMemory → Type 0
Called r r' = (cs : List Call) × (length cs ≤ 1) × (r' ≡ call_all cs r)

-- The store after one change at most.
abbrev pub Changed : Store → Store → Type 0
Changed s s' = (cs : List Change) × (length cs ≤ 1) × (s' ≡ change_all cs s)

uncalled : (r : InMemory) → Called r r
unfolding call_all
uncalled r = ([], omega arith, refl)

unchanged : (s : Store) → Changed s s
unfolding change_all
unchanged s = ([], omega arith, refl)

called : (c : Call) (r : InMemory) → Called r (call c r)
unfolding call_all
called c r = (c ∷ [], omega arith, refl)

changed : (c : Change) (s : Store) → Changed s (change c s)
unfolding change_all
changed c s = (c ∷ [], omega arith, refl)

register-Called :
    (req : Request) (now : Time) (r : InMemory) (w : Recorder)
    → Called r (handle_register_service req now r w).1
unfolding handle_register_service register_decoded
register-Called req now r w = elim (Option-cases req.registration) [
  | inl bad ↦ rw (bad, handle_register_service) (uncalled r)
  | inr (d, good) ↦ elim (Bool-cases (text_eq d.service_name [] || text_eq d.instance_id [])) [
    | inl unnamed ↦ rw (good, unnamed, handle_register_service) (uncalled r)
    | inr named ↦
        let made : Called r (register (instance_of d) now r).1 =
          unfold call in called (registers (instance_of d) now) r in
        elim (Outcome-cases (register (instance_of d) now r).0) [
          | inl (t, done) ↦ rw (good, named, done, handle_register_service, register_decoded) made
          | inr (e, bad) ↦ rw (good, named, bad, handle_register_service, register_decoded) made
        ]
  ]
]

deregister-Called :
    (req : Request) (values : Dict Text Text) (r : InMemory) (w : Recorder)
    → Called r (handle_deregister_instance req values r w).1
unfolding handle_deregister_instance
deregister-Called req values r w =
    let ns = namespace_or_default req.namespace in
    let made : Called r (deregister ns (name_of values) (id_in values) r).1 =
      unfold call in called (deregisters ns (name_of values) (id_in values)) r in
    elim (Outcome-cases (deregister ns (name_of values) (id_in values) r).0) [
      | inl (t, done) ↦ rw (done, handle_deregister_instance) made
      | inr (e, bad) ↦ rw (bad, handle_deregister_instance) made
    ]

heartbeat-Called :
    (req : Request) (values : Dict Text Text) (now : Time) (r : InMemory) (w : Recorder)
    → Called r (handle_heartbeat req values now r w).1
unfolding handle_heartbeat call
heartbeat-Called req values now r w =
    called (beats (namespace_or_default req.namespace) (name_of values) (id_in values) now) r

put-Changed :
    (req : Request) (values : Dict Text Text) (s : Store) (w : Recorder)
    → Changed s (handle_put_route req values s w).1
unfolding handle_put_route put_decoded
put-Changed req values s w = elim (Option-cases req.spec) [
  | inl bad ↦ rw (bad, handle_put_route) (unchanged s)
  | inr (spec, good) ↦
      let spec' : Spec = record spec { service = service_in values } in
      let made : Changed s (set spec' s).1 = unfold change in changed (put_spec spec') s in
      elim (Outcome-cases (set spec' s).0) [
        | inl (t, done) ↦ rw (good, done, handle_put_route, put_decoded) made
        | inr (e, refused) ↦ rw (good, refused, handle_put_route, put_decoded) made
      ]
]

delete-Changed :
    (values : Dict Text Text) (s : Store) (w : Recorder)
    → Changed s (handle_delete_route values s w).1
unfolding handle_delete_route change
delete-Changed values s w = changed (drop_spec (service_in values)) s

module _ {Snapshot : Type 0} where
  -- What a request may change: the registry and the routes, each by one call at most.
  pub record IsStep (s s' : Server Snapshot) : Type 0 where
    pub registry : Called s.registry s'.registry
    pub routes : Changed s.routes s'.routes
    pub ready : s'.ready ≡ s.ready
    pub last_snapshot : s'.last_snapshot ≡ s.last_snapshot
    pub envoys : s'.envoys ≡ s.envoys

  pub still : (s : Server Snapshot) → IsStep s s
  still s = record {
    registry = uncalled s.registry;
    routes = unchanged s.routes;
    ready = refl;
    last_snapshot = refl;
    envoys = refl;
  }

  registry-IsStep :
      (s : Server Snapshot) (r : InMemory)
      → Called s.registry r
      → IsStep s (record s { registry = r })
  registry-IsStep s r c = record {
    registry = c;
    routes = unchanged s.routes;
    ready = refl;
    last_snapshot = refl;
    envoys = refl;
  }

  routes-IsStep :
      (s : Server Snapshot) (routes : Store)
      → Changed s.routes routes
      → IsStep s (record s { routes = routes })
  routes-IsStep s routes c = record {
    registry = uncalled s.registry;
    routes = c;
    ready = refl;
    last_snapshot = refl;
    envoys = refl;
  }

-- The handlers that only read.
unfoldable pub is_reader : Target → Bool
is_reader register_service = false
is_reader deregister_instance = false
is_reader heartbeat_instance = false
is_reader put_route = false
is_reader delete_route = false
is_reader healthz = true
is_reader readyz = true
is_reader metrics_page = true
is_reader pprof_index = true
is_reader pprof_cmdline = true
is_reader pprof_profile = true
is_reader pprof_symbol = true
is_reader pprof_trace = true
is_reader get_service_page = true
is_reader list_instances = true
is_reader get_route = true
is_reader debug_service = true
is_reader debug_envoys = true
is_reader debug_config = true

module _ {Snapshot : Type 0} (reader : SnapshotReader Snapshot) (page : Target → Request → ℕ)
    (values : Dict Text Text) (req : Request) (env : Circumstance Snapshot) (s : Server Snapshot)
    (w : Recorder) where
  pub handle-reader :
      (t : Target) → is_reader t ≡ true → (handle reader page t values req env s w).1 ≡ s
  unfolding handle is_reader
  handle-reader register_service h = cc
  handle-reader deregister_instance h = cc
  handle-reader heartbeat_instance h = cc
  handle-reader put_route h = cc
  handle-reader delete_route h = cc
  handle-reader healthz h = refl
  handle-reader readyz h = refl
  handle-reader metrics_page h = refl
  handle-reader pprof_index h = refl
  handle-reader pprof_cmdline h = refl
  handle-reader pprof_profile h = refl
  handle-reader pprof_symbol h = refl
  handle-reader pprof_trace h = refl
  handle-reader get_service_page h = refl
  handle-reader list_instances h = refl
  handle-reader get_route h = refl
  handle-reader debug_service h = refl
  handle-reader debug_envoys h = refl
  handle-reader debug_config h = refl

  handle-writer :
      (t : Target) → is_reader t ≡ false → IsStep s (handle reader page t values req env s w).1
  unfolding handle is_reader
  handle-writer register_service h = registry-IsStep s _ (register-Called req env.now s.registry w)
  handle-writer deregister_instance h =
      registry-IsStep s _ (deregister-Called req values s.registry w)
  handle-writer heartbeat_instance h =
      registry-IsStep s _ (heartbeat-Called req values env.now s.registry w)
  handle-writer put_route h = routes-IsStep s _ (put-Changed req values s.routes w)
  handle-writer delete_route h = routes-IsStep s _ (delete-Changed values s.routes w)
  handle-writer healthz h = cc
  handle-writer readyz h = cc
  handle-writer metrics_page h = cc
  handle-writer pprof_index h = cc
  handle-writer pprof_cmdline h = cc
  handle-writer pprof_profile h = cc
  handle-writer pprof_symbol h = cc
  handle-writer pprof_trace h = cc
  handle-writer get_service_page h = cc
  handle-writer list_instances h = cc
  handle-writer get_route h = cc
  handle-writer debug_service h = cc
  handle-writer debug_envoys h = cc
  handle-writer debug_config h = cc

  pub handle-IsStep : (t : Target) → IsStep s (handle reader page t values req env s w).1
  handle-IsStep t = elim (Bool-cases (is_reader t)) [
    | inl reads ↦ subst (IsStep s) (sym (handle-reader t reads)) (still s)
    | inr writes ↦ handle-writer t writes
  ]
